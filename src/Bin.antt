-- ===== src/Bin.antt =====
-- os/bin: the programs that the kernel starts.
pub mod Shell
