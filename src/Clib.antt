-- ===== src/Clib.antt =====
-- os/lib: the C library of the kernel.
pub mod Strings
pub mod Bitmap
pub mod Stdlib
pub mod Stdio
pub mod File
