-- ===== src/Fs.antt =====
-- os/fs: the file system.
pub mod Superblock
pub mod Data
pub mod Inode
pub mod Directory
pub mod Path
