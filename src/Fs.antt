-- ===== src/Fs.antt =====
-- fs/: paths, the mount table and the file systems behind it.
pub mod Outcome
pub mod Bytes
pub mod Path
pub mod Mounts
pub mod FatTime
pub mod Fat
pub mod Ext2
mod Tests
