-- ===== src/Fs.antt =====
-- kern/fs: the file system, from the disk up.
pub mod Disk
pub mod Log
pub mod Block
pub mod Inode
pub mod Content
pub mod File
pub mod Dir
pub mod Path
pub mod UserCopy
pub mod Calls
pub mod Create
pub mod Names
pub mod Open
mod Tests
