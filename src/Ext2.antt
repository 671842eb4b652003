-- ===== src/Ext2.antt =====
-- ext2.c: the file system.
pub mod Numbers
pub mod Disk
pub mod Inodes
pub mod Blocks
pub mod Release
pub mod Directory
pub mod Files
pub mod Bitmap
pub mod Allocation
pub mod Table
pub mod Entries
pub mod Mapping
pub mod Calls
pub mod Format
pub mod Fresh
mod Tests
