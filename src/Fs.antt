-- ===== src/Fs.antt =====
-- kernel/fs/basefs: the file system on a disk. Cache has the sector cache, Bitmap the cached frame of
-- the allocation bitmap, Device the allocation of blocks, and Header the fields of a file's header.
pub mod Cache
pub mod Bitmap
pub mod Device
pub mod File
