-- ===== src/Storage.antt =====
-- pkg/storage: pages, the list of free pages, the disk manager, the buffer pool and the write-ahead
-- log.
pub mod Bytes
pub mod Page
pub mod SlottedPage
pub mod FreePage
pub mod DiskManager
pub mod Wal
pub mod BufferPool
mod Tests
