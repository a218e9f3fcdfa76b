-- ===== src/Lsm.antt =====
-- pkg/lsm: the log-structured merge tree: its Bloom filter, its tables on disk with their merge, the
-- memory table with its skip list, and the tree over them.
pub mod Bloom
pub mod SsTable
pub mod SkipList
pub mod Merge
pub mod MemTable
pub mod Tree
mod Tests
