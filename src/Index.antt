-- ===== src/Index.antt =====
-- The indexes of pkg/index.
pub mod Comparison
pub mod BTree
pub mod Key
mod Tests
