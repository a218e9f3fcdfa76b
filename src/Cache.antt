-- ===== src/Cache.antt =====
-- pkg/cache: the cache of query results.
pub mod Lru
mod Tests
