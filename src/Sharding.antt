-- ===== src/Sharding.antt =====
-- pkg/sharding: the metadata of the shards.
pub mod ConfigServer
