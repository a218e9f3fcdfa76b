-- ===== src/Mvcc.antt =====
-- pkg/mvcc: multi-version concurrency control. The version store holds the committed versions of
-- every key; the transaction manager runs transactions against it.
pub mod VersionStore
pub mod Manager
pub mod Access
pub mod Commit
pub mod Trace
mod Tests
