-- ===== src/Distributed.antt =====
-- pkg/distributed: transactions over several databases.
pub mod Coordinator
pub mod TwoPhase
mod Tests
