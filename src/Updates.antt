-- ===== src/Updates.antt =====
-- crates/myriadmesh-updates: the distribution and the scheduling of updates of the adapters.
pub mod Error
pub mod Package
pub mod Verification
pub mod Distribution
pub mod Schedule
pub mod Window
pub mod Coordination
