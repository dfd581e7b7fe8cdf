-- ===== src/Examples.antt =====
-- Concrete inputs: a codec, numbers, blocks, stores and caches at which the theorems are applied.
pub mod Codes
pub mod Numbers
mod Chains
mod Blocks
mod Storing
mod Choosing
mod Syncing
pub mod Caching
pub mod Pairings
pub mod Packages
mod Updating
mod Powering
mod Nodes
mod Appliances
mod Diagnosing
