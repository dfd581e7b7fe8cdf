-- ===== src/Ledger.antt =====
-- crates/myriadmesh-ledger: the ledger's entries, blocks, Merkle roots, consensus, storage and
-- synchronisation.
pub mod Error
pub mod Entry
pub mod Chain
pub mod Codec
pub mod Merkle
pub mod Float
pub mod Block
pub mod Consensus
pub mod Disk
pub mod Storage
pub mod Sync
