-- ===== src/Ledger/Chain.antt =====
-- crates/myriadmesh-ledger/src/block.rs: the data of a block.
use myriadmesh_server.Base.{ℕ, List}
use myriadmesh_server.Base.Bytes.{Bytes}
use myriadmesh_server.Ledger.Entry.{NodeId, Signature, LedgerEntry}

abbrev pub BlockHash : Type 0
BlockHash = Bytes

abbrev pub MerkleRoot : Type 0
MerkleRoot = Bytes

abbrev pub block_version : ℕ
block_version = 1

abbrev pub block_hash_size : ℕ
block_hash_size = 32

pub record BlockHeader : Type 0 where
  pub version : ℕ
  pub height : ℕ
  pub timestamp : ℕ
  pub previous_hash : BlockHash
  pub merkle_root : MerkleRoot
  pub creator : NodeId
  pub creator_signature : Signature

pub record ValidatorSignature : Type 0 where
  pub validator : NodeId
  pub signature : Signature

pub record Block : Type 0 where
  pub header : BlockHeader
  pub entries : List LedgerEntry
  pub validator_signatures : List ValidatorSignature
