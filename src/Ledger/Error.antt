-- ===== src/Ledger/Error.antt =====
-- crates/myriadmesh-ledger/src/error.rs. A text that the code formats is kept as the values that
-- it is formatted from, and a hex text as its bytes.
use myriadmesh_server.Base.{ℕ}
use myriadmesh_server.Base.Bytes.{Bytes}
use myriadmesh_server.Base.Result.{Result}

-- The messages of the errors that carry a text.
pub data Message : Type 0 where
  unsupported_version : ℕ → Message
  timestamp_not_after : ℕ → ℕ → Message
  missing_previous : ℕ → Message
  invalid_height_range : Message
  not_found_by_hash : Message
  no_blocks : Message
  bincode : Message

pub data LedgerError : Type 0 where
  validation_failed : Message → LedgerError
  hash_mismatch : Bytes → Bytes → LedgerError
  invalid_signature : Message → LedgerError
  merkle_root_mismatch : Bytes → Bytes → LedgerError
  insufficient_signatures : ℕ → ℕ → LedgerError
  block_not_found : ℕ → LedgerError
  invalid_height : ℕ → ℕ → LedgerError
  storage_error : Message → LedgerError
  serialization_error : Message → LedgerError
  deserialization_error : Message → LedgerError
  crypto_error : Message → LedgerError
  invalid_entry : Message → LedgerError
  consensus_error : Message → LedgerError
  insufficient_reputation : Bytes → ℕ → ℕ → LedgerError
  io_error : LedgerError
  bincode_error : LedgerError

abbrev pub Ledger : Type 0 → Type 0
Ledger = Result LedgerError
