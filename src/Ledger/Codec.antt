-- ===== src/Ledger/Codec.antt =====
-- What the ledger takes from other crates: the hash of `blake2`, and `bincode`, whose calls may
-- fail. `HashLength` and `ReadsBack` state what they document.
use myriadmesh_server.Base.{Option, some, ◌≡◌, length}
use myriadmesh_server.Base.Bytes.{Bytes}
use myriadmesh_server.Ledger.Entry.{LedgerEntry}
use myriadmesh_server.Ledger.Chain.{BlockHeader, Block}

pub record Codec : Type 0 where
  -- `Blake2b512` of a whole input
  pub blake2b : Bytes → Bytes
  -- `bincode::serialize`
  pub entry_bytes : LedgerEntry → Option Bytes
  pub header_bytes : BlockHeader → Option Bytes
  pub block_bytes : Block → Option Bytes
  -- `bincode::deserialize`
  pub block_of_bytes : Bytes → Option Block

-- A digest has 64 bytes.
abbrev pub HashLength : (Bytes → Bytes) → Type 0
HashLength hash = (x : Bytes) → length (hash x) ≡ 64

-- What was serialised reads back as it was.
abbrev pub ReadsBack : Codec → Type 0
ReadsBack c =
    (b : Block) (bytes : Bytes) → c.block_bytes b ≡ some bytes → c.block_of_bytes bytes ≡ some b
