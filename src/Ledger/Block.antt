-- ===== src/Ledger/Block.antt =====
-- crates/myriadmesh-ledger/src/block.rs: the operations of a block. The clock's reading is an
-- argument of `new`, and the codec and hash of other crates are a parameter.
pub mod Validation
pub mod Quorum
pub mod History
use myriadmesh_server.Base.{
  ℕ, ◌+◌, ◌/◌, ◌%◌, Bool, List, [], ◌∷◌, ◌++◌, length, take, replicate, add64, mul64, ltb, leb,
  if◌then◌else◌, ◌==◌, nat_eq,
}
use myriadmesh_server.Base.Bytes.{Bytes, bytes_eq}
use myriadmesh_server.Base.Result.{ok, err, ◌>>=◌, ◌>>◌, guard, ok_or}
use myriadmesh_server.Ledger.Error.{
  Ledger, validation_failed, unsupported_version, timestamp_not_after, serialization_error,
  deserialization_error, bincode, merkle_root_mismatch, invalid_height, hash_mismatch,
}
use myriadmesh_server.Ledger.Entry.{LedgerEntry, NodeId, Signature}
use myriadmesh_server.Ledger.Chain.{
  Block, BlockHeader, ValidatorSignature, BlockHash, block_version, block_hash_size,
}
use myriadmesh_server.Ledger.Codec.{Codec}
use myriadmesh_server.Ledger.Merkle.{calculate_merkle_root}
use Prim.Native.Nat.{zero, suc}

-- `push` on the validator signatures
unfoldable pub add_validator_signature : Block → NodeId → Signature → Block
add_validator_signature b validator signature = record b {
  validator_signatures =
      b.validator_signatures ++ record { validator = validator; signature = signature } ∷ [];
}

unfoldable pub signature_count : Block → ℕ
signature_count b = length b.validator_signatures

-- `(total_known_nodes * 2).div_ceil(3)`
unfoldable pub required_signatures : ℕ → ℕ
required_signatures total =
    let twice = mul64 total 2 in if ltb 0 (twice % 3) then twice / 3 + 1 else twice / 3

unfoldable pub has_consensus : Block → ℕ → Bool
unfolding required_signatures
has_consensus b total_known_nodes =
    leb (required_signatures total_known_nodes) (length b.validator_signatures)

module _ (c : Codec) where
  -- `entries.iter().map(|e| e.to_bytes()).collect()`, which stops at the first error
  unfoldable pub entries_bytes : List LedgerEntry → Ledger (List Bytes)
  entries_bytes [] = ok []
  entries_bytes (e ∷ es) = do
    bytes ← ok_or (c.entry_bytes e) (serialization_error bincode)
    rest ← entries_bytes es
    ok (bytes ∷ rest)

  unfoldable pub new : ℕ → ℕ → BlockHash → NodeId → Signature → List LedgerEntry → Ledger Block
  new now height previous_hash creator creator_signature entries = do
    bytes ← entries_bytes entries
    ok (record {
      header = record {
        version = block_version;
        height = height;
        timestamp = now;
        previous_hash = previous_hash;
        merkle_root = calculate_merkle_root c.blake2b bytes;
        creator = creator;
        creator_signature = creator_signature;
      };
      entries = entries;
      validator_signatures = [];
    })

  unfoldable pub genesis : ℕ → NodeId → Signature → Ledger Block
  unfolding new
  genesis now creator creator_signature =
      new now 0 (replicate block_hash_size 0) creator creator_signature []

  unfoldable pub calculate_hash : Block → Ledger BlockHash
  calculate_hash b = do
    header_bytes ← ok_or (c.header_bytes b.header) (serialization_error bincode)
    ok (take block_hash_size (c.blake2b header_bytes))

  unfoldable pub validate_structure : Block → Ledger (Unit {0})
  validate_structure b = do
    guard (b.header.version == block_version)
        (validation_failed (unsupported_version b.header.version))
    bytes ← entries_bytes b.entries
    let calculated_root = calculate_merkle_root c.blake2b bytes
    guard (calculated_root == b.header.merkle_root)
        (merkle_root_mismatch b.header.merkle_root calculated_root)

  unfoldable pub validate_chain_link : Block → Block → Ledger (Unit {0})
  validate_chain_link b previous_block = do
    let expected = add64 previous_block.header.height 1
    guard (b.header.height == expected) (invalid_height expected b.header.height)
    previous_hash ← calculate_hash previous_block
    guard (b.header.previous_hash == previous_hash)
        (hash_mismatch previous_hash b.header.previous_hash)
    guard (ltb previous_block.header.timestamp b.header.timestamp)
        (validation_failed (timestamp_not_after b.header.timestamp previous_block.header.timestamp))

  unfoldable pub to_bytes : Block → Ledger Bytes
  to_bytes b = ok_or (c.block_bytes b) (serialization_error bincode)

  unfoldable pub from_bytes : Bytes → Ledger Block
  from_bytes bytes = ok_or (c.block_of_bytes bytes) (deserialization_error bincode)
