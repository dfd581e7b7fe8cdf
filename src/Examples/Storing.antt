-- ===== src/Examples/Storing.antt =====
-- The theorems on the store at a store of one or two blocks.
use myriadmesh_server.Base.{ℕ, ◌≤◌, ◌∷◌, refl, ap, ◌≡◌, ◌≢◌, true, false, arith, nat_eq}
use myriadmesh_server.Base.Result.{ok}
use myriadmesh_server.Ledger.Error.{Ledger}
use myriadmesh_server.Ledger.Chain.{BlockHash}
use myriadmesh_server.Ledger.Block.{calculate_hash, to_bytes, from_bytes}
use myriadmesh_server.Ledger.Disk.{write, read, block_file}
use myriadmesh_server.Ledger.Storage.{
  store_block, block_count, load_block_by_hash, record_block, prune,
}
use myriadmesh_server.Ledger.Storage.Index.{IsIndexed}
use myriadmesh_server.Base.Map.{get, insert}
use myriadmesh_server.Ledger.Storage.Store.{store_block-IsIndexed}
use myriadmesh_server.Ledger.Storage.Retention.{block_count-store_block, load_block_by_hash_stale}
use mathlib.Core.Option.{some-injective}
use myriadmesh_server.Ledger.Disk.{other_file, file_path_eq}
use myriadmesh_server.Ledger.Chain.{Block}
use myriadmesh_server.Ledger.Storage.{LedgerStorage, has_block, rebuild_index, visit_files}
use myriadmesh_server.Base.{none, if◌then◌else◌, nat_eq}
use myriadmesh_server.Ledger.Storage.Refinement.{view, is_dropped, view-store_block}
use myriadmesh_server.Ledger.Storage.Recovery.{IsNamed}
use myriadmesh_server.Ledger.Storage.Rebuild.{has_block-rebuild_index}
use myriadmesh_server.Base.{[], ◌∷◌, ◌==◌, Bool-cases, inl, inr, sym, ◌∙◌, some, ◌++◌, replicate}
use myriadmesh_server.Base.Bytes.{Bytes}
use myriadmesh_server.Examples.Chains.{empty_disk}
use myriadmesh_server.Examples.Codes.{get_block, chunk_then, with_signatures}
use myriadmesh_server.Examples.Codes.{toy_codec, toy_codec-ReadsBack}
use myriadmesh_server.Examples.Chains.{
  empty_store, first_store, second_store, genesis_block, second_block, genesis_hash, other_genesis,
  empty_archive, first_archive, second_archive,
}

pub first_stored : store_block toy_codec empty_store genesis_block ≡ ok first_store
unfolding first_store store_block calculate_hash to_bytes write record_block prune
first_stored = refl

pub second_stored : store_block toy_codec first_store second_block ≡ ok second_store
unfolding second_store first_store store_block calculate_hash to_bytes write record_block prune
    insert
second_stored = refl

pub empty_store-IsIndexed : IsIndexed toy_codec empty_store
unfolding get
empty_store-IsIndexed = record { distinct = tt; at = λ h md e. cc e; top = λ h md e. cc e }

pub first_store-IsIndexed : IsIndexed toy_codec first_store
first_store-IsIndexed =
    store_block-IsIndexed toy_codec empty_store genesis_block first_store toy_codec-ReadsBack
      empty_store-IsIndexed first_stored

store_block-IsIndexed_example : IsIndexed toy_codec second_store
store_block-IsIndexed_example =
    store_block-IsIndexed toy_codec first_store second_block second_store toy_codec-ReadsBack
      first_store-IsIndexed second_stored

first_readable : first_store.disk.read_fails (block_file 1) ≡ false
unfolding first_store store_block calculate_hash to_bytes write record_block insert prune
first_readable = refl

first_config : first_store.config ≡ empty_store.config
unfolding first_store store_block calculate_hash to_bytes write record_block insert prune
first_config = refl

view-store_block_example : view toy_codec second_store 0 ≡ (
    if is_dropped first_store second_block 0
    then none
    else if second_block.header.height == 0
    then some second_block
    else view toy_codec first_store 0)
view-store_block_example =
    view-store_block toy_codec first_store second_block second_store 0 toy_codec-ReadsBack
      first_store-IsIndexed first_readable second_stored

block_count-store_block_example : block_count second_store ≤ first_store.config.keep_blocks
block_count-store_block_example =
    block_count-store_block toy_codec first_store second_block second_store toy_codec-ReadsBack
      first_store-IsIndexed (rw first_config refl) (rw first_config (omega arith))
      (rw first_config (omega arith)) second_stored

pub first_archived : store_block toy_codec empty_archive genesis_block ≡ ok first_archive
unfolding first_archive store_block calculate_hash to_bytes write record_block prune
first_archived = refl

second_archived : store_block toy_codec first_archive other_genesis ≡ ok second_archive
unfolding second_archive first_archive store_block calculate_hash to_bytes write record_block prune
    insert
second_archived = refl

pub empty_archive-IsIndexed : IsIndexed toy_codec empty_archive
unfolding get
empty_archive-IsIndexed = record { distinct = tt; at = λ h md e. cc e; top = λ h md e. cc e }

hashed : calculate_hash toy_codec genesis_block ≡ ok genesis_hash
unfolding calculate_hash
hashed = refl

third_byte : Ledger BlockHash → ℕ
third_byte (ok (a ∷ b ∷ c ∷ rest)) = c
third_byte _ = 0

other_hash : calculate_hash toy_codec other_genesis ≢ ok genesis_hash
unfolding calculate_hash third_byte
other_hash h = absurd (omega (arith, ap third_byte h))

load_block_by_hash_stale_example :
    load_block_by_hash toy_codec second_archive genesis_hash ≡ ok other_genesis
load_block_by_hash_stale_example =
    load_block_by_hash_stale toy_codec empty_archive genesis_block other_genesis first_archive
      second_archive genesis_hash toy_codec-ReadsBack empty_archive-IsIndexed refl refl refl hashed
      other_hash first_archived second_archived

-- the bytes of the first block
abbrev genesis_bytes : Bytes
genesis_bytes = 1 ∷ 0 ∷ 5 ∷ 32 ∷ replicate 32 0 ++ (32 ∷ replicate 32 0 ++ (1 ∷ 1 ∷ 1 ∷ 9 ∷ 0 ∷ []))

-- a store whose index was lost
abbrev lost : LedgerStorage
lost = record empty_store {
  disk = record empty_disk {
    files = (other_file "notes", []) ∷ (block_file 0, genesis_bytes) ∷ [];
  };
}

genesis_read : toy_codec.block_of_bytes genesis_bytes ≡ some genesis_block
unfolding get_block chunk_then with_signatures
genesis_read = refl

lost-IsNamed : IsNamed toy_codec lost.disk
unfolding get
lost-IsNamed path bytes b file bin e reads = elim (Bool-cases (block_file 0 == path)) [
  | inl first_file ↦
      let same_bytes : genesis_bytes ≡ bytes =
        some-injective _ _ (ground (arith, e, first_file, bin)) in
      let same_block : genesis_block ≡ b =
        some-injective _ _ (sym genesis_read ∙ ap toy_codec.block_of_bytes same_bytes ∙ reads) in
      sym ((file_path_eq.same_iff (block_file 0) path).0 first_file)
      ∙ ap (λ (x : Block). block_file x.header.height) same_block
  | inr differ ↦ absurd (ground (arith, e, differ, bin))
]

rebuilt : (rebuild_index toy_codec lost).0 ≡ ok tt
unfolding rebuild_index visit_files read from_bytes get get_block chunk_then with_signatures
    calculate_hash
rebuilt = refl

has_block-rebuild_index_example :
    IsIndexed toy_codec (rebuild_index toy_codec lost).1
    × (has_block (rebuild_index toy_codec lost).1 0 ≡ true)
unfolding get
has_block-rebuild_index_example =
    has_block-rebuild_index toy_codec lost (block_file 0) genesis_bytes genesis_block lost-IsNamed
      refl refl refl refl genesis_read rebuilt
