-- ===== src/Ledger/Storage/Refinement.antt =====
-- crates/myriadmesh-ledger/src/storage.rs: the store as a partial function from heights to blocks.
use myriadmesh_server.Base.{
  ℕ, suc, ◌-◌, ◌≡◌, refl, ap, ◌∙◌, Option, some, none, length, arith, inl, inr, Bool-cases, Bool,
  false, not, ◌&&◌, ◌||◌, nat_eq, ◌==◌, ltb, sub64, if◌then◌else◌,
}
use myriadmesh_server.Base.Map.{length-insert}
use myriadmesh_server.Base.Bytes.{Bytes}
use myriadmesh_server.Base.Result.{ok, err}
use myriadmesh_server.Ledger.Error.{Ledger}
use myriadmesh_server.Ledger.Chain.{Block, BlockHash}
use myriadmesh_server.Ledger.Codec.{Codec, ReadsBack}
use myriadmesh_server.Ledger.Disk.{block_file}
use myriadmesh_server.Ledger.Storage.{
  LedgerStorage, record_block, keep_from_height, store_block, load_block, has_block, block_count,
}
use myriadmesh_server.Ledger.Storage.Index.{IsIndexed}
use myriadmesh_server.Ledger.Storage.Prune.{get-prune, is_pruned}
use myriadmesh_server.Ledger.Storage.Store.{stored, pruned_if_full, get-stored, store_block-Stores}
use myriadmesh_server.Ledger.Storage.Loading.{load_block-store_block}

-- The number of blocks and the tip that storing a block makes, before pruning.
abbrev pub count_with : LedgerStorage → Block → ℕ
count_with s b = if has_block s b.header.height then block_count s else suc (block_count s)

abbrev pub tip_with : LedgerStorage → Block → ℕ
tip_with s b = if ltb s.chain_height b.header.height then b.header.height else s.chain_height

-- The heights that storing a block drops: with pruning on and more blocks than are to be kept,
-- those below the last ones under the tip.
abbrev pub is_dropped : LedgerStorage → Block → ℕ → Bool
is_dropped s b j =
    s.config.pruning_enabled
    && (ltb s.config.keep_blocks (count_with s b)
        && ltb j (tip_with s b - sub64 s.config.keep_blocks 1))

length-stored :
    (s : LedgerStorage) (b : Block) (hash : BlockHash) (bytes : Bytes)
    → length (stored s b hash bytes).index ≡ count_with s b
unfolding record_block has_block block_count
length-stored s b hash bytes = length-insert s.index b.header.height _

pruned_at :
    (s : LedgerStorage) (b : Block) (hash : BlockHash) (bytes : Bytes)
    → is_pruned (stored s b hash bytes) ≡ λ j.
        ltb s.config.keep_blocks (length (stored s b hash bytes).index)
        && ltb j (tip_with s b - sub64 s.config.keep_blocks 1)
unfolding record_block keep_from_height
pruned_at s b hash bytes = refl

held-pruned_if_full :
    (s : LedgerStorage) (b : Block) (hash : BlockHash) (bytes : Bytes) (j : ℕ)
    → has_block (pruned_if_full s (stored s b hash bytes)) j
      ≡ (not (is_dropped s b j) && ((b.header.height == j) || has_block s j))
unfolding has_block block_count
held-pruned_if_full s b hash bytes j = ground (
  arith,
  get-prune (stored s b hash bytes) j,
  get-stored s b hash bytes j,
  length-stored s b hash bytes,
  ap (λ p. p j) (pruned_at s b hash bytes),
)

module _ (c : Codec) where
  abbrev loaded : Ledger Block → Option Block
  loaded (ok b) = some b
  loaded (err e) = none

  -- The block that a store gives for a height.
  abbrev pub view : LedgerStorage → ℕ → Option Block
  view s j = if has_block s j then loaded (load_block c s j) else none

  -- Seen as a partial function from heights to blocks, a store in which a block has been
  -- stored gives nothing for the heights that pruning drops, the block for its own height and
  -- what it gave before for every other; what is dropped, if pruning is on and more blocks are
  -- held than are to be kept, are the heights below the last ones under the tip. The
  -- serialiser is to read back what it wrote, the index and the disk to be in step and the
  -- file to be readable.
  pub view-store_block :
      (s : LedgerStorage) (b : Block) (s' : LedgerStorage) (j : ℕ)
      → ReadsBack c
      → IsIndexed c s
      → s.disk.read_fails (block_file b.header.height) ≡ false
      → store_block c s b ≡ ok s'
      → view s' j
        ≡ (if is_dropped s b j then none else if b.header.height == j then some b else view s j)
  view-store_block s b s' j back v readable h =
      let w = store_block-Stores c s b s' h in
      let held : has_block s' j
          ≡ (not (is_dropped s b j) && ((b.header.height == j) || has_block s j)) =
        ap (λ t. has_block t j) w.result ∙ held-pruned_if_full s b w.hash w.bytes j in
      elim (Bool-cases (has_block s' j)) [
        | inl there ↦ ground (
          arith,
          there,
          held,
          ap loaded (load_block-store_block c s b s' j back v readable h there),
        )
        | inr gone ↦ ground (arith, gone, held)
      ]
