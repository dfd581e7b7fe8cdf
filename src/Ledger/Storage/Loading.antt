-- ===== src/Ledger/Storage/Loading.antt =====
-- crates/myriadmesh-ledger/src/storage.rs: what loads after `store_block`.
use myriadmesh_server.Base.{
  ℕ, ◌≡◌, some, length, arith, inl, inr, Bool-cases, Option-cases, true, false, ◌&&◌, nat_eq, ◌==◌,
  ltb, if◌then◌else◌, ap, ◌∙◌,
}
use myriadmesh_server.Base.Bytes.{Bytes, bytes_eq}
use myriadmesh_server.Base.Map
use myriadmesh_server.Base.Map.{Map, get-insert, Distinct-insert}
use myriadmesh_server.Base.Result.{ok}
use myriadmesh_server.Ledger.Chain.{Block, BlockHash}
use myriadmesh_server.Ledger.Codec.{Codec, ReadsBack}
use myriadmesh_server.Ledger.Block.{from_bytes}
use myriadmesh_server.Ledger.Disk.{block_file, read, file_path_eq}
use myriadmesh_server.Ledger.Storage.{LedgerStorage, store_block, load_block, has_block}
use myriadmesh_server.Ledger.Storage.Index.{IsIndexed}
use myriadmesh_server.Ledger.Storage.Prune.{get-prune, load_block-prune}
use myriadmesh_server.Ledger.Storage.Store.{
  stored, pruned_if_full, get-stored, files-stored, read_fails-stored, store_block-Stores,
  stored-IsIndexed,
}

module _ (c : Codec) where
  load_block-stored :
      (s : LedgerStorage) (b : Block) (hash : BlockHash) (bytes : Bytes) (j : ℕ)
      → ReadsBack c
      → c.block_bytes b ≡ some bytes
      → s.disk.read_fails (block_file b.header.height) ≡ false
      → IsIndexed c s
      → load_block c (stored s b hash bytes) j
        ≡ (if b.header.height == j then ok b else load_block c s j)
  unfolding load_block read from_bytes
  load_block-stored s b hash bytes j back serialised readable v =
      elim (Bool-cases (b.header.height == j)) [
        | inl same ↦ ground (
          arith,
          get-stored s b hash bytes j,
          files-stored s b hash bytes b.header.height,
          ap (λ p. p (block_file b.header.height)) (read_fails-stored s b hash bytes),
          back b bytes serialised,
        )
        | inr differ ↦ elim (Option-cases (Map.get s.index j)) [
          | inl e ↦ ground (arith, get-stored s b hash bytes j, e)
          | inr (md, e) ↦ ground (
            arith,
            get-stored s b hash bytes j,
            files-stored s b hash bytes j,
            e,
            (v.at j md e).path,
            ap (λ p. p (block_file j)) (read_fails-stored s b hash bytes),
          )
        ]
      ]

  kept-pruned_if_full :
      (s t : LedgerStorage) (j : ℕ)
      → IsIndexed c t
      → Map.contains_key (pruned_if_full s t).index j ≡ true
      → load_block c (pruned_if_full s t) j ≡ load_block c t j
  kept-pruned_if_full s t j v held =
      elim (Bool-cases (s.config.pruning_enabled && ltb s.config.keep_blocks (length t.index))) [
        | inl full ↦
            rw full (load_block-prune c t j (ground (arith, get-prune t j, (rw full at held))) v)
        | inr room ↦ rw room
      ]

  -- After a block has been stored, each height that is then held loads the block if it is the
  -- height of the block, and otherwise what it loaded before, where the serialiser reads back
  -- what it wrote, the index and the disk were in step and the file can be read.
  pub load_block-store_block :
      (s : LedgerStorage) (b : Block) (s' : LedgerStorage) (j : ℕ)
      → ReadsBack c
      → IsIndexed c s
      → s.disk.read_fails (block_file b.header.height) ≡ false
      → store_block c s b ≡ ok s'
      → has_block s' j ≡ true
      → load_block c s' j ≡ (if b.header.height == j then ok b else load_block c s j)
  unfolding has_block
  load_block-store_block s b s' j back v readable h held =
      let w = store_block-Stores c s b s' h in
      let t = stored s b w.hash w.bytes in
      ap (λ x. load_block c x j) w.result
      ∙ kept-pruned_if_full s t j
          (stored-IsIndexed c s b w.hash w.bytes back w.hashed w.serialised v) (rw w.result at held)
      ∙ load_block-stored s b w.hash w.bytes j back w.serialised readable v
