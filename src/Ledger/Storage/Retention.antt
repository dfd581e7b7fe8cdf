-- ===== src/Ledger/Storage/Retention.antt =====
-- crates/myriadmesh-ledger/src/storage.rs: the heights held after `store_block`, and look-ups by hash.
use myriadmesh_server.Base.{
  ℕ, ◌≤◌, ◌<◌, ◌≡◌, ◌≢◌, ◌⊎◌, refl, some, length, arith, inl, inr, Bool-cases, true, false, ◌&&◌,
  is_empty, nat_eq, ◌==◌, ltb, if◌then◌else◌, ap, ◌∙◌, u64_mod,
}
use myriadmesh_server.Base.Bytes.{Bytes, bytes_eq, bytes_beq_iff}
use myriadmesh_server.Base.Map
use myriadmesh_server.Base.Map.{get-insert}
use myriadmesh_server.Base.Result.{ok}
use myriadmesh_server.Ledger.Chain.{Block, BlockHash}
use myriadmesh_server.Ledger.Codec.{Codec, ReadsBack}
use myriadmesh_server.Ledger.Block.{calculate_hash}
use myriadmesh_server.Ledger.Disk.{block_file}
use myriadmesh_server.Ledger.Storage.{
  LedgerStorage, record_block, keep_from_height, store_block, load_block, load_block_by_hash,
  get_latest_block, has_block, block_count,
}
use myriadmesh_server.Ledger.Storage.Index.{IsIndexed}
use myriadmesh_server.Ledger.Storage.Prune.{get-prune, chain_height-prune, block_count-prune}
use myriadmesh_server.Ledger.Storage.Store.{
  stored, pruned_if_full, get-stored, store_block-Stores, stored-IsIndexed, store_block-IsIndexed,
}
use myriadmesh_server.Ledger.Storage.Loading.{load_block-store_block}

config-stored :
    (s : LedgerStorage) (b : Block) (hash : BlockHash) (bytes : Bytes)
    → (stored s b hash bytes).config ≡ s.config
unfolding record_block
config-stored s b hash bytes = refl

chain_height-stored_tip :
    (s : LedgerStorage) (b : Block) (hash : BlockHash) (bytes : Bytes)
    → s.chain_height ≤ b.header.height
    → (stored s b hash bytes).chain_height ≡ b.header.height
unfolding record_block
chain_height-stored_tip s b hash bytes above = ground arith

hash_lookup-stored :
    (s : LedgerStorage) (b : Block) (hash x : BlockHash) (bytes : Bytes)
    → Map.get (stored s b hash bytes).hash_lookup x
      ≡ (if hash == x then some b.header.height else Map.get s.hash_lookup x)
unfolding record_block
hash_lookup-stored s b hash x bytes = get-insert s.hash_lookup hash x b.header.height

read_fails-stored_any :
    (s : LedgerStorage) (b : Block) (hash : BlockHash) (bytes : Bytes)
    → (stored s b hash bytes).disk.read_fails ≡ s.disk.read_fails
unfolding record_block
read_fails-stored_any s b hash bytes = refl

chain_height-pruned_if_full :
    (s t : LedgerStorage) → (pruned_if_full s t).chain_height ≡ t.chain_height
chain_height-pruned_if_full s t = ground (arith, chain_height-prune t)

-- The tip is never pruned.
tip-pruned_if_full :
    (s t : LedgerStorage)
    → Map.get (pruned_if_full s t).index t.chain_height ≡ Map.get t.index t.chain_height
unfolding keep_from_height
tip-pruned_if_full s t = ground (arith, get-prune t t.chain_height)

holds_not_empty : (s : LedgerStorage) (h : ℕ) → has_block s h ≡ true → is_empty s.index ≡ false
unfolding has_block Map.get
holds_not_empty s h held = ground arith

unpruned : (s t : LedgerStorage) → s.config.pruning_enabled ≡ false → pruned_if_full s t ≡ t
unpruned s t h = rw h

differ_false :
    (c : Codec) (b : Block) (hash old : BlockHash)
    → calculate_hash c b ≡ ok hash
    → calculate_hash c b ≢ ok old
    → (hash == old) ≡ false
differ_false c b hash old h ne = elim (Bool-cases (hash == old)) [
  | inl same ↦ absurd (ne (h ∙ ap ok ((bytes_beq_iff hash old).0 same)))
  | inr differ ↦ differ
]

module _ (c : Codec) where
  -- With pruning on and at least one block to keep, a store holds at most as many blocks as it
  -- is to keep once a block has been stored, where the serialiser reads back what it wrote and
  -- the index and the disk were in step.
  pub block_count-store_block :
      (s : LedgerStorage) (b : Block) (s' : LedgerStorage)
      → ReadsBack c
      → IsIndexed c s
      → s.config.pruning_enabled ≡ true
      → 0 < s.config.keep_blocks
      → s.config.keep_blocks < u64_mod
      → store_block c s b ≡ ok s'
      → block_count s' ≤ s.config.keep_blocks
  unfolding block_count
  block_count-store_block s b s' back v pruning some_kept fits h =
      let w = store_block-Stores c s b s' h in
      let t = stored s b w.hash w.bytes in
      let vt = stored-IsIndexed c s b w.hash w.bytes back w.hashed w.serialised v in
      let same : t.config.keep_blocks ≡ s.config.keep_blocks =
        ap (λ x. x.keep_blocks) (config-stored s b w.hash w.bytes) in
      rw w.result
        (elim (Bool-cases (s.config.pruning_enabled && ltb s.config.keep_blocks (length t.index))) [
          | inl full ↦ rw full (
              omega
                (arith, same, block_count-prune c t vt (omega (arith, same)) (omega (arith, same))))
          | inr room ↦ rw room (ground (arith, pruning))
        ])

  -- A block at or above the chain height is, once stored, the tip: the chain height is its
  -- height, it is held, it loads as it was and it is the latest block, whatever is pruned,
  -- where the serialiser reads back what it wrote, the index and the disk were in step and the
  -- file can be read.
  pub store_block_tip :
      (s : LedgerStorage) (b : Block) (s' : LedgerStorage)
      → ReadsBack c
      → IsIndexed c s
      → s.disk.read_fails (block_file b.header.height) ≡ false
      → s.chain_height ≤ b.header.height
      → store_block c s b ≡ ok s'
      → (s'.chain_height ≡ b.header.height)
        × (has_block s' b.header.height ≡ true)
        × (load_block c s' b.header.height ≡ ok b)
        × (get_latest_block c s' ≡ ok b)
  unfolding get_latest_block
  store_block_tip s b s' back v readable above h =
      let w = store_block-Stores c s b s' h in
      let t = stored s b w.hash w.bytes in
      let top = chain_height-stored_tip s b w.hash w.bytes above in
      let at_top : s'.chain_height ≡ b.header.height =
        ap (λ x. x.chain_height) w.result ∙ chain_height-pruned_if_full s t ∙ top in
      let held : has_block s' b.header.height ≡ true =
        unfold has_block in
        ground (
          arith,
          w.result,
          top,
          tip-pruned_if_full s t,
          get-stored s b w.hash w.bytes b.header.height,
        ) in
      let loads : load_block c s' b.header.height ≡ ok b =
        load_block-store_block c s b s' b.header.height back v readable h held ∙ ground arith in
      (at_top, held, loads, ground (arith, at_top, loads, holds_not_empty s' b.header.height held))

  -- Without pruning, when a block is stored and then another of its height and of another
  -- hash, a look-up by the hash of the first returns the second, where the serialiser reads
  -- back what it wrote, the index and the disk were in step and the file can be read.
  pub load_block_by_hash_stale :
      (s : LedgerStorage) (a b : Block) (s1 s2 : LedgerStorage) (old : BlockHash)
      → ReadsBack c
      → IsIndexed c s
      → s.config.pruning_enabled ≡ false
      → s.disk.read_fails (block_file b.header.height) ≡ false
      → a.header.height ≡ b.header.height
      → calculate_hash c a ≡ ok old
      → calculate_hash c b ≢ ok old
      → store_block c s a ≡ ok s1
      → store_block c s1 b ≡ ok s2
      → load_block_by_hash c s2 old ≡ ok b
  unfolding load_block_by_hash
  load_block_by_hash_stale s a b s1 s2 old back v keep_all readable same ha hb h1 h2 =
      let w1 = store_block-Stores c s a s1 h1 in
      let w2 = store_block-Stores c s1 b s2 h2 in
      let v1 = store_block-IsIndexed c s a s1 back v h1 in
      let r1 : s1 ≡ stored s a w1.hash w1.bytes =
        w1.result ∙ unpruned s (stored s a w1.hash w1.bytes) keep_all in
      let r2 : s2 ≡ stored s1 b w2.hash w2.bytes =
        w2.result
        ∙ unpruned s1 (stored s1 b w2.hash w2.bytes) (
            ap (λ x. x.config.pruning_enabled) r1
            ∙ ap (λ x. x.pruning_enabled) (config-stored s a w1.hash w1.bytes)
            ∙ keep_all) in
      let held : has_block s2 a.header.height ≡ true =
        unfold has_block in
        ground (arith, r2, same, get-stored s1 b w2.hash w2.bytes a.header.height) in
      let readable1 : s1.disk.read_fails (block_file b.header.height) ≡ false =
        ap (λ x. x.disk.read_fails (block_file b.header.height)) r1
        ∙ ap (λ p. p (block_file b.header.height)) (read_fails-stored_any s a w1.hash w1.bytes)
        ∙ readable in
      let loads = load_block-store_block c s1 b s2 a.header.height back v1 readable1 h2 held in
      let found : Map.get s2.hash_lookup old ≡ some a.header.height = ground (
        arith,
        ap (λ x. Map.get x.hash_lookup old) r2,
        ap (λ x. Map.get x.hash_lookup old) r1,
        hash_lookup-stored s1 b w2.hash old w2.bytes,
        hash_lookup-stored s a w1.hash old w1.bytes,
        differ_false c b w2.hash old w2.hashed hb,
        bytes_beq_iff w1.hash old,
        ha,
        w1.hashed,
      ) in
      ground (arith, found, loads, same)

  -- A height that is held after a block has been stored is the height of the block or was held
  -- before.
  pub has_block-store_block :
      (s : LedgerStorage) (b : Block) (s' : LedgerStorage) (j : ℕ)
      → store_block c s b ≡ ok s'
      → has_block s' j ≡ true
      → ((b.header.height == j) ≡ true) ⊎ (has_block s j ≡ true)
  unfolding has_block
  has_block-store_block s b s' j h held =
      let w = store_block-Stores c s b s' h in
      let t = stored s b w.hash w.bytes in
      ground (arith, w.result, get-stored s b w.hash w.bytes j, get-prune t j)
