-- ===== src/Ledger/Storage/Prune.antt =====
-- crates/myriadmesh-ledger/src/storage.rs: pruning.
use myriadmesh_server.Base.{
  ℕ, ◌+◌, ◌≤◌, ◌<◌, ◌≡◌, refl, none, List, [], ◌∷◌, length, select, any_of, arith, inl, inr, Bool,
  Bool-cases, Option-cases, false, ◌&&◌, nat_eq, ◌==◌, ltb, leb, if◌then◌else◌, ap, ◌∙◌, u64_mod,
}
use myriadmesh_server.Base.Map
use myriadmesh_server.Base.Map.{Map, any_of-keys, length-le-range, get-remove}
use myriadmesh_server.Ledger.Codec.{Codec}
use myriadmesh_server.Ledger.Disk.{block_file, read, remove_file, file_path_eq}
use myriadmesh_server.Ledger.Storage.{
  LedgerStorage, delete_block, delete_blocks, prune, keep_from_height, load_block, block_count,
}
use myriadmesh_server.Ledger.Storage.Index.{
  IsIndexed, get-delete_block, delete_block-IsIndexed, delete_blocks-IsIndexed,
  chain_height-delete_block, files-delete_block,
}

get-delete_blocks :
    (hs : List ℕ) (s : LedgerStorage) (j : ℕ)
    → Map.get (delete_blocks s hs).index j
      ≡ (if any_of (λ h. h == j) hs then none else Map.get s.index j)
unfolding delete_blocks any_of
get-delete_blocks [] s j = refl
get-delete_blocks (h ∷ hs) s j =
    ground (arith, get-delete_blocks hs (delete_block s h) j, get-delete_block s h j)

chain_height-delete_blocks :
    (hs : List ℕ) (s : LedgerStorage) → (delete_blocks s hs).chain_height ≡ s.chain_height
unfolding delete_blocks
chain_height-delete_blocks [] s = refl
chain_height-delete_blocks (h ∷ hs) s =
    chain_height-delete_blocks hs (delete_block s h) ∙ chain_height-delete_block s h

-- A height is dropped exactly when more blocks are held than are to be kept and it lies below
-- `keep_from_height`.
abbrev pub is_pruned : LedgerStorage → ℕ → Bool
is_pruned s j = ltb s.config.keep_blocks (length s.index) && ltb j (keep_from_height s)

pub get-prune :
    (s : LedgerStorage) (j : ℕ)
    → Map.get (prune s).index j ≡ (if is_pruned s j then none else Map.get s.index j)
unfolding prune
get-prune s j = ground (
  arith,
  get-delete_blocks (select (λ h. ltb h (keep_from_height s)) (Map.keys s.index)) s j,
  any_of-keys (λ h. ltb h (keep_from_height s)) s.index j,
)

pub chain_height-prune : (s : LedgerStorage) → (prune s).chain_height ≡ s.chain_height
unfolding prune
chain_height-prune s = ground (
  arith,
  chain_height-delete_blocks (select (λ h. ltb h (keep_from_height s)) (Map.keys s.index)) s,
)

read_fails-delete :
    (s : LedgerStorage) (h : ℕ) → (delete_block s h).disk.read_fails ≡ s.disk.read_fails
unfolding delete_block remove_file
read_fails-delete s h = ground arith

keep_from_covers :
    (s : LedgerStorage) (h : ℕ)
    → 0 < s.config.keep_blocks
    → s.config.keep_blocks < u64_mod
    → h ≤ s.chain_height
    → h < keep_from_height s + s.config.keep_blocks
unfolding keep_from_height
keep_from_covers s h some_kept fits low = omega arith

module _ (c : Codec) where
  pub prune-IsIndexed : (s : LedgerStorage) → IsIndexed c s → IsIndexed c (prune s)
  unfolding prune
  prune-IsIndexed s v = elim (Bool-cases (leb (length s.index) s.config.keep_blocks)) [
    | inl few ↦ rw few v
    | inr many ↦ rw many (
        delete_blocks-IsIndexed c (select (λ h. ltb h (keep_from_height s)) (Map.keys s.index)) s v)
  ]

  load_block-delete :
      (s : LedgerStorage) (h j : ℕ)
      → (h == j) ≡ false
      → IsIndexed c s
      → load_block c (delete_block s h) j ≡ load_block c s j
  unfolding load_block read
  load_block-delete s h j differ v = elim (Option-cases (Map.get s.index j)) [
    | inl e ↦ ground (arith, get-delete_block s h j, e, differ)
    | inr (md, e) ↦ ground (
      arith,
      get-delete_block s h j,
      e,
      differ,
      (v.at j md e).path,
      files-delete_block c s h j differ v,
      ap (λ p. p (block_file j)) (read_fails-delete s h),
    )
  ]

  load_block-delete_blocks :
      (hs : List ℕ) (s : LedgerStorage) (j : ℕ)
      → any_of (λ h. h == j) hs ≡ false
      → IsIndexed c s
      → load_block c (delete_blocks s hs) j ≡ load_block c s j
  unfolding delete_blocks any_of
  load_block-delete_blocks [] s j out v = refl
  load_block-delete_blocks (h ∷ hs) s j out v =
      load_block-delete_blocks hs (delete_block s h) j (ground arith)
        (delete_block-IsIndexed c s h v)
      ∙ load_block-delete s h j (ground arith) v

  -- What is not dropped loads as before.
  pub load_block-prune :
      (s : LedgerStorage) (j : ℕ)
      → is_pruned s j ≡ false
      → IsIndexed c s
      → load_block c (prune s) j ≡ load_block c s j
  unfolding prune
  load_block-prune s j kept v = elim (Bool-cases (leb (length s.index) s.config.keep_blocks)) [
    | inl few ↦ rw few
    | inr many ↦ rw many (elim (Bool-cases (ltb j (keep_from_height s))) [
      | inl low ↦ absurd (ground arith)
      | inr high ↦
          load_block-delete_blocks (select (λ h. ltb h (keep_from_height s)) (Map.keys s.index)) s j
            (ground (arith, any_of-keys (λ h. ltb h (keep_from_height s)) s.index j)) v
    ])
  ]

  -- Pruning leaves at most as many blocks as are to be kept, and one at least is to be kept.
  pub block_count-prune :
      (s : LedgerStorage)
      → IsIndexed c s
      → 0 < s.config.keep_blocks
      → s.config.keep_blocks < u64_mod
      → block_count (prune s) ≤ s.config.keep_blocks
  unfolding block_count prune
  block_count-prune s v some_kept fits =
      elim (Bool-cases (leb (length s.index) s.config.keep_blocks)) [
        | inl few ↦ rw (few, prune) (ground arith)
        | inr many ↦
            let w = prune-IsIndexed s v in
            length-le-range s.config.keep_blocks (keep_from_height s) (prune s).index w.distinct
              λ h md found. (
                ground (arith, get-prune s h),
                keep_from_covers s h some_kept fits (rw chain_height-prune at (w.top h md found)),
              )
      ]
