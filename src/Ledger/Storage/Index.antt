-- ===== src/Ledger/Storage/Index.antt =====
-- crates/myriadmesh-ledger/src/storage.rs: the invariant of the index and the disk, and deletion.
use myriadmesh_server.Base.{
  ℕ, ◌≤◌, ◌≡◌, some, none, List, [], ◌∷◌, length, arith, inl, inr, Bool-cases, Option-cases, false,
  nat_eq, ◌==◌, if◌then◌else◌, ap, ◌∙◌,
}
use myriadmesh_server.Base.Bytes.{Bytes, bytes_eq}
use myriadmesh_server.Base.Map
use myriadmesh_server.Base.Map.{Map, get-insert, get-remove, Distinct-insert, Distinct-remove}
use myriadmesh_server.Base.Result.{ok}
use myriadmesh_server.Ledger.Chain.{Block}
use myriadmesh_server.Ledger.Codec.{Codec}
use myriadmesh_server.Ledger.Block.{calculate_hash, from_bytes}
use myriadmesh_server.Ledger.Disk.{block_file, read, remove_file, file_path_eq}
use myriadmesh_server.Ledger.Storage.{
  LedgerStorage, BlockMetadata, delete_block, delete_blocks, load_block,
}

-- Deleting a height takes it, and no other, out of the index.
pub get-delete_block :
    (s : LedgerStorage) (h j : ℕ)
    → Map.get (delete_block s h).index j ≡ (if h == j then none else Map.get s.index j)
unfolding delete_block
get-delete_block s h j = elim (Option-cases (Map.get s.index h)) [
  | inl e ↦ rw e (ground (arith, e, nat_eq.same_iff h j, ap (Map.get s.index) {x = h} {y = j}))
  | inr (x, e) ↦ rw e (get-remove s.index h j)
]

pub chain_height-delete_block :
    (s : LedgerStorage) (h : ℕ) → (delete_block s h).chain_height ≡ s.chain_height
unfolding delete_block
chain_height-delete_block s h = ground arith

delete_block-Distinct :
    (s : LedgerStorage) (h : ℕ) → Map.Distinct s.index → Map.Distinct (delete_block s h).index
unfolding delete_block
delete_block-Distinct s h d = elim (Option-cases (Map.get s.index h)) [
  | inl e ↦ rw e d
  | inr (x, e) ↦ rw e (Distinct-remove s.index h d)
]

module _ (c : Codec) where
  -- What the index says of a height is so on the disk.
  pub record IsStored (s : LedgerStorage) (h : ℕ) (md : BlockMetadata) : Type 0 where
    pub height : md.height ≡ h
    pub path : md.file_path ≡ block_file h
    pub bytes : Bytes
    pub on_disk : Map.get s.disk.files (block_file h) ≡ some bytes
    pub size : md.size ≡ length bytes
    pub block : Block
    pub reads : c.block_of_bytes bytes ≡ some block
    pub block_height : block.header.height ≡ h
    pub hashed : calculate_hash c block ≡ ok md.hash

  pub record IsIndexed (s : LedgerStorage) : Type 0 where
    pub distinct : Map.Distinct s.index
    pub at : (h : ℕ) (md : BlockMetadata) → Map.get s.index h ≡ some md → IsStored s h md
    pub top : (h : ℕ) (md : BlockMetadata) → Map.get s.index h ≡ some md → h ≤ s.chain_height

  -- A height in the index loads as a block of that height and of the hash that the index holds,
  -- if its file can be read.
  pub load_block-IsIndexed :
      (s : LedgerStorage) (h : ℕ) (md : BlockMetadata)
      → IsIndexed s
      → Map.get s.index h ≡ some md
      → s.disk.read_fails (block_file h) ≡ false
      → (b : Block) × (load_block c s h ≡ ok b)
        × (b.header.height ≡ h)
        × (calculate_hash c b ≡ ok md.hash)
  unfolding load_block read from_bytes
  load_block-IsIndexed s h md v e readable =
      let w = v.at h md e in
      (w.block, ground (arith, w.path, w.on_disk, w.reads, e, readable), w.block_height, w.hashed)

  file_ne : (a b : ℕ) → (a == b) ≡ false → (block_file a == block_file b) ≡ false
  file_ne a b h = h

  -- Deleting one height leaves the files of the others.
  pub files-delete_block :
      (s : LedgerStorage) (h j : ℕ)
      → (h == j) ≡ false
      → IsIndexed s
      → Map.get (delete_block s h).disk.files (block_file j) ≡ Map.get s.disk.files (block_file j)
  unfolding delete_block remove_file
  files-delete_block s h j differ v = elim (Option-cases (Map.get s.index h)) [
    | inl e ↦ rw e
    | inr (x, e) ↦ ground (
      arith,
      e,
      get-remove s.disk.files x.file_path (block_file j),
      file_ne h j differ,
      ap (λ p. p == block_file j) (v.at h x e).path,
    )
  ]

  pub IsStored-delete :
      (s : LedgerStorage) (h j : ℕ) (md : BlockMetadata)
      → (h == j) ≡ false
      → IsIndexed s
      → IsStored s j md
      → IsStored (delete_block s h) j md
  IsStored-delete s h j md differ v w = record {
    height = w.height;
    path = w.path;
    bytes = w.bytes;
    on_disk = files-delete_block s h j differ v ∙ w.on_disk;
    size = w.size;
    block = w.block;
    reads = w.reads;
    block_height = w.block_height;
    hashed = w.hashed;
  }

  pub delete_block-IsIndexed :
      (s : LedgerStorage) (h : ℕ) → IsIndexed s → IsIndexed (delete_block s h)
  delete_block-IsIndexed s h v = record {
    distinct = delete_block-Distinct s h v.distinct;
    at = λ j md e. elim (Bool-cases (h == j)) [
      | inl same ↦ absurd (ground (arith, get-delete_block s h j))
      | inr differ ↦
          IsStored-delete s h j md differ v (v.at j md (ground (arith, get-delete_block s h j)))
    ];
    top = λ j md e.
        rw chain_height-delete_block (v.top j md (ground (arith, get-delete_block s h j)));
  }

  pub delete_blocks-IsIndexed :
      (hs : List ℕ) (s : LedgerStorage) → IsIndexed s → IsIndexed (delete_blocks s hs)
  unfolding delete_blocks
  delete_blocks-IsIndexed [] s v = v
  delete_blocks-IsIndexed (h ∷ hs) s v =
      delete_blocks-IsIndexed hs (delete_block s h) (delete_block-IsIndexed s h v)
