-- ===== src/Ledger/Storage/Recovery.antt =====
-- crates/myriadmesh-ledger/src/storage.rs: the index that `rebuild_index` makes of the files.
use myriadmesh_server.Base.{
  ℕ, Bool, ◌≡◌, refl, sym, ◌∙◌, some, List, [], ◌∷◌, length, arith, inl, inr, Bool-cases,
  Option-cases, true, false, nat_eq, ◌==◌, if◌then◌else◌,
}
use mathlib.Core.Path.{subst, subst₂}
use mathlib.Core.Option.{some-injective}
use myriadmesh_server.Base.Bytes.{Bytes, bytes_eq}
use myriadmesh_server.Base.Map
use myriadmesh_server.Base.Map.{Map, get, get-insert, Distinct-insert, contains_key-insert}
use myriadmesh_server.Base.Result.{ok, err, Result-cases}
use myriadmesh_server.Ledger.Error.{Ledger}
use myriadmesh_server.Ledger.Chain.{Block, BlockHash}
use myriadmesh_server.Ledger.Codec.{Codec}
use myriadmesh_server.Ledger.Block.{calculate_hash, from_bytes}
use myriadmesh_server.Ledger.Disk.{Disk, FilePath, block_file, is_bin, read, file_path_eq}
use myriadmesh_server.Ledger.Storage.{
  LedgerStorage, BlockMetadata, has_block, record_block, index_file, index_hashed, visit_file,
  visit_rest, visit_files, rebuild_index,
}
use myriadmesh_server.Ledger.Storage.Index.{IsStored, IsIndexed}

-- What holds of both branches holds of the test.
if_either {ℓ κ} :
    {A : Type ℓ} (P : A → Type κ) (b : Bool) {x y : A} → P x → P y → P (if b then x else y)
if_either P true p q = p
if_either P false p q = q

module _ (c : Codec) where
  -- A file of a block's extension whose bytes are read as a block is named by its height.
  abbrev pub IsNamed : Disk → Type 0
  IsNamed d =
      (path : FilePath) (bytes : Bytes) (b : Block)
      → d.is_file path ≡ true
      → is_bin path ≡ true
      → Map.get d.files path ≡ some bytes
      → c.block_of_bytes bytes ≡ some b
      → path ≡ block_file b.header.height

  record_block-IsIndexed :
      (s : LedgerStorage) (b : Block) (hash : BlockHash) (bytes : Bytes)
      → Map.get s.disk.files (block_file b.header.height) ≡ some bytes
      → c.block_of_bytes bytes ≡ some b
      → calculate_hash c b ≡ ok hash
      → IsIndexed c s
      → IsIndexed c
          (record_block s b.header.height hash (block_file b.header.height) (length bytes))
  unfolding record_block
  record_block-IsIndexed s b hash bytes on_disk reads hashed v =
      let md : BlockMetadata = record {
        height = b.header.height;
        hash = hash;
        file_path = block_file b.header.height;
        size = length bytes;
      } in
      record {
        distinct = Distinct-insert s.index b.header.height md v.distinct;
        at = λ j found e. elim (Bool-cases (b.header.height == j)) [
          | inl same ↦
              subst₂
                (IsStored c
                  (record_block s b.header.height hash (block_file b.header.height) (length bytes)))
                ((nat_eq.same_iff b.header.height j).0 same)
                (some-injective _ _
                  (ground (arith, get-insert s.index b.header.height j md, e, same)))
                (record {
                  height = refl;
                  path = refl;
                  bytes = bytes;
                  on_disk = on_disk;
                  size = refl;
                  block = b;
                  reads = reads;
                  block_height = refl;
                  hashed = hashed;
                })
          | inr differ ↦
              let w =
                v.at j found (ground (arith, get-insert s.index b.header.height j md, e, differ)) in
              record {
                height = w.height;
                path = w.path;
                bytes = w.bytes;
                on_disk = w.on_disk;
                size = w.size;
                block = w.block;
                reads = w.reads;
                block_height = w.block_height;
                hashed = w.hashed;
              }
        ];
        top = λ j found e. elim (Bool-cases (b.header.height == j)) [
          | inl same ↦ ground (arith, same)
          | inr differ ↦ ground (
            arith,
            v.top j found (ground (arith, get-insert s.index b.header.height j md, e, differ)),
          )
        ];
      }

  has_block-insert :
      (index : Map ℕ BlockMetadata) (h j : ℕ) (md : BlockMetadata)
      → Map.contains_key index j ≡ true
      → Map.contains_key (Map.insert index h md) j ≡ true
  has_block-insert index h j md held = ground (arith, contains_key-insert index h j md, held)

  -- What a visit of files keeps.
  pub record IsVisited (s s' : LedgerStorage) : Type 0 where
    pub disk : s'.disk ≡ s.disk
    pub indexed : IsIndexed c s'
    pub held : (j : ℕ) → has_block s j ≡ true → has_block s' j ≡ true

  hashed-IsVisited :
      (s : LedgerStorage) (path : FilePath) (bytes : Bytes) (b : Block)
      → path ≡ block_file b.header.height
      → Map.get s.disk.files path ≡ some bytes
      → c.block_of_bytes bytes ≡ some b
      → IsIndexed c s
      → IsVisited s (index_hashed c s path bytes b (calculate_hash c b)).1
  unfolding record_block has_block
  hashed-IsVisited s path bytes b named on_disk reads v = elim (Result-cases (calculate_hash c b)) [
    | inr (e, h) ↦ rw h (record { disk = refl; indexed = v; held = λ j h. h })
    | inl (hash, h) ↦
        rw (h, named)
          (record {
            disk = refl;
            indexed =
                record_block-IsIndexed s b hash bytes
                  (subst (λ k. Map.get s.disk.files k ≡ some bytes) named on_disk) reads h v;
            held = λ j kept. has_block-insert s.index b.header.height j _ kept;
          })
  ]

  file-IsVisited :
      (s : LedgerStorage) (path : FilePath) (bytes : Bytes)
      → IsNamed s.disk
      → s.disk.is_file path ≡ true
      → is_bin path ≡ true
      → Map.get s.disk.files path ≡ some bytes
      → IsIndexed c s
      → IsVisited s (index_file c s path bytes (from_bytes c bytes)).1
  unfolding from_bytes
  file-IsVisited s path bytes named file bin on_disk v =
      elim (Option-cases (c.block_of_bytes bytes)) [
        | inl unread ↦ rw unread (record { disk = refl; indexed = v; held = λ j h. h })
        | inr (b, reads) ↦ rw reads (
            hashed-IsVisited s path bytes b (named path bytes b file bin on_disk reads) on_disk
              reads v)
      ]

  pub read-disk :
      (d : Disk) (path : FilePath) (bytes : Bytes)
      → read d path ≡ ok bytes
      → Map.get d.files path ≡ some bytes
  unfolding read
  read-disk d path bytes h = elim (Option-cases (Map.get d.files path)) [
    | inl absent ↦ absurd (ground (arith, h, absent))
    | inr (x, found) ↦ ground (arith, h, found)
  ]

  pub visit_file-IsVisited :
      (s : LedgerStorage) (path : FilePath)
      → IsNamed s.disk
      → IsIndexed c s
      → IsVisited s (visit_file c s path).1
  visit_file-IsVisited s path named v =
      let unchanged : IsVisited s s = record { disk = refl; indexed = v; held = λ j h. h } in
      elim (Bool-cases (s.disk.entry_fails path)) [
        | inl fails ↦ rw fails unchanged
        | inr fine ↦ elim (Bool-cases (s.disk.is_file path)) [
          | inr directory ↦ rw (fine, directory) unchanged
          | inl file ↦ elim (Bool-cases (is_bin path)) [
            | inr other ↦ rw (fine, file, other) unchanged
            | inl bin ↦ elim (Result-cases (read s.disk path)) [
              | inr (e, h) ↦ rw (fine, file, bin, h) unchanged
              | inl (bytes, h) ↦
                  rw (fine, file, bin, h)
                    (file-IsVisited s path bytes named file bin (read-disk s.disk path bytes h) v)
            ]
          ]
        ]
      ]

  visit_rest-IsVisited :
      (s : LedgerStorage) (r : Ledger (Unit {0}) × LedgerStorage)
      (next : LedgerStorage → Ledger (Unit {0}) × LedgerStorage)
      → IsVisited s r.1
      → IsVisited r.1 (next r.1).1
      → IsVisited s (visit_rest c r next).1
  visit_rest-IsVisited s (err e, t) next v w = v
  visit_rest-IsVisited s (ok u, t) next v w = record {
    disk = w.disk ∙ v.disk;
    indexed = w.indexed;
    held = λ j h. w.held j (v.held j h);
  }

  pub visit_files-IsVisited :
      (paths : List FilePath) (s : LedgerStorage)
      → IsNamed s.disk
      → IsIndexed c s
      → IsVisited s (visit_files c paths s).1
  unfolding visit_files
  visit_files-IsVisited [] s named v = record { disk = refl; indexed = v; held = λ j h. h }
  visit_files-IsVisited (path ∷ paths) s named v =
      let one = visit_file-IsVisited s path named v in
      visit_rest-IsVisited s (visit_file c s path) (visit_files c paths) one (
        visit_files-IsVisited paths (visit_file c s path).1 (subst IsNamed (sym one.disk) named)
          one.indexed)

  pub nothing-IsIndexed :
      (s : LedgerStorage)
      → IsIndexed c (record s { index = []; hash_lookup = []; chain_height = 0 })
  unfolding get
  nothing-IsIndexed s = record { distinct = tt; at = λ h md e. cc e; top = λ h md e. cc e }

  -- Rebuilding the index, whether it ends with an error or not and whatever the index was,
  -- leaves the index and the disk in step, where each block file that reads back is named by
  -- the height of its block.
  pub rebuild_index-IsIndexed :
      (s : LedgerStorage) → IsNamed s.disk → IsIndexed c (rebuild_index c s).1
  unfolding rebuild_index
  rebuild_index-IsIndexed s named =
      let cleared : LedgerStorage = record s { index = []; hash_lookup = []; chain_height = 0 } in
      let nothing : IsIndexed c cleared = nothing-IsIndexed s in
      let visited = visit_files-IsVisited (Map.keys s.disk.files) cleared named nothing in
      if_either (λ (r : Ledger (Unit {0}) × LedgerStorage). IsIndexed c r.1)
        s.disk.blocks_dir_exists
        (if_either (λ (r : Ledger (Unit {0}) × LedgerStorage). IsIndexed c r.1)
          s.disk.read_dir_fails nothing visited.indexed)
        nothing
