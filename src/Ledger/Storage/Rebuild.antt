-- ===== src/Ledger/Storage/Rebuild.antt =====
-- crates/myriadmesh-ledger/src/storage.rs: which blocks `rebuild_index` finds.
use myriadmesh_server.Base.{
  ℕ, ◌≡◌, Bool, ◌&&◌, refl, sym, true, false, some, List, [], ◌∷◌, arith, inl, inr, Bool-cases,
  any_of, nat_eq, same_refl, ◌==◌, if◌then◌else◌,
}
use mathlib.Core.Path.{subst}
use myriadmesh_server.Base.Bytes.{Bytes}
use myriadmesh_server.Base.Map
use myriadmesh_server.Base.Map.{Map, get, contains_key-insert}
use myriadmesh_server.Base.Result.{ok, err, Result-cases}
use myriadmesh_server.Ledger.Error.{Ledger, io_error}
use myriadmesh_server.Ledger.Chain.{Block}
use myriadmesh_server.Ledger.Codec.{Codec}
use myriadmesh_server.Ledger.Block.{calculate_hash, from_bytes}
use myriadmesh_server.Ledger.Disk.{Disk, FilePath, is_bin, read, file_path_eq}
use myriadmesh_server.Ledger.Storage.{
  LedgerStorage, BlockMetadata, has_block, record_block, index_bytes, index_hashed, visit_file,
  visit_rest, visit_files, rebuild_index,
}
use myriadmesh_server.Ledger.Storage.Index.{IsIndexed}
use myriadmesh_server.Ledger.Storage.Recovery.{
  IsNamed, read-disk, visit_file-IsVisited, visit_files-IsVisited, nothing-IsIndexed,
  rebuild_index-IsIndexed,
}

any_of-keys-found {ℓ} :
    {V : Type ℓ}
    → (m : Map FilePath V) (path : FilePath) (v : V) → Map.get m path ≡ some v
    → any_of (λ j. j == path) (Map.keys m) ≡ true
unfolding any_of get
any_of-keys-found [] path v e = cc
any_of-keys-found ((i, w) ∷ m) path v e = elim (Bool-cases (i == path)) [
  | inl hit ↦ ground (arith, hit)
  | inr miss ↦ ground (arith, miss, any_of-keys-found m path v (ground (arith, miss, e)))
]

abbrev Step : Type 0
Step = Ledger (Unit {0}) × LedgerStorage

-- an entry whose visit ends well has been visited as a file of blocks
visited_entry :
    (fails file bin : Bool) (failed skipped visited : Step)
    → file ≡ true
    → bin ≡ true
    → (failed.0 ≡ ok tt → ⊥)
    → (if fails then failed else if file && bin then visited else skipped).0 ≡ ok tt
    → (if fails then failed else if file && bin then visited else skipped) ≡ visited
visited_entry true file bin failed skipped visited is_file is_bin bad done = absurd (bad done)
visited_entry false true true failed skipped visited is_file is_bin bad done = refl
visited_entry false false bin failed skipped visited is_file is_bin bad done = cc
visited_entry false true false failed skipped visited is_file is_bin bad done = cc

-- a rebuild that ends well, of a directory that is there, has visited its entries
visited_directory :
    (exists fails : Bool) (failed skipped visited : Step)
    → exists ≡ true
    → (failed.0 ≡ ok tt → ⊥)
    → (if exists then if fails then failed else visited else skipped).0 ≡ ok tt
    → (if exists then if fails then failed else visited else skipped) ≡ visited
visited_directory true true failed skipped visited there bad done = absurd (bad done)
visited_directory true false failed skipped visited there bad done = refl
visited_directory false fails failed skipped visited there bad done = cc

module _ (c : Codec) where
  -- The file is read as the block.
  record IsBlockFile (d : Disk) (path : FilePath) (b : Block) : Type 0 where
    file : d.is_file path ≡ true
    bin : is_bin path ≡ true
    bytes : Bytes
    on_disk : Map.get d.files path ≡ some bytes
    reads : c.block_of_bytes bytes ≡ some b

  has_block-inserted :
      (index : Map ℕ BlockMetadata) (h : ℕ) (md : BlockMetadata)
      → Map.contains_key (Map.insert index h md) h ≡ true
  has_block-inserted index h md = ground (arith, contains_key-insert index h h md, same_refl h)

  has_block-index_hashed :
      (s : LedgerStorage) (path : FilePath) (bytes : Bytes) (b : Block)
      → (index_hashed c s path bytes b (calculate_hash c b)).0 ≡ ok tt
      → has_block (index_hashed c s path bytes b (calculate_hash c b)).1 b.header.height ≡ true
  unfolding record_block has_block
  has_block-index_hashed s path bytes b done = elim (Result-cases (calculate_hash c b)) [
    | inr (e, h) ↦ absurd (ground (arith, h, done))
    | inl (hash, h) ↦ rw h (has_block-inserted s.index b.header.height _)
  ]

  has_block-index_bytes :
      (s : LedgerStorage) (path : FilePath) (b : Block)
      → IsBlockFile s.disk path b
      → (contents : Ledger Bytes) → read s.disk path ≡ contents
      → (index_bytes c s path contents).0 ≡ ok tt
      → has_block (index_bytes c s path contents).1 b.header.height ≡ true
  unfolding from_bytes
  has_block-index_bytes s path b f (err e) h done = cc
  has_block-index_bytes s path b f (ok bytes) h done =
      let same : c.block_of_bytes bytes ≡ some b =
        ground (arith, f.reads, f.on_disk, read-disk c s.disk path bytes h) in
      rw same (has_block-index_hashed s path bytes b (rw same at done))

  -- A visit of the file of a block that does not fail indexes the block.
  has_block-visit_file :
      (s : LedgerStorage) (path : FilePath) (b : Block)
      → IsBlockFile s.disk path b
      → (visit_file c s path).0 ≡ ok tt
      → has_block (visit_file c s path).1 b.header.height ≡ true
  has_block-visit_file s path b f done =
      let visited = index_bytes c s path (read s.disk path) in
      let entered =
        visited_entry (s.disk.entry_fails path) (s.disk.is_file path) (is_bin path)
          (err io_error, s) (ok tt, s) visited f.file f.bin (λ h. cc) done in
      subst (λ (r : Step). has_block r.1 b.header.height ≡ true) (sym entered)
        (has_block-index_bytes s path b f (read s.disk path) refl
          (subst (λ (r : Step). r.0 ≡ ok tt) entered done))

  visit_rest-ok :
      (r : Step) (next : LedgerStorage → Step)
      → (visit_rest c r next).0 ≡ ok tt
      → (r.0 ≡ ok tt) × ((next r.1).0 ≡ ok tt) × (visit_rest c r next ≡ next r.1)
  visit_rest-ok (err e, s) next done = cc
  visit_rest-ok (ok u, s) next done = (refl, done, refl)

  has_block-visit_files :
      (paths : List FilePath) (s : LedgerStorage) (path : FilePath) (b : Block)
      → IsNamed c s.disk
      → IsIndexed c s
      → IsBlockFile s.disk path b
      → any_of (λ j. j == path) paths ≡ true
      → (visit_files c paths s).0 ≡ ok tt
      → has_block (visit_files c paths s).1 b.header.height ≡ true
  unfolding visit_files any_of
  has_block-visit_files [] s path b named v f listed done = cc
  has_block-visit_files (p ∷ paths) s path b named v f listed done =
      let s1 = (visit_file c s p).1 in
      let one = visit_file-IsVisited c s p named v in
      let named1 : IsNamed c s1.disk = subst (IsNamed c) (sym one.disk) named in
      let (first, rest, same) = visit_rest-ok (visit_file c s p) (visit_files c paths) done in
      let later : has_block (visit_files c paths s1).1 b.header.height ≡ true =
        elim (Bool-cases (p == path)) [
          | inl here ↦
              let is_path = (file_path_eq.same_iff p path).0 here in
              (visit_files-IsVisited c paths s1 named1 one.indexed).held b.header.height (
                has_block-visit_file s p b (subst (λ q. IsBlockFile s.disk q b) (sym is_path) f)
                  first)
          | inr elsewhere ↦
              has_block-visit_files paths s1 path b named1 one.indexed
                (subst (λ d. IsBlockFile d path b) (sym one.disk) f)
                (ground (arith, elsewhere, listed)) rest
        ] in
      subst (λ (r : Step). has_block r.1 b.header.height ≡ true) (sym same) later

  -- A rebuild of the index that ends without an error leaves the index and the disk in step
  -- and holds the height of each block file of the directory that reads back, where the
  -- directory exists and every such file is named by the height of its block.
  pub has_block-rebuild_index :
      (s : LedgerStorage) (path : FilePath) (bytes : Bytes) (b : Block)
      → IsNamed c s.disk
      → s.disk.blocks_dir_exists ≡ true
      → s.disk.is_file path ≡ true
      → is_bin path ≡ true
      → Map.get s.disk.files path ≡ some bytes
      → c.block_of_bytes bytes ≡ some b
      → (rebuild_index c s).0 ≡ ok tt
      → IsIndexed c (rebuild_index c s).1 × (has_block (rebuild_index c s).1 b.header.height ≡ true)
  unfolding rebuild_index
  has_block-rebuild_index s path bytes b named exists file bin on_disk reads done =
      let cleared : LedgerStorage = record s { index = []; hash_lookup = []; chain_height = 0 } in
      let f : IsBlockFile s.disk path b = record {
        file = file;
        bin = bin;
        bytes = bytes;
        on_disk = on_disk;
        reads = reads;
      } in
      let visited = visit_files c (Map.keys s.disk.files) cleared in
      let entered =
        visited_directory s.disk.blocks_dir_exists s.disk.read_dir_fails (err io_error, cleared)
          (ok tt, cleared) visited exists (λ h. cc) done in
      (
        rebuild_index-IsIndexed c s named,
        subst (λ (r : Step). has_block r.1 b.header.height ≡ true) (sym entered)
            (has_block-visit_files (Map.keys s.disk.files) cleared path b named
              (nothing-IsIndexed c s) f (any_of-keys-found s.disk.files path bytes on_disk)
              (subst (λ (r : Step). r.0 ≡ ok tt) entered done)),
      )
