-- ===== src/Ledger/Storage.antt =====
-- crates/myriadmesh-ledger/src/storage.rs: the store of blocks, its index, and pruning. The disk is
-- a field of the store. A method that fails before it has changed anything returns the error alone.
pub mod Index
pub mod Prune
pub mod Store
pub mod Loading
pub mod Retention
pub mod Rebuild
pub mod Recovery
pub mod Refinement
use myriadmesh_server.Base.{
  ℕ, zero, suc, ◌+◌, ◌-◌, Bool, true, false, ◌&&◌, Option, none, some, List, [], ◌∷◌, map, length,
  is_empty, select, String, add64, sub64, ltb, leb, eqb, if◌then◌else◌, nat_eq,
}
use myriadmesh_server.Base.Bytes.{Bytes, bytes_eq}
use myriadmesh_server.Base.Map
use myriadmesh_server.Base.Map.{Map}
use myriadmesh_server.Base.Sort.{sort_by}
use myriadmesh_server.Base.Result.{Result, ok, err, ◌>>=◌, ok_or}
use myriadmesh_server.Ledger.Error.{
  Ledger, block_not_found, storage_error, not_found_by_hash, no_blocks, io_error,
}
use myriadmesh_server.Ledger.Chain.{Block, BlockHash}
use myriadmesh_server.Ledger.Codec.{Codec}
use myriadmesh_server.Ledger.Block.{calculate_hash, to_bytes, from_bytes}
use myriadmesh_server.Ledger.Disk.{
  FilePath, block_file, is_bin, Disk, create_dir_all, write, read, remove_file,
}

abbrev pub default_keep_blocks : ℕ
default_keep_blocks = 10000

pub record StorageConfig : Type 0 where
  pub storage_dir : String
  pub pruning_enabled : Bool
  pub keep_blocks : ℕ

unfoldable pub new_config : String → StorageConfig
new_config storage_dir = record {
  storage_dir = storage_dir;
  pruning_enabled = true;
  keep_blocks = default_keep_blocks;
}

unfoldable pub without_pruning : StorageConfig → StorageConfig
without_pruning config = record config { pruning_enabled = false }

unfoldable pub with_keep_blocks : StorageConfig → ℕ → StorageConfig
with_keep_blocks config keep_blocks = record config { keep_blocks = keep_blocks }

pub record BlockMetadata : Type 0 where
  pub height : ℕ
  pub hash : BlockHash
  pub file_path : FilePath
  pub size : ℕ

pub record LedgerStorage : Type 0 where
  pub config : StorageConfig
  pub index : Map ℕ BlockMetadata
  pub hash_lookup : Map BlockHash ℕ
  pub chain_height : ℕ
  pub disk : Disk

pub record StorageStats : Type 0 where
  pub block_count : ℕ
  pub height : ℕ
  pub total_size_bytes : ℕ
  pub pruning : Bool
  pub kept : ℕ

unfoldable pub new : StorageConfig → Disk → Ledger LedgerStorage
new config disk = do
  disk' ← create_dir_all disk
  ok (record { config = config; index = []; hash_lookup = []; chain_height = 0; disk = disk' })

unfoldable pub has_block : LedgerStorage → ℕ → Bool
has_block s height = Map.contains_key s.index height

unfoldable pub has_block_with_hash : LedgerStorage → BlockHash → Bool
has_block_with_hash s hash = Map.contains_key s.hash_lookup hash

unfoldable pub get_metadata : LedgerStorage → ℕ → Option BlockMetadata
get_metadata s height = Map.get s.index height

unfoldable pub block_count : LedgerStorage → ℕ
block_count s = length s.index

unfoldable pub get_heights : LedgerStorage → List ℕ
get_heights s = sort_by leb (Map.keys s.index)

-- the body of `for height in heights_to_delete`
abbrev forget : LedgerStorage → ℕ → Option BlockMetadata → LedgerStorage
forget s height none = s
forget s height (some metadata) = record s {
  index = Map.remove s.index height;
  disk = remove_file s.disk metadata.file_path;
  hash_lookup = Map.remove s.hash_lookup metadata.hash;
}

unfoldable pub delete_block : LedgerStorage → ℕ → LedgerStorage
delete_block s height = forget s height (Map.get s.index height)

unfoldable pub delete_blocks : LedgerStorage → List ℕ → LedgerStorage
delete_blocks s [] = s
delete_blocks s (height ∷ rest) = delete_blocks (delete_block s height) rest

-- `chain_height.saturating_sub(keep_blocks - 1)`
unfoldable pub keep_from_height : LedgerStorage → ℕ
keep_from_height s = s.chain_height - sub64 s.config.keep_blocks 1

unfoldable pub prune : LedgerStorage → LedgerStorage
prune s =
    if leb (length s.index) s.config.keep_blocks
    then s
    else delete_blocks s (select (λ height. ltb height (keep_from_height s)) (Map.keys s.index))

unfoldable pub record_block : LedgerStorage → ℕ → BlockHash → FilePath → ℕ → LedgerStorage
record_block s height hash file_path size = record s {
  index =
      Map.insert s.index height
        (record { height = height; hash = hash; file_path = file_path; size = size });
  hash_lookup = Map.insert s.hash_lookup hash height;
  chain_height = if ltb s.chain_height height then height else s.chain_height;
}

module _ (c : Codec) where
  unfoldable pub store_block : LedgerStorage → Block → Ledger LedgerStorage
  store_block s block = do
    let height = block.header.height
    hash ← calculate_hash c block
    block_bytes ← to_bytes c block
    disk ← write s.disk (block_file height) block_bytes
    let stored =
        record_block (record s { disk = disk }) height hash (block_file height) (length block_bytes)
    ok (
        if s.config.pruning_enabled && ltb s.config.keep_blocks (length stored.index)
        then prune stored
        else stored)

  unfoldable pub load_block : LedgerStorage → ℕ → Ledger Block
  load_block s height = do
    metadata ← ok_or (Map.get s.index height) (block_not_found height)
    block_bytes ← read s.disk metadata.file_path
    from_bytes c block_bytes

  unfoldable pub load_block_by_hash : LedgerStorage → BlockHash → Ledger Block
  load_block_by_hash s hash = do
    height ← ok_or (Map.get s.hash_lookup hash) (storage_error not_found_by_hash)
    load_block s height

  unfoldable pub get_latest_block : LedgerStorage → Ledger Block
  get_latest_block s =
      if eqb s.chain_height 0 && is_empty s.index
      then err (storage_error no_blocks)
      else load_block s s.chain_height

  abbrev push_ok : Ledger Block → List Block → List Block
  push_ok (ok block) blocks = block ∷ blocks
  push_ok (err e) blocks = blocks

  -- `count` heights from `start` on
  unfoldable pub load_heights : LedgerStorage → ℕ → ℕ → List Block
  load_heights s start zero = []
  load_heights s start (suc count) = push_ok (load_block s start) (load_heights s (start + 1) count)

  unfoldable pub load_range : LedgerStorage → ℕ → ℕ → Ledger (List Block)
  load_range s start_height end_height =
      ok (load_heights s start_height (end_height + 1 - start_height))

  -- the body of the loop over the directory, after the hash has been taken
  abbrev pub index_hashed :
      LedgerStorage
      → FilePath
      → Bytes
      → Block
      → Ledger BlockHash
      → Ledger (Unit {0}) × LedgerStorage
  index_hashed s path block_bytes block (err e) = (err e, s)
  index_hashed s path block_bytes block (ok hash) =
      (ok tt, record_block s block.header.height hash path (length block_bytes))

  -- after the bytes have been read as a block, or not
  abbrev pub index_file :
      LedgerStorage → FilePath → Bytes → Ledger Block → Ledger (Unit {0}) × LedgerStorage
  index_file s path block_bytes (err e) = (ok tt, s)
  index_file s path block_bytes (ok block) =
      index_hashed s path block_bytes block (calculate_hash c block)

  -- after the file has been read
  abbrev pub index_bytes :
      LedgerStorage → FilePath → Ledger Bytes → Ledger (Unit {0}) × LedgerStorage
  index_bytes s path (err e) = (err e, s)
  index_bytes s path (ok block_bytes) = index_file s path block_bytes (from_bytes c block_bytes)

  abbrev pub visit_file : LedgerStorage → FilePath → Ledger (Unit {0}) × LedgerStorage
  visit_file s path =
      if s.disk.entry_fails path
      then (err io_error, s)
      else if s.disk.is_file path && is_bin path
      then index_bytes s path (read s.disk path)
      else (ok tt, s)

  abbrev pub visit_rest :
      Ledger (Unit {0}) × LedgerStorage
      → (LedgerStorage → Ledger (Unit {0}) × LedgerStorage)
      → Ledger (Unit {0}) × LedgerStorage
  visit_rest (err e, s) next = (err e, s)
  visit_rest (ok u, s) next = next s

  -- `for entry in fs::read_dir(…)?`
  unfoldable pub visit_files : List FilePath → LedgerStorage → Ledger (Unit {0}) × LedgerStorage
  visit_files [] s = (ok tt, s)
  visit_files (path ∷ rest) s = visit_rest (visit_file s path) (visit_files rest)

  unfoldable pub rebuild_index : LedgerStorage → Ledger (Unit {0}) × LedgerStorage
  rebuild_index s =
      let cleared = record s { index = []; hash_lookup = []; chain_height = 0 } in
      if s.disk.blocks_dir_exists
      then (if s.disk.read_dir_fails
          then (err io_error, cleared)
          else visit_files (Map.keys s.disk.files) cleared)
      else (ok tt, cleared)

unfoldable pub total_size : List BlockMetadata → ℕ
total_size [] = 0
total_size (metadata ∷ rest) = add64 metadata.size (total_size rest)

unfoldable pub stats : LedgerStorage → StorageStats
unfolding total_size
stats s = record {
  block_count = length s.index;
  height = s.chain_height;
  total_size_bytes = total_size (Map.values s.index);
  pruning = s.config.pruning_enabled;
  kept = s.config.keep_blocks;
}
