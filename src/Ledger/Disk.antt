-- ===== src/Ledger/Disk.antt =====
-- The part of `std::fs` that crates/myriadmesh-ledger/src/storage.rs uses, over the files of its
-- `blocks` directory. Which calls fail is given by the disk. A write that fails is one that could
-- not open its file, and leaves the files as they were.
use myriadmesh_server.Base.{
  ℕ, Bool, true, false, ◌≡◌, ◌↔◌, if◌then◌else◌, ◌==◌, Eq, String, string_eq, nat_eq, arith,
}
use myriadmesh_server.Base.Bytes.{Bytes}
use myriadmesh_server.Base.Map
use myriadmesh_server.Base.Map.{Map}
use myriadmesh_server.Base.Result.{ok, err, ok_or}
use myriadmesh_server.Ledger.Error.{Ledger, io_error}

-- `block_file h` is the file named by `format!("block_{:010}.bin", h)`.
pub data FilePath : Type 0 where
  block_file : ℕ → FilePath
  bin_file : String → FilePath
  other_file : String → FilePath

-- `path.extension().is_some_and(|ext| ext == "bin")`
abbrev pub is_bin : FilePath → Bool
is_bin (block_file h) = true
is_bin (bin_file name) = true
is_bin (other_file name) = false

abbrev pub file_path_beq : FilePath → FilePath → Bool
file_path_beq (block_file a) (block_file b) = a == b
file_path_beq (bin_file a) (bin_file b) = a == b
file_path_beq (other_file a) (other_file b) = a == b
file_path_beq _ _ = false

pub file_path_beq_iff : (a b : FilePath) → (file_path_beq a b ≡ true) ↔ (a ≡ b)
file_path_beq_iff (block_file a) (block_file b) = ground arith
file_path_beq_iff (bin_file a) (bin_file b) = ground (arith, string_eq.same_iff a b)
file_path_beq_iff (other_file a) (other_file b) = ground (arith, string_eq.same_iff a b)
file_path_beq_iff (block_file a) (bin_file b) = ground arith
file_path_beq_iff (block_file a) (other_file b) = ground arith
file_path_beq_iff (bin_file a) (block_file b) = ground arith
file_path_beq_iff (bin_file a) (other_file b) = ground arith
file_path_beq_iff (other_file a) (block_file b) = ground arith
file_path_beq_iff (other_file a) (bin_file b) = ground arith

instance abbrev pub file_path_eq : Eq FilePath
file_path_eq = record { same = file_path_beq; same_iff = file_path_beq_iff }

pub record Disk : Type 0 where
  pub files : Map FilePath Bytes
  -- whether an entry of the directory is a file, and whether reading the entry fails
  pub is_file : FilePath → Bool
  pub entry_fails : FilePath → Bool
  pub blocks_dir_exists : Bool
  pub create_dir_fails : Bool
  pub read_dir_fails : Bool
  pub write_fails : FilePath → Bool
  pub read_fails : FilePath → Bool
  pub remove_fails : FilePath → Bool

unfoldable pub create_dir_all : Disk → Ledger Disk
create_dir_all d =
    if d.create_dir_fails then err io_error else ok (record d { blocks_dir_exists = true })

unfoldable pub write : Disk → FilePath → Bytes → Ledger Disk
write d path bytes =
    if d.write_fails path
    then err io_error
    else ok (record d { files = Map.insert d.files path bytes })

unfoldable pub read : Disk → FilePath → Ledger Bytes
read d path = if d.read_fails path then err io_error else ok_or (Map.get d.files path) io_error

unfoldable pub remove_file : Disk → FilePath → Disk
remove_file d path = if d.remove_fails path then d else record d { files = Map.remove d.files path }
