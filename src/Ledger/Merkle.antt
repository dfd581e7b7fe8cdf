-- ===== src/Ledger/Merkle.antt =====
-- crates/myriadmesh-ledger/src/merkle.rs. The hash function is an argument.
pub mod Shape
pub mod Binding
pub mod Repetition
pub mod Inclusion
use myriadmesh_server.Base.{
  ℕ, zero, suc, Bool, true, false, not, List, [], ◌∷◌, ◌++◌, map, length, take, is_empty, any_of,
  leb, if◌then◌else◌, ◌==◌,
}
use myriadmesh_server.Base.Bytes.{Bytes, bytes_eq}

abbrev pub hash_size : ℕ
hash_size = 64

abbrev pub root_size : ℕ
root_size = 32

-- `hashes[0]`; that it is there is a theorem
abbrev pub first : List Bytes → Bytes
first [] = []
first (x ∷ xs) = x

module _ (hash : Bytes → Bytes) where
  -- the `for chunk in hashes.chunks(2)`
  unfoldable pub next_level : List Bytes → List Bytes
  next_level [] = []
  next_level (x ∷ []) = hash (x ++ x) ∷ []
  next_level (x ∷ y ∷ rest) = hash (x ++ y) ∷ next_level rest

  -- the `while hashes.len() > 1`, on fuel
  unfoldable pub build : ℕ → List Bytes → List Bytes
  build zero hashes = hashes
  build (suc fuel) hashes =
      let rest = build fuel (next_level hashes) in if leb (length hashes) 1 then hashes else rest

  unfoldable pub calculate_merkle_root : List Bytes → Bytes
  calculate_merkle_root entries =
      if is_empty entries
      then take root_size (hash [])
      else take root_size (first (build (length entries) (map hash entries)))

  unfoldable pub verify_entry_inclusion : List Bytes → Bytes → Bytes → Bool
  verify_entry_inclusion entries entry expected_root =
      if not (any_of (λ e. e == entry) entries)
      then false
      else calculate_merkle_root entries == expected_root
