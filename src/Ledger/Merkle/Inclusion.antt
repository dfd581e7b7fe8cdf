-- ===== src/Ledger/Merkle/Inclusion.antt =====
-- crates/myriadmesh-ledger/src/merkle.rs: `verify_entry_inclusion`.
use mathlib.Core.List.{Mem}
use mathlib.Core.Path.{subst}
use myriadmesh_server.Base.{◌≡◌, List, length, any_of, true, inl, inr, ◌⊎◌, arith, ◌==◌, Bool-cases}
use myriadmesh_server.Base.Members.{any_of→Mem}
use myriadmesh_server.Base.Bytes.{Bytes, bytes_eq, bytes_beq_iff}
use myriadmesh_server.Ledger.Codec.{HashLength}
use myriadmesh_server.Ledger.Merkle.{calculate_merkle_root, verify_entry_inclusion}
use myriadmesh_server.Ledger.Merkle.Binding.{Collision, and_then, merkle_root_binding}

module _ (hash : Bytes → Bytes) where
  -- An entry that verifies, with a list of entries, against the root of another list of the
  -- same length stands in that other list, or else the hash, whose digests have 64 bytes, has
  -- a collision.
  pub inclusion_sound :
      HashLength hash
      → (committed entries : List Bytes) (entry : Bytes) → length entries ≡ length committed
      → verify_entry_inclusion hash entries entry (calculate_merkle_root hash committed) ≡ true
      → Mem entry committed ⊎ Collision hash
  unfolding verify_entry_inclusion
  inclusion_sound digest committed entries entry n h =
      elim (Bool-cases (any_of (λ e. e == entry) entries)) [
        | inl found ↦
            and_then
              (merkle_root_binding hash digest entries committed n
                ((bytes_beq_iff _ _).0 (ground arith)))
              λ same. inl (subst (Mem entry) same (any_of→Mem entry entries found))
        | inr missing ↦ cc (missing)
      ]
