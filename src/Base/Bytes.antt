-- ===== src/Base/Bytes.antt =====
-- Byte strings: equality, and the lexicographic order of Rust's slices.
use Prim.Native.Nat.{ℕ}
use mathlib.Core.Path.{◌≡◌, refl}
use mathlib.Core.Logic.{◌↔◌, ◌⊎◌, inl, inr}
use mathlib.Core.Bool.{Bool, true, false, ◌&&◌, ◌||◌}
use mathlib.Core.List.{List, [], ◌∷◌}
use native.Mathlib.Omega.{arith}
use myriadmesh_server.Base.Tests.{ltb, eqb}
use myriadmesh_server.Base.Equality.{Eq}

abbrev pub Bytes : Type 0
Bytes = List ℕ

unfoldable pub bytes_beq : Bytes → Bytes → Bool
bytes_beq [] [] = true
bytes_beq (a ∷ xs) (b ∷ ys) = eqb a b && bytes_beq xs ys
bytes_beq _ _ = false

pub bytes_beq_iff : (a b : Bytes) → (bytes_beq a b ≡ true) ↔ (a ≡ b)
unfolding bytes_beq
bytes_beq_iff [] [] = ground arith
bytes_beq_iff [] (b ∷ ys) = ground arith
bytes_beq_iff (a ∷ xs) [] = ground arith
bytes_beq_iff (a ∷ xs) (b ∷ ys) = ground (arith, bytes_beq_iff xs ys)

instance abbrev pub bytes_eq : Eq Bytes
bytes_eq = record { same = bytes_beq; same_iff = bytes_beq_iff }

-- `a.cmp(b) != Greater`
unfoldable pub bytes_leb : Bytes → Bytes → Bool
bytes_leb [] ys = true
bytes_leb (a ∷ xs) [] = false
bytes_leb (a ∷ xs) (b ∷ ys) = ltb a b || (eqb a b && bytes_leb xs ys)

pub bytes_leb_refl : (a : Bytes) → bytes_leb a a ≡ true
unfolding bytes_leb
bytes_leb_refl [] = refl
bytes_leb_refl (a ∷ xs) = ground (arith, bytes_leb_refl xs)

pub bytes_leb_total : (a b : Bytes) → (bytes_leb a b ≡ true) ⊎ (bytes_leb b a ≡ true)
unfolding bytes_leb
bytes_leb_total [] b = inl refl
bytes_leb_total (a ∷ xs) [] = inr refl
bytes_leb_total (a ∷ xs) (b ∷ ys) = ground (arith, bytes_leb_total xs ys)

pub bytes_leb_antisymm : (a b : Bytes) → bytes_leb a b ≡ true → bytes_leb b a ≡ true → a ≡ b
unfolding bytes_leb
bytes_leb_antisymm [] [] h k = refl
bytes_leb_antisymm [] (b ∷ ys) h k = cc
bytes_leb_antisymm (a ∷ xs) [] h k = cc
bytes_leb_antisymm (a ∷ xs) (b ∷ ys) h k = ground (arith, bytes_leb_antisymm xs ys)

pub bytes_leb_trans :
    (a b c : Bytes) → bytes_leb a b ≡ true → bytes_leb b c ≡ true → bytes_leb a c ≡ true
unfolding bytes_leb
bytes_leb_trans [] b c h k = refl
bytes_leb_trans (a ∷ xs) [] c h k = cc
bytes_leb_trans (a ∷ xs) (b ∷ ys) [] h k = cc
bytes_leb_trans (a ∷ xs) (b ∷ ys) (c ∷ zs) h k = ground (arith, bytes_leb_trans xs ys zs)

pub Bytes-set : IsSet Bytes
Bytes-set = hlevel
