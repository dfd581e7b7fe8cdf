-- ===== src/Base/Sets.antt =====
-- Rust's `HashSet` as a list in which each element stands once. Its order stands for the order of
-- iteration, which is not specified.
use mathlib.Core.Path.{◌≡◌, refl}
use mathlib.Core.Bool.{Bool, false, ◌||◌}
use mathlib.Core.List.{List, [], ◌∷◌}
use native.Mathlib.Omega.{arith}
use myriadmesh_server.Base.Tests.{if◌then◌else◌}
use myriadmesh_server.Base.Equality.{Eq, ◌==◌}

module _ {ℓ} {A : Type ℓ} ⦃e : Eq A⦄ where
  -- `contains`
  unfoldable pub contains : List A → A → Bool
  contains [] a = false
  contains (x ∷ xs) a = x == a || contains xs a

  -- `insert`
  unfoldable pub set_insert : List A → A → List A
  unfolding contains
  set_insert xs a = if contains xs a then xs else a ∷ xs

  -- each element stands once
  abbrev pub Unique : List A → Type 0
  Unique [] = Unit
  Unique (x ∷ xs) = (contains xs x ≡ false) × Unique xs

module _ {ℓ} {A : Type ℓ} ⦃e : Eq A⦄ where
  pub contains-set_insert :
      (xs : List A) (a b : A) → contains (set_insert xs a) b ≡ (a == b || contains xs b)
  unfolding set_insert contains
  contains-set_insert [] a b = refl
  contains-set_insert (x ∷ xs) a b =
      ground (arith, contains-set_insert xs a b, e.same_iff x a, e.same_iff x b, e.same_iff a b)

  pub set_insert-Unique : (xs : List A) (a : A) → Unique xs → Unique (set_insert xs a)
  unfolding set_insert
  set_insert-Unique xs a u = ground arith
