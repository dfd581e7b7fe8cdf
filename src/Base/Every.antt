-- ===== src/Base/Every.antt =====
-- What holds of every entry of a table, before and after its operations.
use mathlib.Core.Path.{◌≡◌, subst, sym}
use mathlib.Core.Logic.{inl, inr}
use mathlib.Core.Bool.{Bool, true}
use mathlib.Core.List.{List, [], ◌∷◌, map}
use myriadmesh_server.Base.Tests.{Bool-cases}
use myriadmesh_server.Base.Lists.{All, select}
use myriadmesh_server.Base.Equality.{Eq, ◌==◌}
use myriadmesh_server.Base.Map.{Map, insert, remove}
use myriadmesh_server.Base.Counts.{update}
use myriadmesh_server.Base.Sets.{contains, set_insert}

module _ {ℓ κ} {A : Type ℓ} (P : A → Type κ) where
  pub All-select : (p : A → Bool) (xs : List A) → All P xs → All P (select p xs)
  unfolding select
  All-select p [] a = tt
  All-select p (x ∷ xs) a = elim (Bool-cases (p x)) [
    | inl keep ↦ rw keep (a.0, All-select p xs a.1)
    | inr drop ↦ rw drop (All-select p xs a.1)
  ]

  -- What a filter keeps passes its test.
  pub All-selected :
      (p : A → Bool) (xs : List A) → All P xs → All (λ x. P x × (p x ≡ true)) (select p xs)
  unfolding select
  All-selected p [] a = tt
  All-selected p (x ∷ xs) a = elim (Bool-cases (p x)) [
    | inl keep ↦ rw keep ((a.0, keep), All-selected p xs a.1)
    | inr drop ↦ rw drop (All-selected p xs a.1)
  ]

module _ {ℓ κ} {A : Type ℓ} {B : Type κ} where
  pub All-map {ι} :
      (P : B → Type ι) (f : A → B) (xs : List A) → All (λ x. P (f x)) xs → All P (map f xs)
  All-map P f [] a = tt
  All-map P f (x ∷ xs) a = (a.0, All-map P f xs a.1)

module _ {ℓ κ ι} {K : Type ℓ} {V : Type κ} ⦃e : Eq K⦄ (P : K × V → Type ι) where
  pub All-insert : (m : Map K V) (k : K) (v : V) → P (k, v) → All P m → All P (insert m k v)
  unfolding insert
  All-insert [] k v p a = (p, tt)
  All-insert ((j, w) ∷ m) k v p a = elim (Bool-cases (j == k)) [
    | inl hit ↦ rw hit (p, a.1)
    | inr miss ↦ rw miss (a.0, All-insert m k v p a.1)
  ]

  pub All-remove : (m : Map K V) (k : K) → All P m → All P (remove m k)
  unfolding remove
  All-remove [] k a = tt
  All-remove ((j, w) ∷ m) k a = elim (Bool-cases (j == k)) [
    | inl hit ↦ rw hit (All-remove m k a.1)
    | inr miss ↦ rw miss (a.0, All-remove m k a.1)
  ]

  pub All-update :
      (m : Map K V) (k : K) (f : V → V)
      → ((v : V) → P (k, v) → P (k, f v))
      → All P m
      → All P (update m k f)
  unfolding update
  All-update [] k f keep a = tt
  All-update ((j, w) ∷ m) k f keep a = elim (Bool-cases (j == k)) [
    | inl hit ↦
        let same = (e.same_iff j k).0 hit in
        rw hit (subst (λ i. P (i, f w)) (sym same) (keep w (subst (λ i. P (i, w)) same a.0)), a.1)
    | inr miss ↦ rw miss (a.0, All-update m k f keep a.1)
  ]

module _ {ℓ κ} {A : Type ℓ} ⦃e : Eq A⦄ (P : A → Type κ) where
  pub All-set_insert : (xs : List A) (a : A) → P a → All P xs → All P (set_insert xs a)
  unfolding set_insert
  All-set_insert xs a p all = elim (Bool-cases (contains xs a)) [
    | inl there ↦ rw there all
    | inr fresh ↦ rw fresh (p, all)
  ]
