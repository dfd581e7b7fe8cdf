-- ===== src/Base/Counts.antt =====
-- How many entries of a table have a property, before and after its operations.
use Prim.Native.Nat.{ℕ, ◌+◌, ◌≤◌}
use mathlib.Core.Path.{◌≡◌, refl}
use mathlib.Core.Bool.{Bool}
use mathlib.Core.Option.{Option, none, some}
use mathlib.Core.Option
use mathlib.Core.List.{[], ◌∷◌}
use native.Mathlib.Omega.{arith}
use myriadmesh_server.Base.Tests.{if◌then◌else◌}
use myriadmesh_server.Base.Lists.{length, select}
use myriadmesh_server.Base.Equality.{Eq, ◌==◌}
use myriadmesh_server.Base.Map.{Map, values, retain, get, insert, remove, Distinct}

module _ {ℓ κ} {K : Type ℓ} {V : Type κ} where
  -- `values().filter(p).count()`
  abbrev pub count_values : (V → Bool) → Map K V → ℕ
  count_values p m = length (select p (values m))

  pub count_values-retain-le :
      (p : V → Bool) (q : K → V → Bool) (m : Map K V)
      → count_values p (retain q m) ≤ count_values p m
  unfolding select
  count_values-retain-le p q [] = omega arith
  count_values-retain-le p q ((k, v) ∷ m) = ground (arith, count_values-retain-le p q m)

  pub values-retain :
      (q : V → Bool) (m : Map K V) → values (retain (λ _ v. q v) m) ≡ select q (values m)
  unfolding select
  values-retain q [] = refl
  values-retain q ((k, v) ∷ m) = ground (arith, values-retain q m)

module _ {ℓ κ} {K : Type ℓ} {V : Type κ} ⦃e : Eq K⦄ where
  -- `if let Some(v) = get_mut(k)` with an assignment to `v`
  unfoldable pub update : Map K V → K → (V → V) → Map K V
  update [] k f = []
  update ((j, v) ∷ m) k f = if j == k then (j, f v) ∷ m else (j, v) ∷ update m k f

  pub get-update :
      (m : Map K V) (k j : K) (f : V → V)
      → get (update m k f) j ≡ (if k == j then Option.map f (get m j) else get m j)
  unfolding get update
  get-update [] k j f = ground arith
  get-update ((i, w) ∷ m) k j f =
      ground (arith, get-update m k j f, e.same_iff i k, e.same_iff i j, e.same_iff k j)

  pub Distinct-update : (m : Map K V) (k : K) (f : V → V) → Distinct m → Distinct (update m k f)
  unfolding update get
  Distinct-update [] k f d = tt
  Distinct-update ((i, w) ∷ m) k f d =
      ground (arith, Distinct-update m k f d.1, get-update m k i f, e.same_iff i k, e.same_iff k i)

  pub length-update : (m : Map K V) (k : K) (f : V → V) → length (update m k f) ≡ length m
  unfolding update
  length-update [] k f = refl
  length-update ((i, w) ∷ m) k f = ground (arith, length-update m k f)

  pub count_values-update :
      (p : V → Bool) (m : Map K V) (k : K) (f : V → V)
      → ((v : V) → p (f v) ≡ p v)
      → count_values p (update m k f) ≡ count_values p m
  unfolding update select
  count_values-update p [] k f same = refl
  count_values-update p ((i, w) ∷ m) k f same =
      ground (arith, count_values-update p m k f same, same w)

  pub count_values-remove-le :
      (p : V → Bool) (m : Map K V) (k : K) → count_values p (remove m k) ≤ count_values p m
  unfolding remove select
  count_values-remove-le p [] k = omega arith
  count_values-remove-le p ((i, w) ∷ m) k = ground (arith, count_values-remove-le p m k)

  pub count_values-insert-le :
      (p : V → Bool) (m : Map K V) (k : K) (v : V)
      → count_values p (insert m k v) ≤ count_values p m + (if p v then 1 else 0)
  unfolding insert select
  count_values-insert-le p [] k v = ground arith
  count_values-insert-le p ((i, w) ∷ m) k v = ground (arith, count_values-insert-le p m k v)
