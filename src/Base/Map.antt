-- ===== src/Base/Map.antt =====
-- Rust's `HashMap` as an association list. The order of the entries stands for the order in which
-- the table is iterated, which is not specified.
use Prim.Native.Nat.{ℕ, zero, suc, ◌+◌, ◌≤◌, ◌<◌}
use mathlib.Core.Path.{◌≡◌, refl, sym, ap, subst, subst₂}
use mathlib.Core.Logic.{inl, inr}
use mathlib.Core.Bool.{Bool, true, false, ◌&&◌, ◌||◌}
use mathlib.Core.Option.{Option, none, some, some-injective}
use mathlib.Core.List.{List, [], ◌∷◌, map, Mem, mem-cons_self, mem-cons_of_mem}
use native.Mathlib.Omega.{arith}
use myriadmesh_server.Base.Tests.{if◌then◌else◌, Bool-cases}
use myriadmesh_server.Base.Lists.{length, select, any_of, All, is_some, keep_if}
use myriadmesh_server.Base.Equality.{Eq, ◌==◌, same_refl, nat_eq}
use myriadmesh_server.Base.Members.{All-mono}

abbrev pub Map {ℓ κ} : Type ℓ → Type κ → Type (ℓ ⊔ κ)
Map K V = List (K × V)

module _ {ℓ κ} {K : Type ℓ} {V : Type κ} where
  -- `values()`
  abbrev pub values : Map K V → List V
  values = map λ e. e.1

  -- `keys()`
  abbrev pub keys : Map K V → List K
  keys = map λ e. e.0

  -- `retain(|k, v| …)`
  abbrev pub retain : (K → V → Bool) → Map K V → Map K V
  retain p = select λ e. p e.0 e.1

module _ {ℓ κ} {K : Type ℓ} {V : Type κ} ⦃e : Eq K⦄ where
  unfoldable pub get : Map K V → K → Option V
  get [] k = none
  get ((j, v) ∷ m) k = if j == k then some v else get m k

  -- `contains_key`
  abbrev pub contains_key : Map K V → K → Bool
  contains_key m k = is_some (get m k)

  unfoldable pub insert : Map K V → K → V → Map K V
  insert [] k v = (k, v) ∷ []
  insert ((j, w) ∷ m) k v = if j == k then (k, v) ∷ m else (j, w) ∷ insert m k v

  unfoldable pub remove : Map K V → K → Map K V
  remove [] k = []
  remove ((j, w) ∷ m) k = let rest = remove m k in if j == k then rest else (j, w) ∷ rest

  -- Each key stands once, as in a hash table.
  abbrev pub Distinct : Map K V → Type κ
  Distinct [] = Unit
  Distinct ((k, v) ∷ m) = (get m k ≡ none) × Distinct m

module _ {ℓ κ} {K : Type ℓ} {V : Type κ} ⦃e : Eq K⦄ where
  pub get-insert :
      (m : Map K V) (k j : K) (v : V) → get (insert m k v) j ≡ (if k == j then some v else get m j)
  unfolding get insert
  get-insert [] k j v = refl
  get-insert ((i, w) ∷ m) k j v =
      ground (arith, get-insert m k j v, e.same_iff i k, e.same_iff i j, e.same_iff k j)

  pub get-insert_self : (m : Map K V) (k : K) (v : V) → get (insert m k v) k ≡ some v
  get-insert_self m k v = rw (get-insert m k k v, same_refl k) refl

  pub contains_key-insert :
      (m : Map K V) (k j : K) (v : V) → contains_key (insert m k v) j ≡ (k == j || contains_key m j)
  contains_key-insert m k j v = ground (arith, get-insert m k j v)

  pub get-remove : (m : Map K V) (k j : K) → get (remove m k) j ≡ (if k == j then none else get m j)
  unfolding get remove
  get-remove [] k j = ground arith
  get-remove ((i, w) ∷ m) k j =
      ground (arith, get-remove m k j, e.same_iff i k, e.same_iff i j, e.same_iff k j)

  get-select-none :
      (p : K × V → Bool) (m : Map K V) (k : K) → get m k ≡ none → get (select p m) k ≡ none
  unfolding get select
  get-select-none p [] k h = refl
  get-select-none p ((i, w) ∷ m) k h = ground (arith, get-select-none p m k)

  pub get-retain :
      (p : K → V → Bool) (m : Map K V) (k : K)
      → Distinct m
      → get (retain p m) k ≡ keep_if (p k) (get m k)
  unfolding get select
  get-retain p [] k d = refl
  get-retain p ((i, w) ∷ m) k d =
      ground
        (arith, get-retain p m k d.1, get-select-none (λ x. p x.0 x.1) m k, e.same_iff i k, d.0)

  pub Distinct-insert : (m : Map K V) (k : K) (v : V) → Distinct m → Distinct (insert m k v)
  unfolding insert get
  Distinct-insert [] k v d = (refl, tt)
  Distinct-insert ((i, w) ∷ m) k v d =
      ground (arith, Distinct-insert m k v d.1, get-insert m k i v, e.same_iff i k, e.same_iff k i)

  pub Distinct-remove : (m : Map K V) (k : K) → Distinct m → Distinct (remove m k)
  unfolding remove
  Distinct-remove [] k d = tt
  Distinct-remove ((i, w) ∷ m) k d = ground (arith, Distinct-remove m k d.1, get-remove m k i)

  pub Distinct-retain : (p : K → V → Bool) (m : Map K V) → Distinct m → Distinct (retain p m)
  unfolding select
  Distinct-retain p [] d = tt
  Distinct-retain p ((i, w) ∷ m) d =
      ground (arith, Distinct-retain p m d.1, get-select-none (λ x. p x.0 x.1) m i d.0)

  pub length-insert :
      (m : Map K V) (k : K) (v : V)
      → length (insert m k v) ≡ (if contains_key m k then length m else suc (length m))
  unfolding insert get
  length-insert [] k v = refl
  length-insert ((i, w) ∷ m) k v = ground (arith, length-insert m k v)

  pub length-remove-le : (m : Map K V) (k : K) → length (remove m k) ≤ length m
  unfolding remove
  length-remove-le [] k = omega arith
  length-remove-le ((i, w) ∷ m) k = ground (arith, length-remove-le m k)

  -- What holds of every entry holds of what a look-up finds.
  pub get-All {ι} :
      (P : K × V → Type ι) (m : Map K V) (k : K) (v : V) → All P m → get m k ≡ some v → P (k, v)
  unfolding get
  get-All P [] k v a h = cc
  get-All P ((i, w) ∷ m) k v a h = elim (Bool-cases (i == k)) [
    | inl hit ↦
        subst₂ (λ a b. P (a, b)) ((e.same_iff i k).0 hit) (some-injective _ _ (ground arith)) a.0
    | inr miss ↦ get-All P m k v a.1 (ground arith)
  ]

  pub remove_absent : (m : Map K V) (k : K) → get m k ≡ none → remove m k ≡ m
  unfolding get remove
  remove_absent [] k h = refl
  remove_absent ((i, w) ∷ m) k h = ground (arith, remove_absent m k)

module _ {ℓ κ} {K : Type ℓ} {V : Type κ} ⦃e : Eq K⦄ where
  abbrev pub Kept : (K → V → Bool) → Map K V → K → Type κ
  Kept p m k = (v : V) × (get m k ≡ some v) × (p k v ≡ true)

  Kept-cons :
      (p : K → V → Bool) (m : Map K V) (i : K) (w : V)
      → get m i ≡ none
      → (k : K) → Kept p m k
      → Kept p ((i, w) ∷ m) k
  unfolding get
  Kept-cons p m i w absent k (v, found, keeps) =
      (v, ground (arith, e.same_iff i k, absent, found), keeps)

  -- Every key that `retain` keeps is one whose value passes the test.
  pub All-Kept : (p : K → V → Bool) (m : Map K V) → Distinct m → All (Kept p m) (keys (retain p m))
  unfolding select
  All-Kept p [] d = tt
  All-Kept p ((i, w) ∷ m) d =
      let rest = All-mono (Kept-cons p m i w d.0) (keys (retain p m)) (All-Kept p m d.1) in
      elim (Bool-cases (p i w)) [
        | inl keep ↦ rw keep ((w, unfold get in rw (same_refl i), keep), rest)
        | inr drop ↦ rw drop rest
      ]

  -- And every such key is kept.
  pub Mem-retain :
      (p : K → V → Bool) (m : Map K V) (k : K) (v : V)
      → get m k ≡ some v
      → p k v ≡ true
      → Mem k (keys (retain p m))
  unfolding select get
  Mem-retain p [] k v found keeps = cc
  Mem-retain p ((i, w) ∷ m) k v found keeps = elim (Bool-cases (i == k)) [
    | inl hit ↦
        let same = (e.same_iff i k).0 hit in
        let value : w ≡ v = some-injective _ _ (ground arith) in
        rw (subst₂ (λ j u. p j u ≡ true) (sym same) (sym value) keeps)
          (subst (λ z. Mem z (i ∷ keys (retain p m))) same mem-cons_self)
    | inr miss ↦ elim (Bool-cases (p i w)) [
      | inl keep ↦ rw keep (mem-cons_of_mem i (Mem-retain p m k v (ground arith) keeps))
      | inr drop ↦ rw drop (Mem-retain p m k v (ground arith) keeps)
    ]
  ]

module _ {ℓ κ} {K : Type ℓ} {V : Type κ} ⦃e : Eq K⦄ where
  pub length-remove : (m : Map K V) (k : K) → Distinct m → length m ≤ suc (length (remove m k))
  unfolding remove
  length-remove [] k d = omega arith
  length-remove ((i, w) ∷ m) k d = elim (Bool-cases (i == k)) [
    | inl hit ↦
        rw (hit, remove_absent m k (subst (λ j. get m j ≡ none) ((e.same_iff i k).0 hit) d.0))
          (omega arith)
    | inr miss ↦ rw miss (omega (arith, length-remove m k d.1))
  ]

  -- The keys that pass a test, and whether one of them is `k`.
  pub any_of-keys :
      (p : K → Bool) (m : Map K V) (k : K)
      → any_of (λ j. j == k) (select p (keys m)) ≡ (p k && contains_key m k)
  unfolding any_of select get
  any_of-keys p [] k = ground arith
  any_of-keys p ((i, w) ∷ m) k =
      ground (arith, any_of-keys p m k, e.same_iff i k, ap p {x = i} {y = k})

module _ {κ} {V : Type κ} where
  -- A table whose keys lie in a range of `k` numbers has at most `k` entries.
  pub length-le-range :
      (k lo : ℕ) (m : Map ℕ V)
      → Distinct m
      → ((h : ℕ) (v : V) → get m h ≡ some v → (lo ≤ h) × (h < lo + k))
      → length m ≤ k
  length-le-range zero lo [] d inside = omega arith
  length-le-range zero lo ((i, w) ∷ m) d inside =
      absurd (omega (arith, inside i w (unfold get in rw (same_refl i))))
  length-le-range (suc k) lo m d inside =
      let rest =
        length-le-range k lo (remove m (lo + k)) (Distinct-remove m (lo + k) d) λ h v found.
          let found' : ((lo + k == h) ≡ false) × (get m h ≡ some v) =
            (ground (arith, get-remove m (lo + k) h), ground (arith, get-remove m (lo + k) h)) in
          let w = inside h v found'.1 in (w.0, ground (arith, w.1, found'.0)) in
      omega (arith, rest, length-remove m (lo + k) d)
