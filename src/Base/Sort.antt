-- ===== src/Base/Sort.antt =====
-- A stable sort by a Boolean order, as `sort_by` and `sort_by_key` sort, and its result as the one
-- ascending arrangement of its input.
use Prim.Native.Nat.{suc}
use mathlib.Core.Path.{◌≡◌, refl, ◌∙◌}
use mathlib.Core.Logic.{◌⊎◌, inl, inr, ∥∥₁_elim}
use mathlib.Core.Bool.{Bool, true}
use mathlib.Core.List.{List, [], ◌∷◌, Perm, Permᴰ}
use mathlib.Core.List.Perm
use native.Mathlib.Omega.{arith}
use myriadmesh_server.Base.Tests.{if◌then◌else◌, Bool-cases}
use myriadmesh_server.Base.Lists.{All, length}

module _ {ℓ} {A : Type ℓ} (le : A → A → Bool) where
  unfoldable pub insert_sorted : A → List A → List A
  insert_sorted x [] = x ∷ []
  insert_sorted x (y ∷ ys) = if le x y then x ∷ y ∷ ys else y ∷ insert_sorted x ys

  unfoldable pub sort_by : List A → List A
  unfolding insert_sorted
  sort_by [] = []
  sort_by (x ∷ xs) = insert_sorted x (sort_by xs)

  abbrev pub IsSorted : List A → Type 0
  IsSorted [] = Unit
  IsSorted (x ∷ xs) = All (λ y. le x y ≡ true) xs × IsSorted xs

module _ {ℓ} {A : Type ℓ} (le : A → A → Bool) where
  insert_sorted-perm : (x : A) (ys : List A) → Perm (insert_sorted le x ys) (x ∷ ys)
  unfolding insert_sorted
  insert_sorted-perm x [] = Perm.refl (x ∷ [])
  insert_sorted-perm x (y ∷ ys) = ground (
    arith,
    Perm.refl (x ∷ y ∷ ys),
    Perm.trans (Perm.cons y (insert_sorted-perm x ys)) (Perm.swap x y ys),
  )

  -- Sorting loses nothing and adds nothing.
  pub sort_by-perm : (xs : List A) → Perm (sort_by le xs) xs
  unfolding sort_by
  sort_by-perm [] = Perm.refl []
  sort_by-perm (x ∷ xs) =
      Perm.trans (insert_sorted-perm x (sort_by le xs)) (Perm.cons x (sort_by-perm xs))

  All-insert_sorted {κ} :
      (P : A → Type κ) (x : A) (ys : List A) → P x → All P ys → All P (insert_sorted le x ys)
  unfolding insert_sorted
  All-insert_sorted P x [] p a = (p, tt)
  All-insert_sorted P x (y ∷ ys) p a = elim (Bool-cases (le x y)) [
    | inl h ↦ rw h (p, a)
    | inr h ↦ rw h (a.0, All-insert_sorted P x ys p a.1)
  ]

  pub All-sort_by {κ} : (P : A → Type κ) (xs : List A) → All P xs → All P (sort_by le xs)
  unfolding sort_by
  All-sort_by P [] a = tt
  All-sort_by P (x ∷ xs) a = All-insert_sorted P x (sort_by le xs) a.0 (All-sort_by P xs a.1)

  length-insert_sorted : (x : A) (ys : List A) → length (insert_sorted le x ys) ≡ suc (length ys)
  unfolding insert_sorted
  length-insert_sorted x [] = refl
  length-insert_sorted x (y ∷ ys) = ground (arith, length-insert_sorted x ys)

  pub length-sort_by : (xs : List A) → length (sort_by le xs) ≡ length xs
  unfolding sort_by
  length-sort_by [] = refl
  length-sort_by (x ∷ xs) = omega (arith, length-insert_sorted x (sort_by le xs), length-sort_by xs)

  module _ (total : (a b : A) → (le a b ≡ true) ⊎ (le b a ≡ true))
      (trans : (a b c : A) → le a b ≡ true → le b c ≡ true → le a c ≡ true) where
    All-le :
        (x y : A) (ys : List A)
        → le x y ≡ true
        → All (λ z. le y z ≡ true) ys
        → All (λ z. le x z ≡ true) ys
    All-le x y [] h a = tt
    All-le x y (z ∷ zs) h a = (trans x y z h a.0, All-le x y zs h a.1)

    insert_sorted-IsSorted :
        (x : A) (ys : List A) → IsSorted le ys → IsSorted le (insert_sorted le x ys)
    unfolding insert_sorted
    insert_sorted-IsSorted x [] s = (tt, tt)
    insert_sorted-IsSorted x (y ∷ ys) s = elim (Bool-cases (le x y)) [
      | inl h ↦ rw h ((h, All-le x y ys h s.0), s)
      | inr h ↦ rw h (
        All-insert_sorted (λ z. le y z ≡ true) x ys (ground (arith, total x y)) s.0,
        insert_sorted-IsSorted x ys s.1,
      )
    ]

    pub sort_by-IsSorted : (xs : List A) → IsSorted le (sort_by le xs)
    unfolding sort_by
    sort_by-IsSorted [] = tt
    sort_by-IsSorted (x ∷ xs) = insert_sorted-IsSorted x (sort_by le xs) (sort_by-IsSorted xs)

  -- In an order without ties the result does not depend on the order of the input.
  module _ (set : IsSet A) (total : (a b : A) → (le a b ≡ true) ⊎ (le b a ≡ true))
      (antisymm : (a b : A) → le a b ≡ true → le b a ≡ true → a ≡ b)
      (trans : (a b c : A) → le a b ≡ true → le b c ≡ true → le a c ≡ true) where
    insert_sorted_comm :
        (x y : A) (l : List A)
        → insert_sorted le x (insert_sorted le y l) ≡ insert_sorted le y (insert_sorted le x l)
    unfolding insert_sorted
    insert_sorted_comm x y [] = ground (arith, total x y, antisymm x y)
    insert_sorted_comm x y (z ∷ zs) = ground (
      arith,
      total x y,
      total x z,
      total y z,
      antisymm x y,
      trans x y z,
      trans y x z,
      trans x z y,
      trans y z x,
      insert_sorted_comm x y zs,
    )

    sort_by_permᴰ : {xs ys : List A} → Permᴰ xs ys → sort_by le xs ≡ sort_by le ys
    unfolding sort_by
    sort_by_permᴰ Permᴰ.nil = refl
    sort_by_permᴰ (Permᴰ.cons e p) = cc (sort_by_permᴰ p)
    sort_by_permᴰ (Permᴰ.swap {a = a} {b = b} {l = l} e f) =
        cc (insert_sorted_comm a b (sort_by le l))
    sort_by_permᴰ (Permᴰ.trans p q) = sort_by_permᴰ p ∙ sort_by_permᴰ q

    pub sort_by-eq_of_perm : (xs ys : List A) → Perm xs ys → sort_by le xs ≡ sort_by le ys
    sort_by-eq_of_perm xs ys p = ∥∥₁_elim p (hlevel set) sort_by_permᴰ

-- An order that is transitive through the elements of a kind sorts lists of that kind.
module _ {ℓ κ} {A : Type ℓ} (le : A → A → Bool) (N : A → Type κ)
    (total : (a b : A) → (le a b ≡ true) ⊎ (le b a ≡ true))
    (trans : (a b c : A) → N b → le a b ≡ true → le b c ≡ true → le a c ≡ true) where
  All-le_on :
      (x y : A) (ys : List A)
      → N y
      → le x y ≡ true
      → All (λ z. le y z ≡ true) ys
      → All (λ z. le x z ≡ true) ys
  All-le_on x y [] n h a = tt
  All-le_on x y (z ∷ zs) n h a = (trans x y z n h a.0, All-le_on x y zs n h a.1)

  insert_sorted-IsSorted_on :
      (x : A) (ys : List A) → All N ys → IsSorted le ys → IsSorted le (insert_sorted le x ys)
  unfolding insert_sorted
  insert_sorted-IsSorted_on x [] n s = (tt, tt)
  insert_sorted-IsSorted_on x (y ∷ ys) n s = elim (Bool-cases (le x y)) [
    | inl h ↦ rw h ((h, All-le_on x y ys n.0 h s.0), s)
    | inr h ↦ rw h (
      All-insert_sorted le (λ z. le y z ≡ true) x ys (ground (arith, total x y)) s.0,
      insert_sorted-IsSorted_on x ys n.1 s.1,
    )
  ]

  pub sort_by-IsSorted_on : (xs : List A) → All N xs → IsSorted le (sort_by le xs)
  unfolding sort_by
  sort_by-IsSorted_on [] n = tt
  sort_by-IsSorted_on (x ∷ xs) n =
      insert_sorted-IsSorted_on x (sort_by le xs) (All-sort_by le N xs n.1)
        (sort_by-IsSorted_on xs n.1)
