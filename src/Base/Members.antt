-- ===== src/Base/Members.antt =====
-- Membership in lists whose elements have a Boolean equality, and filters of permuted lists.
use mathlib.Core.Path.{◌≡◌, sym, ap, ◌∙◌, subst, subst₂}
use mathlib.Core.Logic.{◌≢◌, inl, inr, ∥∥₁_elim}
use mathlib.Core.Logic.Or
use mathlib.Core.Bool.{Bool, true}
use mathlib.Core.Option.{some}
use mathlib.Core.List.{
  List, [], ◌∷◌, Mem, Mem-prop, mem-cons, mem-cons_self, mem-cons_of_mem, not-mem-nil, Perm, Permᴰ,
  Perm-prop,
}
use mathlib.Core.List.Perm
use Prim.Native.Nat.{ℕ, suc, ◌<◌}
use native.Mathlib.Omega.{arith}
use myriadmesh_server.Base.Tests.{Bool-cases}
use myriadmesh_server.Base.Lists.{length, get_elem?, select, any_of, All}
use myriadmesh_server.Base.Equality.{Eq, ◌==◌}

module _ {ℓ} {A : Type ℓ} ⦃e : Eq A⦄ where
  pub any_of→Mem : (x : A) (xs : List A) → any_of (λ y. y == x) xs ≡ true → Mem x xs
  unfolding any_of
  any_of→Mem x [] h = cc
  any_of→Mem x (y ∷ xs) h = elim (Bool-cases (y == x)) [
    | inl same ↦ subst (λ z. Mem z (y ∷ xs)) ((e.same_iff y x).0 same) mem-cons_self
    | inr differ ↦ mem-cons_of_mem y (any_of→Mem x xs (ground arith))
  ]

  mem_tail : (x y : A) (xs : List A) → y ≢ x → Mem x (y ∷ xs) → Mem x xs
  mem_tail x y xs differ m =
      Or.elim Mem-prop (mem-cons.0 m) (λ same. absurd (differ (sym same))) (λ rest. rest)

  -- A member stands at an index.
  pub Mem-index :
      (x : A) (xs : List A) → Mem x xs → (i : ℕ) × (i < length xs) × (get_elem? xs i ≡ some x)
  Mem-index x [] m = absurd (not-mem-nil m)
  Mem-index x (y ∷ xs) m = elim (Bool-cases (y == x)) [
    | inl same ↦ (0, omega arith, ap some ((e.same_iff y x).0 same))
    | inr differ ↦
        let (i, inside, at) =
          Mem-index x xs (mem_tail x y xs (λ p. cc (differ, (e.same_iff y x).1 p)) m) in
        (suc i, omega arith, at)
  ]

module _ {ℓ} {A : Type ℓ} where
  pub All-mono {κ ι} :
      {P : A → Type κ} {Q : A → Type ι}
      → ((a : A) → P a → Q a)
      → (xs : List A) → All P xs
      → All Q xs
  All-mono h [] a = tt
  All-mono h (x ∷ xs) a = (h x a.0, All-mono h xs a.1)

  select-swap :
      (p : A → Bool) (a b : A) (l : List A) → Perm (select p (a ∷ b ∷ l)) (select p (b ∷ a ∷ l))
  unfolding select
  select-swap p a b l = elim (Bool-cases (p a)) [
    | inl ha ↦ elim (Bool-cases (p b)) [
      | inl hb ↦ rw (ha, hb) (Perm.swap b a (select p l))
      | inr hb ↦ rw (ha, hb) (Perm.refl (a ∷ select p l))
    ]
    | inr ha ↦ elim (Bool-cases (p b)) [
      | inl hb ↦ rw (ha, hb) (Perm.refl (b ∷ select p l))
      | inr hb ↦ rw (ha, hb) (Perm.refl (select p l))
    ]
  ]

  select-permᴰ : (p : A → Bool) {xs ys : List A} → Permᴰ xs ys → Perm (select p xs) (select p ys)
  unfolding select
  select-permᴰ p Permᴰ.nil = Perm.refl []
  select-permᴰ p (Permᴰ.cons {a = a} {b = b} e q) = elim (Bool-cases (p a)) [
    | inl h ↦ rw (h, ap p (sym e) ∙ h) (Perm.cons' e (select-permᴰ p q))
    | inr h ↦ rw (h, ap p (sym e) ∙ h) (select-permᴰ p q)
  ]
  select-permᴰ p (Permᴰ.swap {a = a} {b = b} {l = l} e f) =
      subst₂ (λ x y. Perm (select p (a ∷ b ∷ l)) (select p (x ∷ y ∷ l))) f e (select-swap p a b l)
  select-permᴰ p (Permᴰ.trans q r) = Perm.trans (select-permᴰ p q) (select-permᴰ p r)

  pub select-perm : (p : A → Bool) (xs ys : List A) → Perm xs ys → Perm (select p xs) (select p ys)
  select-perm p xs ys q = ∥∥₁_elim q Perm-prop (select-permᴰ p)
