-- ===== src/Ledger/Merkle/Binding.antt =====
-- crates/myriadmesh-ledger/src/merkle.rs: what a Merkle root commits to.
use myriadmesh_server.Base.{
  ℕ, zero, suc, ◌≡◌, ◌≢◌, ◌≤◌, ◌<◌, refl, sym, ap, List, [], ◌∷◌, ◌++◌, map, length, take, All,
  arith, length-map, ◌⊎◌, inl, inr, Bool-cases, ◌==◌,
}
use mathlib.Core.Path.{subst}
use myriadmesh_server.Base.Bytes.{Bytes, bytes_eq, bytes_beq_iff}
use myriadmesh_server.Ledger.Codec.{HashLength}
use myriadmesh_server.Ledger.Merkle.{next_level, build, calculate_merkle_root, first}
use myriadmesh_server.Ledger.Merkle.Shape.{length-next_level, All-map_hash}

-- Two inputs whose digests agree on the 32 bytes that a root keeps.
abbrev pub Collision : (Bytes → Bytes) → Type 0
Collision hash = (x : Bytes) × (y : Bytes) × (x ≢ y) × (take 32 (hash x) ≡ take 32 (hash y))

pub and_then {ℓ κ ι} : {P : Type ℓ} {Q : Type κ} {C : Type ι} → P ⊎ C → (P → Q ⊎ C) → Q ⊎ C
and_then (inl p) f = f p
and_then (inr c) f = inr c

pub append-inj :
    (xs ys us vs : Bytes) → length xs ≡ length us → xs ++ ys ≡ us ++ vs → (xs ≡ us) × (ys ≡ vs)
append-inj [] ys [] vs h e = (refl, e)
append-inj [] ys (u ∷ us) vs h e = absurd (omega arith)
append-inj (x ∷ xs) ys [] vs h e = absurd (omega arith)
append-inj (x ∷ xs) ys (u ∷ us) vs h e =
    let rest = append-inj xs ys us vs (omega arith) (cc) in (cc (rest.0), rest.1)

pub digest_inj :
    (hash : Bytes → Bytes) (x y : Bytes)
    → take 32 (hash x) ≡ take 32 (hash y)
    → (x ≡ y) ⊎ Collision hash
digest_inj hash x y e = elim (Bool-cases (x == y)) [
  | inl same ↦ inl ((bytes_beq_iff x y).0 same)
  | inr differ ↦ inr (x, y, (λ p. cc (differ, (bytes_beq_iff x y).1 p)), e)
]

module _ (hash : Bytes → Bytes) (digest : HashLength hash) where
  -- the inputs of the digests of the next level
  pair_up : List Bytes → List Bytes
  pair_up [] = []
  pair_up (x ∷ []) = (x ++ x) ∷ []
  pair_up (x ∷ y ∷ rest) = (x ++ y) ∷ pair_up rest

  next_level-eq-map : (xs : List Bytes) → next_level hash xs ≡ map hash (pair_up xs)
  unfolding next_level pair_up
  next_level-eq-map [] = refl
  next_level-eq-map (x ∷ []) = refl
  next_level-eq-map (x ∷ y ∷ rest) = ap (◌∷◌ (hash (x ++ y))) (next_level-eq-map rest)

  pair_up-inj :
      (xs ys : List Bytes)
      → length xs ≡ length ys
      → All (λ x. length x ≡ 64) xs
      → All (λ x. length x ≡ 64) ys
      → pair_up xs ≡ pair_up ys
      → xs ≡ ys
  unfolding pair_up
  pair_up-inj [] [] n a b e = refl
  pair_up-inj [] (y ∷ ys) n a b e = absurd (omega arith)
  pair_up-inj (x ∷ xs) [] n a b e = absurd (omega arith)
  pair_up-inj (x ∷ []) (y ∷ []) n a b e = cc ((append-inj x x y y (omega arith) (cc)).0)
  pair_up-inj (x ∷ []) (y ∷ z ∷ ys) n a b e = absurd (omega arith)
  pair_up-inj (x ∷ z ∷ xs) (y ∷ []) n a b e = absurd (omega arith)
  pair_up-inj (x ∷ u ∷ xs) (y ∷ v ∷ ys) n a b e =
      let heads = append-inj x u y v (omega arith) (cc) in
      let rest = pair_up-inj xs ys (omega arith) a.1.1 b.1.1 (cc) in cc (heads.0, heads.1, rest)

  map-inj :
      (xs ys : List Bytes)
      → length xs ≡ length ys
      → map hash xs ≡ map hash ys
      → (xs ≡ ys) ⊎ Collision hash
  map-inj [] [] n e = inl refl
  map-inj [] (y ∷ ys) n e = absurd (omega arith)
  map-inj (x ∷ xs) [] n e = absurd (omega arith)
  map-inj (x ∷ xs) (y ∷ ys) n e =
      and_then (digest_inj hash x y (cc))
        λ head. and_then (map-inj xs ys (omega arith) (cc)) λ tail. inl (cc (head, tail))

  length-pair_up : (xs : List Bytes) → length (pair_up xs) ≡ length (next_level hash xs)
  length-pair_up xs = rw next_level-eq-map (sym (length-map hash (pair_up xs)))

  -- One turn of the loop reads the digests of the pairs as the digests of a list again.
  build-step :
      (fuel : ℕ) (es : List Bytes)
      → 1 < length es
      → build hash (suc fuel) (map hash es) ≡ build hash fuel (map hash (pair_up (map hash es)))
  unfolding build
  build-step fuel es h =
      rw (← next_level-eq-map (map hash es)) (ground (arith, length-map {0, 0} hash es))

  build-inj :
      (fuel : ℕ) (es fs : List Bytes)
      → length es ≡ length fs
      → 0 < length es
      → length es ≤ fuel
      → take 32 (first (build hash fuel (map hash es)))
        ≡ take 32 (first (build hash fuel (map hash fs)))
      → (es ≡ fs) ⊎ Collision hash
  build-inj fuel [] fs n some_left enough e = absurd (omega arith)
  build-inj fuel (x ∷ es) [] n some_left enough e = absurd (omega arith)
  build-inj zero (x ∷ es) (y ∷ fs) n some_left enough e = absurd (omega arith)
  build-inj (suc fuel) (x ∷ []) (y ∷ []) n some_left enough e =
      and_then (digest_inj hash x y (unfold build in e)) λ same. inl (cc same)
  build-inj (suc fuel) (x ∷ []) (y ∷ z ∷ fs) n some_left enough e = absurd (omega arith)
  build-inj (suc fuel) (x ∷ u ∷ es) (y ∷ []) n some_left enough e = absurd (omega arith)
  build-inj (suc fuel) (x ∷ u ∷ es) (y ∷ v ∷ fs) n some_left enough e =
      let xs = map hash (x ∷ u ∷ es) in
      let ys = map hash (y ∷ v ∷ fs) in
      and_then
        (build-inj fuel (pair_up xs) (pair_up ys)
          (omega (
            arith,
            length-next_level hash xs,
            length-pair_up xs,
            length-map {0, 0} hash es,
            length-next_level hash ys,
            length-pair_up ys,
            length-map {0, 0} hash fs,
          ))
          (omega (arith, length-next_level hash xs, length-pair_up xs, length-map {0, 0} hash es))
          (omega (arith, length-next_level hash xs, length-pair_up xs, length-map {0, 0} hash es))
          (cc (
            build-step fuel (x ∷ u ∷ es) (omega arith),
            build-step fuel (y ∷ v ∷ fs) (omega arith),
            e,
          )))
        λ pairs. map-inj (x ∷ u ∷ es) (y ∷ v ∷ fs) n (
          pair_up-inj xs ys
            (omega (
              arith,
              length-next_level hash xs,
              length-pair_up xs,
              length-map {0, 0} hash es,
              length-next_level hash ys,
              length-pair_up ys,
              length-map {0, 0} hash fs,
            ))
            (All-map_hash hash digest (x ∷ u ∷ es)) (All-map_hash hash digest (y ∷ v ∷ fs)) pairs)

  -- Two lists of entries of one length that have one Merkle root are the same list, or else
  -- the hash, whose digests have 64 bytes, has a collision on the 32 bytes that are kept.
  pub merkle_root_binding :
      (es fs : List Bytes)
      → length es ≡ length fs
      → calculate_merkle_root hash es ≡ calculate_merkle_root hash fs
      → (es ≡ fs) ⊎ Collision hash
  unfolding calculate_merkle_root
  merkle_root_binding [] [] n e = inl refl
  merkle_root_binding [] (f ∷ fs) n e = absurd (omega arith)
  merkle_root_binding (x ∷ es) [] n e = absurd (omega arith)
  merkle_root_binding (x ∷ es) (y ∷ fs) n e =
      build-inj (length (x ∷ es)) (x ∷ es) (y ∷ fs) n (omega arith) (omega arith) (
        subst
          (λ k.
            take 32 (first (build hash (length (x ∷ es)) (map hash (x ∷ es))))
            ≡ take 32 (first (build hash k (map hash (y ∷ fs)))))
          (sym n) e)
