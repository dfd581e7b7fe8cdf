-- ===== src/Ledger/Merkle/Shape.antt =====
-- crates/myriadmesh-ledger/src/merkle.rs: how many hashes a level has, and how long they are.
use myriadmesh_server.Base.{
  ℕ, zero, suc, ◌≡◌, ◌≤◌, ◌<◌, ◌+◌, ◌*◌, List, [], ◌∷◌, map, length, All, arith, length-map,
  length-take, inl, inr, Bool-cases, leb,
}
use myriadmesh_server.Base.Bytes.{Bytes}
use myriadmesh_server.Ledger.Codec.{HashLength}
use myriadmesh_server.Ledger.Merkle.{next_level, build, calculate_merkle_root, first}

module _ (hash : Bytes → Bytes) where
  -- A level has half the hashes, rounded up.
  pub length-next_level :
      (xs : List Bytes)
      → (length xs ≤ 2 * length (next_level hash xs))
        × (2 * length (next_level hash xs) ≤ length xs + 1)
  unfolding next_level
  length-next_level [] = omega arith
  length-next_level (x ∷ []) = omega arith
  length-next_level (x ∷ y ∷ rest) = omega (arith, length-next_level rest)

  -- With as much fuel as there are hashes, one is left.
  pub length-build :
      (fuel : ℕ) (xs : List Bytes)
      → length xs ≤ fuel
      → 0 < length xs
      → length (build hash fuel xs) ≡ 1
  unfolding build
  length-build zero xs enough some_left = absurd (omega arith)
  length-build (suc fuel) xs enough some_left =
      ground (arith, length-next_level xs, length-build fuel (next_level hash xs))

  -- Every element of a level is a digest.
  pub All-next_level :
      HashLength hash → (xs : List Bytes) → All (λ x. length x ≡ 64) (next_level hash xs)
  unfolding next_level
  All-next_level h [] = tt
  All-next_level h (x ∷ []) = (h _, tt)
  All-next_level h (x ∷ y ∷ rest) = (h _, All-next_level h rest)

  pub All-map_hash : HashLength hash → (xs : List Bytes) → All (λ x. length x ≡ 64) (map hash xs)
  All-map_hash h [] = tt
  All-map_hash h (x ∷ xs) = (h x, All-map_hash h xs)

  pub All-build :
      HashLength hash
      → (fuel : ℕ) (xs : List Bytes) → All (λ x. length x ≡ 64) xs
      → All (λ x. length x ≡ 64) (build hash fuel xs)
  unfolding build
  All-build h zero xs a = a
  All-build h (suc fuel) xs a = elim (Bool-cases (leb (length xs) 1)) [
    | inl done ↦ rw done a
    | inr more ↦ rw more (All-build h fuel (next_level hash xs) (All-next_level h xs))
  ]

  length-first :
      (xs : List Bytes) → length xs ≡ 1 → All (λ x. length x ≡ 64) xs → length (first xs) ≡ 64
  length-first [] e a = absurd (omega arith)
  length-first (x ∷ xs) e a = a.0

  -- The root of any list of entries has 32 bytes: the loop leaves a digest at `hashes[0]`.
  pub length-calculate_merkle_root :
      HashLength hash → (entries : List Bytes) → length (calculate_merkle_root hash entries) ≡ 32
  unfolding calculate_merkle_root
  length-calculate_merkle_root h [] = omega (arith, length-take 32 (hash []), h [])
  length-calculate_merkle_root h (e ∷ es) =
      let built = build hash (length (e ∷ es)) (map hash (e ∷ es)) in
      omega (
        arith,
        length-take 32 (first built),
        length-first built
            (length-build (length (e ∷ es)) (map hash (e ∷ es))
              (omega (arith, length-map {0, 0} hash es)) (omega arith))
            (All-build h (length (e ∷ es)) (map hash (e ∷ es)) (All-map_hash h (e ∷ es))),
      )
