-- ===== src/Ledger/Merkle/Repetition.antt =====
-- crates/myriadmesh-ledger/src/merkle.rs: the root of an odd list, whose last hash is paired with
-- itself.
use myriadmesh_server.Base.{
  ℕ, zero, suc, ◌≡◌, ◌≤◌, ◌<◌, ◌*◌, refl, ap, ◌∙◌, List, [], ◌∷◌, ◌++◌, map, length, take, arith,
  length-map, length-append,
}
use mathlib.Core.List.{map-append}
use myriadmesh_server.Base.Bytes.{Bytes, bytes_eq}
use myriadmesh_server.Ledger.Merkle.{next_level, build, calculate_merkle_root, first}
use myriadmesh_server.Ledger.Merkle.Shape.{length-next_level}

module _ (hash : Bytes → Bytes) where
  next_level-repeat :
      (xs : List Bytes) (x : Bytes) (k : ℕ)
      → length xs ≡ 2 * k
      → next_level hash (xs ++ x ∷ x ∷ []) ≡ next_level hash (xs ++ x ∷ [])
  unfolding next_level
  next_level-repeat [] x k h = refl
  next_level-repeat (y ∷ []) x k h = absurd (omega arith)
  next_level-repeat (y ∷ z ∷ xs) x zero h = absurd (omega arith)
  next_level-repeat (y ∷ z ∷ xs) x (suc k) h =
      ap (◌∷◌ (hash (y ++ z))) (next_level-repeat xs x k (omega arith))

  -- Fuel beyond the number of hashes changes nothing.
  build_fuel :
      (fuel : ℕ) (xs : List Bytes)
      → length xs ≤ fuel
      → build hash (suc fuel) xs ≡ build hash fuel xs
  unfolding build
  build_fuel zero [] h = refl
  build_fuel zero (x ∷ xs) h = absurd (omega arith)
  build_fuel (suc fuel) xs h =
      ground (arith, length-next_level hash xs, build_fuel fuel (next_level hash xs))

  build-turn :
      (fuel : ℕ) (xs : List Bytes)
      → 1 < length xs
      → build hash (suc fuel) xs ≡ build hash fuel (next_level hash xs)
  unfolding build
  build-turn fuel xs h = ground arith

  build-repeat :
      (xs : List Bytes) (x : Bytes) (k : ℕ)
      → length xs ≡ 2 * suc k
      → build hash (length (xs ++ x ∷ x ∷ [])) (xs ++ x ∷ x ∷ [])
        ≡ build hash (length (xs ++ x ∷ [])) (xs ++ x ∷ [])
  build-repeat xs x k h =
      let twice = xs ++ x ∷ x ∷ [] in
      let once = xs ++ x ∷ [] in
      let n = length xs in
      let sizes : (length twice ≡ suc (suc n)) × (length once ≡ suc n) = (
        omega (arith, length-append {0} xs (x ∷ x ∷ [])),
        omega (arith, length-append {0} xs (x ∷ [])),
      ) in
      let level = next_level-repeat xs x (suc k) h in
      let half = length-next_level hash once in
      cc (
        sizes.0,
        sizes.1,
        level,
        build-turn (suc n) twice (omega arith),
        build-turn n once (omega arith),
        build_fuel n (next_level hash once) (omega arith),
      )

  root-eq-build :
      (es : List Bytes)
      → 0 < length es
      → calculate_merkle_root hash es
        ≡ take 32 (first (build hash (length (map hash es)) (map hash es)))
  unfolding calculate_merkle_root
  root-eq-build [] h = absurd (omega arith)
  root-eq-build (e ∷ es) h = rw (length-map hash (e ∷ es))

  -- An odd list of at least three entries has the root of the same list with its last entry again.
  pub merkle_root_repeat :
      (es : List Bytes) (e : Bytes) (k : ℕ)
      → length es ≡ 2 * suc k
      → calculate_merkle_root hash (es ++ e ∷ e ∷ []) ≡ calculate_merkle_root hash (es ++ e ∷ [])
  merkle_root_repeat es e k h =
      rw
        (
          root-eq-build (es ++ e ∷ e ∷ []) (omega (arith, length-append {0} es (e ∷ e ∷ []))),
          root-eq-build (es ++ e ∷ []) (omega (arith, length-append {0} es (e ∷ []))),
          map-append,
          map-append,
        )
        (ap (λ l. take 32 (first l))
          (build-repeat (map hash es) (hash e) k (length-map hash es ∙ h)))
