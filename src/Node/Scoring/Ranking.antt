-- ===== src/Node/Scoring/Ranking.antt =====
-- myriadnode-full/src/scoring.rs: the order of a ranking.
use mathlib.Core.List.{Perm}
use myriadmesh_server.Base.{
  ◌≡◌, ◌⊎◌, inl, inr, refl, true, false, map, All, String, Bool-cases, arith,
}
use myriadmesh_server.Base.Double.{Double, F64, IsStrict}
use myriadmesh_server.Base.Map.{Map}
use myriadmesh_server.Base.Every.{All-map}
use myriadmesh_server.Base.Sort.{IsSorted, sort_by-perm, sort_by-IsSorted_on}
use myriadmesh_server.Node.Scoring.{
  AdapterMetrics, AdapterScore, AdapterScorer, calculate_score, ranks_before, rank_adapters,
}

-- What is not below a number, of what is not below, is not below.
abbrev pub IsWeak : Double → Type 0
IsWeak d =
    (x y z : F64) → d.is_nan y ≡ false → d.lt x y ≡ false → d.lt y z ≡ false → d.lt x z ≡ false

module _ (d : Double) (strict : IsStrict d) where
  ranks_before_total :
      (a b : AdapterScore) → (ranks_before d a b ≡ true) ⊎ (ranks_before d b a ≡ true)
  ranks_before_total a b = elim (Bool-cases (d.lt a.total_score b.total_score)) [
    | inr level ↦ inl (rw level refl)
    | inl below ↦ elim (Bool-cases (d.lt b.total_score a.total_score)) [
      | inr level ↦ inr (rw level refl)
      | inl above ↦ cc (
        strict.lt_trans a.total_score b.total_score a.total_score below above,
        strict.lt_irrefl a.total_score,
      )
    ]
  ]

  module _ (weak : IsWeak d) where
    abbrev pub IsNumber : AdapterScore → Type 0
    IsNumber a = d.is_nan a.total_score ≡ false

    ranks_before_trans :
        (a b c : AdapterScore)
        → IsNumber b
        → ranks_before d a b ≡ true
        → ranks_before d b c ≡ true
        → ranks_before d a c ≡ true
    ranks_before_trans a b c n h k =
        rw
          (weak a.total_score b.total_score c.total_score n (ground (arith, h)) (ground (arith, k)))
          refl

    -- The ranking of adapters holds the scores of all of them and of no other, in descending
    -- order, where no score is undefined and the comparison of numbers is a strict order whose
    -- complement is transitive.
    pub rank_adapters-IsSorted :
        (s : AdapterScorer) (adapters : Map String AdapterMetrics)
        → All (λ e. IsNumber (calculate_score d s e.0 e.1)) adapters
        → IsSorted (ranks_before d) (rank_adapters d s adapters)
          × Perm (rank_adapters d s adapters) (map (λ e. calculate_score d s e.0 e.1) adapters)
    unfolding rank_adapters
    rank_adapters-IsSorted s adapters numbers =
        let scores = map (λ e. calculate_score d s e.0 e.1) adapters in
        (
          sort_by-IsSorted_on (ranks_before d) IsNumber ranks_before_total ranks_before_trans scores
              (All-map IsNumber (λ e. calculate_score d s e.0 e.1) adapters numbers),
          sort_by-perm (ranks_before d) scores,
        )
