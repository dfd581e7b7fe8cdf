-- ===== src/Updates/Window/Best.antt =====
-- crates/myriadmesh-updates/src/schedule.rs: no slot scores higher than the window that is chosen.
use myriadmesh_server.Base.{
  ℕ, zero, suc, ◌+◌, ◌*◌, ◌<◌, ◌≡◌, ◌⊎◌, inl, inr, refl, ap, true, false, List, arith, Bool-cases,
  add64, u64_mod,
}
use myriadmesh_server.Base.Double.{Double, F64, IsStrict}
use myriadmesh_server.Base.Result.{ok}
use myriadmesh_server.Ledger.Entry.{NodeId}
use myriadmesh_server.Updates.Window.{
  UpdateWindowSelector, better, search_slots, find_optimal_window, evaluate_update_slot,
  slots_between,
}

module _ (d : Double) (strict : IsStrict d) (score : ℕ → F64) where
  -- the best of a search: a slot of it with its score, or what was best before
  abbrev Chosen : ℕ → ℕ → ℕ × F64 → ℕ × F64 → Type 0
  Chosen n slot best r =
      (r ≡ best)
      ⊎ ((d.lt best.1 r.1 ≡ true)
          × ((j : ℕ) × (j < n) × (r.0 ≡ slot + 300 * j) × (r.1 ≡ score r.0)))

  Chosen-later :
      (n slot : ℕ) (best r : ℕ × F64)
      → Chosen n (slot + 300) (better d score slot best) r
      → Chosen (suc n) slot best r
  Chosen-later n slot best r c = elim (Bool-cases (d.lt best.1 (score slot))) [
    | inr miss ↦ elim (rw miss at c) [
      | inl same ↦ inl same
      | inr (above, (j, inside, at, value)) ↦
          inr (above, (suc j, omega arith, omega (arith, at), value))
    ]
    | inl hit ↦ elim (rw hit at c) [
      | inl same ↦ inr (
        rw same hit,
        (0, omega arith, omega (arith, ap (λ (x : ℕ × F64). x.0) same), rw same refl),
      )
      | inr (above, (j, inside, at, value)) ↦ inr (
        strict.lt_trans best.1 (score slot) r.1 hit above,
        (suc j, omega arith, omega (arith, at), value),
      )
    ]
  ]

  search_slots-suc :
      (n slot : ℕ) (best : ℕ × F64)
      → slot + 300 < u64_mod
      → search_slots d (suc n) score slot best
        ≡ search_slots d n score (slot + 300) (better d score slot best)
  unfolding search_slots
  search_slots-suc n slot best fits =
      ap (λ s. search_slots d n score s (better d score slot best))
        (let next : add64 slot 300 ≡ slot + 300 = omega (arith, fits) in next)

  search_slots-Chosen :
      (n slot : ℕ) (best : ℕ × F64)
      → slot + 300 * n < u64_mod
      → Chosen n slot best (search_slots d n score slot best)
  unfolding search_slots
  search_slots-Chosen zero slot best fits = inl refl
  search_slots-Chosen (suc n) slot best fits =
      rw (search_slots-suc n slot best (omega (arith, fits))) (
        Chosen-later n slot best _
          (search_slots-Chosen n (slot + 300) (better d score slot best) (omega (arith, fits))))

  lt-false_up : (a r x : F64) → d.lt a x ≡ false → (r ≡ a) ⊎ (d.lt a r ≡ true) → d.lt r x ≡ false
  lt-false_up a r x below (inl same) = rw same below
  lt-false_up a r x below (inr above) = elim (Bool-cases (d.lt r x)) [
    | inr not_above ↦ not_above
    | inl higher ↦ cc (below, strict.lt_trans a r x above higher)
  ]

  Chosen-up :
      (n slot : ℕ) (best r : ℕ × F64)
      → Chosen n slot best r
      → (r.1 ≡ best.1) ⊎ (d.lt best.1 r.1 ≡ true)
  Chosen-up n slot best r (inl same) = inl (ap (λ (x : ℕ × F64). x.1) same)
  Chosen-up n slot best r (inr (above, rest)) = inr above

  better-not_beaten :
      (slot : ℕ) (best : ℕ × F64) → d.lt (better d score slot best).1 (score slot) ≡ false
  better-not_beaten slot best = elim (Bool-cases (d.lt best.1 (score slot))) [
    | inl hit ↦ rw hit (strict.lt_irrefl (score slot))
    | inr miss ↦ rw miss miss
  ]

  not_beaten :
      (n slot : ℕ) (best : ℕ × F64)
      → slot + 300 * n < u64_mod
      → (i : ℕ) → i < n
      → d.lt (search_slots d n score slot best).1 (score (slot + 300 * i)) ≡ false
  not_beaten zero slot best fits i inside = absurd (omega arith)
  not_beaten (suc n) slot best fits zero inside =
      let here : slot + 300 * 0 ≡ slot = omega arith in
      let best' = better d score slot best in
      rw (search_slots-suc n slot best (omega (arith, fits)), here)
        (lt-false_up best'.1 _ (score slot) (better-not_beaten slot best) (
          Chosen-up n (slot + 300) best' _
            (search_slots-Chosen n (slot + 300) best' (omega (arith, fits)))))
  not_beaten (suc n) slot best fits (suc i) inside =
      let there : slot + 300 * suc i ≡ (slot + 300) + 300 * i = omega arith in
      rw (search_slots-suc n slot best (omega (arith, fits)), there)
        (not_beaten n (slot + 300) (better d score slot best) (omega (arith, fits)) i
          (omega (arith, inside)))

module _ (d : Double) (strict : IsStrict d) where
  -- a search that starts below the score of its first slot
  best_of_slots :
      (score : ℕ → F64) (n now first : ℕ)
      → now + 300 * n < u64_mod
      → 0 < n
      → d.lt d.least (score now) ≡ true
      → (j : ℕ) × (j < n)
        × ((search_slots d n score now (first, d.least)).0 ≡ now + 300 * j)
        × ((i : ℕ) → i < n → d.lt (score (now + 300 * j)) (score (now + 300 * i)) ≡ false)
  best_of_slots score n now first fits some_slots number =
      let r = search_slots d n score now (first, d.least) in
      let beaten = not_beaten d strict score n now (first, d.least) fits in
      elim (search_slots-Chosen d strict score n now (first, d.least) fits) [
        | inl none_better ↦
            let here : now + 300 * 0 ≡ now = omega arith in
            absurd (cc (rw (none_better, here) at (beaten 0 some_slots), number))
        | inr (above, (j, inside, at, value)) ↦
            (j, inside, at, λ i below. rw (at) at (rw value at (beaten i below)))
      ]

  -- The window that is found starts a multiple of five minutes from now, within a day, and no
  -- slot of the day scores more, where the comparison of numbers is a strict order, times do
  -- not wrap and the first slot scores more than the least number.
  pub find_optimal_window-best :
      (clock : ℕ → ℕ) (now : ℕ) (w : UpdateWindowSelector) (neighbors : List NodeId) (duration : ℕ)
      (i : ℕ)
      → now + 86_400 < u64_mod
      → d.lt d.least (evaluate_update_slot d (clock now) w now neighbors duration) ≡ true
      → i < 288
      → let score = λ (slot : ℕ). evaluate_update_slot d (clock slot) w slot neighbors duration in
        (j : ℕ) × (j < 288)
        × (find_optimal_window d clock now w neighbors duration ≡ ok (now + 300 * j))
        × (d.lt (score (now + 300 * j)) (score (now + 300 * i)) ≡ false)
  unfolding find_optimal_window
  find_optimal_window-best clock now w neighbors duration i fits number below =
      let score = λ (slot : ℕ). evaluate_update_slot d (clock slot) w slot neighbors duration in
      let slots : slots_between now (add64 now 86_400) ≡ 288 = omega (arith, fits) in
      let found =
        best_of_slots score 288 now (add64 now 300) (omega (arith, fits)) (omega arith) number in
      rw slots (found.0, found.1, ap ok found.2, found.3 i below)
