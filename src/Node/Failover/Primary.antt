-- ===== src/Node/Failover/Primary.antt =====
-- myriadnode-full/src/failover.rs: when a check changes the primary adapter, and the log.
use myriadmesh_server.Base.{
  ℕ, ◌+◌, ◌≤◌, ◌<◌, ◌≡◌, ◌⊎◌, ◌∙◌, inl, inr, refl, Bool, true, false, Option, none, some, List, [],
  ◌∷◌, map, String, arith, ltb, length, select, if◌then◌else◌, string_eq, Bool-cases, Option-cases,
  length-map,
}
use myriadmesh_server.Base.Double.{Double, F64}
use myriadmesh_server.Base.Map.{Map, get, length-insert}
use myriadmesh_server.Base.Sort.{length-sort_by}
use myriadmesh_server.Node.Scoring.{
  AdapterMetrics, AdapterScore, AdapterScorer, rank_adapters, ranks_before, calculate_score,
}
use myriadmesh_server.Node.Failover.{
  FailoverConfig, FailoverState, FailoverEvent, AdapterView, AdapterHealth, Checks, check_adapters,
  check_found, check_unready, check_ready, check_and_failover, choose_primary, should_switch,
  better_than, score_of, health_or_new, log_if, metrics_of, adapter_down,
}
use myriadmesh_server.Node.Failover.Degraded.{length-log_event}

abbrev pub view_ready : Option AdapterView → Bool
view_ready none = false
view_ready (some a) = a.ready

length-log_if :
    (log : List FailoverEvent) (event : Option FailoverEvent)
    → length log ≤ 100
    → length (log_if log event) ≤ 100
length-log_if log none short = short
length-log_if log (some event) short = length-log_event log event

nonempty :
    (xs : List AdapterScore)
    → 1 ≤ length xs
    → (x : AdapterScore) × (rest : List AdapterScore) × (xs ≡ x ∷ rest)
nonempty [] h = absurd (omega arith)
nonempty (x ∷ rest) h = (x, rest, refl)

module _ (d : Double) where
  -- The adapter is not among the scores, or the best score is above 1.1 times its own.
  abbrev pub IsBeaten : List AdapterScore → AdapterScore → String → Type 0
  IsBeaten scores best q =
      (score_of scores q ≡ none)
      ⊎ ((x : F64) × (score_of scores q ≡ some x)
          × (d.lt (d.mul x (d.lit 110 100)) best.total_score ≡ true))

  -- The best score is not above 1.1 times the score of the adapter.
  abbrev pub IsNear : List AdapterScore → AdapterScore → String → Type 0
  IsNear scores best q =
      (x : F64) × (score_of scores q ≡ some x)
      × (d.lt (d.mul x (d.lit 110 100)) best.total_score ≡ false)

  -- The primary adapter after a choice: the best one, or the current one, which is near it.
  abbrev pub NearBest : List AdapterScore → AdapterScore → Option String → String → Type 0
  NearBest scores best current p =
      ((p ≡ best.adapter_id)
        × ((current ≡ none) ⊎ ((q : String) × (current ≡ some q) × IsBeaten scores best q)))
      ⊎ ((current ≡ some p) × IsNear scores best p)

  better_than-cases :
      (scores : List AdapterScore) (best : AdapterScore) (q : String)
      → ((better_than d best.total_score (score_of scores q) ≡ true) × IsBeaten scores best q)
        ⊎ ((better_than d best.total_score (score_of scores q) ≡ false) × IsNear scores best q)
  better_than-cases scores best q = elim (Option-cases (score_of scores q)) [
    | inl unranked ↦ rw unranked (inl (refl, inl refl))
    | inr (x, ranked) ↦ elim (Bool-cases (d.lt (d.mul x (d.lit 110 100)) best.total_score)) [
      | inl above ↦ rw ranked (inl (above, inr (x, refl, above)))
      | inr near ↦ rw ranked (inr (near, (x, refl, near)))
    ]
  ]

  choose_primary-NearBest :
      (best : AdapterScore) (others : List AdapterScore) (s : FailoverState)
      → (p : String) × ((choose_primary d (best ∷ others) s).current_primary ≡ some p)
        × NearBest (best ∷ others) best s.current_primary p
  choose_primary-NearBest best others s = elim (Option-cases s.current_primary) [
    | inl unset ↦ rw unset (best.adapter_id, refl, inl (refl, inl refl))
    | inr (p, set) ↦ elim (better_than-cases (best ∷ others) best p) [
      | inl (better, beaten) ↦
          (best.adapter_id, ground (arith, set, better), inl (refl, inr (p, set, beaten)))
      | inr (stays, near) ↦ (p, ground (arith, set, stays), inr (set, near))
    ]
  ]

module _ (d : Double) (config : FailoverConfig) (now : ℕ) (view : String → Option AdapterView) where
  length-check_found :
      (id : String) (h : AdapterHealth) (o : Option AdapterView) (c : Checks)
      → length (check_found d config now id h o c).all_metrics
        ≤ length c.all_metrics + (if view_ready o then 1 else 0)
  unfolding check_unready
  length-check_found id h none c = omega arith
  length-check_found id h (some a) c = elim (Bool-cases a.ready) [
    | inl up ↦ rw up (ground (arith, length-insert c.all_metrics id (metrics_of d id a)))
    | inr down ↦ rw down (omega arith)
  ]

  length-check_adapters :
      (ids : List String) (c : Checks)
      → length (check_adapters d config now view ids c).all_metrics
        ≤ length c.all_metrics + length (select (λ id. view_ready (view id)) ids)
  unfolding check_adapters select
  length-check_adapters [] c = omega arith
  length-check_adapters (id ∷ rest) c =
      let h = health_or_new now id (get c.health_map id) in
      ground (
        arith,
        length-check_found id h (view id) c,
        length-check_adapters rest (check_found d config now id h (view id) c),
      )

  log_found :
      (id : String) (h : AdapterHealth) (o : Option AdapterView) (c : Checks)
      → length c.log ≤ 100
      → length (check_found d config now id h o c).log ≤ 100
  unfolding check_unready metrics_of
  log_found id h none c short = short
  log_found id h (some a) c short = elim (Bool-cases a.ready) [
    | inl up ↦ rw up (
        length-log_if c.log
          (check_ready d config.latency_threshold_multiplier now id h (metrics_of d id a)).1 short)
    | inr down ↦
        rw down (ground (arith, short, length-log_event c.log (adapter_down id a.status_text)))
  ]

  module _ (scorer : AdapterScorer) where
    -- With fewer than two ready adapters, a check leaves the primary adapter as it is, ready
    -- or not.
    pub one_ready_no_failover :
        (ids : List String) (s : FailoverState)
        → length (select (λ id. view_ready (view id)) ids) < 2
        → (check_and_failover d config scorer now view ids s).current_primary ≡ s.current_primary
    unfolding check_and_failover
    one_ready_no_failover ids s few =
        let start : Checks = record {
          health_map = s.adapter_health;
          log = s.event_log;
          all_metrics = [];
        } in
        ground (arith, few, length-check_adapters ids start)

    length-rank_adapters :
        (m : Map String AdapterMetrics) → length (rank_adapters d scorer m) ≡ length m
    unfolding rank_adapters
    length-rank_adapters m =
        length-sort_by (ranks_before d) (map (λ e. calculate_score d scorer e.0 e.1) m)
        ∙ length-map (λ (e : String × AdapterMetrics). calculate_score d scorer e.0 e.1) m

    -- what the checks of the adapters start from
    abbrev pub before_checks : FailoverState → Checks
    before_checks s = record { health_map = s.adapter_health; log = s.event_log; all_metrics = [] }

    abbrev pub ranking : List String → FailoverState → List AdapterScore
    ranking ids s =
        rank_adapters d scorer (check_adapters d config now view ids (before_checks s)).all_metrics

    -- Once two adapters at least are ranked, a check leaves a primary adapter, which is either
    -- the best one, where none was primary, or the one that was is not ranked or has a score
    -- of which 1.1 times are below the best one, or the one that was primary, where it is
    -- ranked and 1.1 times its score are not below the best one.
    pub check_and_failover-NearBest :
        (ids : List String) (s : FailoverState)
        → 2 ≤ length (ranking ids s)
        → (best : AdapterScore) × (others : List AdapterScore) × (p : String) × (ranking ids s
            ≡ best ∷ others)
          × ((check_and_failover d config scorer now view ids s).current_primary ≡ some p)
          × NearBest d (best ∷ others) best s.current_primary p
    unfolding check_and_failover
    check_and_failover-NearBest ids s many =
        let c = check_adapters d config now view ids (before_checks s) in
        let checked : FailoverState = record s {
          adapter_health = c.health_map;
          event_log = c.log;
        } in
        let (best, others, ranked) = nonempty (ranking ids s) (omega (arith, many)) in
        let (p, chosen, near) = choose_primary-NearBest d best others checked in
        let enough : ltb (length c.all_metrics) 2 ≡ false =
          ground (arith, many, length-rank_adapters c.all_metrics) in
        (best, others, p, ranked, rw (enough, ranked) chosen, near)

    log_checked :
        (ids : List String) (c : Checks)
        → length c.log ≤ 100
        → length (check_adapters d config now view ids c).log ≤ 100
    unfolding check_adapters
    log_checked [] c short = short
    log_checked (id ∷ rest) c short =
        let h = health_or_new now id (get c.health_map id) in
        log_checked rest (check_found d config now id h (view id) c)
          (log_found id h (view id) c short)

    log_chosen :
        (scores : List AdapterScore) (s : FailoverState)
        → length s.event_log ≤ 100
        → length (choose_primary d scores s).event_log ≤ 100
    log_chosen [] s short = short
    log_chosen (best ∷ others) s short =
        elim (Bool-cases (should_switch d (best ∷ others) best s.current_primary)) [
          | inl switch ↦ rw switch (length-log_event s.event_log _)
          | inr stay ↦ rw stay short
        ]

    -- A check leaves a hundred events in the log at most, if there were no more before.
    pub length-event_log :
        (ids : List String) (s : FailoverState)
        → length s.event_log ≤ 100
        → length (check_and_failover d config scorer now view ids s).event_log ≤ 100
    unfolding check_and_failover
    length-event_log ids s short =
        let c = check_adapters d config now view ids (before_checks s) in
        let checked : FailoverState = record s {
          adapter_health = c.health_map;
          event_log = c.log;
        } in
        let kept = log_checked ids (before_checks s) short in
        elim (Bool-cases (ltb (length c.all_metrics) 2)) [
          | inl few ↦ rw few kept
          | inr many ↦ rw many (log_chosen (rank_adapters d scorer c.all_metrics) checked kept)
        ]
