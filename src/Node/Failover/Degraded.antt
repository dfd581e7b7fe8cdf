-- ===== src/Node/Failover/Degraded.antt =====
-- myriadnode-full/src/failover.rs: an adapter whose latency has degraded once.
use myriadmesh_server.Base.{
  ℕ, ◌+◌, ◌≤◌, ◌<◌, ◌≡◌, refl, true, List, [], ◌∷◌, String, arith, u32_mod, length, ltb, ◌++◌, ◌-◌,
  length-drop, Bool-cases, inl, inr,
}
use myriadmesh_server.Base.Double.{Double, F64}
use myriadmesh_server.Node.Scoring.{AdapterMetrics}
use myriadmesh_server.Node.Failover.{
  AdapterHealth, failed, check_ready, is_latency_degraded, record_failure, log_event, FailoverEvent,
}

module _ (d : Double) (multiplier : F64) (id : String) where
  -- The health after checks of an adapter that is ready, each of a time and the metrics that it
  -- finds, the last one first.
  unfoldable pub checks_of : AdapterHealth → List (ℕ × AdapterMetrics) → AdapterHealth
  checks_of h [] = h
  checks_of h ((now, metrics) ∷ earlier) =
      (check_ready d multiplier now id (checks_of h earlier) metrics).0

  check_ready-degraded :
      (now : ℕ) (h : AdapterHealth) (metrics : AdapterMetrics)
      → is_latency_degraded d h multiplier ≡ true
      → (check_ready d multiplier now id h metrics).0 ≡ record_failure now h
  unfolding check_ready
  check_ready-degraded now h metrics bad = rw bad refl

  -- Once its latency counts as degraded, an adapter that stays ready counts as degraded
  -- whatever latencies it shows, its baseline stays as it is, and after three checks it has
  -- failed.
  pub degraded_for_good :
      (h : AdapterHealth) (l : List (ℕ × AdapterMetrics))
      → is_latency_degraded d h multiplier ≡ true
      → h.consecutive_failures + length l < u32_mod
      → (is_latency_degraded d (checks_of h l) multiplier ≡ true)
        × ((checks_of h l).consecutive_failures ≡ h.consecutive_failures + length l)
        × ((checks_of h l).baseline_latency ≡ h.baseline_latency)
        × (3 ≤ length l → (checks_of h l).status ≡ failed)
  unfolding checks_of record_failure is_latency_degraded
  degraded_for_good h [] bad fits = (bad, omega arith, refl, λ many. absurd (omega (arith, many)))
  degraded_for_good h ((now, metrics) ∷ earlier) bad fits =
      let before = degraded_for_good h earlier bad (omega (arith, fits)) in
      rw (check_ready-degraded now (checks_of h earlier) metrics before.0) (
        before.0,
        ground (arith, before.1, fits),
        before.2,
        λ many. ground (arith, before.1, fits, many),
      )

-- The log holds the last hundred events at most.
pub length-log_event :
    (log : List FailoverEvent) (event : FailoverEvent) → length (log_event log event) ≤ 100
unfolding log_event
length-log_event log event = elim (Bool-cases (ltb 100 (length (log ++ (event ∷ []))))) [
  | inl long ↦
      rw long (
        ground
          (arith, long, length-drop (length (log ++ (event ∷ [])) - 100) (log ++ (event ∷ []))))
  | inr short ↦ rw short (ground (arith, short))
]
