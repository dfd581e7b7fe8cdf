-- ===== src/Node/Baseline/Verdict.antt =====
-- myriadnode-full/src/diagnostics/baseline.rs: when a snapshot passes.
use myriadmesh_server.Base.{
  ℕ, ◌+◌, ◌*◌, ◌<◌, Bool, true, false, not, ◌&&◌, ◌||◌, Option, none, some, ◌≡◌, refl, List, [],
  ◌∷◌, ◌++◌, String, ltb, leb, eqb, length, u64_mod, select, any_of, all_of, string_eq, arith,
}
use myriadmesh_server.Base.Double.{F64}
use myriadmesh_server.Base.Map.{Map, get, insert}
use myriadmesh_server.Base.Sets.{contains}
use myriadmesh_server.Node.Diagnostics.{
  InitCheckpoint, FailureEvent, RouterHealthSnapshot, StartupMetadata,
}
use myriadmesh_server.Node.Baseline.{
  BaselineConfig, DiagnosticSnapshot, IntegrationBaseline, IntegrationViolation,
  PerformanceBaseline, PerformanceViolation, ReliabilityBaseline, ReliabilityViolation,
  failure_name, is_critical, phase_name,
}
use myriadmesh_server.Node.Baseline.Analysis.{
  analyze, beyond_acceptable, zero_tolerance, check_duration, check_durations, check_health,
  check_phases, check_reliability, check_start, count_failures, count_or_nought, phase_found,
}

module _ {ℓ} {A : Type ℓ} (p : A → Bool) where
  any_of-append : (xs ys : List A) → any_of p (xs ++ ys) ≡ (any_of p xs || any_of p ys)
  unfolding any_of
  any_of-append [] ys = refl
  any_of-append (x ∷ xs) ys = ground (arith, any_of-append xs ys)

  length-select-nought : (xs : List A) → eqb (length (select p xs)) 0 ≡ not (any_of p xs)
  unfolding any_of select
  length-select-nought [] = refl
  length-select-nought (x ∷ xs) = ground (arith, length-select-nought xs)

-- the start takes twice the baseline at most
abbrev pub starts_in_time : PerformanceBaseline → Option StartupMetadata → Bool
starts_in_time b none = true
starts_in_time b (some m) = leb m.total_init_duration_ms (b.max_init_duration_ms * 2)

abbrev pub phase_in_time : InitCheckpoint → Option ℕ → Bool
phase_in_time c none = true
phase_in_time c (some most) = leb c.duration_ms (most * 3)

abbrev pub is_healthy : IntegrationBaseline → Option RouterHealthSnapshot → Bool
is_healthy b none = true
is_healthy b (some h) =
    (not b.require_complete_router_integration
      || (h.has_local_delivery_channel && h.has_confirmation_callback && h.has_message_sender))
    && (not b.require_queue_processor || h.queue_processor_running)
    && (not b.require_local_delivery_processor || h.local_delivery_processor_running)

-- No bound that is tripled leaves a word.
abbrev pub FitsWord : Option ℕ → Type 0
FitsWord none = Unit
FitsWord (some most) = most * 3 < u64_mod

module _ (of_nat : ℕ → F64) where
  abbrev crit : PerformanceViolation → Bool
  crit v = is_critical v.severity

  start_verdict :
      (b : PerformanceBaseline) (m : Option StartupMetadata)
      → b.max_init_duration_ms * 2 < u64_mod
      → any_of crit (check_start of_nat b m) ≡ not (starts_in_time b m)
  unfolding any_of
  start_verdict b none fits = refl
  start_verdict b (some m) fits = ground (arith, fits)

  duration_verdict :
      (c : InitCheckpoint) (most : Option ℕ)
      → FitsWord most
      → any_of crit (check_duration of_nat c most) ≡ not (phase_in_time c most)
  unfolding any_of
  duration_verdict c none fits = refl
  duration_verdict c (some most) fits = ground (arith, fits)

  durations_verdict :
      (b : PerformanceBaseline) (cs : List InitCheckpoint)
      → ((k : String) → FitsWord (get b.max_phase_durations k))
      → any_of crit (check_durations of_nat b cs)
        ≡ not (
            all_of
              (λ (c : InitCheckpoint).
                phase_in_time c (get b.max_phase_durations (phase_name c.checkpoint)))
              cs)
  unfolding check_durations all_of any_of
  durations_verdict b [] fits = refl
  durations_verdict b (c ∷ cs) fits =
      rw
        (
          any_of-append crit
              (check_duration of_nat c (get b.max_phase_durations (phase_name c.checkpoint)))
              (check_durations of_nat b cs),
          duration_verdict c (get b.max_phase_durations (phase_name c.checkpoint))
              (fits (phase_name c.checkpoint)),
          durations_verdict b cs fits,
        )
        (ground arith)

module _ (b : ReliabilityBaseline) where
  -- an entry of the counts that is never accepted
  abbrev refused : String × ℕ → Bool
  refused e = contains b.zero_tolerance_failures e.0 && ltb 0 e.1

  refused-insert :
      (m : Map String ℕ) (k : String) (n : ℕ)
      → 0 < n
      → any_of refused (insert m k n) ≡ (contains b.zero_tolerance_failures k || any_of refused m)
  unfolding any_of insert
  refused-insert [] k n some_counted = ground (arith, some_counted)
  refused-insert ((j, w) ∷ m) k n some_counted =
      ground (arith, refused-insert m k n some_counted, string_eq.same_iff j k)

  refused-count :
      (counts : Map String ℕ) (fs : List FailureEvent)
      → any_of refused (count_failures counts fs) ≡ (
          any_of
            (λ (f : FailureEvent). contains b.zero_tolerance_failures (failure_name f.failure_type))
            fs
          || any_of refused counts)
  unfolding count_failures any_of
  refused-count counts [] = refl
  refused-count counts (f ∷ fs) =
      let name = failure_name f.failure_type in
      let n = count_or_nought (get counts name) + 1 in
      ground
        (arith, refused-count (insert counts name n) fs, refused-insert counts name n (omega arith))

  never_critical :
      (e : String × ℕ) (most : Option ℕ)
      → any_of (λ (v : ReliabilityViolation). is_critical v.severity) (beyond_acceptable b e most)
        ≡ false
  unfolding any_of
  never_critical e none = refl
  never_critical e (some most) = ground arith

  reliability_verdict :
      (counts : Map String ℕ)
      → any_of (λ (v : ReliabilityViolation). is_critical v.severity) (check_reliability b counts)
        ≡ any_of refused counts
  unfolding check_reliability any_of
  reliability_verdict [] = refl
  reliability_verdict (e ∷ rest) =
      let crit = λ (v : ReliabilityViolation). is_critical v.severity in
      ground (
        arith,
        reliability_verdict rest,
        any_of-append crit (zero_tolerance b e)
            (beyond_acceptable b e (get b.acceptable_failures e.0) ++ check_reliability b rest),
        any_of-append crit (beyond_acceptable b e (get b.acceptable_failures e.0))
            (check_reliability b rest),
        never_critical e (get b.acceptable_failures e.0),
      )

health_verdict :
    (b : IntegrationBaseline) (h : Option RouterHealthSnapshot)
    → any_of (λ (v : IntegrationViolation). is_critical v.severity) (check_health b h)
      ≡ not (is_healthy b h)
unfolding any_of
health_verdict b none = refl
health_verdict b (some h) = ground arith

phases_verdict :
    (cs : List InitCheckpoint) (names : List String)
    → any_of (λ (v : IntegrationViolation). is_critical v.severity) (check_phases cs names)
      ≡ not (all_of (phase_found cs) names)
unfolding any_of all_of check_phases
phases_verdict cs [] = refl
phases_verdict cs (name ∷ names) = ground (arith, phases_verdict cs names)

-- What is asked of a snapshot, without the reports.
unfoldable pub is_sound : BaselineConfig → DiagnosticSnapshot → Bool
is_sound b s =
    starts_in_time b.performance s.startup_metadata
    && all_of
        (λ (c : InitCheckpoint).
          phase_in_time c (get b.performance.max_phase_durations (phase_name c.checkpoint)))
        s.init_checkpoints
    && not (
        any_of
          (λ (f : FailureEvent).
            contains b.reliability.zero_tolerance_failures (failure_name f.failure_type))
          s.failures)
    && is_healthy b.integration s.router_health
    && all_of (phase_found s.init_checkpoints) b.integration.required_init_phases

none_counted : (a b c : ℕ) → eqb (a + b + c) 0 ≡ (eqb a 0 && eqb b 0 && eqb c 0)
none_counted a b c = ground arith

module _ (of_nat : ℕ → F64) where
  pub passed-eq-is_sound :
      (b : BaselineConfig) (s : DiagnosticSnapshot)
      → b.performance.max_init_duration_ms * 2 < u64_mod
      → ((k : String) → FitsWord (get b.performance.max_phase_durations k))
      → (analyze of_nat b s).passed ≡ is_sound b s
  unfolding analyze is_sound any_of
  passed-eq-is_sound b s start fits =
      let crit_p = λ (v : PerformanceViolation). is_critical v.severity in
      let crit_r = λ (v : ReliabilityViolation). is_critical v.severity in
      let crit_i = λ (v : IntegrationViolation). is_critical v.severity in
      let performance =
        check_start of_nat b.performance s.startup_metadata
        ++ check_durations of_nat b.performance s.init_checkpoints in
      let reliability = check_reliability b.reliability (count_failures [] s.failures) in
      let integration =
        check_health b.integration s.router_health
        ++ check_phases s.init_checkpoints b.integration.required_init_phases in
      rw
        (
          none_counted (length (select crit_p performance)) (length (select crit_r reliability))
              (length (select crit_i integration)),
          length-select-nought crit_p performance,
          length-select-nought crit_r reliability,
          length-select-nought crit_i integration,
          any_of-append crit_p (check_start of_nat b.performance s.startup_metadata)
              (check_durations of_nat b.performance s.init_checkpoints),
          start_verdict of_nat b.performance s.startup_metadata start,
          durations_verdict of_nat b.performance s.init_checkpoints fits,
          reliability_verdict b.reliability (count_failures [] s.failures),
          refused-count b.reliability [] s.failures,
          any_of-append crit_i (check_health b.integration s.router_health)
              (check_phases s.init_checkpoints b.integration.required_init_phases),
          health_verdict b.integration s.router_health,
          phases_verdict s.init_checkpoints b.integration.required_init_phases,
        )
        (ground arith)
