-- ===== src/Node/Baseline/Analysis.antt =====
-- myriadnode-full/src/diagnostics/baseline.rs: `analyze`, and the baseline that is taken from
-- snapshots.
use myriadmesh_server.Base.{
  ℕ, ◌+◌, Bool, not, ◌&&◌, ◌||◌, Option, none, some, List, [], ◌∷◌, ◌++◌, String, ltb, eqb,
  if◌then◌else◌, length, mul64, select, any_of, ◌==◌, string_eq,
}
use myriadmesh_server.Base.Double.{F64}
use myriadmesh_server.Base.Map.{Map, get, insert}
use myriadmesh_server.Base.Sets.{contains}
use myriadmesh_server.Node.Diagnostics.{
  InitCheckpoint, FailureEvent, RouterHealthSnapshot, StartupMetadata,
}
use myriadmesh_server.Node.Baseline.{
  BaselineConfig, DiagnosticSnapshot, IntegrationBaseline, IntegrationViolation,
  PerformanceBaseline, PerformanceViolation, RegressionReport, ReliabilityBaseline,
  ReliabilityViolation, Severity, critical, failure_name, is_critical, is_warning, phase_duration,
  phase_name, total_init_duration, warning,
}

-- critical beyond so many times the baseline
abbrev pub severity_of : ℕ → ℕ → ℕ → Severity
severity_of times actual baseline = if ltb (mul64 baseline times) actual then critical else warning

abbrev pub count_or_nought : Option ℕ → ℕ
count_or_nought none = 0
count_or_nought (some n) = n

-- `count_failures`, from the counts so far
unfoldable pub count_failures : Map String ℕ → List FailureEvent → Map String ℕ
unfolding failure_name
count_failures counts [] = counts
count_failures counts (f ∷ rest) =
    count_failures
      (insert counts (failure_name f.failure_type)
        (count_or_nought (get counts (failure_name f.failure_type)) + 1))
      rest

module _ (b : ReliabilityBaseline) where
  abbrev pub zero_tolerance : String × ℕ → List ReliabilityViolation
  zero_tolerance e =
      if contains b.zero_tolerance_failures e.0 && ltb 0 e.1
      then record { failure_type = e.0; count = e.1; baseline_max = 0; severity = critical } ∷ []
      else []

  abbrev pub beyond_acceptable : String × ℕ → Option ℕ → List ReliabilityViolation
  beyond_acceptable e none = []
  beyond_acceptable e (some most) =
      if ltb most e.1
      then record { failure_type = e.0; count = e.1; baseline_max = most; severity = warning } ∷ []
      else []

  unfoldable pub check_reliability : Map String ℕ → List ReliabilityViolation
  check_reliability [] = []
  check_reliability (e ∷ rest) =
      zero_tolerance e
      ++ (beyond_acceptable e (get b.acceptable_failures e.0) ++ check_reliability rest)

abbrev pub missing : String → String → IntegrationViolation
missing component issue = record {
  component = component;
  issue = issue;
  phase = none;
  severity = critical;
}

abbrev pub unless : Bool → IntegrationViolation → List IntegrationViolation
unless good violation = if good then [] else violation ∷ []

abbrev pub check_health :
    IntegrationBaseline → Option RouterHealthSnapshot → List IntegrationViolation
check_health b none = []
check_health b (some h) =
    unless (not b.require_complete_router_integration || h.has_local_delivery_channel)
      (missing "Router" "Missing local delivery channel")
    ++ (unless (not b.require_complete_router_integration || h.has_confirmation_callback)
          (missing "Router" "Missing confirmation callback")
        ++ (unless (not b.require_complete_router_integration || h.has_message_sender)
              (missing "Router" "Missing message sender callback")
            ++ (unless (not b.require_queue_processor || h.queue_processor_running)
                  (missing "QueueProcessor" "Queue processor not running")
                ++ unless
                    (not b.require_local_delivery_processor || h.local_delivery_processor_running)
                    (missing "LocalDeliveryProcessor" "Local delivery processor not running"))))

-- whether a phase has been completed with success
abbrev pub phase_found : List InitCheckpoint → String → Bool
phase_found checkpoints phase =
    any_of (λ (c : InitCheckpoint). phase_name c.checkpoint == phase && c.success) checkpoints

unfoldable pub check_phases : List InitCheckpoint → List String → List IntegrationViolation
unfolding phase_name
check_phases checkpoints [] = []
check_phases checkpoints (phase ∷ rest) =
    unless (phase_found checkpoints phase) (record {
      component = "Initialization";
      issue = "Missing or failed required phase";
      phase = some phase;
      severity = critical;
    })
    ++ check_phases checkpoints rest

module _ (of_nat : ℕ → F64) where
  abbrev pub check_start : PerformanceBaseline → Option StartupMetadata → List PerformanceViolation
  check_start b none = []
  check_start b (some m) =
      if ltb b.max_init_duration_ms m.total_init_duration_ms
      then record {
        metric = total_init_duration;
        actual_value = of_nat m.total_init_duration_ms;
        baseline_value = of_nat b.max_init_duration_ms;
        severity = severity_of 2 m.total_init_duration_ms b.max_init_duration_ms;
      }
        ∷ []
      else []

  abbrev pub check_duration : InitCheckpoint → Option ℕ → List PerformanceViolation
  check_duration c none = []
  check_duration c (some baseline) =
      if ltb baseline c.duration_ms
      then record {
        metric = phase_duration (phase_name c.checkpoint);
        actual_value = of_nat c.duration_ms;
        baseline_value = of_nat baseline;
        severity = severity_of 3 c.duration_ms baseline;
      }
        ∷ []
      else []

  unfoldable pub check_durations :
      PerformanceBaseline → List InitCheckpoint → List PerformanceViolation
  unfolding phase_name
  check_durations b [] = []
  check_durations b (c ∷ rest) =
      check_duration c (get b.max_phase_durations (phase_name c.checkpoint))
      ++ check_durations b rest

  unfoldable pub analyze : BaselineConfig → DiagnosticSnapshot → RegressionReport
  unfolding check_durations count_failures check_reliability check_phases
  analyze b s =
      let performance : List PerformanceViolation =
        check_start b.performance s.startup_metadata
        ++ check_durations b.performance s.init_checkpoints in
      let reliability : List ReliabilityViolation =
        check_reliability b.reliability (count_failures [] s.failures) in
      let integration : List IntegrationViolation =
        check_health b.integration s.router_health
        ++ check_phases s.init_checkpoints b.integration.required_init_phases in
      let critical_count : ℕ =
        length (select (λ (v : PerformanceViolation). is_critical v.severity) performance)
        + length (select (λ (v : ReliabilityViolation). is_critical v.severity) reliability)
        + length (select (λ (v : IntegrationViolation). is_critical v.severity) integration) in
      let warning_count : ℕ =
        length (select (λ (v : PerformanceViolation). is_warning v.severity) performance)
        + length (select (λ (v : ReliabilityViolation). is_warning v.severity) reliability)
        + length (select (λ (v : IntegrationViolation). is_warning v.severity) integration) in
      record {
        passed = eqb critical_count 0;
        performance_violations = performance;
        reliability_violations = reliability;
        integration_violations = integration;
        summary = record {
          total_violations = length performance + length reliability + length integration;
          critical_violations = critical_count;
          warning_violations = warning_count;
          snapshots_analyzed = 1;
          baseline_version = b.performance.version;
        };
      }
