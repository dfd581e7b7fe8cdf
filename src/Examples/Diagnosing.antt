-- ===== src/Examples/Diagnosing.antt =====
-- The theorems on the diagnostics at a start that takes too long.
use myriadmesh_server.Base.{none, some, [], ◌∷◌, ◌≡◌, String, arith, string_eq}
use myriadmesh_server.Base.Map.{get}
use myriadmesh_server.Node.Diagnostics.{
  with_config, default_diagnostics, network_failure, node_ready,
}
use myriadmesh_server.Node.Diagnostics.Recent.{failing, eventing, run, Remembers, run-Remembers}
use myriadmesh_server.Node.Baseline.{
  BaselineConfig, DiagnosticSnapshot, default_integration, default_reliability, regressed,
}
use myriadmesh_server.Node.Baseline.Analysis.{analyze}
use myriadmesh_server.Node.Baseline.Verdict.{is_sound, passed-eq-is_sound, FitsWord}

abbrev slow_start : DiagnosticSnapshot
slow_start = record {
  captured_at = 9;
  session_id = "s";
  init_checkpoints = [];
  lifecycle_events = [];
  failures = [];
  router_health = none;
  startup_metadata = some (record {
    session_id = "s";
    start_time = 1;
    config_hash = "c";
    version = "v";
    total_init_duration_ms = 20000;
  });
  metadata = record {
    description = "a slow start";
    scenario = "start";
    expected_outcome = regressed;
    tags = [];
  };
}

abbrev baseline : BaselineConfig
baseline = record {
  performance = record {
    max_init_duration_ms = 5000;
    max_phase_durations = [];
    baseline_date = 0;
    version = "v";
  };
  reliability = default_reliability;
  integration = default_integration;
  last_updated = 0;
  sample_size = 1;
}

no_bounds : (k : String) → FitsWord (get baseline.performance.max_phase_durations k)
unfolding get
no_bounds k = tt

passed-eq-is_sound_example :
    (analyze (λ n. n) baseline slow_start).passed ≡ is_sound baseline slow_start
passed-eq-is_sound_example = passed-eq-is_sound (λ n. n) baseline slow_start (omega arith) no_bounds

run-Remembers_example :
    Remembers default_diagnostics
      (failing 3 network_failure "dial" "refused" ∷ eventing 2 node_ready none ∷ [])
      (run
        (failing 3 network_failure "dial" "refused" ∷ eventing 2 node_ready none ∷ [])
        (with_config default_diagnostics "s"))
run-Remembers_example =
    run-Remembers default_diagnostics "s"
      (failing 3 network_failure "dial" "refused" ∷ eventing 2 node_ready none ∷ [])
