-- ===== src/Node/Baseline/Samples.antt =====
-- myriadnode-full/src/diagnostics/baseline.rs: the baseline that is taken from snapshots, and
-- myriadnode-full/src/diagnostics/test_data.rs: the outcome and the tags of a snapshot. `p95` is the
-- index `(n as f64 * 0.95) as usize`.
use myriadmesh_server.Base.{
  ℕ, ◌-◌, min, Bool, true, false, Option, none, some, List, [], ◌∷◌, ◌++◌, String, leb,
  if◌then◌else◌, length, select, any_of, all_of, is_empty, take, get_elem?,
}
use mathlib.Core.List.{reverse}
use myriadmesh_server.Base.Sort.{sort_by}
use myriadmesh_server.Node.Diagnostics.{
  InitCheckpoint, InitPhase, FailureEvent, FailureType, StartupMetadata, storage_init,
  adapter_manager_init, message_queue_init, dht_init, router_init, router_callbacks_set,
  ledger_init, network_monitor_init, failover_manager_init, heartbeat_service_init, api_server_init,
  appliance_manager_init, complete, initialization_failure, router_integration_failure,
  message_routing_failure, queue_processor_failure, network_failure, configuration_error,
  unknown_failure,
}
use myriadmesh_server.Node.Baseline.{
  BaselineConfig, DiagnosticSnapshot, TestOutcome, success_expected, init_failed,
  integration_failed, routing_failed,
}

-- a snapshot without a failure, all of whose checkpoints succeeded
abbrev pub is_successful : DiagnosticSnapshot → Bool
is_successful s =
    if is_empty s.failures
    then all_of (λ (c : InitCheckpoint). c.success) s.init_checkpoints
    else false

abbrev pub add_duration : Option StartupMetadata → List ℕ → List ℕ
add_duration none rest = rest
add_duration (some m) rest = m.total_init_duration_ms ∷ rest

unfoldable pub durations_of : List DiagnosticSnapshot → List ℕ
durations_of [] = []
durations_of (s ∷ rest) = add_duration s.startup_metadata (durations_of rest)

abbrev pub duration_or : ℕ → Option ℕ → ℕ
duration_or old none = old
duration_or old (some duration) = duration

module _ (p95 : ℕ → ℕ) where
  -- the longest duration that is accepted: that at the index, of the sorted ones
  unfoldable pub percentile : ℕ → List ℕ → ℕ
  percentile old durations =
      if is_empty durations
      then old
      else duration_or old
          (get_elem? (sort_by leb durations) (min (p95 (length durations)) (length durations - 1)))

  unfoldable pub update_from_snapshots :
      ℕ → BaselineConfig → List DiagnosticSnapshot → BaselineConfig
  unfolding percentile durations_of
  update_from_snapshots now b snapshots =
      let successful : List DiagnosticSnapshot = select is_successful snapshots in
      if is_empty successful then b else record b {
        sample_size = length successful;
        performance = record b.performance {
          max_init_duration_ms =
              percentile b.performance.max_init_duration_ms (durations_of successful);
        };
        last_updated = now;
      }

abbrev pub outcome_of : FailureType → Option TestOutcome
outcome_of initialization_failure = some init_failed
outcome_of router_integration_failure = some integration_failed
outcome_of message_routing_failure = some routing_failed
outcome_of queue_processor_failure = none
outcome_of network_failure = none
outcome_of configuration_error = none
outcome_of unknown_failure = none

abbrev pub outcome_or : Option TestOutcome → TestOutcome → TestOutcome
outcome_or none later = later
outcome_or (some outcome) later = outcome

-- the loop over the last failures
unfoldable pub first_outcome : List FailureEvent → TestOutcome
first_outcome [] = success_expected
first_outcome (f ∷ rest) = outcome_or (outcome_of f.failure_type) (first_outcome rest)

unfoldable pub determine_outcome : List FailureEvent → TestOutcome
unfolding first_outcome
determine_outcome failures = first_outcome (take 10 (reverse failures))

abbrev pub is_router_init : InitPhase → Bool
is_router_init router_init = true
is_router_init storage_init = false
is_router_init adapter_manager_init = false
is_router_init message_queue_init = false
is_router_init dht_init = false
is_router_init router_callbacks_set = false
is_router_init ledger_init = false
is_router_init network_monitor_init = false
is_router_init failover_manager_init = false
is_router_init heartbeat_service_init = false
is_router_init api_server_init = false
is_router_init appliance_manager_init = false
is_router_init complete = false

unfoldable pub generate_tags : List InitCheckpoint → List FailureEvent → List String
generate_tags checkpoints failures =
    (if any_of (λ (c : InitCheckpoint). is_router_init c.checkpoint) checkpoints
      then "router" ∷ []
      else [])
    ++ (if is_empty failures then [] else "has_failures" ∷ [])
