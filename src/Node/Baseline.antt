-- ===== src/Node/Baseline.antt =====
-- myriadnode-full/src/diagnostics/baseline.rs and the data of
-- myriadnode-full/src/diagnostics/test_data.rs: snapshots, baselines and reports. The explanation of a
-- violation, a text that is formatted from its other values, is left out.
pub mod Analysis
pub mod Verdict
pub mod Samples
use myriadmesh_server.Base.{
  ℕ, ◌+◌, ◌<◌, Bool, true, false, not, ◌&&◌, ◌||◌, Option, none, some, List, [], ◌∷◌, ◌++◌, map,
  String, ltb, leb, eqb, if◌then◌else◌, length, mul64, select, any_of, all_of, ◌==◌, string_eq,
  is_empty,
}
use myriadmesh_server.Base.Double.{F64}
use myriadmesh_server.Base.Map.{Map, get, insert}
use myriadmesh_server.Base.Sets.{contains}
use myriadmesh_server.Node.Diagnostics.{
  InitPhase, InitCheckpoint, FailureType, FailureEvent, LifecycleEvent, RouterHealthSnapshot,
  StartupMetadata, storage_init, adapter_manager_init, message_queue_init, dht_init, router_init,
  router_callbacks_set, ledger_init, network_monitor_init, failover_manager_init,
  heartbeat_service_init, api_server_init, appliance_manager_init, complete, initialization_failure,
  router_integration_failure, message_routing_failure, queue_processor_failure, network_failure,
  configuration_error, unknown_failure,
}

pub data TestOutcome : Type 0 where
  success_expected init_failed integration_failed routing_failed regressed : TestOutcome

pub record SnapshotMetadata : Type 0 where
  pub description : String
  pub scenario : String
  pub expected_outcome : TestOutcome
  pub tags : List String

pub record DiagnosticSnapshot : Type 0 where
  pub captured_at : ℕ
  pub session_id : String
  pub init_checkpoints : List InitCheckpoint
  pub lifecycle_events : List LifecycleEvent
  pub failures : List FailureEvent
  pub router_health : Option RouterHealthSnapshot
  pub startup_metadata : Option StartupMetadata
  pub metadata : SnapshotMetadata

pub record PerformanceBaseline : Type 0 where
  pub max_init_duration_ms : ℕ
  pub max_phase_durations : Map String ℕ
  pub baseline_date : ℕ
  pub version : String

unfoldable pub default_performance : ℕ → String → PerformanceBaseline
default_performance now version = record {
  max_init_duration_ms = 5000;
  max_phase_durations =
      ("StorageInit", 100)
      ∷ ("RouterInit", 50)
      ∷ ("RouterCallbacksSet", 10)
      ∷ ("DhtInit", 200)
      ∷ ("LedgerInit", 500)
      ∷ ("Complete", 5000)
      ∷ [];
  baseline_date = now;
  version = version;
}

pub record ReliabilityBaseline : Type 0 where
  pub max_failures_per_100 : ℕ
  pub zero_tolerance_failures : List String
  pub acceptable_failures : Map String ℕ

unfoldable pub default_reliability : ReliabilityBaseline
default_reliability = record {
  max_failures_per_100 = 5;
  zero_tolerance_failures = "InitializationFailure" ∷ "RouterIntegrationFailure" ∷ [];
  acceptable_failures = ("NetworkFailure", 10) ∷ ("ConfigurationError", 0) ∷ [];
}

pub record IntegrationBaseline : Type 0 where
  pub require_complete_router_integration : Bool
  pub require_queue_processor : Bool
  pub require_local_delivery_processor : Bool
  pub required_lifecycle_sequence : List String
  pub required_init_phases : List String

unfoldable pub default_integration : IntegrationBaseline
default_integration = record {
  require_complete_router_integration = true;
  require_queue_processor = true;
  require_local_delivery_processor = true;
  required_lifecycle_sequence = "NodeStarting" ∷ "QueueProcessorStarted" ∷ "NodeReady" ∷ [];
  required_init_phases = "StorageInit" ∷ "RouterInit" ∷ "RouterCallbacksSet" ∷ "Complete" ∷ [];
}

pub record BaselineConfig : Type 0 where
  pub performance : PerformanceBaseline
  pub reliability : ReliabilityBaseline
  pub integration : IntegrationBaseline
  pub last_updated : ℕ
  pub sample_size : ℕ

unfoldable pub default_baseline : ℕ → String → BaselineConfig
unfolding default_performance default_reliability default_integration
default_baseline now version = record {
  performance = default_performance now version;
  reliability = default_reliability;
  integration = default_integration;
  last_updated = now;
  sample_size = 1;
}

pub data Severity : Type 0 where
  info warning critical : Severity

abbrev pub is_critical : Severity → Bool
is_critical info = false
is_critical warning = false
is_critical critical = true

abbrev pub is_warning : Severity → Bool
is_warning info = false
is_warning warning = true
is_warning critical = false

pub data Metric : Type 0 where
  total_init_duration : Metric
  phase_duration : String → Metric

pub record PerformanceViolation : Type 0 where
  pub metric : Metric
  pub actual_value : F64
  pub baseline_value : F64
  pub severity : Severity

pub record ReliabilityViolation : Type 0 where
  pub failure_type : String
  pub count : ℕ
  pub baseline_max : ℕ
  pub severity : Severity

pub record IntegrationViolation : Type 0 where
  pub component : String
  pub issue : String
  pub phase : Option String
  pub severity : Severity

pub record RegressionSummary : Type 0 where
  pub total_violations : ℕ
  pub critical_violations : ℕ
  pub warning_violations : ℕ
  pub snapshots_analyzed : ℕ
  pub baseline_version : String

pub record RegressionReport : Type 0 where
  pub passed : Bool
  pub performance_violations : List PerformanceViolation
  pub reliability_violations : List ReliabilityViolation
  pub integration_violations : List IntegrationViolation
  pub summary : RegressionSummary

-- `{:?}` of a phase and of a type of failure
unfoldable pub phase_name : InitPhase → String
phase_name storage_init = "StorageInit"
phase_name adapter_manager_init = "AdapterManagerInit"
phase_name message_queue_init = "MessageQueueInit"
phase_name dht_init = "DhtInit"
phase_name router_init = "RouterInit"
phase_name router_callbacks_set = "RouterCallbacksSet"
phase_name ledger_init = "LedgerInit"
phase_name network_monitor_init = "NetworkMonitorInit"
phase_name failover_manager_init = "FailoverManagerInit"
phase_name heartbeat_service_init = "HeartbeatServiceInit"
phase_name api_server_init = "ApiServerInit"
phase_name appliance_manager_init = "ApplianceManagerInit"
phase_name complete = "Complete"

unfoldable pub failure_name : FailureType → String
failure_name initialization_failure = "InitializationFailure"
failure_name router_integration_failure = "RouterIntegrationFailure"
failure_name message_routing_failure = "MessageRoutingFailure"
failure_name queue_processor_failure = "QueueProcessorFailure"
failure_name network_failure = "NetworkFailure"
failure_name configuration_error = "ConfigurationError"
failure_name unknown_failure = "Unknown"
