-- ===== src/Node/Diagnostics.antt =====
-- myriadnode-full/src/diagnostics.rs: the events, checkpoints and failures that a node records.
-- A text that is formatted is kept as the values it is formatted from, and an operation is given the
-- time that it reads.
pub mod Recent
use myriadmesh_server.Base.{
  ℕ, ◌<◌, Bool, true, false, not, ◌&&◌, ◌||◌, Option, none, some, List, [], ◌∷◌, ◌++◌, map, take,
  String, ltb, if◌then◌else◌, length, drop, mul64, select,
}
use mathlib.Core.List.{reverse}

abbrev pub max_events : ℕ
max_events = 10000

abbrev pub max_init_checkpoints : ℕ
max_init_checkpoints = 100

pub record DiagnosticsConfig : Type 0 where
  pub enabled : Bool
  pub enable_health_checks : Bool
  pub export_to_disk : Bool
  pub export_directory : Option String

unfoldable pub default_diagnostics : DiagnosticsConfig
default_diagnostics = record {
  enabled = false;
  enable_health_checks = true;
  export_to_disk = false;
  export_directory = none;
}

pub data InitPhase : Type 0 where
  storage_init adapter_manager_init message_queue_init dht_init router_init : InitPhase
  router_callbacks_set ledger_init network_monitor_init failover_manager_init : InitPhase
  heartbeat_service_init api_server_init appliance_manager_init complete : InitPhase

pub record InitCheckpoint : Type 0 where
  pub timestamp : ℕ
  pub checkpoint : InitPhase
  pub duration_ms : ℕ
  pub success : Bool
  pub error : Option String

pub data LifecycleEventType : Type 0 where
  node_starting node_ready queue_processor_started local_delivery_processor_started
        router_configured node_stopping node_stopped :
      LifecycleEventType
  message_routed : ℕ → Bool → LifecycleEventType
  queue_retry : ℕ → LifecycleEventType
  offline_cache : ℕ → LifecycleEventType

pub record LifecycleEvent : Type 0 where
  pub timestamp : ℕ
  pub event : LifecycleEventType
  pub metadata : Option String

pub data FailureType : Type 0 where
  initialization_failure router_integration_failure message_routing_failure : FailureType
  queue_processor_failure network_failure configuration_error unknown_failure : FailureType

pub record FailureEvent : Type 0 where
  pub timestamp : ℕ
  pub failure_type : FailureType
  pub context : String
  pub error : String
  pub stack_trace : Option String

pub record RouterHealthSnapshot : Type 0 where
  pub timestamp : ℕ
  pub has_local_delivery_channel : Bool
  pub has_confirmation_callback : Bool
  pub has_message_sender : Bool
  pub has_dht : Bool
  pub queue_processor_running : Bool
  pub local_delivery_processor_running : Bool
  pub messages_routed : ℕ
  pub messages_queued : ℕ
  pub messages_failed : ℕ

pub record StartupMetadata : Type 0 where
  pub session_id : String
  pub start_time : ℕ
  pub config_hash : String
  pub version : String
  pub total_init_duration_ms : ℕ

pub record DiagnosticsCollector : Type 0 where
  pub config : DiagnosticsConfig
  pub session_id : String
  pub init_checkpoints : List InitCheckpoint
  pub lifecycle_events : List LifecycleEvent
  pub failures : List FailureEvent
  pub router_health : Option RouterHealthSnapshot
  pub startup_metadata : Option StartupMetadata

-- the session is drawn at random
unfoldable pub with_config : DiagnosticsConfig → String → DiagnosticsCollector
with_config config session = record {
  config = config;
  session_id = session;
  init_checkpoints = [];
  lifecycle_events = [];
  failures = [];
  router_health = none;
  startup_metadata = none;
}

-- `push_back`, and a `pop_front` where there are more than the most
unfoldable pub push_bounded {ℓ} : {A : Type ℓ} → ℕ → List A → A → List A
push_bounded most xs x =
    if ltb most (length (xs ++ (x ∷ []))) then drop 1 (xs ++ (x ∷ [])) else xs ++ (x ∷ [])

unfoldable pub checkpoint :
    ℕ → DiagnosticsCollector → InitPhase → ℕ → Bool → Option String → DiagnosticsCollector
unfolding push_bounded
checkpoint now c phase duration_ms success error = if not c.config.enabled then c else record c {
  init_checkpoints = push_bounded max_init_checkpoints c.init_checkpoints (record {
    timestamp = now;
    checkpoint = phase;
    duration_ms = duration_ms;
    success = success;
    error = error;
  });
}

unfoldable pub event :
    ℕ → DiagnosticsCollector → LifecycleEventType → Option String → DiagnosticsCollector
unfolding push_bounded
event now c kind metadata = if not c.config.enabled then c else record c {
  lifecycle_events =
      push_bounded max_events c.lifecycle_events
        (record { timestamp = now; event = kind; metadata = metadata });
}

unfoldable pub failure :
    ℕ → DiagnosticsCollector → FailureType → String → String → DiagnosticsCollector
unfolding push_bounded
failure now c kind context error = record c {
  failures = push_bounded max_events c.failures (record {
    timestamp = now;
    failure_type = kind;
    context = context;
    error = error;
    stack_trace = none;
  });
}

unfoldable pub update_router_health :
    DiagnosticsCollector → RouterHealthSnapshot → DiagnosticsCollector
update_router_health c health = record c { router_health = some health }

unfoldable pub set_startup_metadata : DiagnosticsCollector → StartupMetadata → DiagnosticsCollector
set_startup_metadata c metadata = record c { startup_metadata = some metadata }

unfoldable pub get_lifecycle_events : DiagnosticsCollector → ℕ → List LifecycleEvent
get_lifecycle_events c limit = take limit (reverse c.lifecycle_events)

unfoldable pub get_failures : DiagnosticsCollector → ℕ → List FailureEvent
get_failures c limit = take limit (reverse c.failures)

-- A test case, by the event that it is generated from.
pub data GeneratedTestCase : Type 0 where
  init_case : InitPhase → ℕ → GeneratedTestCase
  router_case : ℕ → GeneratedTestCase
  routing_case : String → String → ℕ → GeneratedTestCase

abbrev pub is_routing_failure : FailureType → Bool
is_routing_failure message_routing_failure = true
is_routing_failure initialization_failure = false
is_routing_failure router_integration_failure = false
is_routing_failure queue_processor_failure = false
is_routing_failure network_failure = false
is_routing_failure configuration_error = false
is_routing_failure unknown_failure = false

abbrev pub is_incomplete : RouterHealthSnapshot → Bool
is_incomplete h =
    not h.has_local_delivery_channel || not h.has_confirmation_callback || not h.has_message_sender

abbrev pub router_cases : Option RouterHealthSnapshot → List GeneratedTestCase
router_cases none = []
router_cases (some h) = if is_incomplete h then router_case h.timestamp ∷ [] else []

unfoldable pub generate_regression_tests : DiagnosticsCollector → List GeneratedTestCase
generate_regression_tests c =
    map (λ (p : InitCheckpoint). init_case p.checkpoint p.timestamp)
      (select (λ (p : InitCheckpoint). not p.success) c.init_checkpoints)
    ++ (router_cases c.router_health
        ++ map (λ (f : FailureEvent). routing_case f.error f.context f.timestamp)
            (select (λ (f : FailureEvent). is_routing_failure f.failure_type) c.failures))

pub record DiagnosticsExport : Type 0 where
  pub init_checkpoints : List InitCheckpoint
  pub recent_events : List LifecycleEvent
  pub failures : List FailureEvent
  pub router_health : Option RouterHealthSnapshot
  pub startup_metadata : Option StartupMetadata

unfoldable pub export_for_tests : DiagnosticsCollector → DiagnosticsExport
unfolding get_lifecycle_events
export_for_tests c = record {
  init_checkpoints = c.init_checkpoints;
  recent_events = get_lifecycle_events c 100;
  failures = c.failures;
  router_health = c.router_health;
  startup_metadata = c.startup_metadata;
}

pub record DiagnosticsBaseline : Type 0 where
  pub max_init_duration_ms : ℕ
  pub max_failures_per_100_events : ℕ
  pub require_complete_router_integration : Bool
  pub require_queue_processor : Bool
  pub require_local_delivery_processor : Bool

pub data Severity : Type 0 where
  info warning critical : Severity

-- the message of an alert, by the values that it shows
pub data AlertMessage : Type 0 where
  slow_start : ℕ → ℕ → AlertMessage
  failure_rate : ℕ → ℕ → AlertMessage
  router_incomplete queue_not_running : AlertMessage

pub record RegressionAlert : Type 0 where
  pub severity : Severity
  pub category : String
  pub message : AlertMessage

abbrev pub alert : Severity → String → AlertMessage → RegressionAlert
alert severity category message = record {
  severity = severity;
  category = category;
  message = message;
}

abbrev pub start_alerts : DiagnosticsBaseline → Option StartupMetadata → List RegressionAlert
start_alerts b none = []
start_alerts b (some m) =
    if ltb (mul64 b.max_init_duration_ms 2) m.total_init_duration_ms
    then alert warning "Performance" (slow_start m.total_init_duration_ms b.max_init_duration_ms)
      ∷ []
    else []

abbrev pub health_alerts : DiagnosticsBaseline → Option RouterHealthSnapshot → List RegressionAlert
health_alerts b none = []
health_alerts b (some h) =
    (if b.require_complete_router_integration && is_incomplete h
      then alert critical "Integration" router_incomplete ∷ []
      else [])
    ++ (if not h.queue_processor_running && b.require_queue_processor
        then alert critical "Lifecycle" queue_not_running ∷ []
        else [])

unfoldable pub detect_regressions :
    DiagnosticsCollector → DiagnosticsBaseline → List RegressionAlert
detect_regressions c b =
    let recent = length (take 100 (reverse c.failures)) in
    start_alerts b c.startup_metadata
    ++ ((if ltb b.max_failures_per_100_events recent
          then alert critical "Reliability" (failure_rate recent b.max_failures_per_100_events) ∷ []
          else [])
        ++ health_alerts b c.router_health)
