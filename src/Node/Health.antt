-- ===== src/Node/Health.antt =====
-- myriadnode-full/src/failover.rs: the health of adapters and the log of events. The arithmetic of
-- doubles is a parameter, a 32-bit float is kept as the double that it widens to, and an operation
-- is given the time that it reads. `AdapterView` is what the adapter manager of the network crate
-- shows of an adapter.
use myriadmesh_server.Base.{
  ℕ, ◌+◌, ◌-◌, ◌%◌, Bool, true, false, Option, none, some, List, [], ◌∷◌, ◌++◌, String, ltb, leb,
  if◌then◌else◌, length, drop, u32_mod, ◌==◌, string_eq,
}
use Prim.Native.String.{find, len}
use myriadmesh_server.Base.Double.{Double, F64}
use myriadmesh_server.Base.Map.{Map}
use myriadmesh_server.Node.Scoring.{AdapterMetrics, AdapterScore}

pub record FailoverConfig : Type 0 where
  pub auto_failover : Bool
  pub latency_threshold_multiplier : F64
  pub loss_threshold : F64
  pub retry_attempts : ℕ

-- The reason of a switch is the score of the adapter, or none where it was forced.
pub data FailoverEvent : Type 0 where
  adapter_switch : String → String → Option F64 → FailoverEvent
  threshold_violation : String → F64 → F64 → FailoverEvent
  adapter_down : String → String → FailoverEvent
  adapter_recovered : String → FailoverEvent

pub data HealthStatus : Type 0 where
  healthy degraded failed : HealthStatus

pub record AdapterHealth : Type 0 where
  pub adapter_id : String
  pub status : HealthStatus
  pub consecutive_failures : ℕ
  pub last_check : ℕ
  pub current_metrics : Option AdapterMetrics
  pub baseline_latency : Option F64

unfoldable pub new_health : ℕ → String → AdapterHealth
new_health now id = record {
  adapter_id = id;
  status = healthy;
  consecutive_failures = 0;
  last_check = now;
  current_metrics = none;
  baseline_latency = none;
}

unfoldable pub record_failure : ℕ → AdapterHealth → AdapterHealth
record_failure now h =
    let failures : ℕ = (h.consecutive_failures + 1) % u32_mod in
    record h {
      consecutive_failures = failures;
      last_check = now;
      status = if leb 3 failures then failed else if leb 1 failures then degraded else h.status;
    }

pub data PowerConsumption : Type 0 where
  no_power very_low low medium high very_high : PowerConsumption

pub record AdapterView : Type 0 where
  pub ready : Bool
  pub status_text : String
  pub has_metrics : Bool
  pub typical_latency_ms : F64
  pub typical_bandwidth_bps : ℕ
  pub reliability : F64
  pub power_consumption : PowerConsumption

pub record FailoverState : Type 0 where
  pub adapter_health : Map String AdapterHealth
  pub current_primary : Option String
  pub event_log : List FailoverEvent

unfoldable pub new_state : FailoverState
new_state = record { adapter_health = []; current_primary = none; event_log = [] }

-- the last hundred events
unfoldable pub log_event : List FailoverEvent → FailoverEvent → List FailoverEvent
log_event log event =
    let longer : List FailoverEvent = log ++ (event ∷ []) in
    if ltb 100 (length longer) then drop (length longer - 100) longer else longer

-- `contains`, of a text
abbrev pub str_contains : String → String → Bool
str_contains s part = leb (find s part) (len s)

abbrev pub health_or_new : ℕ → String → Option AdapterHealth → AdapterHealth
health_or_new now id none = new_health now id
health_or_new now id (some h) = h

abbrev pub has_failed : HealthStatus → Bool
has_failed failed = true
has_failed degraded = false
has_failed healthy = false

abbrev pub name_or_none : Option String → String
name_or_none none = "none"
name_or_none (some id) = id

-- the score of an adapter among those that are ranked
unfoldable pub score_of : List AdapterScore → String → Option F64
score_of [] id = none
score_of (s ∷ rest) id = if s.adapter_id == id then some s.total_score else score_of rest id

abbrev pub log_if : List FailoverEvent → Option FailoverEvent → List FailoverEvent
log_if log none = log
log_if log (some event) = log_event log event

module _ (d : Double) where
  abbrev pub moving_average : Option F64 → F64 → F64
  moving_average none latency = latency
  moving_average (some baseline) latency =
      d.add (d.mul baseline (d.lit 9 10)) (d.mul latency (d.lit 1 10))

  unfoldable pub record_success : ℕ → AdapterHealth → AdapterMetrics → AdapterHealth
  record_success now h metrics = record h {
    consecutive_failures = 0;
    status = healthy;
    last_check = now;
    baseline_latency = some (moving_average h.baseline_latency metrics.latency_ms);
    current_metrics = some metrics;
  }

  abbrev pub exceeds : F64 → Option F64 → Option AdapterMetrics → Bool
  exceeds multiplier (some baseline) (some metrics) =
      d.lt (d.mul baseline multiplier) metrics.latency_ms
  exceeds multiplier (some baseline) none = false
  exceeds multiplier none metrics = false

  unfoldable pub is_latency_degraded : AdapterHealth → F64 → Bool
  is_latency_degraded h multiplier = exceeds multiplier h.baseline_latency h.current_metrics
