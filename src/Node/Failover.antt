-- ===== src/Node/Failover.antt =====
-- myriadnode-full/src/failover.rs: the check of the adapters and the choice of the primary one.
pub mod Degraded
pub mod Primary
use myriadmesh_server.Base.{
  ℕ, ◌+◌, ◌-◌, ◌%◌, Bool, true, false, not, ◌&&◌, ◌||◌, Option, none, some, List, [], ◌∷◌, ◌++◌,
  map, String, ltb, leb, eqb, if◌then◌else◌, length, drop, take, u32_mod, ◌==◌, string_eq,
}
use Prim.Native.String.{find, len}
use mathlib.Core.List.{reverse}
use myriadmesh_server.Base.Double.{Double, F64}
use myriadmesh_server.Base.Map.{Map, get, insert, contains_key}
use myriadmesh_server.Base.Result.{Result, ok, err}
use myriadmesh_server.Node.Scoring.{AdapterMetrics, AdapterScore, AdapterScorer, rank_adapters}
pub use myriadmesh_server.Node.Health.{
  FailoverConfig, FailoverEvent, adapter_switch, threshold_violation, adapter_down,
  adapter_recovered, HealthStatus, healthy, degraded, failed, AdapterHealth, PowerConsumption,
  no_power, very_low, low, medium, high, very_high, AdapterView, FailoverState, str_contains,
  health_or_new, has_failed, name_or_none, log_if, moving_average, exceeds,
}
unfoldable pub use myriadmesh_server.Node.Health.{
  new_health, record_failure, new_state, log_event, score_of, record_success, is_latency_degraded,
}

-- the tables and the log, while the adapters are checked
pub record Checks : Type 0 where
  pub health_map : Map String AdapterHealth
  pub log : List FailoverEvent
  pub all_metrics : Map String AdapterMetrics

-- an adapter that is not ready
unfoldable pub check_unready : ℕ → String → AdapterHealth → AdapterView → Checks → Checks
unfolding record_failure log_event
check_unready now id h a c =
    let h' : AdapterHealth = record_failure now h in
    record c {
      health_map = insert c.health_map id h';
      log = if has_failed h'.status then log_event c.log (adapter_down id a.status_text) else c.log;
    }

module _ (d : Double) where
  unfoldable pub estimate_privacy_level : String → F64
  estimate_privacy_level id =
      if str_contains id "i2p"
      then d.lit 95 100
      else if str_contains id "bluetooth" && not (str_contains id "_le")
      then d.lit 85 100
      else if str_contains id "bluetooth_le"
      then d.lit 70 100
      else if str_contains id "ethernet" || str_contains id "wifi"
      then d.lit 15 100
      else if str_contains id "cellular"
      then d.lit 10 100
      else d.lit 50 100

  abbrev pub power_of : PowerConsumption → F64
  power_of no_power = d.lit 0 1
  power_of very_low = d.lit 1 10
  power_of low = d.lit 3 10
  power_of medium = d.lit 5 10
  power_of high = d.lit 7 10
  power_of very_high = d.lit 9 10

  unfoldable pub metrics_of : String → AdapterView → AdapterMetrics
  unfolding estimate_privacy_level
  metrics_of id a = record {
    latency_ms = a.typical_latency_ms;
    bandwidth_bps = a.typical_bandwidth_bps;
    reliability = a.reliability;
    power_consumption = if a.has_metrics then power_of a.power_consumption else d.lit 5 10;
    privacy_level = estimate_privacy_level id;
  }

  abbrev pub baseline_or_nought : Option F64 → F64
  baseline_or_nought none = d.lit 0 1
  baseline_or_nought (some baseline) = baseline

  -- a check of an adapter that is ready: its health, and the event, if it is one
  unfoldable pub check_ready :
      F64 → ℕ → String → AdapterHealth → AdapterMetrics → AdapterHealth × Option FailoverEvent
  unfolding is_latency_degraded record_failure record_success
  check_ready multiplier now id h metrics =
      if is_latency_degraded d h multiplier
      then (
        record_failure now h,
        some (
            threshold_violation id metrics.latency_ms
              (d.mul (baseline_or_nought h.baseline_latency) multiplier)),
      )
      else (record_success d now h metrics, none)

  -- what `get_adapter` has found
  abbrev pub check_found :
      FailoverConfig → ℕ → String → AdapterHealth → Option AdapterView → Checks → Checks
  check_found config now id h none c = record c { health_map = insert c.health_map id h }
  check_found config now id h (some a) c =
      if a.ready
      then (let metrics : AdapterMetrics = metrics_of id a in
          let r : AdapterHealth × Option FailoverEvent =
            check_ready config.latency_threshold_multiplier now id h metrics in
          record {
            health_map = insert c.health_map id r.0;
            log = log_if c.log r.1;
            all_metrics = insert c.all_metrics id metrics;
          })
      else check_unready now id h a c

  unfoldable pub check_adapters :
      FailoverConfig → ℕ → (String → Option AdapterView) → List String → Checks → Checks
  unfolding check_ready check_unready metrics_of new_health log_event
  check_adapters config now view [] c = c
  check_adapters config now view (id ∷ rest) c =
      check_adapters config now view rest
        (check_found config now id (health_or_new now id (get c.health_map id)) (view id) c)

  -- more than ten per cent better than the current one, which is ranked at all
  abbrev pub better_than : F64 → Option F64 → Bool
  better_than best none = true
  better_than best (some current) = d.lt (d.mul current (d.lit 110 100)) best

  abbrev pub should_switch : List AdapterScore → AdapterScore → Option String → Bool
  should_switch scores best none = true
  should_switch scores best (some current) = better_than best.total_score (score_of scores current)

  abbrev pub choose_primary : List AdapterScore → FailoverState → FailoverState
  choose_primary [] s = s
  choose_primary (best ∷ others) s =
      if should_switch (best ∷ others) best s.current_primary
      then record s {
        current_primary = some best.adapter_id;
        event_log = log_event s.event_log (
            adapter_switch (name_or_none s.current_primary) best.adapter_id
              (some best.total_score));
      }
      else s

  unfoldable pub check_and_failover :
      FailoverConfig
      → AdapterScorer
      → ℕ
      → (String → Option AdapterView)
      → List String
      → FailoverState
      → FailoverState
  unfolding check_adapters score_of log_event
  check_and_failover config scorer now view ids s =
      let c : Checks =
        check_adapters config now view ids
          (record { health_map = s.adapter_health; log = s.event_log; all_metrics = [] }) in
      let checked : FailoverState = record s { adapter_health = c.health_map; event_log = c.log } in
      if ltb (length c.all_metrics) 2
      then checked
      else choose_primary (rank_adapters d scorer c.all_metrics) checked

unfoldable pub get_recent_events : FailoverState → ℕ → List FailoverEvent
get_recent_events s count = take count (reverse s.event_log)

abbrev pub force_found :
    String → FailoverState → Option AdapterView → Result String (Unit {0}) × FailoverState
force_found id s none = (err id, s)
force_found id s (some a) = (
  ok tt,
  record s {
    current_primary = some id;
    event_log = log_event s.event_log (adapter_switch (name_or_none s.current_primary) id none);
  },
)

unfoldable pub force_failover :
    (String → Option AdapterView)
    → String
    → FailoverState
    → Result String (Unit {0}) × FailoverState
unfolding log_event
force_failover view id s = force_found id s (view id)

unfoldable pub get_adapter_health : FailoverState → Map String HealthStatus
get_adapter_health s = map (λ e. (e.0, e.1.status)) s.adapter_health
