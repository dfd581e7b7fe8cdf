-- ===== src/Examples/Nodes.antt =====
-- The theorems on the adapters and the heartbeats of a node, at a few adapters and one heartbeat.
use mathlib.Core.List.{Perm}
use mathlib.Core.Option.{some-injective}
use myriadmesh_server.Base.{
  ℕ, ◌+◌, ◌≤◌, ◌≡◌, refl, ap, Bool, true, false, some, none, Option, List, [], ◌∷◌, map, arith,
  length, replicate, String, ◌==◌, string_eq, leb,
}
use myriadmesh_server.Base.Bytes.{bytes_eq, bytes_beq}
use myriadmesh_server.Base.Map.{get, insert}
use myriadmesh_server.Base.Sort.{IsSorted, sort_by}
use myriadmesh_server.Base.Result.{ok}
use myriadmesh_server.Node.Scoring.{
  AdapterMetrics, AdapterScore, AdapterScorer, calculate_score, rank_adapters, ranks_before,
}
use myriadmesh_server.Node.Scoring.Ranking.{rank_adapters-IsSorted}
use myriadmesh_server.Node.Failover.{
  AdapterHealth, AdapterView, FailoverConfig, FailoverState, healthy, low, check_and_failover,
  check_adapters,
}
use myriadmesh_server.Node.Failover.Primary.{NearBest, ranking, check_and_failover-NearBest}
use myriadmesh_server.Node.Heartbeat.{
  Wire, HeartbeatMessage, HeartbeatRateLimiter, HeartbeatService, NodeInfo, check_heartbeat,
  generate_heartbeat, handle_heartbeat, limiter_allow, permitted,
}
use myriadmesh_server.Node.Heartbeat.Limiter.{run_limiter, allowed_apart}
use myriadmesh_server.Node.Heartbeat.Handling.{Known, handle_heartbeat-Known}
use myriadmesh_server.Node.Heartbeat.Exchange.{OwnsKeys, generated_accepted}
use myriadmesh_server.Examples.Codes.{toy_hash}
use myriadmesh_server.Examples.Numbers.{halves, halves-IsStrict}

abbrev fast : AdapterMetrics
fast = record {
  latency_ms = 20;
  bandwidth_bps = 50_000_000;
  reliability = 2;
  power_consumption = 1;
  privacy_level = 1;
}

abbrev slow : AdapterMetrics
slow = record fast { latency_ms = 1900; reliability = 0 }

abbrev scorer : AdapterScorer
scorer = record {
  weights = record { latency = 2; bandwidth = 2; reliability = 2; power = 2; privacy = 2 };
  max_bandwidth_bps = 100_000_000;
  max_latency_ms = 2000;
}

rank_adapters-IsSorted_example :
    IsSorted (ranks_before halves) (rank_adapters halves scorer (("b", slow) ∷ ("a", fast) ∷ []))
    × Perm (rank_adapters halves scorer (("b", slow) ∷ ("a", fast) ∷ [])) (
        map
          (λ (e : String × AdapterMetrics). calculate_score halves scorer e.0 e.1)
          (("b", slow) ∷ ("a", fast) ∷ []))
rank_adapters-IsSorted_example =
    rank_adapters-IsSorted halves halves-IsStrict (λ x y z n h k. ground (arith, h, k)) scorer
      (("b", slow) ∷ ("a", fast) ∷ []) (refl, (refl, tt))

-- A baseline of 10 ms and a last latency of 100 ms, where five times the baseline is allowed.
abbrev strained : AdapterHealth
strained = record {
  adapter_id = "a";
  status = healthy;
  consecutive_failures = 0;
  last_check = 0;
  current_metrics = some (record fast { latency_ms = 200 });
  baseline_latency = some 20;
}

abbrev three_checks : List (ℕ × AdapterMetrics)
three_checks = (30, fast) ∷ (20, fast) ∷ (10, fast) ∷ []

abbrev config : FailoverConfig
config = record {
  auto_failover = true;
  latency_threshold_multiplier = 10;
  loss_threshold = 1;
  retry_attempts = 3;
}

abbrev up : Bool → AdapterView
up ready = record {
  ready = ready;
  status_text = "Error";
  has_metrics = true;
  typical_latency_ms = 20;
  typical_bandwidth_bps = 50_000_000;
  reliability = 2;
  power_consumption = low;
}

-- "a" is the primary adapter and down, "b" is ready.
abbrev one_up : String → Option AdapterView
one_up id = some (up (id == "b"))

abbrev on_a : FailoverState
on_a = record { adapter_health = []; current_primary = some "a"; event_log = [] }

abbrev all_up : String → Option AdapterView
all_up id = some (up true)

check_and_failover-NearBest_example :
    (best : AdapterScore) × (others : List AdapterScore) × (p : String) × (ranking halves config 7
        all_up scorer
        ("a" ∷ "b" ∷ [])
        on_a
      ≡ best ∷ others)
    × ((check_and_failover halves config scorer 7 all_up ("a" ∷ "b" ∷ []) on_a).current_primary
        ≡ some p)
    × NearBest halves (best ∷ others) best (some "a") p
unfolding rank_adapters check_adapters sort_by insert get
check_and_failover-NearBest_example =
    check_and_failover-NearBest halves config 7 all_up scorer ("a" ∷ "b" ∷ []) on_a (omega arith)

abbrev limiter : HeartbeatRateLimiter
limiter = record { last_received = []; min_interval = 30; max_per_second = 100; recent = [] }

allowed_apart_example : 5 + 30 ≤ 40
unfolding limiter_allow run_limiter get insert bytes_beq
allowed_apart_example =
    allowed_apart limiter (1 ∷ []) 5 40 ((9, 2 ∷ []) ∷ []) refl (omega arith, tt) (omega arith) refl

-- A signature is 64 bytes whatever is signed.
abbrev wire : Wire
wire = record {
  blake2b = toy_hash;
  be_bytes = λ n. n ∷ [];
  adapters_json = λ adapters. some [];
  geo_json = λ geo. some [];
  is_key = λ key. true;
  verify_signature = λ key message signature. leb 64 (length signature);
  sign_message = λ message. some (replicate 64 7);
  own_key = replicate 32 3;
}

abbrev service : HeartbeatService
service = record {
  config = record {
    enabled = true;
    interval_secs = 60;
    timeout_secs = 300;
    include_geolocation = false;
    store_remote_geolocation = false;
    max_nodes = 1000;
  };
  local_node_id = toy_hash (replicate 32 3);
  node_map = [];
  rate_limiter = limiter;
}

service-OwnsKeys : OwnsKeys wire service
service-OwnsKeys = record {
  derived = refl;
  key_length = refl;
  valid_key = refl;
  signs = λ message signature signed. ground (arith, ap length (some-injective _ _ signed));
}

abbrev beat : HeartbeatMessage
beat = record {
  node_id = toy_hash (replicate 32 3);
  timestamp = 1000;
  adapters = [];
  geolocation = none;
  public_key = replicate 32 3;
  signature = replicate 64 7;
}

generated_accepted_example :
    (check_heartbeat wire 1100 beat ≡ ok tt)
    × (beat.node_id ≡ service.local_node_id)
    × (beat.adapters ≡ [])
    × (beat.geolocation ≡ permitted false none)
unfolding generate_heartbeat
generated_accepted_example =
    generated_accepted wire 1000 1100 service [] none beat service-OwnsKeys refl (omega arith)
      (omega arith) (omega arith) (omega arith)

handle_heartbeat-Known_example :
    Known wire 1100 service beat (handle_heartbeat wire 1100 5 service beat).1 beat.node_id
handle_heartbeat-Known_example =
    handle_heartbeat-Known wire 1100 5 service beat beat.node_id (omega arith) (omega arith)
      (omega arith)

abbrev ahead : NodeInfo
ahead = record {
  node_id = 1 ∷ [];
  last_seen = 1001;
  adapters = [];
  geolocation = none;
  heartbeat_count = 1;
}

abbrev knows_ahead : HeartbeatService
knows_ahead = record service { node_map = (1 ∷ [], ahead) ∷ [] }
