-- ===== src/Node/Beats.antt =====
-- myriadnode-full/src/heartbeat.rs: heartbeats, what is kept of the nodes they come from and the
-- limit on their rate. The clock of the day counts seconds in words that wrap; the monotonic clock
-- of the limiter counts nanoseconds. An operation is given the times that it reads.
use myriadmesh_server.Base.{
  ℕ, ◌-◌, ◌*◌, Bool, true, false, Option, none, some, List, [], ◌∷◌, ◌++◌, String, ltb, leb,
  if◌then◌else◌, length, add64, sub64, string_eq,
}
use myriadmesh_server.Base.Bytes.{Bytes, bytes_eq}
use myriadmesh_server.Base.Double.{F64}
use myriadmesh_server.Base.Map.{Map, get, insert}
use myriadmesh_server.Ledger.Entry.{NodeId}

pub record AdapterInfo : Type 0 where
  pub adapter_id : String
  pub adapter_type : String
  pub active : Bool
  pub is_backhaul : Bool
  pub bandwidth_bps : ℕ
  pub latency_ms : ℕ
  pub reliability : F64
  pub privacy_level : F64

pub record GeolocationData : Type 0 where
  pub latitude : F64
  pub longitude : F64
  pub accuracy_meters : F64
  pub country_code : Option String
  pub city : Option String

pub record HeartbeatMessage : Type 0 where
  pub node_id : NodeId
  pub timestamp : ℕ
  pub adapters : List AdapterInfo
  pub geolocation : Option GeolocationData
  pub public_key : Bytes
  pub signature : Bytes

pub record NodeInfo : Type 0 where
  pub node_id : NodeId
  pub last_seen : ℕ
  pub adapters : List AdapterInfo
  pub geolocation : Option GeolocationData
  pub heartbeat_count : ℕ

unfoldable pub new_info : ℕ → NodeId → NodeInfo
new_info now node = record {
  node_id = node;
  last_seen = now;
  adapters = [];
  geolocation = none;
  heartbeat_count = 0;
}

unfoldable pub update_from_heartbeat : NodeInfo → HeartbeatMessage → NodeInfo
update_from_heartbeat info h = record info {
  last_seen = h.timestamp;
  adapters = h.adapters;
  geolocation = h.geolocation;
  heartbeat_count = add64 info.heartbeat_count 1;
}

-- in wrapping arithmetic
unfoldable pub is_stale : ℕ → ℕ → NodeInfo → Bool
is_stale now timeout info = ltb timeout (sub64 now info.last_seen)

pub record HeartbeatConfig : Type 0 where
  pub enabled : Bool
  pub interval_secs : ℕ
  pub timeout_secs : ℕ
  pub include_geolocation : Bool
  pub store_remote_geolocation : Bool
  pub max_nodes : ℕ

unfoldable pub default_config : HeartbeatConfig
default_config = record {
  enabled = true;
  interval_secs = 60;
  timeout_secs = 300;
  include_geolocation = false;
  store_remote_geolocation = false;
  max_nodes = 1000;
}

abbrev pub NodeMap : Type 0
NodeMap = Map NodeId NodeInfo

-- a second, in nanoseconds
abbrev pub second : ℕ
second = 1_000_000_000

pub record HeartbeatRateLimiter : Type 0 where
  pub last_received : Map NodeId ℕ
  pub min_interval : ℕ
  pub max_per_second : ℕ
  pub recent : List ℕ

unfoldable pub new_limiter : ℕ → ℕ → HeartbeatRateLimiter
new_limiter min_interval_secs max_per_second = record {
  last_received = [];
  min_interval = min_interval_secs * second;
  max_per_second = max_per_second;
  recent = [];
}

-- pops times of more than a second ago from the front
unfoldable pub pop_old : ℕ → List ℕ → List ℕ
pop_old now [] = []
pop_old now (front ∷ rest) =
    let later : List ℕ = pop_old now rest in
    if ltb second (now - front) then later else front ∷ rest

abbrev pub too_soon : ℕ → ℕ → Option ℕ → Bool
too_soon now interval none = false
too_soon now interval (some last) = ltb (now - last) interval

unfoldable pub limiter_allow : ℕ → HeartbeatRateLimiter → NodeId → Bool × HeartbeatRateLimiter
unfolding pop_old
limiter_allow now r node =
    if too_soon now r.min_interval (get r.last_received node)
    then (false, r)
    else (let recent : List ℕ = pop_old now r.recent in
        if leb r.max_per_second (length recent) then (false, record r { recent = recent }) else (
          true,
          record r {
            last_received = insert r.last_received node now;
            recent = recent ++ (now ∷ []);
          },
        ))
