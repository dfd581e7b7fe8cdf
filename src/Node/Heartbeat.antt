-- ===== src/Node/Heartbeat.antt =====
-- myriadnode-full/src/heartbeat.rs: the service that signs and checks heartbeats and keeps the map of
-- the nodes they come from.
pub mod Queries
pub mod Limiter
pub mod Handling
pub mod Exchange
use myriadmesh_server.Base.{
  ℕ, ◌+◌, ◌-◌, ◌*◌, ◌^◌, u64_mod, Bool, true, false, not, ◌&&◌, ◌||◌, Option, none, some, List, [],
  ◌∷◌, ◌++◌, map, String, ltb, leb, eqb, if◌then◌else◌, length, is_empty, is_some, add64, sub64,
  select, any_of, all_of, ◌==◌, string_eq,
}
use myriadmesh_server.Base.Bytes.{Bytes, bytes_eq}
use myriadmesh_server.Base.Double.{Double, F64}
use myriadmesh_server.Base.Map.{Map, values, keys, get, insert, retain, contains_key}
use myriadmesh_server.Base.Counts.{count_values}
use myriadmesh_server.Base.Result.{Result, ok, err, ok_or, guard, ◌>>=◌, ◌>>◌}
use myriadmesh_server.Ledger.Entry.{NodeId}
pub use myriadmesh_server.Node.Beats.{
  AdapterInfo, GeolocationData, HeartbeatMessage, NodeInfo, HeartbeatConfig, NodeMap, second,
  HeartbeatRateLimiter, too_soon,
}
unfoldable pub use myriadmesh_server.Node.Beats.{
  new_info, update_from_heartbeat, is_stale, default_config, new_limiter, pop_old, limiter_allow,
}

-- What is taken from other crates: the hash of `blake2`, the texts of `serde_json`, the bytes of a
-- word, and Ed25519 under the key of this node or of another.
pub record Wire : Type 0 where
  pub blake2b : Bytes → Bytes
  pub be_bytes : ℕ → Bytes
  pub adapters_json : List AdapterInfo → Option Bytes
  pub geo_json : GeolocationData → Option Bytes
  pub is_key : Bytes → Bool
  pub verify_signature : Bytes → Bytes → Bytes → Bool
  pub sign_message : Bytes → Option Bytes
  pub own_key : Bytes

pub data HeartbeatError : Type 0 where
  missing_public_key missing_signature derivation_mismatch invalid_key too_far : HeartbeatError
  invalid_key_length invalid_signature_length : ℕ → HeartbeatError
  verification_failed signing_failed serialization : HeartbeatError

pub record HeartbeatService : Type 0 where
  pub config : HeartbeatConfig
  pub local_node_id : NodeId
  pub node_map : NodeMap
  pub rate_limiter : HeartbeatRateLimiter

-- thirty seconds for each node, and a hundred heartbeats a second
unfoldable pub new_service : HeartbeatConfig → NodeId → HeartbeatService
unfolding new_limiter
new_service config node = record {
  config = config;
  local_node_id = node;
  node_map = [];
  rate_limiter = new_limiter 30 100;
}

-- More than 300 seconds either way: the absolute value of a difference of signed words, of which
-- the least one is its own.
abbrev pub is_too_far : ℕ → Bool
is_too_far difference =
    if ltb difference (2 ^ 63)
    then ltb 300 difference
    else ltb (2 ^ 63) difference && ltb 300 (u64_mod - difference)

abbrev pub info_or_new : ℕ → NodeId → Option NodeInfo → NodeInfo
info_or_new now node none = new_info now node
info_or_new now node (some info) = info

-- the information of a node, after its heartbeat
unfoldable pub updated_info : ℕ → HeartbeatConfig → Option NodeInfo → HeartbeatMessage → NodeInfo
unfolding new_info update_from_heartbeat
updated_info now config known h =
    let info : NodeInfo = update_from_heartbeat (info_or_new now h.node_id known) h in
    if config.store_remote_geolocation then info else record info { geolocation = none }

abbrev pub at_capacity : HeartbeatService → NodeId → Bool
at_capacity s node =
    leb s.config.max_nodes (length s.node_map) && not (contains_key s.node_map node)

-- the map of nodes, once the limiter has answered
abbrev pub after_limiter :
    ℕ → HeartbeatService → HeartbeatMessage → Bool × HeartbeatRateLimiter → HeartbeatService
after_limiter now s h (false, r) = record s { rate_limiter = r }
after_limiter now s h (true, r) =
    if at_capacity s h.node_id then record s { rate_limiter = r } else record s {
      rate_limiter = r;
      node_map =
          insert s.node_map h.node_id (updated_info now s.config (get s.node_map h.node_id) h);
    }

abbrev pub after_check :
    ℕ
    → ℕ
    → HeartbeatService
    → HeartbeatMessage
    → Result HeartbeatError (Unit {0})
    → Result HeartbeatError (Unit {0}) × HeartbeatService
after_check now instant s h (err why) = (err why, s)
after_check now instant s h (ok done) =
    (ok tt, after_limiter now s h (limiter_allow instant s.rate_limiter h.node_id))

abbrev pub permitted : Bool → Option GeolocationData → Option GeolocationData
permitted allowed geo = if allowed then geo else none

-- the lengths of the key and of the signature
unfoldable pub check_lengths : HeartbeatMessage → Result HeartbeatError (Unit {0})
check_lengths h = do
  guard (not (is_empty h.public_key)) missing_public_key
  guard (eqb (length h.public_key) 32) (invalid_key_length (length h.public_key))
  guard (not (is_empty h.signature)) missing_signature
  guard (eqb (length h.signature) 64) (invalid_signature_length (length h.signature))

module _ (w : Wire) where
  abbrev pub geo_bytes : Option GeolocationData → Result HeartbeatError Bytes
  geo_bytes none = ok []
  geo_bytes (some geo) = ok_or (w.geo_json geo) serialization

  -- node_id || timestamp || adapters || geolocation || public_key
  unfoldable pub message_of :
      NodeId → ℕ → List AdapterInfo → Option GeolocationData → Bytes → Result HeartbeatError Bytes
  message_of node time adapters geo key = do
    adapters_text ← ok_or (w.adapters_json adapters) serialization
    geo_text ← geo_bytes geo
    ok (node ++ (w.be_bytes time ++ (adapters_text ++ (geo_text ++ key))))

  unfoldable pub sign_heartbeat : HeartbeatMessage → Result HeartbeatError Bytes
  unfolding message_of
  sign_heartbeat h = do
    message ← message_of h.node_id h.timestamp h.adapters h.geolocation h.public_key
    ok_or (w.sign_message message) signing_failed

  unfoldable pub check_signature : HeartbeatMessage → Result HeartbeatError (Unit {0})
  unfolding message_of
  check_signature h = do
    guard (w.blake2b h.public_key == h.node_id) derivation_mismatch
    message ← message_of h.node_id h.timestamp h.adapters h.geolocation h.public_key
    guard (w.is_key h.public_key) invalid_key
    guard (w.verify_signature h.public_key message h.signature) verification_failed

  unfoldable pub check_heartbeat : ℕ → HeartbeatMessage → Result HeartbeatError (Unit {0})
  unfolding check_lengths check_signature
  check_heartbeat now h = do
    check_lengths h
    check_signature h
    guard (not (is_too_far (sub64 now h.timestamp))) too_far

  unfoldable pub handle_heartbeat :
      ℕ
      → ℕ
      → HeartbeatService
      → HeartbeatMessage
      → Result HeartbeatError (Unit {0}) × HeartbeatService
  unfolding check_heartbeat limiter_allow updated_info
  handle_heartbeat now instant s h = after_check now instant s h (check_heartbeat now h)

  unfoldable pub generate_heartbeat :
      ℕ
      → HeartbeatService
      → List AdapterInfo
      → Option GeolocationData
      → Result HeartbeatError HeartbeatMessage
  unfolding message_of
  generate_heartbeat now s adapters geolocation = do
    let geo = permitted s.config.include_geolocation geolocation
    message ← message_of s.local_node_id now adapters geo w.own_key
    signature ← ok_or (w.sign_message message) signing_failed
    ok (record {
      node_id = s.local_node_id;
      timestamp = now;
      adapters = adapters;
      geolocation = geo;
      public_key = w.own_key;
      signature = signature;
    })

-- a tick of the task that removes stale nodes
unfoldable pub remove_stale : ℕ → HeartbeatService → HeartbeatService
unfolding is_stale
remove_stale now s = record s {
  node_map = retain (λ node info. not (is_stale now s.config.timeout_secs info)) s.node_map;
}
