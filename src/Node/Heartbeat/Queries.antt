-- ===== src/Node/Heartbeat/Queries.antt =====
-- myriadnode-full/src/heartbeat.rs: what the map of nodes is asked for.
use myriadmesh_server.Base.{
  ℕ, ◌+◌, Bool, false, not, ◌&&◌, Option, none, some, List, [], ◌∷◌, map, String, if◌then◌else◌,
  length, is_some, select, any_of, ◌==◌, string_eq,
}
use myriadmesh_server.Base.Bytes.{bytes_eq}
use myriadmesh_server.Base.Double.{Double, F64}
use myriadmesh_server.Base.Map.{Map, values, keys, get, insert}
use myriadmesh_server.Base.Counts.{count_values}
use myriadmesh_server.Ledger.Entry.{NodeId}
use myriadmesh_server.Node.Beats.{AdapterInfo, GeolocationData, NodeInfo}
use myriadmesh_server.Node.Heartbeat.{HeartbeatService}

abbrev pub is_near :
    Double → (F64 → F64 → F64 → F64 → F64) → F64 → F64 → F64 → Option GeolocationData → Bool
is_near d haversine_distance latitude longitude radius none = false
is_near d haversine_distance latitude longitude radius (some geo) =
    d.le (haversine_distance latitude longitude geo.latitude geo.longitude) radius

unfoldable pub get_node_info : HeartbeatService → NodeId → Option NodeInfo
get_node_info s node = get s.node_map node

unfoldable pub get_known_nodes : HeartbeatService → List NodeId
get_known_nodes s = keys s.node_map

unfoldable pub find_nodes_with_adapter : HeartbeatService → String → List NodeId
unfolding any_of
find_nodes_with_adapter s adapter_type =
    map (λ e. e.0)
      (select
        (λ e. any_of (λ (a : AdapterInfo). a.adapter_type == adapter_type && a.active) e.1.adapters)
        s.node_map)

abbrev pub count_or_nought : Option ℕ → ℕ
count_or_nought none = 0
count_or_nought (some n) = n

-- the adapters that are active, counted by their type
unfoldable pub count_adapters : Map String ℕ → List AdapterInfo → Map String ℕ
count_adapters counts [] = counts
count_adapters counts (a ∷ rest) =
    count_adapters
      (if a.active
        then insert counts a.adapter_type (count_or_nought (get counts a.adapter_type) + 1)
        else counts)
      rest

unfoldable pub count_all : Map String ℕ → List NodeInfo → Map String ℕ
unfolding count_adapters
count_all counts [] = counts
count_all counts (info ∷ rest) = count_all (count_adapters counts info.adapters) rest

pub record NodeMapStats : Type 0 where
  pub total_nodes : ℕ
  pub nodes_with_location : ℕ
  pub adapter_counts : Map String ℕ

unfoldable pub get_stats : HeartbeatService → NodeMapStats
unfolding count_all
get_stats s = record {
  total_nodes = length s.node_map;
  nodes_with_location = count_values (λ info. is_some info.geolocation) s.node_map;
  adapter_counts = count_all [] (values s.node_map);
}

-- The distance of two points on the earth is a parameter.
unfoldable pub find_nodes_near :
    Double → (F64 → F64 → F64 → F64 → F64) → HeartbeatService → F64 → F64 → F64 → List NodeId
find_nodes_near d haversine_distance s latitude longitude radius =
    if not s.config.store_remote_geolocation
    then []
    else map (λ e. e.0)
        (select (λ e. is_near d haversine_distance latitude longitude radius e.1.geolocation)
          s.node_map)
