-- ===== src/Appliance/Preferences.antt =====
-- crates/myriadmesh-appliance/src/types.rs: what a device prefers, and what the appliance can do.
use myriadmesh_server.Base.{ℕ, Bool, true, false, List, [], ◌∷◌, String}

pub record RoutingPreferences : Type 0 where
  pub default_policy : String
  pub adapter_priority : List String
  pub qos_class_default : String
  pub multipath_enabled : Bool
  pub geographic_routing_enabled : Bool

pub record MessagePreferences : Type 0 where
  pub cache_on_appliance : Bool
  pub cache_priority_default : String
  pub auto_forward_to_appliance : Bool
  pub store_and_forward : Bool
  pub ttl_days : ℕ

pub record PowerPreferences : Type 0 where
  pub offload_dht_to_appliance : Bool
  pub offload_ledger_sync : Bool
  pub mobile_heartbeat_interval : ℕ
  pub appliance_as_proxy : Bool

pub record PrivacyPreferences : Type 0 where
  pub always_use_i2p_via_appliance : Bool
  pub clearnet_allowed_on_mobile : Bool
  pub require_appliance_for_sensitive : Bool
  pub trusted_nodes_only : Bool

pub record DevicePreferences : Type 0 where
  pub routing : RoutingPreferences
  pub messages : MessagePreferences
  pub power : PowerPreferences
  pub privacy : PrivacyPreferences

abbrev pub default_routing : RoutingPreferences
default_routing = record {
  default_policy = "balanced";
  adapter_priority = "i2p" ∷ "wifi" ∷ "cellular" ∷ [];
  qos_class_default = "normal";
  multipath_enabled = true;
  geographic_routing_enabled = false;
}

abbrev pub default_messages : MessagePreferences
default_messages = record {
  cache_on_appliance = true;
  cache_priority_default = "normal";
  auto_forward_to_appliance = true;
  store_and_forward = true;
  ttl_days = 7;
}

abbrev pub default_power : PowerPreferences
default_power = record {
  offload_dht_to_appliance = true;
  offload_ledger_sync = true;
  mobile_heartbeat_interval = 300;
  appliance_as_proxy = true;
}

abbrev pub default_privacy : PrivacyPreferences
default_privacy = record {
  always_use_i2p_via_appliance = false;
  clearnet_allowed_on_mobile = true;
  require_appliance_for_sensitive = true;
  trusted_nodes_only = false;
}

abbrev pub default_preferences : DevicePreferences
default_preferences = record {
  routing = default_routing;
  messages = default_messages;
  power = default_power;
  privacy = default_privacy;
}

pub record ApplianceCapabilities : Type 0 where
  pub max_paired_devices : ℕ
  pub current_paired_devices : ℕ
  pub message_caching : Bool
  pub max_cache_messages_per_device : ℕ
  pub relay_enabled : Bool
  pub bridge_enabled : Bool
  pub pairing_available : Bool
  pub pairing_methods : List String
