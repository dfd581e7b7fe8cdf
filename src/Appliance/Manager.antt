-- ===== src/Appliance/Manager.antt =====
-- crates/myriadmesh-appliance/src/manager.rs: the manager, which composes the devices, the message
-- cache and the pairing. `secs`, `millis` and `nanos` are the times that an operation reads for the
-- pairing, the cache and the devices; a directory that cannot be made is an argument.
pub mod Calls
pub mod Sessions
pub mod Ownership
pub mod Owners
pub mod History
pub mod Races
use myriadmesh_server.Base.{
  ℕ, ◌+◌, Bool, true, false, not, Option, none, some, List, [], ◌∷◌, map, String, ltb, leb, add64,
  if◌then◌else◌, ◌==◌, string_eq,
}
use myriadmesh_server.Base.Bytes.{Bytes}
use myriadmesh_server.Base.Map.{Map, get}
use myriadmesh_server.Base.Result.{Result, ok, err, guard, ok_or, ◌>>=◌, ◌>>◌}
use myriadmesh_server.Ledger.Entry.{NodeId}
use myriadmesh_server.Appliance.Error.{
  ApplianceError, ApplianceResult, Outcome, configuration, device_already_paired, device_not_found,
  io, max_devices_reached,
}
use myriadmesh_server.Appliance.Preferences.{DevicePreferences, ApplianceCapabilities}
use myriadmesh_server.Appliance.Cache.Message.{CachedMessage}
use myriadmesh_server.Appliance.Cache.Entries.{
  CacheFile, CacheStats, Json, MessageCache, MessageCacheConfig, default_config,
}
use myriadmesh_server.Appliance.Cache.Entries
use myriadmesh_server.Appliance.Cache
use myriadmesh_server.Appliance.Pairing.{
  Keys, PairingManager, PairingRequest, PairingResponse, PairingResult, PairingToken,
}
use myriadmesh_server.Appliance.Pairing
use myriadmesh_server.Appliance.Device.{
  DeviceJson, DeviceStore, PairedDevice, PairedDeviceInfo, count_active, delete_device, get_device,
  info_of, list_all, new_device, open_store, store_device, update_last_seen, update_preferences,
  verify_token,
}

pub record ApplianceManagerConfig : Type 0 where
  pub node_id : String
  pub max_paired_devices : ℕ
  pub message_caching : Bool
  pub relay_enabled : Bool
  pub bridge_enabled : Bool
  pub require_pairing_approval : Bool
  pub pairing_methods : List String
  pub cache_config : MessageCacheConfig

unfoldable pub default_manager_config : ApplianceManagerConfig
unfolding default_config
default_manager_config = record {
  node_id = "";
  max_paired_devices = 10;
  message_caching = true;
  relay_enabled = true;
  bridge_enabled = true;
  require_pairing_approval = true;
  pairing_methods = "qr_code" ∷ "pin" ∷ [];
  cache_config = default_config;
}

pub record ApplianceStats : Type 0 where
  pub uptime_secs : ℕ
  pub paired_devices : ℕ
  pub total_cached_messages : ℕ
  pub adapters_online : ℕ

pub record ApplianceManager : Type 0 where
  pub config : ApplianceManagerConfig
  pub device_store : DeviceStore
  pub message_cache : MessageCache
  pub pairing_manager : PairingManager

-- a call of a part, whose state is put back
abbrev pub on_devices :
    {A : Type 0} → ApplianceManager → Outcome DeviceStore A → Outcome ApplianceManager A
on_devices m o = (o.0, record m { device_store = o.1 })

abbrev pub on_cache :
    {A : Type 0} → ApplianceManager → Outcome MessageCache A → Outcome ApplianceManager A
on_cache m o = (o.0, record m { message_cache = o.1 })

abbrev pub on_pairing :
    {A : Type 0} → ApplianceManager → Outcome PairingManager A → Outcome ApplianceManager A
on_pairing m o = (o.0, record m { pairing_manager = o.1 })

-- `?` after a call that changes the state
abbrev pub and_then :
    {A B : Type 0}
    → Outcome ApplianceManager A
    → (A → ApplianceManager → Outcome ApplianceManager B)
    → Outcome ApplianceManager B
and_then (err e, m) f = (err e, m)
and_then (ok a, m) f = f a m

abbrev pub is_active : Option PairedDevice → Bool
is_active none = false
is_active (some device) = device.active

-- what `get(device_id)` has found
abbrev pub found_or_missing : String → Option PairedDevice → ApplianceResult PairedDevice
found_or_missing device_id device = ok_or device (device_not_found device_id)

unfoldable pub get_capabilities : ApplianceManager → ApplianceCapabilities
unfolding count_active
get_capabilities m =
    let current : ℕ = count_active m.device_store in
    record {
      max_paired_devices = m.config.max_paired_devices;
      current_paired_devices = current;
      message_caching = m.config.message_caching;
      max_cache_messages_per_device = m.config.cache_config.max_messages_per_device;
      relay_enabled = m.config.relay_enabled;
      bridge_enabled = m.config.bridge_enabled;
      pairing_available = ltb current m.config.max_paired_devices;
      pairing_methods = m.config.pairing_methods;
    }

-- whether a request may start a pairing
unfoldable pub check_request : ApplianceManager → PairingRequest → ApplianceResult (Unit {0})
unfolding count_active get_device
check_request m request = do
  guard (ltb (count_active m.device_store) m.config.max_paired_devices)
      (max_devices_reached m.config.max_paired_devices)
  guard (not (is_active (get_device m.device_store request.device_id)))
      (device_already_paired request.device_id)

unfoldable pub approve_pairing : ℕ → ApplianceManager → String → Outcome ApplianceManager (Unit {0})
unfolding Pairing.approve_pairing
approve_pairing secs m token = on_pairing m (Pairing.approve_pairing secs m.pairing_manager token)

unfoldable pub reject_pairing : ApplianceManager → String → Outcome ApplianceManager (Unit {0})
unfolding Pairing.reject_pairing
reject_pairing m token =
    (ok tt, record m { pairing_manager = Pairing.reject_pairing m.pairing_manager token })

unfoldable pub get_paired_device : ApplianceManager → String → Option PairedDevice
unfolding get_device
get_paired_device m device_id = get_device m.device_store device_id

-- each device, with the number of its cached messages
unfoldable pub list_paired_devices : ℕ → ApplianceManager → List PairedDeviceInfo
unfolding list_all Cache.Entries.get_stats
list_paired_devices millis m =
    map
      (λ (d : PairedDevice). record (info_of d) {
        cached_messages = (Cache.Entries.get_stats millis m.message_cache d.device_id).total_cached;
      })
      (list_all m.device_store)

unfoldable pub add_cached : ℕ → MessageCache → ℕ → List PairedDevice → ℕ
add_cached millis cache total [] = total
add_cached millis cache total (d ∷ rest) =
    add_cached millis cache
      (add64 total (Cache.Entries.get_stats millis cache d.device_id).total_cached) rest

unfoldable pub get_stats : ℕ → ApplianceManager → ℕ → ℕ → ApplianceStats
unfolding count_active list_all add_cached
get_stats millis m uptime_secs adapters_online = record {
  uptime_secs = uptime_secs;
  paired_devices = count_active m.device_store;
  total_cached_messages = add_cached millis m.message_cache 0 (list_all m.device_store);
  adapters_online = adapters_online;
}

unfoldable pub get_cache_stats : ℕ → ApplianceManager → String → CacheStats
unfolding Cache.Entries.get_stats
get_cache_stats millis m device_id = Cache.Entries.get_stats millis m.message_cache device_id

unfoldable pub verify_session_token :
    (String → String) → ApplianceManager → String → String → ApplianceResult Bool
unfolding get_device verify_token
verify_session_token hash m device_id token = do
  device ← found_or_missing device_id (get_device m.device_store device_id)
  ok (verify_token hash device token)
