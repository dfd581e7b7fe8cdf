-- ===== src/Appliance/Manager/Calls.antt =====
-- crates/myriadmesh-appliance/src/manager.rs: the calls that write files or sign. Each
-- call is one step here; the code releases the lock of a part between the steps of a call.
use myriadmesh_server.Base.{ℕ, Bool, not, Option, none, some, List, String, if◌then◌else◌}
use myriadmesh_server.Base.Bytes.{Bytes}
use myriadmesh_server.Base.Result.{ok, err, guard, ◌>>=◌, ◌>>◌}
use myriadmesh_server.Ledger.Entry.{NodeId}
use myriadmesh_server.Appliance.Error.{
  ApplianceResult, Outcome, configuration, device_not_found, io,
}
use myriadmesh_server.Appliance.Preferences.{DevicePreferences}
use myriadmesh_server.Appliance.Cache.Message.{CachedMessage}
use myriadmesh_server.Appliance.Cache.Entries.{CacheFile, Json, MessageCache}
use myriadmesh_server.Appliance.Cache.Entries
use myriadmesh_server.Appliance.Cache
use myriadmesh_server.Appliance.Pairing.{
  Keys, PairingManager, PairingRequest, PairingResponse, PairingResult, PairingToken,
}
use myriadmesh_server.Appliance.Pairing
use myriadmesh_server.Appliance.Device.{
  DeviceJson, PairedDevice, delete_device, get_device, new_device, open_store, store_device,
  update_last_seen, update_preferences,
}
use myriadmesh_server.Appliance.Manager.{
  ApplianceManager, ApplianceManagerConfig, and_then, check_request, found_or_missing, on_cache,
  on_devices, on_pairing,
}

module _ (keys : Keys) where
  abbrev pub start_pairing :
      ℕ
      → String
      → Bytes
      → ApplianceManager
      → PairingRequest
      → ApplianceResult (Unit {0})
      → Outcome ApplianceManager PairingToken
  start_pairing secs token challenge m request (err e) = (err e, m)
  start_pairing secs token challenge m request (ok u) =
      on_pairing m (Pairing.initiate_pairing keys secs token challenge m.pairing_manager request)

  unfoldable pub initiate_pairing :
      ℕ → String → Bytes → ApplianceManager → PairingRequest → Outcome ApplianceManager PairingToken
  unfolding check_request Pairing.initiate_pairing
  initiate_pairing secs token challenge m request =
      start_pairing secs token challenge m request (check_request m request)

module _ (keys : Keys) (devices : DeviceJson) (hash : String → String) where
  -- a pairing that succeeded, with its session token
  abbrev pub store_paired :
      ℕ
      → String
      → NodeId
      → Bytes
      → PairingResult
      → Option String
      → ApplianceManager
      → Outcome ApplianceManager PairingResult
  store_paired nanos device_id node public_key result none m = (ok result, m)
  store_paired nanos device_id node public_key result (some session) m =
      and_then
        (on_devices m (
          store_device devices m.device_store
            (new_device nanos device_id node public_key (hash session))))
        (λ _ m'. (ok result, m'))

  abbrev pub after_pairing :
      ℕ
      → String
      → NodeId
      → Bytes
      → PairingResult
      → ApplianceManager
      → Outcome ApplianceManager PairingResult
  after_pairing nanos device_id node public_key result m =
      if result.success
      then store_paired nanos device_id node public_key result result.session_token m
      else (ok result, m)

  unfoldable pub complete_pairing :
      ℕ
      → ℕ
      → String
      → ApplianceManager
      → PairingResponse
      → String
      → NodeId
      → Bytes
      → Outcome ApplianceManager PairingResult
  unfolding Pairing.complete_pairing store_device
  complete_pairing secs nanos session m response device_id node public_key =
      and_then
        (on_pairing m (Pairing.complete_pairing keys secs session m.pairing_manager response))
        (after_pairing nanos device_id node public_key)

module _ (json : Json) (devices : DeviceJson) where
  -- the stores that the manager is made of
  unfoldable pub new :
      Bool
      → CacheFile
      → CacheFile
      → ApplianceManagerConfig
      → Bytes
      → ApplianceResult ApplianceManager
  unfolding open_store Cache.new Pairing.new
  new directory_fails device_file cache_file config signing_key = do
    guard (not directory_fails) io
    store ← open_store devices device_file
    cache ← Cache.new json cache_file config.cache_config
    ok (record {
      config = config;
      device_store = store;
      message_cache = cache;
      pairing_manager = Pairing.new signing_key config.node_id config.require_pairing_approval;
    })

  unfoldable pub unpair_device : ApplianceManager → String → Outcome ApplianceManager (Unit {0})
  unfolding delete_device Cache.delete_device_messages
  unpair_device m device_id =
      and_then (on_devices m (delete_device devices m.device_store device_id))
        (λ _ m'. on_cache m' (Cache.delete_device_messages json m'.message_cache device_id))

  -- what `get(device_id)` has found
  abbrev pub set_preferences :
      ApplianceManager
      → DevicePreferences
      → ApplianceResult PairedDevice
      → Outcome ApplianceManager (Unit {0})
  set_preferences m preferences (err e) = (err e, m)
  set_preferences m preferences (ok device) =
      on_devices m (store_device devices m.device_store (update_preferences device preferences))

  unfoldable pub update_device_preferences :
      ApplianceManager → String → DevicePreferences → Outcome ApplianceManager (Unit {0})
  unfolding get_device store_device
  update_device_preferences m device_id preferences =
      set_preferences m preferences
        (found_or_missing device_id (get_device m.device_store device_id))

  -- whether a message may be cached
  unfoldable pub check_message : ApplianceManager → CachedMessage → ApplianceResult (Unit {0})
  unfolding get_device
  check_message m message = do
    guard m.config.message_caching (configuration "Message caching is disabled")
    device ← found_or_missing message.device_id (get_device m.device_store message.device_id)
    guard device.active (device_not_found message.device_id)

  abbrev pub cache_checked :
      ℕ
      → ApplianceManager
      → CachedMessage
      → ApplianceResult (Unit {0})
      → Outcome ApplianceManager (Unit {0})
  cache_checked millis m message (err e) = (err e, m)
  cache_checked millis m message (ok u) =
      on_cache m (Cache.store json millis m.message_cache message)

  unfoldable pub cache_message :
      ℕ → ApplianceManager → CachedMessage → Outcome ApplianceManager (Unit {0})
  unfolding check_message Cache.store
  cache_message millis m message = cache_checked millis m message (check_message m message)

  abbrev pub retrieve_found :
      ℕ
      → ApplianceManager
      → String
      → Option ℕ
      → Bool
      → ApplianceResult PairedDevice
      → Outcome ApplianceManager (List CachedMessage)
  retrieve_found nanos m device_id limit only_undelivered (err e) = (err e, m)
  retrieve_found nanos m device_id limit only_undelivered (ok device) =
      and_then (on_devices m (update_last_seen devices nanos m.device_store device_id)) (λ _ m'.
        (ok (Cache.Entries.retrieve m'.message_cache device_id limit only_undelivered), m'))

  unfoldable pub retrieve_messages :
      ℕ
      → ApplianceManager
      → String
      → Option ℕ
      → Bool
      → Outcome ApplianceManager (List CachedMessage)
  unfolding get_device update_last_seen Cache.Entries.retrieve
  retrieve_messages nanos m device_id limit only_undelivered =
      retrieve_found nanos m device_id limit only_undelivered
        (found_or_missing device_id (get_device m.device_store device_id))

  unfoldable pub mark_messages_delivered :
      ApplianceManager → List String → Outcome ApplianceManager (Unit {0})
  unfolding Cache.mark_delivered
  mark_messages_delivered m ids = on_cache m (Cache.mark_delivered json m.message_cache ids)

  -- a round of the task that cleans up, which only logs an error
  unfoldable pub clean_up : ℕ → ℕ → ApplianceManager → ApplianceManager
  unfolding Pairing.cleanup_expired Cache.cleanup_expired
  clean_up secs millis m = record m {
    pairing_manager = Pairing.cleanup_expired secs m.pairing_manager;
    message_cache = (Cache.cleanup_expired json millis m.message_cache).1;
  }
