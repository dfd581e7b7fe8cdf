-- ===== src/Appliance/Manager/History.antt =====
-- crates/myriadmesh-appliance/src/manager.rs: histories of calls, and what is left of a device that
-- is unpaired. The calls of a history come one after another, each ended before the next one starts.
use myriadmesh_server.Base.{
  ℕ, Bool, true, not, Option, none, ◌≡◌, refl, List, [], ◌∷◌, All, String, ◌==◌, string_eq,
  same_refl, is_some,
}
use myriadmesh_server.Base.Bytes.{Bytes}
use myriadmesh_server.Base.Members.{All-mono}
use myriadmesh_server.Base.Map.{get-remove}
use myriadmesh_server.Base.Result.{err}
use myriadmesh_server.Ledger.Entry.{NodeId}
use myriadmesh_server.Appliance.Error.{device_not_found}
use myriadmesh_server.Appliance.Preferences.{DevicePreferences}
use myriadmesh_server.Appliance.Cache.Message.{CachedMessage}
use myriadmesh_server.Appliance.Cache.Entries.{Json}
use myriadmesh_server.Appliance.Cache.Keeping.{All-delete_device_messages}
use myriadmesh_server.Appliance.Pairing.{Keys, PairingRequest, PairingResponse}
use myriadmesh_server.Appliance.Device.{DeviceJson, Devices, get_device}
use myriadmesh_server.Appliance.Device.Saving.{devices-delete_device}
use myriadmesh_server.Appliance.Manager.{
  ApplianceManager, approve_pairing, get_paired_device, reject_pairing, verify_session_token,
}
use myriadmesh_server.Appliance.Manager.Calls.{
  cache_message, clean_up, complete_pairing, initiate_pairing, mark_messages_delivered,
  retrieve_messages, unpair_device, update_device_preferences,
}
use myriadmesh_server.Appliance.Manager.Ownership.{
  IsTidy, HasOwner, complete_pairing-IsTidy, initiate_pairing-IsTidy,
}
use myriadmesh_server.Appliance.Manager.Owners.{
  cache_message-IsTidy, clean_up-IsTidy, mark_messages_delivered-IsTidy, retrieve_messages-IsTidy,
  unpair_device-IsTidy, unpaired, update_device_preferences-IsTidy,
}

-- The calls that change an appliance, each with what it draws and the times that it reads.
pub data Call : Type 0 where
  initiating : ℕ → String → Bytes → PairingRequest → Call
  approving : ℕ → String → Call
  rejecting : String → Call
  completing : ℕ → ℕ → String → PairingResponse → String → NodeId → Bytes → Call
  unpairing : String → Call
  preferring : String → DevicePreferences → Call
  caching : ℕ → CachedMessage → Call
  retrieving : ℕ → String → Option ℕ → Bool → Call
  marking : List String → Call
  cleaning : ℕ → ℕ → Call

module _ (keys : Keys) (json : Json) (devices : DeviceJson) (hash : String → String) where
  unfoldable pub perform : Call → ApplianceManager → ApplianceManager
  perform (initiating secs token challenge request) m =
      (initiate_pairing keys secs token challenge m request).1
  perform (approving secs token) m = (approve_pairing secs m token).1
  perform (rejecting token) m = (reject_pairing m token).1
  perform (completing secs nanos session response id node key) m =
      (complete_pairing keys devices hash secs nanos session m response id node key).1
  perform (unpairing id) m = (unpair_device json devices m id).1
  perform (preferring id preferences) m =
      (update_device_preferences json devices m id preferences).1
  perform (caching millis message) m = (cache_message json devices millis m message).1
  perform (retrieving nanos id limit only) m =
      (retrieve_messages json devices nanos m id limit only).1
  perform (marking ids) m = (mark_messages_delivered json devices m ids).1
  perform (cleaning secs millis) m = clean_up json devices secs millis m

  -- the appliance after calls, the last one first
  unfoldable pub run : List Call → ApplianceManager → ApplianceManager
  unfolding perform
  run [] m = m
  run (c ∷ earlier) m = perform c (run earlier m)

  module _ (total : (d : Devices) → is_some (devices.to_string_pretty d) ≡ true) where
    perform-IsTidy : (c : Call) (m : ApplianceManager) → IsTidy m → IsTidy (perform c m)
    unfolding perform approve_pairing reject_pairing
    perform-IsTidy (initiating secs token challenge request) m t =
        initiate_pairing-IsTidy keys secs token challenge m request t
    perform-IsTidy (approving secs token) m t = record { owned = t.owned; writable = t.writable }
    perform-IsTidy (rejecting token) m t = record { owned = t.owned; writable = t.writable }
    perform-IsTidy (completing secs nanos session response id node key) m t =
        complete_pairing-IsTidy keys devices hash secs nanos session m response id node key t
    perform-IsTidy (unpairing id) m t = unpair_device-IsTidy json devices total m id t
    perform-IsTidy (preferring id preferences) m t =
        update_device_preferences-IsTidy json devices m id preferences t
    perform-IsTidy (caching millis message) m t =
        cache_message-IsTidy json devices millis m message t
    perform-IsTidy (retrieving nanos id limit only) m t =
        retrieve_messages-IsTidy json devices nanos m id limit only t
    perform-IsTidy (marking ids) m t = mark_messages_delivered-IsTidy json devices m ids t
    perform-IsTidy (cleaning secs millis) m t = clean_up-IsTidy json devices secs millis m t

    -- Whatever calls are made of an appliance one after another, each ended before the next
    -- one starts, and whether they succeed or fail, each cached message stays one for a device
    -- that is stored, where the devices can be serialised and their file written.
    pub run-IsTidy : (cs : List Call) (m : ApplianceManager) → IsTidy m → IsTidy (run cs m)
    unfolding run
    run-IsTidy [] m t = t
    run-IsTidy (c ∷ earlier) m t = perform-IsTidy c (run earlier m) (run-IsTidy earlier m t)

    -- Once a device is unpaired it is not found, no session token verifies for it and the
    -- cache holds no message for it, where every cached message had its device, the devices
    -- can be serialised and their file written.
    pub unpair_device-forgets :
        (m : ApplianceManager) (id token : String)
        → IsTidy m
        → let m' = (unpair_device json devices m id).1 in
          (get_paired_device m' id ≡ none)
          × (verify_session_token hash m' id token ≡ err (device_not_found id))
          × All (λ e. not (e.1.device_id == id) ≡ true) m'.message_cache.messages
    unfolding get_paired_device verify_session_token get_device
    unpair_device-forgets m id token t =
        rw
          (
            unpaired json devices total m id t.writable,
            devices-delete_device devices m.device_store id,
            get-remove m.device_store.devices id id,
            same_refl id,
          )
          (
            refl,
            refl,
            All-mono (λ e h. h.1) _
                (All-delete_device_messages json (HasOwner m.device_store.devices) m.message_cache
                  id t.owned),
          )
