-- ===== src/Appliance/Manager/Owners.antt =====
-- crates/myriadmesh-appliance/src/manager.rs: whose messages the cache of an appliance holds, through
-- the calls of the cache and the devices.
use myriadmesh_server.Base.{
  ℕ, Bool, true, false, Option, inl, inr, ◌≡◌, refl, sym, ◌∙◌, List, All, String, string_eq,
  is_some, Bool-cases, Option-cases, arith,
}
use mathlib.Core.Path.{subst}
use myriadmesh_server.Base.Members.{All-mono}
use myriadmesh_server.Base.Map.{get, contains_key}
use myriadmesh_server.Base.Result.{ok, Result-cases}
use myriadmesh_server.Appliance.Preferences.{DevicePreferences}
use myriadmesh_server.Appliance.Cache.Message.{CachedMessage}
use myriadmesh_server.Appliance.Cache.Entries.{Json}
use myriadmesh_server.Appliance.Cache.Keeping.{
  All-cleanup_expired, All-delete_device_messages, All-mark_delivered, All-store,
}
use myriadmesh_server.Appliance.Cache
use myriadmesh_server.Appliance.Device.{
  DeviceJson, Devices, delete_device, get_device, update_last_seen, update_preferences,
}
use myriadmesh_server.Appliance.Device.Saving.{
  delete_device-written, devices-delete_device, write_fails-delete_device,
}
use myriadmesh_server.Appliance.Manager.{ApplianceManager, found_or_missing, on_devices}
use myriadmesh_server.Appliance.Manager.Calls.{
  cache_message, check_message, clean_up, mark_messages_delivered, retrieve_messages, unpair_device,
  update_device_preferences,
}
use myriadmesh_server.Appliance.Manager.Ownership.{
  HasOwner, HasOwner-remove, IsTidy, seen-IsTidy, state-and_then, stored-IsTidy,
}

module _ (json : Json) (devices : DeviceJson) where
  check_message-owner :
      (m : ApplianceManager) (message : CachedMessage)
      → check_message json devices m message ≡ ok tt
      → contains_key m.device_store.devices message.device_id ≡ true
  unfolding check_message get_device
  check_message-owner m message h = elim (Bool-cases m.config.message_caching) [
    | inr off ↦ absurd (ground (arith, off, h))
    | inl on ↦ elim (Option-cases (get m.device_store.devices message.device_id)) [
      | inl absent ↦ absurd (ground (arith, on, absent, h))
      | inr (d, held) ↦ rw held refl
    ]
  ]

  pub cache_message-IsTidy :
      (millis : ℕ) (m : ApplianceManager) (message : CachedMessage)
      → IsTidy m
      → IsTidy (cache_message json devices millis m message).1
  unfolding cache_message check_message get_device
  cache_message-IsTidy millis m message t =
      elim (Result-cases (check_message json devices m message)) [
        | inr (why, failed) ↦ rw failed t
        | inl (u, passed) ↦ rw passed (record {
          owned =
              All-store json (HasOwner m.device_store.devices) millis m.message_cache message
                (check_message-owner m message passed) t.owned;
          writable = t.writable;
        })
      ]

  pub retrieve_messages-IsTidy :
      (nanos : ℕ) (m : ApplianceManager) (id : String) (limit : Option ℕ) (only : Bool)
      → IsTidy m
      → IsTidy (retrieve_messages json devices nanos m id limit only).1
  unfolding retrieve_messages
  retrieve_messages-IsTidy nanos m id limit only t =
      elim (Result-cases (found_or_missing id (get_device m.device_store id))) [
        | inr (why, failed) ↦ rw failed t
        | inl (d, found) ↦ rw found (
            subst IsTidy
              (sym (
                state-and_then (on_devices m (update_last_seen devices nanos m.device_store id)) _
                  (λ a x. refl)))
              (seen-IsTidy devices nanos m id t))
      ]

  pub update_device_preferences-IsTidy :
      (m : ApplianceManager) (id : String) (preferences : DevicePreferences)
      → IsTidy m
      → IsTidy (update_device_preferences json devices m id preferences).1
  unfolding update_device_preferences
  update_device_preferences-IsTidy m id preferences t =
      elim (Result-cases (found_or_missing id (get_device m.device_store id))) [
        | inr (why, failed) ↦ rw failed t
        | inl (d, found) ↦ rw found (stored-IsTidy devices m (update_preferences d preferences) t)
      ]

  pub mark_messages_delivered-IsTidy :
      (m : ApplianceManager) (ids : List String)
      → IsTidy m
      → IsTidy (mark_messages_delivered json devices m ids).1
  unfolding mark_messages_delivered
  mark_messages_delivered-IsTidy m ids t = record {
    owned =
        All-mark_delivered json (HasOwner m.device_store.devices) m.message_cache ids (λ k v h. h)
          t.owned;
    writable = t.writable;
  }

  pub clean_up-IsTidy :
      (secs millis : ℕ) (m : ApplianceManager)
      → IsTidy m
      → IsTidy (clean_up json devices secs millis m)
  unfolding clean_up
  clean_up-IsTidy secs millis m t = record {
    owned =
        All-cleanup_expired json (HasOwner m.device_store.devices) millis m.message_cache t.owned;
    writable = t.writable;
  }

  module _ (total : (d : Devices) → is_some (devices.to_string_pretty d) ≡ true) where
    -- what is left when a device is unpaired
    pub unpaired :
        (m : ApplianceManager) (id : String)
        → m.device_store.file.write_fails ≡ false
        → (unpair_device json devices m id).1 ≡ record m {
          device_store = (delete_device devices m.device_store id).1;
          message_cache = (Cache.delete_device_messages json m.message_cache id).1;
        }
    unfolding unpair_device
    unpaired m id writable =
        rw (delete_device-written devices m.device_store id total writable) refl

    pub unpair_device-IsTidy :
        (m : ApplianceManager) (id : String) → IsTidy m → IsTidy (unpair_device json devices m id).1
    unpair_device-IsTidy m id t = rw (unpaired m id t.writable) (record {
      owned =
          subst
            (λ x.
              All (HasOwner x) (Cache.delete_device_messages json m.message_cache id).1.messages)
            (sym (devices-delete_device devices m.device_store id))
            (All-mono (HasOwner-remove m.device_store.devices id) _ (
              All-delete_device_messages json (HasOwner m.device_store.devices) m.message_cache id
                t.owned));
      writable = write_fails-delete_device devices m.device_store id ∙ t.writable;
    })
