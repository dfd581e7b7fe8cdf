-- ===== src/Appliance/Manager/Races.antt =====
-- crates/myriadmesh-appliance/src/manager.rs: a call between the two steps of `cache_message`, which
-- holds no lock from the check of the device to the store of the message.
use myriadmesh_server.Base.{
  ℕ, Bool, true, false, none, some, ◌≡◌, ◌∙◌, ap, refl, string_eq, is_some, leb, length, same_refl,
  if◌then◌else◌,
}
use myriadmesh_server.Base.Map.{get, insert, get-insert_self, get-remove}
use myriadmesh_server.Base.Result.{ok}
use myriadmesh_server.Appliance.Error.{Outcome}
use myriadmesh_server.Appliance.Cache.Message.{CachedMessage}
use myriadmesh_server.Appliance.Cache.Entries.{
  Json, MessageCache, device_count, evict_global_locked, evict_messages_locked,
}
use myriadmesh_server.Appliance.Cache.Limits.{save_lem}
use myriadmesh_server.Appliance.Cache
use myriadmesh_server.Appliance.Device.{DeviceJson, Devices, get_device}
use myriadmesh_server.Appliance.Device.Saving.{devices-delete_device}
use myriadmesh_server.Appliance.Manager.{ApplianceManager, get_paired_device}
use myriadmesh_server.Appliance.Manager.Calls.{cache_checked, check_message, unpair_device}
use myriadmesh_server.Appliance.Manager.Ownership.{IsTidy}
use myriadmesh_server.Appliance.Manager.Owners.{unpaired}

-- what holds of both branches, where each is taken
either {ℓ κ} :
    {A : Type ℓ} (P : A → Type κ) (b : Bool) {x y : A} → P x → P y → P (if b then x else y)
either P true p q = p
either P false p q = q

module _ (json : Json) (millis : ℕ) (message : CachedMessage) where
  -- What is asked of a store: if it ends well, the message is in the cache.
  abbrev Holds : Outcome MessageCache (Unit {0}) → Type 0
  Holds o = o.0 ≡ ok tt → get o.1.messages message.message_id ≡ some message

  Holds-save :
      (cache : MessageCache)
      → Holds (
          Cache.save json
            (record cache { messages = insert cache.messages message.message_id message }))
  Holds-save cache h =
      ap (λ entries. get entries message.message_id)
        (save_lem json
          (record cache { messages = insert cache.messages message.message_id message })).0
      ∙ get-insert_self cache.messages message.message_id message

  Holds-store_below_total :
      (cache : MessageCache) → Holds (Cache.store_below_total json millis cache message)
  unfolding Cache.store_below_total
  Holds-store_below_total cache =
      let entries = evict_global_locked millis cache.messages in
      either Holds (leb cache.config.max_total_messages (length cache.messages))
        (either Holds (leb cache.config.max_total_messages (length entries)) (λ h. cc)
          (Holds-save (record cache { messages = entries })))
        (Holds-save cache)

  Holds-store : (cache : MessageCache) → Holds (Cache.store json millis cache message)
  unfolding Cache.store
  Holds-store cache =
      let limit = cache.config.max_messages_per_device in
      let id = message.device_id in
      let entries = evict_messages_locked cache.messages id cache.config in
      either Holds (leb limit (device_count id cache.messages))
        (either Holds (leb limit (device_count id entries)) (λ h. cc)
          (Holds-store_below_total (record cache { messages = entries })))
        (Holds-store_below_total cache)

module _ (json : Json) (devices : DeviceJson) where
  -- A message whose device passes the check is cached, if the cache takes it, although the
  -- device is unpaired between the check and the store: it is then the message of a device
  -- that is not found, where the devices can be serialised and their file written.
  pub stored_after_unpairing :
      (total : (d : Devices) → is_some (devices.to_string_pretty d) ≡ true) (millis : ℕ)
      (m : ApplianceManager) (message : CachedMessage)
      → IsTidy m
      → check_message json devices m message ≡ ok tt
      → (cache_checked json devices millis
          (unpair_device json devices m message.device_id).1
          message
          (check_message json devices m message)).0
        ≡ ok tt
      → let m2 =
          (cache_checked json devices millis
            (unpair_device json devices m message.device_id).1
            message
            (check_message json devices m message)).1 in
        (get m2.message_cache.messages message.message_id ≡ some message)
        × (get_paired_device m2 message.device_id ≡ none)
  unfolding get_paired_device get_device
  stored_after_unpairing total millis m message t checked =
      let m1 = (unpair_device json devices m message.device_id).1 in
      let gone : get m1.device_store.devices message.device_id ≡ none =
        rw
          (
            unpaired json devices total m message.device_id t.writable,
            devices-delete_device devices m.device_store message.device_id,
            get-remove m.device_store.devices message.device_id message.device_id,
            same_refl message.device_id,
          )
          refl in
      rw checked (λ done. (Holds-store json millis message m1.message_cache done, gone))
