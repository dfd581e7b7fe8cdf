-- ===== src/Appliance/Cache/Eviction.antt =====
-- crates/myriadmesh-appliance/src/cache.rs: evictions, and the refusal of a message.
use myriadmesh_server.Base.{
  ℕ, ◌≤◌, not, ◌&&◌, [], ◌∷◌, length, String, refl, ◌≡◌, arith, ◌==◌, string_eq, select,
}
use myriadmesh_server.Base.Map.{retain}
use myriadmesh_server.Base.Counts.{count_values, count_values-retain-le}
use myriadmesh_server.Base.Result.{err}
use myriadmesh_server.Appliance.Error.{cache_full}
use myriadmesh_server.Appliance.Cache.Message.{CachedMessage}
use myriadmesh_server.Appliance.Cache.{store}
use myriadmesh_server.Appliance.Cache.Entries.{
  Messages, MessageCache, MessageCacheConfig, Json, device_count, of_device, evict_messages_locked,
}
use myriadmesh_server.Appliance.Cache.Limits.{IsBounded, IsWithinLimits}

-- what is left of the messages when a device's delivered ones are gone
abbrev pub without_delivered : String → Messages → Messages
without_delivered device_id =
    retain λ _ (m : CachedMessage). not (m.device_id == device_id && m.delivered)

length-of_device :
    (m : Messages) (device_id : String) → length (of_device device_id m) ≡ device_count device_id m
unfolding select
length-of_device [] device_id = refl
length-of_device ((k, v) ∷ m) device_id = ground (arith, length-of_device m device_id)

-- In a cache within its limits the eviction for a device removes its delivered messages and no
-- other: the removal of old messages of low priority is never reached.
pub evict_messages_locked_lem :
    (config : MessageCacheConfig) (m : Messages) (device_id : String)
    → IsBounded config m
    → evict_messages_locked m device_id config ≡ without_delivered device_id m
unfolding evict_messages_locked
evict_messages_locked_lem config m device_id v = ground (
  arith,
  length-of_device (without_delivered device_id m) device_id,
  v.per_device device_id,
  count_values-retain-le (λ (x : CachedMessage). x.device_id == device_id)
      (λ _ (x : CachedMessage). not (x.device_id == device_id && x.delivered)) m,
)

-- the messages of a device that are not delivered
abbrev pub waiting : String → Messages → ℕ
waiting device_id = count_values λ (m : CachedMessage). m.device_id == device_id && not m.delivered

device_count-without_delivered :
    (m : Messages) (device_id : String)
    → device_count device_id (without_delivered device_id m) ≡ waiting device_id m
unfolding select
device_count-without_delivered [] device_id = refl
device_count-without_delivered ((k, v) ∷ m) device_id =
    ground (arith, device_count-without_delivered m device_id)

-- In a cache within its limits, storing a message for a device that has as many undelivered
-- messages as the limit of a device fails as full, whatever the priorities.
pub store_full :
    (json : Json) (now : ℕ) (cache : MessageCache) (message : CachedMessage)
    → IsWithinLimits json cache
    → cache.config.max_messages_per_device ≤ waiting message.device_id cache.messages
    → (store json now cache message).0 ≡ err cache_full
unfolding store
store_full json now cache message v full = ground (
  arith,
  evict_messages_locked_lem cache.config cache.messages message.device_id v,
  device_count-without_delivered cache.messages message.device_id,
  full,
  count_values-retain-le (λ (x : CachedMessage). x.device_id == message.device_id)
      (λ _ (x : CachedMessage). not (x.device_id == message.device_id && x.delivered))
      cache.messages,
)
