-- ===== src/Appliance/Cache/History.antt =====
-- crates/myriadmesh-appliance/src/cache.rs: histories of calls. Each call holds the lock of the store
-- from its check to its change, so that a history is a sequence; `check_limits`, which nothing
-- calls, lets go of it between two steps that are calls here as well.
use myriadmesh_server.Base.{
  ℕ, ◌-◌, not, inl, inr, List, [], ◌∷◌, String, length, ltb, leb, ◌==◌, string_eq, Bool-cases, refl,
}
use myriadmesh_server.Base.Map.{retain}
use myriadmesh_server.Base.Counts.{update}
use myriadmesh_server.Base.Result.{ok, err}
use myriadmesh_server.Appliance.Error.{Outcome}
use myriadmesh_server.Appliance.Cache.Message.{CachedMessage}
use myriadmesh_server.Appliance.Cache.{
  store, check_total, check_again, check_limits, evict_messages, evict_global, mark_delivered,
  increment_delivery_attempts, cleanup_expired, delete_device_messages,
}
use myriadmesh_server.Appliance.Cache.Entries.{
  Messages, MessageCache, MessageCacheConfig, Json, is_current, device_count, mark_each,
  set_delivered,
}
use myriadmesh_server.Appliance.Cache.Limits.{
  IsBounded, IsWithinLimits, Shrinks-retain, shrunk, updated, saved, store-IsWithinLimits,
  evict_messages_locked-Shrinks, evict_global_locked-Shrinks,
}

-- The calls that change a cache, each with the time that it reads.
pub data Call : Type 0 where
  storing : ℕ → CachedMessage → Call
  checking : ℕ → String → Call
  evicting : String → Call
  evicting_all : ℕ → Call
  marking : List String → Call
  attempting : String → Call
  cleaning : ℕ → Call
  deleting : String → Call

module _ (json : Json) where
  abbrev pub perform : Call → MessageCache → MessageCache
  perform (storing now message) cache = (store json now cache message).1
  perform (checking now device_id) cache = (check_limits json now cache device_id).1
  perform (evicting device_id) cache = (evict_messages json cache device_id).1
  perform (evicting_all now) cache = (evict_global json now cache).1
  perform (marking ids) cache = (mark_delivered json cache ids).1
  perform (attempting id) cache = (increment_delivery_attempts json cache id).1
  perform (cleaning now) cache = (cleanup_expired json now cache).1
  perform (deleting device_id) cache = (delete_device_messages json cache device_id).1

  -- the caches that calls lead to
  pub data Reaches : MessageCache → MessageCache → Type 0 where
    stay : {cache : MessageCache} → Reaches cache cache
    call : {a b : MessageCache} (c : Call) → Reaches a b → Reaches a (perform c b)

  mark_each-IsBounded :
      {config : MessageCacheConfig} (m : Messages) (ids : List String)
      → IsBounded config m
      → IsBounded config (mark_each m ids)
  unfolding mark_each
  mark_each-IsBounded m [] v = v
  mark_each-IsBounded m (id ∷ ids) v =
      mark_each-IsBounded (update m id set_delivered) ids (updated m id set_delivered (λ x. refl) v)

  cleanup_expired-IsWithinLimits :
      (now : ℕ) (cache : MessageCache)
      → IsWithinLimits json cache
      → IsWithinLimits json (cleanup_expired json now cache).1
  unfolding cleanup_expired
  cleanup_expired-IsWithinLimits now cache v =
      let w = shrunk v (Shrinks-retain (λ _. is_current now) cache.messages) in
      elim (Bool-cases
        (ltb 0 (length cache.messages - length (retain (λ _. is_current now) cache.messages)))) [
          | inl some_deleted ↦ rw some_deleted (saved json _ w)
          | inr none_deleted ↦ rw none_deleted w
        ]

  mark_delivered-IsWithinLimits :
      (ids : List String) (cache : MessageCache)
      → IsWithinLimits json cache
      → IsWithinLimits json (mark_delivered json cache ids).1
  unfolding mark_delivered
  mark_delivered-IsWithinLimits [] cache v = v
  mark_delivered-IsWithinLimits (id ∷ ids) cache v =
      saved json _ (mark_each-IsBounded cache.messages (id ∷ ids) v)

  evict_messages-IsWithinLimits :
      (device_id : String) (cache : MessageCache)
      → IsWithinLimits json cache
      → IsWithinLimits json (evict_messages json cache device_id).1
  unfolding evict_messages
  evict_messages-IsWithinLimits device_id cache v =
      saved json _ (shrunk v (evict_messages_locked-Shrinks cache.messages device_id cache.config))

  check_total-IsWithinLimits :
      (now : ℕ) (cache : MessageCache)
      → IsWithinLimits json cache
      → IsWithinLimits json (check_total json now cache).1
  unfolding check_total evict_global
  check_total-IsWithinLimits now cache v =
      elim (Bool-cases (leb cache.config.max_total_messages (length cache.messages))) [
        | inl full ↦
            rw full (saved json _ (shrunk v (evict_global_locked-Shrinks now cache.messages)))
        | inr room ↦ rw room v
      ]

  check_again-IsWithinLimits :
      (now : ℕ) (device_id : String) (r : Outcome MessageCache (Unit {0}))
      → IsWithinLimits json r.1
      → IsWithinLimits json (check_again json now device_id r).1
  check_again-IsWithinLimits now device_id (err e, cache) v = v
  check_again-IsWithinLimits now device_id (ok u, cache) v =
      elim (Bool-cases
        (leb cache.config.max_messages_per_device (device_count device_id cache.messages))) [
          | inl full ↦ rw full v
          | inr room ↦ rw room (check_total-IsWithinLimits now cache v)
        ]

  check_limits-IsWithinLimits :
      (now : ℕ) (device_id : String) (cache : MessageCache)
      → IsWithinLimits json cache
      → IsWithinLimits json (check_limits json now cache device_id).1
  unfolding check_limits
  check_limits-IsWithinLimits now device_id cache v =
      elim (Bool-cases
        (leb cache.config.max_messages_per_device (device_count device_id cache.messages))) [
          | inl full ↦ rw full (
              check_again-IsWithinLimits now device_id (evict_messages json cache device_id)
                (evict_messages-IsWithinLimits device_id cache v))
          | inr room ↦ rw room (check_total-IsWithinLimits now cache v)
        ]

  perform-IsWithinLimits :
      (c : Call) (cache : MessageCache)
      → IsWithinLimits json cache
      → IsWithinLimits json (perform c cache)
  unfolding evict_global increment_delivery_attempts delete_device_messages
  perform-IsWithinLimits (storing now message) cache v =
      store-IsWithinLimits json now cache message v
  perform-IsWithinLimits (checking now device_id) cache v =
      check_limits-IsWithinLimits now device_id cache v
  perform-IsWithinLimits (evicting device_id) cache v =
      evict_messages-IsWithinLimits device_id cache v
  perform-IsWithinLimits (evicting_all now) cache v =
      saved json _ (shrunk v (evict_global_locked-Shrinks now cache.messages))
  perform-IsWithinLimits (marking ids) cache v = mark_delivered-IsWithinLimits ids cache v
  perform-IsWithinLimits (attempting id) cache v =
      saved json _ (updated cache.messages id _ (λ x. refl) v)
  perform-IsWithinLimits (cleaning now) cache v = cleanup_expired-IsWithinLimits now cache v
  perform-IsWithinLimits (deleting device_id) cache v = saved json _ (
      shrunk v
        (Shrinks-retain (λ _ (x : CachedMessage). not (x.device_id == device_id)) cache.messages))

  -- Whatever calls are made of a message cache, and whether they succeed or fail, a cache
  -- within its limits stays within them: no message is kept twice, no device has more messages
  -- than the limit of a device and the whole no more than the total.
  pub reached-IsWithinLimits :
      (a b : MessageCache) → Reaches a b → IsWithinLimits json a → IsWithinLimits json b
  reached-IsWithinLimits a b stay v = v
  reached-IsWithinLimits a b (call {b = b'} c r) v =
      perform-IsWithinLimits c b' (reached-IsWithinLimits a b' r v)
