-- ===== src/Appliance/Cache/Keeping.antt =====
-- crates/myriadmesh-appliance/src/cache.rs: what holds of every message of a cache, through the
-- operations, whether they succeed or fail.
use myriadmesh_server.Base.{
  ℕ, ◌-◌, Bool, true, false, not, ◌&&◌, inl, inr, ◌≡◌, sym, List, [], ◌∷◌, String, ◌==◌, string_eq,
  Bool-cases, leb, ltb, length, is_empty, All, if◌then◌else◌,
}
use mathlib.Core.Path.{subst}
use myriadmesh_server.Base.Map.{remove, retain, insert}
use myriadmesh_server.Base.Counts.{update}
use myriadmesh_server.Base.Every.{All-insert, All-remove, All-select, All-selected, All-update}
use myriadmesh_server.Appliance.Cache.Message.{CachedMessage}
use myriadmesh_server.Appliance.Cache.{
  cleanup_expired, delete_device_messages, mark_delivered, save, store, store_below_total,
}
use myriadmesh_server.Appliance.Cache.Entries.{
  Json, MessageCache, MessageCacheConfig, Messages, device_count, evict_global_locked,
  evict_messages_locked, is_current, mark_each, remove_all, set_delivered,
}
use myriadmesh_server.Appliance.Cache.Limits.{save_lem}

module _ (json : Json) where
  All-saved :
      (P : String × CachedMessage → Type 0) (cache : MessageCache)
      → All P cache.messages
      → All P (save json cache).1.messages
  All-saved P cache a = subst (All P) (sym (save_lem json cache).0) a

module _ (json : Json) (P : String × CachedMessage → Type 0) where
  All-remove_all : (m : Messages) (ids : List String) → All P m → All P (remove_all m ids)
  unfolding remove_all
  All-remove_all m [] a = a
  All-remove_all m (id ∷ ids) a = All-remove_all (remove m id) ids (All-remove P m id a)

  All-if : (b : Bool) (m n : Messages) → All P m → All P n → All P (if b then m else n)
  All-if true m n a c = a
  All-if false m n a c = c

  All-evict_messages_locked :
      (m : Messages) (id : String) (config : MessageCacheConfig)
      → All P m
      → All P (evict_messages_locked m id config)
  unfolding evict_messages_locked
  All-evict_messages_locked m id config a =
      let left = All-select P (λ e. not (e.1.device_id == id && e.1.delivered)) m a in
      All-if _ _ _ (All-remove_all _ _ left) left

  All-evict_global_locked : (now : ℕ) (m : Messages) → All P m → All P (evict_global_locked now m)
  unfolding evict_global_locked
  All-evict_global_locked now m a =
      All-select P (λ e. is_current now e.1) _ (All-select P (λ e. not e.1.delivered) m a)

  All-store_below_total :
      (now : ℕ) (cache : MessageCache) (message : CachedMessage)
      → P (message.message_id, message)
      → All P cache.messages
      → All P (store_below_total json now cache message).1.messages
  unfolding store_below_total
  All-store_below_total now cache message p a =
      let evicted = evict_global_locked now cache.messages in
      let left = All-evict_global_locked now cache.messages a in
      elim (Bool-cases (leb cache.config.max_total_messages (length cache.messages))) [
        | inr room ↦ rw room (
            All-saved json P
              (record cache { messages = insert cache.messages message.message_id message })
              (All-insert P cache.messages message.message_id message p a))
        | inl full ↦ elim (Bool-cases (leb cache.config.max_total_messages (length evicted))) [
          | inl still ↦ rw (full, still) left
          | inr freed ↦
              rw (full, freed)
                (All-saved json P
                  (record cache { messages = insert evicted message.message_id message })
                  (All-insert P evicted message.message_id message p left))
        ]
      ]

  -- A message that is stored is the only one added.
  pub All-store :
      (now : ℕ) (cache : MessageCache) (message : CachedMessage)
      → P (message.message_id, message)
      → All P cache.messages
      → All P (store json now cache message).1.messages
  unfolding store
  All-store now cache message p a =
      let id = message.device_id in
      let limit = cache.config.max_messages_per_device in
      let evicted = evict_messages_locked cache.messages id cache.config in
      let left = All-evict_messages_locked cache.messages id cache.config a in
      elim (Bool-cases (leb limit (device_count id cache.messages))) [
        | inr room ↦ rw room (All-store_below_total now cache message p a)
        | inl full ↦ elim (Bool-cases (leb limit (device_count id evicted))) [
          | inl still ↦ rw (full, still) left
          | inr freed ↦
              rw (full, freed)
                (All-store_below_total now (record cache { messages = evicted }) message p left)
        ]
      ]

  All-mark_each :
      (m : Messages) (ids : List String)
      → ((k : String) (v : CachedMessage) → P (k, v) → P (k, set_delivered v))
      → All P m
      → All P (mark_each m ids)
  unfolding mark_each
  All-mark_each m [] keep a = a
  All-mark_each m (id ∷ ids) keep a =
      All-mark_each (update m id set_delivered) ids keep
        (All-update P m id set_delivered (keep id) a)

  pub All-mark_delivered :
      (cache : MessageCache) (ids : List String)
      → ((k : String) (v : CachedMessage) → P (k, v) → P (k, set_delivered v))
      → All P cache.messages
      → All P (mark_delivered json cache ids).1.messages
  unfolding mark_delivered
  All-mark_delivered cache ids keep a = elim (Bool-cases (is_empty ids)) [
    | inl none_named ↦ rw none_named a
    | inr some_named ↦ rw some_named (
        All-saved json P (record cache { messages = mark_each cache.messages ids })
          (All-mark_each cache.messages ids keep a))
  ]

  pub All-cleanup_expired :
      (now : ℕ) (cache : MessageCache)
      → All P cache.messages
      → All P (cleanup_expired json now cache).1.messages
  unfolding cleanup_expired
  All-cleanup_expired now cache a =
      let left = retain (λ _. is_current now) cache.messages in
      let kept = All-select P (λ e. is_current now e.1) cache.messages a in
      elim (Bool-cases (ltb 0 (length cache.messages - length left))) [
        | inl some_gone ↦ rw some_gone (All-saved json P (record cache { messages = left }) kept)
        | inr none_gone ↦ rw none_gone kept
      ]

  -- No message of the device is left.
  pub All-delete_device_messages :
      (cache : MessageCache) (id : String)
      → All P cache.messages
      → All
          (λ e. P e × (not (e.1.device_id == id) ≡ true))
          (delete_device_messages json cache id).1.messages
  unfolding delete_device_messages
  All-delete_device_messages cache id a =
      All-saved json (λ e. P e × (not (e.1.device_id == id) ≡ true))
        (record cache {
          messages = retain (λ _ (m : CachedMessage). not (m.device_id == id)) cache.messages;
        })
        (All-selected P (λ e. not (e.1.device_id == id)) cache.messages a)
