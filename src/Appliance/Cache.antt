-- ===== src/Appliance/Cache.antt =====
-- crates/myriadmesh-appliance/src/cache.rs: messages kept for devices, by priority and time.
-- Times are counts of milliseconds, and an operation is given the time that it reads.
pub mod Message
pub mod Entries
pub mod Limits
pub mod History
pub mod Eviction
pub mod Delivery
pub mod Keeping
use myriadmesh_server.Base.{
  ℕ, suc, ◌+◌, ◌-◌, Bool, true, false, not, ◌&&◌, Option, none, some, List, [], ◌∷◌, map, length,
  take, select, is_empty, String, add64, ltb, leb, if◌then◌else◌, ◌==◌, string_eq, u32_mod, ◌%◌,
}
use myriadmesh_server.Base.Map.{Map, values, retain, insert, remove}
use myriadmesh_server.Base.Counts.{count_values, update}
use myriadmesh_server.Base.Sort.{sort_by}
use myriadmesh_server.Base.Result.{Result, ok, err, ◌>>◌}
use myriadmesh_server.Appliance.Error.{ApplianceError, Outcome, cache_full, io, serialization}
use myriadmesh_server.Appliance.Cache.Message.{
  CachedMessage, MessagePriority, low, normal, high, urgent, device_order, delivery_order,
  seconds_between, Seconds, longest,
}
use myriadmesh_server.Appliance.Cache.Entries.{
  CacheFile, CacheStats, Json, MessageCache, MessageCacheConfig, Messages, PriorityStats, count_one,
  count_priorities, default_config, device_count, evict_global_locked, evict_messages_locked,
  get_stats, is_current, limit_or_default, mark_each, of_device, remove_all, retrieve,
  set_delivered,
}

module _ (json : Json) where
  unfoldable pub new : CacheFile → MessageCacheConfig → Result ApplianceError MessageCache
  new file config = elim file.contents [
    | none ↦ ok (record { messages = []; config = config; file = file })
    | some text ↦
        if file.read_fails
        then err io
        else (if text == ""
            then ok (record { messages = []; config = config; file = file })
            else elim (json.from_str text) [
              | none ↦ err serialization
              | some entries ↦ ok (record { messages = entries; config = config; file = file })
            ])
  ]

  unfoldable pub save : MessageCache → Outcome MessageCache (Unit {0})
  save cache = elim (json.to_string_pretty cache.messages) [
    | none ↦ (err serialization, cache)
    | some text ↦
        if cache.file.write_fails
        then (err io, cache)
        else (ok tt, record cache { file = record cache.file { contents = some text } })
  ]

  -- the check of the total, and the insertion
  unfoldable pub store_below_total :
      ℕ → MessageCache → CachedMessage → Outcome MessageCache (Unit {0})
  unfolding save evict_global_locked
  store_below_total now cache message =
      let inserted : Messages → Outcome MessageCache (Unit {0}) =
        λ entries. save (record cache { messages = insert entries message.message_id message }) in
      if leb cache.config.max_total_messages (length cache.messages)
      then (let entries = evict_global_locked now cache.messages in
          if leb cache.config.max_total_messages (length entries)
          then (err cache_full, record cache { messages = entries })
          else inserted entries)
      else inserted cache.messages

  unfoldable pub store : ℕ → MessageCache → CachedMessage → Outcome MessageCache (Unit {0})
  unfolding store_below_total evict_messages_locked
  store now cache message =
      let limit = cache.config.max_messages_per_device in
      if leb limit (device_count message.device_id cache.messages)
      then (let entries = evict_messages_locked cache.messages message.device_id cache.config in
          if leb limit (device_count message.device_id entries)
          then (err cache_full, record cache { messages = entries })
          else store_below_total now (record cache { messages = entries }) message)
      else store_below_total now cache message

  unfoldable pub evict_messages : MessageCache → String → Outcome MessageCache (Unit {0})
  unfolding save evict_messages_locked
  evict_messages cache device_id =
      save (record cache { messages = evict_messages_locked cache.messages device_id cache.config })

  unfoldable pub evict_global : ℕ → MessageCache → Outcome MessageCache (Unit {0})
  unfolding save evict_global_locked
  evict_global now cache = save (record cache { messages = evict_global_locked now cache.messages })

  -- the check of the total alone
  unfoldable pub check_total : ℕ → MessageCache → Outcome MessageCache (Unit {0})
  unfolding evict_global
  check_total now cache =
      if leb cache.config.max_total_messages (length cache.messages)
      then evict_global now cache
      else (ok tt, cache)

  -- what `check_limits` does after the eviction for the device
  abbrev pub check_again :
      ℕ → String → Outcome MessageCache (Unit {0}) → Outcome MessageCache (Unit {0})
  check_again now device_id (err e, cache) = (err e, cache)
  check_again now device_id (ok u, cache) =
      if leb cache.config.max_messages_per_device (device_count device_id cache.messages)
      then (err cache_full, cache)
      else check_total now cache

  unfoldable pub check_limits : ℕ → MessageCache → String → Outcome MessageCache (Unit {0})
  unfolding evict_messages check_total
  check_limits now cache device_id =
      if leb cache.config.max_messages_per_device (device_count device_id cache.messages)
      then check_again now device_id (evict_messages cache device_id)
      else check_total now cache

  unfoldable pub mark_delivered : MessageCache → List String → Outcome MessageCache (Unit {0})
  unfolding save mark_each
  mark_delivered cache message_ids =
      if is_empty message_ids
      then (ok tt, cache)
      else save (record cache { messages = mark_each cache.messages message_ids })

  unfoldable pub increment_delivery_attempts :
      MessageCache → String → Outcome MessageCache (Unit {0})
  unfolding save
  increment_delivery_attempts cache message_id = save (record cache {
    messages =
        update cache.messages message_id λ (m : CachedMessage). record m {
          delivery_attempts = (m.delivery_attempts + 1) % u32_mod;
        };
  })

  unfoldable pub cleanup_expired : ℕ → MessageCache → Outcome MessageCache ℕ
  unfolding save
  cleanup_expired now cache =
      let entries = retain (λ _. is_current now) cache.messages in
      let deleted = length cache.messages - length entries in
      let cache' = record cache { messages = entries } in
      if ltb 0 deleted
      then (let (result, cache'') = save cache' in (result >> ok deleted, cache''))
      else (ok deleted, cache')

  unfoldable pub delete_device_messages : MessageCache → String → Outcome MessageCache (Unit {0})
  unfolding save
  delete_device_messages cache device_id = save (record cache {
    messages = retain (λ _ (m : CachedMessage). not (m.device_id == device_id)) cache.messages;
  })
