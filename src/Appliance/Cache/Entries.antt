-- ===== src/Appliance/Cache/Entries.antt =====
-- crates/myriadmesh-appliance/src/cache.rs: the state of the cache, its evictions, and what is read
-- of it. A JSON value is its text; the conversion of the store to and from JSON is the record `Json`.
use myriadmesh_server.Base.{
  ℕ, ◌-◌, Bool, true, not, ◌&&◌, Option, none, some, List, [], ◌∷◌, map, length, take, select,
  String, add64, ltb, if◌then◌else◌, ◌==◌, string_eq,
}
use myriadmesh_server.Base.Map.{Map, values, retain, remove}
use myriadmesh_server.Base.Counts.{count_values, update}
use myriadmesh_server.Base.Sort.{sort_by}
use myriadmesh_server.Appliance.Cache.Message.{
  CachedMessage, MessagePriority, low, normal, high, urgent, device_order, delivery_order,
  seconds_between, Seconds, longest,
}

abbrev pub Messages : Type 0
Messages = Map String CachedMessage

pub record MessageCacheConfig : Type 0 where
  pub max_messages_per_device : ℕ
  pub max_total_messages : ℕ

unfoldable pub default_config : MessageCacheConfig
default_config = record { max_messages_per_device = 1000; max_total_messages = 10000 }

-- `serde_json`: to text, which can fail, and back
pub record Json : Type 0 where
  pub to_string_pretty : Messages → Option String
  pub from_str : String → Option Messages

-- The file: its text if it exists, and whether it refuses to be read or written.
pub record CacheFile : Type 0 where
  pub contents : Option String
  pub read_fails : Bool
  pub write_fails : Bool

pub record MessageCache : Type 0 where
  pub messages : Messages
  pub config : MessageCacheConfig
  pub file : CacheFile

-- the number of messages of one device
abbrev pub device_count : String → Messages → ℕ
device_count device_id = count_values λ (m : CachedMessage). m.device_id == device_id

unfoldable pub remove_all : Messages → List String → Messages
remove_all entries [] = entries
remove_all entries (id ∷ ids) = remove_all (remove entries id) ids

-- the key of each message of the device, with what it is sorted by
abbrev pub of_device : String → Messages → Messages
of_device device_id = retain λ _ (m : CachedMessage). m.device_id == device_id

unfoldable pub evict_messages_locked : Messages → String → MessageCacheConfig → Messages
evict_messages_locked messages device_id config =
    let entries =
      retain (λ _ (m : CachedMessage). not (m.device_id == device_id && m.delivered)) messages in
    let device_messages = of_device device_id entries in
    if ltb config.max_messages_per_device (length device_messages)
    then (let to_remove = length device_messages - config.max_messages_per_device in
        remove_all entries (
          map (λ (e : String × CachedMessage). e.0)
            (take to_remove (sort_by device_order device_messages))))
    else entries

-- `expires_at > now` for the time `now`
abbrev pub is_current : ℕ → CachedMessage → Bool
is_current now m = ltb now m.expires_at

unfoldable pub evict_global_locked : ℕ → Messages → Messages
evict_global_locked now messages =
    retain (λ _. is_current now) (retain (λ _ (m : CachedMessage). not m.delivered) messages)

-- `limit.unwrap_or(100)`
abbrev pub limit_or_default : Option ℕ → ℕ
limit_or_default none = 100
limit_or_default (some limit) = limit

unfoldable pub retrieve : MessageCache → String → Option ℕ → Bool → List CachedMessage
retrieve cache device_id limit only_undelivered =
    let messages =
      select
        (λ (m : CachedMessage).
          m.device_id == device_id && (if not only_undelivered then true else not m.delivered))
        (values cache.messages) in
    take (limit_or_default limit) (sort_by delivery_order messages)

pub record PriorityStats : Type 0 where
  pub urgent_count : ℕ
  pub high_count : ℕ
  pub normal_count : ℕ
  pub low_count : ℕ

pub record CacheStats : Type 0 where
  pub stats_device : String
  pub total_cached : ℕ
  pub by_priority : PriorityStats
  pub undelivered : ℕ
  pub oldest_message_age_secs : Seconds

-- `match msg.priority`
abbrev pub count_one : PriorityStats → MessagePriority → PriorityStats
count_one n urgent = record n { urgent_count = add64 n.urgent_count 1 }
count_one n high = record n { high_count = add64 n.high_count 1 }
count_one n normal = record n { normal_count = add64 n.normal_count 1 }
count_one n low = record n { low_count = add64 n.low_count 1 }

-- the loop that counts the priorities
unfoldable pub count_priorities : List CachedMessage → PriorityStats → PriorityStats
count_priorities [] n = n
count_priorities (msg ∷ rest) n = count_priorities rest (count_one n msg.priority)

unfoldable pub get_stats : ℕ → MessageCache → String → CacheStats
get_stats now cache device_id =
    let device_messages =
      select (λ (m : CachedMessage). m.device_id == device_id) (values cache.messages) in
    record {
      stats_device = device_id;
      total_cached = length device_messages;
      by_priority =
          count_priorities device_messages
            (record { urgent_count = 0; high_count = 0; normal_count = 0; low_count = 0 });
      undelivered = length (select (λ (m : CachedMessage). not m.delivered) device_messages);
      oldest_message_age_secs =
          longest (map (λ (m : CachedMessage). seconds_between now m.received_at) device_messages);
    }

abbrev pub set_delivered : CachedMessage → CachedMessage
set_delivered m = record m { delivered = true }

unfoldable pub mark_each : Messages → List String → Messages
mark_each entries [] = entries
mark_each entries (id ∷ ids) = mark_each (update entries id set_delivered) ids
