-- ===== src/Appliance/Cache/Delivery.antt =====
-- crates/myriadmesh-appliance/src/cache.rs: the retrieval of messages, their delivery and expiry.
use myriadmesh_server.Base.{
  ℕ, ◌+◌, ◌-◌, ◌≤◌, ◌<◌, min, Bool, true, not, ◌&&◌, ◌⊎◌, inl, inr, Option, List, [], ◌∷◌, ◌++◌,
  length, drop, take-append-drop, length-select-le, length-take, String, refl, sym, ap, ◌≡◌, ◌∙◌,
  arith, ltb, if◌then◌else◌, ◌==◌, string_eq, Bool-cases, select, u64_mod, keep_if, any_of,
}
use mathlib.Core.Path.{subst}
use mathlib.Core.Option
use mathlib.Core.List.{Perm}
use myriadmesh_server.Base.Map.{values, retain, get, Distinct, get-retain}
use myriadmesh_server.Base.Counts.{update, get-update}
use myriadmesh_server.Base.Sort.{sort_by, IsSorted, sort_by-IsSorted, sort_by-perm, length-sort_by}
use myriadmesh_server.Base.Result.{ok, ◌>>◌, Result-cases}
use myriadmesh_server.Appliance.Cache.Message.{
  CachedMessage, delivery_order, MessagePriority, low, normal, high, urgent,
}
use myriadmesh_server.Appliance.Cache.{mark_delivered, save, cleanup_expired}
use myriadmesh_server.Appliance.Cache.Entries.{
  limit_or_default, Messages, MessageCache, Json, retrieve, mark_each, set_delivered, PriorityStats,
  count_one, count_priorities, get_stats, is_current,
}
use myriadmesh_server.Appliance.Cache.Limits.{save_lem}

-- the messages that a retrieval chooses from
abbrev pub asked_for : MessageCache → String → Bool → List CachedMessage
asked_for cache device_id only_undelivered =
    select
      (λ (m : CachedMessage).
        m.device_id == device_id && (if not only_undelivered then true else not m.delivered))
      (values cache.messages)

delivery_order_total :
    (a b : CachedMessage) → (delivery_order a b ≡ true) ⊎ (delivery_order b a ≡ true)
delivery_order_total a b = ground arith

delivery_order_trans :
    (a b c : CachedMessage)
    → delivery_order a b ≡ true
    → delivery_order b c ≡ true
    → delivery_order a c ≡ true
delivery_order_trans a b c u v = ground arith

-- What is returned, and what is left out: together the messages asked for, in the order of
-- delivery.
pub record IsRetrieval (asked : List CachedMessage) (limit : ℕ) (result : List CachedMessage)
    : Type 0 where
  pub left_out : List CachedMessage
  pub complete : Perm (result ++ left_out) asked
  pub ordered : IsSorted delivery_order (result ++ left_out)
  pub length_of : length result ≡ min limit (length asked)

-- A retrieval returns messages of the device, undelivered ones alone if so asked, as many as
-- there are up to the limit, or 100, ordered by descending priority and then by time of
-- receipt, and what it leaves out comes after what it returns.
pub retrieve-IsRetrieval :
    (cache : MessageCache) (device_id : String) (limit : Option ℕ) (only_undelivered : Bool)
    → IsRetrieval
        (asked_for cache device_id only_undelivered)
        (limit_or_default limit)
        (retrieve cache device_id limit only_undelivered)
unfolding retrieve
retrieve-IsRetrieval cache device_id limit only_undelivered =
    let sorted = sort_by delivery_order (asked_for cache device_id only_undelivered) in
    let whole = take-append-drop (limit_or_default limit) sorted in
    record {
      left_out = drop (limit_or_default limit) sorted;
      complete =
          subst (λ l. Perm l (asked_for cache device_id only_undelivered)) (sym whole)
            (sort_by-perm delivery_order (asked_for cache device_id only_undelivered));
      ordered = subst (IsSorted delivery_order) (sym whole) (
          sort_by-IsSorted delivery_order delivery_order_total delivery_order_trans
            (asked_for cache device_id only_undelivered));
      length_of = omega (
        arith,
        length-take (limit_or_default limit) sorted,
        length-sort_by delivery_order (asked_for cache device_id only_undelivered),
      );
    }

-- The look-up of a message after each of the marks.
get-mark_each :
    (m : Messages) (ids : List String) (id : String)
    → get (mark_each m ids) id
      ≡ (if any_of (λ i. i == id) ids then Option.map set_delivered (get m id) else get m id)
unfolding mark_each any_of
get-mark_each m [] id = refl
get-mark_each m (i ∷ ids) id =
    ground (arith, get-mark_each (update m i set_delivered) ids id, get-update m i id set_delivered)

-- Marking messages as delivered marks those of the named messages that the cache holds and
-- leaves every other as it was, whether the file can be written or not.
pub mark_delivered_lem :
    (json : Json) (cache : MessageCache) (ids : List String) (id : String)
    → get (mark_delivered json cache ids).1.messages id ≡ (
        if any_of (λ i. i == id) ids
        then Option.map set_delivered (get cache.messages id)
        else get cache.messages id)
unfolding mark_delivered any_of
mark_delivered_lem json cache [] id = refl
mark_delivered_lem json cache (i ∷ ids) id =
    ap (λ m. get m id)
      (save_lem json (record cache { messages = mark_each cache.messages (i ∷ ids) })).0
    ∙ get-mark_each cache.messages (i ∷ ids) id

save_outcome :
    (json : Json) (cache : MessageCache) (k n : ℕ) → ((save json cache).0 >> ok k) ≡ ok n → n ≡ k
save_outcome json cache k n h = elim (Result-cases (save json cache).0) [
  | inl (u, e) ↦ ground arith
  | inr (x, e) ↦ absurd (ground arith)
]

-- A clean-up keeps exactly the messages that expire after the time it reads, and a number that
-- it returns is that of the messages removed, where no message is kept twice.
pub cleanup_expired_lem :
    (json : Json) (now : ℕ) (cache : MessageCache) (id : String)
    → Distinct cache.messages
    → let (result, cache') = cleanup_expired json now cache in
      (get cache'.messages id ≡ keep_if (is_current now) (get cache.messages id))
      × ((n : ℕ) → result ≡ ok n → n + length cache'.messages ≡ length cache.messages)
unfolding cleanup_expired
cleanup_expired_lem json now cache id d =
    let kept = retain (λ _. is_current now) cache.messages in
    let found = get-retain (λ _. is_current now) cache.messages id d in
    let fewer =
      length-select-le (λ (e : String × CachedMessage). is_current now e.1) cache.messages in
    let same = (save_lem json (record cache { messages = kept })).0 in
    elim (Bool-cases (ltb 0 (length cache.messages - length kept))) [
      | inl some_deleted ↦ rw some_deleted (
        ap (λ m. get m id) same ∙ found,
        λ n h.
            let count = save_outcome json (record cache { messages = kept }) _ n h in
            omega (arith, count, ap length same, fewer),
      )
      | inr none_deleted ↦ rw none_deleted (found, λ n h. ground (arith, fewer, h))
    ]

count_one_total :
    (n : PriorityStats) (p : MessagePriority)
    → n.urgent_count + n.high_count + n.normal_count + n.low_count + 1 < u64_mod
    → let r = count_one n p in
      r.urgent_count + r.high_count + r.normal_count + r.low_count
      ≡ n.urgent_count + n.high_count + n.normal_count + n.low_count + 1
count_one_total n urgent small = omega (arith, small)
count_one_total n high small = omega (arith, small)
count_one_total n normal small = omega (arith, small)
count_one_total n low small = omega (arith, small)

count_priorities_total :
    (ms : List CachedMessage) (n : PriorityStats)
    → n.urgent_count + n.high_count + n.normal_count + n.low_count + length ms < u64_mod
    → let r = count_priorities ms n in
      r.urgent_count + r.high_count + r.normal_count + r.low_count
      ≡ n.urgent_count + n.high_count + n.normal_count + n.low_count + length ms
unfolding count_priorities
count_priorities_total [] n small = omega arith
count_priorities_total (m ∷ ms) n small =
    let one = count_one_total n m.priority (omega (arith, small)) in
    let rest = count_priorities_total ms (count_one n m.priority) (omega (arith, small, one)) in
    omega (arith, one, rest)

-- In the statistics of a device the counts by priority add up to the number of its messages,
-- and the undelivered are not more, where the number of messages fits a word.
pub get_stats_total :
    (now : ℕ) (cache : MessageCache) (device_id : String)
    → length (values cache.messages) < u64_mod
    → let s = get_stats now cache device_id in
      (s.by_priority.urgent_count + s.by_priority.high_count + s.by_priority.normal_count
          + s.by_priority.low_count
        ≡ s.total_cached)
      × (s.undelivered ≤ s.total_cached)
unfolding get_stats
get_stats_total now cache device_id small =
    let mine = select (λ (m : CachedMessage). m.device_id == device_id) (values cache.messages) in
    (
      count_priorities_total mine
            (record { urgent_count = 0; high_count = 0; normal_count = 0; low_count = 0 })
            (omega (
              arith,
              small,
              length-select-le (λ (m : CachedMessage). m.device_id == device_id)
                  (values cache.messages),
            ))
          ∙ omega arith,
      length-select-le (λ (m : CachedMessage). not m.delivered) mine,
    )
