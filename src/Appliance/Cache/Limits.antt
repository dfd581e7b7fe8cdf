-- ===== src/Appliance/Cache/Limits.antt =====
-- crates/myriadmesh-appliance/src/cache.rs: the limits on the number of messages.
use myriadmesh_server.Base.{
  ℕ, ◌≤◌, ◌<◌, Bool, true, false, not, ◌&&◌, inl, inr, List, [], ◌∷◌, length, String, sym, ap, ◌≡◌,
  arith, leb, if◌then◌else◌, ◌==◌, string_eq, Bool-cases, Option-cases, length-select-le,
}
use mathlib.Core.Path.{subst₂}
use myriadmesh_server.Base.Map.{
  retain, insert, remove, Distinct, Distinct-insert, Distinct-remove, Distinct-retain,
  length-insert, length-remove-le,
}
use myriadmesh_server.Base.Counts.{
  count_values, update, count_values-retain-le, count_values-remove-le, count_values-insert-le,
  count_values-update, Distinct-update, length-update,
}
use myriadmesh_server.Appliance.Cache.Message.{CachedMessage}
use myriadmesh_server.Appliance.Cache.{save, store_below_total, store}
use myriadmesh_server.Appliance.Cache.Entries.{
  Messages, MessageCache, MessageCacheConfig, Json, device_count, remove_all, evict_messages_locked,
  evict_global_locked, is_current,
}

-- No key is stored twice, and neither limit is exceeded.
pub record IsBounded (config : MessageCacheConfig) (entries : Messages) : Type 0 where
  pub distinct : Distinct entries
  pub total : length entries ≤ config.max_total_messages
  pub per_device :
      (device_id : String) → device_count device_id entries ≤ config.max_messages_per_device

-- The second table holds no more than the first, of any kind.
pub record Shrinks (m n : Messages) : Type 0 where
  pub distinct : Distinct m → Distinct n
  pub total : length n ≤ length m
  pub count : (p : CachedMessage → Bool) → count_values p n ≤ count_values p m

Shrinks-trans : {a b c : Messages} → Shrinks a b → Shrinks b c → Shrinks a c
Shrinks-trans u v = record {
  distinct = λ d. v.distinct (u.distinct d);
  total = omega (arith, u.total, v.total);
  count = λ p. omega (arith, u.count p, v.count p);
}

pub Shrinks-retain : (q : String → CachedMessage → Bool) (m : Messages) → Shrinks m (retain q m)
Shrinks-retain q m = record {
  distinct = Distinct-retain q m;
  total = length-select-le _ m;
  count = λ p. count_values-retain-le p q m;
}

Shrinks-remove_all : (m : Messages) (ids : List String) → Shrinks m (remove_all m ids)
unfolding remove_all
Shrinks-remove_all m [] = record {
  distinct = λ d. d;
  total = omega arith;
  count = λ p. omega arith;
}
Shrinks-remove_all m (id ∷ ids) =
    Shrinks-trans
      (record {
        distinct = Distinct-remove m id;
        total = length-remove-le m id;
        count = λ p. count_values-remove-le p m id;
      })
      (Shrinks-remove_all (remove m id) ids)

Shrinks-if :
    {m a b : Messages} (test : Bool) → Shrinks m a → Shrinks m b → Shrinks m (if test then a else b)
Shrinks-if true u v = u
Shrinks-if false u v = v

undelivered_left :
    (m : Messages) (device_id : String)
    → Shrinks m (retain (λ _ (x : CachedMessage). not (x.device_id == device_id && x.delivered)) m)
undelivered_left m device_id =
    Shrinks-retain (λ _ (x : CachedMessage). not (x.device_id == device_id && x.delivered)) m

pub evict_messages_locked-Shrinks :
    (m : Messages) (device_id : String) (config : MessageCacheConfig)
    → Shrinks m (evict_messages_locked m device_id config)
unfolding evict_messages_locked
evict_messages_locked-Shrinks m device_id config =
    Shrinks-if _ (Shrinks-trans (undelivered_left m device_id) (Shrinks-remove_all _ _))
      (undelivered_left m device_id)

pub evict_global_locked-Shrinks : (now : ℕ) (m : Messages) → Shrinks m (evict_global_locked now m)
unfolding evict_global_locked
evict_global_locked-Shrinks now m =
    Shrinks-trans (Shrinks-retain (λ _ x. not x.delivered) m)
      (Shrinks-retain (λ _. is_current now) _)

pub shrunk :
    {config : MessageCacheConfig} {m n : Messages}
    → IsBounded config m
    → Shrinks m n
    → IsBounded config n
shrunk v u = record {
  distinct = u.distinct v.distinct;
  total = omega (arith, u.total, v.total);
  per_device =
      λ d. omega (arith, u.count (λ (x : CachedMessage). x.device_id == d), v.per_device d);
}

-- A message fits where its device and the whole have room for one.
inserted :
    {config : MessageCacheConfig} (m : Messages) (message : CachedMessage)
    → IsBounded config m
    → device_count message.device_id m < config.max_messages_per_device
    → length m < config.max_total_messages
    → IsBounded config (insert m message.message_id message)
inserted m message v room room_in_all = record {
  distinct = Distinct-insert m message.message_id message v.distinct;
  total = ground (arith, length-insert m message.message_id message, room_in_all);
  per_device = λ d. ground (
    arith,
    count_values-insert-le (λ (x : CachedMessage). x.device_id == d) m message.message_id message,
    v.per_device d,
    room,
    string_eq.same_iff message.device_id d,
    ap (λ k. device_count k m) {x = message.device_id} {y = d},
  );
}

pub updated :
    {config : MessageCacheConfig} (m : Messages) (id : String) (f : CachedMessage → CachedMessage)
    → ((x : CachedMessage) → (f x).device_id ≡ x.device_id)
    → IsBounded config m
    → IsBounded config (update m id f)
updated m id f same v = record {
  distinct = Distinct-update m id f v.distinct;
  total = ground (arith, length-update m id f, v.total);
  per_device = λ d. ground (
    arith,
    count_values-update (λ (x : CachedMessage). x.device_id == d) m id f
        (λ x. ap (λ k. k == d) (same x)),
    v.per_device d,
  );
}

module _ (json : Json) where
  pub save_lem :
      (cache : MessageCache)
      → ((save json cache).1.messages ≡ cache.messages)
        × ((save json cache).1.config ≡ cache.config)
  unfolding save
  save_lem cache = elim (Option-cases (json.to_string_pretty cache.messages)) [
    | inl e ↦ ground arith
    | inr (text, e) ↦ ground arith
  ]

  -- A cache within its limits.
  abbrev pub IsWithinLimits : MessageCache → Type 0
  IsWithinLimits cache = IsBounded cache.config cache.messages

  pub saved : (cache : MessageCache) → IsWithinLimits cache → IsWithinLimits (save json cache).1
  saved cache v = subst₂ IsBounded (sym (save_lem cache).1) (sym (save_lem cache).0) v

  store_below_total-IsWithinLimits :
      (now : ℕ) (cache : MessageCache) (message : CachedMessage)
      → IsWithinLimits cache
      → device_count message.device_id cache.messages < cache.config.max_messages_per_device
      → IsWithinLimits (store_below_total json now cache message).1
  unfolding store_below_total
  store_below_total-IsWithinLimits now cache message v room =
      let u = evict_global_locked-Shrinks now cache.messages in
      elim (Bool-cases (leb cache.config.max_total_messages (length cache.messages))) [
        | inr free ↦ rw free (saved _ (inserted cache.messages message v room (ground arith)))
        | inl full ↦
            rw full
              (elim (Bool-cases (
                leb cache.config.max_total_messages
                  (length (evict_global_locked now cache.messages)))) [
                    | inl still ↦ rw still (shrunk v u)
                    | inr freed ↦ rw freed (
                        saved _ (
                          inserted (evict_global_locked now cache.messages) message (shrunk v u)
                            (omega (
                              arith,
                              room,
                              u.count (λ (x : CachedMessage). x.device_id == message.device_id),
                            ))
                            (ground arith)))
                  ])
      ]

  -- Storing a message, accepted or refused, with an eviction or without, leaves a cache that was
  -- within its limits within them.
  pub store-IsWithinLimits :
      (now : ℕ) (cache : MessageCache) (message : CachedMessage)
      → IsWithinLimits cache
      → IsWithinLimits (store json now cache message).1
  unfolding store
  store-IsWithinLimits now cache message v =
      let data' = evict_messages_locked cache.messages message.device_id cache.config in
      let u = evict_messages_locked-Shrinks cache.messages message.device_id cache.config in
      elim (Bool-cases (
        leb cache.config.max_messages_per_device (device_count message.device_id cache.messages))) [
          | inr free ↦ rw free (store_below_total-IsWithinLimits now cache message v (ground arith))
          | inl full ↦
              rw full
                (elim (Bool-cases (
                  leb cache.config.max_messages_per_device
                    (device_count message.device_id data'))) [
                      | inl still ↦ rw still (shrunk v u)
                      | inr freed ↦ rw freed (
                          store_below_total-IsWithinLimits now (record cache { messages = data' })
                            message (shrunk v u) (ground arith))
                    ])
        ]
