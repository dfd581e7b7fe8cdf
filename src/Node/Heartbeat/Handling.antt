-- ===== src/Node/Heartbeat/Handling.antt =====
-- myriadnode-full/src/heartbeat.rs: what a heartbeat, and the removal of stale nodes, do to the map
-- of nodes.
use mathlib.Core.Path.{subst}
use myriadmesh_server.Base.{
  ℕ, ◌+◌, ◌≤◌, ◌<◌, ◌^◌, ◌≡◌, ◌⊎◌, inl, inr, refl, sym, Bool, true, false, not, none, some, All,
  arith, length, ltb, Bool-cases, ◌==◌, sub64, u64_mod, nat_eq,
}
use myriadmesh_server.Base.Bytes.{Bytes, bytes_eq, bytes_beq_iff}
use myriadmesh_server.Base.Map.{
  get, insert, Distinct, get-insert, get-insert_self, get-retain, length-insert,
}
use myriadmesh_server.Base.Every.{All-insert}
use myriadmesh_server.Base.Result.{ok, Result-cases}
use myriadmesh_server.Ledger.Entry.{NodeId}
use myriadmesh_server.Node.Heartbeat.{
  Wire, HeartbeatMessage, HeartbeatService, HeartbeatRateLimiter, NodeInfo, after_limiter,
  at_capacity, check_heartbeat, check_lengths, check_signature, handle_heartbeat, is_stale,
  limiter_allow, message_of, remove_stale, updated_info, is_too_far,
}

module _ (w : Wire) where
  -- The key of a heartbeat derives its node, and its signature verifies under the key.
  abbrev pub IsAuthentic : HeartbeatMessage → Type 0
  IsAuthentic h =
      (w.blake2b h.public_key ≡ h.node_id)
      × ((message : Bytes) × (message_of w h.node_id h.timestamp h.adapters h.geolocation
              h.public_key
            ≡ ok message)
          × (w.verify_signature h.public_key message h.signature ≡ true))

  check_signature-IsAuthentic : (h : HeartbeatMessage) → check_signature w h ≡ ok tt → IsAuthentic h
  unfolding check_signature
  check_signature-IsAuthentic h good = elim (Bool-cases (w.blake2b h.public_key == h.node_id)) [
    | inr differ ↦ absurd (ground (arith, differ, good))
    | inl same ↦
        elim (Result-cases
          (message_of w h.node_id h.timestamp h.adapters h.geolocation h.public_key)) [
            | inr (why, lost) ↦ absurd (ground (arith, same, lost, good))
            | inl (message, got) ↦ (
              (bytes_beq_iff (w.blake2b h.public_key) h.node_id).0 same,
              (message, got, ground (arith, same, got, good)),
            )
          ]
  ]

  check_heartbeat-parts :
      (now : ℕ) (h : HeartbeatMessage)
      → check_heartbeat w now h ≡ ok tt
      → (check_signature w h ≡ ok tt) × (is_too_far (sub64 now h.timestamp) ≡ false)
  unfolding check_heartbeat
  check_heartbeat-parts now h good = elim (Result-cases (check_lengths h)) [
    | inr (why, bad) ↦ absurd (ground (arith, bad, good))
    | inl (done, right) ↦ elim (Result-cases (check_signature w h)) [
      | inr (why, bad) ↦ absurd (ground (arith, right, bad, good))
      | inl (done', signed) ↦ (ground (arith, signed), ground (arith, right, signed, good))
    ]
  ]

  -- The time of the heartbeat is at most 300 seconds from the clock, or 2 ^ 63 seconds ahead.
  abbrev pub IsTimely : ℕ → ℕ → Type 0
  IsTimely now timestamp =
      ((now ≤ timestamp + 300) × (timestamp ≤ now + 300)) ⊎ (timestamp ≡ now + 2 ^ 63)

  near-IsTimely :
      (now timestamp : ℕ)
      → 300 ≤ now
      → now < 2 ^ 63
      → timestamp < u64_mod
      → is_too_far (sub64 now timestamp) ≡ false
      → IsTimely now timestamp
  near-IsTimely now timestamp after before_wrap small near =
      elim (Bool-cases (timestamp == now + 2 ^ 63)) [
        | inl wrapped ↦ inr (ground (arith, wrapped))
        | inr other ↦ inl (
          ground (arith, near, after, before_wrap, small, other),
          ground (arith, near, after, before_wrap, small, other),
        )
      ]

  -- What is known of a node after a heartbeat.
  abbrev pub Known : ℕ → HeartbeatService → HeartbeatMessage → HeartbeatService → NodeId → Type 0
  Known now s h s' node =
      (get s'.node_map node ≡ get s.node_map node)
      ⊎ ((node ≡ h.node_id)
          × IsAuthentic h
          × IsTimely now h.timestamp
          × (get s'.node_map node ≡ some (updated_info now s.config (get s.node_map node) h)))

  Known-after_limiter :
      (now : ℕ) (s : HeartbeatService) (h : HeartbeatMessage) (r : Bool × HeartbeatRateLimiter)
      (node : NodeId)
      → 300 ≤ now
      → now < 2 ^ 63
      → h.timestamp < u64_mod
      → check_heartbeat w now h ≡ ok tt
      → Known now s h (after_limiter now s h r) node
  Known-after_limiter now s h (false, r) node after early small good = inl refl
  Known-after_limiter now s h (true, r) node after early small good =
      elim (Bool-cases (at_capacity s h.node_id)) [
        | inl full ↦ rw full (inl refl)
        | inr room ↦ rw room (elim (Bool-cases (h.node_id == node)) [
          | inr other ↦ inl (
              ground (
                arith,
                other,
                get-insert s.node_map h.node_id node
                    (updated_info now s.config (get s.node_map h.node_id) h),
              ))
          | inl same ↦
              let parts = check_heartbeat-parts now h good in
              let node_is = (bytes_beq_iff h.node_id node).0 same in
              inr (
                sym node_is,
                check_signature-IsAuthentic h parts.0,
                near-IsTimely now h.timestamp after early small parts.1,
                subst
                    (λ n.
                      get
                        (insert s.node_map h.node_id
                          (updated_info now s.config (get s.node_map h.node_id) h))
                        n
                      ≡ some (updated_info now s.config (get s.node_map n) h))
                    node_is (get-insert_self s.node_map h.node_id _),
              )
        ])
      ]

  -- A heartbeat changes what is known of a node only if it claims that node, its key derives
  -- the node, its signature verifies under the key and its time is at most 300 seconds from
  -- the clock, or exactly two to the power 63 seconds ahead of it; what is then known is what
  -- was known, updated from the heartbeat; where the clock is from 300 to below two to the
  -- power 63 seconds and the time of the heartbeat fits 64 bits.
  pub handle_heartbeat-Known :
      (now instant : ℕ) (s : HeartbeatService) (h : HeartbeatMessage) (node : NodeId)
      → 300 ≤ now
      → now < 2 ^ 63
      → h.timestamp < u64_mod
      → Known now s h (handle_heartbeat w now instant s h).1 node
  unfolding handle_heartbeat
  handle_heartbeat-Known now instant s h node after early small =
      elim (Result-cases (check_heartbeat w now h)) [
        | inr (why, bad) ↦ rw bad (inl refl)
        | inl (done, good) ↦ rw good (
            Known-after_limiter now s h (limiter_allow instant s.rate_limiter h.node_id) node after
              early small good)
      ]

  -- No more nodes are kept than the configuration allows.
  size_after_limiter :
      (now : ℕ) (s : HeartbeatService) (h : HeartbeatMessage) (r : Bool × HeartbeatRateLimiter)
      → length s.node_map ≤ s.config.max_nodes
      → length (after_limiter now s h r).node_map ≤ s.config.max_nodes
  size_after_limiter now s h (false, r) small = small
  size_after_limiter now s h (true, r) small = ground (
    arith,
    small,
    length-insert s.node_map h.node_id (updated_info now s.config (get s.node_map h.node_id) h),
  )

  -- A heartbeat never makes the map of nodes hold more than its capacity.
  pub length-handle_heartbeat :
      (now instant : ℕ) (s : HeartbeatService) (h : HeartbeatMessage)
      → length s.node_map ≤ s.config.max_nodes
      → length (handle_heartbeat w now instant s h).1.node_map ≤ s.config.max_nodes
  unfolding handle_heartbeat
  length-handle_heartbeat now instant s h small = elim (Result-cases (check_heartbeat w now h)) [
    | inr (why, bad) ↦ rw bad small
    | inl (done, good) ↦
        rw good (size_after_limiter now s h (limiter_allow instant s.rate_limiter h.node_id) small)
  ]

  -- No place of another node is kept.
  abbrev pub HasNoPlaces : HeartbeatService → Type 0
  HasNoPlaces s = All (λ e. e.1.geolocation ≡ none) s.node_map

  places_after_limiter :
      (now : ℕ) (s : HeartbeatService) (h : HeartbeatMessage) (r : Bool × HeartbeatRateLimiter)
      → s.config.store_remote_geolocation ≡ false
      → HasNoPlaces s
      → HasNoPlaces (after_limiter now s h r)
  unfolding updated_info
  places_after_limiter now s h (false, r) private_ none_there = none_there
  places_after_limiter now s h (true, r) private_ none_there =
      elim (Bool-cases (at_capacity s h.node_id)) [
        | inl full ↦ rw full none_there
        | inr room ↦ rw room (
            All-insert (λ e. e.1.geolocation ≡ none) s.node_map h.node_id
              (updated_info now s.config (get s.node_map h.node_id) h) (ground (arith, private_))
              none_there)
      ]

  -- While the configuration forbids it, no heartbeat makes the map of nodes hold a place.
  pub handle_heartbeat-HasNoPlaces :
      (now instant : ℕ) (s : HeartbeatService) (h : HeartbeatMessage)
      → s.config.store_remote_geolocation ≡ false
      → HasNoPlaces s
      → HasNoPlaces (handle_heartbeat w now instant s h).1
  unfolding handle_heartbeat
  handle_heartbeat-HasNoPlaces now instant s h private_ none_there =
      elim (Result-cases (check_heartbeat w now h)) [
        | inr (why, bad) ↦ rw bad none_there
        | inl (done, good) ↦ rw good (
            places_after_limiter now s h (limiter_allow instant s.rate_limiter h.node_id) private_
              none_there)
      ]

-- A node whose last heartbeat is ahead of the clock is removed as stale at the next tick,
-- where times are below two to the power 63 and no node stands twice.
pub node_ahead_removed :
    (now : ℕ) (s : HeartbeatService) (node : NodeId) (info : NodeInfo)
    → Distinct s.node_map
    → get s.node_map node ≡ some info
    → s.config.timeout_secs < 2 ^ 63
    → now < info.last_seen
    → info.last_seen < 2 ^ 63
    → get (remove_stale now s).node_map node ≡ none
unfolding remove_stale is_stale
node_ahead_removed now s node info d found timeout ahead small =
    let stale : ltb s.config.timeout_secs (sub64 now info.last_seen) ≡ true =
      ground (arith, timeout, ahead, small) in
    ground (
      arith,
      found,
      stale,
      get-retain (λ n (i : NodeInfo). not (ltb s.config.timeout_secs (sub64 now i.last_seen)))
          s.node_map node d,
    )
