-- ===== src/Node/Heartbeat/Exchange.antt =====
-- myriadnode-full/src/heartbeat.rs: a heartbeat that one node generates and another one checks.
use mathlib.Core.Path.{subst}
use myriadmesh_server.Base.{
  ℕ, ◌+◌, ◌≤◌, ◌<◌, ◌^◌, ◌≡◌, refl, true, false, Option, some, List, [], ◌∷◌, is_empty, arith,
  length, Option-cases, inl, inr, sub64, same_refl,
}
use myriadmesh_server.Base.Bytes.{Bytes, bytes_eq}
use myriadmesh_server.Base.Result.{ok, Result-cases, ok-injective}
use myriadmesh_server.Node.Heartbeat.{
  Wire, AdapterInfo, GeolocationData, HeartbeatMessage, HeartbeatService, check_heartbeat,
  check_lengths, check_signature, generate_heartbeat, is_too_far, message_of, permitted,
}

-- What the keys of a node are to do: they are of the lengths of Ed25519, the node is derived from
-- the public one, and what the node signs verifies under it.
pub record OwnsKeys (w : Wire) (s : HeartbeatService) : Type 0 where
  pub derived : w.blake2b w.own_key ≡ s.local_node_id
  pub key_length : length w.own_key ≡ 32
  pub valid_key : w.is_key w.own_key ≡ true
  pub signs :
      (message signature : Bytes)
      → w.sign_message message ≡ some signature
      → (length signature ≡ 64) × (w.verify_signature w.own_key message signature ≡ true)

not_empty : (xs : Bytes) → 0 < length xs → is_empty xs ≡ false
not_empty [] some_bytes = absurd (omega (arith, some_bytes))
not_empty (x ∷ xs) some_bytes = refl

check_lengths-eq :
    (h : HeartbeatMessage)
    → length h.public_key ≡ 32
    → length h.signature ≡ 64
    → check_lengths h ≡ ok tt
unfolding check_lengths
check_lengths-eq h key signature =
    rw
      (
        not_empty h.public_key (omega (arith, key)),
        not_empty h.signature (omega (arith, signature)),
        key,
        signature,
      )
      refl

-- Times that are no more than 300 seconds apart are not too far.
near_times :
    (now later : ℕ)
    → now < 2 ^ 63
    → later < 2 ^ 63
    → now ≤ later + 300
    → later ≤ now + 300
    → is_too_far (sub64 later now) ≡ false
near_times now later small small' near near' = ground (arith, small, small', near, near')

module _ (w : Wire) where
  check_signature-eq :
      (h : HeartbeatMessage) (message : Bytes)
      → w.blake2b h.public_key ≡ h.node_id
      → message_of w h.node_id h.timestamp h.adapters h.geolocation h.public_key ≡ ok message
      → w.is_key h.public_key ≡ true
      → w.verify_signature h.public_key message h.signature ≡ true
      → check_signature w h ≡ ok tt
  unfolding check_signature
  check_signature-eq h message derived got valid verified =
      rw (derived, same_refl h.node_id, got, valid, verified) refl

  -- What a generated heartbeat is to be.
  abbrev IsAccepted :
      ℕ → HeartbeatService → List AdapterInfo → Option GeolocationData → HeartbeatMessage → Type 0
  IsAccepted later s adapters geo h =
      (check_heartbeat w later h ≡ ok tt)
      × (h.node_id ≡ s.local_node_id)
      × (h.adapters ≡ adapters)
      × (h.geolocation ≡ geo)

  -- A heartbeat that a node generates passes the check of a node whose clock differs by 300
  -- seconds at most, and carries the adapters that it was given and the place only if the
  -- configuration permits it, where the keys of the node are its own, of 32 bytes, signatures
  -- have 64, and the clocks are below two to the power 63.
  pub generated_accepted :
      (now later : ℕ) (s : HeartbeatService) (adapters : List AdapterInfo)
      (geolocation : Option GeolocationData) (h : HeartbeatMessage)
      → OwnsKeys w s
      → generate_heartbeat w now s adapters geolocation ≡ ok h
      → now < 2 ^ 63
      → later < 2 ^ 63
      → now ≤ later + 300
      → later ≤ now + 300
      → (check_heartbeat w later h ≡ ok tt)
        × (h.node_id ≡ s.local_node_id)
        × (h.adapters ≡ adapters)
        × (h.geolocation ≡ permitted s.config.include_geolocation geolocation)
  unfolding generate_heartbeat check_heartbeat
  generated_accepted now later s adapters geolocation h own made small small' near near' =
      let geo = permitted s.config.include_geolocation geolocation in
      elim (Result-cases (message_of w s.local_node_id now adapters geo w.own_key)) [
        | inr (why, lost) ↦ absurd (ground (arith, lost, made))
        | inl (message, got) ↦ elim (Option-cases (w.sign_message message)) [
          | inl unsigned ↦ absurd (ground (arith, got, unsigned, made))
          | inr (signature, signed) ↦
              let sent : HeartbeatMessage = record {
                node_id = s.local_node_id;
                timestamp = now;
                adapters = adapters;
                geolocation = geo;
                public_key = w.own_key;
                signature = signature;
              } in
              let good = own.signs message signature signed in
              subst (IsAccepted later s adapters geo)
                (ok-injective (ok sent) sent h refl (rw (got, signed) at made))
                (
                  rw
                      (
                        check_lengths-eq sent own.key_length good.0,
                        check_signature-eq sent message own.derived got own.valid_key good.1,
                        near_times now later small small' near near',
                      )
                      refl,
                  refl,
                  refl,
                  refl,
                )
        ]
      ]
