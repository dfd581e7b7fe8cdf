-- ===== src/Appliance/Pairing/Changes.antt =====
-- crates/myriadmesh-appliance/src/pairing.rs: what each call makes of the table of pending pairings.
use myriadmesh_server.Base.{
  ℕ, ◌+◌, Bool, true, false, not, ◌&&◌, inl, inr, List, [], ◌∷◌, ◌≡◌, refl, String, ◌==◌, string_eq,
  same_refl, Bool-cases, Option-cases, arith, eqb, length,
}
use myriadmesh_server.Base.Bytes.{Bytes}
use myriadmesh_server.Base.Map
use myriadmesh_server.Base.Map.{
  Map, get, insert, remove, retain, get-insert, get-remove, get-retain, Distinct-insert,
  Distinct-remove, Distinct-retain,
}
use myriadmesh_server.Base.Counts.{update, Distinct-update}
use myriadmesh_server.Base.Result.{Result-cases}
use myriadmesh_server.Appliance.Pairing.{
  Keys, PairingManager, PairingRequest, PairingResponse, PendingPairing, token_lifetime, is_expired,
  new_token, set_approved, initiate_pairing, approve_pairing, complete_pairing, check_challenge,
  cleanup_expired, reject_pairing,
}

-- The calls that change a manager, each with the time that it reads and what it draws.
pub data Call : Type 0 where
  initiating : ℕ → String → Bytes → PairingRequest → Call
  approving : ℕ → String → Call
  completing : ℕ → String → PairingResponse → Call
  cleaning : ℕ → Call
  rejecting : String → Call

-- an approval of the token
abbrev pub is_approval : String → Call → Bool
is_approval token (approving now t) = t == token
is_approval token _ = false

-- the request that draws the token, to expire at the time
abbrev pub is_origin : String → ℕ → Call → Bool
is_origin token expiry (initiating now t challenge request) =
    t == token && eqb (now + token_lifetime) expiry
is_origin token expiry _ = false

module _ (keys : Keys) where
  abbrev pub perform : Call → PairingManager → PairingManager
  perform (initiating now token challenge request) m =
      (initiate_pairing keys now token challenge m request).1
  perform (approving now token) m = (approve_pairing now m token).1
  perform (completing now session response) m = (complete_pairing keys now session m response).1
  perform (cleaning now) m = cleanup_expired now m
  perform (rejecting token) m = reject_pairing m token

  -- the calls, newest first
  unfoldable pub run : List Call → PairingManager → PairingManager
  run [] m = m
  run (c ∷ cs) m = perform c (run cs m)

  -- What a call makes of the table of pending pairings.
  pub data Change (c : Call) (m : PairingManager) : Map String PendingPairing → Type 0 where
    same : Change c m m.pending
    less : (t : String) → Change c m (remove m.pending t)
    some_of : (q : String → PendingPairing → Bool) → Change c m (retain q m.pending)
    drawn :
        (t : String) (v : PendingPairing)
        → is_origin t v.token.expires_at c ≡ true
        → v.approved ≡ not m.require_approval
        → Change c m (insert m.pending t v)
    passed : (t : String) → is_approval t c ≡ true → Change c m (update m.pending t set_approved)

  initiating-Change :
      (now : ℕ) (t : String) (challenge : Bytes) (request : PairingRequest) (m : PairingManager)
      → Change
          (initiating now t challenge request)
          m
          (initiate_pairing keys now t challenge m request).1.pending
  unfolding initiate_pairing new_token
  initiating-Change now t challenge request m = elim (Bool-cases (request.device_id == "")) [
    | inl nameless ↦ rw nameless same
    | inr named ↦ elim (Bool-cases (eqb (length request.public_key) 32)) [
      | inr short ↦ rw (named, short) same
      | inl sized ↦ rw (named, sized) (drawn t _ (ground (arith, same_refl t)) refl)
    ]
  ]

  approving-Change :
      (now : ℕ) (t : String) (m : PairingManager)
      → Change (approving now t) m (approve_pairing now m t).1.pending
  unfolding approve_pairing
  approving-Change now t m = elim (Option-cases (get m.pending t)) [
    | inl absent ↦ rw absent same
    | inr (x, found) ↦ elim (Bool-cases (is_expired now x.token)) [
      | inl late ↦ rw (found, late) (less t)
      | inr current ↦ rw (found, current) (passed t (same_refl t))
    ]
  ]

  completing-Change :
      (now : ℕ) (session : String) (r : PairingResponse) (m : PairingManager)
      → Change (completing now session r) m (complete_pairing keys now session m r).1.pending
  unfolding complete_pairing check_challenge
  completing-Change now session r m = elim (Option-cases (get m.pending r.pairing_token)) [
    | inl absent ↦ rw absent same
    | inr (x, found) ↦ elim (Bool-cases (is_expired now x.token)) [
      | inl late ↦ rw (found, late) (less r.pairing_token)
      | inr current ↦ elim (Bool-cases x.approved) [
        | inr waiting ↦ rw (found, current, waiting) same
        | inl approved ↦ elim (Result-cases (check_challenge keys x r.challenge_signature)) [
          | inl (u, valid) ↦ rw (found, current, approved, valid) (less r.pairing_token)
          | inr (y, failed) ↦ rw (found, current, approved, failed) same
        ]
      ]
    ]
  ]

  pub perform-Change : (c : Call) (m : PairingManager) → Change c m (perform c m).pending
  unfolding cleanup_expired reject_pairing
  perform-Change (initiating now t challenge request) m =
      initiating-Change now t challenge request m
  perform-Change (approving now t) m = approving-Change now t m
  perform-Change (completing now session r) m = completing-Change now session r m
  perform-Change (cleaning now) m = some_of λ _ x. not (is_expired now x.token)
  perform-Change (rejecting t) m = less t

  pub Change-Distinct :
      (c : Call) (m : PairingManager) (n : Map String PendingPairing)
      → Change c m n
      → Map.Distinct m.pending
      → Map.Distinct n
  Change-Distinct c m n same d = d
  Change-Distinct c m n (less t) d = Distinct-remove m.pending t d
  Change-Distinct c m n (some_of q) d = Distinct-retain q m.pending d
  Change-Distinct c m n (drawn t v o a) d = Distinct-insert m.pending t v d
  Change-Distinct c m n (passed t a) d = Distinct-update m.pending t set_approved d
