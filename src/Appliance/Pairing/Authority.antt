-- ===== src/Appliance/Pairing/Authority.antt =====
-- crates/myriadmesh-appliance/src/pairing.rs: where the right to pair comes from, in any history of
-- calls.
use myriadmesh_server.Base.{
  ℕ, ◌≤◌, Bool, true, false, not, ◌||◌, Option, none, some, inl, inr, List, [], ◌∷◌, ◌≡◌, refl, ap,
  sym, ◌∙◌, String, ◌==◌, string_eq, Bool-cases, Option-cases, arith, any_of,
}
use mathlib.Core.Option.{some-injective}
use mathlib.Core.Path.{subst}
use myriadmesh_server.Base.Bytes.{Bytes}
use myriadmesh_server.Base.Map
use myriadmesh_server.Base.Map.{
  Map, get, insert, remove, retain, get-insert, get-remove, get-retain, Distinct-insert,
  Distinct-remove, Distinct-retain,
}
use myriadmesh_server.Base.Counts.{get-update}
use myriadmesh_server.Base.Result.{ok, err}
use myriadmesh_server.Appliance.Error.{ApplianceResult}
use myriadmesh_server.Appliance.Pairing.{
  Keys, PairingManager, PairingResponse, PairingResult, PairingToken, PendingPairing, new,
  is_expired, set_approved, initiate_pairing, approve_pairing, approve_found, complete_pairing,
  complete_found, check_challenge, finish, cleanup_expired, reject_pairing,
}
use myriadmesh_server.Appliance.Pairing.Completion.{complete_pairing-IsPaired}
use myriadmesh_server.Appliance.Pairing.Changes.{
  Call, initiating, approving, completing, cleaning, rejecting, is_approval, is_origin, perform,
  run, Change, same, less, some_of, drawn, passed, perform-Change, Change-Distinct,
}

implied : (a b : Bool) → (a ≡ true → b ≡ true) → (not a || b) ≡ true
implied true b h = h refl
implied false b h = refl

module _ (keys : Keys) where
  -- Where a pending pairing comes from: the table before the call, or the call.
  data Origin (c : Call) (m : PairingManager) (token : String) (p : PendingPairing) : Type 0 where
    older :
        (q : PendingPairing)
        → get m.pending token ≡ some q
        → q.token ≡ p.token
        → (p.approved ≡ true → is_approval token c ≡ false → q.approved ≡ true)
        → Origin c m token p
    fresh :
        is_origin token p.token.expires_at c ≡ true
        → p.approved ≡ not m.require_approval
        → Origin c m token p

  kept :
      {c : Call} {m : PairingManager} {token : String} {p : PendingPairing}
      → get m.pending token ≡ some p
      → Origin c m token p
  kept {p = p} e = older p e refl λ a n. a

  Change-Origin :
      (c : Call) (m : PairingManager) (n : Map String PendingPairing) (token : String)
      (p : PendingPairing)
      → Change keys c m n
      → Map.Distinct m.pending
      → get n token ≡ some p
      → Origin c m token p
  Change-Origin c m n token p same d e = kept e
  Change-Origin c m n token p (less t) d e = kept (ground (arith, get-remove m.pending t token, e))
  Change-Origin c m n token p (some_of q) d e =
      kept (ground (arith, get-retain q m.pending token d, e))
  Change-Origin c m n token p (drawn t v o a) d e = elim (Bool-cases (t == token)) [
    | inr other ↦ kept (ground (arith, get-insert m.pending t token v, e, other))
    | inl hit ↦
        let p_is : v ≡ p =
          some-injective _ _ (ground (arith, get-insert m.pending t token v, e, hit)) in
        fresh
          (ground (
            arith,
            o,
            hit,
            string_eq.same_iff t token,
            ap (λ (x : PendingPairing). x.token.expires_at) p_is,
            ap (λ k. is_origin k v.token.expires_at c) {x = t} {y = token},
          ))
          (ap (λ (x : PendingPairing). x.approved) (sym p_is) ∙ a)
  ]
  Change-Origin c m n token p (passed t a) d e = elim (Bool-cases (t == token)) [
    | inr other ↦ kept (ground (arith, get-update m.pending t token set_approved, e, other))
    | inl hit ↦ elim (Option-cases (get m.pending token)) [
      | inl absent ↦
          absurd (ground (arith, get-update m.pending t token set_approved, e, hit, absent))
      | inr (q, found) ↦
          let p_is : set_approved q ≡ p =
            some-injective _ _
              (ground (arith, get-update m.pending t token set_approved, e, hit, found)) in
          older q found (ap (λ (x : PendingPairing). x.token) p_is) λ x y. absurd (
            ground (
              arith,
              a,
              y,
              hit,
              string_eq.same_iff t token,
              ap (λ k. is_approval k c) {x = t} {y = token},
            ))
    ]
  ]

  run-Distinct :
      (cs : List Call) (key : Bytes) (node : String) (ask : Bool)
      → Map.Distinct (run keys cs (new key node ask)).pending
  unfolding run new
  run-Distinct [] key node ask = tt
  run-Distinct (c ∷ cs) key node ask =
      Change-Distinct keys c _ _ (perform-Change keys c _) (run-Distinct cs key node ask)

  approve_found-require_approval :
      (now : ℕ) (m : PairingManager) (t : String) (o : Option PendingPairing)
      → (approve_found now m t o).1.require_approval ≡ m.require_approval
  approve_found-require_approval now m t none = refl
  approve_found-require_approval now m t (some x) = ground arith

  finish-require_approval :
      (session : String) (m : PairingManager) (t : String) (checked : ApplianceResult (Unit {0}))
      → (finish keys session m t checked).1.require_approval ≡ m.require_approval
  finish-require_approval session m t (err e) = refl
  finish-require_approval session m t (ok u) = refl

  complete_found-require_approval :
      (now : ℕ) (session : String) (m : PairingManager) (r : PairingResponse)
      (o : Option PendingPairing)
      → (complete_found keys now session m r o).1.require_approval ≡ m.require_approval
  complete_found-require_approval now session m r none = refl
  complete_found-require_approval now session m r (some x) = ground (
    arith,
    finish-require_approval session m r.pairing_token
        (check_challenge keys x r.challenge_signature),
  )

  perform-require_approval :
      (c : Call) (m : PairingManager) → (perform keys c m).require_approval ≡ m.require_approval
  unfolding initiate_pairing approve_pairing complete_pairing cleanup_expired reject_pairing
  perform-require_approval (initiating now t challenge request) m = ground arith
  perform-require_approval (approving now t) m =
      approve_found-require_approval now m t (get m.pending t)
  perform-require_approval (completing now session r) m =
      complete_found-require_approval now session m r (get m.pending r.pairing_token)
  perform-require_approval (cleaning now) m = refl
  perform-require_approval (rejecting t) m = refl

  run-require_approval :
      (cs : List Call) (key : Bytes) (node : String) (ask : Bool)
      → (run keys cs (new key node ask)).require_approval ≡ ask
  unfolding run new
  run-require_approval [] key node ask = refl
  run-require_approval (c ∷ cs) key node ask =
      perform-require_approval c (run keys cs (new key node ask))
      ∙ run-require_approval cs key node ask

  -- The calls that give a pending pairing its expiry and, where approval is asked for, its approval.
  abbrev HasAuthority : List Call → Bool → String → PendingPairing → Type 0
  HasAuthority cs ask token p =
      (any_of (is_origin token p.token.expires_at) cs ≡ true)
      × (ask ≡ true → p.approved ≡ true → any_of (is_approval token) cs ≡ true)

  Origin-HasAuthority :
      (c : Call) (cs : List Call) (m : PairingManager) (token : String) (p : PendingPairing)
      → Origin c m token p
      → ((q : PendingPairing)
          → get m.pending token ≡ some q
          → HasAuthority cs m.require_approval token q)
      → HasAuthority (c ∷ cs) m.require_approval token p
  unfolding any_of
  Origin-HasAuthority c cs m token p (fresh o a) before =
      (ground (arith, o), λ asked approved. absurd (ground (arith, asked, approved, a)))
  Origin-HasAuthority c cs m token p (older q found same_token was) before =
      let w = before q found in
      (
        ground (
          arith,
          w.0,
          ap (λ (t : PairingToken). any_of (is_origin token t.expires_at) cs) same_token,
        ),
        λ asked approved. elim (Bool-cases (is_approval token c)) [
          | inl now ↦ ground (arith, now)
          | inr other ↦ ground (arith, w.1 asked (was approved other))
        ],
      )

  pending-authority :
      (cs : List Call) (key : Bytes) (node : String) (ask : Bool) (token : String)
      (p : PendingPairing)
      → get (run keys cs (new key node ask)).pending token ≡ some p
      → HasAuthority cs ask token p
  unfolding run new get
  pending-authority [] key node ask token p e = cc e
  pending-authority (c ∷ cs) key node ask token p e =
      let m = run keys cs (new key node ask) in
      let asks = run-require_approval cs key node ask in
      subst (λ (a : Bool). HasAuthority (c ∷ cs) a token p) asks
        (Origin-HasAuthority c cs m token p
          (Change-Origin c m (perform keys c m).pending token p (perform-Change keys c m)
            (run-Distinct cs key node ask) e)
          λ q found.
            subst (λ (a : Bool). HasAuthority cs a token q) (sym asks)
              (pending-authority cs key node ask token q found))

  -- In any history of calls of a pairing manager, a pairing that succeeds has a request for
  -- its token among the calls, whose lifetime of five minutes has not passed, and, if the
  -- manager requires approval, an approval of its token among the calls.
  pub success_needs_authority :
      (cs : List Call) (key : Bytes) (node : String) (ask : Bool) (now : ℕ) (session : String)
      (r : PairingResponse) (result : PairingResult) (m' : PairingManager)
      → complete_pairing keys now session (run keys cs (new key node ask)) r ≡ (ok result, m')
      → result.success ≡ true
      → (expiry : ℕ) × (now ≤ expiry)
        × (any_of (is_origin r.pairing_token expiry) cs ≡ true)
        × ((not ask || any_of (is_approval r.pairing_token) cs) ≡ true)
  unfolding is_expired
  success_needs_authority cs key node ask now session r result m' h success =
      let w =
        complete_pairing-IsPaired keys now session (run keys cs (new key node ask)) r result m' h
          success in
      let a = pending-authority cs key node ask r.pairing_token w.pairing w.found in
      (
        w.pairing.token.expires_at,
        ground (arith, w.current),
        a.0,
        implied ask (any_of (is_approval r.pairing_token) cs) (λ asked. a.1 asked w.approval),
      )
