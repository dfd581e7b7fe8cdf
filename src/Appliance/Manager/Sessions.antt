-- ===== src/Appliance/Manager/Sessions.antt =====
-- crates/myriadmesh-appliance/src/manager.rs: the sessions of devices, from the pairing on.
use myriadmesh_server.Base.{
  ℕ, Bool, true, false, Option, none, some, if◌then◌else◌, inl, inr, ◌≡◌, refl, ap, sym, String,
  string_eq, same_refl, ltb, Bool-cases, Option-cases, arith,
}
use mathlib.Core.Path.{subst}
use myriadmesh_server.Base.Bytes.{Bytes}
use myriadmesh_server.Base.Map.{get}
use myriadmesh_server.Base.Result.{ok, err, Result-cases}
use myriadmesh_server.Ledger.Entry.{NodeId}
use myriadmesh_server.Appliance.Error.{Outcome}
use myriadmesh_server.Appliance.Pairing.{
  Keys, PairingManager, PairingRequest, PairingResponse, PairingResult, PairingToken, is_expired,
  check_challenge,
}
use myriadmesh_server.Appliance.Pairing
use myriadmesh_server.Appliance.Pairing.Completion.{IsPaired, complete_pairing-IsPaired}
use myriadmesh_server.Appliance.Device.{
  DeviceJson, PairedDevice, count_active, get_device, new_device, store_device, verify_token,
}
use myriadmesh_server.Appliance.Device.Saving.{get_device-store_device}
use myriadmesh_server.Appliance.Manager.{
  ApplianceManager, and_then, on_devices, check_request, get_paired_device, is_active,
  verify_session_token,
}
use myriadmesh_server.Appliance.Manager.Calls.{
  after_pairing, store_paired, complete_pairing, initiate_pairing,
}

module _ (keys : Keys) where
  -- A token is issued only while fewer devices are active than may be, and for a device that is
  -- not active.
  pub initiate_pairing-allowed :
      (secs : ℕ) (drawn : String) (challenge : Bytes) (m : ApplianceManager)
      (request : PairingRequest) (token : PairingToken)
      → (initiate_pairing keys secs drawn challenge m request).0 ≡ ok token
      → (ltb (count_active m.device_store) m.config.max_paired_devices ≡ true)
        × (is_active (get_paired_device m request.device_id) ≡ false)
  unfolding initiate_pairing check_request get_paired_device
  initiate_pairing-allowed secs drawn challenge m request token h =
      elim (Bool-cases (ltb (count_active m.device_store) m.config.max_paired_devices)) [
        | inr full ↦ absurd (ground (arith, full, h))
        | inl room ↦ elim (Bool-cases (is_active (get_device m.device_store request.device_id))) [
          | inl paired ↦ absurd (ground (arith, room, paired, h))
          | inr fresh ↦ (room, fresh)
        ]
      ]

  -- A pairing that succeeds gives the session token that was drawn.
  session-complete_pairing :
      (secs : ℕ) (drawn : String) (m : PairingManager) (r : PairingResponse)
      (result : PairingResult)
      → (Pairing.complete_pairing keys secs drawn m r).0 ≡ ok result
      → result.success ≡ true
      → result.session_token ≡ some drawn
  unfolding Pairing.complete_pairing
  session-complete_pairing secs drawn m r result h success =
      elim (Option-cases (get m.pending r.pairing_token)) [
        | inl e ↦ absurd (ground arith)
        | inr (p, e) ↦ elim (Bool-cases (is_expired secs p.token)) [
          | inl late ↦ absurd (ground arith)
          | inr current ↦ elim (Bool-cases p.approved) [
            | inr waiting ↦ absurd (ground arith)
            | inl approved ↦ elim (Result-cases (check_challenge keys p r.challenge_signature)) [
              | inr (x, f) ↦ absurd (ground arith)
              | inl (u, f) ↦ ground arith
            ]
          ]
        ]
      ]

answered :
    (o : Outcome ApplianceManager (Unit {0})) (r result : PairingResult)
    → (and_then o (λ _ m'. (ok r, m'))).0 ≡ ok result
    → r ≡ result
answered (err e, m) r result h = cc
answered (ok u, m) r result h = ground (arith, h)

if_on :
    (b : Bool) (o p : Outcome ApplianceManager PairingResult) (result : PairingResult)
    → b ≡ true
    → (if b then o else p).0 ≡ ok result
    → o.0 ≡ ok result
if_on true o p result on h = h
if_on false o p result on h = cc

module _ (keys : Keys) (devices : DeviceJson) (hash : String → String) where
  -- What a device is known by, once it is paired.
  abbrev pub Opens :
      ℕ
      → ℕ
      → String
      → ApplianceManager
      → PairingResponse
      → String
      → NodeId
      → Bytes
      → PairingResult
      → ApplianceManager
      → Type 0
  Opens secs nanos session m r id node key result m' =
      (result.session_token ≡ some session)
      × IsPaired keys secs m.pairing_manager r m'.pairing_manager
      × (get_paired_device m' id ≡ some (new_device nanos id node key (hash session)))
      × (verify_session_token hash m' id session ≡ ok true)

  verify-found :
      (m : ApplianceManager) (id session : String) (d : PairedDevice)
      → get_device m.device_store id ≡ some d
      → d.session_token_hash ≡ hash session
      → verify_session_token hash m id session ≡ ok true
  unfolding verify_session_token verify_token
  verify-found m id session d found same = rw (found, same, same_refl (hash session)) refl

  store_paired_answered :
      (nanos : ℕ) (id : String) (node : NodeId) (key : Bytes) (r : PairingResult)
      (token : Option String) (m : ApplianceManager) (result : PairingResult)
      → (store_paired keys devices hash nanos id node key r token m).0 ≡ ok result
      → r ≡ result
  store_paired_answered nanos id node key r none m result h = ground (arith, h)
  store_paired_answered nanos id node key r (some session) m result h =
      answered
        (on_devices m
          (store_device devices m.device_store (new_device nanos id node key (hash session))))
        r result h

  -- the result of a pairing that succeeded is returned as it is
  returned :
      (nanos : ℕ) (id : String) (node : NodeId) (key : Bytes) (result r : PairingResult)
      (m : ApplianceManager)
      → r.success ≡ true
      → (after_pairing keys devices hash nanos id node key r m).0 ≡ ok result
      → r ≡ result
  returned nanos id node key result r m success h =
      store_paired_answered nanos id node key r r.session_token m result (
        if_on r.success (store_paired keys devices hash nanos id node key r r.session_token m)
          (ok r, m) result success h)

  -- what is stored of a pairing that succeeded
  stored :
      (nanos : ℕ) (id : String) (node : NodeId) (key : Bytes) (result r : PairingResult)
      (session : String) (m : ApplianceManager)
      → r.success ≡ true
      → r.session_token ≡ some session
      → (after_pairing keys devices hash nanos id node key r m).0 ≡ ok result
      → (get_device (after_pairing keys devices hash nanos id node key r m).1.device_store id
          ≡ some (new_device nanos id node key (hash session)))
        × ((after_pairing keys devices hash nanos id node key r m).1.pairing_manager
            ≡ m.pairing_manager)
  stored nanos id node key result r session m success token h =
      let d = new_device nanos id node key (hash session) in
      elim (Result-cases (store_device devices m.device_store d).0) [
        | inr (why, failed) ↦ absurd (ground (arith, success, token, failed, h))
        | inl (u, written) ↦
            rw (success, token, written) (get_device-store_device devices m.device_store d, refl)
      ]

  -- When an appliance completes a pairing with success, the pairing was pending, current,
  -- approved and proved by the key of its request; the device that the caller names is then
  -- stored as active under the identifier, the node and the key that the caller gives, and the
  -- result that is returned holds the session token that was drawn, which verifies for the
  -- device.
  pub complete_pairing-Opens :
      (secs nanos : ℕ) (session : String) (m : ApplianceManager) (r : PairingResponse) (id : String)
      (node : NodeId) (key : Bytes) (result : PairingResult)
      → (complete_pairing keys devices hash secs nanos session m r id node key).0 ≡ ok result
      → result.success ≡ true
      → Opens secs nanos session m r id node key result
          (complete_pairing keys devices hash secs nanos session m r id node key).1
  unfolding complete_pairing get_paired_device
  complete_pairing-Opens secs nanos session m r id node key result h success =
      let paired = Pairing.complete_pairing keys secs session m.pairing_manager r in
      let m1 : ApplianceManager = record m { pairing_manager = paired.1 } in
      elim (Result-cases paired.0) [
        | inr (why, failed) ↦ absurd (ground (arith, failed, h))
        | inl (x, got) ↦ elim (Bool-cases x.success) [
          | inr refused ↦ absurd (ground (arith, got, refused, h, success))
          | inl accepted ↦
              let token =
                session-complete_pairing keys secs session m.pairing_manager r x got accepted in
              let w = stored nanos id node key result x session m1 accepted token (rw got at h) in
              let p =
                complete_pairing-IsPaired keys secs session m.pairing_manager r x paired.1
                  (ap (λ o. (o, paired.1)) got) accepted in
              rw got (
                subst (λ (q : PairingResult). q.session_token ≡ some session)
                    (returned nanos id node key result x m1 accepted (rw got at h)) token,
                subst (λ q. IsPaired keys secs m.pairing_manager r q) (sym w.1) p,
                w.0,
                verify-found _ id session (new_device nanos id node key (hash session)) w.0 refl,
              )
        ]
      ]
