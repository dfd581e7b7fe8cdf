-- ===== src/Appliance/Pairing.antt =====
-- crates/myriadmesh-appliance/src/pairing.rs: the pairing of a device by a token and a challenge.
-- Times are counts of seconds. What a call draws at random, and the time it reads, are arguments.
pub mod Completion
pub mod Changes
pub mod Authority
use myriadmesh_server.Base.{
  ℕ, ◌+◌, Bool, true, false, not, Option, none, some, List, [], ◌∷◌, map, length, String, ltb, eqb,
  if◌then◌else◌, ◌==◌, string_eq,
}
use myriadmesh_server.Base.Bytes.{Bytes}
use myriadmesh_server.Base.Map.{Map, get, insert, remove, retain}
use myriadmesh_server.Base.Counts.{update}
use myriadmesh_server.Base.Result.{Result, ok, err, ◌>>◌, guard}
use myriadmesh_server.Appliance.Error.{
  ApplianceError, ApplianceResult, Outcome, configuration, crypto, invalid_pairing_token,
  pairing_expired, signature_verification_failed,
}

pub data PairingMethod : Type 0 where
  qr_code pin : PairingMethod

pub record PairingRequest : Type 0 where
  pub device_id : String
  pub public_key : Bytes
  pub method : PairingMethod
  pub timestamp : ℕ

pub record PairingToken : Type 0 where
  pub token : String
  pub challenge : Bytes
  pub node_id : String
  pub timestamp : ℕ
  pub expires_at : ℕ
  pub signature : Bytes

pub record PairingResponse : Type 0 where
  pub pairing_token : String
  pub challenge_signature : Bytes

pub record PairingResult : Type 0 where
  pub success : Bool
  pub session_token : Option String
  pub problem : Option String

pub record PendingPairing : Type 0 where
  pub request : PairingRequest
  pub token : PairingToken
  pub created_at : ℕ
  pub approved : Bool

-- Ed25519, and the bytes of the text that a token signs
pub record Keys : Type 0 where
  pub token_text : String → String → ℕ → Bytes
  pub sign : Bytes → Bytes → Bytes
  pub is_key : Bytes → Bool
  pub is_signature : Bytes → Bool
  pub verifies : Bytes → Bytes → Bytes → Bool

pub record PairingManager : Type 0 where
  pub pending : Map String PendingPairing
  pub signing_key : Bytes
  pub node_id : String
  pub require_approval : Bool

unfoldable pub new : Bytes → String → Bool → PairingManager
new signing_key node_id require_approval = record {
  pending = [];
  signing_key = signing_key;
  node_id = node_id;
  require_approval = require_approval;
}

-- five minutes
abbrev pub token_lifetime : ℕ
token_lifetime = 300

unfoldable pub is_expired : ℕ → PairingToken → Bool
is_expired now t = ltb t.expires_at now

abbrev pub set_approved : PendingPairing → PendingPairing
set_approved pairing = record pairing { approved = true }

-- what `get_mut(token)` has found
abbrev pub approve_found :
    ℕ → PairingManager → String → Option PendingPairing → Outcome PairingManager (Unit {0})
approve_found now manager token none = (err (invalid_pairing_token token), manager)
approve_found now manager token (some pairing) =
    if is_expired now pairing.token
    then (err pairing_expired, record manager { pending = remove manager.pending token })
    else (ok tt, record manager { pending = update manager.pending token set_approved })

unfoldable pub approve_pairing : ℕ → PairingManager → String → Outcome PairingManager (Unit {0})
approve_pairing now manager token = approve_found now manager token (get manager.pending token)

unfoldable pub cleanup_expired : ℕ → PairingManager → PairingManager
unfolding is_expired
cleanup_expired now manager = record manager {
  pending = retain (λ _ (p : PendingPairing). not (is_expired now p.token)) manager.pending;
}

unfoldable pub reject_pairing : PairingManager → String → PairingManager
reject_pairing manager token = record manager { pending = remove manager.pending token }

pub record PairingRequestInfo : Type 0 where
  pub token : String
  pub device_id : String
  pub method : PairingMethod
  pub created_at : ℕ
  pub approved : Bool

unfoldable pub list_pending : ℕ → PairingManager → List PairingRequestInfo
unfolding is_expired
list_pending now manager =
    map
      (λ (e : String × PendingPairing). record {
        token = e.0;
        device_id = e.1.request.device_id;
        method = e.1.request.method;
        created_at = e.1.created_at;
        approved = e.1.approved;
      })
      (retain (λ _ (p : PendingPairing). not (is_expired now p.token)) manager.pending)

module _ (keys : Keys) where
  -- `PairingToken::new`, with the token and the challenge that it draws
  unfoldable pub new_token : ℕ → String → Bytes → String → Bytes → PairingToken
  new_token now drawn_token drawn_challenge node_id signing_key = record {
    token = drawn_token;
    challenge = drawn_challenge;
    node_id = node_id;
    timestamp = now;
    expires_at = now + token_lifetime;
    signature = keys.sign signing_key (keys.token_text drawn_token node_id now);
  }

  -- `PairingToken::verify`
  unfoldable pub verify : PairingToken → Bytes → ApplianceResult (Unit {0})
  verify t public_key = do
    guard (keys.is_signature t.signature) signature_verification_failed
    guard (keys.verifies public_key (keys.token_text t.token t.node_id t.timestamp) t.signature)
        signature_verification_failed

  unfoldable pub initiate_pairing :
      ℕ → String → Bytes → PairingManager → PairingRequest → Outcome PairingManager PairingToken
  unfolding new_token
  initiate_pairing now drawn_token drawn_challenge manager request =
      if request.device_id == ""
      then (err (configuration "Device ID cannot be empty"), manager)
      else if not (eqb (length request.public_key) 32)
      then (err (configuration "Invalid public key length"), manager)
      else (let token =
            new_token now drawn_token drawn_challenge manager.node_id manager.signing_key in
          (
            ok token,
            record manager {
              pending = insert manager.pending token.token (record {
                request = request;
                token = token;
                created_at = now;
                approved = not manager.require_approval;
              });
            },
          ))

  -- the checks of the device's key and of its signature of the challenge
  unfoldable pub check_challenge : PendingPairing → Bytes → ApplianceResult (Unit {0})
  check_challenge pending challenge_signature = do
    guard (eqb (length pending.request.public_key) 32) (crypto "Invalid public key format")
    guard (keys.is_key pending.request.public_key) (crypto "Failed to parse public key")
    guard (keys.is_signature challenge_signature) signature_verification_failed
    guard (keys.verifies pending.request.public_key pending.token.challenge challenge_signature)
        signature_verification_failed

  abbrev pub refusal : String → PairingResult
  refusal problem = record { success = false; session_token = none; problem = some problem }

  -- the end of `complete_pairing`, after the checks of the challenge
  abbrev pub finish :
      String
      → PairingManager
      → String
      → ApplianceResult (Unit {0})
      → Outcome PairingManager PairingResult
  finish drawn_session manager token (err e) = (err e, manager)
  finish drawn_session manager token (ok u) = (
    ok (record { success = true; session_token = some drawn_session; problem = none }),
    record manager { pending = remove manager.pending token },
  )

  -- what `get(&response.pairing_token)` has found
  abbrev pub complete_found :
      ℕ
      → String
      → PairingManager
      → PairingResponse
      → Option PendingPairing
      → Outcome PairingManager PairingResult
  complete_found now drawn_session manager response none =
      (err (invalid_pairing_token response.pairing_token), manager)
  complete_found now drawn_session manager response (some pending) =
      if is_expired now pending.token
      then (
        ok (refusal "Pairing token expired"),
        record manager { pending = remove manager.pending response.pairing_token },
      )
      else if not pending.approved
      then (ok (refusal "Pairing not yet approved"), manager)
      else finish drawn_session manager response.pairing_token
          (check_challenge pending response.challenge_signature)

  unfoldable pub complete_pairing :
      ℕ → String → PairingManager → PairingResponse → Outcome PairingManager PairingResult
  complete_pairing now drawn_session manager response =
      complete_found now drawn_session manager response (get manager.pending response.pairing_token)
