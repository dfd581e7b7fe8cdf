-- ===== src/Appliance/Pairing/Completion.antt =====
-- crates/myriadmesh-appliance/src/pairing.rs: `complete_pairing`.
use myriadmesh_server.Base.{
  ℕ, true, false, some, inl, inr, ◌≡◌, String, string_eq, same_refl, Bool-cases, Option-cases,
  arith,
}
use myriadmesh_server.Base.Bytes.{Bytes}
use myriadmesh_server.Base.Map.{get, remove, get-remove}
use myriadmesh_server.Base.Result.{ok, err, Result-cases}
use myriadmesh_server.Appliance.Error.{invalid_pairing_token}
use myriadmesh_server.Appliance.Pairing.{
  Keys, PairingManager, PairingResponse, PairingResult, PendingPairing, is_expired, check_challenge,
  complete_pairing,
}

module _ (keys : Keys) where
  check_challenge-verifies :
      (p : PendingPairing) (signature : Bytes)
      → check_challenge keys p signature ≡ ok tt
      → keys.verifies p.request.public_key p.token.challenge signature ≡ true
  unfolding check_challenge
  check_challenge-verifies p signature h = ground (arith, h)

  -- What a pairing that succeeded has passed, and what it leaves.
  pub record IsPaired (now : ℕ) (m : PairingManager) (r : PairingResponse) (m' : PairingManager)
      : Type 0 where
    pub pairing : PendingPairing
    pub found : get m.pending r.pairing_token ≡ some pairing
    pub current : is_expired now pairing.token ≡ false
    pub approval : pairing.approved ≡ true
    pub proof :
        keys.verifies pairing.request.public_key pairing.token.challenge r.challenge_signature
        ≡ true
    pub gone : m' ≡ record m { pending = remove m.pending r.pairing_token }

  -- A pairing succeeds only if its token is pending, has not expired and is approved, and the
  -- answer verifies the challenge of the token under the key of the request; it leaves every
  -- pending pairing but that of the token.
  pub complete_pairing-IsPaired :
      (now : ℕ) (drawn : String) (m : PairingManager) (r : PairingResponse) (result : PairingResult)
      (m' : PairingManager)
      → complete_pairing keys now drawn m r ≡ (ok result, m')
      → result.success ≡ true
      → IsPaired now m r m'
  unfolding complete_pairing
  complete_pairing-IsPaired now drawn m r result m' h success =
      elim (Option-cases (get m.pending r.pairing_token)) [
        | inl e ↦ absurd (ground arith)
        | inr (p, e) ↦ elim (Bool-cases (is_expired now p.token)) [
          | inl late ↦ absurd (ground arith)
          | inr current ↦ elim (Bool-cases p.approved) [
            | inr waiting ↦ absurd (ground arith)
            | inl approved ↦ elim (Result-cases (check_challenge keys p r.challenge_signature)) [
              | inr (x, f) ↦ absurd (ground arith)
              | inl (u, f) ↦ record {
                pairing = p;
                found = e;
                current = current;
                approval = approved;
                proof = check_challenge-verifies p r.challenge_signature (ground arith);
                gone = ground arith;
              }
            ]
          ]
        ]
      ]

  -- After a pairing has succeeded, the same response fails as an invalid token, whatever the
  -- time.
  pub complete_pairing_once :
      (now : ℕ) (drawn : String) (m : PairingManager) (r : PairingResponse) (result : PairingResult)
      (m' : PairingManager) (later : ℕ) (drawn' : String)
      → complete_pairing keys now drawn m r ≡ (ok result, m')
      → result.success ≡ true
      → (complete_pairing keys later drawn' m' r).0 ≡ err (invalid_pairing_token r.pairing_token)
  unfolding complete_pairing
  complete_pairing_once now drawn m r result m' later drawn' h success =
      let w = complete_pairing-IsPaired now drawn m r result m' h success in
      ground (
        arith,
        w.gone,
        get-remove m.pending r.pairing_token r.pairing_token,
        same_refl r.pairing_token,
      )
