-- ===== src/Examples/Pairings.antt =====
-- The theorems on pairing at a device that is approved and then answers its challenge.
use myriadmesh_server.Base.{
  ℕ, ◌≤◌, true, some, none, List, [], ◌∷◌, ◌++◌, replicate, refl, ◌≡◌, any_of, ◌==◌,
}
use myriadmesh_server.Base.Bytes.{Bytes, bytes_eq, bytes_beq}
use myriadmesh_server.Base.Map.{get, insert, remove}
use myriadmesh_server.Base.Counts.{update}
use myriadmesh_server.Base.Result.{ok}
use myriadmesh_server.Appliance.Pairing.{
  Keys, PairingManager, PairingRequest, PairingResponse, PairingResult, qr_code, new, new_token,
  is_expired, initiate_pairing, approve_pairing, check_challenge, complete_pairing,
}
use myriadmesh_server.Appliance.Pairing.Completion.{IsPaired, complete_pairing-IsPaired}
use myriadmesh_server.Appliance.Pairing.Authority.{success_needs_authority}
use myriadmesh_server.Appliance.Pairing.Changes.{
  Call, initiating, approving, is_origin, is_approval, run,
}

-- A signature is the key before the message.
abbrev pub toy_keys : Keys
toy_keys = record {
  token_text = λ token node time. time ∷ [];
  sign = λ key text. key ++ text;
  is_key = λ key. true;
  is_signature = λ signature. true;
  verifies = λ key text signature. (key ++ text) == signature;
}

abbrev pub phone_key : Bytes
phone_key = replicate 32 1

abbrev pub phone : PairingRequest
phone = record { device_id = "phone"; public_key = phone_key; method = qr_code; timestamp = 9 }

abbrev pub calls : List Call
calls = approving 20 "t" ∷ initiating 10 "t" (5 ∷ []) phone ∷ []

unfoldable manager : PairingManager
unfolding run new
manager = run toy_keys calls (new (3 ∷ []) "node" true)

abbrev pub answer : PairingResponse
answer = record { pairing_token = "t"; challenge_signature = phone_key ++ 5 ∷ [] }

abbrev pub paired : PairingResult
paired = record { success = true; session_token = some "s"; problem = none }

abbrev rest : PairingManager
rest = record manager { pending = [] }

completed :
    complete_pairing toy_keys 30 "s" (run toy_keys calls (new (3 ∷ []) "node" true)) answer
    ≡ (ok paired, rest)
unfolding manager run new initiate_pairing new_token approve_pairing is_expired complete_pairing
    check_challenge get insert remove update bytes_beq
completed = refl

complete_pairing-IsPaired_example :
    IsPaired toy_keys 30 (run toy_keys calls (new (3 ∷ []) "node" true)) answer rest
complete_pairing-IsPaired_example =
    complete_pairing-IsPaired toy_keys 30 "s" (run toy_keys calls (new (3 ∷ []) "node" true)) answer
      paired rest completed refl

success_needs_authority_example :
    (expiry : ℕ) × (30 ≤ expiry)
    × (any_of (is_origin "t" expiry) calls ≡ true)
    × (any_of (is_approval "t") calls ≡ true)
success_needs_authority_example =
    success_needs_authority toy_keys calls (3 ∷ []) "node" true 30 "s" answer paired rest completed
      refl
