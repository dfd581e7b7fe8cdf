-- ===== src/Examples/Packages.antt =====
-- The theorems on packages and their verification, at a package that peers have signed and at a
-- release that its publisher has signed.
use myriadmesh_server.Base.{
  ◌≤◌, ◌≡◌, ◌⊎◌, ◌↔◌, refl, true, false, some, none, List, [], ◌∷◌, ◌++◌, replicate, leb, ◌==◌,
}
use myriadmesh_server.Base.Bytes.{Bytes, bytes_eq, bytes_beq}
use myriadmesh_server.Base.Result.{ok}
use myriadmesh_server.Ledger.Merkle.Binding.{Collision}
use myriadmesh_server.Examples.Codes.{toy_hash, toy_hash-HashLength}
use myriadmesh_server.Updates.Package.{
  Crypto, UpdateMetadata, UpdateSource, UpdateSignature, UpdatePackage, official, peer_forwarded,
  get_signable_data, verify_payload_hash,
}
use myriadmesh_server.Updates.Package.Signable.{signable_binds}
use myriadmesh_server.Updates.Verification.{SignatureVerifier, verify_signature}
use myriadmesh_server.Updates.Verification.Trust.{
  Passes, trusted_number, verify_package_iff, one_signer-Passes,
}
use myriadmesh_server.Updates.Verification.Retarget.{repackaged_release-Passes}

-- A signature is the key.
abbrev pub toy_crypto : Crypto
toy_crypto = record {
  blake2b = toy_hash;
  version_bytes = λ version. 7 ∷ [];
  metadata_bytes = λ metadata. some (1 ∷ []);
  verify_signature = λ key message signature. key == signature;
  sign_message = λ message. some (9 ∷ []);
}

-- A node's key is its id, and every reputation is high.
abbrev pub toy_verifier : SignatureVerifier
toy_verifier = record {
  public_key_provider = λ node. some node;
  reputation_provider = λ node. some 900;
  at_least_trusted = λ reputation. leb 800 reputation;
  publisher_public_key = some (5 ∷ []);
}

abbrev pub quiet : UpdateMetadata
quiet = record {
  fixes_cves = [];
  changelog = "fixes";
  breaking_changes = false;
  min_compatible = "1.0.0";
  max_compatible = none;
  release_notes_url = none;
}

abbrev pub by_one : UpdateSignature
by_one = record { signer = 1 ∷ []; signature = 1 ∷ []; signed_at = 3; signer_reputation = none }

abbrev pub of_source : UpdateSource → List UpdateSignature → UpdatePackage
of_source source signatures = record {
  adapter_type = 2;
  version = "1.2.0";
  payload = 4 ∷ 4 ∷ [];
  payload_hash = toy_hash (4 ∷ 4 ∷ []);
  source = source;
  signatures = signatures;
  metadata = quiet;
  created_at = 3;
}

abbrev pub signed_thrice : UpdatePackage
signed_thrice = of_source (peer_forwarded (8 ∷ []) [] 1) (replicate 3 by_one)

abbrev pub release : UpdatePackage
release = of_source (official "url" 3 (some (5 ∷ []))) []

abbrev pub signed_bytes : Bytes
signed_bytes = toy_hash (4 ∷ 4 ∷ []) ++ ((7 ∷ []) ++ toy_hash (1 ∷ []))

one_signer-Passes_example : Passes toy_crypto toy_verifier signed_thrice
unfolding verify_payload_hash get_signable_data verify_signature bytes_beq
one_signer-Passes_example =
    one_signer-Passes toy_crypto toy_verifier signed_thrice (8 ∷ []) [] 1 by_one refl refl
      signed_bytes refl refl refl

pub signed_thrice-Passes : Passes toy_crypto toy_verifier signed_thrice
unfolding verify_payload_hash get_signable_data verify_signature bytes_beq
signed_thrice-Passes =
    one_signer-Passes toy_crypto toy_verifier signed_thrice (8 ∷ []) [] 1 by_one refl refl
      signed_bytes refl refl refl

signable_binds_example :
    (((4 ∷ 4 ∷ []) ≡ release.payload)
      × (toy_crypto.version_bytes "1.2.0" ≡ toy_crypto.version_bytes "1.2.0")
      × (toy_crypto.metadata_bytes quiet ≡ toy_crypto.metadata_bytes quiet))
    ⊎ Collision toy_hash
unfolding verify_payload_hash get_signable_data bytes_beq
signable_binds_example =
    signable_binds toy_crypto toy_hash-HashLength signed_thrice release signed_bytes refl refl refl
      refl

verify_package_iff_example : Passes toy_crypto toy_verifier signed_thrice ↔ (
    (verify_payload_hash toy_crypto signed_thrice ≡ true)
    × ((signed : Bytes) × (get_signable_data toy_crypto signed_thrice ≡ ok signed)
        × (3 ≤ trusted_number toy_crypto toy_verifier signed signed_thrice)))
verify_package_iff_example = verify_package_iff toy_crypto toy_verifier signed_thrice

release-Passes : Passes toy_crypto toy_verifier release
unfolding verify_payload_hash get_signable_data bytes_beq
release-Passes =
    (verify_package_iff toy_crypto toy_verifier release).1
      (refl, (signed_bytes, refl, (5 ∷ [], refl, refl)))

repackaged_release-Passes_example :
    Passes toy_crypto toy_verifier (record release { adapter_type = 3; version = "9.9.9" })
repackaged_release-Passes_example =
    repackaged_release-Passes toy_crypto toy_verifier release
      (record release { adapter_type = 3; version = "9.9.9" }) "url" 3 (5 ∷ []) refl release-Passes
      refl refl refl (1 ∷ []) refl
