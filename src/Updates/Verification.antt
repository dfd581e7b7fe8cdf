-- ===== src/Updates/Verification.antt =====
-- crates/myriadmesh-updates/src/verification.rs: the signatures of a package, and whether they
-- suffice. The keys and reputations of nodes are given by functions. A count of the elements of a
-- list fits a word, as the list does.
pub mod Trust
pub mod Retarget
use myriadmesh_server.Base.{
  ℕ, ◌+◌, Bool, true, false, ◌&&◌, ◌||◌, Option, none, some, List, [], ◌∷◌, leb, if◌then◌else◌,
  length, is_some,
}
use myriadmesh_server.Base.Bytes.{Bytes, bytes_eq}
use myriadmesh_server.Base.Map.{Map, insert}
use myriadmesh_server.Base.Result.{Result, ok, err, ◌>>=◌}
use myriadmesh_server.Ledger.Entry.{NodeId, Signature, F64}
use myriadmesh_server.Updates.Error.{
  UpdateResult, Reason, hash_mismatch, publisher_signature_failed, insufficient_for_official,
  insufficient_trusted,
}
use myriadmesh_server.Updates.Package.{
  Crypto, UpdatePackage, UpdateSignature, UpdateSource, official, peer_forwarded, get_signable_data,
  verify_payload_hash,
}

abbrev pub min_trusted_signatures : ℕ
min_trusted_signatures = 3

pub record SignerVerification : Type 0 where
  pub node_id : NodeId
  pub signature_valid : Bool
  pub reputation : Option F64
  pub trusted : Bool

pub record VerificationResult : Type 0 where
  pub total_signatures : ℕ
  pub valid_signatures : ℕ
  pub trusted_signatures : ℕ
  pub passed : Bool
  pub failure_reason : Option Reason
  pub signer_details : Map NodeId SignerVerification

-- `at_least_trusted` is the comparison of a double with `MIN_TRUST_REPUTATION`.
pub record SignatureVerifier : Type 0 where
  pub public_key_provider : NodeId → Option Bytes
  pub reputation_provider : NodeId → Option F64
  pub at_least_trusted : F64 → Bool
  pub publisher_public_key : Option Bytes

unfoldable pub with_publisher_key : SignatureVerifier → Bytes → SignatureVerifier
with_publisher_key v public_key = record v { publisher_public_key = some public_key }

-- `map(|r| r >= MIN_TRUST_REPUTATION).unwrap_or(false)`
abbrev pub has_trust : SignatureVerifier → Option F64 → Bool
has_trust v none = false
has_trust v (some reputation) = v.at_least_trusted reputation

-- the counts of the loop over the signatures, and its table
pub record Tally : Type 0 where
  pub valid_count : ℕ
  pub trusted_count : ℕ
  pub details : Map NodeId SignerVerification

abbrev pub no_signatures : Tally
no_signatures = record { valid_count = 0; trusted_count = 0; details = [] }

abbrev pub judge : Bool → Reason → Bool × Option Reason
judge passes reason = if passes then (true, none) else (false, some reason)

module _ (c : Crypto) (v : SignatureVerifier) where
  unfoldable pub verify_publisher_signature : Bytes → Signature → Bool
  verify_publisher_signature payload_hash signature = elim v.publisher_public_key [
    | none ↦ false
    | some publisher_key ↦ c.verify_signature publisher_key payload_hash signature
  ]

  -- what the key provider has given
  abbrev pub verify_under : UpdateSignature → Bytes → Option Bytes → SignerVerification
  verify_under info signed none = record {
    node_id = info.signer;
    signature_valid = false;
    reputation = none;
    trusted = false;
  }
  verify_under info signed (some key) = record {
    node_id = info.signer;
    signature_valid = c.verify_signature key signed info.signature;
    reputation = v.reputation_provider info.signer;
    trusted =
        c.verify_signature key signed info.signature
        && has_trust v (v.reputation_provider info.signer);
  }

  unfoldable pub verify_signature : UpdateSignature → Bytes → SignerVerification
  verify_signature info signed = verify_under info signed (v.public_key_provider info.signer)

  abbrev pub count_signature : Tally → NodeId → SignerVerification → Tally
  count_signature t signer verification = record {
    valid_count = t.valid_count + (if verification.signature_valid then 1 else 0);
    trusted_count = t.trusted_count + (if verification.trusted then 1 else 0);
    details = insert t.details signer verification;
  }

  unfoldable pub verify_each : Tally → List UpdateSignature → Bytes → Tally
  unfolding verify_signature
  verify_each t [] signed = t
  verify_each t (info ∷ rest) signed =
      verify_each (count_signature t info.signer (verify_signature info signed)) rest signed

  unfoldable pub evaluate_source : UpdateSource → Bytes → ℕ → Bool × Option Reason
  unfolding verify_publisher_signature
  evaluate_source (official url published (some signature)) payload_hash trusted_count =
      judge (verify_publisher_signature payload_hash signature) publisher_signature_failed
  evaluate_source (official url published none) payload_hash trusted_count =
      judge (leb min_trusted_signatures trusted_count) (insufficient_for_official trusted_count)
  evaluate_source (peer_forwarded origin nodes hops) payload_hash trusted_count =
      judge (leb min_trusted_signatures trusted_count) (insufficient_trusted trusted_count)

  unfoldable pub evaluate_verification : UpdatePackage → ℕ → ℕ → Bool × Option Reason
  unfolding evaluate_source
  evaluate_verification pkg valid_count trusted_count =
      evaluate_source pkg.source pkg.payload_hash trusted_count

  -- the result, of the signed bytes
  unfoldable pub report : UpdatePackage → Bytes → VerificationResult
  unfolding verify_each evaluate_verification
  report pkg signed =
      let t : Tally = verify_each no_signatures pkg.signatures signed in
      let verdict : Bool × Option Reason =
        evaluate_verification pkg t.valid_count t.trusted_count in
      record {
        total_signatures = length pkg.signatures;
        valid_signatures = t.valid_count;
        trusted_signatures = t.trusted_count;
        passed = verdict.0;
        failure_reason = verdict.1;
        signer_details = t.details;
      }

  unfoldable pub verify_package : UpdatePackage → UpdateResult VerificationResult
  unfolding report
  verify_package pkg =
      if verify_payload_hash c pkg
      then get_signable_data c pkg >>= (λ signed. ok (report pkg signed))
      else err (hash_mismatch pkg.payload_hash (some (c.blake2b pkg.payload)))

unfoldable pub enough_signatures : UpdateSource → ℕ → Bool
enough_signatures (official url published signature) count =
    is_some signature || leb min_trusted_signatures count
enough_signatures (peer_forwarded origin nodes hops) count = leb min_trusted_signatures count

unfoldable pub has_sufficient_signatures : UpdatePackage → Bool
unfolding enough_signatures
has_sufficient_signatures pkg = enough_signatures pkg.source (length pkg.signatures)
