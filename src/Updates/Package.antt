-- ===== src/Updates/Package.antt =====
-- crates/myriadmesh-updates/src/distribution.rs: update packages and what is signed of them. A
-- version is the text that its crate prints, and a time is a number of nanoseconds.
pub mod Signable
use myriadmesh_server.Base.{
  ℕ, ◌*◌, ◌/◌, Bool, true, false, Option, none, some, List, [], ◌∷◌, ◌++◌, String, length, any_of,
  ◌==◌,
}
use myriadmesh_server.Base.Bytes.{Bytes, bytes_eq}
use myriadmesh_server.Base.Result.{Result, ok, ok_or, ◌>>=◌}
use myriadmesh_server.Ledger.Entry.{NodeId, Signature, AdapterType, F64}
use myriadmesh_server.Updates.Error.{UpdateResult, serialization}

abbrev pub SemanticVersion : Type 0
SemanticVersion = String

-- a second, in nanoseconds
abbrev pub second : ℕ
second = 1_000_000_000

pub data CveSeverity : Type 0 where
  low medium high critical : CveSeverity

pub record CveFixInfo : Type 0 where
  pub cve_id : String
  pub severity : CveSeverity
  pub cvss_score : F64
  pub description : String

pub record UpdateMetadata : Type 0 where
  pub fixes_cves : List CveFixInfo
  pub changelog : String
  pub breaking_changes : Bool
  pub min_compatible : SemanticVersion
  pub max_compatible : Option SemanticVersion
  pub release_notes_url : Option String

-- The publisher's signature is of an official release; a forwarded package names the node it is
-- from, those that forwarded it and their number.
pub data UpdateSource : Type 0 where
  official : String → ℕ → Option Signature → UpdateSource
  peer_forwarded : NodeId → List NodeId → ℕ → UpdateSource

pub record UpdateSignature : Type 0 where
  pub signer : NodeId
  pub signature : Signature
  pub signed_at : ℕ
  pub signer_reputation : Option F64

pub record UpdatePackage : Type 0 where
  pub adapter_type : AdapterType
  pub version : SemanticVersion
  pub payload : Bytes
  pub payload_hash : Bytes
  pub source : UpdateSource
  pub signatures : List UpdateSignature
  pub metadata : UpdateMetadata
  pub created_at : ℕ

-- What is taken from other crates: the hash of `blake2`, the bytes of a version's text, those of
-- `bincode`, and Ed25519 under the key of this node or of another.
pub record Crypto : Type 0 where
  pub blake2b : Bytes → Bytes
  pub version_bytes : SemanticVersion → Bytes
  pub metadata_bytes : UpdateMetadata → Option Bytes
  pub verify_signature : Bytes → Bytes → Signature → Bool
  pub sign_message : Bytes → Option Signature

unfoldable pub is_critical : CveSeverity → Bool
is_critical critical = true
is_critical high = false
is_critical medium = false
is_critical low = false

unfoldable pub is_high_or_critical : CveSeverity → Bool
is_high_or_critical critical = true
is_high_or_critical high = true
is_high_or_critical medium = false
is_high_or_critical low = false

unfoldable pub has_critical_cve : UpdateMetadata → Bool
unfolding is_critical any_of
has_critical_cve metadata = any_of (λ cve. is_critical cve.severity) metadata.fixes_cves

unfoldable pub has_high_priority_cve : UpdateMetadata → Bool
unfolding is_high_or_critical any_of
has_high_priority_cve metadata =
    any_of (λ cve. is_high_or_critical cve.severity) metadata.fixes_cves

unfoldable pub is_critical_security_update : UpdatePackage → Bool
unfolding has_critical_cve
is_critical_security_update pkg = has_critical_cve pkg.metadata

unfoldable pub is_official : UpdateSource → Bool
is_official (official url published signature) = true
is_official (peer_forwarded origin nodes hops) = false

unfoldable pub hop_count : UpdateSource → ℕ
hop_count (official url published signature) = 0
hop_count (peer_forwarded origin nodes hops) = hops

unfoldable pub new_signature : ℕ → NodeId → Signature → UpdateSignature
new_signature now signer signature = record {
  signer = signer;
  signature = signature;
  signed_at = now / second;
  signer_reputation = none;
}

unfoldable pub with_reputation : UpdateSignature → F64 → UpdateSignature
with_reputation s reputation = record s { signer_reputation = some reputation }

unfoldable pub add_signature : UpdatePackage → UpdateSignature → UpdatePackage
add_signature pkg s = record pkg { signatures = pkg.signatures ++ (s ∷ []) }

unfoldable pub size : UpdatePackage → ℕ
size pkg = length pkg.payload

module _ (c : Crypto) where
  unfoldable pub new :
      ℕ → AdapterType → SemanticVersion → Bytes → UpdateMetadata → UpdateSource → UpdatePackage
  new now adapter_type version payload metadata source = record {
    adapter_type = adapter_type;
    version = version;
    payload = payload;
    payload_hash = c.blake2b payload;
    source = source;
    signatures = [];
    metadata = metadata;
    created_at = now / second;
  }

  unfoldable pub verify_payload_hash : UpdatePackage → Bool
  verify_payload_hash pkg = c.blake2b pkg.payload == pkg.payload_hash

  unfoldable pub get_signable_data : UpdatePackage → UpdateResult Bytes
  get_signable_data pkg = do
    metadata ← ok_or (c.metadata_bytes pkg.metadata) serialization
    ok (pkg.payload_hash ++ (c.version_bytes pkg.version ++ c.blake2b metadata))
