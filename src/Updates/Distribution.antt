-- ===== src/Updates/Distribution.antt =====
-- crates/myriadmesh-updates/src/distribution.rs: the updates that wait to be verified, and those
-- installed. Times are counts of nanoseconds, and an operation is given the time that it reads.
pub mod Ready
pub mod Resubmit
use myriadmesh_server.Base.{
  ℕ, ◌-◌, ◌*◌, Bool, true, false, ◌&&◌, ◌||◌, Option, none, some, List, [], ◌∷◌, map, String, ltb,
  leb, eqb, eqb_iff, if◌then◌else◌, length, select, ◌≡◌, ◌↔◌, arith, string_eq, nat_eq, Eq,
}
use text.Mathlib.Text.{◌==◌ as str_eq}
use text.Mathlib.TextEquality.{eq_iff}
use myriadmesh_server.Base.Bytes.{Bytes, bytes_eq}
use myriadmesh_server.Base.Map.{Map, values, retain, get, insert, remove, contains_key}
use myriadmesh_server.Base.Counts.{update}
use myriadmesh_server.Base.Sets.{set_insert}
use myriadmesh_server.Base.Result.{Result, ok, err}
use myriadmesh_server.Ledger.Entry.{NodeId, AdapterType}
use myriadmesh_server.Updates.Error.{UpdateResult, Outcome, other}
use myriadmesh_server.Updates.Package.{
  SemanticVersion, UpdatePackage, is_critical_security_update, second,
}

abbrev pub UpdateKey : Type 0
UpdateKey = AdapterType × SemanticVersion

abbrev pub same_key : UpdateKey → UpdateKey → Bool
same_key k j = eqb k.0 j.0 && str_eq k.1 j.1

pub same_key_iff : (k j : UpdateKey) → (same_key k j ≡ true) ↔ (k ≡ j)
same_key_iff (a, v) (b, w) = ground (arith, eq_iff v w)

instance abbrev pub key_eq : Eq UpdateKey
key_eq = record { same = same_key; same_iff = same_key_iff }

abbrev pub key_of : UpdatePackage → UpdateKey
key_of pkg = (pkg.adapter_type, pkg.version)

pub record PendingUpdate : Type 0 where
  pub held : UpdatePackage
  pub received_at : ℕ
  pub verified_by : List NodeId
  pub signatures_verified : Bool

unfoldable pub new_pending : ℕ → UpdatePackage → PendingUpdate
new_pending now pkg = record {
  held = pkg;
  received_at = now;
  verified_by = [];
  signatures_verified = false;
}

-- six hours
abbrev pub verification_period : ℕ
verification_period = 21_600 * second

abbrev pub min_verifications : ℕ
min_verifications = 5

-- zero for a time before the receipt
unfoldable pub age : ℕ → PendingUpdate → ℕ
age now u = now - u.received_at

unfoldable pub verification_period_elapsed : ℕ → PendingUpdate → Bool
unfolding age
verification_period_elapsed now u = leb verification_period (age now u)

unfoldable pub is_ready_to_install : ℕ → PendingUpdate → Bool
unfolding verification_period_elapsed
is_ready_to_install now u =
    let period_ok = verification_period_elapsed now u || is_critical_security_update u.held in
    let verifications_ok : Bool = leb min_verifications (length u.verified_by) in
    (period_ok && verifications_ok) && u.signatures_verified

pub record UpdateDistributionManager : Type 0 where
  pub pending_updates : Map UpdateKey PendingUpdate
  pub installed_updates : Map AdapterType UpdatePackage
  pub max_pending : ℕ

unfoldable pub new : UpdateDistributionManager
new = record { pending_updates = []; installed_updates = []; max_pending = 100 }

unfoldable pub add_pending_update :
    ℕ → UpdateDistributionManager → UpdatePackage → Outcome UpdateDistributionManager (Unit {0})
unfolding new_pending
add_pending_update now m pkg =
    if leb m.max_pending (length m.pending_updates)
    then (err (other "Too many pending updates"), m)
    else (
      ok tt,
      record m { pending_updates = insert m.pending_updates (key_of pkg) (new_pending now pkg) },
    )

unfoldable pub get_pending_update :
    UpdateDistributionManager → AdapterType → SemanticVersion → Option PendingUpdate
get_pending_update m adapter_type version = get m.pending_updates (adapter_type, version)

abbrev pub verified_by_too : NodeId → PendingUpdate → PendingUpdate
verified_by_too verifier u = record u { verified_by = set_insert u.verified_by verifier }

unfoldable pub add_verification :
    UpdateDistributionManager → AdapterType → SemanticVersion → NodeId → UpdateDistributionManager
add_verification m adapter_type version verifier = record m {
  pending_updates = update m.pending_updates (adapter_type, version) (verified_by_too verifier);
}

abbrev pub set_verified : PendingUpdate → PendingUpdate
set_verified u = record u { signatures_verified = true }

unfoldable pub mark_signatures_verified :
    UpdateDistributionManager → AdapterType → SemanticVersion → UpdateDistributionManager
mark_signatures_verified m adapter_type version = record m {
  pending_updates = update m.pending_updates (adapter_type, version) set_verified;
}

unfoldable pub get_ready_updates : ℕ → UpdateDistributionManager → List UpdatePackage
unfolding is_ready_to_install
get_ready_updates now m =
    map (λ u. u.held) (select (is_ready_to_install now) (values m.pending_updates))

-- what `remove` has found
abbrev pub install_found :
    UpdateDistributionManager
    → AdapterType
    → SemanticVersion
    → Option PendingUpdate
    → Option PendingUpdate × UpdateDistributionManager
install_found m adapter_type version none = (none, m)
install_found m adapter_type version (some u) = (
  some u,
  record m {
    pending_updates = remove m.pending_updates (adapter_type, version);
    installed_updates = insert m.installed_updates adapter_type u.held;
  },
)

unfoldable pub mark_installed :
    UpdateDistributionManager
    → AdapterType
    → SemanticVersion
    → Option PendingUpdate × UpdateDistributionManager
mark_installed m adapter_type version =
    install_found m adapter_type version (get m.pending_updates (adapter_type, version))

-- older than 48 hours
unfoldable pub cleanup_expired : ℕ → UpdateDistributionManager → UpdateDistributionManager
unfolding age
cleanup_expired now m = record m {
  pending_updates = retain (λ k u. ltb (age now u) (172_800 * second)) m.pending_updates;
}

unfoldable pub get_all_pending : UpdateDistributionManager → List PendingUpdate
get_all_pending m = values m.pending_updates

unfoldable pub has_pending_update : UpdateDistributionManager → AdapterType → SemanticVersion → Bool
has_pending_update m adapter_type version = contains_key m.pending_updates (adapter_type, version)
