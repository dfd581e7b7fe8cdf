-- ===== src/Updates/Coordination.antt =====
-- crates/myriadmesh-updates/src/coordination.rs: the coordinator, which composes the schedules, the
-- distribution, the windows and the verification. The key of the node is that of `Crypto`, an id
-- that is drawn at random is an argument, and so are the order of versions and the time: `now` in
-- seconds, `nanos` in nanoseconds, and `clock` for the scoring of slots.
pub mod Receive
pub mod Accept
use myriadmesh_server.Base.{
  ℕ, ◌+◌, Bool, true, false, not, Option, none, some, List, [], ◌∷◌, ◌++◌, String, if◌then◌else◌,
  is_empty, select, or_empty, eqb, nat_eq, ◌%◌, u32_mod,
}
use myriadmesh_server.Base.Bytes.{Bytes, bytes_eq}
use myriadmesh_server.Base.Double.{Double}
use myriadmesh_server.Base.Map.{Map, get, insert}
use myriadmesh_server.Base.Sets.{contains}
use myriadmesh_server.Base.Result.{Result, ok, err, ok_or, ◌>>=◌}
use myriadmesh_server.Ledger.Entry.{NodeId, AdapterType}
use myriadmesh_server.Updates.Error.{
  UpdateResult, Outcome, UpdateError, Reason, insufficient_signatures, no_fallback_adapters, crypto,
  hash_mismatch, other, unknown_reason,
}
use myriadmesh_server.Updates.Package.{
  SemanticVersion, UpdatePackage, UpdateSource, official, peer_forwarded, Crypto,
  verify_payload_hash, get_signable_data, new_signature, add_signature,
}
use myriadmesh_server.Updates.Verification.{SignatureVerifier, VerificationResult, verify_package}
use myriadmesh_server.Updates.Distribution.{
  UpdateDistributionManager, add_pending_update, mark_signatures_verified,
}
use myriadmesh_server.Updates.Distribution
use myriadmesh_server.Updates.Schedule.{
  UpdateSchedule, UpdateScheduleManager, UpdateScheduleResponse, acknowledged, reschedule, rejected,
  PeerDowntime, new_schedule, scheduled_end, add_pending_schedule, has_conflict,
  register_peer_downtime, cleanup_old_requests, cleanup_expired_downtimes,
}
use myriadmesh_server.Updates.Schedule
use myriadmesh_server.Updates.Window.{UpdateWindowSelector, new_selector, find_optimal_window}

pub record UpdateCoordinator : Type 0 where
  pub node_id : NodeId
  pub schedules : UpdateScheduleManager
  pub distribution : UpdateDistributionManager
  pub windows : UpdateWindowSelector
  pub verifier : Option SignatureVerifier
  pub adapter_versions : Map AdapterType SemanticVersion
  pub adapter_neighbors : Map AdapterType (List NodeId)
  pub available_adapters : List AdapterType

unfoldable pub new : NodeId → UpdateCoordinator
new node = record {
  node_id = node;
  schedules = Schedule.new;
  distribution = Distribution.new;
  windows = new_selector;
  verifier = none;
  adapter_versions = [];
  adapter_neighbors = [];
  available_adapters = [];
}

unfoldable pub set_verifier : UpdateCoordinator → SignatureVerifier → UpdateCoordinator
set_verifier u v = record u { verifier = some v }

unfoldable pub register_adapter_version :
    UpdateCoordinator → AdapterType → SemanticVersion → UpdateCoordinator
register_adapter_version u adapter version = record u {
  adapter_versions = insert u.adapter_versions adapter version;
}

unfoldable pub register_adapter_neighbors :
    UpdateCoordinator → AdapterType → List NodeId → UpdateCoordinator
register_adapter_neighbors u adapter neighbors = record u {
  adapter_neighbors = insert u.adapter_neighbors adapter neighbors;
}

unfoldable pub register_available_adapters :
    UpdateCoordinator → List AdapterType → UpdateCoordinator
register_available_adapters u adapters = record u { available_adapters = adapters }

-- the neighbours that use an adapter, or none
abbrev pub neighbors_using : UpdateCoordinator → AdapterType → List NodeId
neighbors_using u adapter = or_empty (get u.adapter_neighbors adapter)

unfoldable pub identify_fallback_adapters :
    UpdateCoordinator → AdapterType → UpdateResult (List AdapterType)
unfolding select
identify_fallback_adapters u adapter = ok (select (λ a. not (eqb a adapter)) u.available_adapters)

-- what has been planned is added to the pending schedules
abbrev pub add_planned :
    UpdateCoordinator → UpdateResult UpdateSchedule → Outcome UpdateCoordinator UpdateSchedule
add_planned u (err why) = (err why, u)
add_planned u (ok s) = (ok s, record u { schedules = add_pending_schedule u.schedules s })

abbrev pub propose :
    UpdateCoordinator → String → UpdateResult ℕ → Outcome UpdateCoordinator UpdateScheduleResponse
propose u id (err why) = (err why, u)
propose u id (ok start) = (ok (reschedule u.node_id start id), u)

-- the first fallback adapter that is not available
unfoldable pub missing_fallback : List AdapterType → List AdapterType → Option AdapterType
unfolding contains
missing_fallback available [] = none
missing_fallback available (a ∷ rest) =
    let later : Option AdapterType = missing_fallback available rest in
    if contains available a then later else some a

abbrev pub downtime_of : UpdateSchedule → PeerDowntime
downtime_of s = record {
  peer_id = s.node_id;
  adapter_type = s.adapter_type;
  start_time = s.scheduled_start;
  end_time = scheduled_end s;
  fallback_adapters = s.fallback_adapters;
}

abbrev pub answer :
    UpdateCoordinator
    → UpdateSchedule
    → String
    → Option AdapterType
    → Outcome UpdateCoordinator UpdateScheduleResponse
answer u s id (some adapter) = (ok (rejected u.node_id adapter id), u)
answer u s id none = (
  ok (acknowledged u.node_id s.fallback_adapters id),
  record u {
    windows = record u.windows {
      peer_downtimes = register_peer_downtime u.windows.peer_downtimes (downtime_of s);
    };
  },
)

module _ (d : Double) (clock : ℕ → ℕ) (now : ℕ) where
  unfoldable pub plan_update :
      UpdateCoordinator → AdapterType → SemanticVersion → ℕ → UpdateResult UpdateSchedule
  unfolding identify_fallback_adapters
  plan_update u adapter target duration = do
    current ← ok_or (get u.adapter_versions adapter) (other "Adapter version not registered")
    fallbacks ← identify_fallback_adapters u adapter
    if is_empty fallbacks then err no_fallback_adapters else (do
      start ← find_optimal_window d clock now u.windows (neighbors_using u adapter) duration
      ok (new_schedule now u.node_id adapter current target start duration fallbacks))

  unfoldable pub schedule_adapter_update :
      UpdateCoordinator
      → AdapterType
      → SemanticVersion
      → ℕ
      → Outcome UpdateCoordinator UpdateSchedule
  unfolding plan_update
  schedule_adapter_update u adapter target duration =
      add_planned u (plan_update u adapter target duration)

  unfoldable pub handle_schedule_request :
      UpdateCoordinator → UpdateSchedule → String → Outcome UpdateCoordinator UpdateScheduleResponse
  unfolding missing_fallback
  handle_schedule_request u s id =
      let neighbors : List NodeId = neighbors_using u s.adapter_type in
      if has_conflict u.windows.peer_downtimes s.scheduled_start s.estimated_duration neighbors
      then propose u id (find_optimal_window d clock now u.windows neighbors s.estimated_duration)
      else answer u s id (missing_fallback u.available_adapters s.fallback_adapters)

abbrev pub reason_or_unknown : Option Reason → Reason
reason_or_unknown none = unknown_reason
reason_or_unknown (some reason) = reason

abbrev pub is_current_or_newer :
    (SemanticVersion → SemanticVersion → Bool) → Option SemanticVersion → SemanticVersion → Bool
is_current_or_newer ge none version = false
is_current_or_newer ge (some current) version = ge current version

-- the distribution has taken the package in, or refused it
abbrev pub mark_added :
    UpdateCoordinator
    → UpdatePackage
    → Outcome UpdateDistributionManager (Unit {0})
    → Outcome UpdateCoordinator (Unit {0})
mark_added u pkg (err why, m) = (err why, record u { distribution = m })
mark_added u pkg (ok done, m) =
    (ok tt, record u { distribution = mark_signatures_verified m pkg.adapter_type pkg.version })

abbrev pub take_in :
    ℕ
    → (SemanticVersion → SemanticVersion → Bool)
    → UpdateCoordinator
    → UpdatePackage
    → UpdateResult (Unit {0})
    → Outcome UpdateCoordinator (Unit {0})
take_in nanos ge u pkg (err why) = (err why, u)
take_in nanos ge u pkg (ok checked) =
    if is_current_or_newer ge (get u.adapter_versions pkg.adapter_type) pkg.version
    then (ok tt, u)
    else mark_added u pkg (add_pending_update nanos u.distribution pkg)

-- the number of hops is a 32-bit word
abbrev pub forwarded_from : NodeId → UpdateSource → UpdateSource
forwarded_from node (official url published signature) = official url published signature
forwarded_from node (peer_forwarded origin nodes hops) =
    peer_forwarded origin (nodes ++ (node ∷ [])) ((hops + 1) % u32_mod)

module _ (c : Crypto) where
  -- the checks before a package is needed at all
  unfoldable pub check_package : UpdateCoordinator → UpdatePackage → UpdateResult (Unit {0})
  check_package u pkg =
      if verify_payload_hash c pkg
      then (do
        v ← ok_or u.verifier (other "Verifier not set")
        verification ← verify_package c v pkg
        if verification.passed
            then ok tt
            else err (insufficient_signatures (reason_or_unknown verification.failure_reason)))
      else err (hash_mismatch pkg.payload_hash none)

  unfoldable pub receive_update_package :
      ℕ
      → (SemanticVersion → SemanticVersion → Bool)
      → UpdateCoordinator
      → UpdatePackage
      → Outcome UpdateCoordinator (Unit {0})
  unfolding check_package
  receive_update_package nanos ge u pkg = take_in nanos ge u pkg (check_package u pkg)

  -- the package as it would be sent, which the code only logs
  unfoldable pub forward_update_package :
      ℕ → UpdateCoordinator → UpdatePackage → UpdateResult UpdatePackage
  forward_update_package nanos u pkg = do
    signed ← get_signable_data c pkg
    signature ← ok_or (c.sign_message signed) crypto
    let mine = add_signature pkg (new_signature nanos u.node_id signature)
    ok (record mine { source = forwarded_from u.node_id pkg.source })

unfoldable pub get_ready_updates : ℕ → UpdateCoordinator → List UpdatePackage
get_ready_updates nanos u = Distribution.get_ready_updates nanos u.distribution

unfoldable pub mark_update_installed :
    UpdateCoordinator → AdapterType → SemanticVersion → UpdateCoordinator
mark_update_installed u adapter version = record u {
  distribution = (Distribution.mark_installed u.distribution adapter version).1;
  adapter_versions = insert u.adapter_versions adapter version;
}

unfoldable pub cleanup : ℕ → ℕ → UpdateCoordinator → UpdateCoordinator
cleanup now nanos u = record u {
  schedules = cleanup_old_requests now u.schedules;
  distribution = Distribution.cleanup_expired nanos u.distribution;
  windows = record u.windows {
    peer_downtimes = cleanup_expired_downtimes now u.windows.peer_downtimes;
  };
}

unfoldable pub list_pending_schedules : UpdateCoordinator → UpdateResult (List UpdateSchedule)
list_pending_schedules u = Schedule.list_pending_schedules u.schedules
