-- ===== src/Updates/Distribution/Resubmit.antt =====
-- crates/myriadmesh-updates/src/distribution.rs: adding a package, adding it again and installing
-- it.
use myriadmesh_server.Base.{
  ℕ, ◌≡◌, refl, false, none, some, length, arith, Bool-cases, Option-cases, inl, inr, leb,
  same_refl, nat_eq,
}
use myriadmesh_server.Base.Map.{get, get-insert, get-remove}
use myriadmesh_server.Base.Counts.{get-update}
use myriadmesh_server.Base.Result.{ok}
use myriadmesh_server.Ledger.Entry.{AdapterType}
use myriadmesh_server.Updates.Package.{SemanticVersion, UpdatePackage}
use myriadmesh_server.Updates.Distribution.{
  UpdateDistributionManager, PendingUpdate, key_of, key_eq, new_pending, is_ready_to_install,
  add_pending_update, get_pending_update, mark_installed, UpdateKey, mark_signatures_verified,
  set_verified, has_pending_update,
}

-- What an addition without an error leaves pending under the key of the package.
pub get_pending-add :
    (now : ℕ) (m : UpdateDistributionManager) (p : UpdatePackage)
    → (add_pending_update now m p).0 ≡ ok tt
    → get_pending_update (add_pending_update now m p).1 p.adapter_type p.version
      ≡ some (new_pending now p)
unfolding add_pending_update get_pending_update
get_pending-add now m p h = elim (Bool-cases (leb m.max_pending (length m.pending_updates))) [
  | inl full ↦ absurd (ground (arith, full, h))
  | inr room ↦
      rw
        (
          room,
          get-insert m.pending_updates (key_of p) (key_of p) (new_pending now p),
          same_refl (key_of p),
        )
        refl
]

-- What marking the signatures leaves of what is pending.
pub get_pending-mark :
    (m : UpdateDistributionManager) (a : AdapterType) (v : SemanticVersion) (u : PendingUpdate)
    → get_pending_update m a v ≡ some u
    → get_pending_update (mark_signatures_verified m a v) a v ≡ some (set_verified u)
unfolding get_pending_update mark_signatures_verified
get_pending-mark m a v u found =
    rw
      (
        get-update m.pending_updates (a, v) (a, v) set_verified,
        same_refl {T = UpdateKey} (a, v),
        found,
      )
      refl

-- A package that could be added is not ready to install at once, at whatever time, even if it
-- was pending and verified before.
pub resubmitted_not_ready :
    (now later : ℕ) (m : UpdateDistributionManager) (p : UpdatePackage)
    → (add_pending_update now m p).0 ≡ ok tt
    → (u : PendingUpdate) × (get_pending_update
          (add_pending_update now m p).1
          p.adapter_type
          p.version
        ≡ some u)
      × (is_ready_to_install later u ≡ false)
unfolding is_ready_to_install new_pending
resubmitted_not_ready now later m p h = (new_pending now p, get_pending-add now m p h, ground arith)

-- What is pending is installed, and pending no longer.
pub mark_installed-get :
    (m : UpdateDistributionManager) (a : AdapterType) (v : SemanticVersion) (u : PendingUpdate)
    → get_pending_update m a v ≡ some u
    → ((mark_installed m a v).0 ≡ some u)
      × (get (mark_installed m a v).1.installed_updates a ≡ some u.held)
      × (has_pending_update (mark_installed m a v).1 a v ≡ false)
unfolding mark_installed get_pending_update has_pending_update
mark_installed-get m a v u found = rw found (
  refl,
  rw (get-insert m.installed_updates a a u.held, same_refl a) refl,
  rw (get-remove m.pending_updates (a, v) (a, v), same_refl {T = UpdateKey} (a, v)) refl,
)

-- Nothing is installed of what is not pending.
pub mark_installed-absent :
    (m : UpdateDistributionManager) (a : AdapterType) (v : SemanticVersion)
    → has_pending_update m a v ≡ false
    → mark_installed m a v ≡ (none, m)
unfolding mark_installed has_pending_update
mark_installed-absent m a v absent = elim (Option-cases (get m.pending_updates (a, v))) [
  | inl none_there ↦ rw none_there refl
  | inr (u, found) ↦ absurd (ground (arith, found, absent))
]

-- A package that is added and then marked as installed is returned as it was added, is the
-- installed package of its adapter, and is pending no longer, where it could be added.
pub mark_installed-add :
    (now : ℕ) (m : UpdateDistributionManager) (p : UpdatePackage)
    → (add_pending_update now m p).0 ≡ ok tt
    → let done = mark_installed (add_pending_update now m p).1 p.adapter_type p.version in
      (done.0 ≡ some (new_pending now p))
      × (get done.1.installed_updates p.adapter_type ≡ some p)
      × (has_pending_update done.1 p.adapter_type p.version ≡ false)
unfolding new_pending
mark_installed-add now m p h =
    mark_installed-get (add_pending_update now m p).1 p.adapter_type p.version (new_pending now p)
      (get_pending-add now m p h)
