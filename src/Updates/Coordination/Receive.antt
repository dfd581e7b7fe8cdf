-- ===== src/Updates/Coordination/Receive.antt =====
-- crates/myriadmesh-updates/src/coordination.rs: what becomes of a package that is received.
use myriadmesh_server.Base.{
  ℕ, ◌≡◌, ◌⊎◌, inl, inr, refl, ap, Bool, true, false, some, Bool-cases, Option-cases, arith, length,
  nat_eq, same_refl, leb,
}
use myriadmesh_server.Base.Map.{get, get-insert}
use myriadmesh_server.Base.Result.{ok, err, Result-cases}
use myriadmesh_server.Ledger.Entry.{AdapterType}
use myriadmesh_server.Updates.Error.{UpdateResult}
use myriadmesh_server.Updates.Package.{Crypto, UpdatePackage, SemanticVersion, verify_payload_hash}
use myriadmesh_server.Updates.Verification.{SignatureVerifier, verify_package}
use myriadmesh_server.Updates.Verification.Trust.{Passes}
use myriadmesh_server.Updates.Distribution.{
  add_pending_update, get_pending_update, has_pending_update, new_pending, set_verified,
}
use myriadmesh_server.Updates.Distribution.Resubmit.{
  get_pending-add, get_pending-mark, mark_installed-absent,
}
use myriadmesh_server.Updates.Coordination.{
  UpdateCoordinator, check_package, receive_update_package, is_current_or_newer, mark_added,
  mark_update_installed,
}

module _ (c : Crypto) (nanos : ℕ) (ge : SemanticVersion → SemanticVersion → Bool) where
  -- A package that passes its checks has a verifier that it passes.
  check_package-Passes :
      (u : UpdateCoordinator) (p : UpdatePackage)
      → check_package c u p ≡ ok tt
      → (v : SignatureVerifier) × (u.verifier ≡ some v) × Passes c v p
  unfolding check_package
  check_package-Passes u p h = elim (Bool-cases (verify_payload_hash c p)) [
    | inr other ↦ absurd (ground (arith, other, h))
    | inl same ↦ elim (Option-cases u.verifier) [
      | inl absent ↦ absurd (ground (arith, same, absent, h))
      | inr (v, set) ↦ elim (Result-cases (verify_package c v p)) [
        | inr (why, failed) ↦ absurd (ground (arith, same, set, failed, h))
        | inl (r, got) ↦ (v, set, (r, got, ground (arith, same, set, got, h)))
      ]
    ]
  ]

  -- What a call does, by its outcome.
  abbrev pub Settles :
      UpdateCoordinator → UpdatePackage → UpdateResult (Unit {0}) → UpdateCoordinator → Type 0
  Settles u p (err why) u' = u' ≡ u
  Settles u p (ok done) u' =
      ((v : SignatureVerifier) × (u.verifier ≡ some v) × Passes c v p)
      × (((u' ≡ u)
            × (is_current_or_newer ge (get u.adapter_versions p.adapter_type) p.version ≡ true))
          ⊎ ((is_current_or_newer ge (get u.adapter_versions p.adapter_type) p.version ≡ false)
              × (get_pending_update u'.distribution p.adapter_type p.version
                  ≡ some (set_verified (new_pending nanos p)))))

  mark_added-Settles :
      (u : UpdateCoordinator) (p : UpdatePackage)
      → ((v : SignatureVerifier) × (u.verifier ≡ some v) × Passes c v p)
      → is_current_or_newer ge (get u.adapter_versions p.adapter_type) p.version ≡ false
      → Settles u p
          (mark_added u p (add_pending_update nanos u.distribution p)).0
          (mark_added u p (add_pending_update nanos u.distribution p)).1
  unfolding add_pending_update
  mark_added-Settles u p passes older =
      elim (Bool-cases (leb u.distribution.max_pending (length u.distribution.pending_updates))) [
        | inl full ↦ rw full refl
        | inr room ↦
            let added =
              get_pending-add nanos u.distribution p (rw (room, add_pending_update) refl) in
            rw room (
              passes,
              inr (
                older,
                get_pending-mark _ p.adapter_type p.version (new_pending nanos p)
                    (rw (room, add_pending_update) at added),
              ),
            )
      ]

  -- Receiving a package either fails and changes nothing, or the package has passed the
  -- verification of a verifier that is set; then nothing changes if the version in use is as
  -- new, and if it is not, the package is pending from the time of the call on, with its
  -- signatures verified and no verification of a node.
  pub receive_update_package-Settles :
      (u : UpdateCoordinator) (p : UpdatePackage)
      → Settles u p
          (receive_update_package c nanos ge u p).0
          (receive_update_package c nanos ge u p).1
  unfolding receive_update_package
  receive_update_package-Settles u p = elim (Result-cases (check_package c u p)) [
    | inr (why, failed) ↦ rw failed refl
    | inl (done, checked) ↦
        let passes = check_package-Passes u p checked in
        elim (Bool-cases
          (is_current_or_newer ge (get u.adapter_versions p.adapter_type) p.version)) [
            | inl newer ↦ rw (checked, newer) (passes, inl (refl, newer))
            | inr older ↦ rw (checked, older) (mark_added-Settles u p passes older)
          ]
  ]

  -- The checks of a package do not read the versions.
  check_package-install :
      (u : UpdateCoordinator) (a : AdapterType) (v : SemanticVersion) (p : UpdatePackage)
      → check_package c (mark_update_installed u a v) p ≡ check_package c u p
  unfolding check_package mark_update_installed
  check_package-install u a v p = refl

  is_current-install :
      (u : UpdateCoordinator) (a : AdapterType) (v : SemanticVersion)
      → ge v v ≡ true
      → is_current_or_newer ge (get (mark_update_installed u a v).adapter_versions a) v ≡ true
  unfolding mark_update_installed
  is_current-install u a v newest =
      rw (get-insert u.adapter_versions a a v, same_refl a, newest) refl

  -- A version that is marked as installed while no package of it is pending is recorded as in
  -- use, and a package of it that passes the check is then not taken in, where a version is as
  -- new as itself.
  pub phantom_install_blocks :
      (u : UpdateCoordinator) (p : UpdatePackage)
      → ge p.version p.version ≡ true
      → check_package c u p ≡ ok tt
      → has_pending_update u.distribution p.adapter_type p.version ≡ false
      → let marked = mark_update_installed u p.adapter_type p.version in
        (receive_update_package c nanos ge marked p ≡ (ok tt, marked))
        × (marked.distribution ≡ u.distribution)
  unfolding receive_update_package
  phantom_install_blocks u p newest checked absent = (
    rw
        (
          check_package-install u p.adapter_type p.version p,
          checked,
          is_current-install u p.adapter_type p.version newest,
        )
        refl,
    unfold mark_update_installed in
        ap (λ r. r.1) (mark_installed-absent u.distribution p.adapter_type p.version absent),
  )
