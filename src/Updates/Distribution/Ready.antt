-- ===== src/Updates/Distribution/Ready.antt =====
-- crates/myriadmesh-updates/src/distribution.rs: where an update that is ready comes from, in any
-- history of calls.
use mathlib.Core.List.{Mem, mem-cons_self, mem-cons_of_mem}
use mathlib.Core.Path.{subst}
use myriadmesh_server.Base.{
  ℕ, ◌+◌, ◌≤◌, ◌≡◌, ◌⊎◌, inl, inr, refl, sym, true, List, [], ◌∷◌, length, All, select, arith,
  Option-cases, Bool-cases, leb, nat_eq,
}
use myriadmesh_server.Base.Bytes.{bytes_eq}
use myriadmesh_server.Base.Map.{values, get}
use myriadmesh_server.Base.Members.{All-mono}
use myriadmesh_server.Base.Every.{
  All-select, All-selected, All-map, All-insert, All-remove, All-update, All-set_insert,
}
use myriadmesh_server.Base.Sets.{Unique, set_insert-Unique}
use myriadmesh_server.Ledger.Entry.{NodeId, AdapterType}
use myriadmesh_server.Updates.Package.{SemanticVersion, UpdatePackage, is_critical_security_update}
use myriadmesh_server.Updates.Distribution.{
  UpdateDistributionManager, PendingUpdate, UpdateKey, key_of, key_eq, new, new_pending,
  is_ready_to_install, add_pending_update, add_verification, mark_signatures_verified,
  get_ready_updates, mark_installed, cleanup_expired, verification_period,
  verification_period_elapsed, verified_by_too, set_verified,
}

pub data Call : Type 0 where
  adding : ℕ → UpdatePackage → Call
  verifying : AdapterType → SemanticVersion → NodeId → Call
  marking installing : AdapterType → SemanticVersion → Call
  cleaning : ℕ → Call

unfoldable pub perform : Call → UpdateDistributionManager → UpdateDistributionManager
unfolding add_pending_update add_verification mark_signatures_verified mark_installed
    cleanup_expired
perform (adding now p) m = (add_pending_update now m p).1
perform (verifying a v node) m = add_verification m a v node
perform (marking a v) m = mark_signatures_verified m a v
perform (installing a v) m = (mark_installed m a v).1
perform (cleaning now) m = cleanup_expired now m

-- the manager after a list of calls, the last one first
unfoldable pub run : List Call → UpdateDistributionManager
unfolding perform new
run [] = new
run (c ∷ cs) = perform c (run cs)

-- The calls that a pending update comes from: that which received its package, those that verified
-- it, by different nodes, and the one that marked its signatures.
pub record Evidence (cs : List Call) (k : UpdateKey) (u : PendingUpdate) : Type 0 where
  pub keyed : key_of u.held ≡ k
  pub received : Mem (adding u.received_at u.held) cs
  pub verified : All (λ n. Mem (verifying k.0 k.1 n) cs) u.verified_by
  pub distinct : Unique u.verified_by
  pub marked : u.signatures_verified ≡ true → Mem (marking k.0 k.1) cs

later :
    (c : Call) (cs : List Call) (k : UpdateKey) (u : PendingUpdate)
    → Evidence cs k u
    → Evidence (c ∷ cs) k u
later c cs k u h = record {
  keyed = h.keyed;
  received = mem-cons_of_mem c h.received;
  verified = All-mono (λ n m. mem-cons_of_mem c m) u.verified_by h.verified;
  distinct = h.distinct;
  marked = λ t. mem-cons_of_mem c (h.marked t);
}

abbrev AllEvidence : List Call → UpdateDistributionManager → Type 0
AllEvidence cs m = All (λ e. Evidence cs e.0 e.1) m.pending_updates

perform-AllEvidence :
    (c : Call) (cs : List Call) (m : UpdateDistributionManager)
    → AllEvidence cs m
    → AllEvidence (c ∷ cs) (perform c m)
unfolding perform new_pending
perform-AllEvidence (adding now p) cs m a =
    let old = All-mono (λ e. later (adding now p) cs e.0 e.1) m.pending_updates a in
    elim (Bool-cases (leb m.max_pending (length m.pending_updates))) [
      | inl full ↦ rw (full, perform) old
      | inr room ↦
          rw (room, perform)
            (All-insert (λ e. Evidence (adding now p ∷ cs) e.0 e.1) m.pending_updates (key_of p)
              (new_pending now p)
              (record {
                keyed = refl;
                received = mem-cons_self;
                verified = tt;
                distinct = tt;
                marked = λ t. cc t;
              })
              old)
    ]
perform-AllEvidence (verifying a' v node) cs m a =
    All-update (λ e. Evidence (verifying a' v node ∷ cs) e.0 e.1) m.pending_updates (a', v)
      (verified_by_too node)
      (λ u h. record {
        keyed = h.keyed;
        received = h.received;
        verified =
            All-set_insert (λ n. Mem (verifying a' v n) (verifying a' v node ∷ cs)) u.verified_by
              node mem-cons_self h.verified;
        distinct = set_insert-Unique u.verified_by node h.distinct;
        marked = h.marked;
      })
      (All-mono (λ e. later (verifying a' v node) cs e.0 e.1) m.pending_updates a)
perform-AllEvidence (marking a' v) cs m a =
    All-update (λ e. Evidence (marking a' v ∷ cs) e.0 e.1) m.pending_updates (a', v) set_verified
      (λ u h. record {
        keyed = h.keyed;
        received = h.received;
        verified = h.verified;
        distinct = h.distinct;
        marked = λ t. mem-cons_self;
      })
      (All-mono (λ e. later (marking a' v) cs e.0 e.1) m.pending_updates a)
perform-AllEvidence (installing a' v) cs m a = elim (Option-cases (get m.pending_updates (a', v))) [
  | inl absent ↦
      rw (absent, perform) (All-mono (λ e. later (installing a' v) cs e.0 e.1) m.pending_updates a)
  | inr (u, found) ↦
      rw (found, perform)
        (All-remove (λ e. Evidence (installing a' v ∷ cs) e.0 e.1) m.pending_updates (a', v)
          (All-mono (λ e. later (installing a' v) cs e.0 e.1) m.pending_updates a))
]
perform-AllEvidence (cleaning now) cs m a =
    All-select (λ e. Evidence (cleaning now ∷ cs) e.0 e.1) _ m.pending_updates
      (All-mono (λ e. later (cleaning now) cs e.0 e.1) m.pending_updates a)

run-AllEvidence : (cs : List Call) → AllEvidence cs (run cs)
unfolding run
run-AllEvidence [] = tt
run-AllEvidence (c ∷ cs) = perform-AllEvidence c cs (run cs) (run-AllEvidence cs)

-- What installing a package may rest on, at a time.
pub record IsJustified (now : ℕ) (cs : List Call) (p : UpdatePackage) : Type 0 where
  pub at : ℕ
  pub nodes : List NodeId
  pub received : Mem (adding at p) cs
  pub waited : (at + verification_period ≤ now) ⊎ (is_critical_security_update p ≡ true)
  pub enough : 5 ≤ length nodes
  pub distinct : Unique nodes
  pub verified : All (λ n. Mem (verifying p.adapter_type p.version n) cs) nodes
  pub marked : Mem (marking p.adapter_type p.version) cs

Evidence-IsJustified :
    (now : ℕ) (cs : List Call) (k : UpdateKey) (u : PendingUpdate)
    → Evidence cs k u
    → is_ready_to_install now u ≡ true
    → IsJustified now cs u.held
unfolding is_ready_to_install verification_period_elapsed
Evidence-IsJustified now cs k u h ready =
    let h' = subst (λ j. Evidence cs j u) (sym h.keyed) h in
    record {
      at = u.received_at;
      nodes = u.verified_by;
      received = h'.received;
      waited = ground (arith, ready);
      enough = ground (arith, ready);
      distinct = h'.distinct;
      verified = h'.verified;
      marked = h'.marked (ground (arith, ready));
    }

-- Whatever calls are made of an update manager, a package that it gives as ready to install
-- was received, at a time six hours ago or more unless it is critical, was verified by calls
-- that name five different nodes at least, and had its signatures marked as verified by a
-- call.
pub get_ready_updates-IsJustified :
    (now : ℕ) (cs : List Call) → All (IsJustified now cs) (get_ready_updates now (run cs))
unfolding get_ready_updates
get_ready_updates-IsJustified now cs =
    All-map (IsJustified now cs) (λ u. u.held)
      (select (is_ready_to_install now) (values (run cs).pending_updates))
      (All-mono (λ u h. Evidence-IsJustified now cs h.0.0 u h.0.1 h.1)
        (select (is_ready_to_install now) (values (run cs).pending_updates))
        (All-selected (λ u. (k : UpdateKey) × Evidence cs k u) (is_ready_to_install now)
          (values (run cs).pending_updates)
          (All-map (λ u. (k : UpdateKey) × Evidence cs k u) (λ e. e.1) (run cs).pending_updates
            (All-mono (λ e h. (e.0, h)) (run cs).pending_updates (run-AllEvidence cs)))))
