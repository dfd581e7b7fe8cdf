-- ===== src/Updates/Coordination/Accept.antt =====
-- crates/myriadmesh-updates/src/coordination.rs: the answer to a schedule of a neighbour, and the
-- schedules of this node.
use myriadmesh_server.Base.{
  ℕ, Eq, ◌≡◌, refl, ap, or_empty, Bool, true, false, not, none, some, inl, inr, List, [], ◌∷◌, ◌++◌,
  String, All, arith, Bool-cases, Option-cases, nat_eq, same_refl, eqb, select, is_empty,
}
use myriadmesh_server.Base.Bytes.{bytes_eq}
use myriadmesh_server.Base.Double.{Double}
use myriadmesh_server.Base.Map.{get, get-insert_self}
use myriadmesh_server.Base.Members.{All-mono}
use myriadmesh_server.Base.Sets.{contains}
use myriadmesh_server.Base.Result.{ok, err}
use myriadmesh_server.Ledger.Entry.{AdapterType}
use myriadmesh_server.Updates.Error.{UpdateResult}
use myriadmesh_server.Updates.Package.{SemanticVersion}
use myriadmesh_server.Updates.Schedule.{
  UpdateSchedule, UpdateScheduleResponse, acknowledged, reschedule, rejected, has_conflict,
  downtimes_of, register_peer_downtime, scheduled_end, new_schedule, get_pending_schedule,
  add_pending_schedule,
}
use myriadmesh_server.Updates.Schedule.Overlap.{IsFree, has_conflict-IsFree}
use myriadmesh_server.Updates.Window.{find_optimal_window}
use myriadmesh_server.Updates.Coordination.{
  UpdateCoordinator, neighbors_using, missing_fallback, downtime_of, handle_schedule_request,
  plan_update, schedule_adapter_update, identify_fallback_adapters,
}

-- every fallback adapter is available
abbrev pub AreAvailable : List AdapterType → List AdapterType → Type 0
AreAvailable available = All (λ a. contains available a ≡ true)

missing_fallback-none :
    (available fallbacks : List AdapterType)
    → missing_fallback available fallbacks ≡ none
    → AreAvailable available fallbacks
unfolding missing_fallback
missing_fallback-none available [] h = tt
missing_fallback-none available (a ∷ rest) h =
    (ground (arith, h), missing_fallback-none available rest (ground (arith, h)))

missing_fallback-some :
    (available fallbacks : List AdapterType) (a : AdapterType)
    → missing_fallback available fallbacks ≡ some a
    → (contains fallbacks a ≡ true) × (contains available a ≡ false)
unfolding missing_fallback contains
missing_fallback-some available [] a h = cc
missing_fallback-some available (b ∷ rest) a h = elim (Bool-cases (contains available b)) [
  | inl there ↦
      let later = missing_fallback-some available rest a (ground (arith, there, h)) in
      (ground (arith, later.0), later.1)
  | inr absent ↦ (ground (arith, absent, h), ground (arith, absent, h))
]

-- What an answer says of the request, and what it leaves of the coordinator.
abbrev pub Answers :
    Double
    → (ℕ → ℕ)
    → ℕ
    → UpdateCoordinator
    → UpdateSchedule
    → String
    → UpdateScheduleResponse
    → UpdateCoordinator
    → Type 0
Answers d clock now u s request (acknowledged node fallbacks id) u' =
    (id ≡ request)
    × (node ≡ u.node_id)
    × (fallbacks ≡ s.fallback_adapters)
    × AreAvailable u.available_adapters s.fallback_adapters
    × All
        (λ peer.
          IsFree s.scheduled_start (scheduled_end s) (downtimes_of u.windows.peer_downtimes peer))
        (neighbors_using u s.adapter_type)
    × (downtimes_of u'.windows.peer_downtimes s.node_id
        ≡ downtimes_of u.windows.peer_downtimes s.node_id ++ (downtime_of s ∷ []))
Answers d clock now u s request (rejected node a id) u' =
    (u' ≡ u)
    × (id ≡ request)
    × (node ≡ u.node_id)
    × (contains s.fallback_adapters a ≡ true)
    × (contains u.available_adapters a ≡ false)
Answers d clock now u s request (reschedule node proposed id) u' =
    (u' ≡ u)
    × (id ≡ request)
    × (node ≡ u.node_id)
    × (find_optimal_window d clock now u.windows (neighbors_using u s.adapter_type)
          s.estimated_duration
        ≡ ok proposed)
    × (has_conflict u.windows.peer_downtimes s.scheduled_start s.estimated_duration
          (neighbors_using u s.adapter_type)
        ≡ true)

downtimes_of-register :
    (u : UpdateCoordinator) (s : UpdateSchedule)
    → downtimes_of (register_peer_downtime u.windows.peer_downtimes (downtime_of s)) s.node_id
      ≡ downtimes_of u.windows.peer_downtimes s.node_id ++ (downtime_of s ∷ [])
unfolding register_peer_downtime
downtimes_of-register u s =
    let downtimes = u.windows.peer_downtimes in
    let list = downtimes_of downtimes s.node_id ++ (downtime_of s ∷ []) in
    ap or_empty (get-insert_self downtimes s.node_id list)

module _ (d : Double) (clock : ℕ → ℕ) (now : ℕ) where
  pub handle_schedule_request-Answers :
      (u : UpdateCoordinator) (s : UpdateSchedule) (id : String)
      → (r : UpdateScheduleResponse) × ((handle_schedule_request d clock now u s id).0 ≡ ok r)
        × Answers d clock now u s id r (handle_schedule_request d clock now u s id).1
  unfolding handle_schedule_request find_optimal_window scheduled_end
  handle_schedule_request-Answers u s id =
      let neighbors = neighbors_using u s.adapter_type in
      elim (Bool-cases
        (has_conflict u.windows.peer_downtimes s.scheduled_start s.estimated_duration neighbors)) [
          | inl conflict ↦
              rw conflict (reschedule u.node_id _ id, refl, (refl, refl, refl, refl, conflict))
          | inr free ↦
              elim (Option-cases (missing_fallback u.available_adapters s.fallback_adapters)) [
                | inr (a, missing) ↦
                    rw (free, missing)
                      (let m =
                          missing_fallback-some u.available_adapters s.fallback_adapters a
                            missing in
                        (rejected u.node_id a id, refl, (refl, refl, refl, m.0, m.1)))
                | inl all_there ↦
                    rw (free, all_there)
                      (
                        acknowledged u.node_id s.fallback_adapters id,
                        refl,
                        (
                          refl,
                          refl,
                          refl,
                          missing_fallback-none u.available_adapters s.fallback_adapters all_there,
                          has_conflict-IsFree u.windows.peer_downtimes s.scheduled_start
                              s.estimated_duration neighbors free,
                          downtimes_of-register u s,
                        ),
                      )
              ]
        ]

-- What the planning of an update gives, and what it leaves of the coordinator.
abbrev pub Plans :
    UpdateCoordinator
    → AdapterType
    → SemanticVersion
    → UpdateResult UpdateSchedule
    → UpdateCoordinator
    → Type 0
Plans u adapter target (err why) u' = u' ≡ u
Plans u adapter target (ok s) u' =
    (s.adapter_type ≡ adapter)
    × (s.target_version ≡ target)
    × (get u.adapter_versions adapter ≡ some s.current_version)
    × (is_empty s.fallback_adapters ≡ false)
    × All (λ a. (contains u.available_adapters a ≡ true) × (eqb a adapter ≡ false))
        s.fallback_adapters
    × (get_pending_schedule u'.schedules adapter ≡ some s)

module _ {ℓ} {A : Type ℓ} ⦃e : Eq A⦄ where
  contains_of_select :
      (p : A → Bool) (xs ys : List A)
      → ((a : A) → contains xs a ≡ true → contains ys a ≡ true)
      → All (λ a. (contains ys a ≡ true) × (p a ≡ true)) (select p xs)
  unfolding select contains
  contains_of_select p [] ys sub = tt
  contains_of_select p (x ∷ xs) ys sub =
      let rest = contains_of_select p xs ys (λ a h. sub a (ground (arith, h))) in
      elim (Bool-cases (p x)) [
        | inl keep ↦ rw keep ((sub x (rw (same_refl x) refl), keep), rest)
        | inr drop ↦ rw drop rest
      ]

module _ (d : Double) (clock : ℕ → ℕ) (now : ℕ) where
  -- Planning an update either fails and changes nothing, or gives a schedule for the adapter
  -- from the version that is registered to the target version, with a fallback adapter at
  -- least, each of them available and another than the adapter, and that schedule is pending.
  pub schedule_adapter_update-Plans :
      (u : UpdateCoordinator) (adapter : AdapterType) (target : SemanticVersion) (duration : ℕ)
      → Plans u adapter target
          (schedule_adapter_update d clock now u adapter target duration).0
          (schedule_adapter_update d clock now u adapter target duration).1
  unfolding schedule_adapter_update plan_update identify_fallback_adapters find_optimal_window
      new_schedule get_pending_schedule add_pending_schedule
  schedule_adapter_update-Plans u adapter target duration =
      let others = select (λ a. not (eqb a adapter)) u.available_adapters in
      elim (Option-cases (get u.adapter_versions adapter)) [
        | inl unknown ↦ rw unknown refl
        | inr (current, known) ↦ elim (Bool-cases (is_empty others)) [
          | inl alone ↦ rw (known, alone) refl
          | inr some_left ↦
              rw (known, some_left)
                (
                  refl,
                  refl,
                  known,
                  some_left,
                  All-mono (λ a h. (h.0, ground (arith, h.1))) others
                      (contains_of_select (λ a. not (eqb a adapter)) u.available_adapters
                        u.available_adapters (λ a h. h)),
                  get-insert_self u.schedules.pending_schedules adapter _,
                )
        ]
      ]
