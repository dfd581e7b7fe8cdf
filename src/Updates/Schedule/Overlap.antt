-- ===== src/Updates/Schedule/Overlap.antt =====
-- crates/myriadmesh-updates/src/schedule.rs: when windows and downtimes have a time in common.
use myriadmesh_server.Base.{
  ℕ, ◌+◌, ◌≤◌, ◌<◌, ◌≡◌, ◌↔◌, true, false, List, [], ◌∷◌, All, any_of, arith, ltb, if◌then◌else◌,
  add64, u64_mod, Bool,
}
use myriadmesh_server.Base.Map.{Map}
use myriadmesh_server.Ledger.Entry.{NodeId}
use myriadmesh_server.Updates.Schedule.{
  UpdateSchedule, PeerDowntime, overlaps_with, scheduled_end, has_conflict, meets, downtimes_of,
}

-- a time of a window
abbrev pub During : UpdateSchedule → ℕ → Type 0
During s x = (s.scheduled_start ≤ x) × (x < s.scheduled_start + s.estimated_duration)

-- a window that is not empty and does not wrap
abbrev pub IsWindow : UpdateSchedule → Type 0
IsWindow s = (0 < s.estimated_duration) × (s.scheduled_start + s.estimated_duration < u64_mod)

-- Two schedules whose ends do not wrap and whose durations are not nought overlap exactly when
-- a time is in the window of both.
pub overlaps_with_iff :
    (s t : UpdateSchedule)
    → IsWindow s
    → IsWindow t
    → (overlaps_with s t ≡ true) ↔ ((x : ℕ) × During s x × During t x)
unfolding overlaps_with scheduled_end
overlaps_with_iff s t hs ht = (
  λ h. (
    if ltb s.scheduled_start t.scheduled_start then t.scheduled_start else s.scheduled_start,
    ground (arith, h),
    ground (arith, h),
  ),
  λ (x, in_s, in_t). ground (arith, in_s, in_t),
)

-- None of some downtimes has a time in common with a slot.
abbrev pub IsFree : ℕ → ℕ → List PeerDowntime → Type 0
IsFree slot slot_end list = All (λ d. meets slot slot_end d ≡ false) list

module _ {ℓ} {A : Type ℓ} where
  any_of-false : (p : A → Bool) (xs : List A) → any_of p xs ≡ false → All (λ x. p x ≡ false) xs
  unfolding any_of
  any_of-false p [] h = tt
  any_of-false p (x ∷ xs) h = (ground (arith, h), any_of-false p xs (ground (arith, h)))

-- Where no conflict is found, the slot is free of the downtimes of each neighbour.
pub has_conflict-IsFree :
    (downtimes : Map NodeId (List PeerDowntime)) (slot duration : ℕ) (neighbors : List NodeId)
    → has_conflict downtimes slot duration neighbors ≡ false
    → All (λ peer. IsFree slot (add64 slot duration) (downtimes_of downtimes peer)) neighbors
unfolding has_conflict any_of
has_conflict-IsFree downtimes slot duration [] h = tt
has_conflict-IsFree downtimes slot duration (peer ∷ rest) h = (
  any_of-false _ _ (ground (arith, h)),
  has_conflict-IsFree downtimes slot duration rest (ground (arith, h)),
)
