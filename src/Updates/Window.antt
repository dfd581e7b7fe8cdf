-- ===== src/Updates/Window.antt =====
-- crates/myriadmesh-updates/src/schedule.rs: the score of a time slot and the choice of a window.
-- The arithmetic of doubles is a parameter, and `clock` gives the time that is read when a slot is
-- scored.
pub mod Best
use myriadmesh_server.Base.{
  ℕ, zero, suc, ◌+◌, ◌-◌, ◌*◌, ◌/◌, ◌%◌, Bool, true, false, ◌&&◌, ◌||◌, Option, none, some, List,
  [], ◌∷◌, ltb, leb, eqb, if◌then◌else◌, add64, nat_eq,
}
use myriadmesh_server.Base.Bytes.{Bytes, bytes_eq}
use myriadmesh_server.Base.Double.{Double, F64, clamp_unit}
use myriadmesh_server.Base.Map.{Map, get, insert}
use myriadmesh_server.Base.Result.{Result, ok}
use myriadmesh_server.Ledger.Entry.{NodeId}
use myriadmesh_server.Updates.Error.{UpdateResult}
use myriadmesh_server.Updates.Schedule.{PeerDowntime, downtimes_of, meets}

pub record UpdateWindowSelector : Type 0 where
  pub peer_downtimes : Map NodeId (List PeerDowntime)
  pub network_load_history : Map ℕ F64

unfoldable pub new_selector : UpdateWindowSelector
new_selector = record { peer_downtimes = []; network_load_history = [] }

abbrev pub hour_of : ℕ → ℕ
hour_of slot = (slot / 3600) % 24

-- `(low..=high).contains(&hour)`
abbrev pub within : ℕ → ℕ → ℕ → Bool
within low high hour = leb low hour && leb hour high

-- the number of slots of `now..window_end` by steps of 300
abbrev pub slots_between : ℕ → ℕ → ℕ
slots_between now window_end = (window_end - now + 299) / 300

module _ (d : Double) where
  unfoldable pub update_network_load : UpdateWindowSelector → ℕ → F64 → UpdateWindowSelector
  update_network_load w hour load = record w {
    network_load_history = insert w.network_load_history (hour % 24) (clamp_unit d load);
  }

  abbrev pub score_of_hour : ℕ → F64 → F64
  score_of_hour hour score =
      if within 2 5 hour
      then d.add score (d.lit 50 1)
      else if (within 22 23 hour || eqb hour 0) || eqb hour 1
      then d.add score (d.lit 30 1)
      else if within 9 17 hour
      then d.sub score (d.lit 20 1)
      else score

  unfoldable pub penalize : ℕ → ℕ → List PeerDowntime → F64 → F64
  penalize slot slot_end [] score = score
  penalize slot slot_end (downtime ∷ rest) score =
      penalize slot slot_end rest
        (if meets slot slot_end downtime then d.sub score (d.lit 40 1) else score)

  unfoldable pub penalize_all : Map NodeId (List PeerDowntime) → ℕ → ℕ → List NodeId → F64 → F64
  unfolding penalize
  penalize_all downtimes slot slot_end [] score = score
  penalize_all downtimes slot slot_end (peer ∷ rest) score =
      penalize_all downtimes slot slot_end rest
        (penalize slot slot_end (downtimes_of downtimes peer) score)

  abbrev pub less_load : Option F64 → F64 → F64
  less_load none score = score
  less_load (some load) score = d.sub score (d.mul load (d.lit 30 1))

  -- `now` is the time that is read
  unfoldable pub evaluate_update_slot : ℕ → UpdateWindowSelector → ℕ → List NodeId → ℕ → F64
  unfolding penalize_all
  evaluate_update_slot now w slot neighbors duration =
      let hour : ℕ = hour_of slot in
      let peak : F64 = score_of_hour hour (d.lit 100 1) in
      let free : F64 = penalize_all w.peer_downtimes slot (add64 slot duration) neighbors peak in
      let quiet : F64 = less_load (get w.network_load_history hour) free in
      d.sub quiet (d.mul (d.of_nat ((slot - now) / 3600)) (d.lit 1 2))

  -- the best window so far, and its score
  abbrev pub better : (ℕ → F64) → ℕ → ℕ × F64 → ℕ × F64
  better score slot best = if d.lt best.1 (score slot) then (slot, score slot) else best

  -- `for slot in (slot..).step_by(300)`, for a number of slots
  unfoldable pub search_slots : ℕ → (ℕ → F64) → ℕ → ℕ × F64 → ℕ × F64
  search_slots zero score slot best = best
  search_slots (suc n) score slot best =
      search_slots n score (add64 slot 300) (better score slot best)

  unfoldable pub find_optimal_window :
      (ℕ → ℕ) → ℕ → UpdateWindowSelector → List NodeId → ℕ → UpdateResult ℕ
  unfolding search_slots evaluate_update_slot
  find_optimal_window clock now w neighbors duration =
      let score : ℕ → F64 = λ slot. evaluate_update_slot (clock slot) w slot neighbors duration in
      let best : ℕ × F64 =
        search_slots (slots_between now (add64 now 86_400)) score now (add64 now 300, d.least) in
      ok best.0
