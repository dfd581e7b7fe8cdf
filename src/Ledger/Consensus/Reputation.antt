-- ===== src/Ledger/Consensus/Reputation.antt =====
-- crates/myriadmesh-ledger/src/consensus.rs: the score of a reputation and the operations on it.
use myriadmesh_server.Base.{ℕ, ◌+◌, ◌≤◌, ◌<◌, ◌≡◌, true, arith, u64_mod, add64}
use myriadmesh_server.Ledger.Entry.{NodeId, F64}
use myriadmesh_server.Ledger.Float.{Float, InUnit, IsRounding}
use myriadmesh_server.Ledger.Consensus.{
  NodeReputation, record_relay_success, record_relay_failure, record_block_creation,
  record_block_validation, update_last_seen, update_uptime, new_reputation, relay_score,
  participation_score, score,
}

module _ (f : Float) (l : IsRounding f) where
  -- Successes are attempts, and the uptime is a share.
  pub record IsSound (r : NodeReputation) : Type 0 where
    pub relays : r.successful_relays ≤ r.total_relay_attempts
    pub uptime_unit : InUnit f r.uptime

  relay_score_unit : (r : NodeReputation) → IsSound r → InUnit f (relay_score f r)
  unfolding relay_score
  relay_score_unit r s =
      ground (arith, l.ratio_unit r.successful_relays r.total_relay_attempts s.relays, l.unit_order)

  participation_score_unit : (r : NodeReputation) → InUnit f (participation_score f r)
  unfolding participation_score
  participation_score_unit r =
      ground
        (arith, l.hundred_pos (add64 r.blocks_created r.blocks_validated), l.unit_order, l.one_refl)

  -- The score of a reputation whose successes are at most its attempts and whose uptime is a
  -- share lies between 0 and 1, by the facts of rounding that are assumed of the arithmetic.
  pub score_unit : (r : NodeReputation) → IsSound r → InUnit f (score f r)
  unfolding score
  score_unit r s =
      let a = l.mul_unit (relay_score f r) f.half (relay_score_unit r s) l.weights_unit.0 in
      let b = l.mul_unit r.uptime f.three_tenths s.uptime_unit l.weights_unit.1 in
      let c =
        l.mul_unit (participation_score f r) f.one_fifth (participation_score_unit r)
          l.weights_unit.2 in
      let ab = l.add_nonneg _ _ a.0 b.0 in
      (
        l.add_nonneg _ _ ab c.0,
        l.le_trans _ _ _ (l.add_mono _ _ _ _ ab (l.add_mono _ _ _ _ a.0 a.1 b.0 b.1) c.0 c.1)
            l.weights_sum,
      )

  -- The operations on a reputation.
  pub data Event : Type 0 where
    relayed failed created validated : Event
    seen : ℕ → Event
    up : F64 → Event

  abbrev pub apply : Event → NodeReputation → NodeReputation
  apply relayed r = record_relay_success r
  apply failed r = record_relay_failure r
  apply created r = record_block_creation r
  apply validated r = record_block_validation r
  apply (seen t) r = update_last_seen t r
  apply (up u) r = update_uptime f u r

  -- An uptime that is not a NaN.
  abbrev pub IsNumber : Event → Type 0
  IsNumber (up u) = f.le u u ≡ true
  IsNumber _ = Unit

  pub new-IsSound : (n : NodeId) → IsSound (new_reputation f n)
  unfolding new_reputation
  new-IsSound n = record { relays = omega arith; uptime_unit = l.unit_order }

  -- Each operation on a reputation keeps the successes at most the attempts and the uptime a
  -- share, where the attempts do not wrap and an uptime that is set is a number.
  pub apply-IsSound :
      (e : Event) (r : NodeReputation)
      → r.total_relay_attempts + 1 < u64_mod
      → IsNumber e
      → IsSound r
      → IsSound (apply e r)
  unfolding record_relay_success record_relay_failure record_block_creation record_block_validation
      update_last_seen update_uptime
  apply-IsSound relayed r room n s = record {
    relays = omega (arith, s.relays);
    uptime_unit = s.uptime_unit;
  }
  apply-IsSound failed r room n s = record {
    relays = omega (arith, s.relays);
    uptime_unit = s.uptime_unit;
  }
  apply-IsSound created r room n s = record { relays = s.relays; uptime_unit = s.uptime_unit }
  apply-IsSound validated r room n s = record { relays = s.relays; uptime_unit = s.uptime_unit }
  apply-IsSound (seen t) r room n s = record { relays = s.relays; uptime_unit = s.uptime_unit }
  apply-IsSound (up u) r room n s = record {
    relays = s.relays;
    uptime_unit =
        ground
          (arith, l.unit_order, l.one_refl, l.le_of_not_lt u f.nought n, l.le_of_not_lt f.one u);
  }
