-- ===== src/Ledger/Consensus.antt =====
-- crates/myriadmesh-ledger/src/consensus.rs: reputations, and the consensus manager over them.
pub mod Reputation
pub mod Selection
pub mod Forks
use myriadmesh_server.Base.{
  ℕ, ◌%◌, Bool, true, false, not, ◌||◌, Option, none, some, List, [], ◌∷◌, length, map, is_empty,
  get_elem?, select, add64, ltb, eqb, if◌then◌else◌,
}
use myriadmesh_server.Base.Bytes.{Bytes, bytes_eq, bytes_leb}
use myriadmesh_server.Base.Map
use myriadmesh_server.Base.Map.{Map}
use myriadmesh_server.Base.Sort.{sort_by}
use myriadmesh_server.Base.Result.{ok, err}
use myriadmesh_server.Ledger.Error.{Ledger, insufficient_reputation, insufficient_signatures}
use myriadmesh_server.Ledger.Entry.{NodeId, F64}
use myriadmesh_server.Ledger.Float.{Float, fmin, clamp_unit}
use myriadmesh_server.Ledger.Chain.{Block}
use myriadmesh_server.Ledger.Block.{has_consensus, required_signatures, signature_count}

pub record NodeReputation : Type 0 where
  pub node_id : NodeId
  pub successful_relays : ℕ
  pub total_relay_attempts : ℕ
  pub uptime : F64
  pub blocks_created : ℕ
  pub blocks_validated : ℕ
  pub last_seen : ℕ

unfoldable pub record_relay_success : NodeReputation → NodeReputation
record_relay_success r = record r {
  successful_relays = add64 r.successful_relays 1;
  total_relay_attempts = add64 r.total_relay_attempts 1;
}

unfoldable pub record_relay_failure : NodeReputation → NodeReputation
record_relay_failure r = record r { total_relay_attempts = add64 r.total_relay_attempts 1 }

unfoldable pub record_block_creation : NodeReputation → NodeReputation
record_block_creation r = record r { blocks_created = add64 r.blocks_created 1 }

unfoldable pub record_block_validation : NodeReputation → NodeReputation
record_block_validation r = record r { blocks_validated = add64 r.blocks_validated 1 }

unfoldable pub update_last_seen : ℕ → NodeReputation → NodeReputation
update_last_seen timestamp r = record r { last_seen = timestamp }

pub record ConsensusManager : Type 0 where
  pub reputations : Map NodeId NodeReputation
  pub min_reputation : F64

unfoldable pub new : F64 → ConsensusManager
new min_reputation = record { reputations = []; min_reputation = min_reputation }

unfoldable pub get_reputation : ConsensusManager → NodeId → Option NodeReputation
get_reputation m node_id = Map.get m.reputations node_id

unfoldable pub node_count : ConsensusManager → ℕ
node_count m = length m.reputations

module _ (f : Float) where
  unfoldable pub new_reputation : NodeId → NodeReputation
  new_reputation node_id = record {
    node_id = node_id;
    successful_relays = 0;
    total_relay_attempts = 0;
    uptime = f.nought;
    blocks_created = 0;
    blocks_validated = 0;
    last_seen = 0;
  }

  unfoldable pub relay_score : NodeReputation → F64
  relay_score r =
      if ltb 0 r.total_relay_attempts
      then f.div (f.of_u64 r.successful_relays) (f.of_u64 r.total_relay_attempts)
      else f.nought

  unfoldable pub participation_score : NodeReputation → F64
  participation_score r =
      if ltb 0 r.blocks_created || ltb 0 r.blocks_validated
      then fmin f (f.div (f.of_u64 (add64 r.blocks_created r.blocks_validated)) f.hundred) f.one
      else f.nought

  unfoldable pub score : NodeReputation → F64
  score r =
      f.add (f.add (f.mul (relay_score r) f.half) (f.mul r.uptime f.three_tenths))
        (f.mul (participation_score r) f.one_fifth)

  unfoldable pub update_uptime : F64 → NodeReputation → NodeReputation
  update_uptime uptime r = record r { uptime = clamp_unit f uptime }

  -- `DEFAULT_MIN_REPUTATION` is 0.5
  unfoldable pub with_defaults : ConsensusManager
  unfolding new
  with_defaults = new f.half

  abbrev or_new : NodeId → Option NodeReputation → NodeReputation
  or_new node_id none = new_reputation node_id
  or_new node_id (some r) = r

  -- `get_reputation_mut`, with what the caller writes through the reference as `write`
  unfoldable pub get_reputation_mut :
      ConsensusManager → NodeId → (NodeReputation → NodeReputation) → ConsensusManager
  unfolding new_reputation
  get_reputation_mut m node_id write = record m {
    reputations =
        Map.insert m.reputations node_id (write (or_new node_id (Map.get m.reputations node_id)));
  }

  abbrev is_eligible : ConsensusManager → NodeReputation → Bool
  is_eligible m r = f.le m.min_reputation (score r)

  abbrev score_or_nought : Option NodeReputation → F64
  score_or_nought none = f.nought
  score_or_nought (some r) = score r

  unfoldable pub can_create_blocks : ConsensusManager → NodeId → Bool
  can_create_blocks m node_id = elim (Map.get m.reputations node_id) [
    | none ↦ false
    | some r ↦ is_eligible m r
  ]

  unfoldable pub validate_block_creator : ConsensusManager → NodeId → Ledger (Unit {0})
  validate_block_creator m node_id =
      if not (can_create_blocks m node_id)
      then err (
          insufficient_reputation node_id (score_or_nought (Map.get m.reputations node_id))
            m.min_reputation)
      else ok tt

  unfoldable pub get_eligible_creators : ConsensusManager → List NodeId
  get_eligible_creators m = Map.keys (Map.retain (λ _ r. is_eligible m r) m.reputations)

  unfoldable pub select_next_creator : ConsensusManager → ℕ → Option NodeId
  select_next_creator m block_height =
      let eligible = get_eligible_creators m in
      if is_empty eligible
      then none
      else get_elem? (sort_by bytes_leb eligible) (block_height % length eligible)

  -- `map` and `sum` of the creators' scores, from the first block on
  unfoldable pub sum_scores : ConsensusManager → F64 → List Block → F64
  sum_scores m total [] = total
  sum_scores m total (b ∷ bs) =
      sum_scores m (f.add total (score_or_nought (Map.get m.reputations b.header.creator))) bs

  unfoldable pub calculate_chain_reputation : ConsensusManager → List Block → F64
  calculate_chain_reputation m blocks = sum_scores m f.nought blocks

  unfoldable pub resolve_fork : ConsensusManager → List Block → List Block → ℕ
  resolve_fork m chain1 chain2 =
      if ltb (length chain2) (length chain1)
      then 0
      else if ltb (length chain1) (length chain2)
      then 1
      else if f.le (calculate_chain_reputation m chain2) (calculate_chain_reputation m chain1)
      then 0
      else 1

  unfoldable pub set_min_reputation : ConsensusManager → F64 → ConsensusManager
  set_min_reputation m min_reputation = record m { min_reputation = clamp_unit f min_reputation }

unfoldable pub validate_consensus : ConsensusManager → Block → Ledger (Unit {0})
validate_consensus m block =
    let total_nodes = length m.reputations in
    if eqb total_nodes 0
    then ok tt
    else if not (has_consensus block total_nodes)
    then err (insufficient_signatures (required_signatures total_nodes) (signature_count block))
    else ok tt
