-- ===== src/Ledger/Consensus/Forks.antt =====
-- crates/myriadmesh-ledger/src/consensus.rs: the choice between chains, and the checks on a creator
-- and on signatures.
use myriadmesh_server.Base.{
  ◌+◌, ◌*◌, ◌≤◌, ◌<◌, ◌^◌, ◌≡◌, ◌↔◌, ◌⊎◌, true, false, List, length, arith,
}
use myriadmesh_server.Base.Result.{ok}
use myriadmesh_server.Ledger.Entry.{NodeId}
use myriadmesh_server.Ledger.Float.{Float, IsRounding}
use myriadmesh_server.Ledger.Chain.{Block}
use myriadmesh_server.Ledger.Block.{signature_count}
use myriadmesh_server.Ledger.Block.Quorum.{has_consensus_iff}
use myriadmesh_server.Ledger.Consensus.{
  ConsensusManager, can_create_blocks, validate_block_creator, validate_consensus, resolve_fork,
  calculate_chain_reputation, node_count,
}

module _ (f : Float) (m : ConsensusManager) where
  -- The second of two chains wins exactly when it is longer, or as long and the total score of
  -- its creators is not at most that of the first.
  pub resolve_fork_iff :
      (chain1 chain2 : List Block)
      → (resolve_fork f m chain1 chain2 ≡ 1) ↔ (
          (length chain1 < length chain2)
          ⊎ ((length chain1 ≡ length chain2)
              × (f.le
                    (calculate_chain_reputation f m chain2)
                    (calculate_chain_reputation f m chain1)
                  ≡ false)))
  unfolding resolve_fork
  resolve_fork_iff chain1 chain2 = (λ h. ground arith, λ h. ground arith)

  -- Whoever compares two chains, in whichever order, finds the same winner, unless the chains
  -- tie in length and in total score, where the totals are numbers.
  pub resolve_fork_swap :
      (chain1 chain2 : List Block)
      → IsRounding f
      → let r1 = calculate_chain_reputation f m chain1 in
        let r2 = calculate_chain_reputation f m chain2 in
        f.le r1 r1 ≡ true
        → f.le r2 r2 ≡ true
        → (resolve_fork f m chain1 chain2 + resolve_fork f m chain2 chain1 ≡ 1)
          ⊎ ((length chain1 ≡ length chain2) × (f.le r1 r2 ≡ true) × (f.le r2 r1 ≡ true))
  unfolding resolve_fork
  resolve_fork_swap chain1 chain2 l n1 n2 = ground (
    arith,
    l.le_of_not_le (calculate_chain_reputation f m chain1) (calculate_chain_reputation f m chain2)
        n1 n2,
  )

  -- The check on the creator passes exactly the nodes that may create blocks.
  pub validate_block_creator_iff :
      (n : NodeId) → (validate_block_creator f m n ≡ ok tt) ↔ (can_create_blocks f m n ≡ true)
  unfolding validate_block_creator
  validate_block_creator_iff n = (λ h. ground arith, λ h. ground arith)

-- With fewer than two to the power 63 known nodes, the check of consensus passes exactly the
-- blocks of which three times the signatures reach twice the known nodes; while no node is
-- known it passes every block.
pub validate_consensus_iff :
    (m : ConsensusManager) (b : Block)
    → node_count m < 2 ^ 63
    → (validate_consensus m b ≡ ok tt) ↔ (2 * node_count m ≤ 3 * signature_count b)
unfolding validate_consensus node_count
validate_consensus_iff m b small = (
  λ h. ground (arith, (has_consensus_iff b (length m.reputations) small).0),
  λ h. ground (arith, (has_consensus_iff b (length m.reputations) small).1 h),
)
