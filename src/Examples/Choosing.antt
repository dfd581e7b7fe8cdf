-- ===== src/Examples/Choosing.antt =====
-- The theorems on reputations, the choice of a creator and the choice between chains, at a table
-- of two nodes.
use myriadmesh_server.Base.{ℕ, ◌+◌, ◌<◌, ◌^◌, [], ◌∷◌, length, refl, ◌≡◌, true, arith, some, select}
use myriadmesh_server.Base.Bytes.{bytes_eq, bytes_beq, bytes_leb}
use myriadmesh_server.Base.Map
use myriadmesh_server.Base.Map.{get}
use myriadmesh_server.Base.Sort.{sort_by, insert_sorted}
use myriadmesh_server.Ledger.Consensus.{
  ConsensusManager, score, relay_score, participation_score, node_count, can_create_blocks,
  get_eligible_creators, select_next_creator,
}
use myriadmesh_server.Ledger.Consensus.Reputation.{IsSound}
use myriadmesh_server.Ledger.Consensus.Selection.{select_next_creator_rotates}
use myriadmesh_server.Examples.Numbers.{thousandths, thousandths-IsRounding}
use myriadmesh_server.Examples.Chains.{alice, bob, trusted, unproven, two_nodes}

trusted-IsSound : IsSound thousandths thousandths-IsRounding trusted
trusted-IsSound = record { relays = omega arith; uptime_unit = (ground arith, ground arith) }

two_nodes-Distinct : Map.Distinct two_nodes.reputations
unfolding get bytes_beq
two_nodes-Distinct = (refl, (refl, tt))

alice_can : can_create_blocks thousandths two_nodes alice ≡ true
unfolding can_create_blocks get bytes_beq score relay_score participation_score
alice_can = refl

-- the same table, iterated in the other order
abbrev turned : ConsensusManager
turned = record two_nodes { reputations = (alice, trusted) ∷ (bob, unproven) ∷ [] }

select_next_creator_rotates_example :
    (k : ℕ) × (k < length (get_eligible_creators thousandths two_nodes))
    × (select_next_creator thousandths two_nodes (5 + k) ≡ some alice)
select_next_creator_rotates_example =
    select_next_creator_rotates thousandths two_nodes alice 5 two_nodes-Distinct alice_can

alice_selected : select_next_creator thousandths two_nodes 4 ≡ some alice
unfolding select_next_creator get_eligible_creators select score relay_score participation_score
    sort_by insert_sorted bytes_leb
alice_selected = refl

two_small : node_count two_nodes < 2 ^ 63
unfolding node_count
two_small = omega arith
