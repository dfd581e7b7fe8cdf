-- ===== src/Examples/Blocks.antt =====
-- The theorems on Merkle roots and on blocks at small lists and at the blocks of `Chains`.
use myriadmesh_server.Base.{
  ◌*◌, ◌≤◌, List, [], ◌∷◌, ◌++◌, map, replicate, refl, ◌≡◌, ◌⊎◌, ◌↔◌, true, arith, any_of,
}
use myriadmesh_server.Base.Bytes.{Bytes, bytes_beq}
use myriadmesh_server.Base.Result.{ok}
use myriadmesh_server.Ledger.Chain.{Block}
use myriadmesh_server.Ledger.Merkle.{
  calculate_merkle_root, build, next_level, verify_entry_inclusion,
}
use myriadmesh_server.Ledger.Merkle.Binding.{Collision, merkle_root_binding}
use myriadmesh_server.Ledger.Block.{
  new, entries_bytes, validate_structure, validate_chain_link, calculate_hash, has_consensus,
  signature_count,
}
use myriadmesh_server.Ledger.Block.Validation.{repeated_entry_valid}
use myriadmesh_server.Ledger.Block.History.{Linked, tip_commits_to_history}
use myriadmesh_server.Ledger.Block.Quorum.{has_consensus_iff}
use myriadmesh_server.Examples.Codes.{
  toy_hash, toy_hash-HashLength, toy_codec, toy_codec-HeadersDiffer,
}
use myriadmesh_server.Examples.Chains.{
  alice, bob, signed, genesis_block, genesis_hash, second_block, sealed, three_entries, relayed_by,
}

-- Two texts that the digest does not tell apart.
abbrev long_text : Bytes
long_text = replicate 65 1

abbrev longer_text : Bytes
longer_text = replicate 66 1

same_root :
    calculate_merkle_root toy_hash (long_text ∷ [])
    ≡ calculate_merkle_root toy_hash (longer_text ∷ [])
unfolding calculate_merkle_root build next_level
same_root = refl

merkle_root_binding_example : (long_text ∷ [] ≡ longer_text ∷ []) ⊎ Collision toy_hash
merkle_root_binding_example =
    merkle_root_binding toy_hash toy_hash-HashLength (long_text ∷ []) (longer_text ∷ []) refl
      same_root

abbrev texts : List Bytes
texts = (1 ∷ []) ∷ (2 ∷ []) ∷ (3 ∷ []) ∷ []

included :
    verify_entry_inclusion toy_hash texts (2 ∷ []) (calculate_merkle_root toy_hash texts) ≡ true
unfolding verify_entry_inclusion calculate_merkle_root build next_level any_of bytes_beq
included = refl

was_sealed : new toy_codec 7 2 genesis_hash alice signed three_entries ≡ ok (sealed three_entries)
unfolding sealed new entries_bytes
was_sealed = refl

sealed_valid : validate_structure toy_codec (sealed three_entries) ≡ ok tt
unfolding sealed new entries_bytes validate_structure calculate_merkle_root build next_level
    bytes_beq
sealed_valid = refl

-- the sealed block at another height
abbrev raised : Block
raised = record (sealed three_entries) {
  header = record (sealed three_entries).header { height = 9 };
}

raised_valid : validate_structure toy_codec raised ≡ ok tt
unfolding sealed new entries_bytes validate_structure calculate_merkle_root build next_level
    bytes_beq
raised_valid = refl

sealed_entries :
    (sealed three_entries).entries
    ≡ (relayed_by alice 1 ∷ relayed_by bob 2 ∷ []) ++ relayed_by alice 3 ∷ []
unfolding sealed new entries_bytes
sealed_entries = refl

repeated_entry_valid_example :
    let doubled = record (sealed three_entries) {
      entries =
          (relayed_by alice 1 ∷ relayed_by bob 2 ∷ [])
          ++ relayed_by alice 3 ∷ relayed_by alice 3 ∷ [];
    } in
    (validate_structure toy_codec doubled ≡ ok tt)
    × (calculate_hash toy_codec doubled ≡ calculate_hash toy_codec (sealed three_entries))
repeated_entry_valid_example =
    repeated_entry_valid toy_codec (sealed three_entries)
      (relayed_by alice 1 ∷ relayed_by bob 2 ∷ []) (relayed_by alice 3) 0 sealed_entries refl
      sealed_valid

second-Linked : Linked toy_codec (second_block ∷ genesis_block ∷ [])
unfolding validate_chain_link calculate_hash bytes_beq
second-Linked = (refl, tt)

-- the second block without its validators
abbrev unsigned_block : Block
unsigned_block = record second_block { validator_signatures = [] }

unsigned-Linked : Linked toy_codec (unsigned_block ∷ genesis_block ∷ [])
unfolding validate_chain_link calculate_hash bytes_beq
unsigned-Linked = (refl, tt)

-- the first 32 numbers of the second block's header
abbrev second_hash : Bytes
second_hash = 1 ∷ 1 ∷ 6 ∷ 32 ∷ 1 ∷ 0 ∷ 5 ∷ 32 ∷ replicate 24 0

second_hashed : calculate_hash toy_codec second_block ≡ ok second_hash
unfolding calculate_hash
second_hashed = refl

unsigned_hashed : calculate_hash toy_codec unsigned_block ≡ ok second_hash
unfolding calculate_hash
unsigned_hashed = refl

tip_commits_to_history_example :
    (map (λ (x : Block). x.header) (second_block ∷ genesis_block ∷ [])
      ≡ map (λ (x : Block). x.header) (unsigned_block ∷ genesis_block ∷ []))
    ⊎ Collision toy_hash
tip_commits_to_history_example =
    tip_commits_to_history toy_codec toy_codec-HeadersDiffer second_block unsigned_block
      (genesis_block ∷ []) (genesis_block ∷ []) second-Linked unsigned-Linked refl second_hashed
      unsigned_hashed

has_consensus_iff_example :
    (has_consensus second_block 1 ≡ true) ↔ (2 * 1 ≤ 3 * signature_count second_block)
has_consensus_iff_example = has_consensus_iff second_block 1 (omega arith)
