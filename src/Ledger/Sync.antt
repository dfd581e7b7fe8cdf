-- ===== src/Ledger/Sync.antt =====
-- crates/myriadmesh-ledger/src/sync.rs: the validation and storing of received blocks, and forks.
pub mod Accept
pub mod Process
pub mod Reorganise
use myriadmesh_server.Base.{
  ℕ, zero, suc, ◌+◌, ◌-◌, Bool, true, false, not, ◌||◌, List, [], ◌∷◌, ◌++◌, is_empty, select,
  any_of, add64, sub64, ltb, leb, eqb, if◌then◌else◌, ◌==◌,
}
use myriadmesh_server.Base.Bytes.{Bytes, bytes_eq}
use myriadmesh_server.Base.Sort.{sort_by}
use myriadmesh_server.Base.Result.{Result, ok, err, ◌>>=◌, ◌>>◌, guard}
use myriadmesh_server.Ledger.Error.{
  Ledger, validation_failed, missing_previous, invalid_height_range,
}
use myriadmesh_server.Ledger.Entry.{NodeId}
use myriadmesh_server.Ledger.Float.{Float}
use myriadmesh_server.Ledger.Chain.{Block, BlockHash}
use myriadmesh_server.Ledger.Codec.{Codec}
use myriadmesh_server.Ledger.Block.{validate_structure, validate_chain_link, calculate_hash}
use myriadmesh_server.Ledger.Consensus.{
  ConsensusManager, validate_block_creator, validate_consensus, resolve_fork,
}
use myriadmesh_server.Ledger.Storage.{LedgerStorage, has_block, load_block, load_range, store_block}

pub data SyncState : Type 0 where
  idle discovering downloading validating synced error : SyncState

pub record SyncStats : Type 0 where
  pub blocks_discovered : ℕ
  pub blocks_downloaded : ℕ
  pub blocks_validated : ℕ
  pub validation_errors : ℕ
  pub stats_state : SyncState

pub record ChainSync : Type 0 where
  pub storage : LedgerStorage
  pub consensus : ConsensusManager
  pub state : SyncState
  pub stats : SyncStats
  pub pending_blocks : List Block
  pub queried_nodes : List NodeId

unfoldable pub new : LedgerStorage → ConsensusManager → ChainSync
new storage consensus = record {
  storage = storage;
  consensus = consensus;
  state = idle;
  stats = record {
    blocks_discovered = 0;
    blocks_downloaded = 0;
    blocks_validated = 0;
    validation_errors = 0;
    stats_state = idle;
  };
  pending_blocks = [];
  queried_nodes = [];
}

unfoldable pub is_synced : ChainSync → Bool
is_synced s = elim s.state [ synced ↦ true | _ ↦ false ]

unfoldable pub add_pending_block : ChainSync → Block → ChainSync
add_pending_block s block = record s {
  pending_blocks = s.pending_blocks ++ block ∷ [];
  stats = record s.stats { blocks_discovered = add64 s.stats.blocks_discovered 1 };
}

unfoldable pub request_blocks : ChainSync → ℕ → ℕ → Ledger ChainSync
request_blocks s start_height end_height =
    if ltb end_height start_height
    then err (validation_failed invalid_height_range)
    else ok (record s { state = downloading })

-- `count` heights from `start` on
unfoldable pub missing_from : ChainSync → ℕ → ℕ → List ℕ
missing_from s start zero = []
missing_from s start (suc count) =
    let rest = missing_from s (start + 1) count in
    if not (has_block s.storage start) then start ∷ rest else rest

unfoldable pub get_missing_heights : ChainSync → ℕ → ℕ → List ℕ
get_missing_heights s start_height end_height =
    missing_from s start_height (end_height + 1 - start_height)

unfoldable pub needs_sync : ChainSync → ℕ → Bool
needs_sync s peer_height = ltb s.storage.chain_height peer_height

unfoldable pub has_queried_node : ChainSync → NodeId → Bool
has_queried_node s node_id = any_of (λ n. n == node_id) s.queried_nodes

-- an insertion into a set
unfoldable pub mark_node_queried : ChainSync → NodeId → ChainSync
unfolding has_queried_node
mark_node_queried s node_id =
    if has_queried_node s node_id then s else record s { queried_nodes = node_id ∷ s.queried_nodes }

unfoldable pub reset : ChainSync → ChainSync
reset s = record s { state = idle; pending_blocks = []; queried_nodes = [] }

-- `sort_by_key(|b| b.header.height)`
abbrev pub by_height : Block → Block → Bool
by_height a b = leb a.header.height b.header.height

unfoldable pub add_all_pending : ChainSync → List Block → ChainSync
unfolding add_pending_block
add_all_pending s [] = s
add_all_pending s (block ∷ rest) = add_all_pending (add_pending_block s block) rest

module _ (c : Codec) where
  -- the checks of a block that is not genesis against the one before it
  unfoldable pub check_previous : LedgerStorage → Block → Ledger (Unit {0})
  check_previous storage block =
      if ltb 0 block.header.height
      then (do
        let previous_height = block.header.height - 1
        guard (has_block storage previous_height)
            (validation_failed (missing_previous previous_height))
        previous_block ← load_block c storage previous_height
        validate_chain_link c block previous_block)
      else ok tt

  -- the loop that looks for the first height with another block; 0 when there is none
  unfoldable pub find_fork : LedgerStorage → List Block → Ledger ℕ
  find_fork storage [] = ok 0
  find_fork storage (block ∷ rest) =
      let others = find_fork storage rest in
      if has_block storage block.header.height
      then (do
        local_block ← load_block c storage block.header.height
        local_hash ← calculate_hash c local_block
        alt_hash ← calculate_hash c block
        if not (local_hash == alt_hash) then ok block.header.height else others)
      else others

module _ (f : Float) (c : Codec) where
  -- The state after an error is the state before: what is written is written last.
  unfoldable pub validate_and_store_block : ChainSync → Block → Ledger ChainSync
  validate_and_store_block s block = do
    validate_structure c block
    if has_block s.storage block.header.height then ok s else do
      check_previous c s.storage block
      validate_block_creator f s.consensus block.header.creator
      validate_consensus s.consensus block
      storage ← store_block c s.storage block
      ok (record s {
        storage = storage;
        stats = record s.stats { blocks_downloaded = add64 s.stats.blocks_downloaded 1 };
      })

  -- what the loop does with the outcome for one block: the count of processed blocks and the state
  abbrev after_block : ChainSync → ℕ → Ledger ChainSync → ℕ × ChainSync
  after_block s processed (ok s') = (
    add64 processed 1,
    record s' { stats = record s'.stats { blocks_validated = add64 s'.stats.blocks_validated 1 } },
  )
  after_block s processed (err e) = (
    processed,
    record s { stats = record s.stats { validation_errors = add64 s.stats.validation_errors 1 } },
  )

  -- `for block in sorted_blocks`
  unfoldable pub process_blocks : List Block → ℕ → ChainSync → ℕ × ChainSync
  process_blocks [] processed s = (processed, s)
  process_blocks (block ∷ rest) processed s =
      let (processed', s') = after_block s processed (validate_and_store_block s block) in
      process_blocks rest processed' s'

  unfoldable pub process_pending_blocks : ChainSync → ℕ × ChainSync
  process_pending_blocks s =
      if is_empty s.pending_blocks
      then (0, s)
      else (let sorted_blocks = sort_by by_height s.pending_blocks in
          let (processed, s') =
            process_blocks sorted_blocks 0 (record s { state = validating; pending_blocks = [] }) in
          (processed, record s' { state = if ltb 0 processed then synced else error }))

  unfoldable pub detect_and_resolve_forks : ChainSync → List Block → Ledger (ℕ × ChainSync)
  detect_and_resolve_forks s alternative_chain =
      if is_empty alternative_chain then ok (0, s) else do
        fork_height ← find_fork c s.storage alternative_chain
        if eqb fork_height 0 then ok (0, s) else do
          let local_height = s.storage.chain_height
          local_chain ← load_range c s.storage fork_height local_height
          let alt_chain = select (λ b. leb fork_height b.header.height) alternative_chain
          ok (
              if eqb (resolve_fork f s.consensus local_chain alt_chain) 1
              then (add64 (sub64 local_height fork_height) 1, add_all_pending s alt_chain)
              else (0, s))
