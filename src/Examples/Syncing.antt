-- ===== src/Examples/Syncing.antt =====
-- The theorems on synchronisation at a chain of two blocks.
use myriadmesh_server.Base.{
  ℕ, zero, suc, is_empty, replicate, ◌+◌, ◌<◌, List, [], ◌∷◌, length, refl, ◌≡◌, ◌⊎◌, false, arith,
  select, ltb, if◌then◌else◌, nat_eq, u64_mod,
}
use myriadmesh_server.Base.Bytes.{bytes_eq, bytes_beq}
use myriadmesh_server.Base.Map.{get, insert}
use myriadmesh_server.Base.Result.{ok}
use myriadmesh_server.Base.Sort.{sort_by}
use myriadmesh_server.Ledger.Chain.{Block}
use myriadmesh_server.Ledger.Merkle.{calculate_merkle_root, build, next_level}
use myriadmesh_server.Ledger.Block.{
  entries_bytes, calculate_hash, to_bytes, from_bytes, validate_structure, validate_chain_link,
  has_consensus, required_signatures, signature_count,
}
use myriadmesh_server.Ledger.Consensus.{
  can_create_blocks, validate_block_creator, validate_consensus, score, relay_score,
  participation_score, resolve_fork,
}
use myriadmesh_server.Ledger.Disk.{write, read, block_file}
use myriadmesh_server.Ledger.Storage.{
  has_block, load_block, store_block, record_block, load_range, load_heights,
}
use myriadmesh_server.Ledger.Storage.Index.{IsIndexed}
use myriadmesh_server.Ledger.Storage.Store.{store_block-IsIndexed}
use myriadmesh_server.Ledger.Sync.{
  ChainSync, new, synced, error, validating, by_height, check_previous, find_fork,
  validate_and_store_block, process_pending_blocks, add_pending_block, detect_and_resolve_forks,
  add_all_pending,
}
use myriadmesh_server.Ledger.Sync.Accept.{
  IsAccepted, IsChain, validate_and_store_block-IsAccepted, validate_and_store_block-IsChain,
}
use myriadmesh_server.Ledger.Sync.Process.{Pass, process_pending_blocks-total}
use myriadmesh_server.Ledger.Sync.Reorganise.{
  Disagrees, IsReorganised, detect_and_resolve_forks_lem,
}
use myriadmesh_server.Examples.Codes.{
  toy_codec, toy_codec-ReadsBack, get_block, chunk_then, with_signatures,
}
use myriadmesh_server.Examples.Numbers.{thousandths}
use myriadmesh_server.Examples.Chains.{
  empty_archive, first_archive, genesis_block, second_block, other_genesis, genesis_hash, syncing,
  value_or,
}
use myriadmesh_server.Examples.Storing.{empty_archive-IsIndexed, first_archived}

abbrev before : ChainSync
before = syncing first_archive

unfoldable after : ChainSync
unfolding syncing validate_and_store_block
after = value_or before (validate_and_store_block thousandths toy_codec before second_block)

above_genesis_free : has_block before.storage 1 ≡ false
unfolding syncing new first_archive store_block calculate_hash to_bytes write record_block insert
    get has_block
above_genesis_free = refl

accepted : validate_and_store_block thousandths toy_codec before second_block ≡ ok after
unfolding after syncing new first_archive store_block calculate_hash to_bytes write record_block
    insert get has_block validate_and_store_block validate_structure entries_bytes
    calculate_merkle_root build next_level bytes_beq check_previous load_block read from_bytes
    get_block chunk_then with_signatures validate_chain_link validate_block_creator
    can_create_blocks score relay_score participation_score validate_consensus has_consensus
    required_signatures signature_count
accepted = refl

validate_and_store_block-IsAccepted_example :
    IsAccepted thousandths toy_codec before second_block after
validate_and_store_block-IsAccepted_example =
    validate_and_store_block-IsAccepted thousandths toy_codec before second_block after
      above_genesis_free accepted

before-IsIndexed : IsIndexed toy_codec before.storage
unfolding syncing new
before-IsIndexed =
    store_block-IsIndexed toy_codec empty_archive genesis_block first_archive toy_codec-ReadsBack
      empty_archive-IsIndexed first_archived

only_genesis : (h : ℕ) → has_block before.storage (suc h) ≡ false
unfolding syncing new first_archive store_block calculate_hash to_bytes write record_block insert
    get has_block
only_genesis h = ground arith

before-IsChain : IsChain toy_codec before.storage
before-IsChain h b p held below load_b load_p = absurd (ground (arith, only_genesis h))

readable : before.storage.disk.read_fails (block_file 1) ≡ false
unfolding syncing new first_archive store_block calculate_hash to_bytes write record_block insert
    get has_block
readable = refl

validate_and_store_block-IsChain_example : IsChain toy_codec after.storage
validate_and_store_block-IsChain_example =
    validate_and_store_block-IsChain thousandths toy_codec before second_block after
      toy_codec-ReadsBack before-IsIndexed readable (only_genesis 1) before-IsChain accepted

-- with two blocks pending, of which the first has another genesis below it
abbrev pending : ChainSync
pending = add_pending_block (add_pending_block before second_block) other_genesis

pending-IsIndexed : IsIndexed toy_codec pending.storage
unfolding add_pending_block
pending-IsIndexed = before-IsIndexed

some_pending : is_empty pending.pending_blocks ≡ false
unfolding add_pending_block syncing new
some_pending = refl

few_pending : pending.stats.validation_errors + length pending.pending_blocks < u64_mod
unfolding add_pending_block syncing new
few_pending = omega arith

process_pending_blocks-total_example :
    let (processed, s') = process_pending_blocks thousandths toy_codec pending in
    (refused : ℕ) × (end : ChainSync) × Pass thousandths toy_codec
      (sort_by by_height pending.pending_blocks)
      (record pending { state = validating; pending_blocks = [] })
      processed
      refused
      end
    × (s' ≡ record end { state = if ltb 0 processed then synced else error })
    × (processed + refused ≡ length pending.pending_blocks)
    × (s'.stats.validation_errors ≡ pending.stats.validation_errors + refused)
    × (s'.pending_blocks ≡ [])
process_pending_blocks-total_example =
    process_pending_blocks-total thousandths toy_codec pending some_pending few_pending

other-Disagrees : Disagrees thousandths toy_codec before.storage other_genesis
unfolding syncing new first_archive store_block calculate_hash to_bytes write record_block insert
    get has_block load_block read from_bytes get_block chunk_then with_signatures bytes_beq
other-Disagrees = record {
  local = genesis_block;
  local_hash = genesis_hash;
  alt_hash = 1 ∷ 0 ∷ 8 ∷ 32 ∷ replicate 28 0;
  held = refl;
  loaded = refl;
  local_hashed = refl;
  alt_hashed = refl;
  differ = refl;
}

-- a longer chain from the second block on, whose second block has another time
abbrev fork : List Block
fork =
    record second_block { header = record second_block.header { timestamp = 7 } }
    ∷ record second_block { header = record second_block.header { height = 2; timestamp = 8 } }
    ∷ []

reorganised :
    detect_and_resolve_forks thousandths toy_codec after fork ≡ ok (1, add_all_pending after fork)
unfolding detect_and_resolve_forks after syncing new first_archive store_block calculate_hash
    to_bytes write record_block insert get has_block validate_and_store_block validate_structure
    entries_bytes calculate_merkle_root build next_level bytes_beq check_previous load_block read
    from_bytes get_block chunk_then with_signatures validate_chain_link validate_block_creator
    can_create_blocks score relay_score participation_score validate_consensus has_consensus
    required_signatures signature_count find_fork load_range resolve_fork select load_heights
reorganised = refl

detect_and_resolve_forks_lem_example :
    ((1 ≡ zero) × (add_all_pending after fork ≡ after))
    ⊎ IsReorganised thousandths toy_codec after fork 1 (add_all_pending after fork)
detect_and_resolve_forks_lem_example =
    detect_and_resolve_forks_lem thousandths toy_codec after fork 1 (add_all_pending after fork)
      reorganised
