-- ===== src/Examples/Chains.antt =====
-- Nodes, blocks, stores and a synchroniser to apply the theorems of the ledger to.
use myriadmesh_server.Base.{ℕ, List, [], ◌∷◌, replicate, false, true}
use myriadmesh_server.Base.Result.{ok, err}
use myriadmesh_server.Ledger.Error.{Ledger}
use myriadmesh_server.Ledger.Entry.{NodeId, Signature, LedgerEntry, message}
use myriadmesh_server.Ledger.Chain.{Block, BlockHash}
use myriadmesh_server.Ledger.Block.{new as new_block}
use myriadmesh_server.Ledger.Disk.{Disk}
use myriadmesh_server.Ledger.Storage.{LedgerStorage, store_block}
use myriadmesh_server.Ledger.Consensus.{NodeReputation, ConsensusManager}
use myriadmesh_server.Ledger.Sync.{ChainSync, new}
use myriadmesh_server.Examples.Codes.{toy_codec}

abbrev pub alice : NodeId
alice = 1 ∷ []

abbrev pub bob : NodeId
bob = 2 ∷ []

abbrev pub signed : Signature
signed = 9 ∷ []

abbrev pub value_or : {A : Type 0} → A → Ledger A → A
value_or a (ok b) = b
value_or a (err e) = a

abbrev pub genesis_block : Block
genesis_block = record {
  header = record {
    version = 1;
    height = 0;
    timestamp = 5;
    previous_hash = replicate 32 0;
    merkle_root = replicate 32 0;
    creator = alice;
    creator_signature = signed;
  };
  entries = [];
  validator_signatures = [];
}

abbrev pub genesis_hash : BlockHash
genesis_hash = 1 ∷ 0 ∷ 5 ∷ 32 ∷ replicate 28 0

abbrev pub second_block : Block
second_block = record {
  header = record {
    version = 1;
    height = 1;
    timestamp = 6;
    previous_hash = genesis_hash;
    merkle_root = replicate 32 0;
    creator = alice;
    creator_signature = signed;
  };
  entries = [];
  validator_signatures = record { validator = alice; signature = signed } ∷ [];
}

abbrev pub relayed_by : NodeId → ℕ → LedgerEntry
relayed_by node time = record {
  entry_type = message (record {
    message_id = 7 ∷ [];
    source_node = node;
    dest_node = bob;
    adapter = 0;
    delivered = true;
  });
  timestamp = time;
  signature = signed;
}

abbrev pub three_entries : List LedgerEntry
three_entries = relayed_by alice 1 ∷ relayed_by bob 2 ∷ relayed_by alice 3 ∷ []

unfoldable pub sealed : List LedgerEntry → Block
unfolding new_block
sealed entries = value_or genesis_block (new_block toy_codec 7 2 genesis_hash alice signed entries)

abbrev pub empty_disk : Disk
empty_disk = record {
  files = [];
  is_file = λ p. true;
  entry_fails = λ p. false;
  blocks_dir_exists = true;
  create_dir_fails = false;
  read_dir_fails = false;
  write_fails = λ p. false;
  read_fails = λ p. false;
  remove_fails = λ p. false;
}

-- a store that keeps one block, with none in it
abbrev pub empty_store : LedgerStorage
empty_store = record {
  config = record { storage_dir = "ledger"; pruning_enabled = true; keep_blocks = 1 };
  index = [];
  hash_lookup = [];
  chain_height = 0;
  disk = empty_disk;
}

unfoldable pub first_store : LedgerStorage
unfolding store_block
first_store = value_or empty_store (store_block toy_codec empty_store genesis_block)

unfoldable pub second_store : LedgerStorage
unfolding store_block first_store
second_store = value_or empty_store (store_block toy_codec first_store second_block)

-- a block of the same height as the first, with another time
abbrev pub other_genesis : Block
other_genesis = record genesis_block { header = record genesis_block.header { timestamp = 8 } }

-- a store that keeps every block
abbrev pub empty_archive : LedgerStorage
empty_archive = record empty_store {
  config = record empty_store.config { pruning_enabled = false };
}

unfoldable pub first_archive : LedgerStorage
unfolding store_block
first_archive = value_or empty_store (store_block toy_codec empty_archive genesis_block)

unfoldable pub second_archive : LedgerStorage
unfolding store_block first_archive
second_archive = value_or empty_store (store_block toy_codec first_archive other_genesis)

abbrev pub trusted : NodeReputation
trusted = record {
  node_id = alice;
  successful_relays = 9;
  total_relay_attempts = 10;
  uptime = 900;
  blocks_created = 3;
  blocks_validated = 2;
  last_seen = 4;
}

abbrev pub unproven : NodeReputation
unproven = record trusted { node_id = bob; successful_relays = 1; uptime = 100 }

abbrev pub one_node : ConsensusManager
one_node = record { reputations = (alice, trusted) ∷ []; min_reputation = 500 }

abbrev pub two_nodes : ConsensusManager
two_nodes = record { reputations = (bob, unproven) ∷ (alice, trusted) ∷ []; min_reputation = 500 }

unfoldable pub syncing : LedgerStorage → ChainSync
unfolding new
syncing storage = new storage one_node
