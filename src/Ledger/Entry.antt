-- ===== src/Ledger/Entry.antt =====
-- crates/myriadmesh-ledger/src/entry.rs. The types of the protocol and crypto crates appear by
-- what the code reads of them: a node id and a signature by their bytes, an adapter by its
-- discriminant. A time is a number of nanoseconds, and an `f64` is its bit pattern.
use myriadmesh_server.Base.{ℕ, Bool, List}
use myriadmesh_server.Base.Bytes.{Bytes}

abbrev pub NodeId : Type 0
NodeId = Bytes

abbrev pub Signature : Type 0
Signature = Bytes

abbrev pub AdapterType : Type 0
AdapterType = ℕ

abbrev pub F64 : Type 0
F64 = ℕ

pub record DiscoveryEntry : Type 0 where
  pub node_id : NodeId
  pub public_key : Bytes
  pub adapters : List AdapterType
  pub discovered_by : NodeId

pub record TestEntry : Type 0 where
  pub source_node : NodeId
  pub dest_node : NodeId
  pub adapter : AdapterType
  pub latency_ms : F64
  pub bandwidth_bps : ℕ
  pub success : Bool

pub record MessageEntry : Type 0 where
  pub message_id : Bytes
  pub source_node : NodeId
  pub dest_node : NodeId
  pub adapter : AdapterType
  pub delivered : Bool

pub record KeyExchangeEntry : Type 0 where
  pub node1 : NodeId
  pub node2 : NodeId
  pub key_hash : Bytes

pub data EntryType : Type 0 where
  discovery : DiscoveryEntry → EntryType
  test : TestEntry → EntryType
  message : MessageEntry → EntryType
  key_exchange : KeyExchangeEntry → EntryType

pub record LedgerEntry : Type 0 where
  pub entry_type : EntryType
  pub timestamp : ℕ
  pub signature : Signature

-- `LedgerEntry::new`, with the clock's reading as an argument
abbrev pub new : ℕ → EntryType → Signature → LedgerEntry
new now entry_type signature = record {
  entry_type = entry_type;
  timestamp = now;
  signature = signature;
}

abbrev entry_node : EntryType → NodeId
entry_node (discovery d) = d.node_id
entry_node (test t) = t.source_node
entry_node (message m) = m.source_node
entry_node (key_exchange k) = k.node1

-- `LedgerEntry::node_id`
unfoldable pub node_id : LedgerEntry → NodeId
node_id e = entry_node e.entry_type
