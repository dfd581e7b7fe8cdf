-- ===== src/Ledger/Storage/Store.antt =====
-- crates/myriadmesh-ledger/src/storage.rs: what `store_block` does to the index and the disk.
use myriadmesh_server.Base.{
  ℕ, ◌+◌, ◌≤◌, ◌≡◌, refl, sym, some, length, arith, inl, inr, Bool-cases, Option-cases, ◌&&◌,
  nat_eq, ◌==◌, ltb, if◌then◌else◌,
}
use mathlib.Core.Path.{subst, subst₂}
use mathlib.Core.Option.{some-injective}
use myriadmesh_server.Base.Bytes.{Bytes, bytes_eq}
use myriadmesh_server.Base.Map
use myriadmesh_server.Base.Map.{Map, get-insert, Distinct-insert}
use myriadmesh_server.Base.Result.{ok, Result-cases}
use myriadmesh_server.Ledger.Chain.{Block, BlockHash}
use myriadmesh_server.Ledger.Codec.{Codec, ReadsBack}
use myriadmesh_server.Ledger.Block.{calculate_hash, to_bytes}
use myriadmesh_server.Ledger.Disk.{block_file, write, file_path_eq}
use myriadmesh_server.Ledger.Storage.{
  LedgerStorage, BlockMetadata, record_block, prune, store_block,
}
use myriadmesh_server.Ledger.Storage.Index.{IsStored, IsIndexed}
use myriadmesh_server.Ledger.Storage.Prune.{prune-IsIndexed}

-- The store after the block has been written and indexed, and before pruning.
abbrev pub stored : LedgerStorage → Block → BlockHash → Bytes → LedgerStorage
stored s b hash bytes =
    record_block
      (record s {
        disk = record s.disk { files = Map.insert s.disk.files (block_file b.header.height) bytes };
      })
      b.header.height hash (block_file b.header.height) (length bytes)

abbrev pub pruned_if_full : LedgerStorage → LedgerStorage → LedgerStorage
pruned_if_full s t =
    if s.config.pruning_enabled && ltb s.config.keep_blocks (length t.index) then prune t else t

abbrev pub metadata_of : Block → BlockHash → Bytes → BlockMetadata
metadata_of b hash bytes = record {
  height = b.header.height;
  hash = hash;
  file_path = block_file b.header.height;
  size = length bytes;
}

pub get-stored :
    (s : LedgerStorage) (b : Block) (hash : BlockHash) (bytes : Bytes) (j : ℕ)
    → Map.get (stored s b hash bytes).index j
      ≡ (if b.header.height == j then some (metadata_of b hash bytes) else Map.get s.index j)
unfolding record_block
get-stored s b hash bytes j = get-insert s.index b.header.height j (metadata_of b hash bytes)

pub files-stored :
    (s : LedgerStorage) (b : Block) (hash : BlockHash) (bytes : Bytes) (j : ℕ)
    → Map.get (stored s b hash bytes).disk.files (block_file j)
      ≡ (if b.header.height == j then some bytes else Map.get s.disk.files (block_file j))
unfolding record_block
files-stored s b hash bytes j =
    get-insert s.disk.files (block_file b.header.height) (block_file j) bytes

pub read_fails-stored :
    (s : LedgerStorage) (b : Block) (hash : BlockHash) (bytes : Bytes)
    → (stored s b hash bytes).disk.read_fails ≡ s.disk.read_fails
unfolding record_block
read_fails-stored s b hash bytes = refl

pub chain_height-stored :
    (s : LedgerStorage) (b : Block) (hash : BlockHash) (bytes : Bytes)
    → (s.chain_height ≤ (stored s b hash bytes).chain_height)
      × (b.header.height ≤ (stored s b hash bytes).chain_height)
      × ((stored s b hash bytes).chain_height ≤ s.chain_height + b.header.height)
unfolding record_block
chain_height-stored s b hash bytes = ground arith

module _ (c : Codec) where
  pub record Stores (s : LedgerStorage) (b : Block) (s' : LedgerStorage) : Type 0 where
    pub hash : BlockHash
    pub bytes : Bytes
    pub hashed : calculate_hash c b ≡ ok hash
    pub serialised : c.block_bytes b ≡ some bytes
    pub result : s' ≡ pruned_if_full s (stored s b hash bytes)

  pub store_block-Stores :
      (s : LedgerStorage) (b : Block) (s' : LedgerStorage)
      → store_block c s b ≡ ok s'
      → Stores s b s'
  unfolding store_block to_bytes write
  store_block-Stores s b s' h = elim (Result-cases (calculate_hash c b)) [
    | inl (hash, eh) ↦ elim (Option-cases (c.block_bytes b)) [
      | inl e ↦ absurd (ground arith)
      | inr (bytes, eb) ↦ record {
        hash = hash;
        bytes = bytes;
        hashed = eh;
        serialised = eb;
        result = ground arith;
      }
    ]
    | inr (x, eh) ↦ absurd (ground arith)
  ]

  pub new_block-IsStored :
      (s : LedgerStorage) (b : Block) (hash : BlockHash) (bytes : Bytes)
      → ReadsBack c
      → calculate_hash c b ≡ ok hash
      → c.block_bytes b ≡ some bytes
      → IsStored c (stored s b hash bytes) b.header.height (metadata_of b hash bytes)
  new_block-IsStored s b hash bytes back hashed serialised = record {
    height = refl;
    path = refl;
    bytes = bytes;
    on_disk = ground (arith, files-stored s b hash bytes b.header.height);
    size = refl;
    block = b;
    reads = back b bytes serialised;
    block_height = refl;
    hashed = hashed;
  }

  pub stored-IsIndexed :
      (s : LedgerStorage) (b : Block) (hash : BlockHash) (bytes : Bytes)
      → ReadsBack c
      → calculate_hash c b ≡ ok hash
      → c.block_bytes b ≡ some bytes
      → IsIndexed c s
      → IsIndexed c (stored s b hash bytes)
  unfolding record_block
  stored-IsIndexed s b hash bytes back hashed serialised v = record {
    distinct = Distinct-insert s.index b.header.height _ v.distinct;
    at = λ j md e. elim (Bool-cases (b.header.height == j)) [
      | inl same ↦
          subst₂ (IsStored c (stored s b hash bytes)) (ground arith)
            (some-injective _ _ (ground (arith, get-stored s b hash bytes j)))
            (new_block-IsStored s b hash bytes back hashed serialised)
      | inr differ ↦
          let w = v.at j md (ground (arith, get-stored s b hash bytes j)) in
          record {
            height = w.height;
            path = w.path;
            bytes = w.bytes;
            on_disk = ground (arith, files-stored s b hash bytes j, w.on_disk);
            size = w.size;
            block = w.block;
            reads = w.reads;
            block_height = w.block_height;
            hashed = w.hashed;
          }
    ];
    top = λ j md e. elim (Bool-cases (b.header.height == j)) [
      | inl same ↦ ground (arith, chain_height-stored s b hash bytes)
      | inr differ ↦ ground (
        arith,
        chain_height-stored s b hash bytes,
        v.top j md (ground (arith, get-stored s b hash bytes j)),
      )
    ];
  }

  pub pruned_if_full-IsIndexed :
      (s t : LedgerStorage) → IsIndexed c t → IsIndexed c (pruned_if_full s t)
  pruned_if_full-IsIndexed s t v =
      elim (Bool-cases (s.config.pruning_enabled && ltb s.config.keep_blocks (length t.index))) [
        | inl full ↦ rw full (prune-IsIndexed c t v)
        | inr room ↦ rw room v
      ]

  -- Storing a block, with the pruning that follows, keeps the index and the disk in step: each
  -- indexed height has its file, which reads back as a block of that height and of the indexed
  -- hash, and none is above the chain height; the serialiser is to read back what it wrote.
  pub store_block-IsIndexed :
      (s : LedgerStorage) (b : Block) (s' : LedgerStorage)
      → ReadsBack c
      → IsIndexed c s
      → store_block c s b ≡ ok s'
      → IsIndexed c s'
  store_block-IsIndexed s b s' back v h =
      let w = store_block-Stores s b s' h in
      subst (IsIndexed c) (sym w.result) (
        pruned_if_full-IsIndexed s (stored s b w.hash w.bytes)
          (stored-IsIndexed s b w.hash w.bytes back w.hashed w.serialised v))
