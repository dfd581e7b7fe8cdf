-- ===== src/Ledger/Block/Validation.antt =====
-- crates/myriadmesh-ledger/src/block.rs: the checks of a block, and the blocks that `new` builds.
use myriadmesh_server.Base.{
  ℕ, suc, ◌*◌, ◌<◌, ◌≡◌, ◌↔◌, ◌⊎◌, inl, inr, refl, sym, ap, ◌∙◌, List, [], ◌∷◌, ◌++◌, length, arith,
  Option-cases, some, add64, nat_eq,
}
use myriadmesh_server.Base.Bytes.{Bytes, bytes_eq, bytes_beq_iff}
use myriadmesh_server.Base.Result.{ok, Result-cases}
use myriadmesh_server.Ledger.Entry.{LedgerEntry, NodeId, Signature}
use myriadmesh_server.Ledger.Chain.{Block, BlockHash}
use myriadmesh_server.Ledger.Codec.{Codec, HashLength}
use myriadmesh_server.Ledger.Merkle.{calculate_merkle_root}
use myriadmesh_server.Ledger.Merkle.Binding.{Collision, and_then, merkle_root_binding}
use myriadmesh_server.Ledger.Merkle.Repetition.{merkle_root_repeat}
use myriadmesh_server.Ledger.Block.{
  entries_bytes, new, calculate_hash, validate_structure, validate_chain_link,
}

module _ (c : Codec) where
  -- What `validate_structure` promises.
  pub record IsWellFormed (b : Block) : Type 0 where
    pub version_1 : b.header.version ≡ 1
    pub bytes : List Bytes
    pub serialised : entries_bytes c b.entries ≡ ok bytes
    pub root : calculate_merkle_root c.blake2b bytes ≡ b.header.merkle_root

  -- The check of the structure accepts exactly the blocks of version 1 whose entries serialise
  -- to texts with the Merkle root of the header.
  pub validate_structure_iff : (b : Block) → (validate_structure c b ≡ ok tt) ↔ IsWellFormed b
  unfolding validate_structure
  validate_structure_iff b = (
    λ h. elim (Result-cases (entries_bytes c b.entries)) [
      | inl (bytes, e) ↦ record {
        version_1 = ground arith;
        bytes = bytes;
        serialised = e;
        root =
            (bytes_beq_iff (calculate_merkle_root c.blake2b bytes) b.header.merkle_root).0
              (ground arith);
      }
      | inr (x, e) ↦ absurd (ground arith)
    ],
    λ w. ground (
      arith,
      w.version_1,
      w.serialised,
      (bytes_beq_iff (calculate_merkle_root c.blake2b w.bytes) b.header.merkle_root).1 w.root,
    ),
  )

  -- What `validate_chain_link` promises.
  pub record IsLinked (b previous : Block) : Type 0 where
    pub height_next : b.header.height ≡ add64 previous.header.height 1
    pub hash_link : calculate_hash c previous ≡ ok b.header.previous_hash
    pub later : previous.header.timestamp < b.header.timestamp

  -- The check of a link accepts exactly the blocks of the next height, in wrapping arithmetic,
  -- that name the hash of the previous block and have a later time.
  pub validate_chain_link_iff :
      (b previous : Block) → (validate_chain_link c b previous ≡ ok tt) ↔ IsLinked b previous
  unfolding validate_chain_link
  validate_chain_link_iff b previous = (
    λ h. elim (Result-cases (calculate_hash c previous)) [
      | inl (hash, e) ↦ record {
        height_next = ground arith;
        hash_link = e ∙ ap ok (sym ((bytes_beq_iff b.header.previous_hash hash).0 (ground arith)));
        later = ground arith;
      }
      | inr (x, e) ↦ absurd (ground arith)
    ],
    λ l. ground (
      arith,
      l.height_next,
      l.hash_link,
      l.later,
      (bytes_beq_iff b.header.previous_hash b.header.previous_hash).1 refl,
    ),
  )

  -- A block that is built passes the check of its structure, has no signature of a validator,
  -- and holds the height, the time, the hash and the entries that it was built from.
  pub new-IsWellFormed :
      (now height : ℕ) (previous_hash : BlockHash) (creator : NodeId) (signature : Signature)
      (entries : List LedgerEntry) (b : Block)
      → new c now height previous_hash creator signature entries ≡ ok b
      → (validate_structure c b ≡ ok tt)
        × (b.header.height ≡ height)
        × (b.header.timestamp ≡ now)
        × (b.header.previous_hash ≡ previous_hash)
        × (b.entries ≡ entries)
        × (b.validator_signatures ≡ [])
  unfolding new
  new-IsWellFormed now height previous_hash creator signature entries b h =
      elim (Result-cases (entries_bytes c entries)) [
        | inl (bytes, e) ↦ (
          (validate_structure_iff b).1 (record {
            version_1 = ground arith;
            bytes = bytes;
            serialised = ground arith;
            root = ground arith;
          }),
          ground arith,
          ground arith,
          ground arith,
          ground arith,
          ground arith,
        )
        | inr (x, e) ↦ absurd (ground arith)
      ]

  length-entries_bytes :
      (es : List LedgerEntry) (bytes : List Bytes)
      → entries_bytes c es ≡ ok bytes
      → length bytes ≡ length es
  unfolding entries_bytes
  length-entries_bytes [] bytes h = ground arith
  length-entries_bytes (e ∷ es) bytes h = elim (Result-cases (entries_bytes c es)) [
    | inl (rest, r) ↦ ground (arith, length-entries_bytes es rest r)
    | inr (x, r) ↦ absurd (ground arith)
  ]

  -- Two blocks of valid structure with one Merkle root and as many entries have entries that
  -- serialise alike, or else the hash, whose digests have 64 bytes, has a collision.
  pub same_root_same_entries :
      HashLength c.blake2b
      → (a b : Block) → validate_structure c a ≡ ok tt
      → validate_structure c b ≡ ok tt
      → a.header.merkle_root ≡ b.header.merkle_root
      → length a.entries ≡ length b.entries
      → (entries_bytes c a.entries ≡ entries_bytes c b.entries) ⊎ Collision c.blake2b
  same_root_same_entries digest a b va vb same n =
      let wa = (validate_structure_iff a).0 va in
      let wb = (validate_structure_iff b).0 vb in
      and_then
        (merkle_root_binding c.blake2b digest wa.bytes wb.bytes
          (length-entries_bytes a.entries wa.bytes wa.serialised
            ∙ n
            ∙ sym (length-entries_bytes b.entries wb.bytes wb.serialised))
          (wa.root ∙ same ∙ sym wb.root))
        λ e. inl (wa.serialised ∙ ap ok e ∙ sym wb.serialised)

  entries_bytes-append :
      (es fs : List LedgerEntry) (xs ys : List Bytes)
      → entries_bytes c es ≡ ok xs
      → entries_bytes c fs ≡ ok ys
      → entries_bytes c (es ++ fs) ≡ ok (xs ++ ys)
  unfolding entries_bytes
  entries_bytes-append [] fs xs ys h k = ground arith
  entries_bytes-append (e ∷ es) fs xs ys h k = elim (Result-cases (entries_bytes c es)) [
    | inl (rest, r) ↦ ground (arith, entries_bytes-append es fs rest ys r k)
    | inr (x, r) ↦ absurd (ground arith)
  ]

  entries_bytes-prefix :
      (es : List LedgerEntry) (e : LedgerEntry) (bytes : List Bytes)
      → entries_bytes c (es ++ e ∷ []) ≡ ok bytes
      → (xs : List Bytes) × (x : Bytes) × (entries_bytes c es ≡ ok xs)
        × (c.entry_bytes e ≡ some x)
        × (bytes ≡ xs ++ x ∷ [])
  unfolding entries_bytes
  entries_bytes-prefix [] e bytes h = elim (Option-cases (c.entry_bytes e)) [
    | inl n ↦ absurd (ground arith)
    | inr (x, s) ↦ ([], x, refl, s, ground arith)
  ]
  entries_bytes-prefix (d ∷ es) e bytes h = elim (Option-cases (c.entry_bytes d)) [
    | inl n ↦ absurd (ground arith)
    | inr (y, s) ↦ elim (Result-cases (entries_bytes c (es ++ e ∷ []))) [
      | inl (rest, r) ↦
          let (xs, x, px, pe, pb) = entries_bytes-prefix es e rest r in
          (y ∷ xs, x, ground arith, pe, ground arith)
      | inr (z, r) ↦ absurd (ground arith)
    ]
  ]

  entries_bytes-twice :
      (e : LedgerEntry) (x : Bytes)
      → c.entry_bytes e ≡ some x
      → entries_bytes c (e ∷ e ∷ []) ≡ ok (x ∷ x ∷ [])
  unfolding entries_bytes
  entries_bytes-twice e x h = ground arith

  -- A block of valid structure with an odd number of entries, three or more, is still valid
  -- and has the same hash when its last entry is written twice.
  pub repeated_entry_valid :
      (b : Block) (es : List LedgerEntry) (e : LedgerEntry) (k : ℕ)
      → b.entries ≡ es ++ e ∷ []
      → length es ≡ 2 * suc k
      → validate_structure c b ≡ ok tt
      → (validate_structure c (record b { entries = es ++ e ∷ e ∷ [] }) ≡ ok tt)
        × (calculate_hash c (record b { entries = es ++ e ∷ e ∷ [] }) ≡ calculate_hash c b)
  unfolding calculate_hash
  repeated_entry_valid b es e k split even valid =
      let w = (validate_structure_iff b).0 valid in
      let (xs, x, px, pe, pb) =
        entries_bytes-prefix es e w.bytes (ap (entries_bytes c) (sym split) ∙ w.serialised) in
      (
        (validate_structure_iff (record b { entries = es ++ e ∷ e ∷ [] })).1 (record {
          version_1 = w.version_1;
          bytes = xs ++ x ∷ x ∷ [];
          serialised =
              entries_bytes-append es (e ∷ e ∷ []) xs (x ∷ x ∷ []) px (entries_bytes-twice e x pe);
          root =
              merkle_root_repeat c.blake2b xs x k (length-entries_bytes es xs px ∙ even)
              ∙ ap (calculate_merkle_root c.blake2b) (sym pb)
              ∙ w.root;
        }),
        refl,
      )
