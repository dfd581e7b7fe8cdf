-- ===== src/Ledger/Sync/Accept.antt =====
-- crates/myriadmesh-ledger/src/sync.rs: `validate_and_store_block`.
use myriadmesh_server.Base.{
  ℕ, suc, ◌-◌, ◌<◌, ◌≡◌, ap, inl, inr, ◌⊎◌, true, false, arith, Bool-cases, Option-cases, ◌==◌,
  nat_eq,
}
use myriadmesh_server.Base.Map.{get}
use myriadmesh_server.Base.Result.{ok, Result-cases}
use myriadmesh_server.Ledger.Float.{Float}
use myriadmesh_server.Ledger.Chain.{Block}
use myriadmesh_server.Ledger.Codec.{Codec, ReadsBack}
use myriadmesh_server.Ledger.Block.{validate_structure, validate_chain_link}
use myriadmesh_server.Ledger.Consensus.{
  can_create_blocks, validate_block_creator, validate_consensus,
}
use myriadmesh_server.Ledger.Disk.{block_file}
use myriadmesh_server.Ledger.Storage.{LedgerStorage, has_block, load_block, store_block}
use myriadmesh_server.Ledger.Storage.Index.{IsIndexed}
use myriadmesh_server.Ledger.Storage.Loading.{load_block-store_block}
use myriadmesh_server.Ledger.Storage.Retention.{has_block-store_block}
use mathlib.Core.Path.{subst}
use myriadmesh_server.Ledger.Sync.{ChainSync, check_previous, validate_and_store_block}

module _ (c : Codec) where
  -- The predecessor of an accepted block above genesis is held, and the block links to it.
  pub check_previous-link :
      (t : LedgerStorage) (b : Block)
      → check_previous c t b ≡ ok tt
      → 0 < b.header.height
      → (p : Block) × (load_block c t (b.header.height - 1) ≡ ok p)
        × (validate_chain_link c b p ≡ ok tt)
  unfolding check_previous
  check_previous-link t b h above = elim (Result-cases (load_block c t (b.header.height - 1))) [
    | inr (x, e) ↦ absurd (ground arith)
    | inl (p, e) ↦ (p, e, ground arith)
  ]

  -- A block is at height 0, or links to the block below it, which is held.
  abbrev pub LinksToPrevious : LedgerStorage → Block → Type 0
  LinksToPrevious t b =
      (b.header.height ≡ 0)
      ⊎ ((has_block t (b.header.height - 1) ≡ true)
          × (p : Block) × (load_block c t (b.header.height - 1) ≡ ok p)
          × (validate_chain_link c b p ≡ ok tt))

  load_block-held :
      (t : LedgerStorage) (h : ℕ) (p : Block) → load_block c t h ≡ ok p → has_block t h ≡ true
  unfolding load_block has_block
  load_block-held t h p e = elim (Option-cases (get t.index h)) [
    | inl absent ↦ absurd (ground (arith, absent, e))
    | inr (md, found) ↦ ground (arith, found)
  ]

  check_previous-LinksToPrevious :
      (t : LedgerStorage) (b : Block) → check_previous c t b ≡ ok tt → LinksToPrevious t b
  check_previous-LinksToPrevious t b h = elim (Bool-cases (b.header.height == 0)) [
    | inl genesis ↦ inl (ground (arith, genesis))
    | inr later ↦
        let (p, loaded, link) = check_previous-link t b h (ground (arith, later)) in
        inr (load_block-held t (b.header.height - 1) p loaded, p, loaded, link)
  ]

  -- Each block that is held links to the block below it, where that is held.
  abbrev pub IsChain : LedgerStorage → Type 0
  IsChain t =
      (h : ℕ) (b p : Block)
      → has_block t (suc h) ≡ true
      → has_block t h ≡ true
      → load_block c t (suc h) ≡ ok b
      → load_block c t h ≡ ok p
      → validate_chain_link c b p ≡ ok tt

  store-IsChain :
      (t : LedgerStorage) (b : Block) (t' : LedgerStorage)
      → ReadsBack c
      → IsIndexed c t
      → t.disk.read_fails (block_file b.header.height) ≡ false
      → has_block t (suc b.header.height) ≡ false
      → IsChain t
      → check_previous c t b ≡ ok tt
      → store_block c t b ≡ ok t'
      → IsChain t'
  store-IsChain t b t' back v readable above chain checked stored h x p held_x held_p load_x
        load_p =
      let upper = load_block-store_block c t b t' (suc h) back v readable stored held_x in
      let lower = load_block-store_block c t b t' h back v readable stored held_p in
      let in_x = has_block-store_block c t b t' (suc h) stored held_x in
      let in_p = has_block-store_block c t b t' h stored held_p in
      elim (Bool-cases (b.header.height == suc h)) [
        | inl new_x ↦
            let (q, load_q, link) = check_previous-link t b checked (ground arith) in
            let same_h : b.header.height - 1 ≡ h = ground arith in
            ground (arith, upper, lower, load_q, link, ap (load_block c t) same_h, load_x, load_p)
        | inr old_x ↦ elim (Bool-cases (b.header.height == h)) [
          | inl new_p ↦
              absurd
                (ground (arith, in_x, ap (λ k. has_block t (suc k)) {x = b.header.height} {y = h}))
          | inr old_p ↦
              chain h x p (ground (arith, in_x)) (ground (arith, in_p))
                (ground (arith, upper, load_x)) (ground (arith, lower, load_p))
        ]
      ]

module _ (f : Float) (c : Codec) where
  -- What an accepted block has passed.
  pub record IsAccepted (s : ChainSync) (b : Block) (s' : ChainSync) : Type 0 where
    pub structure : validate_structure c b ≡ ok tt
    pub checked : check_previous c s.storage b ≡ ok tt
    pub previous : LinksToPrevious c s.storage b
    pub creator : can_create_blocks f s.consensus b.header.creator ≡ true
    pub quorum : validate_consensus s.consensus b ≡ ok tt
    pub stored : store_block c s.storage b ≡ ok s'.storage

  -- A block of a height that is not held is accepted only if its structure is valid, it is of
  -- height 0 or its predecessor is held, can be read and is the block that it links to, its
  -- creator may create blocks and its signatures pass the check of consensus; it is then the
  -- block stored.
  pub validate_and_store_block-IsAccepted :
      (s : ChainSync) (b : Block) (s' : ChainSync)
      → has_block s.storage b.header.height ≡ false
      → validate_and_store_block f c s b ≡ ok s'
      → IsAccepted s b s'
  unfolding validate_and_store_block validate_block_creator
  validate_and_store_block-IsAccepted s b s' fresh h =
      elim (Result-cases (validate_structure c b)) [
        | inr (x, e) ↦ absurd (ground arith)
        | inl (u, e1) ↦ elim (Result-cases (check_previous c s.storage b)) [
          | inr (x, e) ↦ absurd (ground arith)
          | inl (u2, e2) ↦ elim (Result-cases (validate_consensus s.consensus b)) [
            | inr (x, e) ↦ absurd (ground arith)
            | inl (u3, e3) ↦ elim (Result-cases (store_block c s.storage b)) [
              | inr (x, e) ↦ absurd (ground arith)
              | inl (t, e4) ↦ record {
                structure = e1;
                checked = e2;
                previous = check_previous-LinksToPrevious c s.storage b e2;
                creator = ground arith;
                quorum = e3;
                stored = ground arith;
              }
            ]
          ]
        ]
      ]

  pub accepted_again :
      (s : ChainSync) (b : Block) (s' : ChainSync)
      → has_block s.storage b.header.height ≡ true
      → validate_and_store_block f c s b ≡ ok s'
      → s ≡ s'
  unfolding validate_and_store_block
  accepted_again s b s' held h = elim (Result-cases (validate_structure c b)) [
    | inr (x, e) ↦ absurd (ground arith)
    | inl (u, e) ↦ ground arith
  ]

  -- Accepting a block keeps every held block linked to the held block below it, where the
  -- serialiser reads back what it wrote, the index and the disk are in step, the file of the
  -- block can be read and the height above it is not held.
  pub validate_and_store_block-IsChain :
      (s : ChainSync) (b : Block) (s' : ChainSync)
      → ReadsBack c
      → IsIndexed c s.storage
      → s.storage.disk.read_fails (block_file b.header.height) ≡ false
      → has_block s.storage (suc b.header.height) ≡ false
      → IsChain c s.storage
      → validate_and_store_block f c s b ≡ ok s'
      → IsChain c s'.storage
  unfolding validate_and_store_block
  validate_and_store_block-IsChain s b s' back v readable above chain h =
      elim (Bool-cases (has_block s.storage b.header.height)) [
        | inl held ↦
            subst (λ (x : ChainSync). IsChain c x.storage) (accepted_again s b s' held h) chain
        | inr fresh ↦
            let w = validate_and_store_block-IsAccepted s b s' fresh h in
            store-IsChain c s.storage b s'.storage back v readable above chain w.checked w.stored
      ]
