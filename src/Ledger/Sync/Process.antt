-- ===== src/Ledger/Sync/Process.antt =====
-- crates/myriadmesh-ledger/src/sync.rs: a pass over the pending blocks.
use myriadmesh_server.Base.{
  ℕ, suc, ◌+◌, ◌<◌, false, inl, inr, List, [], ◌∷◌, length, is_empty, refl, sym, ap, ◌≡◌, arith,
  u64_mod, add64, ltb, if◌then◌else◌, Bool-cases,
}
use mathlib.Core.Path.{subst}
use myriadmesh_server.Base.Sort.{sort_by, length-sort_by}
use myriadmesh_server.Base.Result.{ok, err, Result-cases}
use myriadmesh_server.Ledger.Float.{Float}
use myriadmesh_server.Ledger.Codec.{Codec, ReadsBack}
use myriadmesh_server.Ledger.Error.{Ledger, LedgerError}
use myriadmesh_server.Ledger.Chain.{Block}
use myriadmesh_server.Ledger.Storage.{has_block}
use myriadmesh_server.Ledger.Storage.Index.{IsIndexed}
use myriadmesh_server.Ledger.Storage.Store.{store_block-IsIndexed}
use myriadmesh_server.Ledger.Sync.{
  ChainSync, synced, error, validating, by_height, after_block, process_blocks,
  process_pending_blocks, validate_and_store_block,
}
use myriadmesh_server.Ledger.Sync.Accept.{validate_and_store_block-IsAccepted, accepted_again}

module _ (f : Float) (c : Codec) where
  validate_and_store_block-IsIndexed :
      (s : ChainSync) (b : Block) (s' : ChainSync)
      → ReadsBack c
      → IsIndexed c s.storage
      → validate_and_store_block f c s b ≡ ok s'
      → IsIndexed c s'.storage
  validate_and_store_block-IsIndexed s b s' back v h =
      elim (Bool-cases (has_block s.storage b.header.height)) [
        | inl held ↦
            subst (λ (x : ChainSync). IsIndexed c x.storage) (accepted_again f c s b s' held h) v
        | inr fresh ↦
            store_block-IsIndexed c s.storage b s'.storage back v
              (validate_and_store_block-IsAccepted f c s b s' fresh h).stored
      ]

  -- one turn of the loop
  process_blocks-cons :
      (b : Block) (rest : List Block) (n : ℕ) (s : ChainSync) {r : Ledger ChainSync}
      → validate_and_store_block f c s b ≡ r
      → process_blocks f c (b ∷ rest) n s
        ≡ process_blocks f c rest (after_block f c s n r).0 (after_block f c s n r).1
  unfolding process_blocks
  process_blocks-cons b rest n s e =
      ap (λ r. process_blocks f c rest (after_block f c s n r).0 (after_block f c s n r).1) e

  process_blocks-IsIndexed :
      (blocks : List Block) (n : ℕ) (s : ChainSync)
      → ReadsBack c
      → IsIndexed c s.storage
      → IsIndexed c (process_blocks f c blocks n s).1.storage
  unfolding process_blocks
  process_blocks-IsIndexed [] n s back v = v
  process_blocks-IsIndexed (b ∷ rest) n s back v =
      elim (Result-cases (validate_and_store_block f c s b)) [
        | inl (s', e) ↦
            subst (λ (x : ℕ × ChainSync). IsIndexed c x.1.storage)
              (sym (process_blocks-cons b rest n s e))
              (process_blocks-IsIndexed rest _ (after_block f c s n (ok s')).1 back
                (validate_and_store_block-IsIndexed s b s' back v e))
        | inr (x, e) ↦
            subst (λ (x : ℕ × ChainSync). IsIndexed c x.1.storage)
              (sym (process_blocks-cons b rest n s e))
              (process_blocks-IsIndexed rest _ (after_block f c s n (err x)).1 back v)
      ]

  -- A pass over the pending blocks, valid or not, leaves the index and the disk in step, where
  -- the serialiser reads back what it wrote.
  pub process_pending_blocks-IsIndexed :
      (s : ChainSync)
      → ReadsBack c
      → IsIndexed c s.storage
      → IsIndexed c (process_pending_blocks f c s).1.storage
  unfolding process_pending_blocks
  process_pending_blocks-IsIndexed s back v = elim (Bool-cases (is_empty s.pending_blocks)) [
    | inl e ↦ rw e v
    | inr e ↦ rw e (
        process_blocks-IsIndexed (sort_by by_height s.pending_blocks) 0
          (record s { state = validating; pending_blocks = [] }) back v)
  ]

  -- What accepting a block leaves as it was.
  record IsKept (s s' : ChainSync) : Type 0 where
    errors : s'.stats.validation_errors ≡ s.stats.validation_errors
    pending : s'.pending_blocks ≡ s.pending_blocks
    reported : s'.stats.stats_state ≡ s.stats.stats_state

  validate_and_store_block-IsKept :
      (s : ChainSync) (b : Block) (s' : ChainSync)
      → validate_and_store_block f c s b ≡ ok s'
      → IsKept s s'
  unfolding validate_and_store_block
  validate_and_store_block-IsKept s b s' h =
      elim (Bool-cases (has_block s.storage b.header.height)) [
        | inl held ↦
            subst (IsKept s) (accepted_again f c s b s' held h)
              (record { errors = refl; pending = refl; reported = refl })
        | inr fresh ↦
            let w = validate_and_store_block-IsAccepted f c s b s' fresh h in
            record {
              errors = ground (arith, w.structure, w.checked, w.quorum, w.stored);
              pending = ground (arith, w.structure, w.checked, w.quorum, w.stored);
              reported = ground (arith, w.structure, w.checked, w.quorum, w.stored);
            }
      ]

  -- A pass over blocks, in their order: each is accepted, and the pass goes on from the state
  -- that accepting it gives, with one block more validated, or is refused, and the pass goes on
  -- from the state before it, with one error more. The numbers count the two.
  pub data Pass : List Block → ChainSync → ℕ → ℕ → ChainSync → Type 0 where
    pass_end : (s : ChainSync) → Pass [] s 0 0 s
    pass_accepted :
        (b : Block) (rest : List Block) (s s' : ChainSync) (a e : ℕ) (end : ChainSync)
        → validate_and_store_block f c s b ≡ ok s'
        → Pass rest
            (record s' {
              stats = record s'.stats { blocks_validated = add64 s'.stats.blocks_validated 1 };
            })
            a
            e
            end
        → Pass (b ∷ rest) s (suc a) e end
    pass_refused :
        (b : Block) (rest : List Block) (s : ChainSync) (why : LedgerError) (a e : ℕ)
        (end : ChainSync)
        → validate_and_store_block f c s b ≡ err why
        → Pass rest
            (record s {
              stats = record s.stats { validation_errors = add64 s.stats.validation_errors 1 };
            })
            a
            e
            end
        → Pass (b ∷ rest) s a (suc e) end

  -- The pass that the loop has made, from a count on.
  record IsPassed (blocks : List Block) (n : ℕ) (s : ChainSync) (r : ℕ × ChainSync) : Type 0 where
    accepted : ℕ
    refused : ℕ
    pass : Pass blocks s accepted refused r.1
    processed : r.0 ≡ n + accepted
    errors : r.1.stats.validation_errors ≡ s.stats.validation_errors + refused
    every : accepted + refused ≡ length blocks
    pending : r.1.pending_blocks ≡ s.pending_blocks
    reported : r.1.stats.stats_state ≡ s.stats.stats_state

  process_blocks-IsPassed :
      (blocks : List Block) (n : ℕ) (s : ChainSync)
      → n + length blocks < u64_mod
      → s.stats.validation_errors + length blocks < u64_mod
      → IsPassed blocks n s (process_blocks f c blocks n s)
  unfolding process_blocks
  process_blocks-IsPassed [] n s small errors_small = record {
    accepted = 0;
    refused = 0;
    pass = pass_end s;
    processed = omega arith;
    errors = omega arith;
    every = refl;
    pending = refl;
    reported = refl;
  }
  process_blocks-IsPassed (b ∷ rest) n s small errors_small =
      elim (Result-cases (validate_and_store_block f c s b)) [
        | inl (s', e) ↦
            let k = validate_and_store_block-IsKept s b s' e in
            let w =
              process_blocks-IsPassed rest (add64 n 1) (after_block f c s n (ok s')).1
                (ground (arith, small)) (ground (arith, errors_small, k.errors)) in
            subst (IsPassed (b ∷ rest) n s) (sym (process_blocks-cons b rest n s e)) (record {
              accepted = suc w.accepted;
              refused = w.refused;
              pass = pass_accepted b rest s s' w.accepted w.refused _ e w.pass;
              processed = ground (arith, w.processed, small);
              errors = ground (arith, w.errors, k.errors);
              every = ground (arith, w.every);
              pending = ground (arith, w.pending, k.pending);
              reported = ground (arith, w.reported, k.reported);
            })
        | inr (x, e) ↦
            let w =
              process_blocks-IsPassed rest n (after_block f c s n (err x)).1 (ground (arith, small))
                (ground (arith, errors_small)) in
            subst (IsPassed (b ∷ rest) n s) (sym (process_blocks-cons b rest n s e)) (record {
              accepted = w.accepted;
              refused = suc w.refused;
              pass = pass_refused b rest s x w.accepted w.refused _ e w.pass;
              processed = w.processed;
              errors = ground (arith, w.errors, errors_small);
              every = ground (arith, w.every);
              pending = w.pending;
              reported = w.reported;
            })
      ]

  -- A pass over pending blocks, of which there is one at least, takes them in the order of
  -- their heights, each from the state that the one before has left: it counts a block as
  -- processed if validate_and_store_block accepts it and goes on from the state that this
  -- gives, and as an error if it is refused; it leaves none pending, and ends synced if one
  -- was processed and in error if none was, where the counters do not wrap.
  pub process_pending_blocks-total :
      (s : ChainSync)
      → is_empty s.pending_blocks ≡ false
      → s.stats.validation_errors + length s.pending_blocks < u64_mod
      → let (processed, s') = process_pending_blocks f c s in
        (refused : ℕ) × (end : ChainSync) × Pass
          (sort_by by_height s.pending_blocks)
          (record s { state = validating; pending_blocks = [] })
          processed
          refused
          end
        × (s' ≡ record end { state = if ltb 0 processed then synced else error })
        × (processed + refused ≡ length s.pending_blocks)
        × (s'.stats.validation_errors ≡ s.stats.validation_errors + refused)
        × (s'.pending_blocks ≡ [])
  unfolding process_pending_blocks
  process_pending_blocks-total s some_pending small =
      let same = length-sort_by by_height s.pending_blocks in
      let blocks = sort_by by_height s.pending_blocks in
      let start : ChainSync = record s { state = validating; pending_blocks = [] } in
      let few : 0 + length blocks < u64_mod = ground (arith, same, small) in
      let fits : s.stats.validation_errors + length blocks < u64_mod =
        ground (arith, same, small) in
      let w = process_blocks-IsPassed blocks 0 start few fits in
      let r = process_blocks f c blocks 0 start in
      let counted : w.accepted ≡ r.0 = ground (arith, w.processed) in
      rw some_pending (
        w.refused,
        r.1,
        subst (λ a. Pass blocks start a w.refused r.1) counted w.pass,
        refl,
        ground (arith, same, w.processed, w.every),
        w.errors,
        w.pending,
      )

  -- The state that the statistics report is never updated by a pass.
  pub process_pending_blocks-stats_state :
      (s : ChainSync)
      → s.stats.validation_errors + length s.pending_blocks < u64_mod
      → (process_pending_blocks f c s).1.stats.stats_state ≡ s.stats.stats_state
  unfolding process_pending_blocks
  process_pending_blocks-stats_state s small = elim (Bool-cases (is_empty s.pending_blocks)) [
    | inl none_pending ↦ rw none_pending refl
    | inr some_pending ↦
        let same = length-sort_by by_height s.pending_blocks in
        rw some_pending
          (process_blocks-IsPassed (sort_by by_height s.pending_blocks) 0
            (record s { state = validating; pending_blocks = [] }) (ground (arith, same, small))
            (ground (arith, same, small))).reported
  ]
