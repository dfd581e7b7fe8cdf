-- ===== src/Ledger/Sync/Reorganise.antt =====
-- crates/myriadmesh-ledger/src/sync.rs: the detection and the resolution of forks.
use myriadmesh_server.Base.{
  ℕ, ◌<◌, true, false, inl, inr, List, [], ◌∷◌, ◌++◌, is_empty, select, refl, sym, ap, ◌≡◌, ◌⊎◌,
  arith, add64, sub64, eqb, leb, Bool-cases, ◌==◌,
}
use mathlib.Core.Path.{subst, ◌∙◌}
use mathlib.Core.List.{append-nil, append_assoc, Mem, mem-cons_self, mem-cons_of_mem}
use myriadmesh_server.Base.Result.{ok, Result-cases}
use myriadmesh_server.Base.Bytes.{Bytes, bytes_eq}
use myriadmesh_server.Ledger.Float.{Float}
use myriadmesh_server.Ledger.Codec.{Codec}
use myriadmesh_server.Ledger.Chain.{Block}
use myriadmesh_server.Ledger.Block.{calculate_hash}
use myriadmesh_server.Ledger.Consensus.{resolve_fork}
use myriadmesh_server.Ledger.Storage.{LedgerStorage, has_block, load_block, load_range}
use myriadmesh_server.Ledger.Sync.{
  ChainSync, find_fork, add_all_pending, add_pending_block, detect_and_resolve_forks,
}

add_all_pending_lem :
    (s : ChainSync) (bs : List Block)
    → (add_all_pending s bs).pending_blocks ≡ s.pending_blocks ++ bs
unfolding add_all_pending
add_all_pending_lem s [] = sym (append-nil _)
add_all_pending_lem s (b ∷ bs) =
    add_all_pending_lem (add_pending_block s b) bs ∙ append_assoc s.pending_blocks (b ∷ []) bs

add_all_pending-storage :
    (s : ChainSync) (bs : List Block) → (add_all_pending s bs).storage ≡ s.storage
unfolding add_all_pending
add_all_pending-storage s [] = refl
add_all_pending-storage s (b ∷ bs) = add_all_pending-storage (add_pending_block s b) bs

module _ (f : Float) (c : Codec) where
  -- A block of another chain at a height where the local chain holds a different block.
  pub record Disagrees (t : LedgerStorage) (b : Block) : Type 0 where
    pub local : Block
    pub local_hash : Bytes
    pub alt_hash : Bytes
    pub held : has_block t b.header.height ≡ true
    pub loaded : load_block c t b.header.height ≡ ok local
    pub local_hashed : calculate_hash c local ≡ ok local_hash
    pub alt_hashed : calculate_hash c b ≡ ok alt_hash
    pub differ : (local_hash == alt_hash) ≡ false

  -- a block of the list that disagrees with the local one at a height
  abbrev Found : LedgerStorage → List Block → ℕ → Type 0
  Found t bs h = (b : Block) × Mem b bs × Disagrees t b × (b.header.height ≡ h)

  further :
      (t : LedgerStorage) (b : Block) (bs : List Block) (h : ℕ) → Found t bs h → Found t (b ∷ bs) h
  further t b bs h (x, m, d, at) = (x, mem-cons_of_mem b m, d, at)

  -- The height that the search returns is nought or one at which the chains disagree.
  find_fork_lem :
      (t : LedgerStorage) (bs : List Block) (h : ℕ) → find_fork c t bs ≡ ok h → 0 < h → Found t bs h
  unfolding find_fork
  find_fork_lem t [] h e above = absurd (ground arith)
  find_fork_lem t (b ∷ bs) h e above = elim (Bool-cases (has_block t b.header.height)) [
    | inr skipped ↦ further t b bs h (find_fork_lem t bs h (ground arith) above)
    | inl held ↦ elim (Result-cases (load_block c t b.header.height)) [
      | inr (x, e1) ↦ absurd (ground arith)
      | inl (l, e1) ↦ elim (Result-cases (calculate_hash c l)) [
        | inr (x, e2) ↦ absurd (ground arith)
        | inl (hl, e2) ↦ elim (Result-cases (calculate_hash c b)) [
          | inr (x, e3) ↦ absurd (ground arith)
          | inl (hb, e3) ↦ elim (Bool-cases (hl == hb)) [
            | inl same ↦ further t b bs h (find_fork_lem t bs h (ground arith) above)
            | inr other ↦ (
              b,
              mem-cons_self,
              record {
                local = l;
                local_hash = hl;
                alt_hash = hb;
                held = held;
                loaded = e1;
                local_hashed = e2;
                alt_hashed = e3;
                differ = other;
              },
              ground arith,
            )
          ]
        ]
      ]
    ]
  ]

  -- What a reorganisation that returns `n` has found and done.
  pub record IsReorganised (s : ChainSync) (alt : List Block) (n : ℕ) (s' : ChainSync)
      : Type 0 where
    pub fork : Block
    pub received : Mem fork alt
    pub disagrees : Disagrees s.storage fork
    pub local_chain : List Block
    pub loaded : load_range c s.storage fork.header.height s.storage.chain_height ≡ ok local_chain
    pub alternative_wins :
        resolve_fork f s.consensus local_chain
          (select (λ (b : Block). leb fork.header.height b.header.height) alt)
        ≡ 1
    pub rolled_back : n ≡ add64 (sub64 s.storage.chain_height fork.header.height) 1
    pub queued :
        s'.pending_blocks
        ≡ s.pending_blocks ++ select (λ (b : Block). leb fork.header.height b.header.height) alt
    pub kept : s'.storage ≡ s.storage

  reorganised :
      (s : ChainSync) (alt : List Block) (n : ℕ) (s' : ChainSync) (b : Block)
      → Mem b alt
      → Disagrees s.storage b
      → (local : List Block) (h : ℕ) → b.header.height ≡ h
      → load_range c s.storage h s.storage.chain_height ≡ ok local
      → resolve_fork f s.consensus local (select (λ (x : Block). leb h x.header.height) alt) ≡ 1
      → n ≡ add64 (sub64 s.storage.chain_height h) 1
      → s' ≡ add_all_pending s (select (λ (x : Block). leb h x.header.height) alt)
      → IsReorganised s alt n s'
  reorganised s alt n s' b m d local h at loaded wins count result =
      subst
        (λ k.
          load_range c s.storage k s.storage.chain_height ≡ ok local
          → resolve_fork f s.consensus local (select (λ (x : Block). leb k x.header.height) alt) ≡ 1
          → n ≡ add64 (sub64 s.storage.chain_height k) 1
          → s' ≡ add_all_pending s (select (λ (x : Block). leb k x.header.height) alt)
          → IsReorganised s alt n s')
        at
        (λ loaded wins count result. record {
          fork = b;
          received = m;
          disagrees = d;
          local_chain = local;
          loaded = loaded;
          alternative_wins = wins;
          rolled_back = count;
          queued = ap (λ (x : ChainSync). x.pending_blocks) result ∙ add_all_pending_lem s _;
          kept = ap (λ (x : ChainSync). x.storage) result ∙ add_all_pending-storage s _;
        })
        loaded wins count result

  -- A call that resolves forks without an error either returns 0 and changes nothing, or has
  -- found among the received blocks one that disagrees with the local block of its height, on
  -- a chain that wins from that height on; it then queues the received blocks from the height
  -- on, returns the number of local blocks from it to the tip, in wrapping arithmetic, and
  -- removes none of them.
  pub detect_and_resolve_forks_lem :
      (s : ChainSync) (alt : List Block) (n : ℕ) (s' : ChainSync)
      → detect_and_resolve_forks f c s alt ≡ ok (n, s')
      → ((n ≡ 0) × (s' ≡ s)) ⊎ IsReorganised s alt n s'
  unfolding detect_and_resolve_forks
  detect_and_resolve_forks_lem s alt n s' e = elim (Bool-cases (is_empty alt)) [
    | inl nothing ↦ inl (ground arith, ground arith)
    | inr some_alt ↦ elim (Result-cases (find_fork c s.storage alt)) [
      | inr (x, e1) ↦ absurd (ground arith)
      | inl (h, e1) ↦ elim (Bool-cases (eqb h 0)) [
        | inl bottom ↦ inl (ground arith, ground arith)
        | inr above ↦ elim (Result-cases (load_range c s.storage h s.storage.chain_height)) [
          | inr (x, e2) ↦ absurd (ground arith)
          | inl (local, e2) ↦
              elim (Bool-cases (
                eqb
                  (resolve_fork f s.consensus local
                    (select (λ (b : Block). leb h b.header.height) alt))
                  1)) [
                    | inr loses ↦ inl (ground arith, ground arith)
                    | inl wins ↦
                        let (b, m, d, at) = find_fork_lem s.storage alt h e1 (ground arith) in
                        inr (
                          reorganised s alt n s' b m d local h at e2 (ground arith) (ground arith)
                            (ground arith))
                  ]
        ]
      ]
    ]
  ]

  -- When the first of the received blocks is of height 0 and disagrees with the local block of
  -- that height, the call returns 0 and changes nothing, whatever blocks follow.
  pub other_genesis_ignored :
      (s : ChainSync) (b : Block) (rest : List Block)
      → b.header.height ≡ 0
      → Disagrees s.storage b
      → detect_and_resolve_forks f c s (b ∷ rest) ≡ ok (0, s)
  unfolding detect_and_resolve_forks find_fork
  other_genesis_ignored s b rest bottom d =
      ground (arith, d.held, d.loaded, d.local_hashed, d.alt_hashed, d.differ, bottom)
