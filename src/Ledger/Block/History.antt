-- ===== src/Ledger/Block/History.antt =====
-- crates/myriadmesh-ledger/src/block.rs: chains of linked blocks, newest first.
use myriadmesh_server.Base.{
  ℕ, zero, suc, ◌+◌, ◌<◌, ◌≡◌, ◌⊎◌, inl, inr, some, List, [], ◌∷◌, length, arith, ap, sym, ◌∙◌,
  u64_mod, map, Option-cases, get_elem?, All,
}
use myriadmesh_server.Base.Bytes.{Bytes}
use myriadmesh_server.Base.Result.{ok}
use myriadmesh_server.Ledger.Chain.{Block, BlockHeader}
use myriadmesh_server.Ledger.Codec.{Codec}
use myriadmesh_server.Ledger.Merkle.Binding.{Collision, and_then, digest_inj}
use myriadmesh_server.Ledger.Block.{calculate_hash, validate_chain_link}
use myriadmesh_server.Ledger.Block.Validation.{validate_chain_link_iff}

-- No two headers serialise alike.
abbrev pub HeadersDiffer : Codec → Type 0
HeadersDiffer c =
    (g h : BlockHeader) (bytes : Bytes)
    → c.header_bytes g ≡ some bytes
    → c.header_bytes h ≡ some bytes
    → g ≡ h

module _ (c : Codec) where
  -- Each block passes `validate_chain_link` against the next of the list.
  abbrev pub Linked : List Block → Type 0
  Linked [] = Unit
  Linked (b ∷ []) = Unit
  Linked (b ∷ p ∷ rest) = (validate_chain_link c b p ≡ ok tt) × Linked (p ∷ rest)

  same_hash_same_header :
      HeadersDiffer c
      → (a b : Block) {hash : Bytes} → calculate_hash c a ≡ ok hash
      → calculate_hash c b ≡ ok hash
      → (a.header ≡ b.header) ⊎ Collision c.blake2b
  unfolding calculate_hash
  same_hash_same_header differ a b {hash} ha hb = elim (Option-cases (c.header_bytes a.header)) [
    | inl e ↦ absurd (ground arith)
    | inr (x, ex) ↦ elim (Option-cases (c.header_bytes b.header)) [
      | inl e ↦ absurd (ground arith)
      | inr (y, ey) ↦
          and_then (digest_inj c.blake2b x y (ground arith))
            λ same. inl (differ a.header b.header x ex (ey ∙ ap some (sym same)))
    ]
  ]

  -- Two linked chains of one length whose newest blocks have one hash agree in every header,
  -- or else the hash has a collision, where no two headers serialise alike.
  pub tip_commits_to_history :
      HeadersDiffer c
      → (a b : Block) (older_a older_b : List Block) {hash : Bytes} → Linked (a ∷ older_a)
      → Linked (b ∷ older_b)
      → length older_a ≡ length older_b
      → calculate_hash c a ≡ ok hash
      → calculate_hash c b ≡ ok hash
      → (map (λ (x : Block). x.header) (a ∷ older_a) ≡ map (λ (x : Block). x.header) (b ∷ older_b))
        ⊎ Collision c.blake2b
  tip_commits_to_history differ a b [] [] la lb n ha hb =
      and_then (same_hash_same_header differ a b ha hb) λ same. inl (cc same)
  tip_commits_to_history differ a b [] (q ∷ qs) la lb n ha hb = absurd (omega arith)
  tip_commits_to_history differ a b (p ∷ ps) [] la lb n ha hb = absurd (omega arith)
  tip_commits_to_history differ a b (p ∷ ps) (q ∷ qs) la lb n ha hb =
      and_then (same_hash_same_header differ a b ha hb) λ same.
        and_then
          (tip_commits_to_history differ p q ps qs la.1 lb.1 (omega arith)
            ((validate_chain_link_iff c a p).0 la.0).hash_link
            (((validate_chain_link_iff c b q).0 lb.0).hash_link
              ∙ ap (λ (h : BlockHeader). ok h.previous_hash) (sym same)))
          λ rest. inl (cc (same, rest))

  -- Along a linked chain, newest first, of heights that do not wrap, the block a number of
  -- places further down is that much lower and is earlier.
  pub Linked-get :
      (b : Block) (chain : List Block) (i : ℕ) (x : Block)
      → Linked (b ∷ chain)
      → get_elem? (b ∷ chain) (suc i) ≡ some x
      → All (λ (y : Block). y.header.height + 1 < u64_mod) (b ∷ chain)
      → (x.header.height + suc i ≡ b.header.height) × (x.header.timestamp < b.header.timestamp)
  Linked-get b [] i x l e small = cc
  Linked-get b (p ∷ rest) zero x l e small =
      let w = (validate_chain_link_iff c b p).0 l.0 in
      (ground (arith, w.height_next, small.1.0), ground (arith, w.later))
  Linked-get b (p ∷ rest) (suc i) x l e small =
      let w = (validate_chain_link_iff c b p).0 l.0 in
      let older = Linked-get p rest i x l.1 e small.1 in
      (omega (arith, w.height_next, small.1.0, older.0), omega (arith, w.later, older.1))
