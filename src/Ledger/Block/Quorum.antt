-- ===== src/Ledger/Block/Quorum.antt =====
-- crates/myriadmesh-ledger/src/block.rs: the quorum of `has_consensus`.
use myriadmesh_server.Base.{
  ℕ, zero, suc, ◌+◌, ◌*◌, ◌≤◌, ◌<◌, ◌^◌, ◌≡◌, ◌↔◌, true, [], ◌∷◌, arith, leb→le, le→leb,
  length-append,
}
use myriadmesh_server.Ledger.Entry.{NodeId, Signature}
use myriadmesh_server.Ledger.Chain.{Block}
use myriadmesh_server.Ledger.Block.{
  add_validator_signature, signature_count, required_signatures, has_consensus,
}

-- The number required is two thirds, rounded up, while twice the nodes fits a word.
pub required_signatures_bounds :
    (n : ℕ)
    → n < 2 ^ 63
    → (2 * n ≤ 3 * required_signatures n) × (3 * required_signatures n ≤ 2 * n + 2)
unfolding required_signatures
required_signatures_bounds n h = ground arith

-- With fewer than two to the power 63 known nodes, a block has consensus exactly when three
-- times its signatures reach twice the known nodes.
pub has_consensus_iff :
    (b : Block) (n : ℕ) → n < 2 ^ 63 → (has_consensus b n ≡ true) ↔ (2 * n ≤ 3 * signature_count b)
unfolding has_consensus signature_count
has_consensus_iff b n h = (
  λ t. omega (arith, required_signatures_bounds n h, leb→le _ _ t),
  λ t. le→leb _ _ (omega (arith, required_signatures_bounds n h)),
)

-- `k` signatures by one validator
abbrev pub sign_again : ℕ → Block → NodeId → Signature → Block
sign_again zero b v s = b
sign_again (suc k) b v s = sign_again k (add_validator_signature b v s) v s

signature_count-sign_again :
    (k : ℕ) (b : Block) (v : NodeId) (s : Signature)
    → signature_count (sign_again k b v s) ≡ k + signature_count b
unfolding signature_count add_validator_signature
signature_count-sign_again zero b v s = omega arith
signature_count-sign_again (suc k) b v s = omega (
  arith,
  signature_count-sign_again k (add_validator_signature b v s) v s,
  length-append {0} b.validator_signatures (record { validator = v; signature = s } ∷ []),
)

-- One validator that signs a block as often as there are known nodes, fewer than two to the
-- power 63, gives it consensus, whatever the signature.
pub one_validator_quorum :
    (b : Block) (v : NodeId) (s : Signature) (n : ℕ)
    → n < 2 ^ 63
    → has_consensus (sign_again n b v s) n ≡ true
one_validator_quorum b v s n h =
    (has_consensus_iff (sign_again n b v s) n h).1
      (omega (arith, signature_count-sign_again n b v s))
