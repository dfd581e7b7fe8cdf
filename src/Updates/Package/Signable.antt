-- ===== src/Updates/Package/Signable.antt =====
-- crates/myriadmesh-updates/src/distribution.rs: what the signed bytes of a package determine.
use myriadmesh_server.Base.{
  ◌≡◌, ◌⊎◌, inl, inr, sym, ap, ◌∙◌, true, some, take, ◌++◌, arith, length, length-append,
  Option-cases,
}
use myriadmesh_server.Base.Bytes.{Bytes, bytes_eq, bytes_beq_iff}
use myriadmesh_server.Base.Result.{ok}
use myriadmesh_server.Ledger.Codec.{HashLength}
use myriadmesh_server.Ledger.Merkle.Binding.{Collision, and_then, append-inj, digest_inj}
use myriadmesh_server.Updates.Package.{
  Crypto, UpdatePackage, get_signable_data, verify_payload_hash,
}

module _ (c : Crypto) where
  -- Signed bytes are those of a hash, of a version and of the hash of metadata that serialise.
  pub signable_parts :
      (p : UpdatePackage) (signed : Bytes)
      → get_signable_data c p ≡ ok signed
      → (m : Bytes) × (c.metadata_bytes p.metadata ≡ some m)
        × (signed ≡ p.payload_hash ++ (c.version_bytes p.version ++ c.blake2b m))
  unfolding get_signable_data
  signable_parts p signed e = elim (Option-cases (c.metadata_bytes p.metadata)) [
    | inl lost ↦ absurd (ground (arith, lost, e))
    | inr (m, found) ↦ (m, found, ground (arith, found, e))
  ]

  pub payload_hash-eq :
      (p : UpdatePackage) → verify_payload_hash c p ≡ true → c.blake2b p.payload ≡ p.payload_hash
  unfolding verify_payload_hash
  payload_hash-eq p h = (bytes_beq_iff (c.blake2b p.payload) p.payload_hash).0 h

  module _ (digest : HashLength c.blake2b) where
    -- Two texts, each with a digest after it.
    texts_split :
        (a b m n : Bytes)
        → a ++ c.blake2b m ≡ b ++ c.blake2b n
        → (a ≡ b) × (c.blake2b m ≡ c.blake2b n)
    texts_split a b m n e =
        append-inj a (c.blake2b m) b (c.blake2b n)
          (omega (
            arith,
            ap length e,
            length-append {0} a (c.blake2b m),
            length-append {0} b (c.blake2b n),
            digest m,
            digest n,
          ))
          e

    -- Two packages whose payloads have the hashes that they name and whose signed data are
    -- equal have one payload, one text of the version and one text of the metadata, or else
    -- the hash, whose digests have one length, has a collision.
    pub signable_binds :
        (p q : UpdatePackage) (signed : Bytes)
        → verify_payload_hash c p ≡ true
        → verify_payload_hash c q ≡ true
        → get_signable_data c p ≡ ok signed
        → get_signable_data c q ≡ ok signed
        → ((p.payload ≡ q.payload)
            × (c.version_bytes p.version ≡ c.version_bytes q.version)
            × (c.metadata_bytes p.metadata ≡ c.metadata_bytes q.metadata))
          ⊎ Collision c.blake2b
    signable_binds p q signed hp hq sp sq =
        let (m, found_m, at_m) = signable_parts p signed sp in
        let (n, found_n, at_n) = signable_parts q signed sq in
        let ep = payload_hash-eq p hp in
        let eq = payload_hash-eq q hq in
        let outer =
          append-inj p.payload_hash (c.version_bytes p.version ++ c.blake2b m) q.payload_hash
            (c.version_bytes q.version ++ c.blake2b n)
            (rw (← ep, ← eq) (omega (arith, digest p.payload, digest q.payload)))
            (sym at_m ∙ at_n) in
        let inner =
          texts_split (c.version_bytes p.version) (c.version_bytes q.version) m n outer.1 in
        and_then (digest_inj c.blake2b p.payload q.payload (ap (take 32) (ep ∙ outer.0 ∙ sym eq)))
          λ same.
            and_then (digest_inj c.blake2b m n (ap (take 32) inner.1))
              λ alike. inl (same, inner.0, cc (found_m, found_n, alike))
