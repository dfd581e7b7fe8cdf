-- ===== src/Updates/Verification/Retarget.antt =====
-- crates/myriadmesh-updates/src/verification.rs: what the signatures of a package leave open.
use mathlib.Core.Path.{subst}
use myriadmesh_server.Base.{ℕ, ◌++◌, ◌≡◌, refl, sym, some, String}
use myriadmesh_server.Base.Bytes.{Bytes}
use myriadmesh_server.Ledger.Entry.{AdapterType, Signature}
use myriadmesh_server.Updates.Package.{
  Crypto, UpdatePackage, UpdateSource, official, get_signable_data, verify_payload_hash,
}
use myriadmesh_server.Updates.Verification.{SignatureVerifier, verify_package}
use myriadmesh_server.Updates.Verification.Trust.{Passes, Approves, verify_package_iff}

module _ (c : Crypto) (v : SignatureVerifier) where
  -- The adapter of a package is not among what is signed.
  pub verify_package-adapter :
      (p : UpdatePackage) (adapter : AdapterType)
      → verify_package c v (record p { adapter_type = adapter }) ≡ verify_package c v p
  unfolding verify_package verify_payload_hash get_signable_data
  verify_package-adapter p adapter = refl

  -- An approval by the publisher does not depend on the signatures of peers.
  official_approval :
      (payload_hash : Bytes) (n k : ℕ) (s : UpdateSource) (url : String) (published : ℕ)
      (signature : Signature)
      → s ≡ official url published (some signature)
      → Approves c v payload_hash n s
      → Approves c v payload_hash k s
  official_approval payload_hash n k s url published signature e a =
      subst (Approves c v payload_hash k) (sym e) (subst (Approves c v payload_hash n) e a)

  -- When an official release with a signature of the publisher passes the verification, so
  -- does every package with its source, its payload and its hash, whatever its adapter, its
  -- version and its signatures are and whatever its metadata, if these can be serialised.
  pub repackaged_release-Passes :
      (p q : UpdatePackage) (url : String) (published : ℕ) (signature : Signature)
      → p.source ≡ official url published (some signature)
      → Passes c v p
      → q.source ≡ p.source
      → q.payload ≡ p.payload
      → q.payload_hash ≡ p.payload_hash
      → (bytes : Bytes) → c.metadata_bytes q.metadata ≡ some bytes
      → Passes c v q
  unfolding get_signable_data verify_payload_hash
  repackaged_release-Passes p q url published signature from passes source payload hash bytes m =
      let (same, rest) = (verify_package_iff c v p).0 passes in
      (verify_package_iff c v q).1 (
        rw (payload, hash) same,
        (
          q.payload_hash ++ (c.version_bytes q.version ++ c.blake2b bytes),
          rw m refl,
          rw (hash, source) (official_approval _ _ _ p.source url published signature from rest.2),
        ),
      )
