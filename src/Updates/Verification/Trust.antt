-- ===== src/Updates/Verification/Trust.antt =====
-- crates/myriadmesh-updates/src/verification.rs: which packages pass the verification.
use mathlib.Core.Path.{subst}
use myriadmesh_server.Base.{
  ℕ, ◌+◌, ◌≤◌, ◌≡◌, ◌↔◌, refl, Bool, true, false, Option, none, some, ◌&&◌, List, [], ◌∷◌, arith,
  select, length, Bool-cases, inl, inr, replicate, length-select-le, Option-cases,
}
use myriadmesh_server.Base.Bytes.{Bytes}
use myriadmesh_server.Base.Double.{F64}
use myriadmesh_server.Base.Result.{ok, Result-cases, ok-injective}
use myriadmesh_server.Updates.Package.{
  Crypto, UpdatePackage, UpdateSignature, UpdateSource, official, peer_forwarded, get_signable_data,
  verify_payload_hash,
}
use myriadmesh_server.Updates.Verification.{
  SignatureVerifier, VerificationResult, Tally, verify_signature, verify_each, report,
  evaluate_source, evaluate_verification, verify_publisher_signature, verify_package,
  enough_signatures, has_sufficient_signatures, no_signatures, count_signature, has_trust,
}

module _ (c : Crypto) (v : SignatureVerifier) where
  -- the reputation of a node is known and reaches the minimum of the verifier
  abbrev pub is_reputable : Option F64 → Bool
  is_reputable none = false
  is_reputable (some reputation) = v.at_least_trusted reputation

  -- the key of a node is known, and the signature verifies under it
  abbrev pub verifies_under : Option Bytes → Bytes → Bytes → Bool
  verifies_under none signed signature = false
  verifies_under (some key) signed signature = c.verify_signature key signed signature

  -- the signature verifies under the key of its signer, whose reputation is high enough
  abbrev pub is_trusted : Bytes → UpdateSignature → Bool
  is_trusted signed info =
      verifies_under (v.public_key_provider info.signer) signed info.signature
      && is_reputable (v.reputation_provider info.signer)

  has_trust-is_reputable : (o : Option F64) → has_trust v o ≡ is_reputable o
  has_trust-is_reputable none = refl
  has_trust-is_reputable (some reputation) = refl

  trusted-verify_signature :
      (info : UpdateSignature) (signed : Bytes)
      → (verify_signature c v info signed).trusted ≡ is_trusted signed info
  unfolding verify_signature
  trusted-verify_signature info signed = elim (Option-cases (v.public_key_provider info.signer)) [
    | inl unknown ↦ rw unknown refl
    | inr (key, known) ↦
        ground (arith, known, has_trust-is_reputable (v.reputation_provider info.signer))
  ]

  abbrev pub trusted_number : Bytes → UpdatePackage → ℕ
  trusted_number signed p = length (select (is_trusted signed) p.signatures)

  -- What a source asks for, when a number of signatures are trusted.
  abbrev pub Approves : Bytes → ℕ → UpdateSource → Type 0
  Approves payload_hash n (official url published (some signature)) =
      (key : Bytes) × (v.publisher_public_key ≡ some key)
      × (c.verify_signature key payload_hash signature ≡ true)
  Approves payload_hash n (official url published none) = 3 ≤ n
  Approves payload_hash n (peer_forwarded origin nodes hops) = 3 ≤ n

  trusted_count-verify_each :
      (t : Tally) (infos : List UpdateSignature) (signed : Bytes)
      → (verify_each c v t infos signed).trusted_count
        ≡ t.trusted_count + length (select (is_trusted signed) infos)
  unfolding verify_each select
  trusted_count-verify_each t [] signed = omega arith
  trusted_count-verify_each t (info ∷ rest) signed = ground (
    arith,
    trusted-verify_signature info signed,
    trusted_count-verify_each (count_signature c v t info.signer (verify_signature c v info signed))
        rest signed,
  )

  trusted_count_from_none :
      (infos : List UpdateSignature) (signed : Bytes)
      → (verify_each c v no_signatures infos signed).trusted_count
        ≡ length (select (is_trusted signed) infos)
  trusted_count_from_none infos signed =
      omega (arith, trusted_count-verify_each no_signatures infos signed)

  Approves-iff :
      (payload_hash : Bytes) (n : ℕ) (s : UpdateSource)
      → ((evaluate_source c v s payload_hash n).0 ≡ true) ↔ Approves payload_hash n s
  unfolding evaluate_source verify_publisher_signature
  Approves-iff payload_hash n (official url published (some signature)) =
      elim (Option-cases v.publisher_public_key) [
        | inl absent ↦ rw absent (λ h. cc, λ h. cc (h.1))
        | inr (key, set) ↦
            rw set (λ h. (key, refl, ground (arith, h)), λ h. ground (arith, h.1, h.2))
      ]
  Approves-iff payload_hash n (official url published none) = ground arith
  Approves-iff payload_hash n (peer_forwarded origin nodes hops) = ground arith

  report-passed :
      (p : UpdatePackage) (signed : Bytes)
      → ((report c v p signed).passed ≡ true)
        ↔ Approves p.payload_hash (trusted_number signed p) p.source
  unfolding report evaluate_verification
  report-passed p signed =
      rw (trusted_count_from_none p.signatures signed)
        (Approves-iff p.payload_hash (trusted_number signed p) p.source)

  -- The outcome, of a package whose payload has the hash that it names.
  abbrev pub Passes : UpdatePackage → Type 0
  Passes p = (r : VerificationResult) × (verify_package c v p ≡ ok r) × (r.passed ≡ true)

  -- A package passes the verification exactly when its payload has the hash that it names, its
  -- signed data can be written, and its source is approved of: an official release with a
  -- signature by the signature of the publisher, which verifies the hash under the known key,
  -- and any other package by three trusted signatures at least. A signature is trusted if the
  -- key of its signer is known and verifies it over the signed data, and the reputation that
  -- is known of the signer reaches the minimum.
  pub verify_package_iff :
      (p : UpdatePackage)
      → Passes p ↔ (
          (verify_payload_hash c p ≡ true)
          × ((signed : Bytes) × (get_signable_data c p ≡ ok signed)
              × Approves p.payload_hash (trusted_number signed p) p.source))
  unfolding verify_package
  verify_package_iff p = elim (Bool-cases (verify_payload_hash c p)) [
    | inr other ↦ rw other (λ h. cc (h.1), λ h. cc (h.0))
    | inl same ↦ elim (Result-cases (get_signable_data c p)) [
      | inr (why, lost) ↦ rw (same, lost) (λ h. cc (h.1), λ h. cc (h.1.1))
      | inl (signed, got) ↦
          rw (same, got)
            (
              λ h. (refl, (signed, refl, (report-passed p signed).0 (cc (h.1, h.2)))),
              λ h. (
                report c v p signed,
                refl,
                (report-passed p signed).1 (
                    subst (λ x. Approves p.payload_hash (trusted_number x p) p.source)
                      (ok-injective _ _ _ h.1.1 refl) h.1.2),
              ),
            )
    ]
  ]

  enough_of_Approves :
      (payload_hash : Bytes) (n k : ℕ) (s : UpdateSource)
      → Approves payload_hash n s
      → n ≤ k
      → enough_signatures s k ≡ true
  unfolding enough_signatures
  enough_of_Approves payload_hash n k (official url published (some signature)) a below = refl
  enough_of_Approves payload_hash n k (official url published none) a below = ground arith
  enough_of_Approves payload_hash n k (peer_forwarded origin nodes hops) a below = ground arith

  pub passed_has_sufficient_signatures :
      (p : UpdatePackage) → Passes p → has_sufficient_signatures p ≡ true
  unfolding has_sufficient_signatures
  passed_has_sufficient_signatures p h =
      let (signed, got, approved) = ((verify_package_iff p).0 h).1 in
      enough_of_Approves p.payload_hash (trusted_number signed p) (length p.signatures) p.source
        approved (length-select-le (is_trusted signed) p.signatures)

  -- A forwarded package with three copies of one trusted signature passes the verification, if
  -- its payload has the hash that it names and its signed data can be written.
  pub one_signer-Passes :
      (p : UpdatePackage) (origin : Bytes) (nodes : List Bytes) (hops : ℕ) (s : UpdateSignature)
      → p.source ≡ peer_forwarded origin nodes hops
      → verify_payload_hash c p ≡ true
      → (signed : Bytes) → get_signable_data c p ≡ ok signed
      → is_trusted signed s ≡ true
      → p.signatures ≡ replicate 3 s
      → Passes p
  unfolding select
  one_signer-Passes p origin nodes hops s forwarded same signed got trusted thrice =
      (verify_package_iff p).1
        (same, (signed, got, rw forwarded (rw thrice (rw trusted (omega arith)))))
