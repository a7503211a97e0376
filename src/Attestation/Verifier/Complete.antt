-- ===== src/Attestation/Verifier/Complete.antt =====
-- Which attestation chains `VerifyAttestation` is bound to accept.
use mtls_authentication_poc.Prelude.{
  ℕ, suc, ◌≤◌, ◌≡◌, refl, inl, inr, Bool, true, false, not, ◌&&◌, ◌||◌, some, List, [], ◌∷◌, arith,
  ltb, Option-cases, ==_refl, ℤ, ℤ_eq, length, Bytes, ℕ_eq, text_eq, ok,
}
use mtls_authentication_poc.Platform.{Platform, Certificate}
use mtls_authentication_poc.Attestation.Types.{Decoders, RootOfTrust, KeyDescription}
use mtls_authentication_poc.Attestation.Description.Complete.{
  IsAcceptable, accepted_record, verify_key_description_complete,
}
use mtls_authentication_poc.Attestation.Revocation.{RevocationStatusClient, Call, is_key_revoked}
use mtls_authentication_poc.Attestation.Verifier.{
  Verifier, World, max_chain_certificates, find_extension, parse_chain, check_revocations,
  consult_revocations, match_csr_key, verify_extension, verify_leaf, verify_attestation,
}
use mtls_authentication_poc.Attestation.Verifier.Soundness.{AllClear, ClearFor, SameKey}

or_true : (a b : Bool) → b ≡ true → (a || b) ≡ true
or_true a b h = ground arith

module _ (p : Platform) (d : Decoders) where
  -- A chain of bounded length to a root, with no revoked certificate, whose leaf has the key and an
  -- acceptable key description.
  pub record IsGenuineChain (w : World) (v : Verifier p) (chain : List Bytes) (challenge : Bytes)
      (key : p.Key) (kd : KeyDescription) (rot : RootOfTrust) (os : ℤ × ℤ) : Type 0 where
    pub leaf : Certificate p.Key
    pub intermediates : List (Certificate p.Key)
    pub parsed : parse_chain p d 0 chain ≡ ok (leaf ∷ intermediates)
    pub long : 2 ≤ length chain
    pub short : length chain ≤ max_chain_certificates
    pub unrevoked : ClearFor p d w.calls (leaf ∷ intermediates) v.revocations
    pub rooted : p.verify_chain w.verified_at v.root_pool intermediates leaf ≡ true
    pub same_key : SameKey p d leaf key
    pub first : ℕ
    pub rest : Bytes
    pub found : find_extension leaf.extensions ≡ some (first ∷ rest)
    pub decoded : d.key_description (first ∷ rest) ≡ some kd
    pub acceptable : IsAcceptable p d v.policy kd challenge rot os

  check_revocations_clear :
      (calls : ℕ → Call) (i : ℕ) (certs : List (Certificate p.Key)) (c : RevocationStatusClient)
      → AllClear p d calls i certs c
      → (check_revocations p d calls i certs c).1 ≡ ok tt
  unfolding check_revocations
  check_revocations_clear calls i [] c h = refl
  check_revocations_clear calls i (cert ∷ certs) c (first, rest) = ground (
    arith,
    check_revocations_clear calls (suc i) certs (is_key_revoked p cert.public_key (calls i) c).0
        rest,
  )

  consult_revocations_clear :
      (calls : ℕ → Call) (v : Verifier p) (certs : List (Certificate p.Key))
      → ClearFor p d calls certs v.revocations
      → (consult_revocations p d calls v certs).1 ≡ ok tt
  unfolding consult_revocations
  consult_revocations_clear calls v certs h = elim (Option-cases v.revocations) [
    | inl e ↦ ground arith
    | inr (c, e) ↦ ground (arith, check_revocations_clear calls 0 certs c (rw e at h))
  ]

  match_csr_key_same :
      (leaf : Certificate p.Key) (key : p.Key)
      → SameKey p d leaf key
      → match_csr_key p d leaf (some key) ≡ ok tt
  unfolding match_csr_key
  match_csr_key_same leaf key k = rw (k.leaf_der, k.csr_der, ==_refl k.der) refl

  module _ (w : World) (v : Verifier p) (challenge : Bytes) (key : p.Key) (kd : KeyDescription)
      (rot : RootOfTrust) (os : ℤ × ℤ) (hardware : v.policy.require_hardware_backed ≡ true) where
    verify_leaf_genuine :
        (chain : List Bytes) (g : IsGenuineChain w v chain challenge key kd rot os)
        → verify_leaf p d w.verified_at v g.leaf g.intermediates challenge (some key)
          ≡ ok (accepted_record kd rot os)
    unfolding verify_leaf verify_extension
    verify_leaf_genuine chain g =
        rw
          (
            or_true v.policy.skip_chain_validation _ g.rooted,
            match_csr_key_same g.leaf key g.same_key,
            g.found,
            verify_extension,
            g.decoded,
          )
          (verify_key_description_complete p d v.policy kd challenge rot os hardware g.acceptable)

  -- Under a policy that requires hardware, a genuine chain is accepted: `VerifyAttestation` returns
  -- the record of its key description.
  pub verify_attestation_complete :
      (w : World) (v : Verifier p) (chain : List Bytes) (challenge : Bytes) (key : p.Key)
      (kd : KeyDescription) (rot : RootOfTrust) (os : ℤ × ℤ)
      → v.policy.require_hardware_backed ≡ true
      → IsGenuineChain w v chain challenge key kd rot os
      → (verify_attestation p d w v chain challenge (some key)).1 ≡ ok (accepted_record kd rot os)
  unfolding verify_attestation
  verify_attestation_complete w v [] challenge key kd rot os hardware g =
      absurd (omega (arith, g.long))
  verify_attestation_complete w v (der ∷ ders) challenge key kd rot os hardware g =
      let long : (ltb (length (der ∷ ders)) 2 && not v.policy.allow_empty_attestation) ≡ false =
        ground (arith, g.long) in
      let short : ltb max_chain_certificates (length (der ∷ ders)) ≡ false =
        ground (arith, g.short) in
      rw
        (
          long,
          short,
          g.parsed,
          consult_revocations_clear w.calls v (g.leaf ∷ g.intermediates) g.unrevoked,
        )
        (verify_leaf_genuine w v challenge key kd rot os hardware (der ∷ ders) g)
