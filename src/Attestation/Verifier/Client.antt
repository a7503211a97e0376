-- ===== src/Attestation/Verifier/Client.antt =====
-- A verifier never loses its revocation client.
use mtls_authentication_poc.Prelude.{
  ℕ, ◌≡◌, refl, inl, inr, not, ◌&&◌, Option, some, List, [], ◌∷◌, ltb, Bool-cases, Result-cases,
  ℤ_eq, length, Bytes, ℕ_eq, text_eq,
}
use mtls_authentication_poc.Platform.{Platform, Certificate}
use mtls_authentication_poc.Attestation.Types.{Decoders}
use mtls_authentication_poc.Attestation.Revocation.{RevocationStatusClient, Call}
use mtls_authentication_poc.Attestation.Verifier.{
  Verifier, World, max_chain_certificates, parse_chain, check_revocations, consult_revocations,
  verify_certificates, verify_attestation,
}

-- There is a client.
abbrev pub HasClient : Option RevocationStatusClient → Type 0
HasClient o = (c : RevocationStatusClient) × (o ≡ some c)

module _ (p : Platform) (d : Decoders) where
  consult_revocations-HasClient :
      (calls : ℕ → Call) (v : Verifier p) (certs : List (Certificate p.Key))
      → HasClient v.revocations
      → HasClient (consult_revocations p d calls v certs).0
  unfolding consult_revocations
  consult_revocations-HasClient calls v certs (c, e) =
      elim (Bool-cases v.policy.check_revocation_list) [
        | inl on ↦ rw (e, on) ((check_revocations p d calls 0 certs c).0, refl)
        | inr off ↦ rw (e, off) (c, refl)
      ]

  verify_certificates-HasClient :
      (w : World) (v : Verifier p) (certs : List (Certificate p.Key)) (challenge : Bytes)
      (key : Option p.Key)
      → HasClient v.revocations
      → HasClient (verify_certificates p d w v certs challenge key).0
  verify_certificates-HasClient w v [] challenge key has = has
  verify_certificates-HasClient w v (leaf ∷ intermediates) challenge key has =
      consult_revocations-HasClient w.calls v (leaf ∷ intermediates) has

  -- A verifier with a client has one after a verification, whatever its outcome.
  pub verify_attestation-HasClient :
      (w : World) (v : Verifier p) (chain : List Bytes) (challenge : Bytes) (key : Option p.Key)
      → HasClient v.revocations
      → HasClient (verify_attestation p d w v chain challenge key).0
  unfolding verify_attestation
  verify_attestation-HasClient w v [] challenge key has = has
  verify_attestation-HasClient w v (der ∷ ders) challenge key has =
      elim (Bool-cases (ltb (length (der ∷ ders)) 2 && not v.policy.allow_empty_attestation)) [
        | inl short ↦ rw short has
        | inr enough ↦ elim (Bool-cases (ltb max_chain_certificates (length (der ∷ ders)))) [
          | inl long ↦ rw (enough, long) has
          | inr bounded ↦ elim (Result-cases (parse_chain p d 0 (der ∷ ders))) [
            | inl (certs, e) ↦
                rw (enough, bounded, e) (verify_certificates-HasClient w v certs challenge key has)
            | inr (x, e) ↦ rw (enough, bounded, e) has
          ]
        ]
      ]
