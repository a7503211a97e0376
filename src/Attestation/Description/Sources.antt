-- ===== src/Attestation/Description/Sources.antt =====
-- From which of its two lists `VerifyAttestation` reads the parts of a key description.
use mtls_authentication_poc.Prelude.{
  ◌≡◌, refl, ap, ◌∙◌, subst, ◌⊎◌, inl, inr, false, Option, some, ◌==◌, Bool-cases, Option-cases,
  eq_of_==, Result-cases, ℤ, pos, ℤ_eq, ℕ_eq, text_eq, Result, ok, err, >>=-eq-ok, ok-injective,
}
use mtls_authentication_poc.Platform.{Platform, RawValue}
use mtls_authentication_poc.Attestation.Types.{
  Decoders, RootOfTrust, KeyDescription, Policy, tag_attestation_application_id,
}
use mtls_authentication_poc.Attestation.Asn1.{
  Asn1Error, find_tagged, find_int_tag, find_root_of_trust,
}
use mtls_authentication_poc.Attestation.Asn1.Elements.{
  Element, Absent, Reads, Roots, find_tagged-Element, find_tagged-Absent, find_int_tag-Reads,
  find_root_of_trust-Roots, find_root_of_trust-Absent,
}
use mtls_authentication_poc.Attestation.Description.{
  VerifyError, relabel, root_of_trust, application_id, os_fallback,
}

pub relabel-eq-ok {ℓ} :
    {A : Type ℓ} (m : Result Asn1Error A) (e : VerifyError) {a : A} → relabel m e ≡ ok a → m ≡ ok a
relabel-eq-ok (ok b) e h = cc
relabel-eq-ok (err _) e h = cc

module _ (p : Platform) (d : Decoders) where
  -- The root of trust is the TEE-enforced one, or the software-enforced one where there is no
  -- TEE-enforced one and the policy requires no hardware.
  abbrev pub IsRoot : Policy → KeyDescription → RootOfTrust → Type 0
  IsRoot policy kd rot =
      Roots p d kd.tee_enforced.full_bytes rot
      ⊎ ((policy.require_hardware_backed ≡ false)
          × Absent p kd.tee_enforced.full_bytes (pos 704)
          × Roots p d kd.software_enforced.full_bytes rot)

  -- The same of the integer at a tag, where 0 counts as none.
  abbrev pub IsValue : Policy → KeyDescription → ℤ → ℤ → Type 0
  IsValue policy kd tag value =
      Reads p kd.tee_enforced.full_bytes tag value
      ⊎ ((policy.require_hardware_backed ≡ false)
          × Reads p kd.tee_enforced.full_bytes tag (pos 0)
          × Reads p kd.software_enforced.full_bytes tag value)

  -- The application identifier is the TEE-enforced one, or else the software-enforced one.
  abbrev pub IsIdentifier : KeyDescription → RawValue → Type 0
  IsIdentifier kd raw =
      Element p kd.tee_enforced.full_bytes (pos 709) raw
      ⊎ (Absent p kd.tee_enforced.full_bytes (pos 709)
          × Element p kd.software_enforced.full_bytes (pos 709) raw)

  pub root_of_trust-IsRoot :
      (policy : Policy) (kd : KeyDescription) (rot : RootOfTrust)
      → root_of_trust p d policy kd ≡ ok (some rot)
      → IsRoot policy kd rot
  unfolding root_of_trust
  root_of_trust-IsRoot policy kd rot h =
      let (found, e, h1) =
        >>=-eq-ok (relabel (find_root_of_trust p d kd.tee_enforced.full_bytes) _) _ h in
      let tee = relabel-eq-ok _ _ e in
      elim (Option-cases found) [
        | inr (r, there) ↦ inl (
            find_root_of_trust-Roots p d _ rot
              (tee ∙ (ap ok there ∙ ok-some r rot (rw there at h1))))
        | inl nothing ↦ elim (Bool-cases policy.require_hardware_backed) [
          | inl hardware ↦ cc (rw (nothing, hardware) at h1)
          | inr lenient ↦ inr (
            lenient,
            find_root_of_trust-Absent p d _ (tee ∙ ap ok nothing),
            find_root_of_trust-Roots p d _ rot (relabel-eq-ok _ _ (rw (nothing, lenient) at h1)),
          )
        ]
      ]
    where
      ok-some :
          (r s : RootOfTrust)
          → ◌≡◌ {A = Result VerifyError (Option RootOfTrust)} (ok (some r)) (ok (some s))
          → ◌≡◌ {A = Result Asn1Error (Option RootOfTrust)} (ok (some r)) (ok (some s))
      ok-some r s same = ap ok (ok-injective _ _ same)

  pub application_id-IsIdentifier :
      (kd : KeyDescription) (raw : RawValue)
      → application_id p d kd ≡ ok (some raw)
      → IsIdentifier kd raw
  unfolding application_id
  application_id-IsIdentifier kd raw h =
      let (found, e, h1) =
        >>=-eq-ok
          (relabel (find_tagged p kd.tee_enforced.full_bytes tag_attestation_application_id) _) _
          h in
      let tee = relabel-eq-ok _ _ e in
      elim (Option-cases found) [
        | inr (r, there) ↦ inl (
            find_tagged-Element p _ _ raw
              (tee ∙ (ap ok there ∙ ap ok (ok-injective _ _ (rw there at h1)))))
        | inl nothing ↦ inr (
          find_tagged-Absent p _ _ (tee ∙ ap ok nothing),
          find_tagged-Element p _ _ raw (relabel-eq-ok _ _ (rw nothing at h1)),
        )
      ]

  pub os_fallback-IsValue :
      (policy : Policy) (kd : KeyDescription) (tag value : ℤ)
      → find_int_tag p kd.tee_enforced.full_bytes tag ≡ ok value
      → IsValue policy kd tag (os_fallback p d policy kd tag value)
  unfolding os_fallback
  os_fallback-IsValue policy kd tag value h =
      let read = find_int_tag-Reads p _ tag value h in
      elim (Bool-cases (value == pos 0)) [
        | inr other ↦ rw other (inl read)
        | inl zero ↦ elim (Bool-cases policy.require_hardware_backed) [
          | inl hardware ↦ rw (zero, hardware) (inl read)
          | inr lenient ↦ elim (Result-cases (find_int_tag p kd.software_enforced.full_bytes tag)) [
            | inl (v, e) ↦
                rw (zero, lenient, e)
                  (inr (
                    refl,
                    subst (Reads p kd.tee_enforced.full_bytes tag) (eq_of_== value _ zero) read,
                    find_int_tag-Reads p _ tag v e,
                  ))
            | inr (x, e) ↦ rw (zero, lenient, e) (inl read)
          ]
        ]
      ]
