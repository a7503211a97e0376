-- ===== src/Attestation/Description/Hardware.antt =====
-- Which of the two authorization lists a policy that requires hardware reads.
use mtls_authentication_poc.Prelude.{
  ◌≡◌, refl, inl, inr, true, [], arith, ◌==◌, ℤ, ℤ_eq, Bytes, text_discrete, ℕ_eq, text_eq, ◌>>=◌,
  ◌>>◌, guard, Result-cases,
}
use mtls_authentication_poc.Platform.{Platform, RawValue}
use mtls_authentication_poc.Attestation.Types.{
  Decoders, KeyDescription, Policy, tag_os_version, tag_os_patch,
}
use mtls_authentication_poc.Attestation.Asn1.{find_int_tag}
use mtls_authentication_poc.Attestation.Description.{
  bad_os_version, bad_os_patch, relabel, verify_levels, root_of_trust, check_application_id,
  os_fallback, extract_os_info, verify_key_description, described, apply_root, challenge_mismatch,
}

-- A description with another software-enforced list.
abbrev pub with_software : KeyDescription → RawValue → KeyDescription
with_software kd raw = record kd { software_enforced = raw }

module _ (p : Platform) (d : Decoders) (policy : Policy) (kd : KeyDescription) (raw : RawValue)
    (hardware : policy.require_hardware_backed ≡ true) where
  root_of_trust-with_software :
      root_of_trust p d policy (with_software kd raw) ≡ root_of_trust p d policy kd
  unfolding root_of_trust
  root_of_trust-with_software = ground arith

  os_fallback-with_software :
      (tag value : ℤ) → os_fallback p d policy (with_software kd raw) tag value ≡ value
  unfolding os_fallback
  os_fallback-with_software tag value = ground arith

  pub os_fallback-hardware : (tag value : ℤ) → os_fallback p d policy kd tag value ≡ value
  unfolding os_fallback
  os_fallback-hardware tag value = ground arith

  extract_os_info-with_software :
      extract_os_info p d (with_software kd raw) policy ≡ extract_os_info p d kd policy
  unfolding extract_os_info
  extract_os_info-with_software =
      elim (Result-cases
        (relabel (find_int_tag p kd.tee_enforced.full_bytes tag_os_version) bad_os_version)) [
          | inr (x, e) ↦ rw e refl
          | inl (v, e) ↦
              elim (Result-cases
                (relabel (find_int_tag p kd.tee_enforced.full_bytes tag_os_patch) bad_os_patch)) [
                  | inr (x, f) ↦ rw (e, f) refl
                  | inl (w, f) ↦
                      rw
                        (
                          e,
                          f,
                          os_fallback-with_software tag_os_version v,
                          os_fallback-hardware tag_os_version v,
                          os_fallback-with_software tag_os_patch w,
                          os_fallback-hardware tag_os_patch w,
                        )
                        refl
                ]
        ]

  check_application_id-with_software :
      policy.expected_package_name ≡ []
      → check_application_id p d policy (with_software kd raw) ≡ check_application_id p d policy kd
  unfolding check_application_id text_eq text_discrete
  check_application_id-with_software unbound = rw unbound refl

  -- Under a policy that requires hardware and no package, the software-enforced list, which the
  -- operating system fills, has no effect: the verification of a key description is the same with any
  -- other such list.
  pub verify_key_description-with_software :
      (challenge : Bytes)
      → policy.expected_package_name ≡ []
      → verify_key_description p d policy (with_software kd raw) challenge
        ≡ verify_key_description p d policy kd challenge
  unfolding verify_key_description verify_levels
  verify_key_description-with_software challenge unbound = λ i.
      guard (kd.attestation_challenge == challenge) challenge_mismatch
      >> (verify_levels policy kd
          >> (root_of_trust-with_software i >>= λ rot.
              check_application_id-with_software unbound i
              >> (extract_os_info-with_software i >>= λ os.
                  apply_root policy (described p d kd os) rot)))
