-- ===== src/Attestation/Description/Complete.antt =====
-- Which key descriptions `VerifyAttestation` is bound to accept.
use mtls_authentication_poc.Prelude.{
  ◌≡◌, refl, ◌⊎◌, inl, inr, true, some, List, [], ◌∷◌, arith, ◌==◌, Required, ℤ, pos, ℤ_eq, ◌≤ℤ◌,
  ltb_ℤ, Bytes, Text, ℕ_eq, text_eq, ok,
}
use mtls_authentication_poc.Platform.{Platform}
use mtls_authentication_poc.Attestation.Types.{
  Decoders, RootOfTrust, KeyDescription, AttestationRecord, PackageInfo, Policy, verified,
  tag_os_version, tag_os_patch,
}
use mtls_authentication_poc.Attestation.Asn1.{find_int_tag, find_root_of_trust}
use mtls_authentication_poc.Attestation.Description.{
  VerifyError, relabel, lists_package, described, verify_levels, root_of_trust,
  check_application_id, extract_os_info, apply_root, verify_key_description, enforce_minimum,
  verify_application_id,
}
use mtls_authentication_poc.Attestation.Description.Steps.{IsHardware, Lists, IsBound}
use mtls_authentication_poc.Attestation.Description.Hardware.{os_fallback-hardware}

Lists-lists_package :
    (name : Text) (pkgs : List PackageInfo) → Lists name pkgs → lists_package name pkgs ≡ true
Lists-lists_package name [] h = absurd h
Lists-lists_package name (pkg ∷ pkgs) (inl e) = ground arith
Lists-lists_package name (pkg ∷ pkgs) (inr h) = ground (arith, Lists-lists_package name pkgs h)

enforce_minimum_ok :
    (minimum value : ℤ) (missing low : VerifyError)
    → Required (ltb_ℤ (pos 0) minimum) (minimum ≤ℤ value)
    → enforce_minimum minimum value missing low ≡ ok tt
unfolding enforce_minimum
enforce_minimum_ok minimum value missing low (inl off) = rw off
enforce_minimum_ok minimum value missing low (inr le) = ground arith

-- The record of a description, with the root of trust and the versions that were read from it.
abbrev pub accepted_record : KeyDescription → RootOfTrust → ℤ × ℤ → AttestationRecord
accepted_record kd rot os = record {
  attestation_version = kd.attestation_version;
  attestation_security_level = kd.attestation_security_level;
  keymaster_version = kd.keymaster_version;
  keymaster_security_level = kd.keymaster_security_level;
  attestation_challenge = kd.attestation_challenge;
  device_locked = rot.device_locked;
  verified_boot_state = rot.verified_boot_state;
  verified_boot_key = rot.verified_boot_key;
  os_version = os.0;
  os_patch_level = os.1;
}

module _ (p : Platform) (d : Decoders) where
  -- A description of a locked device with a verified boot, from hardware, with the expected package
  -- and versions that are recent enough, all but the package read from the TEE-enforced list.
  pub record IsAcceptable (policy : Policy) (kd : KeyDescription) (challenge : Bytes)
      (rot : RootOfTrust) (os : ℤ × ℤ) : Type 0 where
    pub fresh : kd.attestation_challenge ≡ challenge
    pub attested : IsHardware kd.attestation_security_level
    pub guarded : IsHardware kd.keymaster_security_level
    pub rooted : find_root_of_trust p d kd.tee_enforced.full_bytes ≡ ok (some rot)
    pub locked : rot.device_locked ≡ true
    pub boot : rot.verified_boot_state ≡ verified
    pub bound : (policy.expected_package_name ≡ []) ⊎ IsBound p d kd policy.expected_package_name
    pub version : find_int_tag p kd.tee_enforced.full_bytes tag_os_version ≡ ok os.0
    pub patch : find_int_tag p kd.tee_enforced.full_bytes tag_os_patch ≡ ok os.1
    pub new_version : Required (ltb_ℤ (pos 0) policy.min_os_version) (policy.min_os_version ≤ℤ os.0)
    pub new_patch : Required (ltb_ℤ (pos 0) policy.min_patch_level) (policy.min_patch_level ≤ℤ os.1)

  verify_application_id-bound :
      (kd : KeyDescription) (expected : Text)
      → IsBound p d kd expected
      → verify_application_id p d kd expected ≡ ok tt
  unfolding verify_application_id
  verify_application_id-bound kd expected b =
      rw (b.found, b.parsed, relabel, Lists-lists_package expected b.packages b.listed) refl

  module _ (policy : Policy) (kd : KeyDescription) (challenge : Bytes) (rot : RootOfTrust)
      (os : ℤ × ℤ) (a : IsAcceptable policy kd challenge rot os) where
    fresh_ok : (kd.attestation_challenge == challenge) ≡ true
    fresh_ok = ground (arith, a.fresh)

    levels_ok : verify_levels policy kd ≡ ok tt
    unfolding verify_levels
    levels_ok = ground (arith, a.attested, a.guarded)

    rooted_ok : root_of_trust p d policy kd ≡ ok (some rot)
    unfolding root_of_trust
    rooted_ok = rw (a.rooted, relabel) refl

    bound_ok : check_application_id p d policy kd ≡ ok tt
    unfolding check_application_id
    bound_ok = elim a.bound [
      | inl e ↦ ground arith
      | inr b ↦ ground (arith, verify_application_id-bound kd policy.expected_package_name b)
    ]

    os_ok : policy.require_hardware_backed ≡ true → extract_os_info p d kd policy ≡ ok os
    unfolding extract_os_info
    os_ok hardware =
        rw
          (
            a.version,
            a.patch,
            relabel,
            os_fallback-hardware p d policy kd kd.tee_enforced hardware tag_os_version os.0,
            os_fallback-hardware p d policy kd kd.tee_enforced hardware tag_os_patch os.1,
            enforce_minimum_ok policy.min_os_version os.0 _ _ a.new_version,
            enforce_minimum_ok policy.min_patch_level os.1 _ _ a.new_patch,
          )
          refl

    applied_ok : apply_root policy (described p d kd os) (some rot) ≡ ok (accepted_record kd rot os)
    unfolding apply_root
    applied_ok = ground (arith, a.locked, a.boot)

  -- Under a policy that requires hardware, a key description of a locked device with verified boot
  -- from hardware is accepted, if it holds the challenge, the package that is expected and versions
  -- that are recent enough; the record has its levels, its root of trust and its versions.
  pub verify_key_description_complete :
      (policy : Policy) (kd : KeyDescription) (challenge : Bytes) (rot : RootOfTrust) (os : ℤ × ℤ)
      → policy.require_hardware_backed ≡ true
      → IsAcceptable policy kd challenge rot os
      → verify_key_description p d policy kd challenge ≡ ok (accepted_record kd rot os)
  unfolding verify_key_description
  verify_key_description_complete policy kd challenge rot os hardware a =
      rw
        (
          fresh_ok policy kd challenge rot os a,
          levels_ok policy kd challenge rot os a,
          rooted_ok policy kd challenge rot os a,
          bound_ok policy kd challenge rot os a,
          os_ok policy kd challenge rot os a hardware,
        )
        (applied_ok policy kd challenge rot os a)
