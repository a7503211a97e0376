-- ===== src/Attestation/Description/Spec.antt =====
-- What an accepted key description satisfies: the policy of `VerifyAttestation`, said of the values and
-- not by the code's tests.
use mtls_authentication_poc.Prelude.{
  ◌≡◌, ap, ◌∙◌, subst, ◌≢◌, ◌⊎◌, inl, inr, true, false, Option-cases, List, [], arith, Required,
  required, ℤ, pos, ℤ_eq, ◌≤ℤ◌, ◌<ℤ◌, ltb_ℤ, Bytes, Text, text_discrete, ℕ_eq, text_eq, ok,
  >>=-eq-ok, >>-eq-ok, ok-injective,
}
use mtls_authentication_poc.Platform.{Platform, RawValue}
use mtls_authentication_poc.Attestation.Types.{
  Decoders, RootOfTrust, KeyDescription, AttestationRecord, PackageInfo, Policy, verified,
  tag_os_version, tag_os_patch,
}
use mtls_authentication_poc.Attestation.Asn1.{find_int_tag}
use mtls_authentication_poc.Attestation.Asn1.Elements.{
  Packages, parse_attestation_application_id-Packages,
}
use mtls_authentication_poc.Attestation.Description.Sources.{
  relabel-eq-ok, IsRoot, IsValue, IsIdentifier, root_of_trust-IsRoot, application_id-IsIdentifier,
  os_fallback-IsValue,
}
use mtls_authentication_poc.Attestation.Description.{
  VerifyError, relabel, verify_levels, check_application_id, extract_os_info, apply_root,
  verify_key_description, enforce_minimum,
}
use mtls_authentication_poc.Attestation.Description.Steps.{
  IsHardware, Lists, Steps, verify_key_description-Steps, IsBound, verify_application_id-IsBound,
}

positive : (z : ℤ) → ltb_ℤ (pos 0) z ≡ true → pos 0 <ℤ z
positive z h = ground arith

enforce_minimum_bound :
    (minimum value : ℤ) (missing low : VerifyError)
    → enforce_minimum minimum value missing low ≡ ok tt
    → pos 0 <ℤ minimum
    → minimum ≤ℤ value
unfolding enforce_minimum
enforce_minimum_bound minimum value missing low h lt = ground arith

module _ (p : Platform) (d : Decoders) where
  -- An application identifier of the description lists the expected package.
  pub record IsNamed (kd : KeyDescription) (expected : Text) : Type 0 where
    pub raw : RawValue
    pub found : IsIdentifier p d kd raw
    pub packages : List PackageInfo
    pub parsed : Packages p d raw.bytes packages
    pub listed : Lists expected packages

  IsBound-IsNamed :
      (kd : KeyDescription) (expected : Text) → IsBound p d kd expected → IsNamed kd expected
  IsBound-IsNamed kd expected b = record {
    raw = b.raw;
    found = application_id-IsIdentifier p d kd b.raw b.found;
    packages = b.packages;
    parsed = parse_attestation_application_id-Packages p d b.raw.bytes b.packages b.parsed;
    listed = b.listed;
  }

  -- The description's root of trust, which meets the policy and which the record repeats.
  pub record IsRooted (policy : Policy) (kd : KeyDescription) (r : AttestationRecord) : Type 0 where
    pub rot : RootOfTrust
    pub read : IsRoot p d policy kd rot
    pub locked : Required policy.require_device_locked (rot.device_locked ≡ true)
    pub boot : Required policy.require_verified_boot (rot.verified_boot_state ≡ verified)
    pub reported :
        (r.device_locked ≡ rot.device_locked)
        × (r.verified_boot_state ≡ rot.verified_boot_state)
        × (r.verified_boot_key ≡ rot.verified_boot_key)

  pub record Conforms (policy : Policy) (kd : KeyDescription) (challenge : Bytes)
      (r : AttestationRecord) : Type 0 where
    pub fresh : kd.attestation_challenge ≡ challenge
    pub hardware :
        Required policy.require_hardware_backed
          (IsHardware kd.attestation_security_level × IsHardware kd.keymaster_security_level)
    pub levels :
        (r.attestation_security_level ≡ kd.attestation_security_level)
        × (r.keymaster_security_level ≡ kd.keymaster_security_level)
    pub named : (policy.expected_package_name ≡ []) ⊎ IsNamed kd policy.expected_package_name
    pub rooted :
        IsRooted policy kd r
        ⊎ ((policy.require_device_locked ≡ false) × (policy.require_verified_boot ≡ false))
    pub os_version :
        IsValue p d policy kd (pos 705) r.os_version
        × Required (ltb_ℤ (pos 0) policy.min_os_version) (policy.min_os_version ≤ℤ r.os_version)
    pub os_patch :
        IsValue p d policy kd (pos 706) r.os_patch_level
        × Required
            (ltb_ℤ (pos 0) policy.min_patch_level)
            (policy.min_patch_level ≤ℤ r.os_patch_level)

  module _ {policy : Policy} {kd : KeyDescription} {challenge : Bytes} {r : AttestationRecord}
      (s : Steps p d policy kd challenge r) where
    Steps-IsHardware :
        policy.require_hardware_backed ≡ true
        → IsHardware kd.attestation_security_level × IsHardware kd.keymaster_security_level
    unfolding verify_levels
    Steps-IsHardware h = ground (arith, s.levels)

    Steps-IsBound : policy.expected_package_name ≢ [] → IsBound p d kd policy.expected_package_name
    unfolding check_application_id
    Steps-IsBound h =
        verify_application_id-IsBound p d kd policy.expected_package_name (ground (arith, s.bound))

    Steps-os :
        (IsValue p d policy kd (pos 705) s.os.0 × IsValue p d policy kd (pos 706) s.os.1)
        × (pos 0 <ℤ policy.min_os_version → policy.min_os_version ≤ℤ s.os.0)
        × (pos 0 <ℤ policy.min_patch_level → policy.min_patch_level ≤ℤ s.os.1)
    unfolding extract_os_info
    Steps-os =
        let (v, e, h1) =
          >>=-eq-ok (relabel (find_int_tag p kd.tee_enforced.full_bytes tag_os_version) _) _
            s.dated in
        let (w, f, h2) =
          >>=-eq-ok (relabel (find_int_tag p kd.tee_enforced.full_bytes tag_os_patch) _) _ h1 in
        let (version, h3) = >>-eq-ok (enforce_minimum policy.min_os_version _ _ _) _ h2 in
        let (patch, same) = >>-eq-ok (enforce_minimum policy.min_patch_level _ _ _) _ h3 in
        let os = ok-injective _ _ same in
        (
          (
            subst (λ (o : ℤ × ℤ). IsValue p d policy kd (pos 705) o.0) os
                (os_fallback-IsValue p d policy kd tag_os_version v (relabel-eq-ok _ _ e)),
            subst (λ (o : ℤ × ℤ). IsValue p d policy kd (pos 706) o.1) os
                (os_fallback-IsValue p d policy kd tag_os_patch w (relabel-eq-ok _ _ f)),
          ),
          λ lt.
              subst (λ (o : ℤ × ℤ). policy.min_os_version ≤ℤ o.0) os
                (enforce_minimum_bound policy.min_os_version _ _ _ version lt),
          λ lt.
              subst (λ (o : ℤ × ℤ). policy.min_patch_level ≤ℤ o.1) os
                (enforce_minimum_bound policy.min_patch_level _ _ _ patch lt),
        )

    Steps-IsRooted :
        IsRooted policy kd r
        ⊎ ((policy.require_device_locked ≡ false) × (policy.require_verified_boot ≡ false))
    unfolding apply_root
    Steps-IsRooted = elim (Option-cases s.rot) [
      | inl nothing ↦ inr (ground (arith, rw nothing at s.applied))
      | inr (rot, there) ↦
          let applied = rw there at s.applied in
          inl (record {
            rot = rot;
            read = root_of_trust-IsRoot p d policy kd rot (s.rooted ∙ ap ok there);
            locked = required _ (λ on. ground (arith, applied));
            boot = required _ (λ on. ground (arith, applied));
            reported = ground (arith, applied);
          })
    ]

    Steps-described :
        (r.attestation_security_level ≡ kd.attestation_security_level)
        × (r.keymaster_security_level ≡ kd.keymaster_security_level)
        × (r.os_version ≡ s.os.0)
        × (r.os_patch_level ≡ s.os.1)
    unfolding apply_root
    Steps-described = ground (arith, s.applied)

  pub verify_key_description-Conforms :
      (policy : Policy) (kd : KeyDescription) (challenge : Bytes) (r : AttestationRecord)
      → verify_key_description p d policy kd challenge ≡ ok r
      → Conforms policy kd challenge r
  verify_key_description-Conforms policy kd challenge r h =
      let s = verify_key_description-Steps p d policy kd challenge r h in
      let (attested, keymaster, version, patch) = Steps-described s in
      let ((read_version, read_patch), new_version, new_patch) = Steps-os s in
      record {
        fresh = s.fresh;
        hardware = required _ (Steps-IsHardware s);
        levels = (attested, keymaster);
        named = elim (text_discrete policy.expected_package_name []) [
          | yes e ↦ inl e
          | no ne ↦ inr (IsBound-IsNamed kd policy.expected_package_name (Steps-IsBound s ne))
        ];
        rooted = Steps-IsRooted s;
        os_version = rw version (read_version, required _ (λ lt. new_version (positive _ lt)));
        os_patch = rw patch (read_patch, required _ (λ lt. new_patch (positive _ lt)));
      }
