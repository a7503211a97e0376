-- ===== src/Attestation/Description.antt =====
-- The part of `VerifyAttestation` in backend/internal/attestation/verifier.go that reads the key
-- description (steps 5 to 9), with `verifyApplicationID` and `extractOSInfo`.
pub mod Complete
pub mod Hardware
pub mod Sources
pub mod Steps
pub mod Spec
use mtls_authentication_poc.Prelude.{
  ℕ, refl, ite, Bool, false, not, ◌&&◌, ◌||◌, Option, none, some, List, [], ◌∷◌, arith, ℕ_discrete,
  if◌then◌else◌, ◌==◌, ℤ, pos, ℤ_discrete, ℤ_eq, ltb_ℤ, Bytes, Text, text_discrete, ℕ_eq, text_eq,
  Result, ok, err, ◌>>=◌, ◌>>◌, guard, or_fail,
}
use mtls_authentication_poc.Platform.{Platform, RawValue}
use mtls_authentication_poc.Attestation.Types.{
  Decoders, RootOfTrust, KeyDescription, AttestationRecord, PackageInfo, Policy, SecurityLevel,
  VerifiedBootState, trusted_environment, strong_box, verified, tag_os_version, tag_os_patch,
  tag_attestation_application_id,
}
use mtls_authentication_poc.Attestation.Revocation.{RevocationError}
use mtls_authentication_poc.Attestation.Asn1.{
  Asn1Error, find_tagged, find_int_tag, find_root_of_trust, parse_attestation_application_id,
}

-- One constructor for each `return nil, …` of `VerifyAttestation` and its helpers.
pub data VerifyError : Type 0 where
  chain_empty chain_too_short chain_too_long : VerifyError
  bad_certificate : ℕ → VerifyError
  revocation_failed : ℕ → RevocationError → VerifyError
  certificate_revoked : ℕ → VerifyError
  chain_untrusted bad_leaf_key bad_csr_key key_mismatch : VerifyError
  extension_missing bad_key_description challenge_mismatch : VerifyError
  untrusted_attestation_level untrusted_keymaster_level : SecurityLevel → VerifyError
  bad_tee_root bad_software_root bad_application_id application_id_missing : VerifyError
  package_not_listed bad_os_version bad_os_patch : VerifyError
  os_version_missing os_patch_missing : VerifyError
  os_version_low os_patch_low : ℤ → ℤ → VerifyError
  device_unlocked root_missing : VerifyError
  boot_untrusted : VerifiedBootState → VerifyError
  -- An index out of range, which Go answers with a panic.
  index_panic : VerifyError

abbrev pub relabel {ℓ} : {A : Type ℓ} → Result Asn1Error A → VerifyError → Result VerifyError A
relabel (ok a) e = ok a
relabel (err _) e = err e

abbrev pub is_hardware : SecurityLevel → Bool
is_hardware level = level == trusted_environment || level == strong_box

-- Step 6
unfoldable pub verify_levels : Policy → KeyDescription → Result VerifyError (Unit {0})
verify_levels policy kd =
    if policy.require_hardware_backed
    then guard (is_hardware kd.attestation_security_level)
        (untrusted_attestation_level kd.attestation_security_level)
      >> guard (is_hardware kd.keymaster_security_level)
          (untrusted_keymaster_level kd.keymaster_security_level)
    else ok tt

abbrev pub lists_package : Text → List PackageInfo → Bool
lists_package expected [] = false
lists_package expected (pkg ∷ pkgs) = pkg.package_name == expected || lists_package expected pkgs

-- The test of one minimum in `extractOSInfo`.
unfoldable pub enforce_minimum : ℤ → ℤ → VerifyError → VerifyError → Result VerifyError (Unit {0})
enforce_minimum minimum value missing low =
    if ltb_ℤ (pos 0) minimum
    then (if value == pos 0 then err missing else if ltb_ℤ value minimum then err low else ok tt)
    else ok tt

-- The checks on the root of trust, with the fields that it adds to the record.
unfoldable pub apply_root :
    Policy → AttestationRecord → Option RootOfTrust → Result VerifyError AttestationRecord
apply_root policy record' none =
    if policy.require_verified_boot || policy.require_device_locked
    then err root_missing
    else ok record'
apply_root policy record' (some rot) =
    if policy.require_device_locked && not rot.device_locked
    then err device_unlocked
    else if policy.require_verified_boot && not (rot.verified_boot_state == verified)
    then err (boot_untrusted rot.verified_boot_state)
    else ok (record record' {
      device_locked = rot.device_locked;
      verified_boot_state = rot.verified_boot_state;
      verified_boot_key = rot.verified_boot_key;
    })

module _ (p : Platform) (d : Decoders) where
  -- Step 7
  unfoldable pub root_of_trust : Policy → KeyDescription → Result VerifyError (Option RootOfTrust)
  root_of_trust policy kd = do
    rot ← relabel (find_root_of_trust p d kd.tee_enforced.full_bytes) bad_tee_root
    elim rot [
      | some r ↦ ok (some r)
      | none ↦
          if not policy.require_hardware_backed
          then relabel (find_root_of_trust p d kd.software_enforced.full_bytes) bad_software_root
          else ok none
    ]

  -- The element of tag 709: the TEE-enforced one, or else the software-enforced one.
  unfoldable pub application_id : KeyDescription → Result VerifyError (Option RawValue)
  application_id kd = do
    tee ←
        relabel (find_tagged p kd.tee_enforced.full_bytes tag_attestation_application_id)
          bad_application_id
    elim tee [
      | some raw ↦ ok (some raw)
      | none ↦
          relabel (find_tagged p kd.software_enforced.full_bytes tag_attestation_application_id)
            bad_application_id
    ]

  unfoldable pub verify_application_id : KeyDescription → Text → Result VerifyError (Unit {0})
  verify_application_id kd expected = do
    found ← application_id kd
    raw ← or_fail found application_id_missing
    packages ← relabel (parse_attestation_application_id p d raw.bytes) bad_application_id
    guard (lists_package expected packages) package_not_listed

  -- Step 8
  unfoldable pub check_application_id : Policy → KeyDescription → Result VerifyError (Unit {0})
  check_application_id policy kd =
      if policy.expected_package_name == []
      then ok tt
      else verify_application_id kd policy.expected_package_name

  -- The software-enforced value where the TEE-enforced one is 0 and no hardware is required. A
  -- malformed list counts as 0.
  unfoldable pub os_fallback : Policy → KeyDescription → ℤ → ℤ → ℤ
  os_fallback policy kd tag value =
      if value == pos 0 && not policy.require_hardware_backed
      then elim (find_int_tag p kd.software_enforced.full_bytes tag) [ ok v ↦ v | err _ ↦ value ]
      else value

  unfoldable pub extract_os_info : KeyDescription → Policy → Result VerifyError (ℤ × ℤ)
  extract_os_info kd policy = do
    tee_version ← relabel (find_int_tag p kd.tee_enforced.full_bytes tag_os_version) bad_os_version
    let os_version = os_fallback policy kd tag_os_version tee_version
    tee_patch ← relabel (find_int_tag p kd.tee_enforced.full_bytes tag_os_patch) bad_os_patch
    let os_patch = os_fallback policy kd tag_os_patch tee_patch
    enforce_minimum policy.min_os_version os_version os_version_missing
        (os_version_low os_version policy.min_os_version)
    enforce_minimum policy.min_patch_level os_patch os_patch_missing
        (os_patch_low os_patch policy.min_patch_level)
    ok (os_version, os_patch)

  -- The record before the root of trust is known.
  abbrev pub described : KeyDescription → ℤ × ℤ → AttestationRecord
  described kd os = record {
    attestation_version = kd.attestation_version;
    attestation_security_level = kd.attestation_security_level;
    keymaster_version = kd.keymaster_version;
    keymaster_security_level = kd.keymaster_security_level;
    attestation_challenge = kd.attestation_challenge;
    device_locked = false;
    verified_boot_state = pos 0;
    verified_boot_key = [];
    os_version = os.0;
    os_patch_level = os.1;
  }

  -- Steps 5 to 9.
  unfoldable pub verify_key_description :
      Policy → KeyDescription → Bytes → Result VerifyError AttestationRecord
  verify_key_description policy kd challenge = do
    guard (kd.attestation_challenge == challenge) challenge_mismatch
    verify_levels policy kd
    rot ← root_of_trust policy kd
    check_application_id policy kd
    os ← extract_os_info kd policy
    apply_root policy (described kd os) rot
