-- ===== src/Attestation/Types.antt =====
-- backend/internal/attestation/types.go. A Go `int` is an integer.
use mtls_authentication_poc.Prelude.{
  Bool, true, false, Option, List, [], if◌then◌else◌, ◌==◌, ℤ, pos, ℤ_eq, Bytes, Text, codes, ℕ_eq,
  text_eq,
}
use mtls_authentication_poc.Platform.{RawValue}

abbrev pub android_key_attestation_oid : Text
android_key_attestation_oid = codes "1.3.6.1.4.1.11129.2.1.17"

abbrev pub tag_root_of_trust : ℤ
tag_root_of_trust = pos 704

abbrev pub tag_os_version : ℤ
tag_os_version = pos 705

abbrev pub tag_os_patch : ℤ
tag_os_patch = pos 706

abbrev pub tag_attestation_application_id : ℤ
tag_attestation_application_id = pos 709

abbrev pub SecurityLevel : Type 0
SecurityLevel = ℤ

abbrev pub software : SecurityLevel
software = pos 0

abbrev pub trusted_environment : SecurityLevel
trusted_environment = pos 1

abbrev pub strong_box : SecurityLevel
strong_box = pos 2

unfoldable pub security_level_string : SecurityLevel → Text
security_level_string s =
    if s == software
    then codes "SOFTWARE"
    else if s == trusted_environment
    then codes "TEE"
    else if s == strong_box
    then codes "STRONGBOX"
    else codes "UNKNOWN"

abbrev pub VerifiedBootState : Type 0
VerifiedBootState = ℤ

abbrev pub verified : VerifiedBootState
verified = pos 0

unfoldable pub boot_state_string : VerifiedBootState → Text
boot_state_string v =
    if v == verified
    then codes "Verified"
    else if v == pos 1
    then codes "SelfSigned"
    else if v == pos 2
    then codes "Unverified"
    else if v == pos 3
    then codes "Failed"
    else codes "Unknown"

pub record KeyDescription : Type 0 where
  pub attestation_version : ℤ
  pub attestation_security_level : ℤ
  pub keymaster_version : ℤ
  pub keymaster_security_level : ℤ
  pub attestation_challenge : Bytes
  pub unique_id : Bytes
  pub software_enforced : RawValue
  pub tee_enforced : RawValue

pub record RootOfTrust : Type 0 where
  pub verified_boot_key : Bytes
  pub device_locked : Bool
  pub verified_boot_state : ℤ
  pub verified_boot_hash : Bytes

pub record AttestationRecord : Type 0 where
  pub attestation_version : ℤ
  pub attestation_security_level : SecurityLevel
  pub keymaster_version : ℤ
  pub keymaster_security_level : SecurityLevel
  pub attestation_challenge : Bytes
  pub device_locked : Bool
  pub verified_boot_state : VerifiedBootState
  pub verified_boot_key : Bytes
  pub os_version : ℤ
  pub os_patch_level : ℤ

pub record Policy : Type 0 where
  pub require_hardware_backed : Bool
  pub require_device_locked : Bool
  pub require_verified_boot : Bool
  pub skip_chain_validation : Bool
  pub allow_empty_attestation : Bool
  pub expected_package_name : Text
  pub min_os_version : ℤ
  pub min_patch_level : ℤ
  pub check_revocation_list : Bool

abbrev pub default_strict_policy : Policy
default_strict_policy = record {
  require_hardware_backed = true;
  require_device_locked = true;
  require_verified_boot = true;
  skip_chain_validation = false;
  allow_empty_attestation = false;
  expected_package_name = [];
  min_os_version = pos 0;
  min_patch_level = pos 0;
  check_revocation_list = true;
}

abbrev pub development_policy : Policy
development_policy = record {
  require_hardware_backed = false;
  require_device_locked = false;
  require_verified_boot = false;
  skip_chain_validation = true;
  allow_empty_attestation = true;
  expected_package_name = [];
  min_os_version = pos 0;
  min_patch_level = pos 0;
  check_revocation_list = false;
}

-- `attestationPackageInfo`
pub record PackageInfo : Type 0 where
  pub package_name : Bytes
  pub version : ℤ

-- `asn1.Unmarshal` at the structures that this package declares.
pub record Decoders : Type 0 where
  pub key_description : Bytes → Option KeyDescription
  pub root_of_trust : Bytes → Option RootOfTrust
  pub application_id : Bytes → Option (List PackageInfo)
