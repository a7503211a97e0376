-- ===== src/Attestation/Description/Steps.antt =====
-- The parts of a run of `VerifyAttestation` that accepts a key description.
use mtls_authentication_poc.Prelude.{
  ◌≡◌, ap, ◌∙◌, ◌⊎◌, true, Option, some, List, [], ◌∷◌, arith, ◌==◌, eq_of_==, ℤ, ℤ_eq, Bytes, Text,
  ℕ_eq, text_eq, ok, guard, or_fail, >>=-eq-ok, >>-eq-ok, guard-eq-ok, or_fail-eq-ok,
}
use mtls_authentication_poc.Platform.{Platform, RawValue}
use mtls_authentication_poc.Attestation.Types.{
  Decoders, RootOfTrust, KeyDescription, AttestationRecord, PackageInfo, Policy, SecurityLevel,
  trusted_environment, strong_box,
}
use mtls_authentication_poc.Attestation.Asn1.{parse_attestation_application_id}
use mtls_authentication_poc.Attestation.Description.Sources.{relabel-eq-ok}
use mtls_authentication_poc.Attestation.Description.{
  relabel, lists_package, described, application_id, verify_levels, root_of_trust,
  check_application_id, extract_os_info, apply_root, verify_key_description, verify_application_id,
}

abbrev pub IsHardware : SecurityLevel → Type 0
IsHardware level = (level ≡ trusted_environment) ⊎ (level ≡ strong_box)

-- Some listed package has the expected name.
abbrev pub Lists : Text → List PackageInfo → Type 0
Lists expected [] = ⊥
Lists expected (pkg ∷ pkgs) = (pkg.package_name ≡ expected) ⊎ Lists expected pkgs

lists_package-Lists :
    (name : Text) (pkgs : List PackageInfo) → lists_package name pkgs ≡ true → Lists name pkgs
lists_package-Lists name [] h = cc
lists_package-Lists name (pkg ∷ pkgs) h = ground (arith, lists_package-Lists name pkgs)

module _ (p : Platform) (d : Decoders) where
  -- The parts of a successful run.
  pub record Steps (policy : Policy) (kd : KeyDescription) (challenge : Bytes)
      (r : AttestationRecord) : Type 0 where
    pub fresh : kd.attestation_challenge ≡ challenge
    pub levels : verify_levels policy kd ≡ ok tt
    pub rot : Option RootOfTrust
    pub rooted : root_of_trust p d policy kd ≡ ok rot
    pub bound : check_application_id p d policy kd ≡ ok tt
    pub os : ℤ × ℤ
    pub dated : extract_os_info p d kd policy ≡ ok os
    pub applied : apply_root policy (described p d kd os) rot ≡ ok r

  pub verify_key_description-Steps :
      (policy : Policy) (kd : KeyDescription) (challenge : Bytes) (r : AttestationRecord)
      → verify_key_description p d policy kd challenge ≡ ok r
      → Steps policy kd challenge r
  unfolding verify_key_description
  verify_key_description-Steps policy kd challenge r h =
      let (fresh, h1) = >>-eq-ok (guard (kd.attestation_challenge == challenge) _) _ h in
      let (levels, h2) = >>-eq-ok (verify_levels policy kd) _ h1 in
      let (rot, rooted, h3) = >>=-eq-ok (root_of_trust p d policy kd) _ h2 in
      let (bound, h4) = >>-eq-ok (check_application_id p d policy kd) _ h3 in
      let (os, dated, applied) = >>=-eq-ok (extract_os_info p d kd policy) _ h4 in
      record {
        fresh = eq_of_== _ challenge (guard-eq-ok _ _ fresh);
        levels = levels;
        rot = rot;
        rooted = rooted;
        bound = bound;
        os = os;
        dated = dated;
        applied = applied;
      }

  -- The package of the application identifier is the expected one.
  pub record IsBound (kd : KeyDescription) (expected : Text) : Type 0 where
    pub raw : RawValue
    pub found : application_id p d kd ≡ ok (some raw)
    pub packages : List PackageInfo
    pub parsed : parse_attestation_application_id p d raw.bytes ≡ ok packages
    pub listed : Lists expected packages

  pub verify_application_id-IsBound :
      (kd : KeyDescription) (expected : Text)
      → verify_application_id p d kd expected ≡ ok tt
      → IsBound kd expected
  unfolding verify_application_id
  verify_application_id-IsBound kd expected h =
      let (found, e, h1) = >>=-eq-ok (application_id p d kd) _ h in
      let (raw, f, h2) = >>=-eq-ok (or_fail found _) _ h1 in
      let (packages, g, h3) =
        >>=-eq-ok (relabel (parse_attestation_application_id p d raw.bytes) _) _ h2 in
      record {
        raw = raw;
        found = e ∙ ap ok (or_fail-eq-ok found _ f);
        packages = packages;
        parsed = relabel-eq-ok _ _ g;
        listed = lists_package-Lists expected packages (guard-eq-ok _ _ h3);
      }
