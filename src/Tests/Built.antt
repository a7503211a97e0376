-- ===== src/Tests/Built.antt =====
-- The theorem on the verifier that the server builds, in an environment that sets nothing.
use mtls_authentication_poc.Prelude.{
  Required, true, ◌≡◌, refl, true, false, none, some, [], ◌∷◌, ◌++◌, ℤ, pos, ℤ_eq, ◌*ℤ◌, Text,
  codes, ℕ_eq, text_eq, ok,
}
use mtls_authentication_poc.Platform.{Platform, RawValue}
use mtls_authentication_poc.Config.{
  Environment, value_of, get_env, get_env_int, get_env_bool, get_env_duration, load_config,
}
use mtls_authentication_poc.Attestation.Types.{
  Decoders, AttestationRecord, default_strict_policy, trusted_environment, strong_box, verified,
  tag_root_of_trust, tag_attestation_application_id,
}
use mtls_authentication_poc.Attestation.Asn1.{parse_attestation_application_id}
use mtls_authentication_poc.Attestation.Description.{application_id, verify_application_id}
use mtls_authentication_poc.Attestation.Revocation.{
  RevocationStatusClient, response, new_revocation_status_client, default_revocation_list_url,
  fetch_locked, read_response, keep_entries, lower_entries, to_lower, equal_fold, fold_char,
}
use mtls_authentication_poc.Attestation.Verifier.{Verifier, World, verify_attestation}
use mtls_authentication_poc.Attestation.Verifier.Soundness.{AllClear}
use mtls_authentication_poc.Attestation.Roots.{parse_roots, new_google_root_cert_pool, new_verifier}
use mtls_authentication_poc.Server.Routes.{server_policy}
use mtls_authentication_poc.Server.Verifying.{
  IsAccepted, server_verifier, server_verifier-IsTrusted,
}
use mtls_authentication_poc.Tests.Toy.{toy, decoders, root, device_key}
use mtls_authentication_poc.Tests.Run.{library, quiet}

abbrev app : Text
app = codes "com.kypeli.mtlspoc"

abbrev item : ℤ → RawValue
item tag = record { tag = tag; bytes = 60 ∷ []; full_bytes = [] }

-- The small platform, with PEM texts that hold their bytes, and lists that name an app.
abbrev pub reading : Platform
reading = record toy {
  pem_decode = λ bs. some (record { type = codes "CERTIFICATE"; bytes = bs });
  unmarshal_raw_values =
      λ bs. some (item tag_root_of_trust ∷ item tag_attestation_application_id ∷ []);
  unmarshal_raw_value = λ bs. some (item (pos 4));
}

abbrev pub naming : Decoders
naming = record decoders {
  application_id = λ bs. some (record { package_name = app; version = pos 1 } ∷ []);
}

abbrev empty_environment : Environment
empty_environment = record {
  lookup_env = λ key. none;
  atoi = λ t. none;
  parse_bool = λ t. none;
  join = λ dir name. dir ++ (b'/' ∷ name);
}

abbrev built : Verifier reading
built = record {
  root_pool = root ∷ [];
  policy = record default_strict_policy { expected_package_name = app };
  revocations = some (record {
    list_url = default_revocation_list_url;
    ttl = pos 86_400_000_000_000;
    entries = none;
    fetched = pos 0;
  });
}

-- The server's status list holds another status than that of a revoked key.
abbrev answering : World
answering = record {
  verified_at = pos 1;
  calls = λ i. record quiet { outcome = λ url. response 200 (some (codes "SUSPENDED")) };
}

abbrev accepted : AttestationRecord
accepted = record {
  attestation_version = pos 4;
  attestation_security_level = trusted_environment;
  keymaster_version = pos 4;
  keymaster_security_level = strong_box;
  attestation_challenge = 77 ∷ [];
  device_locked = true;
  verified_boot_state = verified;
  verified_boot_key = [];
  os_version = pos 0;
  os_patch_level = pos 0;
}

off_run : get_env_bool empty_environment (codes "DEV_MODE") false ≡ false
unfolding get_env_bool value_of
off_run = refl

built_run : server_verifier reading ((2 ∷ []) ∷ []) (load_config empty_environment) ≡ ok built
unfolding server_verifier new_verifier new_google_root_cert_pool parse_roots server_policy
    load_config get_env get_env_int get_env_bool get_env_duration value_of
    new_revocation_status_client ◌*ℤ◌ library
built_run = refl

accepted_run :
    (verify_attestation reading naming answering built
      ((1 ∷ []) ∷ (2 ∷ []) ∷ [])
      (77 ∷ [])
      (some device_key)).1
    ≡ ok accepted
unfolding library verify_application_id application_id parse_attestation_application_id fetch_locked
    read_response keep_entries lower_entries to_lower equal_fold fold_char
accepted_run = refl

server_verifier-IsTrusted_example :
    (a : IsAccepted reading naming
      ((2 ∷ []) ∷ [])
      answering
      built
      ((1 ∷ []) ∷ (2 ∷ []) ∷ [])
      (77 ∷ [])
      (some device_key)
      accepted)
    × Required (get_env_bool empty_environment (codes "REQUIRE_REVOCATION_CHECK") true) (
        (c : RevocationStatusClient) × (built.revocations ≡ some c)
        × AllClear reading naming answering.calls 0 (a.trusted.leaf ∷ a.trusted.intermediates) c)
server_verifier-IsTrusted_example =
    server_verifier-IsTrusted reading naming empty_environment ((2 ∷ []) ∷ []) answering built
      ((1 ∷ []) ∷ (2 ∷ []) ∷ []) (77 ∷ []) (some device_key) accepted off_run built_run accepted_run
