-- ===== src/Config.antt =====
-- backend/internal/config/config.go: the configuration as a function of the environment.
use mtls_authentication_poc.Prelude.{
  ◌*◌, Bool, false, not, Option, none, some, [], if◌then◌else◌, ◌==◌, ℤ, pos, ℤ_eq, ◌*ℤ◌,
  wrap_int64, Text, codes, ℕ_eq, text_eq,
}
use mtls_authentication_poc.Platform.{Duration, second, hour}

-- `os.LookupEnv`, `strconv.Atoi`, `strconv.ParseBool` and `filepath.Join` of two elements.
pub record Environment : Type 0 where
  pub lookup_env : Text → Option Text
  pub atoi : Text → Option ℤ
  pub parse_bool : Text → Option Bool
  pub join : Text → Text → Text

pub record Config : Type 0 where
  pub enroll_port : Text
  pub mtls_port : Text
  pub cert_dir : Text
  pub ca_cert_path : Text
  pub ca_key_path : Text
  pub server_cert_path : Text
  pub server_key_path : Text
  pub enroll_cert_path : Text
  pub enroll_key_path : Text
  pub challenge_ttl : Duration
  pub client_cert_ttl : Duration
  pub dev_mode : Bool
  pub expected_app_package : Text
  pub min_os_version : ℤ
  pub min_patch_level : ℤ
  pub revocation_list_url : Text
  pub require_revocation_check : Bool

abbrev pub attestation_revocation_list_url : Text
attestation_revocation_list_url = codes "https://android.googleapis.com/attestation/status"

-- A value that is set and not empty.
unfoldable pub value_of : Environment → Text → Option Text
value_of env key = elim (env.lookup_env key) [
  | none ↦ none
  | some val ↦ if val == [] then none else some val
]

unfoldable pub get_env : Environment → Text → Text → Text
get_env env key default_val = elim (value_of env key) [ none ↦ default_val | some val ↦ val ]

abbrev pub parsed_or {ℓ} : {A : Type ℓ} → (Text → Option A) → Option Text → A → A
parsed_or parse none default_val = default_val
parsed_or parse (some val) default_val = elim (parse val) [ none ↦ default_val | some a ↦ a ]

unfoldable pub get_env_int : Environment → Text → ℤ → ℤ
get_env_int env key default_val = parsed_or env.atoi (value_of env key) default_val

-- A count of a unit that the caller multiplies by.
unfoldable pub get_env_duration : Environment → Text → ℤ → Duration
get_env_duration env key default_val = parsed_or env.atoi (value_of env key) default_val

unfoldable pub get_env_bool : Environment → Text → Bool → Bool
get_env_bool env key default_val = parsed_or env.parse_bool (value_of env key) default_val

-- A product of two durations is one of 64-bit integers.
unfoldable pub load_config : Environment → Config
load_config env =
    let cert_dir = get_env env (codes "CERT_DIR") (codes "certs") in
    let server_cert =
      get_env env (codes "SERVER_CERT_PATH") (env.join cert_dir (codes "server.crt")) in
    let server_key =
      get_env env (codes "SERVER_KEY_PATH") (env.join cert_dir (codes "server.key")) in
    let dev_mode = get_env_bool env (codes "DEV_MODE") false in
    record {
      enroll_port = get_env env (codes "ENROLL_PORT") (codes ":8080");
      mtls_port = get_env env (codes "MTLS_PORT") (codes ":8443");
      cert_dir = cert_dir;
      ca_cert_path = get_env env (codes "CA_CERT_PATH") (env.join cert_dir (codes "ca.crt"));
      ca_key_path = get_env env (codes "CA_KEY_PATH") (env.join cert_dir (codes "ca.key"));
      server_cert_path = server_cert;
      server_key_path = server_key;
      enroll_cert_path = get_env env (codes "ENROLL_CERT_PATH") server_cert;
      enroll_key_path = get_env env (codes "ENROLL_KEY_PATH") server_key;
      challenge_ttl =
          wrap_int64 (get_env_duration env (codes "CHALLENGE_TTL_SECONDS") (pos 60) *ℤ second);
      client_cert_ttl =
          wrap_int64 (get_env_duration env (codes "CLIENT_CERT_TTL_HOURS") (pos (7 * 24)) *ℤ hour);
      dev_mode = dev_mode;
      expected_app_package =
          get_env env (codes "EXPECTED_APP_PACKAGE") (codes "com.kypeli.mtlspoc");
      min_os_version = get_env_int env (codes "MIN_OS_VERSION") (pos 0);
      min_patch_level = get_env_int env (codes "MIN_PATCH_LEVEL") (pos 0);
      revocation_list_url =
          get_env env (codes "ATTESTATION_REVOCATION_LIST_URL") attestation_revocation_list_url;
      require_revocation_check = get_env_bool env (codes "REQUIRE_REVOCATION_CHECK") (not dev_mode);
    }
