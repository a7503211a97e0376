-- ===== src/Server/Policy.antt =====
-- What the environment of the server makes of its policy and of its times to live.
use mtls_authentication_poc.Prelude.{
  ℕ, ◌*◌, ◌≤◌, ◌≡◌, refl, ◌≢◌, true, false, some, [], arith, pos, ℤ_eq, ◌*ℤ◌, wrap_int64, Text,
  codes, ℕ_eq, text_eq,
}
use mtls_authentication_poc.Platform.{second}
use mtls_authentication_poc.Attestation.Types.{Policy}
use mtls_authentication_poc.Config.{
  Environment, Config, value_of, get_env, get_env_bool, get_env_duration, load_config, parsed_or,
}
use mtls_authentication_poc.Server.Routes.{server_policy}

pub record IsStrict (policy : Policy) : Type 0 where
  pub hardware : policy.require_hardware_backed ≡ true
  pub locked : policy.require_device_locked ≡ true
  pub boot : policy.require_verified_boot ≡ true
  pub chained : policy.skip_chain_validation ≡ false
  pub attested : policy.allow_empty_attestation ≡ false
  pub packaged : policy.expected_package_name ≢ []

get_env-nonempty :
    (env : Environment) (key default_val : Text)
    → default_val ≢ []
    → get_env env key default_val ≢ []
unfolding get_env value_of
get_env-nonempty env key default_val h = ground arith

policy-IsStrict :
    (cfg : Config)
    → cfg.dev_mode ≡ false
    → cfg.expected_app_package ≢ []
    → IsStrict (server_policy cfg)
unfolding server_policy
policy-IsStrict cfg off packaged = record {
  hardware = rw off refl;
  locked = rw off refl;
  boot = rw off refl;
  chained = rw off refl;
  attested = rw off refl;
  packaged = packaged;
}

seconds_exact : (n : ℕ) → n ≤ 9_223_372_036 → wrap_int64 (pos n *ℤ second) ≡ pos (n * 1_000_000_000)
unfolding ◌*ℤ◌ wrap_int64
seconds_exact n h = ground arith

-- In every environment whose DEV_MODE does not read as true, the server's policy is strict: it
-- requires hardware, a locked device, verified boot, a validated chain and the package of an app.
-- The revocation list is consulted unless REQUIRE_REVOCATION_CHECK is set and reads as false.
pub server_policy-IsStrict :
    (env : Environment)
    → get_env_bool env (codes "DEV_MODE") false ≡ false
    → IsStrict (server_policy (load_config env))
      × ((server_policy (load_config env)).check_revocation_list
          ≡ get_env_bool env (codes "REQUIRE_REVOCATION_CHECK") true)
unfolding server_policy load_config
server_policy-IsStrict env off = (
  policy-IsStrict (load_config env) off
      (get_env-nonempty env (codes "EXPECTED_APP_PACKAGE") (codes "com.kypeli.mtlspoc") (λ e. cc)),
  rw off refl,
)

-- A CHALLENGE_TTL_SECONDS that reads as a number of seconds up to 9223372036, the most that fits in
-- 64 bits of nanoseconds, is the time to live of a challenge, exactly.
pub load_config-challenge_ttl :
    (env : Environment) (val : Text) (n : ℕ)
    → value_of env (codes "CHALLENGE_TTL_SECONDS") ≡ some val
    → env.atoi val ≡ some (pos n)
    → n ≤ 9_223_372_036
    → (load_config env).challenge_ttl ≡ pos (n * 1_000_000_000)
unfolding load_config get_env_duration
load_config-challenge_ttl env val n set parsed fits =
    rw (set, parsed, parsed_or) (seconds_exact n fits)
