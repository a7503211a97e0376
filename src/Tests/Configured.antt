-- ===== src/Tests/Configured.antt =====
-- The theorems on the configuration, in an environment that sets one variable.
use mtls_authentication_poc.Prelude.{
  ◌*◌, ◌≡◌, refl, true, false, none, some, ◌∷◌, ◌++◌, arith, if◌then◌else◌, ◌==◌, pos, ℤ_eq, codes,
  ℕ_eq, text_eq,
}
use mtls_authentication_poc.Config.{Environment, value_of, get_env_bool, load_config}
use mtls_authentication_poc.Server.Routes.{server_policy}
use mtls_authentication_poc.Server.Policy.{
  IsStrict, server_policy-IsStrict, load_config-challenge_ttl,
}

unfoldable environment : Environment
environment = record {
  lookup_env = λ key. if key == codes "CHALLENGE_TTL_SECONDS" then some (codes "90") else none;
  atoi = λ t. if t == codes "90" then some (pos 90) else none;
  parse_bool = λ t. none;
  join = λ dir name. dir ++ (b'/' ∷ name);
}

not_dev_run : get_env_bool environment (codes "DEV_MODE") false ≡ false
unfolding environment get_env_bool value_of text_eq
not_dev_run = refl

set_run : value_of environment (codes "CHALLENGE_TTL_SECONDS") ≡ some (codes "90")
unfolding environment value_of text_eq
set_run = refl

parsed_run : environment.atoi (codes "90") ≡ some (pos 90)
unfolding environment text_eq
parsed_run = refl

server_policy-IsStrict_example :
    IsStrict (server_policy (load_config environment))
    × ((server_policy (load_config environment)).check_revocation_list
        ≡ get_env_bool environment (codes "REQUIRE_REVOCATION_CHECK") true)
server_policy-IsStrict_example = server_policy-IsStrict environment not_dev_run

load_config-challenge_ttl_example :
    (load_config environment).challenge_ttl ≡ pos (90 * 1_000_000_000)
load_config-challenge_ttl_example =
    load_config-challenge_ttl environment (codes "90") 90 set_run parsed_run (omega arith)
