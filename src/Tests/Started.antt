-- ===== src/Tests/Started.antt =====
-- The theorem on a server from its start on: it starts over the files of an authority, issues a
-- challenge, enrolls a device and answers its ping.
use mtls_authentication_poc.Prelude.{
  ℕ, false, Option, none, some, [], ◌∷◌, ◌++◌, if◌then◌else◌, ◌==◌, pos, ℤ_eq, ◌*ℤ◌, wrap_int64,
  Bytes, Text, codes, ℕ_eq, text_eq,
}
use mtls_authentication_poc.Prelude.Dict.{Dict, lookup}
use mtls_authentication_poc.Platform.{Platform, PemBlock}
use mtls_authentication_poc.Config.{
  Environment, value_of, get_env, get_env_int, get_env_bool, get_env_duration, load_config,
}
use mtls_authentication_poc.Storage.Challenges.{generate_and_store_challenge}
use mtls_authentication_poc.Attestation.Roots.{parse_roots, new_google_root_cert_pool, new_verifier}
use mtls_authentication_poc.Attestation.Roots.Google.{
  lines, google_hardware_attestation_root_rsa, google_hardware_attestation_root_ec,
  default_google_root_pems,
}
use mtls_authentication_poc.Ca.Signer.{parse_key_block, load_ca}
use mtls_authentication_poc.Ca.Bootstrap.{
  BootstrapWorld, existing, dir_of, create_missing, bootstrap_certificates,
}
use mtls_authentication_poc.Http.{Request, method_get}
use mtls_authentication_poc.Handlers.Ping.{ProtectedResponse}
use mtls_authentication_poc.Server.Routes.{server_policy}
use mtls_authentication_poc.Server.Verifying.{server_verifier}
use mtls_authentication_poc.Server.Threads.{Thread, arrived, System, advance_thread}
use mtls_authentication_poc.Server.EndToEnd.{pong}
use mtls_authentication_poc.Server.Startup.{
  Host, Server, server_of, start_from, ensure_certificates, start_server,
}
use mtls_authentication_poc.Tests.Toy.{issued, root}
use mtls_authentication_poc.Tests.Run.{library, draws, world, decode, post, granted}
use mtls_authentication_poc.Tests.Files.{files}
use mtls_authentication_poc.Tests.Built.{reading, naming}
use mtls_authentication_poc.Tests.Issued.{decode_text, encode_text, parse_key}

-- The embedded root certificates start with a dash; each is read as the root.
abbrev decode_root : Bytes → Option PemBlock
decode_root [] = none
decode_root (b ∷ bs) =
    if b == b'-'
    then some (record { type = codes "CERTIFICATE"; bytes = 2 ∷ [] })
    else decode_text (b ∷ bs)

abbrev serving : Platform
serving = record reading {
  pem_decode = decode_root;
  pem_encode = encode_text;
  parse_ec_private_key = parse_key;
}

abbrev setting : Text → Option Text
setting key =
    if key == codes "CLIENT_CERT_TTL_HOURS"
    then some (codes "1")
    else if key == codes "REQUIRE_REVOCATION_CHECK"
    then some (codes "0")
    else none

unfoldable environment : Environment
environment = record {
  lookup_env = setting;
  atoi = λ t. if t == codes "1" then some (pos 1) else none;
  parse_bool = λ t. if t == codes "0" then some false else none;
  join = λ dir name. dir ++ (b'/' ∷ name);
}

abbrev root_pem : Bytes
root_pem = encode_text (record { type = codes "CERTIFICATE"; bytes = 2 ∷ [] })

abbrev disk : Dict Bytes
disk =
    (codes "certs/ca.crt", root_pem)
    ∷ (codes "certs/ca.key", encode_text (record { type = codes "EC PRIVATE KEY"; bytes = 1 ∷ [] }))
    ∷ (codes "certs/server.crt", 4 ∷ [])
    ∷ (codes "certs/server.key", 5 ∷ [])
    ∷ []

abbrev host : Host
host = record {
  fs = files;
  read_file = lookup;
  KeyPair = Bytes;
  load_x509_key_pair = λ cert key s. lookup cert s;
}

abbrev bootstrap : BootstrapWorld
bootstrap = record { ca_draws = draws; server_draws = draws; interfaces = none }

abbrev server : Server serving Bytes
server =
    server_of serving host (load_config environment)
      (record { certificate = root; private_key = 1 }) root_pem
      (record {
        root_pool = root ∷ root ∷ [];
        policy = server_policy (load_config environment);
        revocations = none;
      })
      (4 ∷ []) (4 ∷ [])

-- The definitions of the start.
unfoldable starting : Unit {0}
unfolding library environment load_config value_of get_env get_env_int get_env_bool get_env_duration
    wrap_int64 ◌*ℤ◌ server_policy parse_roots new_google_root_cert_pool new_verifier server_verifier
    parse_key_block load_ca existing dir_of create_missing bootstrap_certificates start_from
    ensure_certificates start_server default_google_root_pems google_hardware_attestation_root_rsa
    google_hardware_attestation_root_ec lines
starting = tt

abbrev ping : Request ℕ
ping = record {
  method = method_get;
  path = codes "/api/v1/protected/ping";
  body = [];
  peer_certificates = some (issued ∷ root ∷ []);
}

abbrev threads : ℕ → Thread serving
threads i = arrived world post

abbrev begun : System serving
begun = record { shared = server.state; threads = threads }

abbrev challenged : System serving
challenged = record begun {
  shared = record (begun.shared) {
    challenges =
        (generate_and_store_challenge serving (some (77 ∷ [])) (pos 0) (pos 60)
          begun.shared.challenges).0;
  };
}

-- A step of the first request.
abbrev step : System serving → System serving
step = advance_thread serving naming decode server.handler 0

abbrev enrolled : System serving
enrolled = step (step (step (step (step (step challenged)))))

abbrev reply : ProtectedResponse
reply = pong serving (pos 9) granted (codes "7")
