-- ===== src/Server/Startup.antt =====
-- The start of backend/cmd/server/main.go, up to the two listeners. The key pairs of package crypto/tls
-- and the calls of package `os` are a parameter. `log.Fatalf` is an error.
-- `attachTLSInspectors` sets two callbacks that log and keep the settings; it is left out.
use mtls_authentication_poc.Prelude.{
  ℕ, Option, none, some, List, [], ◌∷◌, pos, ℤ_eq, ◌*ℤ◌, Bytes, Text, codes, ℕ_eq, text_eq, Result,
  ok, err, ◌>>=◌, or_fail,
}
use mtls_authentication_poc.Platform.{Platform, Duration, second}
use mtls_authentication_poc.Config.{Config}
use mtls_authentication_poc.Storage.Challenges.{new_memory_challenges}
use mtls_authentication_poc.Storage.Devices.{new_memory_devices}
use mtls_authentication_poc.Attestation.Roots.{RootError}
use mtls_authentication_poc.Attestation.Roots.Google.{default_google_root_pems}
use mtls_authentication_poc.Attestation.Verifier.{Verifier}
use mtls_authentication_poc.Ca.Signer.{Ca, CaError, load_ca}
use mtls_authentication_poc.Ca.CertPool.{CertPool, new_cert_pool_from_cert}
use mtls_authentication_poc.Ca.Bootstrap.{
  FileSystem, BootstrapOptions, BootstrapWorld, BootstrapError, bootstrap_certificates,
}
use mtls_authentication_poc.Handlers.Enroll.Issue.{EnrollHandler}
use mtls_authentication_poc.Server.Routes.{State}
use mtls_authentication_poc.Server.Verifying.{server_verifier}

pub record Host : Type 1 where
  pub fs : FileSystem
  pub read_file : Text → fs.State → Option Bytes
  pub KeyPair : Type 0
  pub load_x509_key_pair : Text → Text → fs.State → Option KeyPair

-- `tls.ClientAuthType`, as far as the code uses it.
pub data ClientAuth : Type 0 where
  no_client_cert require_and_verify_client_cert : ClientAuth

abbrev pub version_tls12 : ℕ
version_tls12 = 0x0303

abbrev pub version_tls13 : ℕ
version_tls13 = 0x0304

-- `tls.Config`. A nil pool is `none`.
pub record TlsConfig (p : Platform) (KeyPair : Type 0) : Type 0 where
  pub certificates : List KeyPair
  pub client_cas : Option (CertPool p)
  pub client_auth : ClientAuth
  pub min_version : ℕ

pub data StartError : Type 0 where
  no_ca_certificates : BootstrapError → StartError
  no_ca : CaError → StartError
  no_ca_pem no_enroll_key_pair no_server_key_pair : StartError
  no_verifier : RootError → StartError

-- `http.Server`, less its handler and what it logs.
pub record HttpServer (p : Platform) (KeyPair : Type 0) : Type 0 where
  pub addr : Text
  pub tls_config : TlsConfig p KeyPair
  pub read_timeout : Duration
  pub write_timeout : Duration

-- The state of the stores, the handler of the enrollments, the life of a challenge, and the two
-- listeners.
pub record Server (p : Platform) (KeyPair : Type 0) : Type 0 where
  pub state : State p
  pub handler : EnrollHandler p
  pub challenge_ttl : Duration
  pub enroll_server : HttpServer p KeyPair
  pub mtls_server : HttpServer p KeyPair

abbrev pub or_else {ℓ κ} :
    {A : Type ℓ} {E : Type κ} → Result E A → (E → StartError) → Result StartError A
or_else (ok a) f = ok a
or_else (err e) f = err (f e)

abbrev pub server_options : Config → BootstrapOptions
server_options cfg = record {
  paths = record {
    ca_cert_path = cfg.ca_cert_path;
    ca_key_path = cfg.ca_key_path;
    server_cert_path = cfg.server_cert_path;
    server_key_path = cfg.server_key_path;
  };
  ca_cn = codes "Hardware mTLS PoC Root CA";
  server_cn = codes "localhost";
  ca_validity = pos 0;
  server_validity = pos 0;
}

module _ (p : Platform) (host : Host) where
  -- The fields of the handler, less the stores and the revocation client, which are in the state.
  abbrev pub new_enroll_handler : Ca p → Bytes → Verifier p → Duration → EnrollHandler p
  new_enroll_handler ca ca_pem v client_cert_ttl = record {
    ca = ca;
    ca_pem = ca_pem;
    root_pool = v.root_pool;
    policy = v.policy;
    client_cert_ttl = client_cert_ttl;
  }

  unfoldable pub ensure_certificates :
      BootstrapWorld → Config → host.fs.State → host.fs.State × Option BootstrapError
  ensure_certificates w cfg s = bootstrap_certificates p host.fs w (server_options cfg) s

  abbrev pub server_of :
      Config → Ca p → Bytes → Verifier p → host.KeyPair → host.KeyPair → Server p host.KeyPair
  server_of cfg ca ca_pem v enroll_cert server_cert = record {
    state = record {
      challenges = new_memory_challenges;
      devices = new_memory_devices;
      revocations = v.revocations;
    };
    handler = new_enroll_handler ca ca_pem v cfg.client_cert_ttl;
    challenge_ttl = cfg.challenge_ttl;
    enroll_server = record {
      addr = cfg.enroll_port;
      tls_config = record {
        certificates = enroll_cert ∷ [];
        client_cas = none;
        client_auth = no_client_cert;
        min_version = version_tls12;
      };
      read_timeout = pos 15 *ℤ second;
      write_timeout = pos 15 *ℤ second;
    };
    mtls_server = record {
      addr = cfg.mtls_port;
      tls_config = record {
        certificates = server_cert ∷ [];
        client_cas = some (new_cert_pool_from_cert p ca.certificate);
        client_auth = require_and_verify_client_cert;
        min_version = version_tls13;
      };
      read_timeout = pos 15 *ℤ second;
      write_timeout = pos 15 *ℤ second;
    };
  }

  -- What follows the bootstrap.
  unfoldable pub start_from : Config → host.fs.State → Result StartError (Server p host.KeyPair)
  start_from cfg s = do
    ca ←
        or_else (load_ca p (host.read_file cfg.ca_cert_path s) (host.read_file cfg.ca_key_path s))
          no_ca
    ca_pem ← or_fail (host.read_file cfg.ca_cert_path s) no_ca_pem
    v ← or_else (server_verifier p default_google_root_pems cfg) no_verifier
    enroll_cert ←
        or_fail (host.load_x509_key_pair cfg.enroll_cert_path cfg.enroll_key_path s)
          no_enroll_key_pair
    server_cert ←
        or_fail (host.load_x509_key_pair cfg.server_cert_path cfg.server_key_path s)
          no_server_key_pair
    ok (server_of cfg ca ca_pem v enroll_cert server_cert)

  abbrev pub after_certificates :
      Config
      → host.fs.State × Option BootstrapError
      → host.fs.State × Result StartError (Server p host.KeyPair)
  after_certificates cfg (s, none) = (s, start_from cfg s)
  after_certificates cfg (s, some e) = (s, err (no_ca_certificates e))

  unfoldable pub start_server :
      BootstrapWorld
      → Config
      → host.fs.State
      → host.fs.State × Result StartError (Server p host.KeyPair)
  start_server w cfg s = after_certificates cfg (ensure_certificates w cfg s)
