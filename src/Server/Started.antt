-- ===== src/Server/Started.antt =====
-- What holds of the server from its start on.
use mtls_authentication_poc.Prelude.{◌≡◌, Required, [], ℤ_eq, ℕ_eq, text_eq}
use mtls_authentication_poc.Platform.{Platform}
use mtls_authentication_poc.Config.{Config}
use mtls_authentication_poc.Attestation.Types.{Policy}
use mtls_authentication_poc.Attestation.Roots.Pool.{AreRoots}
use mtls_authentication_poc.Attestation.Verifier.Client.{HasClient}
use mtls_authentication_poc.Attestation.Roots.Google.{default_google_root_pems}
use mtls_authentication_poc.Http.{Request}
use mtls_authentication_poc.Server.Routes.{server_policy}
use mtls_authentication_poc.Storage.Challenges.{new_memory_challenges}
use mtls_authentication_poc.Server.Startup.{Host, Server}

module _ (p : Platform) (host : Host) where
  -- The verifier that a server has built, and that it knows no device.
  record IsStarted (cfg : Config) (server : Server p host.KeyPair) : Type 0 where
    roots : AreRoots p default_google_root_pems server.handler.root_pool
    policy : server.handler.policy ≡ server_policy cfg
    armed : Required cfg.require_revocation_check (HasClient server.state.revocations)
    empty : server.state.devices.devices ≡ []
    unissued : server.state.challenges ≡ new_memory_challenges
