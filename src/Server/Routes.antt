-- ===== src/Server/Routes.antt =====
-- The handlers of the two listeners of backend/cmd/server/main.go, over the in-memory stores. A path is
-- the one that the multiplexer compares; other paths get its 404.
use mtls_authentication_poc.Prelude.{
  Option, some, if◌then◌else◌, ◌==◌, ℤ_eq, Bytes, codes, ℕ_eq, text_eq,
}
use mtls_authentication_poc.Config.{Config}
use mtls_authentication_poc.Platform.{Platform, Time, Duration}
use mtls_authentication_poc.Storage.Challenges.{memory_challenge_store}
use mtls_authentication_poc.Storage.Devices.{memory_device_repo}
use mtls_authentication_poc.Attestation.Types.{
  Decoders, Policy, default_strict_policy, development_policy,
}
use mtls_authentication_poc.Http.{Request, Reply, failure}
use mtls_authentication_poc.Middleware.{mtls_auth_middleware}
use mtls_authentication_poc.Handlers.Challenge.{ChallengeResponse, serve_challenge}
use mtls_authentication_poc.Handlers.Ping.{ProtectedResponse, serve_ping}
use mtls_authentication_poc.Handlers.Enroll.Request.{Decode}
use mtls_authentication_poc.Handlers.Enroll.Issue.{
  EnrollResponse, EnrollHandler, ServerState, EnrollWorld, serve_enroll,
}

unfoldable pub server_policy : Config → Policy
server_policy cfg =
    let base = if cfg.dev_mode then development_policy else default_strict_policy in
    record base {
      expected_package_name = cfg.expected_app_package;
      min_os_version = cfg.min_os_version;
      min_patch_level = cfg.min_patch_level;
      check_revocation_list = cfg.require_revocation_check;
    }

abbrev pub State : Platform → Type 0
State p = ServerState (memory_challenge_store p) memory_device_repo

-- What one request to the enrollment listener meets: randomness and clock of a challenge, and those
-- of an enrollment.
pub record Conditions : Type 0 where
  pub random : Option Bytes
  pub now : Time
  pub enrollment : EnrollWorld

pub data EnrollReply : Type 0 where
  challenged : Reply ChallengeResponse → EnrollReply
  enrolled : Reply EnrollResponse → EnrollReply
  unrouted : EnrollReply

module _ (p : Platform) (d : Decoders) (decode : Decode) where
  -- `enrollMux`
  unfoldable pub serve_enroll_port :
      Duration → EnrollHandler p → Conditions → Request p.Key → State p → State p × EnrollReply
  serve_enroll_port ttl h c r s =
      if r.path == codes "/api/v1/enroll/challenge"
      then (let served =
            serve_challenge p (memory_challenge_store p) ttl r c.random c.now s.challenges in
          (record s { challenges = served.0 }, challenged served.1))
      else if r.path == codes "/api/v1/enroll"
      then (let served =
            serve_enroll p d (memory_challenge_store p) memory_device_repo decode c.enrollment h r
              s in
          (served.0, enrolled served.1))
      else (s, unrouted)

module _ (p : Platform) where
  -- `mtlsMux`
  unfoldable pub serve_mtls_port : Time → Request p.Key → State p → Reply ProtectedResponse
  serve_mtls_port now r s =
      if r.path == codes "/api/v1/protected/ping"
      then mtls_auth_middleware p memory_device_repo (some s.devices) (serve_ping p now) r
      else failure 404 "404 page not found"
