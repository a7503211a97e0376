-- ===== src/Handlers/Challenge.antt =====
-- backend/internal/handlers/challenge_handler.go
use mtls_authentication_poc.Prelude.{
  not, Option, none, some, if◌then◌else◌, ◌==◌, ℤ, ℤ_eq, Bytes, Text, ℕ_eq, text_eq,
}
use mtls_authentication_poc.Platform.{Platform, Time, Duration}
use mtls_authentication_poc.Storage.Challenges.{ChallengeStore}
use mtls_authentication_poc.Http.{Request, Reply, failure, json, method_get}

pub record ChallengeResponse : Type 0 where
  pub challenge : Text
  pub expires_in : ℤ
  pub expires_at : Text

module _ (p : Platform) (C : ChallengeStore) where
  abbrev pub challenge_reply : Duration → Option (Text × Time) → Reply ChallengeResponse
  challenge_reply ttl none = failure 500 "Failed to generate attestation challenge"
  challenge_reply ttl (some (challenge, expires_at)) = json 200 (record {
    challenge = challenge;
    expires_in = p.seconds_of ttl;
    expires_at = p.format_time expires_at;
  })

  -- `random` is what `rand.Read` yields, and `now` the clock in the store.
  unfoldable pub serve_challenge :
      Duration → Request p.Key → Option Bytes → Time → C.State → C.State × Reply ChallengeResponse
  serve_challenge ttl r random now s =
      if not (r.method == method_get)
      then (s, failure 405 "Method not allowed")
      else (let generated = C.generate_and_store_challenge random now ttl s in
          (generated.0, challenge_reply ttl generated.1))
