-- ===== src/Storage/Challenges.antt =====
-- backend/internal/storage/challenge_store.go: the interface `ChallengeStore`, and the in-memory
-- implementation. Randomness and the clock are arguments: `none` is a failure of `rand.Read`. The
-- mutex makes each call, and each round of the cleanup, one step.
pub mod Laws
pub mod Memory
pub mod Traces
use mtls_authentication_poc.Prelude.{
  ◌+◌, refl, ite, Bool, false, not, Option, none, some, [], arith, ℕ_discrete, ℤ, ℤ_discrete, ℤ_eq,
  ◌+ℤ◌, ltb_ℤ, Bytes, Text, text_discrete, ℕ_eq, text_eq, ◌>>=◌, ◌>>◌,
}
use mtls_authentication_poc.Prelude.Dict.{Dict, lookup, insert, erase, retain}
use mtls_authentication_poc.Platform.{Platform, Time, Duration}

pub record ChallengeStore : Type 1 where
  pub State : Type 0
  pub generate_and_store_challenge :
      Option Bytes → Time → Duration → State → State × Option (Text × Time)
  pub verify_and_consume_challenge : Time → Text → State → State × Bool

pub record MemoryChallenges : Type 0 where
  pub challenges : Dict Time

abbrev pub new_memory_challenges : MemoryChallenges
new_memory_challenges = record { challenges = [] }

unfoldable pub generate_and_store_challenge :
    Platform
    → Option Bytes
    → Time
    → Duration
    → MemoryChallenges
    → MemoryChallenges × Option (Text × Time)
generate_and_store_challenge p none now ttl s = (s, none)
generate_and_store_challenge p (some bytes) now ttl s =
    let challenge = p.base64_encode bytes in
    let expires_at = now +ℤ ttl in
    (
      record s { challenges = insert challenge expires_at s.challenges },
      some (challenge, expires_at),
    )

unfoldable pub verify_and_consume_challenge :
    Time → Text → MemoryChallenges → MemoryChallenges × Bool
verify_and_consume_challenge now challenge s = elim (lookup challenge s.challenges) [
  | none ↦ (s, false)
  | some expires_at ↦ (record s { challenges = erase challenge s.challenges }, ltb_ℤ now expires_at)
]

-- One round of `cleanupWorker`: an entry stays unless `now` is after its expiry.
unfoldable pub cleanup : Time → MemoryChallenges → MemoryChallenges
cleanup now s = record s { challenges = retain (λ exp. not (ltb_ℤ exp now)) s.challenges }

abbrev pub memory_challenge_store : Platform → ChallengeStore
memory_challenge_store p = record {
  State = MemoryChallenges;
  generate_and_store_challenge = generate_and_store_challenge p;
  verify_and_consume_challenge = verify_and_consume_challenge;
}
