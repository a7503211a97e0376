-- ===== src/Storage/Challenges/Traces.antt =====
-- Sequences of calls of `memoryChallengeStore` in the order in which they take its mutex, with the
-- cleanup worker's rounds anywhere between them.
use mtls_authentication_poc.Prelude.{
  ℕ, ◌+◌, ◌≤◌, ap, inl, inr, not, Option, none, some, List, [], ◌∷◌, arith, if◌then◌else◌, ◌==◌,
  Option-cases, ℤ_eq, ltb_ℤ, Bytes, Text, ℕ_eq, text_eq,
}
use mtls_authentication_poc.Prelude.Dict.{lookup, lookup-retain}
use mtls_authentication_poc.Platform.{Platform, Time, Duration}
use mtls_authentication_poc.Storage.Challenges.{
  MemoryChallenges, generate_and_store_challenge, verify_and_consume_challenge, cleanup,
}
use mtls_authentication_poc.Storage.Challenges.Memory.{
  generate_failed, expiry, IsStore, expiry-generate, consumed, expiry-consume, generate-IsStore,
  consume-IsStore, cleanup-IsStore,
}

pub data Call : Type 0 where
  generates : Option Bytes → Time → Duration → Call
  consumes : Time → Text → Call
  cleans : Time → Call

module _ (p : Platform) where
  unfoldable pub step : Call → MemoryChallenges → MemoryChallenges
  step (generates r now ttl) s = (generate_and_store_challenge p r now ttl s).0
  step (consumes now c) s = (verify_and_consume_challenge now c s).0
  step (cleans now) s = cleanup now s

  -- 1 for a call that accepts the challenge `c`.
  abbrev pub accepts : Text → Call → MemoryChallenges → ℕ
  accepts c (generates r now ttl) s = 0
  accepts c (consumes now d) s =
      if c == d then (if (verify_and_consume_challenge now d s).1 then 1 else 0) else 0
  accepts c (cleans now) s = 0

  -- 1 for a call that issues the challenge `c`.
  abbrev pub issues : Text → Call → ℕ
  issues c (generates none now ttl) = 0
  issues c (generates (some bytes) now ttl) = if c == p.base64_encode bytes then 1 else 0
  issues c (consumes now d) = 0
  issues c (cleans now) = 0

  unfoldable pub count_accepted : Text → List Call → MemoryChallenges → ℕ
  count_accepted c [] s = 0
  count_accepted c (call ∷ calls) s = accepts c call s + count_accepted c calls (step call s)

  unfoldable pub count_issued : Text → List Call → ℕ
  count_issued c [] = 0
  count_issued c (call ∷ calls) = issues c call + count_issued c calls

  abbrev pub weight : Option Time → ℕ
  weight none = 0
  weight (some _) = 1

  step-IsStore : (call : Call) (s : MemoryChallenges) → IsStore s → IsStore (step call s)
  unfolding step
  step-IsStore (generates r now ttl) s h = generate-IsStore p r now ttl s h
  step-IsStore (consumes now c) s h = consume-IsStore now c s h
  step-IsStore (cleans now) s h = cleanup-IsStore now s h

  weight-cleanup :
      (c : Text) (now : Time) (s : MemoryChallenges)
      → IsStore s
      → weight (expiry c (cleanup now s)) ≤ weight (expiry c s)
  unfolding cleanup expiry
  weight-cleanup c now s h =
      rw (lookup-retain (λ exp. not (ltb_ℤ exp now)) c s.challenges h)
        (elim (Option-cases (lookup c s.challenges)) [
          | inl e ↦ rw e (omega arith)
          | inr (exp, e) ↦ rw e (ground arith)
        ])

  step-weight :
      (c : Text) (call : Call) (s : MemoryChallenges)
      → IsStore s
      → accepts c call s + weight (expiry c (step call s)) ≤ weight (expiry c s) + issues c call
  unfolding step
  step-weight c (generates none now ttl) s h = omega (
    arith,
    ap (λ (q : MemoryChallenges × Option (Text × Time)). weight (expiry c q.0))
        (generate_failed p now ttl s),
  )
  step-weight c (generates (some bytes) now ttl) s h =
      ground (arith, expiry-generate p bytes now ttl c s)
  step-weight c (consumes now d) s h = ground (arith, consumed now d s, expiry-consume now d c s)
  step-weight c (cleans now) s h = omega (arith, weight-cleanup c now s h)

  accepted-le :
      (c : Text) (calls : List Call) (s : MemoryChallenges)
      → IsStore s
      → count_accepted c calls s ≤ weight (expiry c s) + count_issued c calls
  unfolding count_accepted count_issued
  accepted-le c [] s h = omega arith
  accepted-le c (call ∷ calls) s h =
      omega
        (arith, step-weight c call s h, accepted-le c calls (step call s) (step-IsStore call s h))

-- In any sequence of calls and cleanups on a store whose map has no key twice, a challenge is
-- accepted at most as often as it is issued, plus once if it is stored at the start.
pub count_accepted-le :
    (p : Platform) (c : Text) (calls : List Call) (s : MemoryChallenges)
    → IsStore s
    → count_accepted p c calls s ≤ weight p (expiry c s) + count_issued p c calls
count_accepted-le p c calls s h = accepted-le p c calls s h
