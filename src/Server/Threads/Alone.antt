-- ===== src/Server/Threads/Alone.antt =====
-- A thread with no other between its steps, beside the handler in one piece.
use mtls_authentication_poc.Prelude.{
  ℕ, zero, suc, ◌≡◌, refl, ap, Option, none, some, ℤ_eq, Text, ℕ_eq, text_eq, Result, ok, err,
  or_fail,
}
use mtls_authentication_poc.Platform.{Platform}
use mtls_authentication_poc.Storage.Challenges.{memory_challenge_store}
use mtls_authentication_poc.Storage.Devices.{memory_device_repo}
use mtls_authentication_poc.Attestation.Types.{Decoders, AttestationRecord}
use mtls_authentication_poc.Attestation.Revocation.{public_key_fingerprint}
use mtls_authentication_poc.Http.{Request, Failure, http_error, Step, continue}
use mtls_authentication_poc.Handlers.Enroll.Request.{Decode, Submission, read_submission}
use mtls_authentication_poc.Handlers.Enroll.Issue.{
  EnrollHandler, EnrollResponse, EnrollWorld, consume_challenge, verify_submission, check_revoked,
  sign_for, issue_for, issue, verify_and_issue, enroll_submission, enroll,
}
use mtls_authentication_poc.Server.Routes.{State}
use mtls_authentication_poc.Server.Threads.{
  Thread, arrived, consuming, verifying, identifying, checking, signing, answered, failed, resume,
  advance,
}

module _ (p : Platform) (d : Decoders) (decode : Decode) (h : EnrollHandler p) where
  -- The first `n` steps of a thread, with no other between them.
  unfoldable pub run : ℕ → Thread p → State p → State p × Thread p
  run zero thread s = (s, thread)
  run (suc n) thread s = let q = advance p d decode h thread s in run n q.1 q.0

  -- What a thread at its end answers.
  abbrev pub outcome : Thread p → Option (Result Failure EnrollResponse)
  outcome (answered sub resp) = some (ok resp)
  outcome (failed e) = some (err e)
  outcome _ = none

  -- `n` steps of the thread end in the state and with the result of `q`.
  abbrev pub Ends : ℕ → Thread p → State p → State p × Result Failure EnrollResponse → Type 0
  Ends n thread s q = ((run n thread s).0 ≡ q.0) × (outcome (run n thread s).1 ≡ some q.1)

  run-failed : (n : ℕ) (e : Failure) (s : State p) → run n (failed e) s ≡ (s, failed e)
  unfolding run advance
  run-failed zero e s = refl
  run-failed (suc n) e s = run-failed n e s

  Ends-failed : (n : ℕ) (e : Failure) (s : State p) → Ends n (failed e) s (s, err e)
  Ends-failed n e s = (
    ap (λ (q : State p × Thread p). q.0) (run-failed n e s),
    ap (λ (q : State p × Thread p). outcome q.1) (run-failed n e s),
  )

  -- The rest of a thread after a step, and the rest of a chain after its first part.
  Ends-resume {ℓ} :
      {A : Type ℓ} (n : ℕ) (g : A → Thread p) (f : A → Step (State p) EnrollResponse)
      (q : State p × Result Failure A)
      → ((a : A) (s : State p) → Ends n (g a) s (f a s))
      → Ends n (resume p g q.1) q.0 (continue f q)
  Ends-resume n g f (s, ok a) same = same a s
  Ends-resume n g f (s, err e) same = Ends-failed n e s

  ended :
      (sub : Submission p) (q : State p × Result Failure EnrollResponse)
      → Ends 0 (resume p (answered sub) q.1) q.0 q
  unfolding run
  ended sub (s, ok resp) = (refl, refl)
  ended sub (s, err e) = (refl, refl)

  module _ (w : EnrollWorld) (sub : Submission p) where
    signing-Ends :
        (attested : AttestationRecord) (identity : Text) (s : State p)
        → Ends 1
            (signing w sub attested identity)
            s
            (sign_for p d (memory_challenge_store p) memory_device_repo w h sub attested identity s)
    unfolding run advance
    signing-Ends attested identity s =
        ended sub
          (sign_for p d (memory_challenge_store p) memory_device_repo w h sub attested identity s)

    checking-Ends :
        (attested : AttestationRecord) (identity : Text) (s : State p)
        → Ends 2 (checking w sub attested identity) s (
            issue_for p d (memory_challenge_store p) memory_device_repo w h sub attested identity s)
    unfolding run advance issue_for
    checking-Ends attested identity s =
        Ends-resume 1 (λ _. signing w sub attested identity)
          (λ _.
            sign_for p d (memory_challenge_store p) memory_device_repo w h sub attested identity)
          (check_revoked p d (memory_challenge_store p) memory_device_repo identity s)
          (λ _. signing-Ends attested identity)

    identifying-Ends :
        (attested : AttestationRecord) (s : State p)
        → Ends 3
            (identifying w sub attested)
            s
            (issue p d (memory_challenge_store p) memory_device_repo w h sub attested s)
    unfolding run advance issue
    identifying-Ends attested s =
        Ends-resume 2 (checking w sub attested)
          (issue_for p d (memory_challenge_store p) memory_device_repo w h sub attested)
          (
            s,
            or_fail (public_key_fingerprint p sub.csr.public_key)
                (http_error 500 "failed to derive device identity"),
          )
          (checking-Ends attested)

    verifying-Ends :
        (s : State p)
        → Ends 4
            (verifying w sub)
            s
            (verify_and_issue p d (memory_challenge_store p) memory_device_repo w h sub s)
    unfolding run advance verify_and_issue
    verifying-Ends s =
        Ends-resume 3 (identifying w sub)
          (issue p d (memory_challenge_store p) memory_device_repo w h sub)
          (verify_submission p d (memory_challenge_store p) memory_device_repo w.verification h sub
            s)
          identifying-Ends

    consuming-Ends :
        (s : State p)
        → Ends 5
            (consuming w sub)
            s
            (enroll_submission p d (memory_challenge_store p) memory_device_repo w h sub s)
    unfolding run advance enroll_submission
    consuming-Ends s =
        Ends-resume 4 (λ _. verifying w sub)
          (λ _. verify_and_issue p d (memory_challenge_store p) memory_device_repo w h sub)
          (consume_challenge p d (memory_challenge_store p) memory_device_repo w.consumed_at
            h.policy sub.challenge s)
          (λ _. verifying-Ends)

  -- Six steps of a thread with no other between them end it, in the state that the handler leaves and
  -- with the answer that it gives when it runs in one piece.
  pub run-enroll :
      (w : EnrollWorld) (r : Request p.Key) (s : State p)
      → Ends 6
          (arrived w r)
          s
          (enroll p d (memory_challenge_store p) memory_device_repo decode w h r s)
  unfolding run advance enroll
  run-enroll w r s =
      Ends-resume 5 (consuming w)
        (enroll_submission p d (memory_challenge_store p) memory_device_repo w h)
        (s, read_submission p d decode h.policy r) (consuming-Ends w)
