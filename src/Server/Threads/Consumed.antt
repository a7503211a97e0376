-- ===== src/Server/Threads/Consumed.antt =====
-- Which threads hold a challenge, and what their steps do to it.
use mtls_authentication_poc.Prelude.{
  ◌≡◌, refl, sym, ap, ◌∙◌, ◌⊎◌, inl, inr, true, false, Option, none, some, [], ◌∷◌, arith, ==_refl,
  ℤ_eq, Bytes, Text, ℕ_eq, text_eq, Result, ok, err, guard-eq-ok,
}
use mtls_authentication_poc.Platform.{Platform, Time}
use mtls_authentication_poc.Storage.Challenges.{memory_challenge_store}
use mtls_authentication_poc.Storage.Challenges.Laws.{not_expired}
use mtls_authentication_poc.Storage.Challenges.Memory.{expiry, expiry-consume, consumed}
use mtls_authentication_poc.Storage.Devices.{memory_device_repo}
use mtls_authentication_poc.Attestation.Types.{Decoders}
use mtls_authentication_poc.Http.{Failure}
use mtls_authentication_poc.Handlers.Enroll.Request.{Submission}
use mtls_authentication_poc.Handlers.Enroll.Request.{Decode}
use mtls_authentication_poc.Handlers.Enroll.Kept.{sign_for_keeps}
use mtls_authentication_poc.Handlers.Enroll.Issue.{
  EnrollHandler, EnrollWorld, consume_challenge, verify_submission,
}
use mtls_authentication_poc.Server.Routes.{State}
use mtls_authentication_poc.Server.Threads.{
  IsArrived, Thread, arrived, consuming, verifying, identifying, checking, signing, answered,
  failed, resume, advance,
}

module _ (p : Platform) (c : Text) where
  abbrev pub Holds : Submission p → Type 0
  Holds sub = p.base64_encode sub.challenge ≡ c

  -- The thread has consumed the challenge `c`, and has not failed since.
  abbrev pub HasConsumed : Thread p → Type 0
  HasConsumed (verifying w sub) = Holds sub
  HasConsumed (identifying w sub attested) = Holds sub
  HasConsumed (checking w sub attested identity) = Holds sub
  HasConsumed (signing w sub attested identity) = Holds sub
  HasConsumed (answered sub resp) = Holds sub
  HasConsumed _ = ⊥

  pub arrived-not_consumed : (t : Thread p) → IsArrived p t → ¬ HasConsumed t
  arrived-not_consumed (arrived w r) h = λ x. x
  arrived-not_consumed (consuming w sub) h = absurd h
  arrived-not_consumed (verifying w sub) h = absurd h
  arrived-not_consumed (identifying w sub attested) h = absurd h
  arrived-not_consumed (checking w sub attested identity) h = absurd h
  arrived-not_consumed (signing w sub attested identity) h = absurd h
  arrived-not_consumed (answered sub resp) h = absurd h
  arrived-not_consumed (failed e) h = absurd h

  -- The store does not hold `c`.
  abbrev pub Gone : State p → Type 0
  Gone s = expiry c s.challenges ≡ none

  -- The store held `c`, and does not hold it any more.
  abbrev pub Taken : State p → State p → Type 0
  Taken s t = (¬ Gone s) × Gone t

module _ (p : Platform) (d : Decoders) (decode : Decode) (h : EnrollHandler p) (c : Text)
    (strict : h.policy.allow_empty_attestation ≡ false) where
  abbrev consume : EnrollWorld → Submission p → State p → State p × Result Failure (Unit {0})
  consume w sub =
      consume_challenge p d (memory_challenge_store p) memory_device_repo w.consumed_at h.policy
        sub.challenge

  consume_challenge-Gone :
      (now : Time) (challenge : Bytes) (s : State p)
      → Gone p c s
      → Gone p c
          (consume_challenge p d
            (memory_challenge_store p)
            memory_device_repo
            now
            h.policy
            challenge
            s).0
  unfolding consume_challenge
  consume_challenge-Gone now [] s gone = gone
  consume_challenge-Gone now (b ∷ bs) s gone =
      expiry-consume now (p.base64_encode (b ∷ bs)) c s.challenges ∙ ground (arith, gone)

  none-not_fresh : (now : Time) (o : Option Time) → not_expired now o ≡ true → ¬ (o ≡ none)
  none-not_fresh now none fresh e = cc
  none-not_fresh now (some exp) fresh e = cc

  pub consume_challenge-Taken :
      (now : Time) (challenge : Bytes) (s : State p)
      → (consume_challenge p d
          (memory_challenge_store p)
          memory_device_repo
          now
          h.policy
          challenge
          s).1
        ≡ ok tt
      → p.base64_encode challenge ≡ c
      → Taken p c s
          (consume_challenge p d
            (memory_challenge_store p)
            memory_device_repo
            now
            h.policy
            challenge
            s).0
  unfolding consume_challenge
  consume_challenge-Taken now [] s e same = ground arith
  consume_challenge-Taken now (b ∷ bs) s e same = (
    rw (← same) (
        none-not_fresh now (expiry (p.base64_encode (b ∷ bs)) s.challenges)
          (sym (consumed now (p.base64_encode (b ∷ bs)) s.challenges) ∙ guard-eq-ok _ _ e)),
    expiry-consume now (p.base64_encode (b ∷ bs)) c s.challenges ∙ rw (same, ==_refl c) refl,
  )

  resume-HasConsumed {ℓ} :
      {A : Type ℓ} (f : A → Thread p) (r : Result Failure A)
      → HasConsumed p c (resume p f r)
      → (a : A) × (r ≡ ok a) × HasConsumed p c (f a)
  resume-HasConsumed f (ok a) q = (a, refl, q)
  resume-HasConsumed f (err e) q = absurd q

  -- A step takes `c` from the store exactly when it makes the thread hold it.
  pub advance-HasConsumed :
      (t : Thread p) (s : State p)
      → HasConsumed p c (advance p d decode h t s).1
      → HasConsumed p c t ⊎ Taken p c s (advance p d decode h t s).0
  unfolding advance
  advance-HasConsumed (arrived w r) s q =
      let (_, _, nothing) = resume-HasConsumed (consuming w) _ q in absurd nothing
  advance-HasConsumed (consuming w sub) s q =
      let (_, e, same) = resume-HasConsumed (λ _. verifying w sub) _ q in
      inr (consume_challenge-Taken w.consumed_at sub.challenge s e same)
  advance-HasConsumed (verifying w sub) s q =
      let (_, _, same) = resume-HasConsumed (identifying w sub) _ q in inl same
  advance-HasConsumed (identifying w sub attested) s q =
      let (_, _, same) = resume-HasConsumed (checking w sub attested) _ q in inl same
  advance-HasConsumed (checking w sub attested identity) s q =
      let (_, _, same) = resume-HasConsumed (λ _. signing w sub attested identity) _ q in inl same
  advance-HasConsumed (signing w sub attested identity) s q =
      let (_, _, same) = resume-HasConsumed (answered sub) _ q in inl same
  advance-HasConsumed (answered sub resp) s q = inl q
  advance-HasConsumed (failed e) s q = absurd q

  pub advance-Gone :
      (t : Thread p) (s : State p) → Gone p c s → Gone p c (advance p d decode h t s).0
  unfolding advance verify_submission
  advance-Gone (arrived w r) s gone = gone
  advance-Gone (consuming w sub) s gone = consume_challenge-Gone w.consumed_at sub.challenge s gone
  advance-Gone (verifying w sub) s gone = gone
  advance-Gone (identifying w sub attested) s gone = gone
  advance-Gone (checking w sub attested identity) s gone = gone
  advance-Gone (signing w sub attested identity) s gone =
      ap (expiry c) (
        (sign_for_keeps p d (memory_challenge_store p) memory_device_repo w h sub attested identity
          s).0)
      ∙ gone
  advance-Gone (answered sub resp) s gone = gone
  advance-Gone (failed e) s gone = gone
