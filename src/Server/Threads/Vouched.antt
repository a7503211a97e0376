-- ===== src/Server/Threads/Vouched.antt =====
-- What a thread that has passed the attestation can vouch for.
use mtls_authentication_poc.Prelude.{
  ◌≡◌, refl, ◌⊎◌, inl, inr, Required, false, Option, some, ℤ_eq, Text, ℕ_eq, text_eq, ok,
  or_fail-eq-ok,
}
use mtls_authentication_poc.Platform.{Platform, Time}
use mtls_authentication_poc.Storage.Challenges.{memory_challenge_store}
use mtls_authentication_poc.Server.Threads.Consumed.{Gone, consume_challenge-Taken}
use mtls_authentication_poc.Storage.Devices.{memory_device_repo}
use mtls_authentication_poc.Attestation.Types.{Decoders, AttestationRecord}
use mtls_authentication_poc.Attestation.Revocation.{RevocationStatusClient, public_key_fingerprint}
use mtls_authentication_poc.Attestation.Verifier.{verify_attestation}
use mtls_authentication_poc.Attestation.Verifier.Client.{HasClient, verify_attestation-HasClient}
use mtls_authentication_poc.Handlers.Enroll.Kept.{sign_for_keeps}
use mtls_authentication_poc.Handlers.Enroll.Request.{Decode, Submission}
use mtls_authentication_poc.Handlers.Enroll.Issue.{
  EnrollHandler, EnrollWorld, verifier_of, consume_challenge, verify_submission,
}
use mtls_authentication_poc.Handlers.Enroll.Outcome.{
  consume_challenge_keeps, verified_or_failed-eq-ok,
}
use mtls_authentication_poc.Server.Routes.{State}
use mtls_authentication_poc.Server.Threads.{
  Thread, IsArrived, arrived, consuming, verifying, identifying, checking, signing, answered,
  failed, resume_keeps, advance,
}

module _ (p : Platform) (d : Decoders) (decode : Decode) (h : EnrollHandler p) (I : Text → Type 0)
    (strict : h.policy.allow_empty_attestation ≡ false) where
  -- The handler's verifier returned the record for the key of the request.
  abbrev pub IsVerified : EnrollWorld → Submission p → AttestationRecord → Type 0
  IsVerified w sub attested =
      I (p.base64_encode sub.challenge)
      × (client : Option RevocationStatusClient) × Required h.policy.check_revocation_list
          (HasClient client)
      × ((verify_attestation p d w.verification
            (verifier_of p d (memory_challenge_store p) memory_device_repo h client) sub.chain_der
            sub.challenge sub.csr.public_key).1
          ≡ ok attested)

  -- `I` holds of every challenge that the store holds.
  abbrev pub IsHeard : State p → Type 0
  IsHeard s = (c : Text) → Gone p c s ⊎ I c

  -- There is a revocation client, if the policy asks for it.
  abbrev pub IsArmed : State p → Type 0
  IsArmed s = Required h.policy.check_revocation_list (HasClient s.revocations)

  -- What a thread that has passed the attestation has found out.
  abbrev pub IsVouched : Thread p → Type 0
  IsVouched (verifying w sub) = I (p.base64_encode sub.challenge)
  IsVouched (identifying w sub attested) = IsVerified w sub attested
  IsVouched (checking w sub attested identity) =
      IsVerified w sub attested × (public_key_fingerprint p sub.csr.public_key ≡ some identity)
  IsVouched (signing w sub attested identity) =
      IsVerified w sub attested × (public_key_fingerprint p sub.csr.public_key ≡ some identity)
  IsVouched _ = Unit

  pub arrived-IsVouched : (t : Thread p) → IsArrived p t → IsVouched t
  arrived-IsVouched (arrived w r) a = tt
  arrived-IsVouched (consuming w sub) a = absurd a
  arrived-IsVouched (verifying w sub) a = absurd a
  arrived-IsVouched (identifying w sub attested) a = absurd a
  arrived-IsVouched (checking w sub attested identity) a = absurd a
  arrived-IsVouched (signing w sub attested identity) a = absurd a
  arrived-IsVouched (answered sub resp) a = absurd a
  arrived-IsVouched (failed e) a = absurd a

  consumed-I :
      (now : Time) (sub : Submission p) (s : State p)
      → IsHeard s
      → (consume_challenge p d
          (memory_challenge_store p)
          memory_device_repo
          now
          h.policy
          sub.challenge
          s).1
        ≡ ok tt
      → I (p.base64_encode sub.challenge)
  consumed-I now sub s heard e =
      let c = p.base64_encode sub.challenge in
      elim (heard c) [
        | inl gone ↦
            absurd
              ((consume_challenge-Taken p d decode h c strict now sub.challenge s e refl).0 gone)
        | inr i ↦ i
      ]

  pub advance-IsVouched :
      (t : Thread p) (s : State p)
      → IsArmed s
      → IsHeard s
      → IsVouched t
      → IsVouched (advance p d decode h t s).1
  unfolding advance verify_submission
  advance-IsVouched (arrived w r) s armed heard q =
      resume_keeps p IsVouched (consuming w) _ (λ _ _. tt) (λ _. tt)
  advance-IsVouched (consuming w sub) s armed heard q =
      resume_keeps p IsVouched (λ _. verifying w sub) _
        (λ _ e. consumed-I w.consumed_at sub s heard e) (λ _. tt)
  advance-IsVouched (verifying w sub) s armed heard q =
      resume_keeps p IsVouched (identifying w sub) _
        (λ attested e. (
          q,
          s.revocations,
          armed,
          verified_or_failed-eq-ok p d (memory_challenge_store p) memory_device_repo _ attested e,
        ))
        (λ _. tt)
  advance-IsVouched (identifying w sub attested) s armed heard q =
      resume_keeps p IsVouched (checking w sub attested) _ (λ identity e. (q, or_fail-eq-ok _ _ e))
        (λ _. tt)
  advance-IsVouched (checking w sub attested identity) s armed heard q =
      resume_keeps p IsVouched (λ _. signing w sub attested identity) _ (λ _ _. q) (λ _. tt)
  advance-IsVouched (signing w sub attested identity) s armed heard q =
      resume_keeps p IsVouched (answered sub) _ (λ _ _. tt) (λ _. tt)
  advance-IsVouched (answered sub resp) s armed heard q = q
  advance-IsVouched (failed e) s armed heard q = q

  verify-IsArmed :
      (w : EnrollWorld) (sub : Submission p) (s : State p)
      → IsArmed s
      → IsArmed
          (verify_submission p d
            (memory_challenge_store p)
            memory_device_repo
            w.verification
            h
            sub
            s).0
  unfolding verify_submission
  verify-IsArmed w sub s (inl off) = inl off
  verify-IsArmed w sub s (inr has) = inr (
      verify_attestation-HasClient p d w.verification
        (verifier_of p d (memory_challenge_store p) memory_device_repo h s.revocations)
        sub.chain_der sub.challenge sub.csr.public_key has)

  pub advance-IsArmed :
      (t : Thread p) (s : State p) → IsArmed s → IsArmed (advance p d decode h t s).0
  unfolding advance
  advance-IsArmed (arrived w r) s armed = armed
  advance-IsArmed (consuming w sub) s armed =
      rw
        (consume_challenge_keeps p d (memory_challenge_store p) memory_device_repo w.consumed_at
          h.policy sub.challenge s).1
        armed
  advance-IsArmed (verifying w sub) s armed = verify-IsArmed w sub s armed
  advance-IsArmed (identifying w sub attested) s armed = armed
  advance-IsArmed (checking w sub attested identity) s armed = armed
  advance-IsArmed (signing w sub attested identity) s armed =
      rw
        (sign_for_keeps p d (memory_challenge_store p) memory_device_repo w h sub attested identity
          s).1
        armed
  advance-IsArmed (answered sub resp) s armed = armed
  advance-IsArmed (failed e) s armed = armed
