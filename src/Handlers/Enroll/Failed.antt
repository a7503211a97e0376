-- ===== src/Handlers/Enroll/Failed.antt =====
-- An enrollment that fails registers nothing.
use mtls_authentication_poc.Prelude.{
  ◌≡◌, refl, ap, ◌∙◌, inl, inr, ℤ_eq, Bytes, Text, ℕ_eq, text_eq, Result, ok, err, or_fail,
}
use mtls_authentication_poc.Platform.{Platform, Certificate}
use mtls_authentication_poc.Storage.Challenges.{ChallengeStore}
use mtls_authentication_poc.Storage.Devices.{DeviceRepo, DeviceRecord, RepoError}
use mtls_authentication_poc.Storage.Devices.Laws.{IsLawful}
use mtls_authentication_poc.Attestation.Types.{Decoders, AttestationRecord}
use mtls_authentication_poc.Attestation.Revocation.{public_key_fingerprint}
use mtls_authentication_poc.Ca.Signer.{sign_csr}
use mtls_authentication_poc.Http.{Request, Failure, Step, bind, lift, bind-eq-err}
use mtls_authentication_poc.Handlers.Enroll.Request.{Decode, Submission, read_submission}
use mtls_authentication_poc.Handlers.Enroll.Issue.{
  EnrollHandler, ServerState, EnrollWorld, consume_challenge, verify_submission, signed_or_failed,
  persist, device_record, enroll_response, issue, enroll, register_signed, sign_for, check_revoked,
  issue_for, verify_and_issue, enroll_submission,
}
use mtls_authentication_poc.Handlers.Enroll.Outcome.{consume_challenge_keeps}
use mtls_authentication_poc.Handlers.Enroll.Registry.{persist-Holds, Holds}

module _ (p : Platform) (d : Decoders) (C : ChallengeStore) (R : DeviceRepo) (law : IsLawful R)
    (k : Text) (q : Result RepoError DeviceRecord) where
  -- A step that fails leaves the record of `k`.
  abbrev Harmless : {A : Type 0} → Step (ServerState C R) A → Type 0
  Harmless m =
      (s : ServerState C R) (e : Failure)
      → (m s).1 ≡ err e
      → Holds p d C R law k q s
      → Holds p d C R law k q (m s).0

  bind-Harmless :
      {A B : Type 0} (m : Step (ServerState C R) A) (f : A → Step (ServerState C R) B)
      → Harmless m
      → ((a : A) (s : ServerState C R) (e : Failure)
          → (m s).1 ≡ ok a
          → (f a (m s).0).1 ≡ err e
          → Holds p d C R law k q s
          → Holds p d C R law k q (f a (m s).0).0)
      → Harmless (bind m f)
  bind-Harmless m f hm hf s e h holds = elim (bind-eq-err m f s e h) [
    | inl (failed, same) ↦ rw same (hm s e failed holds)
    | inr (a, done, failed, same) ↦ rw same (hf a s e done failed holds)
  ]

  module _ (w : EnrollWorld) (h : EnrollHandler p) (sub : Submission p) where
    register_signed-Harmless :
        (attested : AttestationRecord) (identity : Text) (signed : Certificate p.Key × Bytes)
        → Harmless (register_signed p d C R w h sub attested identity signed)
    unfolding register_signed
    register_signed-Harmless attested identity signed =
        bind-Harmless (persist p d C R (device_record p d C R w sub identity attested signed.0))
          (λ _. lift (ok (enroll_response p d C R h sub identity signed.1)))
          (λ s e failed holds. persist-Holds p d C R law k q _ s holds (λ written. cc))
          (λ a s e done failed holds. cc)

    sign_for-Harmless :
        (attested : AttestationRecord) (identity : Text)
        → Harmless (sign_for p d C R w h sub attested identity)
    unfolding sign_for
    sign_for-Harmless attested identity =
        bind-Harmless
          (lift (
            signed_or_failed p d C R
              (sign_csr p w.draws h.ca sub.csr_der identity h.client_cert_ttl)))
          (register_signed p d C R w h sub attested identity) (λ s e failed holds. holds)
          (λ signed s e done failed holds.
            register_signed-Harmless attested identity signed s e failed holds)

    issue_for-Harmless :
        (attested : AttestationRecord) (identity : Text)
        → Harmless (issue_for p d C R w h sub attested identity)
    unfolding issue_for
    issue_for-Harmless attested identity =
        bind-Harmless (check_revoked p d C R identity)
          (λ _. sign_for p d C R w h sub attested identity) (λ s e failed holds. holds)
          (λ _ s e done failed holds. sign_for-Harmless attested identity s e failed holds)

    issue-Harmless : (attested : AttestationRecord) → Harmless (issue p d C R w h sub attested)
    unfolding issue
    issue-Harmless attested =
        bind-Harmless (lift (or_fail (public_key_fingerprint p sub.csr.public_key) _))
          (issue_for p d C R w h sub attested) (λ s e failed holds. holds)
          (λ identity s e done failed holds. issue_for-Harmless attested identity s e failed holds)

    verify_and_issue-Harmless : Harmless (verify_and_issue p d C R w h sub)
    unfolding verify_and_issue verify_submission
    verify_and_issue-Harmless =
        bind-Harmless (verify_submission p d C R w.verification h sub) (issue p d C R w h sub)
          (λ s e failed holds. holds)
          (λ attested s e done failed holds. issue-Harmless attested _ e failed holds)

    enroll_submission-Harmless : Harmless (enroll_submission p d C R w h sub)
    unfolding enroll_submission
    enroll_submission-Harmless =
        bind-Harmless (consume_challenge p d C R w.consumed_at h.policy sub.challenge)
          (λ _. verify_and_issue p d C R w h sub) (λ s e failed holds. consumed s holds)
          (λ _ s e done failed holds. verify_and_issue-Harmless _ e failed (consumed s holds))
      where
        consumed :
            (s : ServerState C R)
            → Holds p d C R law k q s
            → Holds p d C R law k q
                (consume_challenge p d C R w.consumed_at h.policy sub.challenge s).0
        consumed s holds =
            ap (R.get_device k)
              (consume_challenge_keeps p d C R w.consumed_at h.policy sub.challenge s).0
            ∙ holds

-- Over a registry that meets its laws, an enrollment that fails, at whatever step, leaves every
-- record of the registry as it was.
pub enroll_failed :
    (p : Platform) (d : Decoders) (C : ChallengeStore) (R : DeviceRepo) (law : IsLawful R)
    (decode : Decode) (w : EnrollWorld) (h : EnrollHandler p) (r : Request p.Key)
    (s : ServerState C R) (e : Failure) (k : Text)
    → (enroll p d C R decode w h r s).1 ≡ err e
    → R.get_device k (enroll p d C R decode w h r s).0.devices ≡ R.get_device k s.devices
unfolding enroll
enroll_failed p d C R law decode w h r s e k failed =
    bind-Harmless p d C R law k (R.get_device k s.devices)
      (lift (read_submission p d decode h.policy r)) (enroll_submission p d C R w h)
      (λ s e failed holds. holds)
      (λ sub s e done failed holds.
        enroll_submission-Harmless p d C R law k _ w h sub s e failed holds)
      s e failed refl
