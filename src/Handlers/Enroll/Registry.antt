-- ===== src/Handlers/Enroll/Registry.antt =====
-- What an enrollment does to the records of the registry, whatever its outcome.
use mtls_authentication_poc.Prelude.{
  ◌≡◌, refl, sym, ap, ◌∙◌, subst, true, false, Option, none, some, ==_refl, ==-ne, ℤ_eq, Bytes,
  Text, ℕ_eq, text_eq, Result, ok, or_fail,
}
use mtls_authentication_poc.Platform.{Platform, Certificate}
use mtls_authentication_poc.Storage.Challenges.{ChallengeStore}
use mtls_authentication_poc.Storage.Devices.{DeviceRepo, DeviceRecord, RepoError}
use mtls_authentication_poc.Storage.Devices.Laws.{IsLawful}
use mtls_authentication_poc.Attestation.Types.{Decoders, AttestationRecord}
use mtls_authentication_poc.Attestation.Revocation.{public_key_fingerprint}
use mtls_authentication_poc.Ca.Signer.{sign_csr}
use mtls_authentication_poc.Http.{Request, lift, bind_keeps, bind-eq-ok}
use mtls_authentication_poc.Handlers.Enroll.Request.{Decode, Submission, read_submission}
use mtls_authentication_poc.Handlers.Enroll.Issue.{
  EnrollResponse, EnrollHandler, ServerState, EnrollWorld, consume_challenge, verify_submission,
  signed_or_failed, registered_or_revoked, persist, device_record, enroll_response, issue, enroll,
  register_signed, sign_for, check_revoked, issue_for, verify_and_issue, enroll_submission,
}
use mtls_authentication_poc.Handlers.Enroll.Outcome.{
  NotRevoked, consume_challenge_keeps, refuse_revoked-eq-ok, registered_or_revoked-eq-ok,
}

module _ (p : Platform) (d : Decoders) (C : ChallengeStore) (R : DeviceRepo)
    (law : IsLawful R) where
  -- The record of `k` is `q`.
  abbrev pub Holds : Text → Result RepoError DeviceRecord → ServerState C R → Type 0
  Holds k q s = R.get_device k s.devices ≡ q

  registered_or_revoked-Holds :
      (k : Text) (q : Result RepoError DeviceRecord) (r : DeviceRecord) (s : ServerState C R)
      (o : Option RepoError)
      → (R.register_device r s.devices).1 ≡ o
      → Holds k q s
      → ((o ≡ none) → ¬ (k ≡ r.identity))
      → Holds k q
          (registered_or_revoked p d C R r.cert_serial s ((R.register_device r s.devices).0, o)).0
  registered_or_revoked-Holds k q r s none e h other =
      law.get-register r k s.devices e ∙ rw (==-ne k r.identity (other refl)) h
  registered_or_revoked-Holds k q r s (some x) e h other =
      law.get-revoke_serial r.cert_serial k _ ∙ (law.get-register_failed r x k s.devices e ∙ h)

  module _ (k : Text) (q : Result RepoError DeviceRecord) where
    pub persist-Holds :
        (r : DeviceRecord) (s : ServerState C R)
        → Holds k q s
        → (((persist p d C R r s).1 ≡ ok tt) → ¬ (k ≡ r.identity))
        → Holds k q (persist p d C R r s).0
    unfolding persist
    persist-Holds r s h other =
        registered_or_revoked-Holds k q r s (R.register_device r s.devices).1 refl h
          (λ written. other (rw (written, persist)))

    module _ (w : EnrollWorld) (h : EnrollHandler p) (sub : Submission p) where
      register_signed-Holds :
          (attested : AttestationRecord) (identity : Text) (signed : Certificate p.Key × Bytes)
          (s : ServerState C R)
          → ¬ (k ≡ identity)
          → Holds k q s
          → Holds k q (register_signed p d C R w h sub attested identity signed s).0
      unfolding register_signed
      register_signed-Holds attested identity signed s other holds =
          let m = persist p d C R (device_record p d C R w sub identity attested signed.0) in
          bind_keeps (Holds k q) m
            (λ _. lift (ok (enroll_response p d C R h sub identity signed.1))) s
            (persist-Holds _ s holds (λ _. other)) (λ _ _ kept. kept)

      pub sign_for-Holds :
          (attested : AttestationRecord) (identity : Text) (s : ServerState C R)
          → ¬ (k ≡ identity)
          → Holds k q s
          → Holds k q (sign_for p d C R w h sub attested identity s).0
      unfolding sign_for
      sign_for-Holds attested identity s other holds =
          bind_keeps (Holds k q)
            (lift (
              signed_or_failed p d C R
                (sign_csr p w.draws h.ca sub.csr_der identity h.client_cert_ttl)))
            (register_signed p d C R w h sub attested identity) s holds
            (λ signed _ kept. register_signed-Holds attested identity signed s other kept)

  module _ (k : Text) (r : DeviceRecord) (revoked : r.is_revoked ≡ true) where
    issue_for-Holds :
        (w : EnrollWorld) (h : EnrollHandler p) (sub : Submission p) (attested : AttestationRecord)
        (identity : Text) (s : ServerState C R)
        → Holds k (ok r) s
        → Holds k (ok r) (issue_for p d C R w h sub attested identity s).0
    unfolding issue_for
    issue_for-Holds w h sub attested identity s holds =
        bind_keeps (Holds k (ok r)) (check_revoked p d C R identity)
          (λ _. sign_for p d C R w h sub attested identity) s holds
          (λ _ clear kept.
            sign_for-Holds k (ok r) w h sub attested identity s
              (λ same.
                let fresh =
                  subst NotRevoked (ap (λ j. R.get_device j s.devices) (sym same) ∙ holds)
                    (refuse_revoked-eq-ok p d C R _ clear) in
                cc (fresh, revoked))
              kept)

    issue-Holds :
        (w : EnrollWorld) (h : EnrollHandler p) (sub : Submission p) (attested : AttestationRecord)
        (s : ServerState C R)
        → Holds k (ok r) s
        → Holds k (ok r) (issue p d C R w h sub attested s).0
    unfolding issue
    issue-Holds w h sub attested s holds =
        bind_keeps (Holds k (ok r)) (lift (or_fail (public_key_fingerprint p sub.csr.public_key) _))
          (issue_for p d C R w h sub attested) s holds
          (λ identity _ kept. issue_for-Holds w h sub attested identity s kept)

    enroll_submission-Holds :
        (w : EnrollWorld) (h : EnrollHandler p) (sub : Submission p) (s : ServerState C R)
        → Holds k (ok r) s
        → Holds k (ok r) (enroll_submission p d C R w h sub s).0
    unfolding enroll_submission verify_and_issue verify_submission
    enroll_submission-Holds w h sub s holds =
        let consume = consume_challenge p d C R w.consumed_at h.policy sub.challenge in
        let t = (consume s).0 in
        let kept =
          ap (R.get_device k)
            (consume_challenge_keeps p d C R w.consumed_at h.policy sub.challenge s).0
          ∙ holds in
        bind_keeps (Holds k (ok r)) consume (λ _. verify_and_issue p d C R w h sub) s kept
          (λ _ _ same.
            bind_keeps (Holds k (ok r)) (verify_submission p d C R w.verification h sub)
              (issue p d C R w h sub) t same
              (λ attested _ still. issue-Holds w h sub attested _ still))

  -- Over a registry that meets its laws, no enrollment, whatever its request and its outcome,
  -- changes the record of a revoked identity.
  pub enroll-revoked :
      (decode : Decode) (w : EnrollWorld) (h : EnrollHandler p) (r : Request p.Key)
      (s : ServerState C R) (k : Text) (device : DeviceRecord)
      → R.get_device k s.devices ≡ ok device
      → device.is_revoked ≡ true
      → R.get_device k (enroll p d C R decode w h r s).0.devices ≡ ok device
  unfolding enroll
  enroll-revoked decode w h r s k device holds revoked =
      bind_keeps (Holds k (ok device)) (lift (read_submission p d decode h.policy r))
        (enroll_submission p d C R w h) s holds
        (λ sub _ kept. enroll_submission-Holds k device revoked w h sub s kept)

  register_signed-registered :
      (w : EnrollWorld) (h : EnrollHandler p) (sub : Submission p) (attested : AttestationRecord)
      (identity : Text) (signed : Certificate p.Key × Bytes) (s : ServerState C R)
      (resp : EnrollResponse)
      → (register_signed p d C R w h sub attested identity signed s).1 ≡ ok resp
      → R.get_device identity (register_signed p d C R w h sub attested identity signed s).0.devices
        ≡ ok (device_record p d C R w sub identity attested signed.0)
  unfolding register_signed persist
  register_signed-registered w h sub attested identity signed s resp e =
      let r = device_record p d C R w sub identity attested signed.0 in
      let (_, kept, _, q) =
        bind-eq-ok (persist p d C R r)
          (λ _. lift (ok (enroll_response p d C R h sub identity signed.1))) s resp e in
      let (written, state) =
        registered_or_revoked-eq-ok p d C R r.cert_serial s (R.register_device r s.devices) kept in
      ap (λ (t : ServerState C R). R.get_device identity t.devices) (q ∙ state)
      ∙ (law.get-register r identity s.devices written ∙ rw (==_refl identity) refl)

  -- A signature that is followed by a success registers the identity, not revoked.
  pub sign_for-registered :
      (w : EnrollWorld) (h : EnrollHandler p) (sub : Submission p) (attested : AttestationRecord)
      (identity : Text) (s : ServerState C R) (resp : EnrollResponse)
      → (sign_for p d C R w h sub attested identity s).1 ≡ ok resp
      → (r : DeviceRecord) × (R.get_device identity
            (sign_for p d C R w h sub attested identity s).0.devices
          ≡ ok r)
        × (r.is_revoked ≡ false)
  unfolding sign_for
  sign_for-registered w h sub attested identity s resp e =
      let (signed, _, e1, q) =
        bind-eq-ok
          (lift (
            signed_or_failed p d C R
              (sign_csr p w.draws h.ca sub.csr_der identity h.client_cert_ttl)))
          (register_signed p d C R w h sub attested identity) s resp e in
      (
        device_record p d C R w sub identity attested signed.0,
        ap (λ (t : ServerState C R). R.get_device identity t.devices) q
            ∙ register_signed-registered w h sub attested identity signed s resp e1,
        refl,
      )
