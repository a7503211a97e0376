-- ===== src/Handlers/Enroll/Outcome.antt =====
-- What a successful enrollment has checked and done.
use mtls_authentication_poc.Prelude.{
  ◌≡◌, refl, sym, ◌∙◌, subst, false, Option, none, some, [], ◌∷◌, arith, ℤ_eq, Bytes, Text, ℕ_eq,
  text_eq, Result, ok, err, or_fail, or_fail-eq-ok, ok-injective,
}
use mtls_authentication_poc.Platform.{Platform, Time, Certificate}
use mtls_authentication_poc.Storage.Challenges.{ChallengeStore}
use mtls_authentication_poc.Storage.Devices.{DeviceRepo, DeviceRecord, RepoError}
use mtls_authentication_poc.Attestation.Types.{Decoders, Policy, AttestationRecord}
use mtls_authentication_poc.Attestation.Revocation.{public_key_fingerprint}
use mtls_authentication_poc.Attestation.Verifier.{verify_attestation}
use mtls_authentication_poc.Ca.Signer.{sign_csr, CaError}
use mtls_authentication_poc.Http.{Request, lift, bind-eq-ok}
use mtls_authentication_poc.Handlers.Enroll.Request.{Decode, Submission, read_submission}
use mtls_authentication_poc.Handlers.Enroll.Issue.{
  EnrollResponse, EnrollHandler, ServerState, EnrollWorld, verifier_of, consume_challenge,
  verified_or_failed, verify_submission, refuse_revoked, signed_or_failed, registered_or_revoked,
  persist, device_record, enroll_response, issue, enroll, register_signed, sign_for, check_revoked,
  issue_for, verify_and_issue, enroll_submission,
}

-- A record that is there is not revoked.
abbrev pub NotRevoked : Result RepoError DeviceRecord → Type 0
NotRevoked (ok r) = r.is_revoked ≡ false
NotRevoked (err e) = Unit

module _ (p : Platform) (d : Decoders) (C : ChallengeStore) (R : DeviceRepo) where
  -- The state after a write that succeeds.
  pub registered_or_revoked-eq-ok :
      (serial : Text) (s : ServerState C R) (q : R.State × Option RepoError)
      → (registered_or_revoked p d C R serial s q).1 ≡ ok tt
      → (q.1 ≡ none) × ((registered_or_revoked p d C R serial s q).0 ≡ record s { devices = q.0 })
  registered_or_revoked-eq-ok serial s (devices, none) h = (refl, refl)
  registered_or_revoked-eq-ok serial s (devices, some e) h = cc

  pub refuse_revoked-eq-ok :
      (q : Result RepoError DeviceRecord) → refuse_revoked p d C R q ≡ ok tt → NotRevoked q
  refuse_revoked-eq-ok (err e) h = tt
  refuse_revoked-eq-ok (ok r) h = ground arith

  signed_or_failed-eq-ok :
      (q : Result CaError (Certificate p.Key × Bytes)) (a : Certificate p.Key × Bytes)
      → signed_or_failed p d C R q ≡ ok a
      → q ≡ ok a
  signed_or_failed-eq-ok (ok b) a h = cc
  signed_or_failed-eq-ok (err e) a h = cc

  pub verified_or_failed-eq-ok :
      (q : Result _ AttestationRecord) (a : AttestationRecord)
      → verified_or_failed p d C R q ≡ ok a
      → q ≡ ok a
  verified_or_failed-eq-ok (ok b) a h = cc
  verified_or_failed-eq-ok (err e) a h = cc

  -- The part of an enrollment from the identity on.
  pub record IsIssuedTo (w : EnrollWorld) (h : EnrollHandler p) (sub : Submission p)
      (attested : AttestationRecord) (s after : ServerState C R) (resp : EnrollResponse)
      : Type 0 where
    pub identity : Text
    pub derived : public_key_fingerprint p sub.csr.public_key ≡ some identity
    pub not_revoked : NotRevoked (R.get_device identity s.devices)
    pub cert : Certificate p.Key
    pub pem : Bytes
    pub signed : sign_csr p w.draws h.ca sub.csr_der identity h.client_cert_ttl ≡ ok (cert, pem)
    pub written :
        (R.register_device (device_record p d C R w sub identity attested cert) s.devices).1 ≡ none
    pub state : after ≡ record s {
      devices =
          (R.register_device (device_record p d C R w sub identity attested cert) s.devices).0;
    }
    pub answered : resp ≡ enroll_response p d C R h sub identity pem

  module _ (w : EnrollWorld) (h : EnrollHandler p) (sub : Submission p)
      (attested : AttestationRecord) (s : ServerState C R) (resp : EnrollResponse) where
    register_signed-IsIssuedTo :
        (identity : Text) (signed : Certificate p.Key × Bytes)
        → public_key_fingerprint p sub.csr.public_key ≡ some identity
        → NotRevoked (R.get_device identity s.devices)
        → sign_csr p w.draws h.ca sub.csr_der identity h.client_cert_ttl ≡ ok signed
        → (register_signed p d C R w h sub attested identity signed s).1 ≡ ok resp
        → IsIssuedTo w h sub attested s
            (register_signed p d C R w h sub attested identity signed s).0
            resp
    unfolding register_signed persist
    register_signed-IsIssuedTo identity signed derived clear issued e =
        let (_, kept, same, q) =
          bind-eq-ok (persist p d C R (device_record p d C R w sub identity attested signed.0))
            (λ _. lift (ok (enroll_response p d C R h sub identity signed.1))) s resp e in
        let (written, state) = registered_or_revoked-eq-ok _ s _ kept in
        record {
          identity = identity;
          derived = derived;
          not_revoked = clear;
          cert = signed.0;
          pem = signed.1;
          signed = issued;
          written = written;
          state = q ∙ state;
          answered = sym (ok-injective _ _ same);
        }

    sign_for-IsIssuedTo :
        (identity : Text)
        → public_key_fingerprint p sub.csr.public_key ≡ some identity
        → NotRevoked (R.get_device identity s.devices)
        → (sign_for p d C R w h sub attested identity s).1 ≡ ok resp
        → IsIssuedTo w h sub attested s (sign_for p d C R w h sub attested identity s).0 resp
    unfolding sign_for
    sign_for-IsIssuedTo identity derived clear e =
        let (signed, issued, e1, q) =
          bind-eq-ok
            (lift (
              signed_or_failed p d C R
                (sign_csr p w.draws h.ca sub.csr_der identity h.client_cert_ttl)))
            (register_signed p d C R w h sub attested identity) s resp e in
        subst (λ t. IsIssuedTo w h sub attested s t resp) (sym q)
          (register_signed-IsIssuedTo identity signed derived clear
            (signed_or_failed-eq-ok _ _ issued) e1)

    issue_for-IsIssuedTo :
        (identity : Text)
        → public_key_fingerprint p sub.csr.public_key ≡ some identity
        → (issue_for p d C R w h sub attested identity s).1 ≡ ok resp
        → IsIssuedTo w h sub attested s (issue_for p d C R w h sub attested identity s).0 resp
    unfolding issue_for
    issue_for-IsIssuedTo identity derived e =
        let (_, clear, e1, q) =
          bind-eq-ok (check_revoked p d C R identity)
            (λ _. sign_for p d C R w h sub attested identity) s resp e in
        subst (λ t. IsIssuedTo w h sub attested s t resp) (sym q)
          (sign_for-IsIssuedTo identity derived (refuse_revoked-eq-ok _ clear) e1)

    pub issue-IsIssuedTo :
        (issue p d C R w h sub attested s).1 ≡ ok resp
        → IsIssuedTo w h sub attested s (issue p d C R w h sub attested s).0 resp
    unfolding issue
    issue-IsIssuedTo e =
        let (identity, derived, e1, q) =
          bind-eq-ok (lift (or_fail (public_key_fingerprint p sub.csr.public_key) _))
            (issue_for p d C R w h sub attested) s resp e in
        subst (λ t. IsIssuedTo w h sub attested s t resp) (sym q)
          (issue_for-IsIssuedTo identity (or_fail-eq-ok _ _ derived) e1)

  -- The state between the challenge's consumption and the issue, and what led there.
  pub record IsEnrolled (decode : Decode) (w : EnrollWorld) (h : EnrollHandler p)
      (r : Request p.Key) (s after : ServerState C R) (resp : EnrollResponse) : Type 0 where
    pub sub : Submission p
    pub read : read_submission p d decode h.policy r ≡ ok sub
    pub consumed : (consume_challenge p d C R w.consumed_at h.policy sub.challenge s).1 ≡ ok tt
    pub attested : AttestationRecord
    pub verified :
        (verify_attestation p d w.verification
          (verifier_of p d C R h s.revocations)
          sub.chain_der
          sub.challenge
          sub.csr.public_key).1
        ≡ ok attested
    pub between : ServerState C R
    pub challenges :
        between.challenges
        ≡ (consume_challenge p d C R w.consumed_at h.policy sub.challenge s).0.challenges
    pub devices : between.devices ≡ s.devices
    pub issued : IsIssuedTo w h sub attested between after resp

  pub consume_challenge_keeps :
      (now : Time) (policy : Policy) (c : Bytes) (s : ServerState C R)
      → ((consume_challenge p d C R now policy c s).0.devices ≡ s.devices)
        × ((consume_challenge p d C R now policy c s).0.revocations ≡ s.revocations)
  unfolding consume_challenge
  consume_challenge_keeps now policy [] s = (refl, refl)
  consume_challenge_keeps now policy (b ∷ bs) s = (refl, refl)

  -- An enrollment answers with a certificate only if the request decodes, its challenge is consumed,
  -- the attestation verifies for the key of the signing request, the identity is that key's
  -- fingerprint and is not revoked, the authority signs, and the device is registered; the state
  -- after it is that of these steps.
  pub enroll-IsEnrolled :
      (decode : Decode) (w : EnrollWorld) (h : EnrollHandler p) (r : Request p.Key)
      (s : ServerState C R) (resp : EnrollResponse)
      → (enroll p d C R decode w h r s).1 ≡ ok resp
      → IsEnrolled decode w h r s (enroll p d C R decode w h r s).0 resp
  unfolding enroll enroll_submission verify_and_issue verify_submission
  enroll-IsEnrolled decode w h r s resp e =
      let (sub, read, e1, q1) =
        bind-eq-ok (lift (read_submission p d decode h.policy r)) (enroll_submission p d C R w h) s
          resp e in
      let consume = consume_challenge p d C R w.consumed_at h.policy sub.challenge in
      let (_, consumed, e2, q2) =
        bind-eq-ok consume (λ _. verify_and_issue p d C R w h sub) s resp e1 in
      let t = (consume s).0 in
      let (attested, verified, e3, q3) =
        bind-eq-ok (verify_submission p d C R w.verification h sub) (issue p d C R w h sub) t resp
          e2 in
      let (same_devices, same_client) =
        consume_challenge_keeps w.consumed_at h.policy sub.challenge s in
      let u = (verify_submission p d C R w.verification h sub t).0 in
      record {
        sub = sub;
        read = read;
        consumed = consumed;
        attested = attested;
        verified =
            subst
              (λ c.
                (verify_attestation p d w.verification (verifier_of p d C R h c) sub.chain_der
                  sub.challenge sub.csr.public_key).1
                ≡ ok attested)
              same_client (verified_or_failed-eq-ok _ _ verified);
        between = u;
        challenges = refl;
        devices = same_devices;
        issued =
            subst (λ v. IsIssuedTo w h sub attested u v resp) (sym (q1 ∙ (q2 ∙ q3)))
              (issue-IsIssuedTo w h sub attested u resp e3);
      }
