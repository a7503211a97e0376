-- ===== src/Handlers/Enroll/Live.antt =====
-- Which enrollments are bound to succeed.
use mtls_authentication_poc.Prelude.{
  ◌≡◌, refl, ap, ◌∙◌, ◌≢◌, true, Option, none, some, [], ◌∷◌, arith, ℤ, ℤ_eq, Bytes, Text, ℕ_eq,
  text_eq, Result, ok, err, or_fail,
}
use mtls_authentication_poc.Platform.{Platform, Time, Certificate}
use mtls_authentication_poc.Storage.Challenges.{ChallengeStore}
use mtls_authentication_poc.Storage.Challenges.Laws.{not_expired}
use mtls_authentication_poc.Storage.Challenges.Laws as Challenges
use mtls_authentication_poc.Storage.Devices.{DeviceRepo, DeviceRecord, RepoError}
use mtls_authentication_poc.Attestation.Types.{
  Decoders, RootOfTrust, KeyDescription, AttestationRecord,
}
use mtls_authentication_poc.Attestation.Description.Complete.{accepted_record}
use mtls_authentication_poc.Attestation.Revocation.{public_key_fingerprint}
use mtls_authentication_poc.Attestation.Verifier.{verify_attestation}
use mtls_authentication_poc.Attestation.Verifier.Complete.{
  IsGenuineChain, verify_attestation_complete,
}
use mtls_authentication_poc.Ca.Signer.{sign_csr}
use mtls_authentication_poc.Http.{Request, Failure, bind_ok, lift}
use mtls_authentication_poc.Handlers.Enroll.Request.{Decode, Submission, read_submission}
use mtls_authentication_poc.Handlers.Enroll.Issue.{
  EnrollHandler, EnrollResponse, EnrollWorld, ServerState, verifier_of, device_record,
  enroll_response, consume_challenge, verify_submission, check_revoked, refuse_revoked,
  signed_or_failed, persist, registered_or_revoked, register_signed, sign_for, issue_for, issue,
  verify_and_issue, enroll_submission, enroll,
}
use mtls_authentication_poc.Handlers.Enroll.Outcome.{NotRevoked, consume_challenge_keeps}

module _ (p : Platform) (d : Decoders) (C : ChallengeStore) (R : DeviceRepo) where
  registered_ok :
      (serial : Text) (s : ServerState C R) (q : R.State × Option RepoError)
      → q.1 ≡ none
      → (registered_or_revoked p d C R serial s q).1 ≡ ok tt
  registered_ok serial s (devices, none) h = refl
  registered_ok serial s (devices, some e) h = cc

  refuse_revoked_ok :
      (q : Result RepoError DeviceRecord) → NotRevoked q → refuse_revoked p d C R q ≡ ok tt
  refuse_revoked_ok (err e) h = refl
  refuse_revoked_ok (ok r) h = ground arith

  module _ (w : EnrollWorld) (h : EnrollHandler p) (sub : Submission p)
      (attested : AttestationRecord) (identity : Text) (cert : Certificate p.Key) (pem : Bytes)
      (signed : sign_csr p w.draws h.ca sub.csr_der identity h.client_cert_ttl
        ≡ ok (cert, pem)) where
    -- The registry takes the record of the device.
    abbrev Writes : R.State → Type 0
    Writes devices =
        (R.register_device (device_record p d C R w sub identity attested cert) devices).1 ≡ none

    register_signed_live :
        (s : ServerState C R)
        → Writes s.devices
        → (register_signed p d C R w h sub attested identity (cert, pem) s).1
          ≡ ok (enroll_response p d C R h sub identity pem)
    unfolding register_signed persist
    register_signed_live s written =
        ap (λ (q : ServerState C R × Result Failure EnrollResponse). q.1)
          (bind_ok (persist p d C R (device_record p d C R w sub identity attested cert))
            (λ _. lift (ok (enroll_response p d C R h sub identity pem))) s tt
            (registered_ok _ s _ written))

    sign_for_live :
        (s : ServerState C R)
        → Writes s.devices
        → (sign_for p d C R w h sub attested identity s).1
          ≡ ok (enroll_response p d C R h sub identity pem)
    unfolding sign_for
    sign_for_live s written =
        ap (λ (q : ServerState C R × Result Failure EnrollResponse). q.1)
          (bind_ok
            (lift (
              signed_or_failed p d C R
                (sign_csr p w.draws h.ca sub.csr_der identity h.client_cert_ttl)))
            (register_signed p d C R w h sub attested identity) s (cert, pem) (rw signed refl))
        ∙ register_signed_live s written

    issue_live :
        (s : ServerState C R)
        → public_key_fingerprint p sub.csr.public_key ≡ some identity
        → NotRevoked (R.get_device identity s.devices)
        → Writes s.devices
        → (issue p d C R w h sub attested s).1 ≡ ok (enroll_response p d C R h sub identity pem)
    unfolding issue issue_for
    issue_live s derived clear written =
        ap (λ (q : ServerState C R × Result Failure EnrollResponse). q.1)
          (bind_ok (lift (or_fail (public_key_fingerprint p sub.csr.public_key) _))
              (issue_for p d C R w h sub attested) s identity (rw derived refl)
            ∙ bind_ok (check_revoked p d C R identity)
                (λ _. sign_for p d C R w h sub attested identity) s tt (refuse_revoked_ok _ clear))
        ∙ sign_for_live s written

    verify_and_issue_live :
        (s : ServerState C R)
        → (verify_attestation p d w.verification
            (verifier_of p d C R h s.revocations)
            sub.chain_der
            sub.challenge
            sub.csr.public_key).1
          ≡ ok attested
        → public_key_fingerprint p sub.csr.public_key ≡ some identity
        → NotRevoked (R.get_device identity s.devices)
        → Writes s.devices
        → (verify_and_issue p d C R w h sub s).1 ≡ ok (enroll_response p d C R h sub identity pem)
    unfolding verify_and_issue verify_submission
    verify_and_issue_live s verified derived clear written =
        ap (λ (q : ServerState C R × Result Failure EnrollResponse). q.1)
          (bind_ok (verify_submission p d C R w.verification h sub) (issue p d C R w h sub) s
            attested (rw verified refl))
        ∙ issue_live _ derived clear written

  module _ (L : Challenges.IsLawful p C) where
    consume_challenge_live :
        (now : Time) (h : EnrollHandler p) (c : Bytes) (s : ServerState C R)
        → c ≢ []
        → not_expired now (L.expiry (p.base64_encode c) s.challenges) ≡ true
        → (consume_challenge p d C R now h.policy c s).1 ≡ ok tt
    unfolding consume_challenge
    consume_challenge_live now h [] s nonempty fresh = absurd (nonempty refl)
    consume_challenge_live now h (b ∷ bs) s nonempty fresh =
        rw (L.consumed now (p.base64_encode (b ∷ bs)) s.challenges, fresh) refl

    -- What makes an enrollment succeed: a request that reads, a challenge that the store holds and
    -- that has not expired, a genuine chain for the key of the signing request, an identity that is
    -- not revoked, an authority that signs and a registry that writes.
    pub record IsReady (decode : Decode) (w : EnrollWorld) (h : EnrollHandler p) (r : Request p.Key)
        (s : ServerState C R) (sub : Submission p) (identity : Text) (cert : Certificate p.Key)
        (pem : Bytes) : Type 0 where
      pub read : read_submission p d decode h.policy r ≡ ok sub
      pub challenged : sub.challenge ≢ []
      pub fresh :
          not_expired w.consumed_at (L.expiry (p.base64_encode sub.challenge) s.challenges) ≡ true
      pub key : p.Key
      pub requested : sub.csr.public_key ≡ some key
      pub kd : KeyDescription
      pub rot : RootOfTrust
      pub os : ℤ × ℤ
      pub genuine :
          IsGenuineChain p d w.verification
            (verifier_of p d C R h s.revocations)
            sub.chain_der
            sub.challenge
            key
            kd
            rot
            os
      pub derived : public_key_fingerprint p sub.csr.public_key ≡ some identity
      pub clear : NotRevoked (R.get_device identity s.devices)
      pub signed : sign_csr p w.draws h.ca sub.csr_der identity h.client_cert_ttl ≡ ok (cert, pem)
      pub written :
          (R.register_device
            (device_record p d C R w sub identity (accepted_record kd rot os) cert)
            s.devices).1
          ≡ none

    -- Over a challenge store that meets its laws, and under a policy that requires hardware, the
    -- enrollment of a genuine device succeeds, and answers with the certificate that the authority
    -- signs and the identity of the key: the request reads, its challenge is stored and fresh, its
    -- chain is genuine, the identity is not revoked, the authority signs and the registry writes.
    pub enroll_live :
        (decode : Decode) (w : EnrollWorld) (h : EnrollHandler p) (r : Request p.Key)
        (s : ServerState C R) (sub : Submission p) (identity : Text) (cert : Certificate p.Key)
        (pem : Bytes)
        → h.policy.require_hardware_backed ≡ true
        → IsReady decode w h r s sub identity cert pem
        → (enroll p d C R decode w h r s).1 ≡ ok (enroll_response p d C R h sub identity pem)
    unfolding enroll enroll_submission
    enroll_live decode w h r s sub identity cert pem hardware q =
        let consume = consume_challenge p d C R w.consumed_at h.policy sub.challenge in
        let (devices, client) =
          consume_challenge_keeps p d C R w.consumed_at h.policy sub.challenge s in
        let verified =
          verify_attestation_complete p d w.verification (verifier_of p d C R h s.revocations)
            sub.chain_der sub.challenge q.key q.kd q.rot q.os hardware q.genuine in
        ap (λ (t : ServerState C R × Result Failure EnrollResponse). t.1)
          (bind_ok (lift (read_submission p d decode h.policy r)) (enroll_submission p d C R w h) s
              sub q.read
            ∙ bind_ok consume (λ _. verify_and_issue p d C R w h sub) s tt
                (consume_challenge_live w.consumed_at h sub.challenge s q.challenged q.fresh))
        ∙ verify_and_issue_live w h sub (accepted_record q.kd q.rot q.os) identity cert pem q.signed
            (consume s).0 (rw (client, q.requested) verified) q.derived (rw devices q.clear)
            (rw devices q.written)
