-- ===== src/Handlers/Enroll/Kept.antt =====
-- The last part of an enrollment leaves the challenges and the revocation client as they were.
use mtls_authentication_poc.Prelude.{◌≡◌, refl, Option, none, some, ℤ_eq, Text, ℕ_eq, text_eq, ok}
use mtls_authentication_poc.Platform.{Platform}
use mtls_authentication_poc.Storage.Challenges.{ChallengeStore}
use mtls_authentication_poc.Storage.Devices.{DeviceRepo, RepoError}
use mtls_authentication_poc.Attestation.Types.{Decoders, AttestationRecord}
use mtls_authentication_poc.Ca.Signer.{sign_csr}
use mtls_authentication_poc.Http.{lift, bind_keeps}
use mtls_authentication_poc.Handlers.Enroll.Request.{Submission}
use mtls_authentication_poc.Handlers.Enroll.Issue.{
  EnrollHandler, ServerState, EnrollWorld, signed_or_failed, registered_or_revoked, persist,
  device_record, enroll_response, register_signed, sign_for,
}

module _ (p : Platform) (d : Decoders) (C : ChallengeStore) (R : DeviceRepo) where
  abbrev Same : ServerState C R → ServerState C R → Type 0
  Same s t = (t.challenges ≡ s.challenges) × (t.revocations ≡ s.revocations)

  registered_or_revoked_keeps :
      (serial : Text) (s : ServerState C R) (q : R.State × Option RepoError)
      → Same s (registered_or_revoked p d C R serial s q).0
  registered_or_revoked_keeps serial s (devices, none) = (refl, refl)
  registered_or_revoked_keeps serial s (devices, some e) = (refl, refl)

  -- The signature and the registration leave the challenges and the client.
  pub sign_for_keeps :
      (w : EnrollWorld) (h : EnrollHandler p) (sub : Submission p) (attested : AttestationRecord)
      (identity : Text) (s : ServerState C R)
      → Same s (sign_for p d C R w h sub attested identity s).0
  unfolding sign_for register_signed persist
  sign_for_keeps w h sub attested identity s =
      bind_keeps (Same s)
        (lift (
          signed_or_failed p d C R
            (sign_csr p w.draws h.ca sub.csr_der identity h.client_cert_ttl)))
        (register_signed p d C R w h sub attested identity) s (refl, refl)
        (λ signed _ _.
          let r = device_record p d C R w sub identity attested signed.0 in
          bind_keeps (Same s) (persist p d C R r)
            (λ _. lift (ok (enroll_response p d C R h sub identity signed.1))) s
            (registered_or_revoked_keeps r.cert_serial s (R.register_device r s.devices))
            (λ _ _ kept. kept))
