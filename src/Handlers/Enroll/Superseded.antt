-- ===== src/Handlers/Enroll/Superseded.antt =====
-- A device that enrolls again gives up its former certificates.
use mtls_authentication_poc.Prelude.{
  ℕ, ◌≡◌, refl, sym, ap, ◌∙◌, ◌≢◌, some, List, ◌∷◌, ==_refl, pos, ℤ_eq, ℕ_eq, text_eq, ok,
  ok-injective,
}
use mtls_authentication_poc.Platform.{Platform, Certificate, int_string}
use mtls_authentication_poc.Platform.Decimal.{int_string_injective}
use mtls_authentication_poc.Platform.Laws.{IsStandard}
use mtls_authentication_poc.Storage.Challenges.{ChallengeStore}
use mtls_authentication_poc.Storage.Devices.{DeviceRecord, DeviceRepo}
use mtls_authentication_poc.Storage.Devices.Laws.{IsLawful}
use mtls_authentication_poc.Attestation.Types.{Decoders}
use mtls_authentication_poc.Ca.Signer.Issued.{sign_csr-IsSigned}
use mtls_authentication_poc.Http.{Request}
use mtls_authentication_poc.Middleware.{DeviceIdentity, identity_of, authenticate}
use mtls_authentication_poc.Middleware.Guarantee.{authenticate-IsAuthentic}
use mtls_authentication_poc.Handlers.Enroll.Request.{Decode}
use mtls_authentication_poc.Handlers.Enroll.Issue.{
  EnrollHandler, EnrollResponse, EnrollWorld, ServerState, device_record, enroll,
}
use mtls_authentication_poc.Handlers.Enroll.Outcome.{enroll-IsEnrolled}

module _ (p : Platform) (d : Decoders) (C : ChallengeStore) (R : DeviceRepo)
    (law : IsLawful R) where
  -- The record that the registry holds of the identity of an enrollment that succeeds.
  enroll-registered :
      (decode : Decode) (w : EnrollWorld) (h : EnrollHandler p) (r : Request p.Key)
      (s : ServerState C R) (resp : EnrollResponse) (serial : ℕ)
      → IsStandard p
      → w.draws.serial ≡ some serial
      → (enroll p d C R decode w h r s).1 ≡ ok resp
      → (device : DeviceRecord) × (R.get_device resp.device_identity
            (enroll p d C R decode w h r s).0.devices
          ≡ ok device)
        × (device.cert_serial ≡ int_string (pos serial))
  enroll-registered decode w h r s resp serial std drawn e =
      let q = enroll-IsEnrolled p d C R decode w h r s resp e in
      let i = q.issued in
      let named = ap (λ (t : EnrollResponse). t.device_identity) i.answered in
      let g =
        sign_csr-IsSigned p w.draws h.ca q.sub.csr_der i.identity h.client_cert_ttl i.cert i.pem
          i.signed in
      let c = std.created _ _ _ _ _ g.der i.cert g.created g.parsed in
      let same : g.serial ≡ serial = cc (g.drawn, drawn) in
      (
        device_record p d C R w q.sub i.identity q.attested i.cert,
        rw named (
            ap (λ (t : ServerState C R). R.get_device i.identity t.devices) i.state
            ∙ (law.get-register _ i.identity _ i.written ∙ rw (==_refl i.identity) refl)),
        ap int_string (c.serial_number ∙ ap pos same),
      )

  -- If the standard library behaves as documented, and over a registry that meets its laws: after an
  -- enrollment that succeeds, a certificate with another serial number than the one drawn for it does
  -- not authenticate the identity of the enrollment.
  pub enroll_superseded :
      (decode : Decode) (w : EnrollWorld) (h : EnrollHandler p) (r : Request p.Key)
      (s : ServerState C R) (resp : EnrollResponse) (serial : ℕ) (r' : Request p.Key)
      (former : Certificate p.Key) (others : List (Certificate p.Key)) (id : DeviceIdentity)
      → IsStandard p
      → w.draws.serial ≡ some serial
      → (enroll p d C R decode w h r s).1 ≡ ok resp
      → r'.peer_certificates ≡ some (former ∷ others)
      → identity_of p R former ≡ resp.device_identity
      → former.serial_number ≢ pos serial
      → authenticate p R (some (enroll p d C R decode w h r s).0.devices) r' ≢ ok id
  enroll_superseded decode w h r s resp serial r' former others id std drawn e presented same other
        passed =
      let a = authenticate-IsAuthentic p R law _ r' id passed in
      let (device, holds, held) = enroll-registered decode w h r s resp serial std drawn e in
      let cert : a.cert ≡ former = cc (a.presented, presented) in
      let named : id.identity ≡ resp.device_identity =
        a.named ∙ (ap (λ (c : Certificate p.Key). identity_of p R c) cert ∙ same) in
      let found : a.device ≡ device = ok-injective _ _ (sym (rw (← named) a.registered) ∙ holds) in
      other (
        int_string_injective _ _ (
          ap (λ (c : Certificate p.Key). int_string c.serial_number) (sym cert)
          ∙ (sym a.current ∙ (ap (λ (q : DeviceRecord). q.cert_serial) found ∙ held))))
