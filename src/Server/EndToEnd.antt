-- ===== src/Server/EndToEnd.antt =====
-- From enrollment to the protected endpoint.
use mtls_authentication_poc.Prelude.{
  ◌≡◌, refl, sym, ap, ◌∙◌, subst, ◌≢◌, false, some, List, [], ◌∷◌, arith, ==_refl, ℤ_eq, length,
  Bytes, Text, codes, ℕ_eq, text_eq, Result, ok, ok-injective,
}
use mtls_authentication_poc.Platform.{
  Platform, Time, Certificate, hex_encode, length-hex_encode, int_string,
}
use mathlib.Core.Option.{some-injective}
use mtls_authentication_poc.Platform.Laws.{IsStandard}
use mtls_authentication_poc.Storage.Challenges.{ChallengeStore, memory_challenge_store}
use mtls_authentication_poc.Storage.Devices.{
  DeviceRecord, DeviceRepo, memory_device_repo, is_serial_revoked,
}
use mtls_authentication_poc.Storage.Devices.Memory.{memory_device_repo-IsLawful}
use mtls_authentication_poc.Storage.Devices.Laws.{IsLawful}
use mtls_authentication_poc.Attestation.Types.{Decoders, AttestationRecord}
use mtls_authentication_poc.Attestation.Revocation.{public_key_fingerprint}
use mtls_authentication_poc.Ca.Signer.{sign_csr}
use mtls_authentication_poc.Ca.Signer.Issued.{sign_csr-IsSigned}
use mtls_authentication_poc.Http.{Request, json, method_get, Failure}
use mtls_authentication_poc.Middleware.{
  DeviceIdentity, identity_of, authenticate, mtls_auth_middleware,
}
use mtls_authentication_poc.Middleware.Guarantee.{IsCurrent, authenticate_current}
use mtls_authentication_poc.Handlers.Ping.{ProtectedResponse, serve_ping}
use mtls_authentication_poc.Handlers.Enroll.Request.{Decode, Submission, read_submission}
use mtls_authentication_poc.Handlers.Enroll.Read.{read_submission-IsRead}
use mtls_authentication_poc.Handlers.Enroll.Issue.{
  EnrollHandler, EnrollResponse, EnrollWorld, ServerState, device_record, enroll,
}
use mtls_authentication_poc.Handlers.Enroll.Outcome.{IsIssuedTo, enroll-IsEnrolled}
use mtls_authentication_poc.Handlers.Enroll.Security.{fingerprint_some}
use mtls_authentication_poc.Server.Routes.{State, serve_mtls_port}

-- The answer to a ping of an enrolled device.
abbrev pub pong : Platform → Time → EnrollResponse → Text → ProtectedResponse
pong p now resp serial = record {
  status = "ok";
  message = "mTLS handshake verified successfully";
  client_identity = resp.device_identity;
  device_label = resp.device_label;
  cert_serial = serial;
  timestamp = p.unix_of now;
}

hex_encode-nonempty : (bs : Bytes) → length bs ≡ 32 → hex_encode bs ≢ []
hex_encode-nonempty bs h e =
    absurd (omega (arith, length-hex_encode bs, ap (λ (t : Text). length t) e))

module _ (p : Platform) where
  serve_ping_described :
      (now : Time) (id : DeviceIdentity) (r : Request p.Key)
      → r.method ≡ method_get
      → serve_ping p now (some id) r
        ≡ json 200 (record {
          status = "ok";
          message = "mTLS handshake verified successfully";
          client_identity = id.identity;
          device_label = id.label;
          cert_serial = id.cert_serial;
          timestamp = p.unix_of now;
        })
  unfolding serve_ping
  serve_ping_described now id r h = ground arith

  serve_mtls_port_authentic :
      (now : Time) (r : Request p.Key) (s : State p) (id : DeviceIdentity)
      → r.method ≡ method_get
      → r.path ≡ codes "/api/v1/protected/ping"
      → authenticate p memory_device_repo (some s.devices) r ≡ ok id
      → serve_mtls_port p now r s ≡ serve_ping p now (some id) r
  unfolding serve_mtls_port mtls_auth_middleware
  serve_mtls_port_authentic now r s id get ping passed = ground arith

-- After the registration the certificate is the current one of its identity.
issued-IsCurrent :
    (p : Platform) (d : Decoders) (C : ChallengeStore) (R : DeviceRepo) (law : IsLawful R)
    {w : EnrollWorld} {h : EnrollHandler p} {sub : Submission p} {attested : AttestationRecord}
    {s after : ServerState C R} {resp : EnrollResponse}
    (i : IsIssuedTo p d C R w h sub attested s after resp)
    → R.is_serial_revoked (int_string i.cert.serial_number) s.devices ≡ false
    → IsCurrent p R after.devices i.cert i.identity
        (device_record p d C R w sub i.identity attested i.cert)
issued-IsCurrent p d C R law {w} {sub} {attested} {s} i unused =
    let r = device_record p d C R w sub i.identity attested i.cert in
    let written = ap (λ (t : ServerState C R). t.devices) i.state in
    record {
      registered =
          ap (R.get_device i.identity) written
          ∙ (law.get-register r i.identity s.devices i.written ∙ rw (==_refl i.identity) refl);
      active = refl;
      unrevoked =
          ap (R.is_serial_revoked (int_string i.cert.serial_number)) written
          ∙ (law.serial-register r _ s.devices ∙ unused);
      current = refl;
    }

module _ (p : Platform) (d : Decoders) where
  abbrev enroll_in :
      Decode
      → EnrollWorld
      → EnrollHandler p
      → Request p.Key
      → State p
      → State p × Result Failure EnrollResponse
  enroll_in = enroll p d (memory_challenge_store p) memory_device_repo

  -- The certificate of an enrollment, and that the registry holds it.
  pub record IsIssuedCertificate (s : State p) (resp : EnrollResponse) (cert : Certificate p.Key)
      : Type 0 where
    pub named : cert.common_name ≡ resp.device_identity
    pub bound : public_key_fingerprint p cert.public_key ≡ some resp.device_identity
    pub nonempty : resp.device_identity ≢ []
    pub device : DeviceRecord
    pub labelled : device.label ≡ resp.device_label
    pub current : IsCurrent p memory_device_repo s.devices cert resp.device_identity device

  module _ (std : IsStandard p) (decode : Decode) (w : EnrollWorld) (h : EnrollHandler p)
      (r : Request p.Key) (s : State p) (resp : EnrollResponse) (sub : Submission p) where
    -- The answer's identity and label, with the certificate that is signed for them.
    certified-IsIssuedCertificate :
        (between after : State p) (attested : AttestationRecord)
        → (i : IsIssuedTo p d
            (memory_challenge_store p)
            memory_device_repo
            w
            h
            sub
            attested
            between
            after
            resp)
        → p.parse_certificate_request sub.csr_der ≡ some sub.csr
        → is_serial_revoked (int_string i.cert.serial_number) between.devices ≡ false
        → IsIssuedCertificate after resp i.cert
    certified-IsIssuedCertificate between after attested i requested unused =
        let g =
          sign_csr-IsSigned p w.draws h.ca sub.csr_der i.identity h.client_cert_ttl i.cert i.pem
            i.signed in
        let c = std.created _ _ _ _ _ g.der i.cert g.created g.parsed in
        let (key, der, _, _, digest) =
          fingerprint_some p sub.csr.public_key i.identity std i.derived in
        let named = ap (λ (t : EnrollResponse). t.device_identity) i.answered in
        let same_csr = some-injective _ _ (sym g.requested ∙ requested) in
        record {
          named = c.common_name ∙ sym named;
          bound = rw (named, c.public_key, same_csr) i.derived;
          nonempty = λ empty.
              hex_encode-nonempty (p.sha256 der) (std.length-sha256 der)
                (sym digest ∙ (sym named ∙ empty));
          device =
              device_record p d (memory_challenge_store p) memory_device_repo w sub i.identity
                attested i.cert;
          labelled = sym (ap (λ (t : EnrollResponse). t.device_label) i.answered);
          current =
              subst
                (λ k. IsCurrent p memory_device_repo after.devices i.cert k (
                  device_record p d (memory_challenge_store p) memory_device_repo w sub i.identity
                    attested i.cert))
                (sym named)
                (issued-IsCurrent p d (memory_challenge_store p) memory_device_repo
                  memory_device_repo-IsLawful i unused);
        }

    enroll-IsIssuedCertificate :
        (cert : Certificate p.Key) (pem : Bytes)
        → read_submission p d decode h.policy r ≡ ok sub
        → sign_csr p w.draws h.ca sub.csr_der resp.device_identity h.client_cert_ttl
          ≡ ok (cert, pem)
        → is_serial_revoked (int_string cert.serial_number) s.devices ≡ false
        → (enroll_in decode w h r s).1 ≡ ok resp
        → (resp.client_certificate ≡ pem)
          × IsIssuedCertificate (enroll_in decode w h r s).0 resp cert
    enroll-IsIssuedCertificate cert pem read signed unused e =
        let q =
          enroll-IsEnrolled p d (memory_challenge_store p) memory_device_repo decode w h r s resp
            e in
        let same = ok-injective q.sub sub (sym q.read ∙ read) in
        let i =
          subst
            (λ t.
              IsIssuedTo p d (memory_challenge_store p) memory_device_repo w h t q.attested
                q.between (enroll_in decode w h r s).0 resp)
            same q.issued in
        let named = ap (λ (t : EnrollResponse). t.device_identity) i.answered in
        let pair = ok-injective _ _ (
          sym i.signed
          ∙ (ap (λ k. sign_csr p w.draws h.ca sub.csr_der k h.client_cert_ttl) (sym named)
              ∙ signed)) in
        let same_cert = ap (λ (t : Certificate p.Key × Bytes). t.0) pair in
        (
          ap (λ (t : EnrollResponse). t.client_certificate) i.answered
              ∙ ap (λ (t : Certificate p.Key × Bytes). t.1) pair,
          subst (IsIssuedCertificate (enroll_in decode w h r s).0 resp) same_cert (
              certified-IsIssuedCertificate q.between _ q.attested i
                (read_submission-IsRead p d decode h.policy r sub read).requested
                (rw (same_cert, q.devices) unused)),
        )

  identity_of_named :
      (cert : Certificate p.Key) (k : Text)
      → cert.common_name ≡ k
      → k ≢ []
      → identity_of p memory_device_repo cert ≡ k
  unfolding identity_of
  identity_of_named cert k named nonempty = ground arith

  issued_pong :
      (s : State p) (resp : EnrollResponse) (cert : Certificate p.Key)
      → IsIssuedCertificate s resp cert
      → (now : Time) (r : Request p.Key) (others : List (Certificate p.Key)) → r.method ≡ method_get
      → r.path ≡ codes "/api/v1/protected/ping"
      → r.peer_certificates ≡ some (cert ∷ others)
      → serve_mtls_port p now r s ≡ json 200 (pong p now resp (int_string cert.serial_number))
  issued_pong s resp cert i now r others get ping presented =
      let same = identity_of_named cert resp.device_identity i.named i.nonempty in
      let back = sym same in
      let passed =
        authenticate_current p memory_device_repo memory_device_repo-IsLawful s.devices r cert
          others i.device presented (subst (λ k. k ≢ []) back i.nonempty)
          (subst (λ k. public_key_fingerprint p cert.public_key ≡ some k) back i.bound)
          (subst (λ k. IsCurrent p memory_device_repo s.devices cert k i.device) back i.current) in
      serve_mtls_port_authentic p now r s _ get ping passed
      ∙ (serve_ping_described p now _ r get ∙ λ j. json 200 (record {
        status = "ok";
        message = "mTLS handshake verified successfully";
        client_identity = same j;
        device_label = i.labelled j;
        cert_serial = int_string cert.serial_number;
        timestamp = p.unix_of now;
      }))

-- An enrollment that answers with a certificate enables the device, if the standard library behaves
-- as documented and the serial of the new certificate was not revoked before. The answer holds the
-- certificate that the authority signs for this request; and a GET of the ping endpoint that
-- presents this certificate, in the state after the enrollment, is answered with 200, the identity
-- and the label.
pub enroll-ping :
    (p : Platform) (d : Decoders) (decode : Decode) (w : EnrollWorld) (h : EnrollHandler p)
    (r : Request p.Key) (s : State p) (resp : EnrollResponse) (sub : Submission p)
    (cert : Certificate p.Key) (pem : Bytes) (now : Time) (ping : Request p.Key)
    (others : List (Certificate p.Key))
    → IsStandard p
    → read_submission p d decode h.policy r ≡ ok sub
    → sign_csr p w.draws h.ca sub.csr_der resp.device_identity h.client_cert_ttl ≡ ok (cert, pem)
    → is_serial_revoked (int_string cert.serial_number) s.devices ≡ false
    → (enroll p d (memory_challenge_store p) memory_device_repo decode w h r s).1 ≡ ok resp
    → ping.method ≡ method_get
    → ping.path ≡ codes "/api/v1/protected/ping"
    → ping.peer_certificates ≡ some (cert ∷ others)
    → (resp.client_certificate ≡ pem)
      × (serve_mtls_port p now ping
            (enroll p d (memory_challenge_store p) memory_device_repo decode w h r s).0
          ≡ json 200 (pong p now resp (int_string cert.serial_number)))
enroll-ping p d decode w h r s resp sub cert pem now ping others std read signed unused e get path
      presented =
    let (encoded, i) =
      enroll-IsIssuedCertificate p d std decode w h r s resp sub cert pem read signed unused e in
    (encoded, issued_pong p d _ resp cert i now ping others get path presented)
