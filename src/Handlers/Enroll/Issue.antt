-- ===== src/Handlers/Enroll/Issue.antt =====
-- The second part of the enrollment handler: consume the challenge, verify the attestation, sign the
-- request and register the device.
use mtls_authentication_poc.Prelude.{
  false, not, Option, none, some, List, [], ◌∷◌, if◌then◌else◌, ℤ_eq, Bytes, Text, ℕ_eq, text_eq,
  Result, ok, err, guard, or_fail,
}
use mtls_authentication_poc.Platform.{Platform, Time, Duration, Certificate, int_string}
use mtls_authentication_poc.Storage.Challenges.{ChallengeStore}
use mtls_authentication_poc.Storage.Devices.{DeviceRepo, DeviceRecord, RepoError}
use mtls_authentication_poc.Attestation.Types.{
  Decoders, Policy, AttestationRecord, security_level_string,
}
use mtls_authentication_poc.Attestation.Revocation.{RevocationStatusClient, public_key_fingerprint}
use mtls_authentication_poc.Attestation.Description.{VerifyError}
use mtls_authentication_poc.Attestation.Verifier.{Verifier, World, verify_attestation}
use mtls_authentication_poc.Ca.Signer.{Ca, Draws, CaError, sign_csr}
use mtls_authentication_poc.Http.{Request, Failure, http_error, Step, bind, lift, Reply, reply_of}
use mtls_authentication_poc.Handlers.Enroll.Request.{Decode, Submission, read_submission}

pub record EnrollResponse : Type 0 where
  pub client_certificate : Bytes
  pub ca_certificate : Bytes
  pub certificate_chain : List Bytes
  pub device_identity : Text
  pub device_label : Text

-- The handler's fields, less the stores. The verifier's revocation client lies in `ServerState`.
pub record EnrollHandler (p : Platform) : Type 0 where
  pub ca : Ca p
  pub ca_pem : Bytes
  pub root_pool : List (Certificate p.Key)
  pub policy : Policy
  pub client_cert_ttl : Duration

pub record ServerState (C : ChallengeStore) (R : DeviceRepo) : Type 0 where
  pub challenges : C.State
  pub devices : R.State
  pub revocations : Option RevocationStatusClient

-- The clock and the randomness that one enrollment meets, in the order of its steps.
pub record EnrollWorld : Type 0 where
  pub consumed_at : Time
  pub verification : World
  pub draws : Draws
  pub enrolled_at : Time

module _ (p : Platform) (d : Decoders) (C : ChallengeStore) (R : DeviceRepo) where
  abbrev pub verifier_of : EnrollHandler p → Option RevocationStatusClient → Verifier p
  verifier_of h revocations = record {
    root_pool = h.root_pool;
    policy = h.policy;
    revocations = revocations;
  }

  unfoldable pub consume_challenge : Time → Policy → Bytes → Step (ServerState C R) (Unit {0})
  consume_challenge now policy [] s = (
    s,
    if not policy.allow_empty_attestation
        then err (http_error 400 "attestation challenge is required")
        else ok tt,
  )
  consume_challenge now policy (b ∷ bs) s =
      let consumed = C.verify_and_consume_challenge now (p.base64_encode (b ∷ bs)) s.challenges in
      (
        record s { challenges = consumed.0 },
        guard consumed.1 (http_error 400 "invalid or expired attestation challenge"),
      )

  abbrev pub verified_or_failed :
      Result VerifyError AttestationRecord → Result Failure AttestationRecord
  verified_or_failed (ok r) = ok r
  verified_or_failed (err _) = err (http_error 403 "attestation verification failed")

  unfoldable pub verify_submission :
      World → EnrollHandler p → Submission p → Step (ServerState C R) AttestationRecord
  verify_submission w h sub s =
      let verified =
        verify_attestation p d w (verifier_of h s.revocations) sub.chain_der sub.challenge
          sub.csr.public_key in
      (record s { revocations = verified.0 }, verified_or_failed verified.1)

  abbrev pub refuse_revoked : Result RepoError DeviceRecord → Result Failure (Unit {0})
  refuse_revoked (ok existing) =
      guard (not existing.is_revoked) (http_error 403 "device identity is revoked")
  refuse_revoked (err _) = ok tt

  abbrev pub signed_or_failed :
      Result CaError (Certificate p.Key × Bytes) → Result Failure (Certificate p.Key × Bytes)
  signed_or_failed (ok q) = ok q
  signed_or_failed (err _) = err (http_error 500 "failed to sign CSR")

  -- The answer of `RegisterDevice`: where the write failed, the serial is revoked.
  abbrev pub registered_or_revoked :
      Text
      → ServerState C R
      → R.State × Option RepoError
      → ServerState C R × Result Failure (Unit {0})
  registered_or_revoked serial s (devices, none) = (record s { devices = devices }, ok tt)
  registered_or_revoked serial s (devices, some _) = (
    record s { devices = (R.revoke_serial serial devices).0 },
    err (http_error 500 "failed to persist device record"),
  )

  unfoldable pub persist : DeviceRecord → Step (ServerState C R) (Unit {0})
  persist r s = registered_or_revoked r.cert_serial s (R.register_device r s.devices)

  abbrev pub device_record :
      EnrollWorld → Submission p → Text → AttestationRecord → Certificate p.Key → DeviceRecord
  device_record w sub identity attested cert = record {
    identity = identity;
    label = sub.label;
    cert_serial = int_string cert.serial_number;
    enrolled_at = w.enrolled_at;
    is_revoked = false;
    hardware_security_level = security_level_string attested.attestation_security_level;
  }

  abbrev pub enroll_response : EnrollHandler p → Submission p → Text → Bytes → EnrollResponse
  enroll_response h sub identity pem = record {
    client_certificate = pem;
    ca_certificate = h.ca_pem;
    certificate_chain = pem ∷ h.ca_pem ∷ [];
    device_identity = identity;
    device_label = sub.label;
  }

  -- The rest of the handler, from each of its steps on: the record of the device, the signature, the
  -- revocation of the identity, the identity, the attestation, the challenge and the request.
  unfoldable pub register_signed :
      EnrollWorld
      → EnrollHandler p
      → Submission p
      → AttestationRecord
      → Text
      → Certificate p.Key × Bytes
      → Step (ServerState C R) EnrollResponse
  register_signed w h sub attested identity signed =
      bind (persist (device_record w sub identity attested signed.0))
        (λ _. lift (ok (enroll_response h sub identity signed.1)))

  unfoldable pub sign_for :
      EnrollWorld
      → EnrollHandler p
      → Submission p
      → AttestationRecord
      → Text
      → Step (ServerState C R) EnrollResponse
  sign_for w h sub attested identity =
      bind
        (lift (signed_or_failed (sign_csr p w.draws h.ca sub.csr_der identity h.client_cert_ttl)))
        (register_signed w h sub attested identity)

  abbrev pub check_revoked : Text → Step (ServerState C R) (Unit {0})
  check_revoked identity s = (s, refuse_revoked (R.get_device identity s.devices))

  unfoldable pub issue_for :
      EnrollWorld
      → EnrollHandler p
      → Submission p
      → AttestationRecord
      → Text
      → Step (ServerState C R) EnrollResponse
  issue_for w h sub attested identity =
      bind (check_revoked identity) (λ _. sign_for w h sub attested identity)

  unfoldable pub issue :
      EnrollWorld
      → EnrollHandler p
      → Submission p
      → AttestationRecord
      → Step (ServerState C R) EnrollResponse
  issue w h sub attested =
      bind
        (lift (
          or_fail (public_key_fingerprint p sub.csr.public_key)
            (http_error 500 "failed to derive device identity")))
        (issue_for w h sub attested)

  unfoldable pub verify_and_issue :
      EnrollWorld → EnrollHandler p → Submission p → Step (ServerState C R) EnrollResponse
  verify_and_issue w h sub = bind (verify_submission w.verification h sub) (issue w h sub)

  unfoldable pub enroll_submission :
      EnrollWorld → EnrollHandler p → Submission p → Step (ServerState C R) EnrollResponse
  enroll_submission w h sub =
      bind (consume_challenge w.consumed_at h.policy sub.challenge) (λ _. verify_and_issue w h sub)

  unfoldable pub enroll :
      Decode → EnrollWorld → EnrollHandler p → Request p.Key → Step (ServerState C R) EnrollResponse
  enroll decode w h r = bind (lift (read_submission p d decode h.policy r)) (enroll_submission w h)

  -- `ServeHTTP`
  unfoldable pub serve_enroll :
      Decode
      → EnrollWorld
      → EnrollHandler p
      → Request p.Key
      → ServerState C R
      → ServerState C R × Reply EnrollResponse
  serve_enroll decode w h r s =
      let answered = enroll decode w h r s in (answered.0, reply_of 201 answered.1)
