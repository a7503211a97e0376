-- ===== src/Tests/Registered.antt =====
-- The theorems on the protected endpoint, on the server and on the registry, at the example.
use mtls_authentication_poc.Prelude.{
  ℕ, ◌≡◌, refl, sym, ap, subst, ◌≢◌, true, false, none, some, [], ◌∷◌, pos, ℤ_eq, codes, ℕ_eq,
  text_eq, Result, ok,
}
use mtls_authentication_poc.Platform.{hour, int_string}
use mtls_authentication_poc.Storage.Challenges.{memory_challenge_store}
use mtls_authentication_poc.Storage.Devices.{
  memory_device_repo, get_device, revoke_device, is_serial_revoked, is_device_active,
}
use mtls_authentication_poc.Storage.Devices.Memory.{memory_device_repo-IsLawful}
use mtls_authentication_poc.Attestation.Types.{
  AttestationRecord, trusted_environment, strong_box, verified,
}
use mtls_authentication_poc.Attestation.Revocation.{public_key_fingerprint}
use mtls_authentication_poc.Http.{Request, Failure, json, method_get}
use mtls_authentication_poc.Middleware.{
  DeviceIdentity, identity_of, check_key, check_registry, consult_registry,
  authenticate_certificate, authenticate, mtls_auth_middleware, described,
}
use mtls_authentication_poc.Middleware.Guarantee.{
  IsAuthentic, IsCurrent, authenticate-IsAuthentic, authenticate_current,
}
use mtls_authentication_poc.Handlers.Ping.{ProtectedResponse, serve_ping}
use mtls_authentication_poc.Handlers.Enroll.Issue.{
  EnrollResponse, serve_enroll, enroll, sign_for, check_revoked,
}
use mtls_authentication_poc.Server.Routes.{State, Conditions, serve_enroll_port, serve_mtls_port}
use mtls_authentication_poc.Server.Revoked.{enroll_race}
use mtls_authentication_poc.Server.EndToEnd.{pong, enroll-ping}
use mtls_authentication_poc.Tests.Toy.{toy, toy-IsStandard, decoders, issued, root, device_id}
use mtls_authentication_poc.Tests.Run.{
  library, world, handler, decode, post, start, finished, granted, submission, retired, device,
  sign_csr_run, read_submission_run, enroll_run,
}

abbrev ran : State toy × Result Failure EnrollResponse
ran =
    enroll toy decoders (memory_challenge_store toy) memory_device_repo decode world handler post
      start

abbrev ping : Request ℕ
ping = record {
  method = method_get;
  path = codes "/api/v1/protected/ping";
  body = [];
  peer_certificates = some (issued ∷ root ∷ []);
}

abbrev reply : ProtectedResponse
reply = pong toy (pos 9) granted (codes "7")

abbrev identified : DeviceIdentity
identified = record {
  identity = device_id;
  label = codes "pixel-9";
  cert_serial = codes "7";
  record' = some device;
}

-- The request of `post`, at its path, and the state after it.
abbrev posted : Request ℕ
posted = record post { path = codes "/api/v1/enroll" }

abbrev conditions : Conditions
conditions = record { random = none; now = pos 1; enrollment = world }

abbrev after : State toy
after = (serve_enroll_port toy decoders decode hour handler conditions posted start).0

-- The device enrolls again while its identity is revoked.
abbrev enrolled : State toy
enrolled = finished

abbrev attested : AttestationRecord
attested = record {
  attestation_version = pos 4;
  attestation_security_level = trusted_environment;
  keymaster_version = pos 4;
  keymaster_security_level = strong_box;
  attestation_challenge = 77 ∷ [];
  device_locked = true;
  verified_boot_state = verified;
  verified_boot_key = [];
  os_version = pos 0;
  os_patch_level = pos 0;
}

unrevoked_run : is_serial_revoked (int_string issued.serial_number) start.devices ≡ false
unfolding library
unrevoked_run = refl

retired_run : get_device (codes "old") start.devices ≡ ok retired
unfolding library
retired_run = refl

held_run : get_device device_id finished.devices ≡ ok device
unfolding library
held_run = refl

live_run : is_serial_revoked (codes "7") finished.devices ≡ false
unfolding library
live_run = refl

-- The definitions of the protected endpoint.
unfoldable server : Unit {0}
unfolding library identity_of check_key check_registry consult_registry authenticate_certificate
    authenticate mtls_auth_middleware serve_ping serve_enroll serve_enroll_port serve_mtls_port
server = tt

authenticate_run : authenticate toy memory_device_repo (some finished.devices) ping ≡ ok identified
unfolding server
authenticate_run = refl

answered_run : serve_mtls_port toy (pos 9) ping after ≡ json 200 reply
unfolding server
answered_run = refl

raced_run :
    (sign_for toy decoders
      (memory_challenge_store toy)
      memory_device_repo
      world
      handler
      submission
      attested
      device_id
      (record enrolled { devices = (revoke_device device_id enrolled.devices).0 })).1
    ≡ ok granted
unfolding library
raced_run = refl

named_run : identity_of toy memory_device_repo issued ≡ device_id
unfolding server
named_run = refl

device_id-nonempty : device_id ≢ []
device_id-nonempty e = cc

bound_run :
    public_key_fingerprint toy issued.public_key ≡ some (identity_of toy memory_device_repo issued)
unfolding server
bound_run = refl

serial_run : device.cert_serial ≡ int_string issued.serial_number
unfolding library
serial_run = refl

device-IsCurrent :
    IsCurrent toy memory_device_repo finished.devices issued
      (identity_of toy memory_device_repo issued)
      device
unfolding server
device-IsCurrent = record {
  registered = held_run;
  active = refl;
  unrevoked = live_run;
  current = serial_run;
}

enroll-ping_example :
    (granted.client_certificate ≡ 9 ∷ 11 ∷ [])
    × (serve_mtls_port toy (pos 9) ping ran.0
        ≡ json 200 (pong toy (pos 9) granted (int_string (pos 7))))
enroll-ping_example =
    enroll-ping toy decoders decode world handler post start granted submission issued (9 ∷ 11 ∷ [])
      (pos 9) ping (root ∷ []) toy-IsStandard read_submission_run sign_csr_run unrevoked_run
      (ap (λ (q : State toy × Result Failure EnrollResponse). q.1) enroll_run) refl refl refl

enroll_race_example :
    ((check_revoked toy decoders
        (memory_challenge_store toy)
        memory_device_repo
        device_id
        enrolled).1
      ≡ ok tt)
    × (is_device_active device_id (revoke_device device_id enrolled.devices).0 ≡ false)
    × (is_device_active device_id
          (sign_for toy decoders
            (memory_challenge_store toy)
            memory_device_repo
            world
            handler
            submission
            attested
            device_id
            (record enrolled { devices = (revoke_device device_id enrolled.devices).0 })).0.devices
        ≡ true)
enroll_race_example =
    enroll_race toy decoders world handler submission attested device_id enrolled device granted
      held_run refl raced_run

authenticate-IsAuthentic_example :
    IsAuthentic toy memory_device_repo finished.devices ping identified
authenticate-IsAuthentic_example =
    authenticate-IsAuthentic toy memory_device_repo memory_device_repo-IsLawful finished.devices
      ping identified authenticate_run

authenticate_current_example :
    authenticate toy memory_device_repo (some finished.devices) ping
    ≡ ok (described toy memory_device_repo issued (some device))
authenticate_current_example =
    authenticate_current toy memory_device_repo memory_device_repo-IsLawful finished.devices ping
      issued (root ∷ []) device refl (subst (λ k. k ≢ []) (sym named_run) device_id-nonempty)
      bound_run device-IsCurrent
