-- ===== src/Tests/Attested.antt =====
-- The theorems on attestation, on signing and on the enrollment endpoint, at the example.
use mtls_authentication_poc.Prelude.{
  ◌≡◌, refl, ap, ◌≢◌, inl, true, false, none, some, [], ◌∷◌, pos, ℤ_eq, codes, ℕ_eq, text_eq,
  Result, ok, err,
}
use mtls_authentication_poc.Platform.{hour}
use mtls_authentication_poc.Storage.Challenges.{memory_challenge_store}
use mtls_authentication_poc.Storage.Challenges.Memory.{memory_challenge_store-IsLawful}
use mtls_authentication_poc.Storage.Devices.{memory_device_repo, get_device}
use mtls_authentication_poc.Storage.Devices.Memory.{memory_device_repo-IsLawful}
use mtls_authentication_poc.Attestation.Types.{
  AttestationRecord, trusted_environment, strong_box, verified,
}
use mtls_authentication_poc.Attestation.Description.{verify_key_description}
use mtls_authentication_poc.Attestation.Description.Hardware.{
  with_software, verify_key_description-with_software,
}
use mtls_authentication_poc.Attestation.Revocation.{
  RevocationStatusClient, Call, response, fetch_failed, read_response, fetch_locked, is_key_revoked,
  public_key_fingerprint, to_lower, fold_char, equal_fold,
}
use mtls_authentication_poc.Attestation.Revocation.Laws.{
  IsAnswered, is_key_revoked-IsAnswered, is_key_revoked_failed, is_key_revoked-listed,
}
use mtls_authentication_poc.Attestation.Verifier.{Verifier, verify_attestation}
use mtls_authentication_poc.Attestation.Verifier.Soundness.{IsTrusted, verify_attestation-IsTrusted}
use mtls_authentication_poc.Ca.Signer.Issued.{IsDeviceCertificate, sign_csr-IsDeviceCertificate}
use mtls_authentication_poc.Http.{Failure, http_error}
use mtls_authentication_poc.Handlers.Enroll.Request.{Submission, read_submission}
use mtls_authentication_poc.Handlers.Enroll.Issue.{EnrollResponse, enroll}
use mtls_authentication_poc.Handlers.Enroll.Read.{IsRead, read_submission-IsRead}
use mtls_authentication_poc.Handlers.Enroll.Registry.{enroll-revoked}
use mtls_authentication_poc.Handlers.Enroll.Failed.{enroll_failed}
use mtls_authentication_poc.Handlers.Enroll.Security.{
  IsGenuine, IsConsumed, enroll-IsGenuine, enroll-IsConsumed, enroll_replay,
}
use mtls_authentication_poc.Server.Routes.{State}
use mtls_authentication_poc.Tests.Toy.{
  raw, toy, toy-IsStandard, decoders, description, issued, device_id, listed_id, device_key,
}
use mtls_authentication_poc.Tests.Run.{
  library, policy, revocations, quiet, verification, world, authority, handler, decode, post, start,
  finished, granted, submission, retired, sign_csr_run, read_submission_run, enroll_run,
}

abbrev verifier : Verifier toy
verifier = record { root_pool = handler.root_pool; policy = policy; revocations = some revocations }

abbrev attested : AttestationRecord
attested = record {
  attestation_version = pos 4;
  attestation_security_level = trusted_environment;
  keymaster_version = pos 4;
  keymaster_security_level = strong_box;
  attestation_challenge = 77 ∷ [];
  device_locked = true;
  verified_boot_state = verified;
  verified_boot_key = [];
  os_version = pos 0;
  os_patch_level = pos 0;
}

-- A client that has no list yet, and a call in which the server answers that the device is revoked.
abbrev fresh_client : RevocationStatusClient
fresh_client = record revocations { entries = none }

abbrev listing : Call
listing = record quiet { outcome = λ url. response 200 (some (codes "Revoked")) }

abbrev ran : State toy × Result Failure EnrollResponse
ran =
    enroll toy decoders (memory_challenge_store toy) memory_device_repo decode world handler post
      start

enroll_run_ok : ran.1 ≡ ok granted
enroll_run_ok = ap (λ (q : State toy × Result Failure EnrollResponse). q.1) enroll_run

retired_run : get_device (codes "old") start.devices ≡ ok retired
unfolding library
retired_run = refl

second_run :
    (enroll toy decoders
      (memory_challenge_store toy)
      memory_device_repo
      decode
      world
      handler
      post
      finished).1
    ≡ err (http_error 400 "invalid or expired attestation challenge")
unfolding library
second_run = refl

attested_run :
    (verify_attestation toy decoders verification verifier submission.chain_der
      (77 ∷ [])
      (some device_key)).1
    ≡ ok attested
unfolding library
attested_run = refl

unlisted_run : (is_key_revoked toy (some device_key) quiet revocations).1 ≡ ok false
unfolding library
unlisted_run = refl

unreachable_run : (is_key_revoked toy (some device_key) quiet fresh_client).1 ≡ err fetch_failed
unfolding library fetch_locked read_response
unreachable_run = refl

fingerprint_run : public_key_fingerprint toy (some device_key) ≡ some device_id
unfolding library
fingerprint_run = refl

lower_run : to_lower toy listed_id ≡ device_id
unfolding to_lower
lower_run = refl

revoked_run : equal_fold (codes "Revoked") (codes "REVOKED") ≡ true
unfolding equal_fold fold_char library
revoked_run = refl

enroll-IsGenuine_example :
    (sub : Submission toy) × (read_submission toy decoders decode policy post ≡ ok sub)
    × IsGenuine toy decoders
        (memory_challenge_store toy)
        memory_device_repo
        world
        handler
        start
        sub
        granted
enroll-IsGenuine_example =
    enroll-IsGenuine toy decoders (memory_challenge_store toy) memory_device_repo decode world
      handler post start granted toy-IsStandard refl enroll_run_ok

enroll-IsConsumed_example :
    (submission.challenge ≢ [])
    × IsConsumed toy decoders
        (memory_challenge_store toy)
        memory_device_repo
        (memory_challenge_store-IsLawful toy)
        (pos 1)
        (77 ∷ [])
        start.challenges
        ran.0.challenges
enroll-IsConsumed_example =
    enroll-IsConsumed toy decoders (memory_challenge_store toy) memory_device_repo
      (memory_challenge_store-IsLawful toy) decode world handler post start submission granted refl
      read_submission_run enroll_run_ok

-- The same request once more, in the state that the first left.
enroll_replay_example :
    (enroll toy decoders
      (memory_challenge_store toy)
      memory_device_repo
      decode
      world
      handler
      post
      ran.0).1
    ≢ ok granted
enroll_replay_example =
    enroll_replay toy decoders (memory_challenge_store toy) memory_device_repo
      (memory_challenge_store-IsLawful toy) decode world handler post start submission granted world
      post ran.0 submission granted refl read_submission_run enroll_run_ok read_submission_run refl
      refl

enroll-revoked_example : get_device (codes "old") ran.0.devices ≡ ok retired
enroll-revoked_example =
    enroll-revoked toy decoders (memory_challenge_store toy) memory_device_repo
      memory_device_repo-IsLawful decode world handler post start (codes "old") retired retired_run
      refl

-- After the first run the challenge is gone, so the second fails.
enroll_failed_example :
    get_device device_id
      (enroll toy decoders
        (memory_challenge_store toy)
        memory_device_repo
        decode
        world
        handler
        post
        finished).0.devices
    ≡ get_device device_id finished.devices
enroll_failed_example =
    enroll_failed toy decoders (memory_challenge_store toy) memory_device_repo
      memory_device_repo-IsLawful decode world handler post finished
      (http_error 400 "invalid or expired attestation challenge") device_id second_run

read_submission-IsRead_example : IsRead toy decoders decode policy post submission
read_submission-IsRead_example =
    read_submission-IsRead toy decoders decode policy post submission read_submission_run

verify_attestation-IsTrusted_example :
    IsTrusted toy decoders verification verifier submission.chain_der
      (77 ∷ [])
      (some device_key)
      attested
verify_attestation-IsTrusted_example =
    verify_attestation-IsTrusted toy decoders verification verifier submission.chain_der (77 ∷ [])
      (some device_key) attested refl attested_run

is_key_revoked-IsAnswered_example :
    IsAnswered toy
      (some device_key)
      quiet
      revocations
      (is_key_revoked toy (some device_key) quiet revocations).0
      false
is_key_revoked-IsAnswered_example =
    is_key_revoked-IsAnswered toy (some device_key) quiet revocations false unlisted_run

is_key_revoked_failed_example :
    (is_key_revoked toy (some device_key) quiet fresh_client).0 ≡ fresh_client
is_key_revoked_failed_example =
    is_key_revoked_failed toy (some device_key) quiet fresh_client fetch_failed unreachable_run

is_key_revoked-listed_example :
    (is_key_revoked toy (some device_key) listing fresh_client).1 ≡ ok true
is_key_revoked-listed_example =
    is_key_revoked-listed toy (some device_key) listing fresh_client device_id (codes "Revoked")
      ((listed_id, codes "Revoked") ∷ []) fingerprint_run refl refl refl (inl lower_run)
      ((λ same. revoked_run), tt)

sign_csr-IsDeviceCertificate_example : IsDeviceCertificate toy (3 ∷ []) device_id issued
sign_csr-IsDeviceCertificate_example =
    sign_csr-IsDeviceCertificate toy toy-IsStandard world.draws authority (3 ∷ []) device_id hour
      issued (9 ∷ 11 ∷ []) sign_csr_run

verify_key_description-with_software_example :
    verify_key_description toy decoders policy (with_software description (raw (50 ∷ []))) (77 ∷ [])
    ≡ verify_key_description toy decoders policy description (77 ∷ [])
verify_key_description-with_software_example =
    verify_key_description-with_software toy decoders policy description (raw (50 ∷ [])) refl
      (77 ∷ []) refl
