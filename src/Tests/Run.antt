-- ===== src/Tests/Run.antt =====
-- One enrollment on the small platform, and what it computes to.
use mtls_authentication_poc.Prelude.{
  ℕ, ◌≡◌, refl, true, false, none, some, [], ◌∷◌, ℕ_discrete, pos, ℤ_discrete, ℤ_eq, ◌+ℤ◌, ◌-ℤ◌,
  codes, text_discrete, ℕ_eq, text_eq, ok,
}
use mtls_authentication_poc.Platform.{hour, int_string, hex_encode}
use mtls_authentication_poc.Storage.Challenges.{
  memory_challenge_store, verify_and_consume_challenge, cleanup,
}
use mtls_authentication_poc.Storage.Devices.{
  DeviceRecord, memory_device_repo, register_device, get_device, revoke_device, is_serial_revoked,
  is_device_active,
}
use mtls_authentication_poc.Attestation.Types.{Policy, default_strict_policy, security_level_string}
use mtls_authentication_poc.Attestation.Asn1.{
  find_tagged, first_tagged, find_int_tag, find_root_of_trust,
}
use mtls_authentication_poc.Attestation.Description.{
  verify_key_description, verify_levels, root_of_trust, check_application_id, os_fallback,
  extract_os_info, enforce_minimum, apply_root,
}
use mtls_authentication_poc.Attestation.Revocation.{
  RevocationStatusClient, Call, get_failed, public_key_fingerprint, is_key_revoked, answer_for,
  refresh,
}
use mtls_authentication_poc.Attestation.Verifier.{
  World, verify_attestation, extract_challenge, find_extension, parse_chain, check_revocations,
  consult_revocations, match_csr_key, verify_extension, verify_leaf,
}
use mtls_authentication_poc.Ca.Signer.{Ca, Draws, sign_csr}
use mtls_authentication_poc.Http.{Request, method_post}
use mtls_authentication_poc.Handlers.Enroll.Request.{
  EnrollRequest, Decode, Submission, read_submission, matches_label_pattern, decode_chain,
  locate_challenge,
}
use mtls_authentication_poc.Handlers.Enroll.Issue.{
  EnrollHandler, EnrollResponse, EnrollWorld, enroll, consume_challenge, verify_submission, persist,
  register_signed, sign_for, issue_for, issue, verify_and_issue, enroll_submission,
}
use mtls_authentication_poc.Server.Routes.{State}
use mtls_authentication_poc.Prelude.Dict.{lookup, insert, erase}
use mtls_authentication_poc.Tests.Toy.{
  toy, decoders, parse, parse_request, certificate_discrete, create, raw_values, described, boot,
  issued, root, device_id, device_key,
}

abbrev pub policy : Policy
policy = default_strict_policy

abbrev pub revocations : RevocationStatusClient
revocations = record { list_url = []; ttl = hour; entries = some []; fetched = pos 0 }

abbrev pub quiet : Call
quiet = record { now = pos 1; outcome = λ url. get_failed; done = pos 2 }

abbrev pub verification : World
verification = record { verified_at = pos 1; calls = λ i. quiet }

abbrev pub draws : Draws
draws = record { key_seed = []; serial = some 7; now = pos 1; later = pos 1; nonce = 11 ∷ [] }

abbrev pub world : EnrollWorld
world = record {
  consumed_at = pos 1;
  verification = verification;
  draws = record draws { now = pos 0; later = pos 0 };
  enrolled_at = pos 3;
}

abbrev pub authority : Ca toy
authority = record { certificate = root; private_key = 1 }

abbrev pub handler : EnrollHandler toy
handler = record {
  ca = authority;
  ca_pem = 8 ∷ [];
  root_pool = root ∷ [];
  policy = policy;
  client_cert_ttl = hour;
}

abbrev pub body : EnrollRequest
body = record {
  device_id = codes "pixel-9";
  csr = 3 ∷ [];
  attestation_chain = (1 ∷ []) ∷ (2 ∷ []) ∷ [];
}

abbrev pub decode : Decode
decode = λ bs. some body

abbrev pub post : Request ℕ
post = record { method = method_post; path = []; body = 1 ∷ []; peer_certificates = none }

-- A device whose identity is revoked.
abbrev pub retired : DeviceRecord
retired = record {
  identity = codes "old";
  label = [];
  cert_serial = codes "3";
  enrolled_at = pos 0;
  is_revoked = true;
  hardware_security_level = codes "TEE";
}

abbrev pub start : State toy
start = record {
  challenges = record { challenges = (77 ∷ [], pos 100) ∷ [] };
  devices = record { devices = (codes "old", retired) ∷ []; revoked_serials = [] };
  revocations = some revocations;
}

abbrev pub submission : Submission toy
submission = record {
  label = codes "pixel-9";
  csr_der = 3 ∷ [];
  csr = record { public_key = some device_key; content = 3 ∷ [] };
  chain_der = (1 ∷ []) ∷ (2 ∷ []) ∷ [];
  challenge = 77 ∷ [];
}

abbrev pub device : DeviceRecord
device = record {
  identity = device_id;
  label = codes "pixel-9";
  cert_serial = codes "7";
  enrolled_at = pos 3;
  is_revoked = false;
  hardware_security_level = codes "TEE";
}

abbrev pub granted : EnrollResponse
granted = record {
  client_certificate = 9 ∷ 11 ∷ [];
  ca_certificate = 8 ∷ [];
  certificate_chain = (9 ∷ 11 ∷ []) ∷ (8 ∷ []) ∷ [];
  device_identity = device_id;
  device_label = codes "pixel-9";
}

abbrev pub finished : State toy
finished = record start {
  challenges = record { challenges = [] };
  devices = record {
    devices = (codes "old", retired) ∷ (device_id, device) ∷ [];
    revoked_serials = [];
  };
}

-- The definitions that an enrollment runs through.
unfoldable pub library : Unit {0}
unfolding sign_csr parse_request parse create certificate_discrete ◌-ℤ◌ ◌+ℤ◌ ℕ_eq ℕ_discrete text_eq
    ℤ_eq text_discrete ℤ_discrete described boot raw_values lookup insert erase
    matches_label_pattern decode_chain locate_challenge read_submission extract_challenge
    find_extension parse_chain check_revocations consult_revocations match_csr_key verify_extension
    verify_leaf verify_attestation find_tagged first_tagged find_int_tag find_root_of_trust
    verify_levels root_of_trust check_application_id os_fallback extract_os_info enforce_minimum
    apply_root verify_key_description answer_for refresh is_key_revoked public_key_fingerprint
    hex_encode security_level_string int_string verify_and_consume_challenge get_device
    register_device revoke_device is_serial_revoked is_device_active cleanup consume_challenge
    verify_submission persist register_signed sign_for issue_for issue verify_and_issue
    enroll_submission enroll
library = tt

pub sign_csr_run :
    sign_csr toy world.draws authority (3 ∷ []) device_id hour ≡ ok (issued, 9 ∷ 11 ∷ [])
unfolding library
sign_csr_run = refl

pub read_submission_run : read_submission toy decoders decode policy post ≡ ok submission
unfolding library
read_submission_run = refl

pub enroll_run :
    enroll toy decoders
      (memory_challenge_store toy)
      memory_device_repo
      decode
      world
      handler
      post
      start
    ≡ (finished, ok granted)
unfolding library
enroll_run = refl
