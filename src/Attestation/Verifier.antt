-- ===== src/Attestation/Verifier.antt =====
-- `ExtractChallenge` and `VerifyAttestation` of backend/internal/attestation/verifier.go. What the calls
-- meet outside the program, the clock and the answers to revocation requests, is an argument. The
-- revocation client is changed in place, so a verification returns it.
pub mod Client
pub mod Complete
pub mod Soundness
use mtls_authentication_poc.Prelude.{
  ℕ, suc, refl, ite, true, false, not, ◌&&◌, ◌||◌, Option, none, some, List, [], ◌∷◌, arith,
  ℕ_discrete, ltb, if◌then◌else◌, ◌==◌, pos, ℤ_discrete, ℤ_eq, length, Bytes, text_discrete, ℕ_eq,
  text_eq, Result, ok, err, ◌>>=◌, ◌>>◌, guard, or_fail,
}
use mtls_authentication_poc.Platform.{Platform, Time, Extension, Certificate}
use mtls_authentication_poc.Attestation.Types.{
  Decoders, AttestationRecord, Policy, software, android_key_attestation_oid,
}
use mtls_authentication_poc.Attestation.Revocation.{RevocationStatusClient, Call, is_key_revoked}
use mtls_authentication_poc.Attestation.Description.{
  VerifyError, chain_empty, chain_too_short, chain_too_long, bad_certificate, revocation_failed,
  certificate_revoked, chain_untrusted, bad_leaf_key, bad_csr_key, key_mismatch, extension_missing,
  bad_key_description, index_panic, verify_key_description,
}

abbrev pub max_chain_certificates : ℕ
max_chain_certificates = 16

pub record Verifier (p : Platform) : Type 0 where
  pub root_pool : List (Certificate p.Key)
  pub policy : Policy
  pub revocations : Option RevocationStatusClient

-- The clock at `leaf.Verify`, and what the revocation call for each certificate meets.
pub record World : Type 0 where
  pub verified_at : Time
  pub calls : ℕ → Call

pub data ChallengeError : Type 0 where
  no_chain bad_leaf bad_description no_extension : ChallengeError

-- The value of the first extension with the attestation identifier.
unfoldable pub find_extension : List Extension → Option Bytes
find_extension [] = none
find_extension (ext ∷ exts) =
    if ext.id == android_key_attestation_oid then some ext.value else find_extension exts

-- The record of a device that presents no attestation, in development mode.
abbrev pub software_record : Bytes → AttestationRecord
software_record challenge = record {
  attestation_version = pos 0;
  attestation_security_level = software;
  keymaster_version = pos 0;
  keymaster_security_level = software;
  attestation_challenge = challenge;
  device_locked = false;
  verified_boot_state = pos 0;
  verified_boot_key = [];
  os_version = pos 0;
  os_patch_level = pos 0;
}

module _ (p : Platform) (d : Decoders) where
  unfoldable pub extract_challenge : List Bytes → Result ChallengeError Bytes
  extract_challenge [] = err no_chain
  extract_challenge (der ∷ _) = do
    leaf ← or_fail (p.parse_certificate der) bad_leaf
    value ← or_fail (find_extension leaf.extensions) no_extension
    kd ← or_fail (d.key_description value) bad_description
    ok kd.attestation_challenge

  -- The parsing loop, from index `i` on.
  unfoldable pub parse_chain : ℕ → List Bytes → Result VerifyError (List (Certificate p.Key))
  parse_chain i [] = ok []
  parse_chain i (der ∷ ders) = do
    c ← or_fail (p.parse_certificate der) (bad_certificate i)
    cs ← parse_chain (suc i) ders
    ok (c ∷ cs)

  -- The revocation loop, from index `i` on, with the client after it.
  unfoldable pub check_revocations :
      (ℕ → Call)
      → ℕ
      → List (Certificate p.Key)
      → RevocationStatusClient
      → RevocationStatusClient × Result VerifyError (Unit {0})
  check_revocations calls i [] c = (c, ok tt)
  check_revocations calls i (cert ∷ certs) c =
      let answer = is_key_revoked p cert.public_key (calls i) c in
      let rest = check_revocations calls (suc i) certs answer.0 in
      elim answer.1 [
        | err e ↦ (answer.0, err (revocation_failed i e))
        | ok true ↦ (answer.0, err (certificate_revoked i))
        | ok false ↦ rest
      ]

  -- Step 0, when the policy asks for it and a client is attached.
  unfoldable pub consult_revocations :
      (ℕ → Call)
      → Verifier p
      → List (Certificate p.Key)
      → Option RevocationStatusClient × Result VerifyError (Unit {0})
  consult_revocations calls v certs = elim v.revocations [
    | none ↦ (none, ok tt)
    | some c ↦
        if v.policy.check_revocation_list
        then (let after = check_revocations calls 0 certs c in (some after.0, after.1))
        else (some c, ok tt)
  ]

  -- Step 2
  unfoldable pub match_csr_key : Certificate p.Key → Option p.Key → Result VerifyError (Unit {0})
  match_csr_key leaf none = ok tt
  match_csr_key leaf (some key) = do
    leaf_pkix ← or_fail (p.marshal_public_key leaf.public_key) bad_leaf_key
    csr_pkix ← or_fail (p.marshal_public_key (some key)) bad_csr_key
    guard (leaf_pkix == csr_pkix) key_mismatch

  -- Steps 3 and 4: an extension that is missing or empty is no attestation.
  unfoldable pub verify_extension :
      Policy → Option Bytes → Bytes → Result VerifyError AttestationRecord
  verify_extension policy (some (b ∷ bs)) challenge = do
    kd ← or_fail (d.key_description (b ∷ bs)) bad_key_description
    verify_key_description p d policy kd challenge
  verify_extension policy _ challenge =
      if policy.allow_empty_attestation
      then ok (software_record challenge)
      else err extension_missing

  -- Steps 1 to 9, on the leaf and the intermediates.
  unfoldable pub verify_leaf :
      Time
      → Verifier p
      → Certificate p.Key
      → List (Certificate p.Key)
      → Bytes
      → Option p.Key
      → Result VerifyError AttestationRecord
  verify_leaf now v leaf intermediates challenge csr_key = do
    guard (v.policy.skip_chain_validation || p.verify_chain now v.root_pool intermediates leaf)
        chain_untrusted
    match_csr_key leaf csr_key
    verify_extension v.policy (find_extension leaf.extensions) challenge

  abbrev pub verify_certificates :
      World
      → Verifier p
      → List (Certificate p.Key)
      → Bytes
      → Option p.Key
      → Option RevocationStatusClient × Result VerifyError AttestationRecord
  verify_certificates w v [] challenge csr_key = (v.revocations, err index_panic)
  verify_certificates w v (leaf ∷ intermediates) challenge csr_key =
      let consulted = consult_revocations w.calls v (leaf ∷ intermediates) in
      (consulted.0, consulted.1 >> verify_leaf w.verified_at v leaf intermediates challenge csr_key)

  unfoldable pub verify_attestation :
      World
      → Verifier p
      → List Bytes
      → Bytes
      → Option p.Key
      → Option RevocationStatusClient × Result VerifyError AttestationRecord
  verify_attestation w v [] challenge csr_key = (
    v.revocations,
    if v.policy.allow_empty_attestation then ok (software_record challenge) else err chain_empty,
  )
  verify_attestation w v (der ∷ ders) challenge csr_key =
      if ltb (length (der ∷ ders)) 2 && not v.policy.allow_empty_attestation
      then (v.revocations, err chain_too_short)
      else if ltb max_chain_certificates (length (der ∷ ders))
      then (v.revocations, err chain_too_long)
      else elim (parse_chain 0 (der ∷ ders)) [
        | err e ↦ (v.revocations, err e)
        | ok certs ↦ verify_certificates w v certs challenge csr_key
      ]
