-- ===== src/Handlers/Enroll/Request.antt =====
-- The first part of the enrollment handler: from the HTTP request to a decoded submission.
use mtls_authentication_poc.Prelude.{
  ℕ, ◌*◌, ◌^◌, Bool, false, not, ◌&&◌, ◌||◌, Option, List, [], ◌∷◌, leb, if◌then◌else◌, ◌==◌, ℤ_eq,
  length, take, all, Bytes, Text, ℕ_eq, text_eq, Result, ok, err, ◌>>=◌, ◌>>◌, guard, or_fail,
}
use mtls_authentication_poc.Platform.{Platform, CertificateRequest}
use mtls_authentication_poc.Attestation.Types.{Decoders, Policy}
use mtls_authentication_poc.Attestation.Verifier.{ChallengeError, extract_challenge}
use mtls_authentication_poc.Http.{Request, Failure, http_error, method_post}

pub record EnrollRequest : Type 0 where
  pub device_id : Text
  pub csr : Text
  pub attestation_chain : List Text

-- encoding/json: the first value of a stream, as an `EnrollRequest`.
abbrev pub Decode : Type 0
Decode = Bytes → Option EnrollRequest

abbrev pub max_enroll_body_bytes : ℕ
max_enroll_body_bytes = 256 * 2 ^ 10

abbrev is_alphanumeric : ℕ → Bool
is_alphanumeric c =
    (leb b'A' c && leb c b'Z') || (leb b'a' c && leb c b'z') || (leb b'0' c && leb c b'9')

abbrev pub is_label_byte : ℕ → Bool
is_label_byte c = is_alphanumeric c || leb b'-' c && leb c b'.' || leb b'_' c && leb c b'_'

-- `^[A-Za-z0-9][A-Za-z0-9._-]{0,63}$`
unfoldable pub matches_label_pattern : Text → Bool
matches_label_pattern [] = false
matches_label_pattern (c ∷ cs) = is_alphanumeric c && all is_label_byte cs && leb (length cs) 63

-- What the first part of the handler has decoded.
pub record Submission (p : Platform) : Type 0 where
  pub label : Text
  pub csr_der : Bytes
  pub csr : CertificateRequest p.Key
  pub chain_der : List Bytes
  pub challenge : Bytes

module _ (p : Platform) (d : Decoders) where
  unfoldable pub decode_chain : List Text → Result Failure (List Bytes)
  decode_chain [] = ok []
  decode_chain (c ∷ cs) = do
    der ←
        or_fail (p.base64_decode c)
          (http_error 400 "failed to decode certificate in attestation_chain")
    ders ← decode_chain cs
    ok (der ∷ ders)

  -- An extraction that fails leaves no challenge where the policy allows an empty attestation.
  abbrev pub or_no_challenge : Policy → Result ChallengeError Bytes → Result Failure Bytes
  or_no_challenge policy (ok challenge) = ok challenge
  or_no_challenge policy (err _) =
      if not policy.allow_empty_attestation
      then err (http_error 400 "attestation challenge could not be located")
      else ok []

  unfoldable pub locate_challenge : Policy → List Bytes → Result Failure Bytes
  locate_challenge policy [] = ok []
  locate_challenge policy (der ∷ ders) = or_no_challenge policy (extract_challenge p d (der ∷ ders))

  unfoldable pub read_submission : Decode → Policy → Request p.Key → Result Failure (Submission p)
  read_submission decode policy r = do
    guard (r.method == method_post) (http_error 405 "Method not allowed")
    req ← or_fail (decode (take max_enroll_body_bytes r.body)) (http_error 400 "invalid JSON body")
    guard (req.device_id == [] || matches_label_pattern req.device_id)
        (http_error 400 "invalid device_id label")
    guard (not (req.csr == [])) (http_error 400 "csr is required")
    csr_der ← or_fail (p.base64_decode req.csr) (http_error 400 "failed to decode base64 CSR")
    csr ← or_fail (p.parse_certificate_request csr_der) (http_error 400 "invalid CSR")
    guard (policy.allow_empty_attestation || leb 2 (length req.attestation_chain)) (
        http_error 400 "attestation_chain must contain at least leaf and intermediate certificates")
    chain_der ← decode_chain req.attestation_chain
    challenge ← locate_challenge policy chain_der
    ok (record {
      label = req.device_id;
      csr_der = csr_der;
      csr = csr;
      chain_der = chain_der;
      challenge = challenge;
    })
