-- ===== src/Platform/Laws.antt =====
-- What the theorems assume of the Go standard library, from its documentation.
use mtls_authentication_poc.Prelude.{
  ◌<◌, ◌≡◌, ◌⊎◌, false, Option, none, some, ℤ_eq, length, All, Bytes, ℕ_eq, text_eq,
}
use mtls_authentication_poc.Platform.{Platform, Certificate}

-- A certificate that was created from a template and parsed again has the template's fields,
-- and its authority flag where the template marks the basic constraints as valid.
pub record IsIssued {Key : Type 0} (t c : Certificate Key) (key : Option Key) : Type 0 where
  pub public_key : c.public_key ≡ key
  pub serial_number : c.serial_number ≡ t.serial_number
  pub common_name : c.common_name ≡ t.common_name
  pub uris : c.uris ≡ t.uris
  pub key_usage : c.key_usage ≡ t.key_usage
  pub ext_key_usage : c.ext_key_usage ≡ t.ext_key_usage
  pub is_ca : (t.basic_constraints_valid ≡ false) ⊎ (c.is_ca ≡ t.is_ca)

pub record IsStandard (p : Platform) : Type 0 where
  -- A nil key has no encoding.
  pub marshal_nil : p.marshal_public_key none ≡ none
  -- A digest is 32 bytes.
  pub length-sha256 : (b : Bytes) → length (p.sha256 b) ≡ 32
  pub sha256_bytes : (b : Bytes) → All (λ x. x < 256) (p.sha256 b)
  pub created :
      (r : Bytes) (t parent : Certificate p.Key) (key : Option p.Key) (signer : p.PrivateKey)
      (der : Bytes) (c : Certificate p.Key)
      → p.create_certificate r t parent key signer ≡ some der
      → p.parse_certificate der ≡ some c
      → IsIssued t c key
