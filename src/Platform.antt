-- ===== src/Platform.antt =====
-- The Go standard library as backend/ uses it. Types whose fields the code reads or writes
-- (`x509.Certificate`, `asn1.RawValue`) are records. Parsers, signatures and hashes are the fields of
-- `Platform`, an argument of every definition that calls them. A Go `error` result is `none`, a nil
-- `crypto.PublicKey` is `none`. Times are nanoseconds since a fixed instant, as integers.
mod Numbers
pub mod Decimal
pub mod Laws
unfoldable pub use Numbers.*
use mtls_authentication_poc.Prelude.{
  ℕ, ◌*◌, refl, ite, Bool, Option, List, arith, ℕ_discrete, ℤ, pos, ℤ_discrete, ℤ_eq, Bytes, Text,
  text_discrete, ℕ_eq, text_eq, ◌>>=◌, ◌>>◌,
}

abbrev pub Time : Type 0
Time = ℤ

abbrev pub Duration : Type 0
Duration = ℤ

abbrev pub second : Duration
second = pos 1_000_000_000

abbrev pub minute : Duration
minute = pos 60_000_000_000

abbrev pub hour : Duration
hour = pos 3_600_000_000_000

-- `pkix.Extension`: the identifier in dotted form, and the value.
pub record Extension : Type 0 where
  pub id : Text
  pub value : Bytes

pub data ExtKeyUsage : Type 0 where
  any client_auth server_auth : ExtKeyUsage

-- The bits of `x509.KeyUsage`.
abbrev pub digital_signature : ℕ
digital_signature = 1

abbrev pub key_encipherment : ℕ
key_encipherment = 4

abbrev pub cert_sign : ℕ
cert_sign = 32

abbrev pub crl_sign : ℕ
crl_sign = 64

-- `x509.Certificate`, as a parsed certificate and as a template. `uris` holds each URL as text.
pub record Certificate (Key : Type 0) : Type 0 where
  pub public_key : Option Key
  pub serial_number : ℤ
  pub common_name : Text
  pub organization : List Text
  pub uris : List Text
  pub dns_names : List Text
  pub ip_addresses : List Text
  pub not_before : Time
  pub not_after : Time
  pub key_usage : ℕ
  pub ext_key_usage : List ExtKeyUsage
  pub basic_constraints_valid : Bool
  pub is_ca : Bool
  pub max_path_len : ℕ
  pub extensions : List Extension

-- `x509.CertificateRequest`. `content` stands for the signed bytes, which only `CheckSignature` reads.
pub record CertificateRequest (Key : Type 0) : Type 0 where
  pub public_key : Option Key
  pub content : Bytes

-- `asn1.RawValue`, with the fields that the code reads.
pub record RawValue : Type 0 where
  pub tag : ℤ
  pub bytes : Bytes
  pub full_bytes : Bytes

-- `pem.Block`
pub record PemBlock : Type 0 where
  pub type : Text
  pub bytes : Bytes

-- What `x509.ParsePKCS8PrivateKey` finds: an ECDSA key, or a key of another kind.
pub data AnyPrivateKey (PrivateKey : Type 0) : Type 0 where
  ecdsa : PrivateKey → AnyPrivateKey PrivateKey
  other_key : AnyPrivateKey PrivateKey

pub record Platform : Type 1 where
  pub Key : Type 0
  pub PrivateKey : Type 0
  -- crypto/x509
  pub parse_certificate : Bytes → Option (Certificate Key)
  pub parse_certificate_request : Bytes → Option (CertificateRequest Key)
  pub check_signature : CertificateRequest Key → Bool
  pub marshal_public_key : Option Key → Option Bytes
  -- `leaf.Verify` at a time, with the roots and the intermediates, for any key usage
  pub verify_chain : Time → List (Certificate Key) → List (Certificate Key) → Certificate Key → Bool
  -- randomness, template, parent, the subject's key and the signer's key
  pub create_certificate :
      Bytes → Certificate Key → Certificate Key → Option Key → PrivateKey → Option Bytes
  pub public_of : PrivateKey → Key
  pub marshal_ec_private_key : PrivateKey → Option Bytes
  pub parse_ec_private_key : Bytes → Option PrivateKey
  pub parse_pkcs8_private_key : Bytes → Option (AnyPrivateKey PrivateKey)
  -- crypto/ecdsa: a key from randomness
  pub generate_key : Bytes → Option PrivateKey
  -- crypto/sha256
  pub sha256 : Bytes → Bytes
  -- encoding/pem: the first block; the text of a block; the certificates that parse
  pub pem_decode : Bytes → Option PemBlock
  pub pem_encode : PemBlock → Bytes
  -- net/url: the text of the parsed URL
  pub parse_url : Text → Option Text
  -- encoding/base64, standard encoding
  pub base64_encode : Bytes → Text
  pub base64_decode : Text → Option Bytes
  -- `int64(d.Seconds())`, which goes through a float, and `t.UTC().Format(time.RFC3339)`
  pub seconds_of : Duration → ℤ
  pub format_time : Time → Text
  -- `t.Unix()`, in seconds
  pub unix_of : Time → ℤ
  -- strings.ToLower of a text that is not ASCII
  pub unicode_lower : Text → Text
  -- encoding/json: the entries of a status list document, in the order of Go's iteration
  pub parse_status_list : Bytes → Option (List (Text × Text))
  -- encoding/asn1
  pub unmarshal_raw_values : Bytes → Option (List RawValue)
  pub unmarshal_raw_value : Bytes → Option RawValue
  pub unmarshal_int : Bytes → Option ℤ
