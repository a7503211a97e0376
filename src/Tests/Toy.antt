-- ===== src/Tests/Toy.antt =====
-- A platform small enough to compute with. A key is a number, texts are their own base64, and a
-- certificate is parsed from one of three encodings. The authority creates one certificate only.
use mtls_authentication_poc.Prelude.{
  inr, ℕ, ◌%◌, ◌<◌, ◌≡◌, refl, sym, ap, ◌∙◌, ite, Bool, true, false, Option, none, some, List, [],
  ◌∷◌, ◌++◌, arith, ℕ_discrete, leb, if◌then◌else◌, ◌==◌, pos, negsuc, ℤ_eq, length, All, Bytes,
  Text, codes, ℕ_eq, text_eq,
}
use mtls_authentication_poc.Platform.{
  Platform, Extension, ExtKeyUsage, client_auth, Certificate, CertificateRequest, RawValue,
  digital_signature, hour,
}
use mtls_authentication_poc.Platform.Laws.{IsStandard, IsIssued}
use mtls_authentication_poc.Attestation.Types.{
  KeyDescription, RootOfTrust, Decoders, android_key_attestation_oid, trusted_environment,
  strong_box, verified, tag_root_of_trust,
}

abbrev zeros : Bytes
zeros =
    0 ∷ 0 ∷ 0 ∷ 0 ∷ 0 ∷ 0 ∷ 0 ∷ 0 ∷ 0 ∷ 0 ∷ 0 ∷ 0 ∷ 0 ∷ 0 ∷ 0 ∷ 0 ∷ 0 ∷ 0 ∷ 0 ∷ 0 ∷ 0 ∷ 0 ∷ 0 ∷ 0
    ∷ 0 ∷ 0 ∷ 0 ∷ 0 ∷ 0 ∷ 0 ∷ 0 ∷ []

abbrev pub digest : Bytes → Bytes
digest [] = 0 ∷ zeros
digest (b ∷ _) = (b % 256) ∷ zeros

abbrev pub device_key : ℕ
device_key = 0xa5

-- The fingerprint of the device's key.
abbrev pub device_id : Text
device_id = codes "a500000000000000000000000000000000000000000000000000000000000000"

-- The same in upper case, as a status list may hold it.
abbrev pub listed_id : Text
listed_id = codes "A500000000000000000000000000000000000000000000000000000000000000"

abbrev pub issued : Certificate ℕ
issued = record {
  public_key = some device_key;
  serial_number = pos 7;
  common_name = device_id;
  organization = codes "Hardware mTLS Client" ∷ [];
  uris = (codes "urn:device:" ++ device_id) ∷ [];
  dns_names = [];
  ip_addresses = [];
  not_before = negsuc 59_999_999_999;
  not_after = hour;
  key_usage = digital_signature;
  ext_key_usage = client_auth ∷ [];
  basic_constraints_valid = true;
  is_ca = false;
  max_path_len = 0;
  extensions = [];
}

-- A certificate of an attestation chain.
abbrev attesting : ℕ → List Extension → Certificate ℕ
attesting key extensions = record issued {
  public_key = some key;
  common_name = [];
  uris = [];
  extensions = extensions;
}

abbrev pub leaf : Certificate ℕ
leaf = attesting device_key (record { id = android_key_attestation_oid; value = 42 ∷ [] } ∷ [])

abbrev pub root : Certificate ℕ
root = attesting 6 []

abbrev marshal : Option ℕ → Option Bytes
marshal none = none
marshal (some k) = some (k ∷ [])

abbrev starts : ℕ → Bytes → Bool
starts n [] = false
starts n (b ∷ _) = b == n

-- The first byte of an encoding says what it encodes.
unfoldable pub parse : Bytes → Option (Certificate ℕ)
parse bs =
    if starts 1 bs
    then some leaf
    else if starts 2 bs
    then some root
    else if starts 9 bs
    then some issued
    else none

unfoldable pub parse_request : Bytes → Option (CertificateRequest ℕ)
parse_request bs =
    if starts 3 bs then some (record { public_key = some device_key; content = bs }) else none

ExtKeyUsage_discrete : Discrete ExtKeyUsage
ExtKeyUsage_discrete = hlevel

unfoldable pub certificate_discrete : Discrete (Certificate ℕ)
unfolding ℕ_discrete
certificate_discrete = hlevel ℕ_discrete

unfoldable pub create : Bytes → Certificate ℕ → Certificate ℕ → Option ℕ → ℕ → Option Bytes
create nonce template parent key signer =
    ite (certificate_discrete (record template { public_key = key }) issued) (some (9 ∷ nonce)) none

unfoldable pub raw_values : Bytes → Option (List RawValue)
raw_values bs =
    if starts 50 bs
    then some (record { tag = tag_root_of_trust; bytes = 60 ∷ []; full_bytes = [] } ∷ [])
    else none

abbrev pub toy : Platform
toy = record {
  Key = ℕ;
  PrivateKey = ℕ;
  parse_certificate = parse;
  parse_certificate_request = parse_request;
  check_signature = λ csr. leb 1 (length csr.content);
  marshal_public_key = marshal;
  verify_chain = λ now roots intermediates c. leb 1 (length roots);
  create_certificate = create;
  public_of = λ key. key;
  marshal_ec_private_key = λ key. some (key ∷ []);
  parse_ec_private_key = λ der. none;
  parse_pkcs8_private_key = λ der. none;
  generate_key = λ seed. some device_key;
  sha256 = digest;
  pem_decode = λ bs. none;
  pem_encode = λ block. block.bytes;
  parse_url = some;
  base64_encode = λ bs. bs;
  base64_decode = some;
  seconds_of = λ ttl. ttl;
  format_time = λ t. [];
  unix_of = λ t. t;
  unicode_lower = λ t. t;
  parse_status_list = λ bs. some ((listed_id, bs) ∷ []);
  unmarshal_raw_values = raw_values;
  unmarshal_raw_value = λ bs. none;
  unmarshal_int = λ bs. none;
}

abbrev pub raw : Bytes → RawValue
raw bs = record { tag = pos 0; bytes = []; full_bytes = bs }

abbrev pub description : KeyDescription
description = record {
  attestation_version = pos 4;
  attestation_security_level = trusted_environment;
  keymaster_version = pos 4;
  keymaster_security_level = strong_box;
  attestation_challenge = 77 ∷ [];
  unique_id = [];
  software_enforced = raw [];
  tee_enforced = raw (50 ∷ []);
}

unfoldable pub described : Bytes → Option KeyDescription
described bs = if starts 42 bs then some description else none

abbrev pub booted : RootOfTrust
booted = record {
  verified_boot_key = [];
  device_locked = true;
  verified_boot_state = verified;
  verified_boot_hash = [];
}

unfoldable pub boot : Bytes → Option RootOfTrust
boot bs = if starts 60 bs then some booted else none

abbrev pub decoders : Decoders
decoders = record { key_description = described; root_of_trust = boot; application_id = λ bs. none }

zeros_bytes : All (λ x. x < 256) zeros
zeros_bytes = ground arith

length-digest : (b : Bytes) → length (digest b) ≡ 32
length-digest [] = refl
length-digest (b ∷ _) = refl

digest_bytes : (b : Bytes) → All (λ x. x < 256) (digest b)
digest_bytes [] = (omega arith, zeros_bytes)
digest_bytes (b ∷ _) = (omega arith, zeros_bytes)

ite-eq-some : {P : Type 0} (d : Dec P) (x y : Bytes) → ite d (some x) none ≡ some y → P × (x ≡ y)
ite-eq-some (yes h) x y e = (h, cc)
ite-eq-some (no h) x y e = cc

parse-issued : (nonce : Bytes) → parse (9 ∷ nonce) ≡ some issued
unfolding parse ℕ_eq
parse-issued nonce = refl

create-parse :
    (r : Bytes) (t parent : Certificate ℕ) (key : Option ℕ) (signer : ℕ) (der : Bytes)
    (c : Certificate ℕ)
    → create r t parent key signer ≡ some der
    → parse der ≡ some c
    → IsIssued t c key
unfolding create
create-parse r t parent key signer der c e f =
    let (same, written) =
      ite-eq-some (certificate_discrete (record t { public_key = key }) issued) (9 ∷ r) der e in
    let read : issued ≡ c = cc (parse-issued r, written, f) in
    let back = sym (same ∙ read) in
    record {
      public_key = ap (λ (x : Certificate ℕ). x.public_key) back;
      serial_number = ap (λ (x : Certificate ℕ). x.serial_number) back;
      common_name = ap (λ (x : Certificate ℕ). x.common_name) back;
      uris = ap (λ (x : Certificate ℕ). x.uris) back;
      key_usage = ap (λ (x : Certificate ℕ). x.key_usage) back;
      ext_key_usage = ap (λ (x : Certificate ℕ). x.ext_key_usage) back;
      is_ca = inr (ap (λ (x : Certificate ℕ). x.is_ca) back);
    }

pub toy-IsStandard : IsStandard toy
toy-IsStandard = record {
  marshal_nil = refl;
  length-sha256 = length-digest;
  sha256_bytes = digest_bytes;
  created = create-parse;
}
