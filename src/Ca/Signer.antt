-- ===== src/Ca/Signer.antt =====
-- backend/internal/ca/signer.go and cert_pool.go. Randomness and the clock are arguments: a serial is
-- the number below 2^128 that `rand.Int` draws, or `none` where it fails.
pub mod Issued
pub mod Loaded
use mtls_authentication_poc.Prelude.{
  ℕ, ◌+◌, ◌-◌, refl, ite, true, false, Option, none, some, [], ◌∷◌, ◌++◌, arith, ℕ_discrete,
  if◌then◌else◌, ◌==◌, ℤ, pos, ℤ_discrete, ℤ_eq, ◌+ℤ◌, ◌-ℤ◌, Bytes, Text, codes, text_discrete,
  ℕ_eq, text_eq, Result, ok, err, ◌>>=◌, ◌>>◌, guard, or_fail,
}
use mtls_authentication_poc.Platform.{
  Platform, Time, Duration, minute, Certificate, PemBlock, AnyPrivateKey, ecdsa, other_key,
  digital_signature, cert_sign, crl_sign, client_auth,
}
use Prim.Native.Nat.{bit_or}

pub record Ca (p : Platform) : Type 0 where
  pub certificate : Certificate p.Key
  pub private_key : p.PrivateKey

-- What one issuance draws and reads: the randomness of the key, the serial, the clock at `NotBefore`
-- and at `NotAfter`, and the randomness of the signature.
pub record Draws : Type 0 where
  pub key_seed : Bytes
  pub serial : Option ℕ
  pub now : Time
  pub later : Time
  pub nonce : Bytes

pub data CaError : Type 0 where
  key_not_generated no_serial not_created not_parsed key_not_marshaled : CaError
  bad_request bad_signature bad_uri : CaError
  cert_not_read bad_cert_pem bad_cert key_not_read bad_key_pem bad_key not_ecdsa : CaError
  unsupported_block : Text → CaError

abbrev pub certificate_pem : Bytes → PemBlock
certificate_pem der = record { type = codes "CERTIFICATE"; bytes = der }

abbrev pub ec_key_pem : Bytes → PemBlock
ec_key_pem der = record { type = codes "EC PRIVATE KEY"; bytes = der }

abbrev pub device_uri : Text → Text
device_uri id = codes "urn:device:" ++ id

module _ (p : Platform) where
  abbrev pub ca_template : Text → Duration → ℕ → Time → Time → Certificate p.Key
  ca_template common_name validity serial now later = record {
    public_key = none;
    serial_number = pos serial;
    common_name = common_name;
    organization = codes "Hardware mTLS PoC" ∷ [];
    uris = [];
    dns_names = [];
    ip_addresses = [];
    not_before = now -ℤ minute;
    not_after = later +ℤ validity;
    key_usage = bit_or (bit_or cert_sign crl_sign) digital_signature;
    ext_key_usage = [];
    basic_constraints_valid = true;
    is_ca = true;
    max_path_len = 1;
    extensions = [];
  }

  -- The authority, its certificate as PEM and its key as PEM.
  unfoldable pub generate_ca : Draws → Text → Duration → Result CaError (Ca p × Bytes × Bytes)
  generate_ca w common_name validity = do
    key ← or_fail (p.generate_key w.key_seed) key_not_generated
    serial ← or_fail w.serial no_serial
    let template = ca_template common_name validity serial w.now w.later
    der ←
        or_fail (p.create_certificate w.nonce template template (some (p.public_of key)) key)
          not_created
    cert ← or_fail (p.parse_certificate der) not_parsed
    key_der ← or_fail (p.marshal_ec_private_key key) key_not_marshaled
    ok (
      record { certificate = cert; private_key = key },
      p.pem_encode (certificate_pem der),
      p.pem_encode (ec_key_pem key_der),
    )

  abbrev pub ecdsa_key : AnyPrivateKey p.PrivateKey → Result CaError p.PrivateKey
  ecdsa_key (ecdsa key) = ok key
  ecdsa_key other_key = err not_ecdsa

  -- The switch on the type of the key's block.
  unfoldable pub parse_key_block : PemBlock → Result CaError p.PrivateKey
  unfolding text_eq
  parse_key_block block =
      if block.type == codes "EC PRIVATE KEY"
      then or_fail (p.parse_ec_private_key block.bytes) bad_key
      else if block.type == codes "PRIVATE KEY"
      then or_fail (p.parse_pkcs8_private_key block.bytes) bad_key >>= ecdsa_key
      else err (unsupported_block block.type)

  -- The two arguments are what `os.ReadFile` returns for the two paths.
  unfoldable pub load_ca : Option Bytes → Option Bytes → Result CaError (Ca p)
  load_ca cert_file key_file = do
    cert_pem ← or_fail cert_file cert_not_read
    block ← or_fail (p.pem_decode cert_pem) bad_cert_pem
    guard (block.type == codes "CERTIFICATE") bad_cert_pem
    cert ← or_fail (p.parse_certificate block.bytes) bad_cert
    key_pem ← or_fail key_file key_not_read
    key_block ← or_fail (p.pem_decode key_pem) bad_key_pem
    key ← parse_key_block key_block
    ok (record { certificate = cert; private_key = key })

  abbrev pub client_template : Text → Text → Duration → ℕ → Time → Certificate p.Key
  client_template id uri ttl serial now = record {
    public_key = none;
    serial_number = pos serial;
    common_name = id;
    organization = codes "Hardware mTLS Client" ∷ [];
    uris = uri ∷ [];
    dns_names = [];
    ip_addresses = [];
    not_before = now -ℤ minute;
    not_after = now +ℤ ttl;
    key_usage = digital_signature;
    ext_key_usage = client_auth ∷ [];
    basic_constraints_valid = true;
    is_ca = false;
    max_path_len = 0;
    extensions = [];
  }

  unfoldable pub sign_csr :
      Draws → Ca p → Bytes → Text → Duration → Result CaError (Certificate p.Key × Bytes)
  sign_csr w ca csr_der device_id ttl = do
    csr ← or_fail (p.parse_certificate_request csr_der) bad_request
    guard (p.check_signature csr) bad_signature
    serial ← or_fail w.serial no_serial
    uri ← or_fail (p.parse_url (device_uri device_id)) bad_uri
    der ←
        or_fail
          (p.create_certificate w.nonce (client_template device_id uri ttl serial w.now)
            ca.certificate csr.public_key ca.private_key)
          not_created
    cert ← or_fail (p.parse_certificate der) not_parsed
    ok (cert, p.pem_encode (certificate_pem der))
