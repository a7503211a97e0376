-- ===== src/Ca/Signer/Loaded.antt =====
-- An authority that `GenerateCA` makes is the one that `LoadCA` reads back.
use mtls_authentication_poc.Prelude.{
  ◌≡◌, refl, subst, some, ==_refl, ℤ_eq, Bytes, Text, codes, ℕ_eq, text_eq, ok, or_fail, >>=-eq-ok,
  or_fail-eq-ok, ok-injective,
}
use mtls_authentication_poc.Platform.{Platform, PemBlock, Duration}
use mtls_authentication_poc.Ca.Signer.{
  Ca, Draws, generate_ca, load_ca, parse_key_block, certificate_pem, ec_key_pem, ca_template,
}

-- What is assumed of encoding/pem and crypto/x509: a block that is encoded is the first block of the
-- text, and the encoding of an EC key parses to the key.
pub record IsCodec (p : Platform) : Type 0 where
  pub pem_decode-pem_encode : (block : PemBlock) → p.pem_decode (p.pem_encode block) ≡ some block
  pub parse-marshal :
      (key : p.PrivateKey) (der : Bytes)
      → p.marshal_ec_private_key key ≡ some der
      → p.parse_ec_private_key der ≡ some key

module _ (p : Platform) where
  -- The encodings of the certificate and of the key of a new authority.
  pub record IsGenerated (ca : Ca p) (cert_file key_file : Bytes) : Type 0 where
    pub der : Bytes
    pub parsed : p.parse_certificate der ≡ some ca.certificate
    pub cert_encoded : cert_file ≡ p.pem_encode (certificate_pem der)
    pub key_der : Bytes
    pub marshaled : p.marshal_ec_private_key ca.private_key ≡ some key_der
    pub key_encoded : key_file ≡ p.pem_encode (ec_key_pem key_der)

  pub generate_ca-IsGenerated :
      (w : Draws) (common_name : Text) (validity : Duration) (ca : Ca p)
      (cert_file key_file : Bytes)
      → generate_ca p w common_name validity ≡ ok (ca, cert_file, key_file)
      → IsGenerated ca cert_file key_file
  unfolding generate_ca
  generate_ca-IsGenerated w common_name validity ca cert_file key_file h =
      let (key, _, h1) = >>=-eq-ok (or_fail (p.generate_key w.key_seed) _) _ h in
      let (serial, _, h2) = >>=-eq-ok (or_fail w.serial _) _ h1 in
      let template = ca_template p common_name validity serial w.now w.later in
      let (der, _, h3) =
        >>=-eq-ok
          (or_fail (p.create_certificate w.nonce template template (some (p.public_of key)) key) _)
          _ h2 in
      let (cert, parsed, h4) = >>=-eq-ok (or_fail (p.parse_certificate der) _) _ h3 in
      let (key_der, marshaled, h5) = >>=-eq-ok (or_fail (p.marshal_ec_private_key key) _) _ h4 in
      let same = ok-injective _ _ h5 in
      subst (λ (t : Ca p × Bytes × Bytes). IsGenerated t.0 t.1 t.2) same
        (record {
          der = der;
          parsed = or_fail-eq-ok _ _ parsed;
          cert_encoded = refl;
          key_der = key_der;
          marshaled = or_fail-eq-ok _ _ marshaled;
          key_encoded = refl;
        })

  parse_key_block-ec :
      IsCodec p
      → (key : p.PrivateKey) (der : Bytes) → p.marshal_ec_private_key key ≡ some der
      → parse_key_block p (ec_key_pem der) ≡ ok key
  unfolding parse_key_block
  parse_key_block-ec codec key der h = rw (codec.parse-marshal key der h) refl

  IsGenerated-load_ca :
      IsCodec p
      → (ca : Ca p) (cert_file key_file : Bytes) → IsGenerated ca cert_file key_file
      → load_ca p (some cert_file) (some key_file) ≡ ok ca
  unfolding load_ca
  IsGenerated-load_ca codec ca cert_file key_file g =
      rw
        (
          g.cert_encoded,
          codec.pem_decode-pem_encode (certificate_pem g.der),
          ==_refl (codes "CERTIFICATE"),
          g.parsed,
          g.key_encoded,
          codec.pem_decode-pem_encode (ec_key_pem g.key_der),
          parse_key_block-ec codec ca.private_key g.key_der g.marshaled,
        )
        refl

  -- If PEM and EC keys decode as they are encoded, `LoadCA` reads back the authority from the two
  -- texts that `GenerateCA` returns with it.
  pub load_ca-generate_ca :
      (w : Draws) (common_name : Text) (validity : Duration) (ca : Ca p)
      (cert_file key_file : Bytes)
      → IsCodec p
      → generate_ca p w common_name validity ≡ ok (ca, cert_file, key_file)
      → load_ca p (some cert_file) (some key_file) ≡ ok ca
  load_ca-generate_ca w common_name validity ca cert_file key_file codec h =
      IsGenerated-load_ca codec ca cert_file key_file
        (generate_ca-IsGenerated w common_name validity ca cert_file key_file h)
