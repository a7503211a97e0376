-- ===== src/Ca/Signer/Issued.antt =====
-- What `SignCSR` certifies.
use mtls_authentication_poc.Prelude.{
  ℕ, ◌≡◌, sym, ap, ◌∙◌, inl, inr, true, false, some, [], ◌∷◌, ℤ_eq, Bytes, Text, ℕ_eq, text_eq, ok,
  guard, or_fail, >>=-eq-ok, >>-eq-ok, guard-eq-ok, or_fail-eq-ok, ok-injective,
}
use mtls_authentication_poc.Platform.{
  Platform, Duration, Certificate, CertificateRequest, digital_signature, client_auth,
}
use mtls_authentication_poc.Platform.Laws.{IsStandard}
use mtls_authentication_poc.Ca.Signer.{
  Ca, Draws, certificate_pem, device_uri, client_template, sign_csr,
}

module _ (p : Platform) where
  pub record IsSigned (w : Draws) (ca : Ca p) (csr_der : Bytes) (id : Text) (ttl : Duration)
      (cert : Certificate p.Key) (pem : Bytes) : Type 0 where
    pub csr : CertificateRequest p.Key
    pub requested : p.parse_certificate_request csr_der ≡ some csr
    pub possessed : p.check_signature csr ≡ true
    pub serial : ℕ
    pub drawn : w.serial ≡ some serial
    pub uri : Text
    pub named : p.parse_url (device_uri id) ≡ some uri
    pub der : Bytes
    pub created :
        p.create_certificate w.nonce
          (client_template p id uri ttl serial w.now)
          ca.certificate
          csr.public_key
          ca.private_key
        ≡ some der
    pub parsed : p.parse_certificate der ≡ some cert
    pub encoded : pem ≡ p.pem_encode (certificate_pem der)

  pub sign_csr-IsSigned :
      (w : Draws) (ca : Ca p) (csr_der : Bytes) (id : Text) (ttl : Duration)
      (cert : Certificate p.Key) (pem : Bytes)
      → sign_csr p w ca csr_der id ttl ≡ ok (cert, pem)
      → IsSigned w ca csr_der id ttl cert pem
  unfolding sign_csr
  sign_csr-IsSigned w ca csr_der id ttl cert pem h =
      let (csr, e, h1) = >>=-eq-ok (or_fail (p.parse_certificate_request csr_der) _) _ h in
      let (signed, h2) = >>-eq-ok (guard (p.check_signature csr) _) _ h1 in
      let (serial, f, h3) = >>=-eq-ok (or_fail w.serial _) _ h2 in
      let (uri, g, h4) = >>=-eq-ok (or_fail (p.parse_url (device_uri id)) _) _ h3 in
      let (der, k, h5) = >>=-eq-ok (or_fail _ _) _ h4 in
      let (cert', l, h6) = >>=-eq-ok (or_fail (p.parse_certificate der) _) _ h5 in
      let same = ok-injective _ _ h6 in
      record {
        csr = csr;
        requested = or_fail-eq-ok _ _ e;
        possessed = guard-eq-ok _ _ signed;
        serial = serial;
        drawn = or_fail-eq-ok _ _ f;
        uri = uri;
        named = or_fail-eq-ok _ _ g;
        der = der;
        created = or_fail-eq-ok _ _ k;
        parsed = or_fail-eq-ok _ _ l ∙ ap (λ (q : Certificate p.Key × Bytes). some q.0) same;
        encoded = ap (λ (q : Certificate p.Key × Bytes). q.1) (sym same);
      }

  -- The certificate of a device: for the request's key, in the name of the identity, and good for
  -- client authentication only.
  pub record IsDeviceCertificate (csr_der : Bytes) (id : Text) (cert : Certificate p.Key)
      : Type 0 where
    pub csr : CertificateRequest p.Key
    pub requested : p.parse_certificate_request csr_der ≡ some csr
    pub possessed : p.check_signature csr ≡ true
    pub key : cert.public_key ≡ csr.public_key
    pub subject : cert.common_name ≡ id
    pub usage : cert.ext_key_usage ≡ client_auth ∷ []
    pub signing_only : cert.key_usage ≡ digital_signature
    pub not_ca : cert.is_ca ≡ false

  -- If the standard library behaves as documented, a certificate that `SignCSR` returns belongs to
  -- the key of a request whose signature verifies, names the given identity, and is for client
  -- authentication and no authority.
  pub sign_csr-IsDeviceCertificate :
      IsStandard p
      → (w : Draws) (ca : Ca p) (csr_der : Bytes) (id : Text) (ttl : Duration)
        (cert : Certificate p.Key) (pem : Bytes)
      → sign_csr p w ca csr_der id ttl ≡ ok (cert, pem)
      → IsDeviceCertificate csr_der id cert
  sign_csr-IsDeviceCertificate std w ca csr_der id ttl cert pem h =
      let s = sign_csr-IsSigned w ca csr_der id ttl cert pem h in
      let i = std.created _ _ _ _ _ s.der cert s.created s.parsed in
      record {
        csr = s.csr;
        requested = s.requested;
        possessed = s.possessed;
        key = i.public_key;
        subject = i.common_name;
        usage = i.ext_key_usage;
        signing_only = i.key_usage;
        not_ca = elim i.is_ca [ inl unset ↦ absurd (cc unset) | inr same ↦ same ];
      }
