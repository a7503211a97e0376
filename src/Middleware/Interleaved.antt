-- ===== src/Middleware/Interleaved.antt =====
-- The middleware with other calls on the registry between its own: the record is read in a first state,
-- `IsDeviceActive` in a second one and `IsSerialRevoked` in a third.
use mtls_authentication_poc.Prelude.{
  ◌≡◌, refl, ap, subst, inl, inr, true, false, not, Option, some, [], arith, ◌==◌, Option-cases,
  eq_of_==, ℤ_eq, Text, ℕ_eq, text_eq, Result, ok, err, ◌>>=◌, ◌>>◌, guard, or_fail, >>=-eq-ok,
  >>-eq-ok, guard-eq-ok, ok-injective,
}
use mtls_authentication_poc.Platform.{Platform, Certificate, int_string}
use mtls_authentication_poc.Storage.Devices.{DeviceRecord, DeviceRepo, RepoError}
use mtls_authentication_poc.Attestation.Revocation.{public_key_fingerprint}
use mtls_authentication_poc.Http.{Request, Failure, http_error}
use mtls_authentication_poc.Middleware.{
  DeviceIdentity, identity_of, check_key, readable, check_registry, consult_registry, described,
  authenticate_certificate, peer_certificate, authenticate,
}
use mtls_authentication_poc.Middleware.Guarantee.{check_key_bound, not-eq-true}

module _ (p : Platform) (R : DeviceRepo) where
  unfoldable pub check_registry_between :
      R.State → R.State → R.State → Certificate p.Key → Text → Result Failure DeviceRecord
  check_registry_between s1 s2 s3 cert identity = do
    r ← readable p R s2 identity (R.get_device identity s1)
    guard (not (R.is_serial_revoked (int_string cert.serial_number) s3))
        (http_error 403 "Device certificate is revoked")
    guard (r.cert_serial == int_string cert.serial_number)
        (http_error 403 "Device certificate is not current")
    ok r

  unfoldable pub authenticate_certificate_between :
      R.State → R.State → R.State → Certificate p.Key → Result Failure DeviceIdentity
  authenticate_certificate_between s1 s2 s3 cert = do
    let identity = identity_of p R cert
    guard (not (identity == [])) (
        http_error 403
          "Mutual TLS authentication failed: unable to identify device from client certificate")
    check_key p R cert identity
    r ← check_registry_between s1 s2 s3 cert identity
    ok (described p R cert (some r))

  unfoldable pub authenticate_between :
      R.State → R.State → R.State → Request p.Key → Result Failure DeviceIdentity
  authenticate_between s1 s2 s3 r = do
    cert ←
        or_fail (peer_certificate p R r.peer_certificates)
          (http_error 401 "Mutual TLS authentication required: no client certificate presented")
    authenticate_certificate_between s1 s2 s3 cert

  -- What the three reads have found.
  pub record IsSeen (s1 s2 s3 : R.State) (id : DeviceIdentity) : Type 0 where
    pub cert : Certificate p.Key
    pub bound : public_key_fingerprint p cert.public_key ≡ some id.identity
    pub device : DeviceRecord
    pub registered : R.get_device id.identity s1 ≡ ok device
    pub current : device.cert_serial ≡ int_string cert.serial_number
    pub active : R.is_device_active id.identity s2 ≡ true
    pub unrevoked : R.is_serial_revoked (int_string cert.serial_number) s3 ≡ false

  readable-active :
      (s : R.State) (identity : Text) (q : Result RepoError DeviceRecord) (r : DeviceRecord)
      → readable p R s identity q ≡ ok r
      → (q ≡ ok r) × (R.is_device_active identity s ≡ true)
  readable-active s identity (err e) r h = cc
  readable-active s identity (ok r') r h = ground arith

  bind_some :
      (q : Result Failure DeviceRecord) (f : Option DeviceRecord → DeviceIdentity)
      → (q >>= (λ r. ok (f (some r)))) ≡ ((q >>= (λ r. ok (some r))) >>= (λ o. ok (f o)))
  bind_some (ok r) f = refl
  bind_some (err e) f = refl

  certificate_between-same :
      (s : R.State) (cert : Certificate p.Key)
      → authenticate_certificate_between s s s cert ≡ authenticate_certificate p R (some s) cert
  unfolding authenticate_certificate_between authenticate_certificate consult_registry
      check_registry_between check_registry
  certificate_between-same s cert =
      ap
        (λ q.
          guard (not (identity_of p R cert == [])) (
            http_error 403
              "Mutual TLS authentication failed: unable to identify device from client certificate")
          >> (check_key p R cert (identity_of p R cert) >> q))
        (bind_some (check_registry p R s cert (identity_of p R cert)) (described p R cert))

  -- With nothing between the reads this is the middleware of one state.
  authenticate_between-authenticate :
      (s : R.State) (r : Request p.Key) → authenticate_between s s s r ≡ authenticate p R (some s) r
  unfolding authenticate_between authenticate
  authenticate_between-authenticate s r =
      elim (Option-cases (peer_certificate p R r.peer_certificates)) [
        | inl e ↦ rw e refl
        | inr (cert, e) ↦ rw e (certificate_between-same s cert)
      ]

  certificate-IsSeen :
      (s1 s2 s3 : R.State) (cert : Certificate p.Key) (id : DeviceIdentity)
      → authenticate_certificate_between s1 s2 s3 cert ≡ ok id
      → IsSeen s1 s2 s3 id
  unfolding authenticate_certificate_between check_registry_between
  certificate-IsSeen s1 s2 s3 cert id h =
      let identity = identity_of p R cert in
      let (_, h1) = >>-eq-ok (guard (not (identity == [])) _) _ h in
      let (bound, h2) = >>-eq-ok (check_key p R cert identity) _ h1 in
      let (r, e, h3) = >>=-eq-ok (check_registry_between s1 s2 s3 cert identity) _ h2 in
      let (r', e1, h4) = >>=-eq-ok (readable p R s2 identity (R.get_device identity s1)) _ e in
      let (live, h5) =
        >>-eq-ok (guard (not (R.is_serial_revoked (int_string cert.serial_number) s3)) _) _ h4 in
      let (current, _) =
        >>-eq-ok (guard (r'.cert_serial == int_string cert.serial_number) _) _ h5 in
      let (registered, active) = readable-active s2 identity _ r' e1 in
      subst (IsSeen s1 s2 s3) (ok-injective _ _ h3) (record {
        cert = cert;
        bound = check_key_bound p R cert identity bound;
        device = r';
        registered = registered;
        current = eq_of_== r'.cert_serial _ (guard-eq-ok _ _ current);
        active = active;
        unrevoked = not-eq-true _ (guard-eq-ok _ _ live);
      })

  -- Whatever calls fall between the reads of the middleware, a request passes only with a certificate
  -- whose key has the identity as its fingerprint, and that was current in the registry at the first
  -- read, if the device was active at the second read and the serial was not revoked at the third.
  pub authenticate_between-IsSeen :
      (s1 s2 s3 : R.State) (r : Request p.Key) (id : DeviceIdentity)
      → authenticate_between s1 s2 s3 r ≡ ok id
      → IsSeen s1 s2 s3 id
  unfolding authenticate_between
  authenticate_between-IsSeen s1 s2 s3 r id h =
      let (cert, _, h1) = >>=-eq-ok (or_fail (peer_certificate p R r.peer_certificates) _) _ h in
      certificate-IsSeen s1 s2 s3 cert id h1
