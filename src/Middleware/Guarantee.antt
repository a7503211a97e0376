-- ===== src/Middleware/Guarantee.antt =====
-- When a request gets through to the protected handlers.
use mtls_authentication_poc.Prelude.{
  ◌≡◌, refl, ap, ◌∙◌, subst, ◌≢◌, Bool, true, false, not, Option, none, some, List, [], ◌∷◌, arith,
  ◌==◌, eq_of_==, ne_of_==, ℤ_eq, Text, ℕ_eq, text_eq, Result, ok, err, ◌>>=◌, guard, or_fail,
  >>=-eq-ok, >>-eq-ok, guard-eq-ok, ok-injective,
}
use mtls_authentication_poc.Platform.{Platform, Certificate, int_string}
use mtls_authentication_poc.Attestation.Revocation.{public_key_fingerprint}
use mtls_authentication_poc.Storage.Devices.{DeviceRecord, DeviceRepo, RepoError}
use mtls_authentication_poc.Storage.Devices.Laws.{IsLawful}
use mtls_authentication_poc.Http.{Request, http_error}
use mtls_authentication_poc.Middleware.{
  DeviceIdentity, identity_of, check_key, readable, check_registry, consult_registry, described,
  authenticate_certificate, peer_certificate, authenticate,
}

pub not-eq-true : (b : Bool) → not b ≡ true → b ≡ false
not-eq-true true h = cc
not-eq-true false h = refl

module _ (p : Platform) (R : DeviceRepo) where
  -- The certificate proves the identity: it names it, its key has that fingerprint, and the registry
  -- holds the identity, not revoked, with the serial of this certificate, which is not revoked either.
  pub record IsAuthentic (s : R.State) (r : Request p.Key) (id : DeviceIdentity) : Type 0 where
    pub cert : Certificate p.Key
    pub others : List (Certificate p.Key)
    pub presented : r.peer_certificates ≡ some (cert ∷ others)
    pub named : id.identity ≡ identity_of p R cert
    pub nonempty : id.identity ≢ []
    pub bound : public_key_fingerprint p cert.public_key ≡ some id.identity
    pub device : DeviceRecord
    pub registered : R.get_device id.identity s ≡ ok device
    pub active : device.is_revoked ≡ false
    pub unrevoked : R.is_serial_revoked (int_string cert.serial_number) s ≡ false
    pub current : device.cert_serial ≡ int_string cert.serial_number
    pub reported :
        (id.label ≡ device.label)
        × (id.cert_serial ≡ int_string cert.serial_number)
        × (id.record' ≡ some device)

  pub check_key_bound :
      (cert : Certificate p.Key) (identity : Text)
      → check_key p R cert identity ≡ ok tt
      → public_key_fingerprint p cert.public_key ≡ some identity
  unfolding check_key
  check_key_bound cert identity h = ground arith

  pub record IsCurrent (s : R.State) (cert : Certificate p.Key) (identity : Text)
      (device : DeviceRecord) : Type 0 where
    pub registered : R.get_device identity s ≡ ok device
    pub active : device.is_revoked ≡ false
    pub unrevoked : R.is_serial_revoked (int_string cert.serial_number) s ≡ false
    pub current : device.cert_serial ≡ int_string cert.serial_number

  readable-eq-ok :
      IsLawful R
      → (s : R.State) (identity : Text) (q : Result RepoError DeviceRecord) (r : DeviceRecord)
      → R.get_device identity s ≡ q
      → readable p R s identity q ≡ ok r
      → (R.get_device identity s ≡ ok r) × (r.is_revoked ≡ false)
  readable-eq-ok law s identity (err e) r h k = cc
  readable-eq-ok law s identity (ok r') r h k = ground (arith, law.active-get identity s)

  check_registry-IsCurrent :
      IsLawful R
      → (s : R.State) (cert : Certificate p.Key) (identity : Text) (device : DeviceRecord)
      → check_registry p R s cert identity ≡ ok device
      → IsCurrent s cert identity device
  unfolding check_registry
  check_registry-IsCurrent law s cert identity device h =
      let (r, e, h1) = >>=-eq-ok (readable p R s identity (R.get_device identity s)) _ h in
      let (live, h2) =
        >>-eq-ok (guard (not (R.is_serial_revoked (int_string cert.serial_number) s)) _) _ h1 in
      let (current, h3) =
        >>-eq-ok (guard (r.cert_serial == int_string cert.serial_number) _) _ h2 in
      let same = ok-injective r device h3 in
      let (registered, active) = readable-eq-ok law s identity _ r refl e in
      record {
        registered = registered ∙ ap ok same;
        active = rw same at active;
        unrevoked = not-eq-true _ (guard-eq-ok _ _ live);
        current = rw same at (eq_of_== r.cert_serial _ (guard-eq-ok _ _ current));
      }

  consult_registry-IsCurrent :
      IsLawful R
      → (s : R.State) (cert : Certificate p.Key) (identity : Text) (o : Option DeviceRecord)
      → consult_registry p R (some s) cert identity ≡ ok o
      → (device : DeviceRecord) × IsCurrent s cert identity device × (some device ≡ o)
  unfolding consult_registry
  consult_registry-IsCurrent law s cert identity o h =
      let (device, e, h1) = >>=-eq-ok (check_registry p R s cert identity) _ h in
      (device, check_registry-IsCurrent law s cert identity device e, ok-injective _ _ h1)

  authenticate_certificate-described :
      IsLawful R
      → (s : R.State) (cert : Certificate p.Key) (id : DeviceIdentity)
      → authenticate_certificate p R (some s) cert ≡ ok id
      → (identity_of p R cert ≢ [])
        × (public_key_fingerprint p cert.public_key ≡ some (identity_of p R cert))
        × ((device : DeviceRecord) × IsCurrent s cert (identity_of p R cert) device
            × (described p R cert (some device) ≡ id))
  unfolding authenticate_certificate
  authenticate_certificate-described law s cert id h =
      let (named, h1) = >>-eq-ok (guard (not (identity_of p R cert == [])) _) _ h in
      let (bound, h2) = >>-eq-ok (check_key p R cert (identity_of p R cert)) _ h1 in
      let (o, e, h3) = >>=-eq-ok (consult_registry p R (some s) cert (identity_of p R cert)) _ h2 in
      let (device, c, same) = consult_registry-IsCurrent law s cert (identity_of p R cert) o e in
      (
        ne_of_== _ [] (not-eq-true _ (guard-eq-ok _ _ named)),
        check_key_bound cert (identity_of p R cert) bound,
        (device, c, ap (described p R cert) same ∙ ok-injective _ _ h3),
      )

  described-IsAuthentic :
      (s : R.State) (r : Request p.Key) (cert : Certificate p.Key)
      (others : List (Certificate p.Key)) (device : DeviceRecord)
      → r.peer_certificates ≡ some (cert ∷ others)
      → identity_of p R cert ≢ []
      → public_key_fingerprint p cert.public_key ≡ some (identity_of p R cert)
      → IsCurrent s cert (identity_of p R cert) device
      → IsAuthentic s r (described p R cert (some device))
  described-IsAuthentic s r cert others device presented nonempty bound c = record {
    cert = cert;
    others = others;
    presented = presented;
    named = refl;
    nonempty = nonempty;
    bound = bound;
    device = device;
    registered = c.registered;
    active = c.active;
    unrevoked = c.unrevoked;
    current = c.current;
    reported = (refl, refl, refl);
  }

  authenticate_peers-IsAuthentic :
      IsLawful R
      → (s : R.State) (r : Request p.Key) (id : DeviceIdentity)
        (peers : Option (List (Certificate p.Key)))
      → r.peer_certificates ≡ peers
      → (or_fail
            (peer_certificate p R peers)
            (http_error 401 "Mutual TLS authentication required: no client certificate presented")
          >>= authenticate_certificate p R (some s))
        ≡ ok id
      → IsAuthentic s r id
  authenticate_peers-IsAuthentic law s r id none e h = cc
  authenticate_peers-IsAuthentic law s r id (some []) e h = cc
  authenticate_peers-IsAuthentic law s r id (some (cert ∷ others)) e h =
      let (nonempty, bound, rest) = authenticate_certificate-described law s cert id h in
      let (device, c, same) = rest in
      subst (IsAuthentic s r) same (described-IsAuthentic s r cert others device e nonempty bound c)

  -- Over a registry that meets its laws, a request passes the middleware only with a client
  -- certificate that proves the identity handed on: its key has the identity as fingerprint, and
  -- the registry holds that identity, not revoked, with the serial of this certificate, which is
  -- not revoked.
  pub authenticate-IsAuthentic :
      IsLawful R
      → (s : R.State) (r : Request p.Key) (id : DeviceIdentity)
      → authenticate p R (some s) r ≡ ok id
      → IsAuthentic s r id
  unfolding authenticate
  authenticate-IsAuthentic law s r id h = authenticate_peers-IsAuthentic law s r id _ refl h

  check_registry_current :
      IsLawful R
      → (s : R.State) (cert : Certificate p.Key) (identity : Text) (device : DeviceRecord)
      → IsCurrent s cert identity device
      → check_registry p R s cert identity ≡ ok device
  unfolding check_registry
  check_registry_current law s cert identity device c =
      rw (c.registered, law.active-get, c.registered, c.active, c.unrevoked, c.current)
        (ground arith)

  check_key_ok :
      (cert : Certificate p.Key) (identity : Text)
      → public_key_fingerprint p cert.public_key ≡ some identity
      → check_key p R cert identity ≡ ok tt
  unfolding check_key
  check_key_ok cert identity h = rw (h, check_key) (ground arith)

  consult_registry_current :
      IsLawful R
      → (s : R.State) (cert : Certificate p.Key) (identity : Text) (device : DeviceRecord)
      → IsCurrent s cert identity device
      → consult_registry p R (some s) cert identity ≡ ok (some device)
  unfolding consult_registry
  consult_registry_current law s cert identity device c =
      rw (check_registry_current law s cert identity device c)

  authenticate_certificate_current :
      IsLawful R
      → (s : R.State) (cert : Certificate p.Key) (device : DeviceRecord) → identity_of p R cert ≢ []
      → public_key_fingerprint p cert.public_key ≡ some (identity_of p R cert)
      → IsCurrent s cert (identity_of p R cert) device
      → authenticate_certificate p R (some s) cert ≡ ok (described p R cert (some device))
  unfolding authenticate_certificate
  authenticate_certificate_current law s cert device nonempty bound c = ground (
    arith,
    check_key_ok cert (identity_of p R cert) bound,
    consult_registry_current law s cert (identity_of p R cert) device c,
  )

  -- Conversely, over a registry that meets its laws, a request whose first certificate names an
  -- identity that is the fingerprint of its key, and that the registry holds, not revoked, with the
  -- serial of this certificate, not revoked either, passes; and the identity handed on has the
  -- label and the record of the registry.
  pub authenticate_current :
      IsLawful R
      → (s : R.State) (r : Request p.Key) (cert : Certificate p.Key)
        (others : List (Certificate p.Key)) (device : DeviceRecord)
      → r.peer_certificates ≡ some (cert ∷ others)
      → identity_of p R cert ≢ []
      → public_key_fingerprint p cert.public_key ≡ some (identity_of p R cert)
      → IsCurrent s cert (identity_of p R cert) device
      → authenticate p R (some s) r ≡ ok (described p R cert (some device))
  unfolding authenticate
  authenticate_current law s r cert others device presented nonempty bound c =
      rw (presented, authenticate_certificate_current law s cert device nonempty bound c)
