-- ===== src/Middleware.antt =====
-- backend/internal/middleware/mtls_auth.go. The middleware either answers by `http.Error` or calls the
-- next handler with the identity in the request's context.
pub mod Guarantee
pub mod Interleaved
use mtls_authentication_poc.Prelude.{
  refl, ite, not, Option, none, some, List, [], ◌∷◌, arith, ℕ_discrete, if◌then◌else◌, ◌==◌,
  required, ℤ_discrete, ℤ_eq, take, drop, Text, codes, text_discrete, ℕ_eq, text_eq, Result, ok,
  err, ◌>>=◌, ◌>>◌, guard, or_fail,
}
use mtls_authentication_poc.Platform.{Platform, Certificate, int_string}
use mtls_authentication_poc.Attestation.Revocation.{public_key_fingerprint}
use mtls_authentication_poc.Storage.Devices.{DeviceRecord, DeviceRepo, RepoError}
use mtls_authentication_poc.Http.{Request, Failure, http_error, Reply, failure}

pub record DeviceIdentity : Type 0 where
  pub identity : Text
  pub label : Text
  pub cert_serial : Text
  pub record' : Option DeviceRecord

abbrev pub uri_prefix : Text
uri_prefix = codes "urn:device:"

-- The loop over the URIs: the rest of the first that has the prefix, or the empty text.
unfoldable pub identity_of_uris : List Text → Text
unfolding text_eq
identity_of_uris [] = []
identity_of_uris (u ∷ us) = if take 11 u == uri_prefix then drop 11 u else identity_of_uris us

module _ (p : Platform) (R : DeviceRepo) where
  unfoldable pub identity_of : Certificate p.Key → Text
  identity_of cert = if cert.common_name == [] then identity_of_uris cert.uris else cert.common_name

  unfoldable pub check_key : Certificate p.Key → Text → Result Failure (Unit {0})
  check_key cert identity = elim (public_key_fingerprint p cert.public_key) [
    | none ↦ err (http_error 403 "Mutual TLS authentication failed: certificate identity mismatch")
    | some fingerprint ↦
        guard (fingerprint == identity)
          (http_error 403 "Mutual TLS authentication failed: certificate identity mismatch")
  ]

  abbrev pub readable : R.State → Text → Result RepoError DeviceRecord → Result Failure DeviceRecord
  readable s identity (err e) = err (http_error 403 "Device is unauthorized or revoked")
  readable s identity (ok r) =
      if not (R.is_device_active identity s)
      then err (http_error 403 "Device is unauthorized or revoked")
      else ok r

  -- The checks against the registry: the record, which is active, and the current serial.
  unfoldable pub check_registry : R.State → Certificate p.Key → Text → Result Failure DeviceRecord
  check_registry s cert identity = do
    r ← readable s identity (R.get_device identity s)
    guard (not (R.is_serial_revoked (int_string cert.serial_number) s))
        (http_error 403 "Device certificate is revoked")
    guard (r.cert_serial == int_string cert.serial_number)
        (http_error 403 "Device certificate is not current")
    ok r

  -- `none` stands for the nil repository.
  unfoldable pub consult_registry :
      Option R.State → Certificate p.Key → Text → Result Failure (Option DeviceRecord)
  consult_registry none cert identity = ok none
  consult_registry (some s) cert identity = do r ← check_registry s cert identity; ok (some r)

  abbrev pub label_of : Option DeviceRecord → Text
  label_of none = []
  label_of (some r) = r.label

  -- The identity that goes into the context.
  abbrev pub described : Certificate p.Key → Option DeviceRecord → DeviceIdentity
  described cert r = record {
    identity = identity_of cert;
    label = label_of r;
    cert_serial = int_string cert.serial_number;
    record' = r;
  }

  unfoldable pub authenticate_certificate :
      Option R.State → Certificate p.Key → Result Failure DeviceIdentity
  authenticate_certificate repo cert = do
    let identity = identity_of cert
    guard (not (identity == [])) (
        http_error 403
          "Mutual TLS authentication failed: unable to identify device from client certificate")
    check_key cert identity
    r ← consult_registry repo cert identity
    ok (described cert r)

  abbrev pub peer_certificate : Option (List (Certificate p.Key)) → Option (Certificate p.Key)
  peer_certificate none = none
  peer_certificate (some []) = none
  peer_certificate (some (cert ∷ _)) = some cert

  unfoldable pub authenticate : Option R.State → Request p.Key → Result Failure DeviceIdentity
  authenticate repo r = do
    cert ←
        or_fail (peer_certificate r.peer_certificates)
          (http_error 401 "Mutual TLS authentication required: no client certificate presented")
    authenticate_certificate repo cert

  -- The middleware around the handler `next`, whose context holds the identity.
  unfoldable pub mtls_auth_middleware {ℓ} :
      {A : Type ℓ}
      → Option R.State
      → (Option DeviceIdentity → Request p.Key → Reply A)
      → Request p.Key
      → Reply A
  mtls_auth_middleware repo next r = elim (authenticate repo r) [
    | err (http_error status message) ↦ failure status message
    | ok identity ↦ next (some identity) r
  ]
