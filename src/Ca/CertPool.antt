-- ===== src/Ca/CertPool.antt =====
-- backend/internal/ca/cert_pool.go. A pool is the list of its certificates; `AppendCertsFromPEM`, which
-- returns the pool with what it found in the text and whether that was anything, is an argument.
use mtls_authentication_poc.Prelude.{
  Bool, not, Option, List, [], ◌∷◌, if◌then◌else◌, ℤ_eq, Bytes, ℕ_eq, text_eq, Result, ok, err,
  ◌>>=◌, or_fail,
}
use mtls_authentication_poc.Platform.{Platform, Certificate}

pub data PoolError : Type 0 where
  no_certificates pool_not_read : PoolError

module _ (p : Platform) where
  abbrev pub CertPool : Type 0
  CertPool = List (Certificate p.Key)

  abbrev pub new_cert_pool_from_cert : Certificate p.Key → CertPool
  new_cert_pool_from_cert cert = cert ∷ []

  module _ (append_certs_from_pem : Bytes → CertPool → CertPool × Bool) where
    unfoldable pub new_cert_pool_from_pem : Bytes → Result PoolError CertPool
    new_cert_pool_from_pem pem_bytes =
        let q = append_certs_from_pem pem_bytes [] in
        if not q.1 then err no_certificates else ok q.0

    -- The argument is what `os.ReadFile` returns for the path.
    unfoldable new_cert_pool_from_file : Option Bytes → Result PoolError CertPool
    new_cert_pool_from_file file = do
      pem_bytes ← or_fail file pool_not_read
      new_cert_pool_from_pem pem_bytes
