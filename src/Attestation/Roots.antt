-- ===== src/Attestation/Roots.antt =====
-- `NewGoogleRootCertPool` of backend/internal/attestation/google_root.go, over the embedded PEM texts as
-- an argument, and `NewVerifier` and `WithRevocationChecker` of backend/internal/attestation/verifier.go.
-- A pool is the list of its certificates; a nil additional root is `none`.
pub mod Google
pub mod Pool
use mtls_authentication_poc.Prelude.{
  ℕ, suc, Option, none, some, List, [], ◌∷◌, ◌++◌, ℤ_eq, Bytes, ℕ_eq, text_eq, Result, ok, err,
  ◌>>=◌, or_fail,
}
use mtls_authentication_poc.Platform.{Platform, Certificate}
use mtls_authentication_poc.Attestation.Types.{Policy}
use mtls_authentication_poc.Attestation.Revocation.{RevocationStatusClient}
use mtls_authentication_poc.Attestation.Verifier.{Verifier}

pub data RootError : Type 0 where
  bad_root_pem bad_root : ℕ → RootError

module _ (p : Platform) where
  -- The loop over the embedded texts, from index `i` on.
  unfoldable pub parse_roots : ℕ → List Bytes → Result RootError (List (Certificate p.Key))
  parse_roots i [] = ok []
  parse_roots i (pem ∷ pems) = do
    block ← or_fail (p.pem_decode pem) (bad_root_pem i)
    cert ← or_fail (p.parse_certificate block.bytes) (bad_root i)
    certs ← parse_roots (suc i) pems
    ok (cert ∷ certs)

  abbrev pub present : List (Option (Certificate p.Key)) → List (Certificate p.Key)
  present [] = []
  present (none ∷ roots) = present roots
  present (some root ∷ roots) = root ∷ present roots

  unfoldable pub new_google_root_cert_pool :
      List Bytes → List (Option (Certificate p.Key)) → Result RootError (List (Certificate p.Key))
  new_google_root_cert_pool pems additional_roots = do
    certs ← parse_roots 0 pems
    ok (certs ++ present additional_roots)

  -- `none` where the Go function panics.
  abbrev must_new_google_root_cert_pool :
      List Bytes → List (Option (Certificate p.Key)) → Option (List (Certificate p.Key))
  must_new_google_root_cert_pool pems additional_roots =
      elim (new_google_root_cert_pool pems additional_roots) [ ok pool ↦ some pool | err _ ↦ none ]

  abbrev parse_certificate_der : Bytes → Option (Certificate p.Key)
  parse_certificate_der der = p.parse_certificate der

  unfoldable pub new_verifier :
      List Bytes → Option (List (Certificate p.Key)) → Policy → Result RootError (Verifier p)
  new_verifier pems none policy = do
    pool ← new_google_root_cert_pool pems []
    ok (record { root_pool = pool; policy = policy; revocations = none })
  new_verifier pems (some pool) policy =
      ok (record { root_pool = pool; policy = policy; revocations = none })

  -- `none` where the Go function panics.
  abbrev must_new_verifier :
      List Bytes → Option (List (Certificate p.Key)) → Policy → Option (Verifier p)
  must_new_verifier pems pool policy = elim (new_verifier pems pool policy) [
    | ok v ↦ some v
    | err _ ↦ none
  ]

  abbrev pub with_revocation_checker : RevocationStatusClient → Verifier p → Verifier p
  with_revocation_checker rc v = record v { revocations = some rc }
