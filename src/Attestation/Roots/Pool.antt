-- ===== src/Attestation/Roots/Pool.antt =====
-- What the pool of `NewGoogleRootCertPool` in backend/internal/attestation/google_root.go holds.
use mtls_authentication_poc.Prelude.{
  ℕ, suc, ◌≡◌, refl, sym, ap, ◌∙◌, subst, some, List, [], ◌∷◌, ◌++◌, ℤ_eq, Bytes, ℕ_eq, text_eq, ok,
  or_fail, >>=-eq-ok, or_fail-eq-ok, ok-injective,
}
use mtls_authentication_poc.Platform.{Platform, Certificate, PemBlock}
use mtls_authentication_poc.Attestation.Roots.{parse_roots, new_google_root_cert_pool}

module _ (p : Platform) where
  -- The pool holds the certificates of the PEM texts, one for one.
  abbrev pub AreRoots : List Bytes → List (Certificate p.Key) → Type 0
  AreRoots [] [] = Unit
  AreRoots (pem ∷ pems) (cert ∷ certs) =
      ((block : PemBlock) × (p.pem_decode pem ≡ some block)
        × (p.parse_certificate block.bytes ≡ some cert))
      × AreRoots pems certs
  AreRoots _ _ = ⊥

  parse_roots-AreRoots :
      (i : ℕ) (pems : List Bytes) (certs : List (Certificate p.Key))
      → parse_roots p i pems ≡ ok certs
      → AreRoots pems certs
  unfolding parse_roots
  parse_roots-AreRoots i [] [] h = tt
  parse_roots-AreRoots i [] (cert ∷ certs) h = cc
  parse_roots-AreRoots i (pem ∷ pems) certs h =
      let (block, e, h1) = >>=-eq-ok (or_fail (p.pem_decode pem) _) _ h in
      let (cert, f, h2) = >>=-eq-ok (or_fail (p.parse_certificate block.bytes) _) _ h1 in
      let (rest, g, h3) = >>=-eq-ok (parse_roots p (suc i) pems) _ h2 in
      subst (AreRoots (pem ∷ pems)) (ok-injective _ _ h3) (
        (block, or_fail-eq-ok _ _ e, or_fail-eq-ok _ _ f),
        parse_roots-AreRoots (suc i) pems rest g,
      )

  append-[] : (certs : List (Certificate p.Key)) → certs ++ [] ≡ certs
  append-[] [] = refl
  append-[] (cert ∷ certs) = ap (λ cs. cert ∷ cs) (append-[] certs)

  -- A pool that is built without additional roots holds the certificates of the texts and no other.
  pub new_google_root_cert_pool-AreRoots :
      (pems : List Bytes) (pool : List (Certificate p.Key))
      → new_google_root_cert_pool p pems [] ≡ ok pool
      → AreRoots pems pool
  unfolding new_google_root_cert_pool
  new_google_root_cert_pool-AreRoots pems pool h =
      let (certs, e, h1) = >>=-eq-ok (parse_roots p 0 pems) _ h in
      subst (AreRoots pems) (sym (append-[] certs) ∙ ok-injective _ _ h1)
        (parse_roots-AreRoots 0 pems certs e)
