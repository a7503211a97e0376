-- ===== src/Attestation/Verifier/Soundness.antt =====
-- What `VerifyAttestation` has checked when it returns a record.
use mtls_authentication_poc.Prelude.{
  ℕ, suc, ◌≤◌, ◌≡◌, refl, subst, ◌≢◌, codes, ok-injective, ◌⊎◌, inl, inr, Bool, true, false, ◌||◌,
  Option, none, some, List, [], ◌∷◌, arith, Option-cases, eq_of_==, Required, required, ℤ_eq,
  length, Bytes, ℕ_eq, text_eq, ok, guard, or_fail, Result-cases, >>=-eq-ok, >>-eq-ok, guard-eq-ok,
  or_fail-eq-ok,
}
use mtls_authentication_poc.Platform.{Platform, Extension, Certificate}
use mtls_authentication_poc.Attestation.Types.{Decoders, KeyDescription, AttestationRecord, Policy}
use mtls_authentication_poc.Attestation.Revocation.{RevocationStatusClient, Call, is_key_revoked}
use mtls_authentication_poc.Attestation.Description.Spec.{Conforms, verify_key_description-Conforms}
use mtls_authentication_poc.Attestation.Verifier.{
  Verifier, World, max_chain_certificates, find_extension, parse_chain, check_revocations,
  consult_revocations, match_csr_key, verify_extension, verify_leaf, verify_attestation,
  verify_certificates,
}

or-eq-true : (a b : Bool) → (a || b) ≡ true → (a ≡ true) ⊎ (b ≡ true)
or-eq-true a b h = ground arith

-- The first extension with the identifier of Android's key attestation has the value.
abbrev pub Carries : List Extension → Bytes → Type 0
Carries [] value = ⊥
Carries (ext ∷ exts) value =
    ((ext.id ≡ codes "1.3.6.1.4.1.11129.2.1.17") × (ext.value ≡ value))
    ⊎ ((ext.id ≢ codes "1.3.6.1.4.1.11129.2.1.17") × Carries exts value)

pub find_extension-Carries :
    (exts : List Extension) (value : Bytes) → find_extension exts ≡ some value → Carries exts value
unfolding find_extension
find_extension-Carries [] value h = cc
find_extension-Carries (ext ∷ exts) value h = ground (arith, find_extension-Carries exts value)

module _ (p : Platform) (d : Decoders) where
  -- The revocation list was consulted for each certificate in turn, and answered "not revoked".
  abbrev pub AllClear : (ℕ → Call) → ℕ → List (Certificate p.Key) → RevocationStatusClient → Type 0
  AllClear calls i [] c = Unit
  AllClear calls i (cert ∷ certs) c =
      ((is_key_revoked p cert.public_key (calls i) c).1 ≡ ok false)
      × AllClear calls (suc i) certs (is_key_revoked p cert.public_key (calls i) c).0

  -- The same with no client, where nothing is consulted.
  abbrev pub ClearFor :
      (ℕ → Call) → List (Certificate p.Key) → Option RevocationStatusClient → Type 0
  ClearFor calls certs none = Unit
  ClearFor calls certs (some c) = AllClear calls 0 certs c

  check_revocations-AllClear :
      (calls : ℕ → Call) (i : ℕ) (certs : List (Certificate p.Key)) (c : RevocationStatusClient)
      → (check_revocations p d calls i certs c).1 ≡ ok tt
      → AllClear calls i certs c
  unfolding check_revocations
  check_revocations-AllClear calls i [] c h = tt
  check_revocations-AllClear calls i (cert ∷ certs) c h = ground (
    arith,
    check_revocations-AllClear calls (suc i) certs (is_key_revoked p cert.public_key (calls i) c).0,
  )

  -- The leaf's key and the request's key have the same encoding.
  pub record SameKey (leaf : Certificate p.Key) (key : p.Key) : Type 0 where
    pub der : Bytes
    pub leaf_der : p.marshal_public_key leaf.public_key ≡ some der
    pub csr_der : p.marshal_public_key (some key) ≡ some der

  -- Where the caller gives a key, it is the leaf's.
  abbrev pub Matches : Certificate p.Key → Option p.Key → Type 0
  Matches leaf none = Unit
  Matches leaf (some key) = SameKey leaf key

  match_csr_key-SameKey :
      (leaf : Certificate p.Key) (key : p.Key)
      → match_csr_key p d leaf (some key) ≡ ok tt
      → SameKey leaf key
  unfolding match_csr_key
  match_csr_key-SameKey leaf key h =
      let (x, e, h1) = >>=-eq-ok (or_fail (p.marshal_public_key leaf.public_key) _) _ h in
      let (y, f, h2) = >>=-eq-ok (or_fail (p.marshal_public_key (some key)) _) _ h1 in
      record {
        der = x;
        leaf_der = or_fail-eq-ok _ _ e;
        csr_der = rw (eq_of_== x y (guard-eq-ok _ _ h2)) (or_fail-eq-ok _ _ f);
      }

  match_csr_key-Matches :
      (leaf : Certificate p.Key) (key : Option p.Key)
      → match_csr_key p d leaf key ≡ ok tt
      → Matches leaf key
  match_csr_key-Matches leaf none h = tt
  match_csr_key-Matches leaf (some key) h = match_csr_key-SameKey leaf key h

  -- The encodings parse as the certificates, one for one.
  abbrev pub Parses : List Bytes → List (Certificate p.Key) → Type 0
  Parses [] [] = Unit
  Parses (der ∷ ders) (cert ∷ certs) = (p.parse_certificate der ≡ some cert) × Parses ders certs
  Parses _ _ = ⊥

  parse_chain-Parses :
      (i : ℕ) (chain : List Bytes) (certs : List (Certificate p.Key))
      → parse_chain p d i chain ≡ ok certs
      → Parses chain certs
  unfolding parse_chain
  parse_chain-Parses i [] [] h = tt
  parse_chain-Parses i [] (cert ∷ certs) h = cc
  parse_chain-Parses i (der ∷ ders) certs h =
      let (cert, e, h1) = >>=-eq-ok (or_fail (p.parse_certificate der) _) _ h in
      let (rest, f, h2) = >>=-eq-ok (parse_chain p d (suc i) ders) _ h1 in
      subst (Parses (der ∷ ders)) (ok-injective _ _ h2)
        (or_fail-eq-ok _ _ e, parse_chain-Parses (suc i) ders rest f)

  pub record IsAttested (policy : Policy) (leaf : Certificate p.Key) (challenge : Bytes)
      (r : AttestationRecord) : Type 0 where
    pub value : Bytes
    pub found : Carries leaf.extensions value
    pub kd : KeyDescription
    pub decoded : d.key_description value ≡ some kd
    pub conforms : Conforms p d policy kd challenge r

  pub record IsTrusted (w : World) (v : Verifier p) (chain : List Bytes) (challenge : Bytes)
      (key : Option p.Key) (r : AttestationRecord) : Type 0 where
    pub leaf : Certificate p.Key
    pub intermediates : List (Certificate p.Key)
    pub parsed : Parses chain (leaf ∷ intermediates)
    pub chain_bounds : (2 ≤ length chain) × (length chain ≤ max_chain_certificates)
    pub unrevoked :
        Required v.policy.check_revocation_list
          (ClearFor w.calls (leaf ∷ intermediates) v.revocations)
    pub rooted :
        (v.policy.skip_chain_validation ≡ true)
        ⊎ (p.verify_chain w.verified_at v.root_pool intermediates leaf ≡ true)
    pub matched : Matches leaf key
    pub attested : IsAttested v.policy leaf challenge r

  verify_extension-IsAttested :
      (policy : Policy) (leaf : Certificate p.Key) (challenge : Bytes) (r : AttestationRecord)
      → policy.allow_empty_attestation ≡ false
      → (o : Option Bytes) → find_extension leaf.extensions ≡ o
      → verify_extension p d policy o challenge ≡ ok r
      → IsAttested policy leaf challenge r
  unfolding verify_extension
  verify_extension-IsAttested policy leaf challenge r strict none e h = ground arith
  verify_extension-IsAttested policy leaf challenge r strict (some []) e h = ground arith
  verify_extension-IsAttested policy leaf challenge r strict (some (b ∷ bs)) e h =
      let (kd, f, h1) = >>=-eq-ok (or_fail (d.key_description (b ∷ bs)) _) _ h in
      record {
        value = b ∷ bs;
        found = find_extension-Carries _ _ e;
        kd = kd;
        decoded = or_fail-eq-ok _ _ f;
        conforms = verify_key_description-Conforms p d policy kd challenge r h1;
      }

  consult_revocations-AllClear :
      (calls : ℕ → Call) (v : Verifier p) (certs : List (Certificate p.Key))
      → (consult_revocations p d calls v certs).1 ≡ ok tt
      → v.policy.check_revocation_list ≡ true
      → ClearFor calls certs v.revocations
  unfolding consult_revocations
  consult_revocations-AllClear calls v certs h on = elim (Option-cases v.revocations) [
    | inl e ↦ rw e tt
    | inr (c, e) ↦ rw e (check_revocations-AllClear calls 0 certs c (ground arith))
  ]

  module _ (w : World) (v : Verifier p) (challenge : Bytes) (key : Option p.Key)
      (r : AttestationRecord) (strict : v.policy.allow_empty_attestation ≡ false) where
    certificates-IsTrusted :
        (chain : List Bytes) (certs : List (Certificate p.Key))
        → parse_chain p d 0 chain ≡ ok certs
        → (2 ≤ length chain) × (length chain ≤ max_chain_certificates)
        → (verify_certificates p d w v certs challenge key).1 ≡ ok r
        → IsTrusted w v chain challenge key r
    unfolding verify_leaf
    certificates-IsTrusted chain [] parsed bounds h = cc
    certificates-IsTrusted chain (leaf ∷ intermediates) parsed bounds h =
        let (clear, h1) =
          >>-eq-ok (consult_revocations p d w.calls v (leaf ∷ intermediates)).1 _ h in
        let (rooted, h2) = >>-eq-ok (guard _ _) _ h1 in
        let (same, h3) = >>-eq-ok (match_csr_key p d leaf key) _ h2 in
        record {
          leaf = leaf;
          intermediates = intermediates;
          parsed = parse_chain-Parses 0 chain (leaf ∷ intermediates) parsed;
          chain_bounds = bounds;
          unrevoked =
              required _ (consult_revocations-AllClear w.calls v (leaf ∷ intermediates) clear);
          rooted = or-eq-true _ _ (guard-eq-ok _ _ rooted);
          matched = match_csr_key-Matches leaf key same;
          attested = verify_extension-IsAttested v.policy leaf challenge r strict _ refl h3;
        }

  -- With a policy that allows no empty attestation, a record is returned only for a chain of 2 to
  -- 16 certificates that all parse, of which none is revoked where revocation is checked and a
  -- client is attached, that leads to the root pool unless chain validation is skipped, whose leaf
  -- has the key that the caller gives, if it gives one, and whose leaf carries a key description that
  -- conforms to the policy.
  pub verify_attestation-IsTrusted :
      (w : World) (v : Verifier p) (chain : List Bytes) (challenge : Bytes) (key : Option p.Key)
      (r : AttestationRecord)
      → v.policy.allow_empty_attestation ≡ false
      → (verify_attestation p d w v chain challenge key).1 ≡ ok r
      → IsTrusted w v chain challenge key r
  unfolding verify_attestation
  verify_attestation-IsTrusted w v [] challenge key r strict h = ground arith
  verify_attestation-IsTrusted w v (der ∷ ders) challenge key r strict h =
      elim (Result-cases (parse_chain p d 0 (der ∷ ders))) [
        | inl (certs, e) ↦
            certificates-IsTrusted w v challenge key r strict (der ∷ ders) certs e (ground arith)
              (ground arith)
        | inr (x, e) ↦ ground arith
      ]
