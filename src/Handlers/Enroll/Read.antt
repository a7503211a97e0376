-- ===== src/Handlers/Enroll/Read.antt =====
-- What a decoded submission says of its HTTP request.
use mtls_authentication_poc.Prelude.{
  ℕ, ◌≤◌, ◌≡◌, refl, ◌∙◌, subst, ◌⊎◌, inl, inr, Bool, true, false, not, ◌||◌, some, List, [], ◌∷◌,
  arith, leb, ◌==◌, Bool-cases, eq_of_==, ℤ_eq, length, take, all, All, ◌*◌, Bytes, Text, ℕ_eq,
  text_eq, Result, ok, guard, or_fail, Result-cases, >>=-eq-ok, >>-eq-ok, guard-eq-ok,
  or_fail-eq-ok, ok-injective,
}
use mtls_authentication_poc.Platform.{Platform, Certificate}
use mtls_authentication_poc.Attestation.Types.{Decoders, KeyDescription, Policy}
use mtls_authentication_poc.Attestation.Verifier.{ChallengeError, find_extension, extract_challenge}
use mtls_authentication_poc.Attestation.Verifier.Soundness.{Carries, find_extension-Carries}
use mtls_authentication_poc.Http.{Request, Failure, method_post}
use mtls_authentication_poc.Handlers.Enroll.Request.{
  EnrollRequest, Decode, Submission, max_enroll_body_bytes, is_label_byte, matches_label_pattern,
  decode_chain, locate_challenge, read_submission,
}

abbrev IsAlphanumeric : ℕ → Type 0
IsAlphanumeric c = ((b'A' ≤ c) × (c ≤ b'Z')) ⊎ ((b'a' ≤ c) × (c ≤ b'z')) ⊎ ((b'0' ≤ c) × (c ≤ b'9'))

-- A letter, a digit, a dot, an underscore or a dash.
abbrev IsLabelByte : ℕ → Type 0
IsLabelByte c = IsAlphanumeric c ⊎ (c ≡ b'.') ⊎ (c ≡ b'_') ⊎ (c ≡ b'-')

-- From 1 to 64 such bytes, of which the first is a letter or a digit.
abbrev IsSafe : Text → Type 0
IsSafe [] = ⊥
IsSafe (c ∷ cs) = IsAlphanumeric c × All IsLabelByte cs × (length cs ≤ 63)

is_label_byte-All : (cs : Text) → all is_label_byte cs ≡ true → All IsLabelByte cs
is_label_byte-All [] h = tt
is_label_byte-All (c ∷ cs) h = ground (arith, is_label_byte-All cs)

matches_label_pattern-IsSafe : (label : Text) → matches_label_pattern label ≡ true → IsSafe label
unfolding matches_label_pattern
matches_label_pattern-IsSafe [] h = cc
matches_label_pattern-IsSafe (c ∷ cs) h = ground (arith, is_label_byte-All cs)

ok_same :
    (a c : Bytes)
    → ◌≡◌ {A = Result Failure Bytes} (ok a) (ok c)
    → ◌≡◌ {A = Result ChallengeError Bytes} (ok a) (ok c)
ok_same a c h = cc

module _ (p : Platform) (d : Decoders) where
  -- The challenge is that of the key description in the first certificate.
  pub record IsLocated (chain : List Bytes) (challenge : Bytes) : Type 0 where
    pub first : Bytes
    pub rest : List Bytes
    pub listed : chain ≡ first ∷ rest
    pub leaf : Certificate p.Key
    pub parsed : p.parse_certificate first ≡ some leaf
    pub value : Bytes
    pub found : Carries leaf.extensions value
    pub kd : KeyDescription
    pub decoded : d.key_description value ≡ some kd
    pub held : kd.attestation_challenge ≡ challenge

  extract_challenge-IsLocated :
      (chain : List Bytes) (challenge : Bytes)
      → extract_challenge p d chain ≡ ok challenge
      → IsLocated chain challenge
  unfolding extract_challenge
  extract_challenge-IsLocated [] challenge h = cc
  extract_challenge-IsLocated (der ∷ ders) challenge h =
      let (leaf, e, h1) = >>=-eq-ok (or_fail (p.parse_certificate der) _) _ h in
      let (value, f, h2) = >>=-eq-ok (or_fail (find_extension leaf.extensions) _) _ h1 in
      let (kd, g, h3) = >>=-eq-ok (or_fail (d.key_description value) _) _ h2 in
      record {
        first = der;
        rest = ders;
        listed = refl;
        leaf = leaf;
        parsed = or_fail-eq-ok _ _ e;
        value = value;
        found = find_extension-Carries leaf.extensions value (or_fail-eq-ok _ _ f);
        kd = kd;
        decoded = or_fail-eq-ok _ _ g;
        held = ok-injective _ _ h3;
      }

  -- The texts are the encodings of the certificates, one for one.
  abbrev pub Decodes : List Text → List Bytes → Type 0
  Decodes [] [] = Unit
  Decodes (c ∷ cs) (der ∷ ders) = (p.base64_decode c ≡ some der) × Decodes cs ders
  Decodes _ _ = ⊥

  decode_chain-Decodes :
      (cs : List Text) (ders : List Bytes) → decode_chain p d cs ≡ ok ders → Decodes cs ders
  unfolding decode_chain
  decode_chain-Decodes [] [] h = tt
  decode_chain-Decodes [] (der ∷ ders) h = cc
  decode_chain-Decodes (c ∷ cs) ders h =
      let (der, e, h1) = >>=-eq-ok (or_fail (p.base64_decode c) _) _ h in
      let (rest, f, h2) = >>=-eq-ok (decode_chain p d cs) _ h1 in
      subst (Decodes (c ∷ cs)) (ok-injective _ _ h2)
        (or_fail-eq-ok _ _ e, decode_chain-Decodes cs rest f)

  Decodes-short :
      (cs : List Text) (ders : List Bytes) → Decodes cs ders → ders ≡ [] → 2 ≤ length cs → ⊥
  Decodes-short [] ders h e long = absurd (omega (arith, long))
  Decodes-short (c ∷ cs) [] h e long = absurd h
  Decodes-short (c ∷ cs) (der ∷ ders) h e long = cc

  -- Where the policy allows no empty attestation, the challenge is the one in the leaf certificate.
  locate_challenge-extracted :
      (policy : Policy) (chain : List Bytes) (c : Bytes)
      → policy.allow_empty_attestation ≡ false
      → locate_challenge p d policy chain ≡ ok c
      → (chain ≡ []) ⊎ IsLocated chain c
  unfolding locate_challenge
  locate_challenge-extracted policy [] c strict h = inl refl
  locate_challenge-extracted policy (der ∷ ders) c strict h =
      elim (Result-cases (extract_challenge p d (der ∷ ders))) [
        | inl (a, e) ↦ inr (extract_challenge-IsLocated _ c (e ∙ ok_same a c (rw e at h)))
        | inr (x, e) ↦ ground (arith, rw e at h)
      ]

  pub record IsRead (decode : Decode) (policy : Policy) (r : Request p.Key) (sub : Submission p)
      : Type 0 where
    pub method : r.method ≡ method_post
    pub req : EnrollRequest
    pub decoded : decode (take (256 * 1024) r.body) ≡ some req
    pub label : sub.label ≡ req.device_id
    pub safe_label : (sub.label ≡ []) ⊎ IsSafe sub.label
    pub csr_text : p.base64_decode req.csr ≡ some sub.csr_der
    pub requested : p.parse_certificate_request sub.csr_der ≡ some sub.csr
    pub chain_length : (policy.allow_empty_attestation ≡ true) ⊎ (2 ≤ length req.attestation_chain)
    pub chain : Decodes req.attestation_chain sub.chain_der
    pub located : (policy.allow_empty_attestation ≡ true) ⊎ IsLocated sub.chain_der sub.challenge

  -- The first part of the handler accepts a request only by POST, with a body that decodes within the
  -- limit of 256 KiB, a label that is empty or has 1 to 64 letters, digits, dots, underscores and
  -- dashes, a letter or digit first, a signing request and certificates that decode and, unless an empty
  -- attestation is allowed, at least two certificates, the challenge being that of the first one's key
  -- description.
  pub read_submission-IsRead :
      (decode : Decode) (policy : Policy) (r : Request p.Key) (sub : Submission p)
      → read_submission p d decode policy r ≡ ok sub
      → IsRead decode policy r sub
  unfolding read_submission
  read_submission-IsRead decode policy r sub h =
      let (post, h1) = >>-eq-ok (guard (r.method == method_post) _) _ h in
      let (req, decoded, h2) =
        >>=-eq-ok (or_fail (decode (take max_enroll_body_bytes r.body)) _) _ h1 in
      let (safe, h3) =
        >>-eq-ok (guard (req.device_id == [] || matches_label_pattern req.device_id) _) _ h2 in
      let (_, h4) = >>-eq-ok (guard (not (req.csr == [])) _) _ h3 in
      let (csr_der, text, h5) = >>=-eq-ok (or_fail (p.base64_decode req.csr) _) _ h4 in
      let (csr, parsed, h6) = >>=-eq-ok (or_fail (p.parse_certificate_request csr_der) _) _ h5 in
      let (long, h7) =
        >>-eq-ok (guard (policy.allow_empty_attestation || leb 2 (length req.attestation_chain)) _)
          _ h6 in
      let (ders, chain, h8) = >>=-eq-ok (decode_chain p d req.attestation_chain) _ h7 in
      let (challenge, located, h9) = >>=-eq-ok (locate_challenge p d policy ders) _ h8 in
      subst (IsRead decode policy r) (ok-injective _ _ h9) (record {
        method = eq_of_== r.method _ (guard-eq-ok _ _ post);
        req = req;
        decoded = or_fail-eq-ok _ _ decoded;
        label = refl;
        safe_label = label_cases req.device_id (guard-eq-ok _ _ safe);
        csr_text = or_fail-eq-ok _ _ text;
        requested = or_fail-eq-ok _ _ parsed;
        chain_length = long_enough _ _ (guard-eq-ok _ _ long);
        chain = decode_chain-Decodes req.attestation_chain ders chain;
        located = elim (Bool-cases policy.allow_empty_attestation) [
          | inl lenient ↦ inl lenient
          | inr strict ↦
              inr (elim (locate_challenge-extracted policy ders challenge strict located) [
                | inl empty ↦ absurd (
                    Decodes-short req.attestation_chain ders
                      (decode_chain-Decodes req.attestation_chain ders chain) empty
                      (strictly _ _ strict (guard-eq-ok _ _ long)))
                | inr there ↦ there
              ])
        ];
      })
    where
      label_cases :
          (label : Text)
          → (label == [] || matches_label_pattern label) ≡ true
          → (label ≡ []) ⊎ IsSafe label
      label_cases label h = ground (arith, matches_label_pattern-IsSafe label)

      strictly : (b : Bool) (n : ℕ) → b ≡ false → (b || leb 2 n) ≡ true → 2 ≤ n
      strictly b n off h = ground arith

      long_enough : (b : Bool) (n : ℕ) → (b || leb 2 n) ≡ true → (b ≡ true) ⊎ (2 ≤ n)
      long_enough b n h = ground arith
