-- ===== src/Handlers/Enroll/Security.antt =====
-- The guarantees of the enrollment endpoint under a policy that allows no empty attestation.
use mtls_authentication_poc.Prelude.{
  ◌≡◌, refl, sym, ap, ◌∙◌, subst, ◌≢◌, inl, inr, true, false, Option, none, some, [], ◌∷◌, arith,
  if◌then◌else◌, ◌==◌, Option-cases, ==_refl, ℤ_eq, Bytes, Text, codes, ℕ_eq, text_eq, ok,
  guard-eq-ok, ok-injective,
}
use mtls_authentication_poc.Platform.{Platform, Time, Certificate, CertificateRequest, hex_encode}
use mathlib.Core.Option.{some-injective}
use mtls_authentication_poc.Ca.Signer.Issued.{sign_csr-IsSigned}
use mtls_authentication_poc.Handlers.Enroll.Read.{read_submission-IsRead}
use mtls_authentication_poc.Platform.Laws.{IsStandard}
use mtls_authentication_poc.Storage.Challenges.{ChallengeStore}
use mtls_authentication_poc.Storage.Challenges.Laws.{not_expired}
use mtls_authentication_poc.Storage.Challenges.Laws as Challenges
use mtls_authentication_poc.Storage.Devices.{DeviceRepo}
use mtls_authentication_poc.Attestation.Types.{Decoders, Policy, AttestationRecord}
use mtls_authentication_poc.Attestation.Revocation.{public_key_fingerprint}
use mtls_authentication_poc.Attestation.Verifier.Soundness.{IsTrusted, verify_attestation-IsTrusted}
use mtls_authentication_poc.Http.{Request}
use mtls_authentication_poc.Handlers.Enroll.Request.{Decode, Submission, read_submission}
use mtls_authentication_poc.Handlers.Enroll.Issue.{
  EnrollResponse, EnrollHandler, ServerState, EnrollWorld, verifier_of, consume_challenge, enroll,
}
use mtls_authentication_poc.Handlers.Enroll.Outcome.{enroll-IsEnrolled}

pub fingerprint_some :
    (p : Platform) (o : Option p.Key) (identity : Text)
    → IsStandard p
    → public_key_fingerprint p o ≡ some identity
    → (key : p.Key) × (der : Bytes) × (o ≡ some key)
      × (p.marshal_public_key (some key) ≡ some der)
      × (identity ≡ hex_encode (p.sha256 der))
unfolding public_key_fingerprint
fingerprint_some p none identity std h = ground (arith, std.marshal_nil)
fingerprint_some p (some key) identity std h =
    elim (Option-cases (p.marshal_public_key (some key))) [
      | inl missing ↦ ground arith
      | inr (der, e) ↦ (key, der, refl, e, ground arith)
    ]

none-not_expired : (now : Time) → not_expired now none ≡ true → ⊥
none-not_expired now h = cc

module _ (p : Platform) (d : Decoders) (C : ChallengeStore) (R : DeviceRepo) where
  pub record IsGenuine (w : EnrollWorld) (h : EnrollHandler p) (s : ServerState C R)
      (sub : Submission p) (resp : EnrollResponse) : Type 0 where
    pub key : p.Key
    pub requested : sub.csr.public_key ≡ some key
    pub der : Bytes
    pub encoded : p.marshal_public_key (some key) ≡ some der
    pub identity : resp.device_identity ≡ hex_encode (p.sha256 der)
    pub record' : AttestationRecord
    pub trusted :
        IsTrusted p d w.verification
          (verifier_of p d C R h s.revocations)
          sub.chain_der
          sub.challenge
          (some key)
          record'
    pub cert_der : Bytes
    pub certified :
        resp.client_certificate
        ≡ p.pem_encode (record { type = codes "CERTIFICATE"; bytes = cert_der })
    pub cert : Certificate p.Key
    pub parsed : p.parse_certificate cert_der ≡ some cert
    pub cert_key : cert.public_key ≡ some key
    pub cert_name : cert.common_name ≡ resp.device_identity

  -- Under a policy that allows no empty attestation, and if the standard library behaves as
  -- documented: the certificate that an enrollment answers with is for the key of the signing request,
  -- the attestation chain of the request is trusted for that key with the challenge that it holds, and
  -- the identity, which the certificate names, is the hex digest of that key's encoding.
  pub enroll-IsGenuine :
      (decode : Decode) (w : EnrollWorld) (h : EnrollHandler p) (r : Request p.Key)
      (s : ServerState C R) (resp : EnrollResponse)
      → IsStandard p
      → h.policy.allow_empty_attestation ≡ false
      → (enroll p d C R decode w h r s).1 ≡ ok resp
      → (sub : Submission p) × (read_submission p d decode h.policy r ≡ ok sub)
        × IsGenuine w h s sub resp
  enroll-IsGenuine decode w h r s resp std strict e =
      let q = enroll-IsEnrolled p d C R decode w h r s resp e in
      let i = q.issued in
      let (key, der, requested, encoded, identity) =
        fingerprint_some p q.sub.csr.public_key i.identity std i.derived in
      let signed = sign_csr-IsSigned p w.draws h.ca q.sub.csr_der _ _ i.cert i.pem i.signed in
      let issued = std.created _ _ _ _ _ signed.der i.cert signed.created signed.parsed in
      let same_csr = some-injective _ _ (
        sym signed.requested
        ∙ (read_submission-IsRead p d decode h.policy r q.sub q.read).requested) in
      (
        q.sub,
        q.read,
        record {
          key = key;
          requested = requested;
          der = der;
          encoded = encoded;
          identity = ap (λ (t : EnrollResponse). t.device_identity) i.answered ∙ identity;
          record' = q.attested;
          trusted =
              verify_attestation-IsTrusted p d w.verification (verifier_of p d C R h s.revocations)
                q.sub.chain_der q.sub.challenge (some key) q.attested strict
                (rw (← requested) q.verified);
          cert_der = signed.der;
          certified = ap (λ (t : EnrollResponse). t.client_certificate) i.answered ∙ signed.encoded;
          cert = i.cert;
          parsed = signed.parsed;
          cert_key =
              issued.public_key
              ∙ (ap (λ (c : CertificateRequest p.Key). c.public_key) same_csr ∙ requested);
          cert_name =
              issued.common_name ∙ sym (ap (λ (t : EnrollResponse). t.device_identity) i.answered);
        },
      )

  module _ (L : Challenges.IsLawful p C) where
    -- A challenge that is consumed was stored and not expired, and is gone.
    pub record IsConsumed (now : Time) (c : Bytes) (s after : C.State) : Type 0 where
      pub fresh : not_expired now (L.expiry (p.base64_encode c) s) ≡ true
      pub taken :
          (k : Text) → L.expiry k after ≡ (if k == p.base64_encode c then none else L.expiry k s)

    consume_challenge-IsConsumed :
        (now : Time) (policy : Policy) (c : Bytes) (s : ServerState C R)
        → policy.allow_empty_attestation ≡ false
        → (consume_challenge p d C R now policy c s).1 ≡ ok tt
        → (c ≢ [])
          × IsConsumed now c s.challenges (consume_challenge p d C R now policy c s).0.challenges
    unfolding consume_challenge
    consume_challenge-IsConsumed now policy [] s strict h = ground arith
    consume_challenge-IsConsumed now policy (b ∷ bs) s strict h = (
      cc,
      record {
        fresh = sym (L.consumed now (p.base64_encode (b ∷ bs)) s.challenges) ∙ guard-eq-ok _ _ h;
        taken = λ k. L.expiry-consume now (p.base64_encode (b ∷ bs)) k s.challenges;
      },
    )

    -- Under a policy that allows no empty attestation, and over a challenge store that meets its
    -- laws, an enrollment that succeeds has a challenge that is not empty, that the store held and
    -- that had not expired; the store holds the other challenges as before, and that one no more.
    pub enroll-IsConsumed :
        (decode : Decode) (w : EnrollWorld) (h : EnrollHandler p) (r : Request p.Key)
        (s : ServerState C R) (sub : Submission p) (resp : EnrollResponse)
        → h.policy.allow_empty_attestation ≡ false
        → read_submission p d decode h.policy r ≡ ok sub
        → (enroll p d C R decode w h r s).1 ≡ ok resp
        → (sub.challenge ≢ [])
          × IsConsumed w.consumed_at sub.challenge s.challenges
              (enroll p d C R decode w h r s).0.challenges
    enroll-IsConsumed decode w h r s sub resp strict read e =
        let q = enroll-IsEnrolled p d C R decode w h r s resp e in
        let same = ok-injective q.sub sub (sym q.read ∙ read) in
        let (nonempty, c) =
          consume_challenge-IsConsumed w.consumed_at h.policy q.sub.challenge s strict q.consumed in
        let kept = ap (λ (t : ServerState C R). t.challenges) q.issued.state ∙ q.challenges in
        subst
          (λ (t : Submission p).
            (t.challenge ≢ [])
            × IsConsumed w.consumed_at t.challenge s.challenges
                (enroll p d C R decode w h r s).0.challenges)
          same
          (nonempty, subst (IsConsumed w.consumed_at q.sub.challenge s.challenges) (sym kept) c)

    -- Under a policy that allows no empty attestation, and over a challenge store that meets its
    -- laws, a challenge serves one enrollment: after it, no request with the same challenge
    -- succeeds while the store holds what it held then, whatever became of the registry and of the
    -- time.
    pub enroll_replay :
        (decode : Decode) (w : EnrollWorld) (h : EnrollHandler p) (r : Request p.Key)
        (s : ServerState C R) (sub : Submission p) (resp : EnrollResponse) (w' : EnrollWorld)
        (r' : Request p.Key) (t : ServerState C R) (sub' : Submission p) (resp' : EnrollResponse)
        → h.policy.allow_empty_attestation ≡ false
        → read_submission p d decode h.policy r ≡ ok sub
        → (enroll p d C R decode w h r s).1 ≡ ok resp
        → read_submission p d decode h.policy r' ≡ ok sub'
        → sub'.challenge ≡ sub.challenge
        → t.challenges ≡ (enroll p d C R decode w h r s).0.challenges
        → (enroll p d C R decode w' h r' t).1 ≢ ok resp'
    enroll_replay decode w h r s sub resp w' r' t sub' resp' strict read e read' same held e' =
        let first = enroll-IsConsumed decode w h r s sub resp strict read e in
        let second = enroll-IsConsumed decode w' h r' t sub' resp' strict read' e' in
        let c = p.base64_encode sub.challenge in
        let gone = ◌∙◌ {c = none} (first.1.taken c) (rw (==_refl c) refl) in
        let fresh = second.1.fresh in
        absurd (none-not_expired w'.consumed_at (rw (held, same, gone) at fresh))
