-- ===== src/Server/Threads/Attested.antt =====
-- Which challenges a sequence of steps issues, and what the registry holds after it.
use mtls_authentication_poc.Prelude.{
  ℕ, ◌≡◌, refl, ◌⊎◌, ==-ne, none, inl, inr, sym, ◌∙◌, subst, false, some, ℤ_eq, Text, text_discrete,
  ℕ_eq, text_eq,
}
use mtls_authentication_poc.Platform.{Platform}
use mtls_authentication_poc.Platform.Laws.{IsStandard}
use mtls_authentication_poc.Storage.Challenges.{MemoryChallenges, memory_challenge_store}
use mtls_authentication_poc.Storage.Challenges.Memory.{
  expiry-generate, generate_failed, expiry_cleaned,
}
use mtls_authentication_poc.Server.Threads.Consumed.{advance-Gone}
use mtls_authentication_poc.Storage.Devices.{MemoryDevices, memory_device_repo, get_device}
use mtls_authentication_poc.Storage.Devices.Memory.{memory_device_repo-IsLawful, get-revoke_serial}
use mtls_authentication_poc.Attestation.Types.{Decoders, AttestationRecord}
use mtls_authentication_poc.Attestation.Revocation.{public_key_fingerprint}
use mtls_authentication_poc.Attestation.Verifier.Soundness.{verify_attestation-IsTrusted}
use mtls_authentication_poc.Handlers.Enroll.Request.{Decode, Submission}
use mtls_authentication_poc.Handlers.Enroll.Issue.{
  EnrollHandler, EnrollWorld, verifier_of, verify_submission,
}
use mtls_authentication_poc.Handlers.Enroll.Outcome.{consume_challenge_keeps}
use mtls_authentication_poc.Handlers.Enroll.Registry.{sign_for-Holds}
use mtls_authentication_poc.Handlers.Enroll.Security.{fingerprint_some}
use mtls_authentication_poc.Server.Routes.{State}
use mtls_authentication_poc.Server.Attested.{IsAttested, AllAttested, revoke_device-AllAttested}
use mtls_authentication_poc.Server.Threads.{
  Thread, IsArrived, arrived, consuming, verifying, identifying, checking, signing, answered,
  failed, set_keeps, System, advance, advance_thread, Moves, thread_moved, challenge_issued,
  cleaned, device_revoked, serial_revoked, Reaches, here, next,
}
use mtls_authentication_poc.Server.Threads.Vouched.{
  IsVerified, IsVouched, IsHeard, IsArmed, arrived-IsVouched, advance-IsVouched, advance-IsArmed,
}

still {ℓ κ μ} : {A : Type ℓ} {B : Type κ} {C : Type μ} → (A → B) → A ⊎ C → B ⊎ C
still f (inl a) = inl (f a)
still f (inr c) = inr c

module _ (p : Platform) (d : Decoders) (decode : Decode) (h : EnrollHandler p) where
  -- The step issues the challenge.
  abbrev pub IsIssuedBy : {s t : System p} → Moves p d decode h s t → Text → Type 0
  IsIssuedBy (challenge_issued (some bytes) now ttl e) c = c ≡ p.base64_encode bytes
  IsIssuedBy _ c = ⊥

  -- One of the steps issues the challenge.
  abbrev pub Issues : {s t : System p} → Reaches p d decode h s t → Text → Type 0
  Issues here c = ⊥
  Issues (next r m) c = Issues r c ⊎ IsIssuedBy m c

module _ (p : Platform) (d : Decoders) (decode : Decode) (h : EnrollHandler p) (I : Text → Type 0)
    (strict : h.policy.allow_empty_attestation ≡ false) where
  module _ (std : IsStandard p) where
    verified-IsAttested :
        (w : EnrollWorld) (sub : Submission p) (attested : AttestationRecord) (identity : Text)
        → IsVerified p d decode h I strict w sub attested
        → public_key_fingerprint p sub.csr.public_key ≡ some identity
        → IsAttested p d h I identity
    verified-IsAttested w sub attested identity (issued, client, armed, verified) derived =
        let (key, der, requested, encoded, named) =
          fingerprint_some p sub.csr.public_key identity std derived in
        record {
          key = key;
          der = der;
          encoded = encoded;
          identity = named;
          world = w.verification;
          client = client;
          armed = armed;
          issued = issued;
          chain = sub.chain_der;
          challenge = sub.challenge;
          report = attested;
          trusted =
              verify_attestation-IsTrusted p d w.verification
                (verifier_of p d (memory_challenge_store p) memory_device_repo h client)
                sub.chain_der sub.challenge (some key) attested strict (rw (← requested) verified);
        }

    advance-AllAttested :
        (t : Thread p) (s : State p)
        → IsVouched p d decode h I strict t
        → AllAttested p d h I s.devices
        → AllAttested p d h I (advance p d decode h t s).0.devices
    unfolding advance verify_submission
    advance-AllAttested (arrived w r) s q known = known
    advance-AllAttested (consuming w sub) s q known =
        subst (AllAttested p d h I)
          (sym
            (consume_challenge_keeps p d (memory_challenge_store p) memory_device_repo w.consumed_at
              h.policy sub.challenge s).0)
          known
    advance-AllAttested (verifying w sub) s q known = known
    advance-AllAttested (identifying w sub attested) s q known = known
    advance-AllAttested (checking w sub attested identity) s q known = known
    advance-AllAttested (signing w sub attested identity) s (verified, derived) known =
        λ k device holds. elim (text_discrete k identity) [
          | yes same ↦ rw same (verified-IsAttested w sub attested identity verified derived)
          | no other ↦ known k device (
              sym (
                sign_for-Holds p d (memory_challenge_store p) memory_device_repo
                  memory_device_repo-IsLawful k (get_device k s.devices) w h sub attested identity s
                  other refl)
              ∙ holds)
        ]
    advance-AllAttested (answered sub resp) s q known = known
    advance-AllAttested (failed e) s q known = known

    -- Every registered identity has been attested, and every thread vouches for what it will register.
    pub record IsSound (s : System p) : Type 0 where
      pub known : AllAttested p d h I s.shared.devices
      pub armed : IsArmed p d decode h I strict s.shared
      pub heard : IsHeard p d decode h I strict s.shared
      pub vouched : (i : ℕ) → IsVouched p d decode h I strict (s.threads i)

    advance_thread-IsSound :
        (i : ℕ) (s : System p) → IsSound s → IsSound (advance_thread p d decode h i s)
    unfolding advance_thread
    advance_thread-IsSound i s q = record {
      known = advance-AllAttested (s.threads i) s.shared (q.vouched i) q.known;
      armed = advance-IsArmed p d decode h I strict (s.threads i) s.shared q.armed;
      heard = λ c. still (advance-Gone p d decode h c strict (s.threads i) s.shared) (q.heard c);
      vouched = λ j.
          set_keeps p (IsVouched p d decode h I strict) i _ s.threads j
            (λ _.
              advance-IsVouched p d decode h I strict (s.threads i) s.shared q.armed q.heard
                (q.vouched i))
            (λ _. q.vouched j);
    }

    -- The same threads over another store of challenges.
    changed-IsSound :
        (s : System p) (challenges : MemoryChallenges)
        → IsHeard p d decode h I strict (record (s.shared) { challenges = challenges })
        → IsSound s
        → IsSound (record s { shared = record (s.shared) { challenges = challenges } })
    changed-IsSound s challenges heard q = record {
      known = q.known;
      armed = q.armed;
      heard = heard;
      vouched = q.vouched;
    }

    -- The same over another registry.
    registered-IsSound :
        (s : System p) (devices : MemoryDevices)
        → AllAttested p d h I devices
        → IsSound s
        → IsSound (record s { shared = record (s.shared) { devices = devices } })
    registered-IsSound s devices known q = record {
      known = known;
      armed = q.armed;
      heard = q.heard;
      vouched = q.vouched;
    }

    Moves-IsSound :
        {s t : System p} (m : Moves p d decode h s t)
        → ((c : Text) → IsIssuedBy p d decode h m c → I c)
        → IsSound s
        → IsSound t
    Moves-IsSound {s} (thread_moved i e) new q = rw e (advance_thread-IsSound i s q)
    Moves-IsSound {s} (challenge_issued none now ttl e) new q =
        rw (e, generate_failed p now ttl s.shared.challenges)
          (changed-IsSound s s.shared.challenges q.heard q)
    Moves-IsSound {s} (challenge_issued (some bytes) now ttl e) new q = rw e (
        changed-IsSound s _
          (λ c. elim (text_discrete c (p.base64_encode bytes)) [
            | yes same ↦ inr (new c same)
            | no other ↦
                still
                  (λ gone.
                    expiry-generate p bytes now ttl c s.shared.challenges
                    ∙ rw (==-ne c (p.base64_encode bytes) other) gone)
                  (q.heard c)
          ])
          q)
    Moves-IsSound {s} (cleaned now e) new q =
        rw e (
          changed-IsSound s _ (λ c. still (expiry_cleaned now c s.shared.challenges) (q.heard c)) q)
    Moves-IsSound {s} (device_revoked j e) new q =
        rw e
          (registered-IsSound s _ (revoke_device-AllAttested p d h I j s.shared.devices q.known) q)
    Moves-IsSound {s} (serial_revoked serial e) new q = rw e (
        registered-IsSound s _
          (λ k device holds.
            q.known k device (sym (get-revoke_serial serial k s.shared.devices) ∙ holds))
          q)

    Reaches-IsSound :
        {s t : System p} (r : Reaches p d decode h s t)
        → ((c : Text) → Issues p d decode h r c → I c)
        → IsSound s
        → IsSound t
    Reaches-IsSound here new q = q
    Reaches-IsSound (next r m) new q =
        Moves-IsSound m (λ c i. new c (inr i)) (Reaches-IsSound r (λ c i. new c (inl i)) q)

    -- In whatever order the steps of concurrent enrollments follow each other, the registry holds only
    -- attested identities, if it did when the requests arrived, if `I` held then of every stored
    -- challenge and holds of those that are issued, and if there was a revocation client where the policy
    -- asks for one.
    pub threads-AllAttested :
        {s t : System p} (r : Reaches p d decode h s t)
        → ((c : Text) → Issues p d decode h r c → I c)
        → ((i : ℕ) → IsArrived p (s.threads i))
        → AllAttested p d h I s.shared.devices
        → IsArmed p d decode h I strict s.shared
        → IsHeard p d decode h I strict s.shared
        → AllAttested p d h I t.shared.devices
    threads-AllAttested {s} r new start known armed heard =
        (Reaches-IsSound r new (record {
          known = known;
          armed = armed;
          heard = heard;
          vouched = λ i. arrived-IsVouched p d decode h I strict (s.threads i) (start i);
        })).known
