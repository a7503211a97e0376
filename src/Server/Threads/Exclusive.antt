-- ===== src/Server/Threads/Exclusive.antt =====
-- Concurrent enrollments do not share a challenge.
use mtls_authentication_poc.Prelude.{
  ℕ, ◌≡◌, sym, ◌∙◌, subst, ◌≢◌, ◌⊎◌, inl, inr, false, none, some, ==-ne, ℤ_eq, all, Text, ℕ_eq,
  text_eq,
}
use mtls_authentication_poc.Platform.{Platform}
use mtls_authentication_poc.Storage.Challenges.Memory.{
  expiry-generate, generate_failed, expiry_cleaned,
}
use mtls_authentication_poc.Attestation.Types.{Decoders}
use mtls_authentication_poc.Handlers.Enroll.Request.{Submission}
use mtls_authentication_poc.Handlers.Enroll.Request.{Decode}
use mtls_authentication_poc.Handlers.Enroll.Issue.{EnrollHandler, EnrollResponse}
use mtls_authentication_poc.Server.Routes.{State}
use mtls_authentication_poc.Server.Threads.{
  IsArrived, Thread, answered, set, set_keeps, System, advance, advance_thread, Moves, thread_moved,
  challenge_issued, cleaned, device_revoked, serial_revoked, Reaches, here, next,
}
use mtls_authentication_poc.Server.Threads.Consumed.{
  HasConsumed, Gone, Taken, arrived-not_consumed, advance-HasConsumed, advance-Gone,
}

module _ (p : Platform) (d : Decoders) (decode : Decode) (h : EnrollHandler p) (c : Text) where
  -- The step does not issue `c`.
  abbrev pub IsNew : {s t : System p} → Moves p d decode h s t → Type 0
  IsNew (challenge_issued (some bytes) now ttl e) = c ≢ p.base64_encode bytes
  IsNew _ = Unit

  -- No step issues `c`.
  abbrev pub NeverIssued : {s t : System p} → Reaches p d decode h s t → Type 0
  NeverIssued here = Unit
  NeverIssued (next r m) = NeverIssued r × IsNew m

module _ (p : Platform) (d : Decoders) (decode : Decode) (h : EnrollHandler p) (c : Text)
    (strict : h.policy.allow_empty_attestation ≡ false) where
  -- A thread that holds `c` took it from the store, and no other thread did.
  record IsExclusive (s : System p) : Type 0 where
    pub gone : (i : ℕ) → HasConsumed p c (s.threads i) → Gone p c s.shared
    pub alone : (i j : ℕ) → HasConsumed p c (s.threads i) → HasConsumed p c (s.threads j) → i ≡ j

  module _ (i : ℕ) (s : System p) (x : IsExclusive s) where
    abbrev moved : State p × Thread p
    moved = advance p d decode h (s.threads i) s.shared

    -- Who holds `c` after a step of thread `i` held it before, unless it is `i` that took it.
    moved-HasConsumed :
        (j : ℕ)
        → HasConsumed p c (set p i moved.1 s.threads j)
        → HasConsumed p c (s.threads j) ⊎ ((j ≡ i) × Taken p c s.shared moved.0)
    moved-HasConsumed j =
        set_keeps p
          (λ t.
            HasConsumed p c t
            → HasConsumed p c (s.threads j) ⊎ ((j ≡ i) × Taken p c s.shared moved.0))
          i moved.1 s.threads j
          (λ same q. elim (advance-HasConsumed p d decode h c strict (s.threads i) s.shared q) [
            | inl before ↦ inl (rw same before)
            | inr taken ↦ inr (same, taken)
          ])
          (λ other q. inl q)

    advance_thread-IsExclusive : IsExclusive (advance_thread p d decode h i s)
    unfolding advance_thread
    advance_thread-IsExclusive = record {
      gone = λ j q. elim (moved-HasConsumed j q) [
        | inl before ↦ advance-Gone p d decode h c strict (s.threads i) s.shared (x.gone j before)
        | inr (_, (held, gone)) ↦ gone
      ];
      alone = λ j k q r. elim (moved-HasConsumed j q) [
        | inl a ↦ elim (moved-HasConsumed k r) [
          | inl b ↦ x.alone j k a b
          | inr (_, (held, _)) ↦ absurd (held (x.gone j a))
        ]
        | inr (m, (held, _)) ↦ elim (moved-HasConsumed k r) [
          | inl b ↦ absurd (held (x.gone k b))
          | inr (n, _) ↦ m ∙ sym n
        ]
      ];
    }

  -- The same threads over a store that holds no more challenges than before.
  changed-IsExclusive :
      (s : System p) (shared : State p)
      → (Gone p c s.shared → Gone p c shared)
      → IsExclusive s
      → IsExclusive (record s { shared = shared })
  changed-IsExclusive s shared kept x = record { gone = λ i q. kept (x.gone i q); alone = x.alone }

  Moves-IsExclusive :
      {s t : System p} (m : Moves p d decode h s t)
      → IsNew p d decode h c m
      → IsExclusive s
      → IsExclusive t
  Moves-IsExclusive {s} (thread_moved i e) new x = rw e (advance_thread-IsExclusive i s x)
  Moves-IsExclusive {s} (challenge_issued none now ttl e) new x =
      rw (e, generate_failed p now ttl s.shared.challenges)
        (changed-IsExclusive s s.shared (λ gone. gone) x)
  Moves-IsExclusive {s} (challenge_issued (some bytes) now ttl e) new x = rw e (
      changed-IsExclusive s _
        (λ gone.
          expiry-generate p bytes now ttl c s.shared.challenges
          ∙ rw (==-ne c (p.base64_encode bytes) new) gone)
        x)
  Moves-IsExclusive {s} (cleaned now e) new x =
      rw e (changed-IsExclusive s _ (expiry_cleaned now c s.shared.challenges) x)
  Moves-IsExclusive {s} (device_revoked k e) new x = rw e (changed-IsExclusive s _ (λ gone. gone) x)
  Moves-IsExclusive {s} (serial_revoked serial e) new x =
      rw e (changed-IsExclusive s _ (λ gone. gone) x)

  Reaches-IsExclusive :
      {s t : System p} (r : Reaches p d decode h s t)
      → NeverIssued p d decode h c r
      → IsExclusive s
      → IsExclusive t
  Reaches-IsExclusive here q x = x
  Reaches-IsExclusive (next r m) (q, new) x = Moves-IsExclusive m new (Reaches-IsExclusive r q x)

  arrived-IsExclusive : (s : System p) → ((i : ℕ) → IsArrived p (s.threads i)) → IsExclusive s
  arrived-IsExclusive s all = record {
    gone = λ i q. absurd (arrived-not_consumed p c (s.threads i) (all i) q);
    alone = λ i j q r. absurd (arrived-not_consumed p c (s.threads i) (all i) q);
  }

  -- Under a policy that allows no empty attestation, and whatever the order in which the steps of
  -- concurrent requests, cleanups and revocations follow each other: if every request starts after the
  -- challenge `c` was issued, and it is not issued again, then once a request with that challenge has
  -- been answered with a certificate, no other one with it is.
  pub answered_exclusively :
      (s t : System p) (r : Reaches p d decode h s t) (i j : ℕ) (sub sub' : Submission p)
      (resp resp' : EnrollResponse)
      → ((k : ℕ) → IsArrived p (s.threads k))
      → NeverIssued p d decode h c r
      → t.threads i ≡ answered sub resp
      → p.base64_encode sub.challenge ≡ c
      → p.base64_encode sub'.challenge ≡ c
      → i ≢ j
      → t.threads j ≢ answered sub' resp'
  answered_exclusively s t r i j sub sub' resp resp' start never first same same' other second =
      other (
        (Reaches-IsExclusive r never (arrived-IsExclusive s start)).alone i j
          (subst (HasConsumed p c) (sym first) same) (subst (HasConsumed p c) (sym second) same'))
