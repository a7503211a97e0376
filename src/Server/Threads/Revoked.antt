-- ===== src/Server/Threads/Revoked.antt =====
-- Revocation while enrollments are under way.
use mtls_authentication_poc.Prelude.{
  true, inl, inr, Bool-cases, ◌==◌, ℕ, ◌≡◌, refl, sym, ap, ◌∙◌, subst, ◌≢◌, false, ℤ_eq, Text, ℕ_eq,
  text_eq, Result, ok, err, ok-injective,
}
use mtls_authentication_poc.Platform.{Platform, Time}
use mtls_authentication_poc.Storage.Challenges.{memory_challenge_store}
use mtls_authentication_poc.Storage.Devices.{
  MemoryDevices, is_device_active, DeviceRecord, memory_device_repo, get_device, revoke_device,
}
use mtls_authentication_poc.Storage.Devices.Memory.{
  memory_device_repo-IsLawful, get-revoke_device, get-revoke_serial,
}
use mtls_authentication_poc.Attestation.Types.{Decoders}
use mtls_authentication_poc.Http.{Request, Failure, json}
use mtls_authentication_poc.Handlers.Ping.{ProtectedResponse}
use mtls_authentication_poc.Handlers.Enroll.Request.{Decode}
use mtls_authentication_poc.Handlers.Enroll.Issue.{EnrollHandler, verify_submission}
use mtls_authentication_poc.Handlers.Enroll.Outcome.{
  NotRevoked, consume_challenge_keeps, refuse_revoked-eq-ok,
}
use mtls_authentication_poc.Handlers.Enroll.Registry.{sign_for-Holds}
use mtls_authentication_poc.Middleware.{DeviceIdentity}
use mtls_authentication_poc.Middleware.Interleaved.{
  authenticate_between, authenticate_between-IsSeen,
}
use mtls_authentication_poc.Server.Routes.{State, serve_mtls_port}
use mtls_authentication_poc.Server.Revoked.{serve_mtls_port-IsAuthentic}
use mtls_authentication_poc.Server.Threads.{
  Thread, arrived, consuming, verifying, identifying, checking, signing, answered, failed, resume,
  set, set_keeps, System, advance, advance_thread, Moves, thread_moved, challenge_issued, cleaned,
  device_revoked, serial_revoked, Reaches, here, next,
}

-- The thread has passed the check of the registry for `k`, and has not registered it yet.
abbrev pub IsSigning : (p : Platform) → Text → Thread p → Type 0
IsSigning p k (signing w sub attested identity) = k ≡ identity
IsSigning p k _ = ⊥

-- The registry holds `k` as revoked.
abbrev IsRevokedIn : Text → MemoryDevices → Type 0
IsRevokedIn k s =
    (device : DeviceRecord) × (get_device k s ≡ ok device) × (device.is_revoked ≡ true)

revoke_device-IsRevokedIn :
    (k j : Text) (s : MemoryDevices) → IsRevokedIn k s → IsRevokedIn k (revoke_device j s).0
revoke_device-IsRevokedIn k j s (device, holds, dead) = elim (Bool-cases (k == j)) [
  | inl same ↦
      (record device { is_revoked = true }, get-revoke_device j k s ∙ rw (same, holds) refl, refl)
  | inr other ↦ (device, get-revoke_device j k s ∙ rw (other, holds) refl, dead)
]

module _ (p : Platform) (d : Decoders) (decode : Decode) (h : EnrollHandler p) (k : Text) where
  -- The registry holds `k` as revoked, and no thread is about to register it.
  pub record IsShut (s : System p) : Type 0 where
    pub revoked : IsRevokedIn k s.shared.devices
    pub quiet : (i : ℕ) → ¬ IsSigning p k (s.threads i)

  resume-quiet {ℓ} :
      {A : Type ℓ} (f : A → Thread p) (r : Result Failure A)
      → ((a : A) → r ≡ ok a → ¬ IsSigning p k (f a))
      → ¬ IsSigning p k (resume p f r)
  resume-quiet f (ok a) g = g a refl
  resume-quiet f (err e) g = λ x. x

  module _ (s : State p) (revoked : IsRevokedIn k s.devices) where
    -- The check refuses a revoked identity, so a thread that passes it is for another.
    advance-quiet : (t : Thread p) → ¬ IsSigning p k (advance p d decode h t s).1
    unfolding advance
    advance-quiet (arrived w r) = resume-quiet (consuming w) _ (λ _ _ x. x)
    advance-quiet (consuming w sub) = resume-quiet (λ _. verifying w sub) _ (λ _ _ x. x)
    advance-quiet (verifying w sub) = resume-quiet (identifying w sub) _ (λ _ _ x. x)
    advance-quiet (identifying w sub attested) =
        resume-quiet (checking w sub attested) _ (λ _ _ x. x)
    advance-quiet (checking w sub attested identity) =
        resume-quiet (λ _. signing w sub attested identity) _
          (λ _ clear same.
            let (device, holds, dead) = revoked in
            let fresh =
              subst NotRevoked (ap (λ j. get_device j s.devices) (sym same) ∙ holds)
                (refuse_revoked-eq-ok p d (memory_challenge_store p) memory_device_repo _ clear) in
            cc (fresh, dead))
    advance-quiet (signing w sub attested identity) = resume-quiet (answered sub) _ (λ _ _ x. x)
    advance-quiet (answered sub resp) = λ x. x
    advance-quiet (failed e) = λ x. x

    advance-IsRevoked :
        (t : Thread p) → ¬ IsSigning p k t → IsRevokedIn k (advance p d decode h t s).0.devices
    unfolding advance verify_submission
    advance-IsRevoked (arrived w r) other = revoked
    advance-IsRevoked (consuming w sub) other =
        let (kept, _) =
          consume_challenge_keeps p d (memory_challenge_store p) memory_device_repo w.consumed_at
            h.policy sub.challenge s in
        subst (IsRevokedIn k) (sym kept) revoked
    advance-IsRevoked (verifying w sub) other = revoked
    advance-IsRevoked (identifying w sub attested) other = revoked
    advance-IsRevoked (checking w sub attested identity) other = revoked
    advance-IsRevoked (signing w sub attested identity) other =
        let (device, holds, dead) = revoked in
        (
          device,
          sign_for-Holds p d (memory_challenge_store p) memory_device_repo
              memory_device_repo-IsLawful k (ok device) w h sub attested identity s other holds,
          dead,
        )
    advance-IsRevoked (answered sub resp) other = revoked
    advance-IsRevoked (failed e) other = revoked

  set-quiet :
      (i : ℕ) (t : Thread p) (threads : ℕ → Thread p)
      → ¬ IsSigning p k t
      → ((j : ℕ) → ¬ IsSigning p k (threads j))
      → (j : ℕ) → ¬ IsSigning p k (set p i t threads j)
  set-quiet i t threads a b j =
      set_keeps p (λ u. ¬ IsSigning p k u) i t threads j (λ _. a) (λ _. b j)

  advance_thread-IsShut :
      (i : ℕ) (s : System p) → IsShut s → IsShut (advance_thread p d decode h i s)
  unfolding advance_thread
  advance_thread-IsShut i s q = record {
    revoked = advance-IsRevoked s.shared q.revoked (s.threads i) (q.quiet i);
    quiet = set-quiet i _ s.threads (advance-quiet s.shared q.revoked (s.threads i)) q.quiet;
  }

  Moves-IsShut : {s t : System p} → Moves p d decode h s t → IsShut s → IsShut t
  Moves-IsShut {s} (thread_moved i e) q = rw e (advance_thread-IsShut i s q)
  Moves-IsShut (challenge_issued random now ttl e) q =
      rw e (record { revoked = q.revoked; quiet = q.quiet })
  Moves-IsShut (cleaned now e) q = rw e (record { revoked = q.revoked; quiet = q.quiet })
  Moves-IsShut {s} (device_revoked j e) q = rw e (record {
    revoked = revoke_device-IsRevokedIn k j s.shared.devices q.revoked;
    quiet = q.quiet;
  })
  Moves-IsShut {s} (serial_revoked serial e) q =
      let (device, holds, dead) = q.revoked in
      rw e (record {
        revoked = (device, get-revoke_serial serial k s.shared.devices ∙ holds, dead);
        quiet = q.quiet;
      })

  Reaches-IsShut : {s t : System p} → Reaches p d decode h s t → IsShut s → IsShut t
  Reaches-IsShut here q = q
  Reaches-IsShut (next r m) q = Moves-IsShut m (Reaches-IsShut r q)

-- Whatever the order in which the steps of concurrent enrollments, cleanups and revocations follow each
-- other: once an identity is revoked, and no enrollment stands between its check of the registry and
-- its registration for that identity, the protected endpoint never again answers in its name.
pub revoked_concurrently :
    (p : Platform) (d : Decoders) (decode : Decode) (h : EnrollHandler p) (k : Text)
    (s t : System p) (now : Time) (r : Request p.Key) (status : ℕ) (resp : ProtectedResponse)
    → IsShut p d decode h k s
    → Reaches p d decode h s t
    → serve_mtls_port p now r t.shared ≡ json status resp
    → resp.client_identity ≢ k
revoked_concurrently p d decode h k s t now r status resp shut reach replied same =
    let (id, auth, named) = serve_mtls_port-IsAuthentic p now r t.shared status resp replied in
    let (device, holds, gone) = (Reaches-IsShut p d decode h k reach shut).revoked in
    let held = ok-injective _ _ (sym (rw (← named, same) at auth.registered) ∙ holds) in
    cc (auth.active, gone, ap (λ (q : DeviceRecord). q.is_revoked) held)

IsRevokedIn-inactive :
    (k : Text) (s : MemoryDevices) → IsRevokedIn k s → is_device_active k s ≡ false
IsRevokedIn-inactive k s (device, holds, dead) =
    memory_device_repo-IsLawful.active-get k s ∙ rw (holds, dead) refl

-- Whatever steps of concurrent enrollments, cleanups and revocations fall before the three reads of the
-- registry that the middleware makes for a request, and between them: once an identity is revoked, and
-- no enrollment stands between its check of the registry and its registration for that identity, no
-- request passes the middleware in its name.
pub revoked_between :
    (p : Platform) (d : Decoders) (decode : Decode) (h : EnrollHandler p) (k : Text)
    (s t1 t2 t3 : System p) (r : Request p.Key) (id : DeviceIdentity)
    → IsShut p d decode h k s
    → Reaches p d decode h s t1
    → Reaches p d decode h t1 t2
    → Reaches p d decode h t2 t3
    → authenticate_between p memory_device_repo t1.shared.devices t2.shared.devices
        t3.shared.devices r
      ≡ ok id
    → id.identity ≢ k
revoked_between p d decode h k s t1 t2 t3 r id shut first second third passed same =
    let seen = authenticate_between-IsSeen p memory_device_repo _ _ _ r id passed in
    let still = Reaches-IsShut p d decode h k second (Reaches-IsShut p d decode h k first shut) in
    let dead = IsRevokedIn-inactive k t2.shared.devices still.revoked in
    cc (rw same at seen.active, dead)
