-- ===== src/Server/Threads.antt =====
-- backend/internal/handlers/enroll_handler.go as the goroutines of net/http run it: one thread per
-- request, and between two calls on a shared store any other thread, a round of the cleanup, an issued
-- challenge or a revocation. A call that takes a mutex is one step. The attestation is one step too,
-- though it consults the revocation client once for each certificate of the chain.
pub mod Alone
pub mod Revoked
pub mod Consumed
pub mod Exclusive
pub mod Vouched
pub mod Attested
use mtls_authentication_poc.Prelude.{
  ℕ, ◌≡◌, refl, ite, Option, arith, ℕ_discrete, ℤ_discrete, ℤ_eq, Bytes, Text, text_discrete, ℕ_eq,
  text_eq, Result, ok, err, ◌>>=◌, ◌>>◌, or_fail,
}
use mtls_authentication_poc.Platform.{Platform, Time, Duration}
use mtls_authentication_poc.Storage.Challenges.{
  memory_challenge_store, generate_and_store_challenge, cleanup,
}
use mtls_authentication_poc.Storage.Devices.{
  memory_device_repo, get_device, revoke_device, revoke_serial,
}
use mtls_authentication_poc.Attestation.Types.{Decoders, AttestationRecord}
use mtls_authentication_poc.Attestation.Revocation.{public_key_fingerprint}
use mtls_authentication_poc.Http.{Request, Failure, http_error}
use mtls_authentication_poc.Handlers.Enroll.Request.{Decode, Submission, read_submission}
use mtls_authentication_poc.Handlers.Enroll.Issue.{
  EnrollHandler, EnrollResponse, EnrollWorld, consume_challenge, verify_submission, refuse_revoked,
  sign_for,
}
use mtls_authentication_poc.Server.Routes.{State}

-- Where a request stands: before it is read, before its challenge is consumed, before its attestation,
-- before its identity is derived, before the registry is asked for it, before it is signed and
-- registered, and at the end.
pub data Thread (p : Platform) : Type 0 where
  arrived : EnrollWorld → Request p.Key → Thread p
  consuming verifying : EnrollWorld → Submission p → Thread p
  identifying : EnrollWorld → Submission p → AttestationRecord → Thread p
  checking signing : EnrollWorld → Submission p → AttestationRecord → Text → Thread p
  answered : Submission p → EnrollResponse → Thread p
  failed : Failure → Thread p

module _ (p : Platform) where
  -- The thread has not got to the stores yet.
  abbrev pub IsArrived : Thread p → Type 0
  IsArrived (arrived w r) = Unit
  IsArrived _ = ⊥

  -- The thread goes on with a result, or ends by `http.Error`.
  abbrev pub resume {ℓ} : {A : Type ℓ} → (A → Thread p) → Result Failure A → Thread p
  resume f (ok a) = f a
  resume f (err e) = failed e

  pub resume_keeps {ℓ κ} :
      {A : Type ℓ} (P : Thread p → Type κ) (f : A → Thread p) (r : Result Failure A)
      → ((a : A) → r ≡ ok a → P (f a))
      → ((e : Failure) → P (failed e))
      → P (resume f r)
  resume_keeps P f (ok a) g k = g a refl
  resume_keeps P f (err e) g k = k e

  abbrev pub set : ℕ → Thread p → (ℕ → Thread p) → ℕ → Thread p
  set i thread threads j = ite (ℕ_discrete j i) thread (threads j)

  ite_keeps {ℓ κ} :
      {X : Type ℓ} (P : Thread p → Type κ) (q : Dec X) (a b : Thread p)
      → (X → P a)
      → (¬ X → P b)
      → P (ite q a b)
  ite_keeps P (yes same) a b f g = f same
  ite_keeps P (no other) a b f g = g other

  -- What holds of each thread after one of them has changed.
  pub set_keeps {κ} :
      (P : Thread p → Type κ) (i : ℕ) (thread : Thread p) (threads : ℕ → Thread p) (j : ℕ)
      → (j ≡ i → P thread)
      → (¬ (j ≡ i) → P (threads j))
      → P (set i thread threads j)
  set_keeps P i thread threads j f g = ite_keeps P (ℕ_discrete j i) thread (threads j) f g

  -- The stores that the threads share, and the threads.
  pub record System : Type 0 where
    pub shared : State p
    pub threads : ℕ → Thread p

module _ (p : Platform) (d : Decoders) (decode : Decode) (h : EnrollHandler p) where
  unfoldable pub advance : Thread p → State p → State p × Thread p
  advance (arrived w r) s = (s, resume p (consuming w) (read_submission p d decode h.policy r))
  advance (consuming w sub) s =
      let consumed =
        consume_challenge p d (memory_challenge_store p) memory_device_repo w.consumed_at h.policy
          sub.challenge s in
      (consumed.0, resume p (λ _. verifying w sub) consumed.1)
  advance (verifying w sub) s =
      let verified =
        verify_submission p d (memory_challenge_store p) memory_device_repo w.verification h sub
          s in
      (verified.0, resume p (identifying w sub) verified.1)
  advance (identifying w sub attested) s = (
    s,
    resume p (checking w sub attested) (
        or_fail (public_key_fingerprint p sub.csr.public_key)
          (http_error 500 "failed to derive device identity")),
  )
  advance (checking w sub attested identity) s = (
    s,
    resume p (λ _. signing w sub attested identity)
        (refuse_revoked p d (memory_challenge_store p) memory_device_repo
          (get_device identity s.devices)),
  )
  advance (signing w sub attested identity) s =
      let signed =
        sign_for p d (memory_challenge_store p) memory_device_repo w h sub attested identity s in
      (signed.0, resume p (answered sub) signed.1)
  advance (answered sub resp) s = (s, answered sub resp)
  advance (failed e) s = (s, failed e)

  -- A step of thread `i`.
  unfoldable pub advance_thread : ℕ → System p → System p
  advance_thread i s =
      let advanced = advance (s.threads i) s.shared in
      record { shared = advanced.0; threads = set p i advanced.1 s.threads }

  pub data Moves (s t : System p) : Type 0 where
    thread_moved : (i : ℕ) → t ≡ advance_thread i s → Moves s t
    challenge_issued :
        (random : Option Bytes) (now : Time) (ttl : Duration)
        → t ≡ record s {
          shared = record (s.shared) {
            challenges = (generate_and_store_challenge p random now ttl s.shared.challenges).0;
          };
        }
        → Moves s t
    cleaned :
        (now : Time)
        → t
          ≡ record s { shared = record (s.shared) { challenges = cleanup now s.shared.challenges } }
        → Moves s t
    device_revoked :
        (k : Text)
        → t ≡ record s {
          shared = record (s.shared) { devices = (revoke_device k s.shared.devices).0 };
        }
        → Moves s t
    serial_revoked :
        (serial : Text)
        → t ≡ record s {
          shared = record (s.shared) { devices = (revoke_serial serial s.shared.devices).0 };
        }
        → Moves s t

  pub data Reaches (s : System p) : System p → Type 0 where
    here : Reaches s s
    next : {t u : System p} → Reaches s t → Moves t u → Reaches s u
