-- ===== src/Server/Revoked.antt =====
-- Whom the protected endpoint answers, and what an enrollment does to an overlapping revocation.
use mtls_authentication_poc.Prelude.{
  ℕ, ◌≡◌, refl, ap, ◌∙◌, inl, inr, true, false, some, arith, ◌==◌, Bool-cases, ==_refl, ℤ_eq, Text,
  codes, ℕ_eq, text_eq, ok, Result-cases,
}
use mtls_authentication_poc.Platform.{Platform, Time}
use mtls_authentication_poc.Storage.Challenges.{memory_challenge_store}
use mtls_authentication_poc.Storage.Devices.{
  DeviceRecord, MemoryDevices, memory_device_repo, get_device, revoke_device, is_device_active,
}
use mtls_authentication_poc.Storage.Devices.Memory.{memory_device_repo-IsLawful, get-revoke_device}
use mtls_authentication_poc.Storage.Devices.Laws.{is_active}
use mtls_authentication_poc.Attestation.Types.{Decoders, AttestationRecord}
use mtls_authentication_poc.Http.{Request, json, http_error}
use mtls_authentication_poc.Middleware.{DeviceIdentity, authenticate, mtls_auth_middleware}
use mtls_authentication_poc.Middleware.Guarantee.{IsAuthentic, authenticate-IsAuthentic}
use mtls_authentication_poc.Handlers.Ping.{ProtectedResponse, serve_ping}
use mtls_authentication_poc.Handlers.Enroll.Request.{Submission}
use mtls_authentication_poc.Handlers.Enroll.Issue.{
  EnrollHandler, EnrollResponse, EnrollWorld, sign_for, check_revoked,
}
use mtls_authentication_poc.Handlers.Enroll.Registry.{sign_for-registered}
use mtls_authentication_poc.Server.Routes.{State, serve_mtls_port}

serve_ping-identity :
    (p : Platform) (now : Time) (id : DeviceIdentity) (r : Request p.Key) (status : ℕ)
    (resp : ProtectedResponse)
    → serve_ping p now (some id) r ≡ json status resp
    → resp.client_identity ≡ id.identity
unfolding serve_ping
serve_ping-identity p now id r status resp h = ground arith

-- A JSON reply of the protected handler goes to an authentic request.
pub serve_mtls_port-IsAuthentic :
    (p : Platform) (now : Time) (r : Request p.Key) (s : State p) (status : ℕ)
    (resp : ProtectedResponse)
    → serve_mtls_port p now r s ≡ json status resp
    → (id : DeviceIdentity) × IsAuthentic p memory_device_repo s.devices r id
      × (resp.client_identity ≡ id.identity)
unfolding serve_mtls_port mtls_auth_middleware
serve_mtls_port-IsAuthentic p now r s status resp h =
    elim (Bool-cases (r.path == codes "/api/v1/protected/ping")) [
      | inr other ↦ ground arith
      | inl ping ↦ elim (Result-cases (authenticate p memory_device_repo (some s.devices) r)) [
        | inl (id, passed) ↦ (
          id,
          authenticate-IsAuthentic p memory_device_repo memory_device_repo-IsLawful s.devices r id
              passed,
          serve_ping-identity p now id r status resp (ground arith),
        )
        | inr (http_error code message, refused) ↦ ground arith
      ]
    ]

revoke_device-inactive :
    (k : Text) (s : MemoryDevices) (device : DeviceRecord)
    → get_device k s ≡ ok device
    → is_device_active k (revoke_device k s).0 ≡ false
revoke_device-inactive k s device holds =
    memory_device_repo-IsLawful.active-get k _
    ∙ (ap is_active (get-revoke_device k k s) ∙ rw (==_refl k, holds) refl)

-- The check of the registry and the registration are separate critical sections of an enrollment.
-- For an identity that is registered and not revoked, the check passes; a revocation between the
-- two takes effect; and if the enrollment goes on to succeed, the identity is active again.
pub enroll_race :
    (p : Platform) (d : Decoders) (w : EnrollWorld) (h : EnrollHandler p) (sub : Submission p)
    (attested : AttestationRecord) (k : Text) (s : State p) (device : DeviceRecord)
    (resp : EnrollResponse)
    → get_device k s.devices ≡ ok device
    → device.is_revoked ≡ false
    → (sign_for p d
        (memory_challenge_store p)
        memory_device_repo
        w
        h
        sub
        attested
        k
        (record s { devices = (revoke_device k s.devices).0 })).1
      ≡ ok resp
    → ((check_revoked p d (memory_challenge_store p) memory_device_repo k s).1 ≡ ok tt)
      × (is_device_active k (revoke_device k s.devices).0 ≡ false)
      × (is_device_active k
            (sign_for p d
              (memory_challenge_store p)
              memory_device_repo
              w
              h
              sub
              attested
              k
              (record s { devices = (revoke_device k s.devices).0 })).0.devices
          ≡ true)
enroll_race p d w h sub attested k s device resp holds live e =
    let (r, registered, fresh) =
      sign_for-registered p d (memory_challenge_store p) memory_device_repo
        memory_device_repo-IsLawful w h sub attested k
        (record s { devices = (revoke_device k s.devices).0 }) resp e in
    (
      rw (holds, live) refl,
      revoke_device-inactive k s.devices device holds,
      memory_device_repo-IsLawful.active-get k _ ∙ (ap is_active registered ∙ rw fresh refl),
    )
