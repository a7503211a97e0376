-- ===== src/Tests/Concurrent.antt =====
-- The theorems on concurrent enrollments: two requests with one challenge, step by step.
use mtls_authentication_poc.Prelude.{
  ℕ, ◌≡◌, refl, ◌≢◌, some, [], ◌∷◌, arith, pos, ℤ_eq, codes, ℕ_eq, text_eq, ok,
}
use mtls_authentication_poc.Storage.Devices.{memory_device_repo}
use mtls_authentication_poc.Http.{Request, json, method_get}
use mtls_authentication_poc.Middleware.Interleaved.{
  check_registry_between, authenticate_certificate_between, authenticate_between,
}
use mtls_authentication_poc.Middleware.{
  DeviceIdentity, identity_of, check_key, check_registry, consult_registry,
  authenticate_certificate, authenticate, mtls_auth_middleware,
}
use mtls_authentication_poc.Handlers.Ping.{ProtectedResponse, serve_ping}
use mtls_authentication_poc.Server.Routes.{serve_mtls_port}
use mtls_authentication_poc.Server.EndToEnd.{pong}
use mtls_authentication_poc.Server.Threads.{
  arrived, answered, System, advance, advance_thread, Reaches, here, next, thread_moved,
}
use mtls_authentication_poc.Server.Threads.Revoked.{IsShut, revoked_concurrently, revoked_between}
use mtls_authentication_poc.Server.Threads.Exclusive.{answered_exclusively}
use mtls_authentication_poc.Tests.Toy.{device_id, toy, decoders, issued, root}
use mtls_authentication_poc.Tests.Run.{
  device, library, world, handler, decode, post, start, submission, retired, granted,
}

abbrev waiting : System toy
waiting = record { shared = start; threads = λ i. arrived world post }

-- Thread 0 comes to its end, while thread 1 is read after the first has consumed the challenge.
abbrev step : ℕ → System toy → System toy
step = advance_thread toy decoders decode handler

abbrev later : System toy
later = step 0 (step 0 (step 0 (step 1 (step 0 (step 1 (step 0 (step 0 waiting)))))))

abbrev reached : Reaches toy decoders decode handler waiting later
reached =
    next
      (next
        (next
          (next
            (next
              (next (next (next here (thread_moved 0 refl)) (thread_moved 0 refl))
                (thread_moved 1 refl))
              (thread_moved 0 refl))
            (thread_moved 1 refl))
          (thread_moved 0 refl))
        (thread_moved 0 refl))
      (thread_moved 0 refl)

later_run : later.threads 0 ≡ answered submission granted
unfolding library advance advance_thread
later_run = refl

answered_exclusively_example : later.threads 1 ≢ answered submission granted
answered_exclusively_example =
    answered_exclusively toy decoders decode handler (77 ∷ []) refl waiting later reached 0 1
      submission submission granted granted (λ k. tt)
      ((((((((tt, tt), tt), tt), tt), tt), tt), tt), tt) later_run refl refl (λ e. omega arith)

-- An identity was revoked before any of this.
shut : IsShut toy decoders decode handler (codes "old") waiting
unfolding library
shut = record { revoked = (retired, refl, refl); quiet = λ i q. q }

abbrev ping : Request ℕ
ping = record {
  method = method_get;
  path = codes "/api/v1/protected/ping";
  body = [];
  peer_certificates = some (issued ∷ root ∷ []);
}

abbrev reply : ProtectedResponse
reply = pong toy (pos 9) granted (codes "7")

answered_run : serve_mtls_port toy (pos 9) ping later.shared ≡ json 200 reply
unfolding library advance advance_thread identity_of check_key check_registry consult_registry
    authenticate_certificate authenticate mtls_auth_middleware serve_ping serve_mtls_port
answered_run = refl

revoked_concurrently_example : reply.client_identity ≢ codes "old"
revoked_concurrently_example =
    revoked_concurrently toy decoders decode handler (codes "old") waiting later (pos 9) ping 200
      reply shut reached answered_run

abbrev identified : DeviceIdentity
identified = record {
  identity = device_id;
  label = codes "pixel-9";
  cert_serial = codes "7";
  record' = some device;
}

passed_run :
    authenticate_between toy memory_device_repo later.shared.devices later.shared.devices
      (step 1 later).shared.devices
      ping
    ≡ ok identified
unfolding library advance advance_thread identity_of check_key check_registry_between
    authenticate_certificate_between authenticate_between
passed_run = refl

revoked_between_example : identified.identity ≢ codes "old"
revoked_between_example =
    revoked_between toy decoders decode handler (codes "old") waiting later later (step 1 later)
      ping identified shut reached here (next here (thread_moved 1 refl)) passed_run
