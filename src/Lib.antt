-- ===== src/Lib.antt =====
-- The Go backend of a proof of concept for mTLS device authentication: a device proves by an Android
-- key attestation that its key lives in hardware, receives a client certificate for that key, and
-- presents it to the protected endpoints.
--
-- The parts, with the files that model them (paths from the repository's root):
-- - Platform: the Go standard library as the code uses it. Certificates and ASN.1 values are records;
--   parsing, signatures, hashing, PEM and base64 are the fields of a record that every definition
--   takes. Platform/Laws states what is assumed of them (`IsStandard`): a nil key has no encoding, a
--   digest is 32 bytes, a certificate created from a template has its fields.
-- - Storage/Devices: backend/internal/storage/device_repo.go, `DeviceRepo` as a record of operations
--   on a state, its laws, and the in-memory implementation.
-- - Storage/Challenges: backend/internal/storage/challenge_store.go in the same way, with the rounds
--   of `cleanupWorker`. The mutexes make each call one step.
-- - Attestation/Types, Asn1, Description, Verifier: backend/internal/attestation/types.go and
--   verifier.go. Asn1/Elements and Description/Sources say what the lists of a key description hold,
--   by the values that the ASN.1 parser returns. Each `return nil, err` of `VerifyAttestation` is a constructor of `VerifyError`.
-- - Attestation/Revocation: backend/internal/attestation/revocation.go. The client's cached list is
--   its state; the clock and the server's answer are arguments of a call.
-- - Attestation/Roots: `NewGoogleRootCertPool` of backend/internal/attestation/google_root.go, and
--   `NewVerifier`; Attestation/Roots/Google holds the embedded texts.
-- - Ca/Signer: backend/internal/ca/signer.go, `GenerateCA`, `LoadCA` and `SignCSR`. Ca/CertPool:
--   backend/internal/ca/cert_pool.go.
-- - Ca/Bootstrap: backend/internal/ca/bootstrap.go. The file system is a parameter whose laws
--   (`IsFileSystem`) say that a call changes no file but the one that it writes, for paths of which no
--   two name the same file.
-- - Certgen: backend/cmd/certgen/main.go over the calls of package os (`IsOs` states what is assumed of
--   them), with -force, and with the copy for Android.
-- - Config: backend/internal/config/config.go, with the wrap-around of the products of durations.
-- - Middleware: backend/internal/middleware/mtls_auth.go, `MtlsAuthMiddleware`. Middleware/Interleaved is
--   the same with the calls of others between its three reads of the registry.
-- - Http, Handlers: backend/internal/handlers. A handler is a chain of steps on the state of the
--   stores and of the revocation client that may end in `http.Error`. Handlers/Enroll/Request reads a
--   request; Handlers/Enroll/Issue consumes the challenge, verifies, signs and registers.
-- - Server: the policy, the verifier and the routes of backend/cmd/server/main.go. Server/Startup is the start of the command up to its two listeners, with their TLS settings, and
--   Server/Logging the recorder that its request logger puts around a writer.
-- - Server/Threads: concurrent enrollments. A request is a thread whose steps are the calls on the
--   shared stores, and these come in any order with those of the others, with cleanups and with
--   revocations (`Moves`, `Reaches`).
--
-- The handlers take the stores through their interfaces (`ChallengeStore`, `DeviceRepo` with
-- `IsLawful`), so that the theorems hold for every implementation that meets the laws; Server takes
-- the in-memory ones. The map from theorems to files follows the code: Verifier/Soundness is about
-- Verifier, Enroll/Outcome about Enroll/Issue, and so on. Tests holds a platform small enough to
-- compute with, one enrollment on it, and the theorems at that example.
--
-- Every function is total: its loops run over lists, or over the digits of a number with one round
-- more than there are digits. The chain is limited to 16 certificates, the body of a request to 256
-- KiB and a status list to 4 MiB, as in the code. A Go `int` is an unbounded integer where the code
-- only compares it. A clock is an argument wherever the code reads it, so that no order of its
-- readings is assumed.
--
-- Not modelled: the TLS handshake, the callbacks of `attachTLSInspectors`, which log and keep the
-- settings, the redirects of `http.ServeMux` for paths that are not clean, the texts that are logged and
-- the shutdown of backend/cmd/server/main.go; the interleaving of the lookups of one attestation with the refreshes of
-- other requests, which is one step of a thread; `shortIdentity`, which only shortens what is logged;
-- and the Android client.
pub mod Prelude
pub mod Platform
pub mod Config
pub mod Certgen
pub mod Storage
pub mod Attestation
pub mod Ca
pub mod Http
pub mod Middleware
pub mod Handlers
pub mod Server
pub mod Tests
