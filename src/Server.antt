-- ===== src/Server.antt =====
-- backend/cmd/server/main.go: the policy that the configuration selects, the two multiplexers, the
-- start up to the listeners, and concurrent requests over the shared stores.
pub mod Routes
pub mod Policy
pub mod Verifying
pub mod Revoked
pub mod Threads
pub mod Attested
pub mod Startup
pub mod Logging
pub mod Started
pub mod EndToEnd
