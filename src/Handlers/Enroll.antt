-- ===== src/Handlers/Enroll.antt =====
-- backend/internal/handlers/enroll_handler.go. The handler is a chain of steps on the state that it
-- shares with the rest of the server: the challenges, the registry and the revocation client.
pub mod Request
pub mod Issue
pub mod Read
pub mod Outcome
pub mod Registry
pub mod Kept
pub mod Failed
pub mod Live
pub mod Security
pub mod Superseded
