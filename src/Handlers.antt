-- ===== src/Handlers.antt =====
-- backend/internal/handlers: the three HTTP handlers.
pub mod Challenge
pub mod Enroll
pub mod Ping
