-- ===== src/Storage.antt =====
-- backend/internal/storage: the device registry and the store of attestation challenges.
pub mod Devices
pub mod Challenges
