-- ===== src/Ca.antt =====
-- backend/internal/ca: the certificate authority, and the files that it is kept in.
pub mod Signer
pub mod CertPool
pub mod Bootstrap
