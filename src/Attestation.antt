-- ===== src/Attestation.antt =====
-- backend/internal/attestation: verification of Android key attestations.
pub mod Types
pub mod Revocation
pub mod Asn1
pub mod Description
pub mod Verifier
pub mod Roots
