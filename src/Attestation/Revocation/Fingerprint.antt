-- ===== src/Attestation/Revocation/Fingerprint.antt =====
-- `PublicKeyFingerprint` of backend/internal/attestation/revocation.go, the identity of a device.
use mtls_authentication_poc.Prelude.{
  ◌≡◌, sym, ◌∙◌, inl, inr, Option, some, arith, Option-cases, ℤ_eq, Bytes, Text, ℕ_eq, text_eq,
}
use mtls_authentication_poc.Platform.{Platform, hex_encode, hex_encode_injective}
use mtls_authentication_poc.Platform.Laws.{IsStandard}
use mtls_authentication_poc.Attestation.Revocation.{public_key_fingerprint}

fingerprint-digest :
    (p : Platform) (key : Option p.Key) (id : Text)
    → public_key_fingerprint p key ≡ some id
    → (der : Bytes) × (p.marshal_public_key key ≡ some der) × (id ≡ hex_encode (p.sha256 der))
unfolding public_key_fingerprint
fingerprint-digest p key id h = elim (Option-cases (p.marshal_public_key key)) [
  | inl missing ↦ ground arith
  | inr (der, e) ↦ (der, e, ground arith)
]

-- If the standard library behaves as documented, two keys with the same fingerprint have encodings
-- with the same digest.
pub public_key_fingerprint_injective :
    (p : Platform) (key other : Option p.Key) (id : Text)
    → IsStandard p
    → public_key_fingerprint p key ≡ some id
    → public_key_fingerprint p other ≡ some id
    → (x : Bytes) × (y : Bytes) × (p.marshal_public_key key ≡ some x)
      × (p.marshal_public_key other ≡ some y)
      × (p.sha256 x ≡ p.sha256 y)
public_key_fingerprint_injective p key other id std h k =
    let (x, e, f) = fingerprint-digest p key id h in
    let (y, g, l) = fingerprint-digest p other id k in
    (
      x,
      y,
      e,
      g,
      hex_encode_injective (p.sha256 x) (p.sha256 y) (std.sha256_bytes x) (std.sha256_bytes y)
          (sym f ∙ l),
    )
