-- ===== src/Attestation/Asn1.antt =====
-- The helpers of backend/internal/attestation/verifier.go that walk an authorization list.
pub mod Elements
use mtls_authentication_poc.Prelude.{
  Option, none, some, List, [], ◌∷◌, if◌then◌else◌, ◌==◌, ℤ, pos, ℤ_eq, Bytes, ℕ_eq, text_eq,
  Result, ok, ◌>>=◌, or_fail,
}
use mtls_authentication_poc.Platform.{Platform, RawValue}
use mtls_authentication_poc.Attestation.Types.{
  Decoders, RootOfTrust, PackageInfo, tag_root_of_trust,
}

pub data Asn1Error : Type 0 where
  malformed : Asn1Error

-- The loop of `findTagged`.
unfoldable pub first_tagged : ℤ → List RawValue → Option RawValue
first_tagged tag [] = none
first_tagged tag (item ∷ items) = if item.tag == tag then some item else first_tagged tag items

module _ (p : Platform) where
  unfoldable pub find_tagged : Bytes → ℤ → Result Asn1Error (Option RawValue)
  unfolding first_tagged
  find_tagged [] tag = ok none
  find_tagged (b ∷ bs) tag = do
    raw_items ← or_fail (p.unmarshal_raw_values (b ∷ bs)) malformed
    ok (first_tagged tag raw_items)

  unfoldable pub find_int_tag : Bytes → ℤ → Result Asn1Error ℤ
  unfolding find_tagged
  find_int_tag raw_seq tag = do
    found ← find_tagged raw_seq tag
    elim found [ none ↦ ok (pos 0) | some raw ↦ or_fail (p.unmarshal_int raw.bytes) malformed ]

  unfoldable pub find_root_of_trust : Decoders → Bytes → Result Asn1Error (Option RootOfTrust)
  unfolding find_tagged
  find_root_of_trust d raw_seq = do
    found ← find_tagged raw_seq tag_root_of_trust
    elim found [
      | none ↦ ok none
      | some raw ↦ do rot ← or_fail (d.root_of_trust raw.bytes) malformed; ok (some rot)
    ]

  unfoldable pub parse_attestation_application_id :
      Decoders → Bytes → Result Asn1Error (List PackageInfo)
  parse_attestation_application_id d raw = do
    octet ← or_fail (p.unmarshal_raw_value raw) malformed
    or_fail (d.application_id octet.bytes) malformed
