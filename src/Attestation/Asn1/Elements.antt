-- ===== src/Attestation/Asn1/Elements.antt =====
-- The elements of an authorization list, said of the values that `asn1.Unmarshal` returns and not by the
-- helpers of backend/internal/attestation/verifier.go, and that those helpers find them.
use mtls_authentication_poc.Prelude.{
  ◌≡◌, refl, ap, ◌∙◌, sym, ◌≢◌, ◌⊎◌, inl, inr, none, some, List, [], ◌∷◌, arith, Option-cases, ℤ,
  pos, ℤ_eq, Bytes, ℕ_eq, text_eq, ok, or_fail, >>=-eq-ok, or_fail-eq-ok, ok-injective,
}
use mtls_authentication_poc.Platform.{Platform, RawValue}
use mtls_authentication_poc.Attestation.Types.{
  Decoders, RootOfTrust, PackageInfo, tag_root_of_trust,
}
use mtls_authentication_poc.Attestation.Asn1.{
  malformed, first_tagged, find_tagged, find_int_tag, find_root_of_trust,
  parse_attestation_application_id,
}

-- The first element with the tag is `raw`.
abbrev pub Holds : ℤ → List RawValue → RawValue → Type 0
Holds tag [] raw = ⊥
Holds tag (item ∷ items) raw =
    ((item.tag ≡ tag) × (item ≡ raw)) ⊎ ((item.tag ≢ tag) × Holds tag items raw)

-- No element has the tag.
abbrev pub Lacks : ℤ → List RawValue → Type 0
Lacks tag [] = Unit
Lacks tag (item ∷ items) = (item.tag ≢ tag) × Lacks tag items

first_tagged-Holds :
    (tag : ℤ) (items : List RawValue) (raw : RawValue)
    → first_tagged tag items ≡ some raw
    → Holds tag items raw
unfolding first_tagged
first_tagged-Holds tag [] raw h = cc
first_tagged-Holds tag (item ∷ items) raw h = ground (arith, first_tagged-Holds tag items raw)

first_tagged-Lacks :
    (tag : ℤ) (items : List RawValue) → first_tagged tag items ≡ none → Lacks tag items
unfolding first_tagged
first_tagged-Lacks tag [] h = tt
first_tagged-Lacks tag (item ∷ items) h = ground (arith, first_tagged-Lacks tag items)

module _ (p : Platform) where
  -- The bytes are a sequence of these elements; no bytes are one of none.
  abbrev Sequence : Bytes → List RawValue → Type 0
  Sequence bytes items = ((bytes ≡ []) × (items ≡ [])) ⊎ (p.unmarshal_raw_values bytes ≡ some items)

  pub record Element (bytes : Bytes) (tag : ℤ) (raw : RawValue) : Type 0 where
    pub items : List RawValue
    pub sequence : Sequence bytes items
    pub holds : Holds tag items raw

  pub record Absent (bytes : Bytes) (tag : ℤ) : Type 0 where
    pub items : List RawValue
    pub sequence : Sequence bytes items
    pub lacks : Lacks tag items

  pub find_tagged-Element :
      (bytes : Bytes) (tag : ℤ) (raw : RawValue)
      → find_tagged p bytes tag ≡ ok (some raw)
      → Element bytes tag raw
  unfolding find_tagged
  find_tagged-Element [] tag raw h = cc
  find_tagged-Element (b ∷ bs) tag raw h =
      let (items, e, h1) = >>=-eq-ok (or_fail (p.unmarshal_raw_values (b ∷ bs)) malformed) _ h in
      record {
        items = items;
        sequence = inr (or_fail-eq-ok _ _ e);
        holds = first_tagged-Holds tag items raw (ok-injective _ _ h1);
      }

  pub find_tagged-Absent :
      (bytes : Bytes) (tag : ℤ) → find_tagged p bytes tag ≡ ok none → Absent bytes tag
  unfolding find_tagged
  find_tagged-Absent [] tag h = record { items = []; sequence = inl (refl, refl); lacks = tt }
  find_tagged-Absent (b ∷ bs) tag h =
      let (items, e, h1) = >>=-eq-ok (or_fail (p.unmarshal_raw_values (b ∷ bs)) malformed) _ h in
      record {
        items = items;
        sequence = inr (or_fail-eq-ok _ _ e);
        lacks = first_tagged-Lacks tag items (ok-injective _ _ h1);
      }

  -- The integer at the tag, which is 0 where there is none.
  abbrev pub Reads : Bytes → ℤ → ℤ → Type 0
  Reads bytes tag value =
      ((raw : RawValue) × Element bytes tag raw × (p.unmarshal_int raw.bytes ≡ some value))
      ⊎ (Absent bytes tag × (value ≡ pos 0))

  pub find_int_tag-Reads :
      (bytes : Bytes) (tag value : ℤ) → find_int_tag p bytes tag ≡ ok value → Reads bytes tag value
  unfolding find_int_tag
  find_int_tag-Reads bytes tag value h =
      let (found, e, h1) = >>=-eq-ok (find_tagged p bytes tag) _ h in
      elim (Option-cases found) [
        | inl nothing ↦ inr (
          find_tagged-Absent bytes tag (e ∙ ap ok nothing),
          sym (ok-injective _ _ (rw nothing at h1)),
        )
        | inr (raw, there) ↦ inl (
          raw,
          find_tagged-Element bytes tag raw (e ∙ ap ok there),
          or_fail-eq-ok _ _ (rw there at h1),
        )
      ]

  -- The root of trust of a list.
  abbrev pub Roots : Decoders → Bytes → RootOfTrust → Type 0
  Roots d bytes rot =
      (raw : RawValue) × Element bytes (pos 704) raw × (d.root_of_trust raw.bytes ≡ some rot)

  pub find_root_of_trust-Roots :
      (d : Decoders) (bytes : Bytes) (rot : RootOfTrust)
      → find_root_of_trust p d bytes ≡ ok (some rot)
      → Roots d bytes rot
  unfolding find_root_of_trust
  find_root_of_trust-Roots d bytes rot h =
      let (found, e, h1) = >>=-eq-ok (find_tagged p bytes tag_root_of_trust) _ h in
      elim (Option-cases found) [
        | inl nothing ↦ cc (rw nothing at h1)
        | inr (raw, there) ↦
            let (r, f, h2) =
              >>=-eq-ok (or_fail (d.root_of_trust raw.bytes) malformed) _ (rw there at h1) in
            (
              raw,
              find_tagged-Element bytes tag_root_of_trust raw (e ∙ ap ok there),
              or_fail-eq-ok _ _ f ∙ ok-injective _ _ h2,
            )
      ]

  pub find_root_of_trust-Absent :
      (d : Decoders) (bytes : Bytes)
      → find_root_of_trust p d bytes ≡ ok none
      → Absent bytes (pos 704)
  unfolding find_root_of_trust
  find_root_of_trust-Absent d bytes h =
      let (found, e, h1) = >>=-eq-ok (find_tagged p bytes tag_root_of_trust) _ h in
      elim (Option-cases found) [
        | inl nothing ↦ find_tagged-Absent bytes tag_root_of_trust (e ∙ ap ok nothing)
        | inr (raw, there) ↦
            let (r, f, h2) =
              >>=-eq-ok (or_fail (d.root_of_trust raw.bytes) malformed) _ (rw there at h1) in
            cc
      ]

  -- The packages in an octet string.
  pub record Packages (d : Decoders) (bytes : Bytes) (packages : List PackageInfo) : Type 0 where
    pub octet : RawValue
    pub unwrapped : p.unmarshal_raw_value bytes ≡ some octet
    pub listed : d.application_id octet.bytes ≡ some packages

  pub parse_attestation_application_id-Packages :
      (d : Decoders) (bytes : Bytes) (packages : List PackageInfo)
      → parse_attestation_application_id p d bytes ≡ ok packages
      → Packages d bytes packages
  unfolding parse_attestation_application_id
  parse_attestation_application_id-Packages d bytes packages h =
      let (octet, e, h1) = >>=-eq-ok (or_fail (p.unmarshal_raw_value bytes) malformed) _ h in
      record { octet = octet; unwrapped = or_fail-eq-ok _ _ e; listed = or_fail-eq-ok _ _ h1 }
