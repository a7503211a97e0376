-- ===== src/Server/Attested.antt =====
-- What it is that every identity of the registry has been attested.
use mtls_authentication_poc.Prelude.{
  ◌≡◌, refl, sym, ◌∙◌, inl, inr, Option, some, List, [], arith, ◌==◌, Bool-cases, ℤ_eq, all,
  Required, true, false, Bytes, Text, ℕ_eq, text_eq, Result, ok, err,
}
use mtls_authentication_poc.Platform.{Platform, hex_encode}
use mtls_authentication_poc.Storage.Challenges.{memory_challenge_store}
use mtls_authentication_poc.Storage.Devices.{
  DeviceRecord, RepoError, MemoryDevices, memory_device_repo, get_device, revoke_device,
}
use mtls_authentication_poc.Storage.Devices.Memory.{get-revoke_device}
use mtls_authentication_poc.Storage.Devices.Laws.{revoked}
use mtls_authentication_poc.Attestation.Types.{Decoders, AttestationRecord}
use mtls_authentication_poc.Attestation.Revocation.{RevocationStatusClient}
use mtls_authentication_poc.Attestation.Verifier.{World}
use mtls_authentication_poc.Attestation.Verifier.Client.{HasClient}
use mtls_authentication_poc.Attestation.Verifier.Soundness.{IsTrusted}
use mtls_authentication_poc.Handlers.Enroll.Issue.{EnrollHandler, verifier_of}
use mtls_authentication_poc.Prelude.Dict.{lookup}

module _ (p : Platform) (d : Decoders) (h : EnrollHandler p) (I : Text → Type 0) where
  -- The identity is the digest of a key for which a chain was trusted by the handler's verifier, with a
  -- challenge of which `I` holds.
  pub record IsAttested (k : Text) : Type 0 where
    pub key : p.Key
    pub der : Bytes
    pub encoded : p.marshal_public_key (some key) ≡ some der
    pub identity : k ≡ hex_encode (p.sha256 der)
    pub world : World
    pub client : Option RevocationStatusClient
    pub chain : List Bytes
    pub challenge : Bytes
    pub issued : I (p.base64_encode challenge)
    pub report : AttestationRecord
    pub armed : Required h.policy.check_revocation_list (HasClient client)
    pub trusted :
        IsTrusted p d world
          (verifier_of p d (memory_challenge_store p) memory_device_repo h client)
          chain
          challenge
          (some key)
          report

  -- The chain of the attestation leads to the roots.
  pub record IsAdmitted (k : Text) : Type 0 where
    pub attested : IsAttested k
    pub rooted :
        p.verify_chain attested.world.verified_at h.root_pool attested.trusted.intermediates
          attested.trusted.leaf
        ≡ true

  pub IsAttested-IsAdmitted :
      (k : Text) → h.policy.skip_chain_validation ≡ false → IsAttested k → IsAdmitted k
  IsAttested-IsAdmitted k chained a = record {
    attested = a;
    rooted = elim a.trusted.rooted [ inl skipped ↦ cc (skipped, chained) | inr rooted ↦ rooted ];
  }

  abbrev pub AllAttested : MemoryDevices → Type 0
  AllAttested s = (k : Text) (device : DeviceRecord) → get_device k s ≡ ok device → IsAttested k

  revoked-ok :
      (q : Result RepoError DeviceRecord) (device : DeviceRecord)
      → revoked q ≡ ok device
      → (before : DeviceRecord) × (q ≡ ok before)
  revoked-ok (ok before) device h = (before, refl)
  revoked-ok (err e) device h = cc

  pub revoke_device-AllAttested :
      (j : Text) (s : MemoryDevices) → AllAttested s → AllAttested (revoke_device j s).0
  revoke_device-AllAttested j s all k device holds = elim (Bool-cases (k == j)) [
    | inl same ↦
        let (before, held) =
          revoked-ok (get_device k s) device
            (sym (get-revoke_device j k s ∙ rw same refl) ∙ holds) in
        all k before held
    | inr other ↦ all k device (sym (get-revoke_device j k s ∙ rw other refl) ∙ holds)
  ]

  -- A registry with no devices holds only attested ones.
  pub empty-AllAttested : (s : MemoryDevices) → s.devices ≡ [] → AllAttested s
  unfolding get_device lookup
  empty-AllAttested s empty k device holds = ground (arith, empty)
