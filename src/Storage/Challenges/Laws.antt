-- ===== src/Storage/Challenges/Laws.antt =====
-- What the callers of a `ChallengeStore` rely on, in terms of one observation: the expiry of a
-- challenge that is stored.
use mtls_authentication_poc.Prelude.{
  ◌≡◌, Bool, false, Option, none, some, if◌then◌else◌, ◌==◌, ℤ_eq, ◌+ℤ◌, ltb_ℤ, Bytes, Text, ℕ_eq,
  text_eq,
}
use mtls_authentication_poc.Platform.{Platform, Time, Duration}
use mtls_authentication_poc.Storage.Challenges.{ChallengeStore}

abbrev pub not_expired : Time → Option Time → Bool
not_expired now none = false
not_expired now (some exp) = ltb_ℤ now exp

pub record IsLawful (p : Platform) (C : ChallengeStore) : Type 0 where
  pub expiry : Text → C.State → Option Time
  pub issued :
      (bytes : Bytes) (now : Time) (ttl : Duration) (s : C.State)
      → (C.generate_and_store_challenge (some bytes) now ttl s).1
        ≡ some (p.base64_encode bytes, now +ℤ ttl)
  pub expiry-generate :
      (bytes : Bytes) (now : Time) (ttl : Duration) (c : Text) (s : C.State)
      → expiry c (C.generate_and_store_challenge (some bytes) now ttl s).0
        ≡ (if c == p.base64_encode bytes then some (now +ℤ ttl) else expiry c s)
  pub generate_failed :
      (now : Time) (ttl : Duration) (s : C.State)
      → C.generate_and_store_challenge none now ttl s ≡ (s, none)
  pub consumed :
      (now : Time) (c : Text) (s : C.State)
      → (C.verify_and_consume_challenge now c s).1 ≡ not_expired now (expiry c s)
  pub expiry-consume :
      (now : Time) (c d : Text) (s : C.State)
      → expiry d (C.verify_and_consume_challenge now c s).0 ≡ (if d == c then none else expiry d s)
