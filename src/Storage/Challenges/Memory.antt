-- ===== src/Storage/Challenges/Memory.antt =====
-- `memoryChallengeStore` meets the laws of the interface; its cleanup cannot be observed.
use mtls_authentication_poc.Prelude.{
  ◌≡◌, refl, sym, ◌∙◌, inl, inr, not, Option, none, some, arith, if◌then◌else◌, ◌==◌, Option-cases,
  ℤ_eq, ◌+ℤ◌, ◌≤ℤ◌, ltb_ℤ, Bytes, Text, ℕ_eq, text_eq,
}
use mtls_authentication_poc.Prelude.Dict.{
  lookup, IsMap, lookup-insert, lookup-erase, lookup-retain, lookup-retain-none, insert-IsMap,
  erase-IsMap, retain-IsMap,
}
use mtls_authentication_poc.Platform.{Platform, Time, Duration}
use mtls_authentication_poc.Storage.Challenges.{
  MemoryChallenges, generate_and_store_challenge, verify_and_consume_challenge, cleanup,
  memory_challenge_store,
}
use mtls_authentication_poc.Storage.Challenges.Laws.{IsLawful, not_expired}

unfoldable pub expiry : Text → MemoryChallenges → Option Time
expiry c s = lookup c s.challenges

module _ (p : Platform) where
  issued :
      (bytes : Bytes) (now : Time) (ttl : Duration) (s : MemoryChallenges)
      → (generate_and_store_challenge p (some bytes) now ttl s).1
        ≡ some (p.base64_encode bytes, now +ℤ ttl)
  unfolding generate_and_store_challenge
  issued bytes now ttl s = refl

  pub expiry-generate :
      (bytes : Bytes) (now : Time) (ttl : Duration) (c : Text) (s : MemoryChallenges)
      → expiry c (generate_and_store_challenge p (some bytes) now ttl s).0
        ≡ (if c == p.base64_encode bytes then some (now +ℤ ttl) else expiry c s)
  unfolding generate_and_store_challenge expiry
  expiry-generate bytes now ttl c s =
      lookup-insert c (p.base64_encode bytes) (now +ℤ ttl) s.challenges

  pub generate_failed :
      (now : Time) (ttl : Duration) (s : MemoryChallenges)
      → generate_and_store_challenge p none now ttl s ≡ (s, none)
  unfolding generate_and_store_challenge
  generate_failed now ttl s = refl

pub consumed :
    (now : Time) (c : Text) (s : MemoryChallenges)
    → (verify_and_consume_challenge now c s).1 ≡ not_expired now (expiry c s)
unfolding verify_and_consume_challenge expiry
consumed now c s = ground arith

pub expiry-consume :
    (now : Time) (c d : Text) (s : MemoryChallenges)
    → expiry d (verify_and_consume_challenge now c s).0 ≡ (if d == c then none else expiry d s)
unfolding verify_and_consume_challenge expiry
expiry-consume now c d s = elim (Option-cases (lookup c s.challenges)) [
  | inl e ↦ ground arith
  | inr (exp, e) ↦ ground (arith, lookup-erase d c s.challenges)
]

-- The in-memory store meets every law of the `ChallengeStore` interface.
pub memory_challenge_store-IsLawful : (p : Platform) → IsLawful p (memory_challenge_store p)
memory_challenge_store-IsLawful p = record {
  expiry = expiry;
  issued = issued p;
  expiry-generate = expiry-generate p;
  generate_failed = generate_failed p;
  consumed = consumed;
  expiry-consume = expiry-consume;
}

-- The map has no key twice, at the start and after every operation.
abbrev pub IsStore : MemoryChallenges → Type 0
IsStore s = IsMap s.challenges

pub generate-IsStore :
    (p : Platform) (r : Option Bytes) (now : Time) (ttl : Duration) (s : MemoryChallenges)
    → IsStore s
    → IsStore (generate_and_store_challenge p r now ttl s).0
unfolding generate_and_store_challenge
generate-IsStore p none now ttl s h = h
generate-IsStore p (some bytes) now ttl s h = insert-IsMap _ _ s.challenges h

pub consume-IsStore :
    (now : Time) (c : Text) (s : MemoryChallenges)
    → IsStore s
    → IsStore (verify_and_consume_challenge now c s).0
unfolding verify_and_consume_challenge
consume-IsStore now c s h = ground (arith, erase-IsMap c s.challenges h)

pub cleanup-IsStore : (now : Time) (s : MemoryChallenges) → IsStore s → IsStore (cleanup now s)
unfolding cleanup
cleanup-IsStore now s h = retain-IsMap _ s.challenges h

pub expiry-cleanup :
    (now later : Time) (c : Text) (s : MemoryChallenges)
    → IsStore s
    → now ≤ℤ later
    → not_expired later (expiry c (cleanup now s)) ≡ not_expired later (expiry c s)
unfolding cleanup expiry
expiry-cleanup now later c s h le =
    rw (lookup-retain (λ exp. not (ltb_ℤ exp now)) c s.challenges h)
      (elim (Option-cases (lookup c s.challenges)) [
        | inl e ↦ rw e
        | inr (exp, e) ↦ rw e (ground arith)
      ])

-- On a store whose map has no key twice, a round of the cleanup at `now` changes no answer that the
-- store gives at `now` or later.
pub consume-cleanup :
    (now later : Time) (c : Text) (s : MemoryChallenges)
    → IsStore s
    → now ≤ℤ later
    → (verify_and_consume_challenge later c (cleanup now s)).1
      ≡ (verify_and_consume_challenge later c s).1
consume-cleanup now later c s h le =
    consumed later c (cleanup now s)
    ∙ (expiry-cleanup now later c s h le ∙ sym (consumed later c s))

-- The cleanup adds no entry.
pub expiry_cleaned :
    (now : Time) (c : Text) (s : MemoryChallenges)
    → expiry c s ≡ none
    → expiry c (cleanup now s) ≡ none
unfolding cleanup expiry
expiry_cleaned now c s h = lookup-retain-none _ c s.challenges h
