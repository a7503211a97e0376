-- ===== src/Tests/Stored.antt =====
-- The theorems on the challenge store, at small inputs.
use mtls_authentication_poc.Prelude.{
  ◌+◌, ◌≤◌, ◌≡◌, refl, some, List, [], ◌∷◌, arith, pos, ℤ_eq, ℕ_eq, text_eq,
}
use mtls_authentication_poc.Storage.Challenges.{verify_and_consume_challenge, cleanup}
use mtls_authentication_poc.Storage.Challenges.Laws.{IsLawful}
use mtls_authentication_poc.Storage.Challenges.{memory_challenge_store}
use mtls_authentication_poc.Storage.Challenges.Memory.{
  memory_challenge_store-IsLawful, expiry, IsStore, consume-cleanup,
}
use mtls_authentication_poc.Storage.Challenges.Traces.{
  Call, generates, consumes, cleans, count_accepted, count_issued, weight, count_accepted-le,
}
use mtls_authentication_poc.Tests.Toy.{toy}
use mtls_authentication_poc.Tests.Run.{library, start}

-- The stored challenge is tried twice, another one is issued and taken.
abbrev calls : List Call
calls =
    consumes (pos 1) (77 ∷ [])
    ∷ generates (some (5 ∷ [])) (pos 2) (pos 10)
    ∷ cleans (pos 3)
    ∷ consumes (pos 4) (77 ∷ [])
    ∷ consumes (pos 5) (5 ∷ [])
    ∷ []

start-IsStore : IsStore start.challenges
unfolding library
start-IsStore = (refl, tt)

count_accepted-le_example :
    count_accepted toy (77 ∷ []) calls start.challenges
    ≤ weight toy (expiry (77 ∷ []) start.challenges) + count_issued toy (77 ∷ []) calls
count_accepted-le_example = count_accepted-le toy (77 ∷ []) calls start.challenges start-IsStore

consume-cleanup_example :
    (verify_and_consume_challenge (pos 50) (77 ∷ []) (cleanup (pos 20) start.challenges)).1
    ≡ (verify_and_consume_challenge (pos 50) (77 ∷ []) start.challenges).1
consume-cleanup_example =
    consume-cleanup (pos 20) (pos 50) (77 ∷ []) start.challenges start-IsStore (omega arith)

memory_challenge_store-IsLawful_example : IsLawful toy (memory_challenge_store toy)
memory_challenge_store-IsLawful_example = memory_challenge_store-IsLawful toy
