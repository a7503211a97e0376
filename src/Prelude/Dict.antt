-- ===== src/Prelude/Dict.antt =====
-- Go maps with text keys, as association lists. Elsewhere proofs go by the laws.
use mathlib.Core.Path.{◌≡◌, refl}
use mathlib.Core.Option.{Option, none, some}
use mathlib.Core.List.{[], List, ◌∷◌}
use mathlib.Core.Bool.{Bool}
use native.Mathlib.Omega.{arith}
use mtls_authentication_poc.Prelude.Tests.{if◌then◌else◌, ◌==◌}
use mtls_authentication_poc.Prelude.Texts.{Text, text_eq}

abbrev pub Dict {ℓ} : Type ℓ → Type ℓ
Dict V = List (Text × V)

module _ {ℓ} {V : Type ℓ} where
  -- `v, ok := m[k]`
  unfoldable pub lookup : Text → Dict V → Option V
  lookup k [] = none
  lookup k ((j, v) ∷ d) = if k == j then some v else lookup k d

  -- `m[k] = v`
  unfoldable pub insert : Text → V → Dict V → Dict V
  insert k v [] = (k, v) ∷ []
  insert k v ((j, w) ∷ d) = if k == j then (k, v) ∷ d else (j, w) ∷ insert k v d

  -- `delete(m, k)`. Every entry of the key goes; a Go map has at most one.
  unfoldable pub erase : Text → Dict V → Dict V
  erase k [] = []
  erase k ((j, w) ∷ d) = let rest = erase k d in if k == j then rest else (j, w) ∷ rest

  -- A range loop that deletes the entries whose value fails the test.
  unfoldable pub retain : (V → Bool) → Dict V → Dict V
  retain keep [] = []
  retain keep ((j, w) ∷ d) = let rest = retain keep d in if keep w then (j, w) ∷ rest else rest

  -- No key stands twice, as in a Go map.
  abbrev pub IsMap : Dict V → Type ℓ
  IsMap [] = Unit
  IsMap ((k, _) ∷ d) = (lookup k d ≡ none) × IsMap d

  pub lookup-nil : (k : Text) → lookup k [] ≡ none
  unfolding lookup
  lookup-nil k = refl

  pub lookup-insert :
      (j k : Text) (v : V) (d : Dict V)
      → lookup j (insert k v d) ≡ (if j == k then some v else lookup j d)
  unfolding insert lookup
  lookup-insert j k v [] = ground arith
  lookup-insert j k v (_ ∷ d) = ground (arith, lookup-insert j k v d)

  pub lookup-erase :
      (j k : Text) (d : Dict V) → lookup j (erase k d) ≡ (if j == k then none else lookup j d)
  unfolding erase lookup
  lookup-erase j k [] = ground arith
  lookup-erase j k (_ ∷ d) = ground (arith, lookup-erase j k d)

  pub insert-IsMap : (k : Text) (v : V) (d : Dict V) → IsMap d → IsMap (insert k v d)
  unfolding insert
  insert-IsMap k v [] h = (lookup-nil k, tt)
  insert-IsMap k v ((j, _) ∷ d) (fresh, u) =
      ground (arith, insert-IsMap k v d u, lookup-insert j k v d)

  pub erase-IsMap : (k : Text) (d : Dict V) → IsMap d → IsMap (erase k d)
  unfolding erase
  erase-IsMap k [] h = tt
  erase-IsMap k ((j, _) ∷ d) (fresh, u) = ground (arith, erase-IsMap k d u, lookup-erase j k d)

  abbrev kept : (V → Bool) → Option V → Option V
  kept keep none = none
  kept keep (some v) = if keep v then some v else none

  pub lookup-retain :
      (keep : V → Bool) (j : Text) (d : Dict V)
      → IsMap d
      → lookup j (retain keep d) ≡ kept keep (lookup j d)
  unfolding retain lookup
  lookup-retain keep j [] h = refl
  lookup-retain keep j ((k, w) ∷ d) (fresh, u) = ground (arith, lookup-retain keep j d u)

  pub lookup-retain-none :
      (keep : V → Bool) (j : Text) (d : Dict V)
      → lookup j d ≡ none
      → lookup j (retain keep d) ≡ none
  unfolding retain lookup
  lookup-retain-none keep j [] h = refl
  lookup-retain-none keep j (_ ∷ d) h = ground (arith, lookup-retain-none keep j d)

  pub retain-IsMap : (keep : V → Bool) (d : Dict V) → IsMap d → IsMap (retain keep d)
  unfolding retain
  retain-IsMap keep [] h = tt
  retain-IsMap keep ((j, w) ∷ d) (fresh, u) =
      ground (arith, retain-IsMap keep d u, lookup-retain keep j d u)
