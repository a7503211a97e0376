-- ===== src/Prelude/Texts.antt =====
-- Go strings and byte slices: lists of bytes. A literal is written by `codes`.
use Prim.Native.Nat.{ℕ}
use Prim.Native.Char.{code}
use Prim.Native.String.{String}
use mathlib.Core.Path.{◌≡◌, refl}
use mathlib.Core.Bool.{true, false}
use mathlib.Core.List.{[], List, ◌∷◌}
use native.Mathlib.Decide.{ℕ_discrete}
use mtls_authentication_poc.Prelude.Tests.{Eq, ◌==◌}

abbrev pub Bytes : Type 0
Bytes = List ℕ

abbrev pub Text : Type 0
Text = List ℕ

-- The code points of an ASCII literal.
abbrev pub codes : String → Text
codes String.[] = []
codes (String.◌∷◌ c s) = code c ∷ codes s

unfoldable pub text_discrete : Discrete (List ℕ)
unfolding ℕ_discrete
text_discrete = hlevel ℕ_discrete

instance unfoldable pub ℕ_eq : Eq ℕ
unfolding ℕ_discrete
ℕ_eq = record { dec = ℕ_discrete }

instance unfoldable pub text_eq : Eq (List ℕ)
unfolding text_discrete
text_eq = record { dec = text_discrete }

text_eq_runs : ((codes "ab" == codes "ab") ≡ true) × ((codes "ab" == codes "ac") ≡ false)
unfolding text_eq
text_eq_runs = (refl, refl)
