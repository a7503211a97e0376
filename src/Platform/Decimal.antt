-- ===== src/Platform/Decimal.antt =====
-- `(*big.Int).String` says which integer it prints, so serial numbers can be compared as texts.
use mtls_authentication_poc.Prelude.{
  ℕ, zero, suc, ◌+◌, ◌-◌, ◌*◌, ◌/◌, ◌%◌, ◌≤◌, ◌<◌, ◌≡◌, sym, ap, ◌∙◌, subst, inl, inr, [], ◌∷◌,
  arith, ltb, Bool-cases, ℤ, pos, negsuc, ℤ_eq, Text, ℕ_eq, text_eq,
}
use mtls_authentication_poc.Platform.Numbers.{decimal_loop, decimal, int_string}

-- The number that the digits of a text continue `n` to.
read : ℕ → Text → ℕ
read n [] = n
read n (c ∷ cs) = read (n * 10 + (c - b'0')) cs

-- With more rounds than the number, the digits are all there.
read-decimal_loop :
    (rounds n : ℕ) (out : Text) → n < rounds → read 0 (decimal_loop rounds n out) ≡ read n out
unfolding read decimal_loop
read-decimal_loop zero n out h = absurd (omega arith)
read-decimal_loop (suc rounds) n out h = elim (Bool-cases (ltb n 10)) [
  | inl last ↦ rw (last, decimal_loop) (ap (λ m. read m out) (omega arith))
  | inr more ↦
      rw (more, decimal_loop)
        (read-decimal_loop rounds (n / 10) ((b'0' + n % 10) ∷ out) (ground arith)
          ∙ ap (λ m. read m out) (omega arith))
]

read-decimal : (n : ℕ) → read 0 (decimal n) ≡ n
unfolding decimal read
read-decimal n = read-decimal_loop (suc n) n [] (omega arith)

-- The text starts with a digit.
abbrev StartsByDigit : Text → Type 0
StartsByDigit [] = ⊥
StartsByDigit (c ∷ _) = b'0' ≤ c

decimal_loop-StartsByDigit :
    (rounds n : ℕ) (out : Text) → n < rounds → StartsByDigit (decimal_loop rounds n out)
unfolding decimal_loop
decimal_loop-StartsByDigit zero n out h = absurd (omega arith)
decimal_loop-StartsByDigit (suc rounds) n out h = elim (Bool-cases (ltb n 10)) [
  | inl last ↦ rw (last, decimal_loop) (omega arith)
  | inr more ↦
      rw (more, decimal_loop)
        (decimal_loop-StartsByDigit rounds (n / 10) ((b'0' + n % 10) ∷ out) (ground arith))
]

decimal-StartsByDigit : (n : ℕ) → StartsByDigit (decimal n)
unfolding decimal
decimal-StartsByDigit n = decimal_loop-StartsByDigit (suc n) n [] (omega arith)

not-StartsByDigit : (cs : Text) → ¬ StartsByDigit (b'-' ∷ cs)
not-StartsByDigit cs h = omega arith

tail_eq : {c d : ℕ} {cs ds : Text} → ◌≡◌ {A = Text} (c ∷ cs) (d ∷ ds) → cs ≡ ds
tail_eq h = cc

decimal_injective : (m n : ℕ) → decimal m ≡ decimal n → m ≡ n
decimal_injective m n e = sym (read-decimal m) ∙ (ap (read 0) e ∙ read-decimal n)

-- Distinct integers have distinct texts.
pub int_string_injective : (a b : ℤ) → int_string a ≡ int_string b → a ≡ b
unfolding int_string
int_string_injective (pos m) (pos n) e = ap pos (decimal_injective m n e)
int_string_injective (pos m) (negsuc n) e =
    absurd (not-StartsByDigit (decimal (suc n)) (subst StartsByDigit e (decimal-StartsByDigit m)))
int_string_injective (negsuc m) (pos n) e =
    absurd
      (not-StartsByDigit (decimal (suc m)) (subst StartsByDigit (sym e) (decimal-StartsByDigit n)))
int_string_injective (negsuc m) (negsuc n) e =
    let same = decimal_injective (suc m) (suc n) (tail_eq e) in ground arith
