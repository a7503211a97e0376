-- ===== src/Platform/Numbers.antt =====
-- `(*big.Int).String`, `hex.EncodeToString` and `bytes` helpers of the Go standard library.
use mtls_authentication_poc.Prelude.{
  ℕ, zero, suc, ◌+◌, ◌-◌, ◌*◌, ◌/◌, ◌%◌, ◌<◌, ◌≡◌, refl, true, false, [], ◌∷◌, arith, ltb,
  if◌then◌else◌, ℤ, pos, negsuc, ℤ_eq, length, All, Bytes, Text, codes, ℕ_eq, text_eq,
}

-- The decimal digits of `n` before `out`. Each round takes the last digit off; `n + 1` rounds are
-- more than it has digits.
unfoldable pub decimal_loop : ℕ → ℕ → Text → Text
decimal_loop zero n out = out
decimal_loop (suc rounds) n out = elim (ltb n 10) [
  | true ↦ (b'0' + n) ∷ out
  | false ↦ decimal_loop rounds (n / 10) ((b'0' + n % 10) ∷ out)
]

unfoldable pub decimal : ℕ → Text
unfolding decimal_loop
decimal n = decimal_loop (suc n) n []

-- `z.String()`
unfoldable pub int_string : ℤ → Text
unfolding decimal
int_string (pos n) = decimal n
int_string (negsuc n) = b'-' ∷ decimal (suc n)

abbrev hex_digit : ℕ → ℕ
hex_digit d = if ltb d 10 then b'0' + d else b'a' + (d - 10)

-- `hex.EncodeToString`
unfoldable pub hex_encode : Bytes → Text
hex_encode [] = []
hex_encode (b ∷ bs) = hex_digit (b / 16) ∷ hex_digit (b % 16) ∷ hex_encode bs

pub length-hex_encode : (bs : Bytes) → length (hex_encode bs) ≡ 2 * length bs
unfolding hex_encode
length-hex_encode [] = refl
length-hex_encode (b ∷ bs) = omega (arith, length-hex_encode bs)

cons-cons_injective :
    {a b c d : ℕ} {xs ys : Text}
    → ◌≡◌ {A = Text} (a ∷ b ∷ xs) (c ∷ d ∷ ys)
    → (a ≡ c) × (b ≡ d) × (xs ≡ ys)
cons-cons_injective e = (cc, cc, cc)

hex_digit_injective : (c d : ℕ) → c < 16 → d < 16 → hex_digit c ≡ hex_digit d → c ≡ d
hex_digit_injective c d hc hd e = ground arith

hex_pair_injective :
    (b c : ℕ)
    → b < 256
    → c < 256
    → hex_digit (b / 16) ≡ hex_digit (c / 16)
    → hex_digit (b % 16) ≡ hex_digit (c % 16)
    → b ≡ c
hex_pair_injective b c hb hc e f = omega (
  arith,
  hex_digit_injective (b / 16) (c / 16) (omega arith) (omega arith) e,
  hex_digit_injective (b % 16) (c % 16) (omega arith) (omega arith) f,
)

-- Distinct byte strings have distinct encodings.
pub hex_encode_injective :
    (xs ys : Bytes)
    → All (λ b. b < 256) xs
    → All (λ b. b < 256) ys
    → hex_encode xs ≡ hex_encode ys
    → xs ≡ ys
unfolding hex_encode
hex_encode_injective [] [] hx hy e = refl
hex_encode_injective [] (y ∷ ys) hx hy e = cc
hex_encode_injective (x ∷ xs) [] hx hy e = cc
hex_encode_injective (x ∷ xs) (y ∷ ys) (hx, kx) (hy, ky) e =
    let (p, q, r) = cons-cons_injective e in
    cc (hex_pair_injective x y hx hy p q, hex_encode_injective xs ys kx ky r)

numbers_run :
    (int_string (negsuc 119) ≡ codes "-120") × (hex_encode (0x0f ∷ 0xa0 ∷ []) ≡ codes "0fa0")
unfolding int_string hex_encode
numbers_run = (refl, refl)
