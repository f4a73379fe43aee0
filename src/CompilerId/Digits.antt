-- ===== src/CompilerId/Digits.antt =====
-- The macros DEC and HEX: eight digits of a number, as characters. A digit above nine is one of the
-- characters behind '9'.
use nsu_net_course.Prelude.{ℕ, ◌+◌, ◌-◌, ◌*◌, ◌/◌, ◌%◌, ◌^◌, [], ◌∷◌, ◌≡◌, arith}
use nsu_net_course.Kernel.{Bytes}

abbrev digit : ℕ → ℕ
digit d = b'0' + d

unfoldable pub dec_digits : ℕ → Bytes
dec_digits n =
    digit (n / 10000000 % 10)
    ∷ digit (n / 1000000 % 10)
    ∷ digit (n / 100000 % 10)
    ∷ digit (n / 10000 % 10)
    ∷ digit (n / 1000 % 10)
    ∷ digit (n / 100 % 10)
    ∷ digit (n / 10 % 10)
    ∷ digit (n % 10)
    ∷ []

unfoldable pub hex_digits : ℕ → Bytes
hex_digits n =
    digit (n / 2 ^ 28 % 16)
    ∷ digit (n / 2 ^ 24 % 16)
    ∷ digit (n / 2 ^ 20 % 16)
    ∷ digit (n / 2 ^ 16 % 16)
    ∷ digit (n / 2 ^ 12 % 16)
    ∷ digit (n / 2 ^ 8 % 16)
    ∷ digit (n / 2 ^ 4 % 16)
    ∷ digit (n % 16)
    ∷ []

-- The number that digits of a base stand for.
abbrev pub read_digits : ℕ → ℕ → Bytes → ℕ
read_digits base acc [] = acc
read_digits base acc (c ∷ cs) = read_digits base (acc * base + (c - b'0')) cs

digit_back : (d : ℕ) → digit d - b'0' ≡ d
digit_back d = omega arith

pub read-dec_digits : (n : ℕ) → read_digits 10 0 (dec_digits n) ≡ n % 100000000
unfolding dec_digits
read-dec_digits n = simp digit_back (omega arith)

pub read-hex_digits : (n : ℕ) → read_digits 16 0 (hex_digits n) ≡ n % 2 ^ 32
unfolding hex_digits
read-hex_digits n = simp digit_back (omega arith)
