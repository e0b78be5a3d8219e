-- ===== src/Url/Port.antt =====
-- The port that src/url.rs reads with `parse::<u16>`.
use openworkers_runtime_nova.Prelude.{
  ℕ, ◌+◌, ◌-◌, ◌*◌, ◌≤◌, ◌<◌, ◌≡◌, ◌↔◌, some, [], ◌∷◌, Text, arith, All,
}
use openworkers_runtime_nova.Url.{decimal_digit, parse_digits}

abbrev pub IsDigit : ℕ → Type 0
IsDigit c = (b'0' ≤ c) × (c ≤ b'9')

-- The number that decimal digits stand for, after others that stand for `acc`.
abbrev pub number : ℕ → Text → ℕ
number acc [] = acc
number acc (c ∷ cs) = number (acc * 10 + (c - b'0')) cs

number-le : (acc : ℕ) (cs : Text) → acc ≤ number acc cs
number-le acc [] = omega arith
number-le acc (c ∷ cs) = let h = number-le (acc * 10 + (c - b'0')) cs in omega arith

-- One more digit, after which the digits still fit.
parse_digits-digit :
    (acc c : ℕ) (cs : Text)
    → b'0' ≤ c
    → c ≤ b'9'
    → acc * 10 + (c - b'0') < 65_536
    → parse_digits acc (c ∷ cs) ≡ parse_digits (acc * 10 + (c - b'0')) cs
unfolding parse_digits decimal_digit
parse_digits-digit acc c cs low high small = ground arith

parse_digits-inv :
    (acc c : ℕ) (cs : Text) (n : ℕ)
    → parse_digits acc (c ∷ cs) ≡ some n
    → (b'0' ≤ c)
      × (c ≤ b'9')
      × (acc * 10 + (c - b'0') < 65_536)
      × (parse_digits (acc * 10 + (c - b'0')) cs ≡ some n)
unfolding parse_digits decimal_digit
parse_digits-inv acc c cs n e = ground arith

-- The digits of a text, read with an overflow check at each of them, give a number exactly where they are all
-- digits and the number that they stand for fits 16 bits; and then they give that number.
pub parse_digits_lem :
    (acc : ℕ) (cs : Text) (n : ℕ)
    → acc < 65_536
    → (parse_digits acc cs ≡ some n) ↔ (All IsDigit cs × (number acc cs ≡ n) × (n < 65_536))
parse_digits_lem acc [] n small = unfold parse_digits in (λ e. ground arith, λ h. ground arith)
parse_digits_lem acc (c ∷ cs) n small = (
  λ e.
      let (low, high, fits, rest) = parse_digits-inv acc c cs n e in
      let (all, same, bound) = (parse_digits_lem (acc * 10 + (c - b'0')) cs n fits).0 rest in
      (((low, high), all), same, bound),
  λ h.
      let ((digit, all), same, bound) = h in
      let fits : acc * 10 + (c - b'0') < 65_536 =
        let le = number-le (acc * 10 + (c - b'0')) cs in omega arith in
      rw (parse_digits-digit acc c cs digit.0 digit.1 fits)
        ((parse_digits_lem (acc * 10 + (c - b'0')) cs n fits).1 (all, same, bound)),
)
