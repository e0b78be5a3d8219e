-- ===== src/Hex/RoundTrip.antt =====
-- Reading back what `to_hex` of src/crypto.rs wrote.
use openworkers_runtime_nova.Prelude.{
  ℕ, ◌*◌, ◌%◌, ◌/◌, ◌<◌, ◌≡◌, refl, ap, false, some, List, [], ◌∷◌, arith, returns, Text, ◌==◌,
  length, All,
}
use openworkers_runtime_nova.Hex.{
  to_digit, from_str_radix, continuation, splits_char, from_pairs, from_hex, hex_digit, to_hex,
}

abbrev pub IsBytes : List ℕ → Type 0
IsBytes vs = All (λ v. v < 256) vs

to_digit-hex_digit : (d : ℕ) → d < 16 → to_digit (hex_digit d) ≡ some d
unfolding to_digit hex_digit
to_digit-hex_digit d h = ground arith

not-continuation-hex_digit : (d : ℕ) → d < 16 → continuation (hex_digit d) ≡ false
unfolding continuation hex_digit
not-continuation-hex_digit d h = ground arith

hex_digit-ne-plus : (d : ℕ) → (hex_digit d == b'+') ≡ false
unfolding hex_digit
hex_digit-ne-plus d = ground arith

from_str_radix-hex :
    (v : ℕ) → v < 256 → from_str_radix (hex_digit (v / 16)) (hex_digit (v % 16)) ≡ some v
unfolding from_str_radix
from_str_radix-hex v h =
    rw
      (
        hex_digit-ne-plus (v / 16),
        to_digit-hex_digit (v / 16) (omega arith),
        to_digit-hex_digit (v % 16) (omega arith),
      )
      (ap some (omega arith))

splits_char-to_hex : (vs : List ℕ) → All (λ v. v < 256) vs → splits_char (to_hex vs) ≡ false
unfolding splits_char to_hex
splits_char-to_hex [] h = refl
splits_char-to_hex (v ∷ vs) h = not-continuation-hex_digit (v / 16) (omega arith)

pub length-to_hex : (vs : List ℕ) → length (to_hex vs) ≡ 2 * length vs
unfolding to_hex
length-to_hex [] = refl
length-to_hex (v ∷ vs) = omega (arith, length-to_hex vs)

pub from_pairs-cons :
    (a b v : ℕ) (rest : Text) (vs : List ℕ)
    → continuation a ≡ false
    → splits_char rest ≡ false
    → from_str_radix a b ≡ some v
    → from_pairs rest ≡ returns (some vs)
    → from_pairs (a ∷ b ∷ rest) ≡ returns (some (v ∷ vs))
unfolding from_pairs
from_pairs-cons a b v rest vs start end read later = rw (start, end, read, later)

from_pairs-to_hex :
    (vs : List ℕ) → All (λ v. v < 256) vs → from_pairs (to_hex vs) ≡ returns (some vs)
unfolding to_hex
from_pairs-to_hex [] h = unfold from_pairs in refl
from_pairs-to_hex (v ∷ vs) h =
    from_pairs-cons _ _ v (to_hex vs) vs (not-continuation-hex_digit (v / 16) (omega arith))
      (splits_char-to_hex vs h.1) (from_str_radix-hex v h.0) (from_pairs-to_hex vs h.1)

-- Hex text written by `to_hex` for any bytes reads back as those bytes, without a panic.
pub from_hex-to_hex :
    (vs : List ℕ) → All (λ v. v < 256) vs → from_hex (to_hex vs) ≡ returns (some vs)
unfolding from_hex
from_hex-to_hex vs h = ground (arith, length-to_hex vs, from_pairs-to_hex vs h)
