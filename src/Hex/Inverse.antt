-- ===== src/Hex/Inverse.antt =====
-- Printing again what `from_hex` of src/crypto.rs read.
use openworkers_runtime_nova.Prelude.{
  ℕ, ◌+◌, ◌*◌, ◌%◌, ◌/◌, ◌≡◌, ◌≢◌, refl, Option, some, List, [], ◌∷◌, arith, returns, Text, leb,
  ◌&&◌, if◌then◌else◌, All, map,
}
use openworkers_runtime_nova.Hex.{
  to_digit, from_str_radix, two_digits, from_pairs, from_hex, hex_digit, to_hex,
}
use openworkers_runtime_nova.Hex.Validity.{
  from_pairs_inv, from_pairs-nil, from_pairs-odd, to_digit-lt,
}

-- `to_ascii_lowercase`.
abbrev pub to_lower : ℕ → ℕ
to_lower c = if leb b'A' c && leb c b'Z' then c + 32 else c

hex_digit-to_digit : (c d : ℕ) → to_digit c ≡ some d → hex_digit d ≡ to_lower c
unfolding to_digit hex_digit
hex_digit-to_digit c d h = ground arith

two_digits_inv :
    (o p : Option ℕ) (v : ℕ)
    → two_digits o p ≡ some v
    → (h : ℕ) × (l : ℕ) × (o ≡ some h) × (p ≡ some l) × (v ≡ h * 16 + l)
unfolding two_digits
two_digits_inv o p v e = ground arith

hex-from_str_radix :
    (a b v : ℕ)
    → a ≢ b'+'
    → from_str_radix a b ≡ some v
    → (hex_digit (v / 16) ≡ to_lower a) × (hex_digit (v % 16) ≡ to_lower b)
unfolding from_str_radix
hex-from_str_radix a b v plain h =
    let (hi, lo, eh, el, ev) = two_digits_inv (to_digit a) (to_digit b) v (ground arith) in
    let small = to_digit-lt b lo el in
    let high : v / 16 ≡ hi = omega arith in
    let low : v % 16 ≡ lo = omega arith in
    (rw high (hex_digit-to_digit a hi eh), rw low (hex_digit-to_digit b lo el))

to_hex-from_pairs :
    (text : Text) (vs : List ℕ)
    → All (λ c. c ≢ b'+') text
    → from_pairs text ≡ returns (some vs)
    → to_hex vs ≡ map to_lower text
unfolding to_hex
to_hex-from_pairs [] vs p h = rw (from_pairs-nil vs h)
to_hex-from_pairs (a ∷ []) vs p h = absurd (from_pairs-odd a vs h)
to_hex-from_pairs (a ∷ b ∷ rest) vs p h =
    let (v, ws, e, byte, later) = from_pairs_inv a b rest vs h in
    let (high, low) = hex-from_str_radix a b v p.0 byte in
    let tail = to_hex-from_pairs rest ws p.1.1 later in rw e (rw (high, low, tail) refl)

-- A text without a plus sign that `from_hex` accepts is the hex of its result, up to the case of
-- the letters.
pub to_hex-from_hex :
    (text : Text) (vs : List ℕ)
    → All (λ c. c ≢ b'+') text
    → from_hex text ≡ returns (some vs)
    → to_hex vs ≡ map to_lower text
unfolding from_hex
to_hex-from_hex text vs p h = to_hex-from_pairs text vs p (ground arith)
