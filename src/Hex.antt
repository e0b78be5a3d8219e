-- ===== src/Hex.antt =====
-- src/crypto.rs, `from_hex` and `to_hex`: bytes cross the boundary to the guest as hex text.
pub mod RoundTrip
pub mod Validity
pub mod Inverse
mod Tests
use openworkers_runtime_nova.Prelude.{
  ℕ, ◌+◌, ◌-◌, ◌*◌, ◌/◌, ◌%◌, Bool, true, false, ◌&&◌, ◌||◌, Option, none, some, List, [], ◌∷◌,
  ◌++◌, Outcome, returns, panics, Text, ltb, leb, ◌==◌, if◌then◌else◌, length,
}

-- `char::to_digit(16)`.
unfoldable pub to_digit : ℕ → Option ℕ
to_digit c =
    if leb b'0' c && leb c b'9'
    then some (c - b'0')
    else if leb b'a' c && leb c b'f'
    then some (c - b'a' + 10)
    else if leb b'A' c && leb c b'F'
    then some (c - b'A' + 10)
    else none

two_digits : Option ℕ → Option ℕ → Option ℕ
two_digits (some h) (some l) = some (h * 16 + l)
two_digits (some h) none = none
two_digits none l = none

-- `u8::from_str_radix(text, 16).ok()` of a text of two bytes: a leading plus is a sign.
unfoldable pub from_str_radix : ℕ → ℕ → Option ℕ
unfolding two_digits
from_str_radix a b = if a == b'+' then to_digit b else two_digits (to_digit a) (to_digit b)

-- A byte inside a character of more than one byte. A slice that begins or ends before it panics.
unfoldable pub continuation : ℕ → Bool
continuation c = leb 0x80 c && ltb c 0xc0

unfoldable pub splits_char : Text → Bool
unfolding continuation
splits_char [] = false
splits_char (c ∷ rest) = continuation c

-- One slice, and what the rest of the walk gives: the first slice that is no byte ends it.
from_slice : Bool → Option ℕ → Outcome (Option (List ℕ)) → Outcome (Option (List ℕ))
from_slice true byte later = panics
from_slice false none later = returns none
from_slice false (some v) (returns (some vs)) = returns (some (v ∷ vs))
from_slice false (some v) (returns none) = returns none
from_slice false (some v) panics = panics

-- The slices `text[at..at + 2]` in turn.
unfoldable pub from_pairs : Text → Outcome (Option (List ℕ))
unfolding splits_char from_slice
from_pairs [] = returns (some [])
from_pairs (a ∷ []) = panics
from_pairs (a ∷ b ∷ rest) =
    from_slice (continuation a || splits_char rest) (from_str_radix a b) (from_pairs rest)

unfoldable pub from_hex : Text → Outcome (Option (List ℕ))
from_hex text = if (length text % 2) == 0 then from_pairs text else returns none

hex_digit : ℕ → ℕ
hex_digit d = if ltb d 10 then b'0' + d else b'a' + (d - 10)

-- `format!("{byte:02x}")` of each byte.
unfoldable pub to_hex : List ℕ → Text
unfolding hex_digit
to_hex [] = []
to_hex (v ∷ vs) = hex_digit (v / 16) ∷ hex_digit (v % 16) ∷ to_hex vs
