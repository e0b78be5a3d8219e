-- ===== src/Encoding/Trim.antt =====
-- `str::trim`, which src/encoding.rs uses on a label: white space of Unicode at both ends, as UTF-8 bytes.
use openworkers_runtime_nova.Prelude.{
  ℕ, zero, suc, Bool, ◌&&◌, ◌||◌, [], ◌∷◌, Text, leb, ◌==◌, if◌then◌else◌,
}
use mathlib.Core.List.{reverse}

abbrev is_ascii_space : ℕ → Bool
is_ascii_space c = (leb 0x09 c && leb c 0x0d) || (c == 0x20)

-- U+0085 and U+00A0.
abbrev is_space_of_two : ℕ → ℕ → Bool
is_space_of_two a b = (a == 0xc2) && ((b == 0x85) || (b == 0xa0))

-- U+1680, U+2000 to U+200A, U+2028, U+2029, U+202F, U+205F and U+3000.
abbrev is_space_of_three : ℕ → ℕ → ℕ → Bool
is_space_of_three a b c =
    ((a == 0xe1) && (b == 0x9a) && (c == 0x80))
    || ((a == 0xe2) && (b == 0x80) && (leb 0x80 c && leb c 0x8a))
    || ((a == 0xe2) && (b == 0x80) && ((c == 0xa8) || (c == 0xa9) || (c == 0xaf)))
    || ((a == 0xe2) && (b == 0x81) && (c == 0x9f))
    || ((a == 0xe3) && (b == 0x80) && (c == 0x80))

-- The number of bytes of the white space that a text begins with, and of that which the reversed text ends with.
unfoldable pub space_first : Text → ℕ
space_first [] = 0
space_first (a ∷ []) = if is_ascii_space a then 1 else 0
space_first (a ∷ b ∷ []) = if is_ascii_space a then 1 else if is_space_of_two a b then 2 else 0
space_first (a ∷ b ∷ c ∷ rest) =
    if is_ascii_space a
    then 1
    else if is_space_of_two a b
    then 2
    else if is_space_of_three a b c
    then 3
    else 0

unfoldable pub space_last : Text → ℕ
space_last [] = 0
space_last (c ∷ []) = if is_ascii_space c then 1 else 0
space_last (c ∷ b ∷ []) = if is_ascii_space c then 1 else if is_space_of_two b c then 2 else 0
space_last (c ∷ b ∷ a ∷ rest) =
    if is_ascii_space c
    then 1
    else if is_space_of_two b c
    then 2
    else if is_space_of_three a b c
    then 3
    else 0

-- Drops white space while there is some; the number is of the bytes that are left of a character.
unfoldable pub drop_spaces : (Text → ℕ) → ℕ → Text → Text
drop_spaces size left [] = []
drop_spaces size (suc left) (c ∷ cs) = drop_spaces size left cs
drop_spaces size zero (c ∷ cs) = elim (size (c ∷ cs)) [
  | zero ↦ c ∷ cs
  | suc left ↦ drop_spaces size left cs
]

unfoldable pub trim : Text → Text
unfolding space_first space_last drop_spaces
trim value = reverse (drop_spaces space_last 0 (reverse (drop_spaces space_first 0 value)))
