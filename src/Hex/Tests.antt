-- ===== src/Hex/Tests.antt =====
-- Tests of `from_hex` and `to_hex` of src/crypto.rs, and examples of the theorems on them.
use openworkers_runtime_nova.Prelude.{
  ◌≡◌, refl, none, some, [], ◌∷◌, map, returns, panics, bytes, arith,
}
use openworkers_runtime_nova.Hex.{to_digit, from_hex, to_hex}
use openworkers_runtime_nova.Hex.RoundTrip.{from_hex-to_hex}
use openworkers_runtime_nova.Hex.Validity.{from_hex-plus, from_hex-split_char}
use openworkers_runtime_nova.Hex.Inverse.{to_lower, to_hex-from_hex}

to_hex-bytes : to_hex (10 ∷ 255 ∷ []) ≡ bytes "0aff"
unfolding to_hex
to_hex-bytes = refl

from_hex_upper : from_hex (bytes "0aFF") ≡ returns (some (10 ∷ 255 ∷ []))
unfolding from_hex openworkers_runtime_nova.Hex.from_pairs
    openworkers_runtime_nova.Hex.from_str_radix to_digit
from_hex_upper = refl

from_hex_odd : from_hex (bytes "0aF") ≡ returns none
unfolding from_hex
from_hex_odd = refl

from_hex-to_hex_example : from_hex (to_hex (10 ∷ 255 ∷ [])) ≡ returns (some (10 ∷ 255 ∷ []))
from_hex-to_hex_example = from_hex-to_hex (10 ∷ 255 ∷ []) (omega arith, (omega arith, tt))

to_hex-from_hex_example : to_hex (10 ∷ 255 ∷ []) ≡ map to_lower (bytes "0aFF")
to_hex-from_hex_example =
    to_hex-from_hex (bytes "0aFF") (10 ∷ 255 ∷ [])
      (
        λ e. absurd (omega arith),
        (λ e. absurd (omega arith), (λ e. absurd (omega arith), (λ e. absurd (omega arith), tt))),
      )
      from_hex_upper

digit-a : to_digit b'a' ≡ some 10
unfolding to_digit
digit-a = refl

from_hex-plus_example : from_hex (bytes "+a0aFF") ≡ returns (some (10 ∷ 10 ∷ 255 ∷ []))
from_hex-plus_example =
    from_hex-plus b'a' 10 (bytes "0aFF") (10 ∷ 255 ∷ []) digit-a
      (omega arith, (omega arith, (omega arith, (omega arith, tt)))) from_hex_upper

-- The second slice begins inside the three bytes of a euro sign.
from_hex-split_char_example : from_hex (b'0' ∷ 0xe2 ∷ 0x82 ∷ 0xac ∷ []) ≡ panics
from_hex-split_char_example =
    from_hex-split_char b'0' 0xe2 0x82 0xac [] (omega arith) (omega arith) refl
