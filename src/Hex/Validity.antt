-- ===== src/Hex/Validity.antt =====
-- What `from_hex` of src/crypto.rs accepts, and where it panics.
use openworkers_runtime_nova.Prelude.{
  ℕ, ◌*◌, ◌%◌, ◌<◌, ◌≤◌, ◌≡◌, ◌≢◌, refl, false, true, Option, some, none, List, [], ◌∷◌, Bool,
  arith, Outcome, returns, panics, Text, length, All,
}
use openworkers_runtime_nova.Hex.RoundTrip.{from_pairs-cons}
use openworkers_runtime_nova.Hex.{
  to_digit, from_str_radix, continuation, splits_char, from_slice, from_pairs, from_hex,
}

abbrev pub Step : Option ℕ → Outcome (Option (List ℕ)) → List ℕ → Type 0
Step byte later vs =
    (v : ℕ) × (ws : List ℕ) × (vs ≡ v ∷ ws) × (byte ≡ some v) × (later ≡ returns (some ws))

from_slice_inv :
    (splits : Bool) (byte : Option ℕ) (later : Outcome (Option (List ℕ))) {vs : List ℕ}
    → from_slice splits byte later ≡ returns (some vs)
    → (splits ≡ false) × Step byte later vs
unfolding from_slice
from_slice_inv true byte later h = absurd (ground arith)
from_slice_inv false none later h = absurd (ground arith)
from_slice_inv false (some v) (returns (some ws)) h = (refl, (v, ws, ground arith, refl, refl))
from_slice_inv false (some v) (returns none) h = absurd (ground arith)
from_slice_inv false (some v) panics h = absurd (ground arith)

-- A successful step of the walk.
pub from_pairs_inv :
    (a b : ℕ) (rest : Text) (vs : List ℕ)
    → from_pairs (a ∷ b ∷ rest) ≡ returns (some vs)
    → Step (from_str_radix a b) (from_pairs rest) vs
unfolding from_pairs
from_pairs_inv a b rest vs h = (from_slice_inv _ _ _ h).1

pub to_digit-lt : (c d : ℕ) → to_digit c ≡ some d → d < 16
unfolding to_digit
to_digit-lt c d h = ground arith

from_str_radix-lt : (a b v : ℕ) → from_str_radix a b ≡ some v → v < 256
unfolding from_str_radix
from_str_radix-lt a b v h = grind (arith, to_digit-lt)

splits_char-ascii : (text : Text) → All (λ c. c < 128) text → splits_char text ≡ false
unfolding splits_char
splits_char-ascii [] h = refl
splits_char-ascii (c ∷ rest) h = ground arith

continuation-ascii : (c : ℕ) → c < 128 → continuation c ≡ false
unfolding continuation
continuation-ascii c h = ground arith

from_slice-no_panic :
    (byte : Option ℕ) (later : Outcome (Option (List ℕ)))
    → later ≢ panics
    → from_slice false byte later ≢ panics
unfolding from_slice
from_slice-no_panic none later h = ground arith
from_slice-no_panic (some v) (returns (some vs)) h = ground arith
from_slice-no_panic (some v) (returns none) h = ground arith
from_slice-no_panic (some v) panics h = h

from_pairs-no_panic :
    (text : Text) → All (λ c. c < 128) text → (length text % 2 ≡ 0) → from_pairs text ≢ panics
unfolding from_pairs
from_pairs-no_panic [] h e = ground arith
from_pairs-no_panic (a ∷ []) h e = absurd (omega arith)
from_pairs-no_panic (a ∷ b ∷ rest) h e =
    rw (continuation-ascii a h.0, splits_char-ascii rest h.1.1)
      (from_slice-no_panic (from_str_radix a b) (from_pairs rest)
        (from_pairs-no_panic rest h.1.1 (omega arith)))

-- On ASCII text `from_hex` returns.
pub from_hex-no_panic : (text : Text) → All (λ c. c < 128) text → from_hex text ≢ panics
unfolding from_hex
from_hex-no_panic text h = ground (arith, from_pairs-no_panic text h)

pub from_pairs-nil : (vs : List ℕ) → from_pairs [] ≡ returns (some vs) → vs ≡ []
unfolding from_pairs
from_pairs-nil vs h = ground arith

pub from_pairs-odd : (a : ℕ) (vs : List ℕ) → from_pairs (a ∷ []) ≢ returns (some vs)
unfolding from_pairs
from_pairs-odd a vs h = ground arith

from_pairs-bytes :
    (text : Text) (vs : List ℕ)
    → from_pairs text ≡ returns (some vs)
    → (length text ≡ 2 * length vs) × All (λ v. v < 256) vs
from_pairs-bytes [] vs h = rw (from_pairs-nil vs h) (refl, tt)
from_pairs-bytes (a ∷ []) vs h = absurd (from_pairs-odd a vs h)
from_pairs-bytes (a ∷ b ∷ rest) vs h =
    let (v, ws, e, byte, later) = from_pairs_inv a b rest vs h in
    let (len, small) = from_pairs-bytes rest ws later in
    rw e (omega arith, (from_str_radix-lt a b v byte, small))

-- What `from_hex` returns is one byte for each two characters.
pub from_hex-bytes :
    (text : Text) (vs : List ℕ)
    → from_hex text ≡ returns (some vs)
    → (length text ≡ 2 * length vs) × All (λ v. v < 256) vs
unfolding from_hex
from_hex-bytes text vs h = from_pairs-bytes text vs (ground arith)

from_hex-from_pairs :
    (text : Text) (vs : List ℕ)
    → from_hex text ≡ returns (some vs)
    → (length text % 2 ≡ 0) × (from_pairs text ≡ returns (some vs))
unfolding from_hex
from_hex-from_pairs text vs h = ground arith

pub from_pairs-from_hex :
    (text : Text) (vs : List ℕ)
    → length text % 2 ≡ 0
    → from_pairs text ≡ returns (some vs)
    → from_hex text ≡ returns (some vs)
unfolding from_hex
from_pairs-from_hex text vs even h = ground arith

from_str_radix-plus : (c d : ℕ) → to_digit c ≡ some d → from_str_radix b'+' c ≡ some d
unfolding from_str_radix
from_str_radix-plus c d h = h

-- A pair that begins with a plus sign and goes on with a hex digit is read as that digit, so a text
-- that is not hex is accepted, if what follows is ASCII and is accepted.
pub from_hex-plus :
    (c d : ℕ) (rest : Text) (vs : List ℕ)
    → to_digit c ≡ some d
    → All (λ x. x < 128) rest
    → from_hex rest ≡ returns (some vs)
    → from_hex (b'+' ∷ c ∷ rest) ≡ returns (some (d ∷ vs))
from_hex-plus c d rest vs digit plain later =
    let (even, walk) = from_hex-from_pairs rest vs later in
    from_pairs-from_hex _ _ (omega arith) (
      from_pairs-cons _ c d rest vs (unfold continuation in refl) (splits_char-ascii rest plain)
        (from_str_radix-plus c d digit) walk)

-- Text of even length whose third byte is inside a character: `from_hex` does not refuse it, it panics.
pub from_hex-split_char :
    (a b c d : ℕ) (rest : Text)
    → 0x80 ≤ c
    → c < 0xc0
    → length rest % 2 ≡ 0
    → from_hex (a ∷ b ∷ c ∷ d ∷ rest) ≡ panics
unfolding from_hex from_pairs continuation
from_hex-split_char a b c d rest low high even = ground arith
