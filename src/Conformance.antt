-- ===== src/Conformance.antt =====
-- examples/conformance.rs: requests of a fixture go through a worker, and the answers are compared with the recorded
-- ones. The files, the transform and the hasher are parameters, and what is printed is what the definitions give.
pub mod Diff
pub mod Driver
pub mod Main
pub mod Verdict
pub mod Dispatch
mod Tests
use openworkers_runtime_nova.Prelude.{
  ℕ, zero, suc, ◌+◌, ◌-◌, Bool, true, false, ◌&&◌, not, Option, none, some, List, [], ◌∷◌, ◌++◌,
  map, Result, ok, err, Outcome, returns, panics, ◌>>=◌, Text, bytes, text_eq, leb, ltb, ◌==◌,
  if◌then◌else◌, length,
}
use openworkers_runtime_nova.Prelude.Slices.{take, drop}
use openworkers_runtime_nova.Bindings.{unwrap_or}
use openworkers_runtime_nova.Url.Components.{decimal}

-- `slice.get(index)`.
unfoldable pub get {ℓ} : {A : Type ℓ} → ℕ → List A → Option A
get index [] = none
get zero (x ∷ xs) = some x
get (suc index) (x ∷ xs) = get index xs

-- Where two lists of headers disagree: an index, with what was wanted there, or what there was, or both.
pub data Difference : Type 0 where
  differs : ℕ → Text → Text → Difference
  missing : ℕ → Text → Difference
  unexpected : ℕ → Text → Difference

-- An index has at most 20 digits.
unfoldable pub message : Difference → Text
message (differs index want have) =
    bytes "header "
    ++ (decimal 20 index
        ++ (bytes ": want `" ++ (want ++ (bytes "`, got `" ++ (have ++ bytes "`")))))
message (missing index want) =
    bytes "header " ++ (decimal 20 index ++ (bytes ": want `" ++ (want ++ bytes "`, got nothing")))
message (unexpected index extra) =
    bytes "header " ++ (decimal 20 index ++ (bytes ": unexpected `" ++ (extra ++ bytes "`")))

-- What a header that was got says about one that was wanted, before the `rest` of them.
unfoldable pub compare_header : ℕ → Text → Option Difference → Option Text → Option Difference
compare_header index want rest none = some (missing index want)
compare_header index want rest (some have) =
    if text_eq have want then rest else some (differs index want have)

unfoldable pub extra_header : ℕ → Option Text → Option Difference
extra_header index none = none
extra_header index (some extra) = some (unexpected index extra)

-- The loop of `header_diff`, from an index on.
unfoldable pub first_difference : ℕ → List Text → List Text → Option Difference
unfolding get compare_header extra_header
first_difference index [] got = extra_header index (get index got)
first_difference index (want ∷ expected) got =
    compare_header index want (first_difference (index + 1) expected got) (get index got)

abbrev pub mapped : {A B : Type 0} → (A → B) → Option A → Option B
mapped f none = none
mapped f (some a) = some (f a)

unfoldable pub header_diff : List Text → List Text → Option Text
unfolding first_difference message
header_diff expected got = mapped message (first_difference 0 expected got)

-- The parts of the message of `body_diff`: the first byte that differs, and the bytes around it.
pub record BodyDiff : Type 0 where
  pub at : ℕ
  pub expected : List ℕ
  pub got : List ℕ

-- `zip` and `position`.
unfoldable pub position : List ℕ → List ℕ → Option ℕ
position [] ys = none
position (x ∷ xs) [] = none
position (x ∷ xs) (y ∷ ys) =
    let later = mapped suc (position xs ys) in if x == y then later else some 0

abbrev pub min : ℕ → ℕ → ℕ
min a b = if leb a b then a else b

unfoldable pub divergence : List ℕ → List ℕ → ℕ
unfolding position
divergence expected got = unwrap_or (position expected got) (min (length expected) (length got))

-- `&bytes[from..to]`
unfoldable pub slice : ℕ → ℕ → List ℕ → Outcome (List ℕ)
slice from to input =
    if leb from to && leb to (length input)
    then returns (take (to - from) (drop from input))
    else panics

-- The slices that the message shows.
unfoldable pub around : ℕ → List ℕ → List ℕ → Outcome BodyDiff
unfolding slice
around at expected got = do
  want ← slice (at - 40) (min (at + 60) (length expected)) expected
  have ← slice (at - 40) (min (at + 60) (length got)) got
  returns (record { at = at; expected = want; got = have })

unfoldable pub body_diff : List ℕ → List ℕ → Outcome (Option BodyDiff)
unfolding divergence around
body_diff expected got =
    if text_eq expected got
    then returns none
    else (do diff ← around (divergence expected got) expected got; returns (some diff))
