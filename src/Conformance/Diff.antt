-- ===== src/Conformance/Diff.antt =====
-- What `header_diff` and `body_diff` of examples/conformance.rs find.
use openworkers_runtime_nova.Prelude.{
  true-false, ℕ, suc, ◌+◌, ◌-◌, ◌≤◌, ◌≡◌, ◌≢◌, ◌⊎◌, inl, inr, refl, sym, ap, ap₂, ◌∙◌, false,
  Option, none, some, List, [], ◌∷◌, ◌++◌, Outcome, returns, panics, Text, text_eq, text_eq-true,
  text_eq_refl, ==-refl, Bool-cases, ◌==◌, if◌then◌else◌, arith, length, length-append,
}
use openworkers_runtime_nova.Prelude.Slices.{take, drop}
use mathlib.Core.List.{append-nil}
use openworkers_runtime_nova.Bindings.{unwrap_or}
use openworkers_runtime_nova.Conformance.{
  get, Difference, differs, missing, unexpected, compare_header, extra_header, first_difference,
  BodyDiff, mapped, position, min, divergence, slice, around, body_diff,
}

-- Where two lists of headers first disagree.
abbrev pub Located : List Text → List Text → Option Difference → Type 0
Located expected got none = expected ≡ got
Located expected got (some (differs index want have)) =
    (before : List Text) × (es : List Text) × (gs : List Text) × (expected ≡ before ++ (want ∷ es))
    × (got ≡ before ++ (have ∷ gs))
    × (length before ≡ index)
    × (want ≢ have)
Located expected got (some (missing index want)) =
    (es : List Text) × (expected ≡ got ++ (want ∷ es)) × (length got ≡ index)
Located expected got (some (unexpected index extra)) =
    (gs : List Text) × (got ≡ expected ++ (extra ∷ gs)) × (length expected ≡ index)

module _ {ℓ} {A : Type ℓ} where
  get-append : (pre xs : List A) → get (length pre) (pre ++ xs) ≡ get 0 xs
  unfolding get
  get-append [] xs = refl
  get-append (p ∷ pre) xs = get-append pre xs

  snoc : (pre : List A) (x : A) (xs : List A) → (pre ++ (x ∷ [])) ++ xs ≡ pre ++ (x ∷ xs)
  snoc [] x xs = refl
  snoc (p ∷ pre) x xs = ap (λ l. p ∷ l) (snoc pre x xs)

  length-snoc : (pre : List A) (x : A) → length (pre ++ (x ∷ [])) ≡ length pre + 1
  length-snoc pre x = length-append pre (x ∷ [])

first_difference-cons :
    (pre : List Text) (want have : Text) (es gs : List Text)
    → Located
        ((pre ++ (want ∷ [])) ++ es)
        ((pre ++ (want ∷ [])) ++ gs)
        (first_difference (length (pre ++ (want ∷ []))) es ((pre ++ (want ∷ [])) ++ gs))
    → Located (pre ++ (want ∷ es)) (pre ++ (have ∷ gs)) (
        if text_eq have want
        then first_difference (length pre + 1) es (pre ++ (have ∷ gs))
        else some (differs (length pre) want have))
first_difference-cons pre want have es gs ih = elim (Bool-cases (text_eq have want)) [
  | inl same ↦ rw same (
      rw (text_eq-true have want same)
        (rw (snoc pre want es, snoc pre want gs, length-snoc pre want) at ih))
  | inr apart ↦ rw apart (
    pre,
    es,
    gs,
    refl,
    refl,
    refl,
    λ e. true-false (sym (text_eq_refl want) ∙ (rw (sym e) at apart)),
  )
]

first_difference-append :
    (pre es gs : List Text)
    → Located (pre ++ es) (pre ++ gs) (first_difference (length pre) es (pre ++ gs))
unfolding first_difference extra_header compare_header
first_difference-append pre [] [] = rw (get-append pre []) refl
first_difference-append pre [] (x ∷ gs) =
    rw (get-append pre (x ∷ gs)) (gs, rw (append-nil pre) refl, ap length (append-nil pre))
first_difference-append pre (want ∷ es) [] =
    rw (get-append pre []) (es, rw (append-nil pre) refl, ap length (append-nil pre))
first_difference-append pre (want ∷ es) (have ∷ gs) =
    rw (get-append pre (have ∷ gs)) (
      first_difference-cons pre want have es gs
        (first_difference-append (pre ++ (want ∷ [])) es gs))

pub first_difference-Located :
    (expected got : List Text) → Located expected got (first_difference 0 expected got)
first_difference-Located expected got = first_difference-append [] expected got

append-cons-injective :
    (pre : List Text) (x y : Text) (xs ys : List Text) → pre ++ (x ∷ xs) ≡ pre ++ (y ∷ ys) → x ≡ y
append-cons-injective [] x y xs ys e = cc
append-cons-injective (p ∷ pre) x y xs ys e =
    let tails : pre ++ (x ∷ xs) ≡ pre ++ (y ∷ ys) = cc in append-cons-injective pre x y xs ys tails

append-longer : (xs : List Text) (y : Text) (ys : List Text) → xs ++ (y ∷ ys) ≢ xs
append-longer xs y ys e =
    let len : length (xs ++ (y ∷ ys)) ≡ length xs + length (y ∷ ys) = length-append xs (y ∷ ys) in
    let same : length (xs ++ (y ∷ ys)) ≡ length xs = ap length e in omega arith

-- Lists that disagree somewhere are not equal.
pub Located-differ :
    (expected got : List Text) (d : Difference) → Located expected got (some d) → expected ≢ got
Located-differ expected got (differs index want have) (before, es, gs, e, g, l, other) same =
    other (append-cons-injective before want have es gs (sym e ∙ same ∙ g))
Located-differ expected got (missing index want) (es, e, l) same =
    append-longer got want es (sym e ∙ same)
Located-differ expected got (unexpected index extra) (gs, g, l) same =
    append-longer expected extra gs (sym g ∙ sym same)

-- What two bodies go on with where they diverge.
abbrev pub Apart : List ℕ → List ℕ → Type 0
Apart [] [] = ⊥
Apart [] (y ∷ ys) = Unit
Apart (x ∷ xs) [] = Unit
Apart (x ∷ xs) (y ∷ ys) = x ≢ y

-- Two bodies that agree up to an index, and not on it.
abbrev pub Diverges : List ℕ → List ℕ → ℕ → Type 0
Diverges expected got at =
    (before : List ℕ) × (es : List ℕ) × (gs : List ℕ) × (expected ≡ before ++ es)
    × (got ≡ before ++ gs)
    × (length before ≡ at)
    × Apart es gs

position-same : (x : ℕ) (xs ys : List ℕ) → position (x ∷ xs) (x ∷ ys) ≡ mapped suc (position xs ys)
unfolding position
position-same x xs ys = rw (==-refl x) refl

position-apart : (x y : ℕ) (xs ys : List ℕ) → (x == y) ≡ false → position (x ∷ xs) (y ∷ ys) ≡ some 0
unfolding position
position-apart x y xs ys e = rw e refl

unwrap_or-suc :
    (o : Option ℕ) (a b : ℕ)
    → unwrap_or (mapped suc o) (min (suc a) (suc b)) ≡ suc (unwrap_or o (min a b))
unwrap_or-suc none a b = ground arith
unwrap_or-suc (some i) a b = refl

divergence-same : (x : ℕ) (xs ys : List ℕ) → divergence (x ∷ xs) (x ∷ ys) ≡ suc (divergence xs ys)
unfolding divergence
divergence-same x xs ys =
    rw (position-same x xs ys) (unwrap_or-suc (position xs ys) (length xs) (length ys))

divergence-apart : (x y : ℕ) (xs ys : List ℕ) → (x == y) ≡ false → divergence (x ∷ xs) (y ∷ ys) ≡ 0
unfolding divergence
divergence-apart x y xs ys e = rw (position-apart x y xs ys e) refl

Diverges-cons :
    (x : ℕ) (xs ys : List ℕ)
    → Diverges xs ys (divergence xs ys)
    → Diverges (x ∷ xs) (x ∷ ys) (divergence (x ∷ xs) (x ∷ ys))
Diverges-cons x xs ys (before, es, gs, e, g, l, a) =
    rw (divergence-same x xs ys)
      (x ∷ before, es, gs, ap (λ l. x ∷ l) e, ap (λ l. x ∷ l) g, omega (arith, l), a)

==-cases : (x y : ℕ) → ((x ≡ y) ⊎ ((x ≢ y) × ((x == y) ≡ false)))
==-cases x y = ground arith

divergence-Diverges :
    (expected got : List ℕ) → expected ≢ got → Diverges expected got (divergence expected got)
divergence-Diverges [] [] h = absurd (h refl)
divergence-Diverges [] (y ∷ ys) h =
    unfold divergence position in ([], [], y ∷ ys, refl, refl, ground arith, tt)
divergence-Diverges (x ∷ xs) [] h =
    unfold divergence position in ([], x ∷ xs, [], refl, refl, ground arith, tt)
divergence-Diverges (x ∷ xs) (y ∷ ys) h = elim (==-cases x y) [
  | inl same ↦
      rw (sym same)
        (Diverges-cons x xs ys (divergence-Diverges xs ys (λ e. h (ap₂ (λ a l. a ∷ l) same e))))
  | inr (other, e) ↦ rw (divergence-apart x y xs ys e) ([], x ∷ xs, y ∷ ys, refl, refl, refl, other)
]

-- What `body_diff` makes of two bodies.
abbrev pub DiffOf : List ℕ → List ℕ → Outcome (Option BodyDiff) → Type 0
DiffOf expected got panics = ⊥
DiffOf expected got (returns none) = expected ≡ got
DiffOf expected got (returns (some diff)) =
    (expected ≢ got)
    × Diverges expected got diff.at
    × (diff.expected
        ≡ take (min (diff.at + 60) (length expected) - (diff.at - 40))
            (drop (diff.at - 40) expected))
    × (diff.got ≡ take (min (diff.at + 60) (length got) - (diff.at - 40)) (drop (diff.at - 40) got))

slice-take :
    (from to : ℕ) (input : List ℕ)
    → from ≤ to
    → to ≤ length input
    → slice from to input ≡ returns (take (to - from) (drop from input))
unfolding slice
slice-take from to input le within = ground arith

Diverges-le :
    (expected got : List ℕ) (at : ℕ)
    → Diverges expected got at
    → (at ≤ length expected) × (at ≤ length got)
Diverges-le expected got at (before, es, gs, e, g, l, a) =
    let le : length (before ++ es) ≡ length before + length es = length-append before es in
    let lg : length (before ++ gs) ≡ length before + length gs = length-append before gs in
    (rw e (omega arith), rw g (omega arith))

-- The parts of the message about a byte.
abbrev shown : ℕ → List ℕ → List ℕ → BodyDiff
shown at expected got = record {
  at = at;
  expected = take (min (at + 60) (length expected) - (at - 40)) (drop (at - 40) expected);
  got = take (min (at + 60) (length got) - (at - 40)) (drop (at - 40) got);
}

from-le-to : (at len : ℕ) → at ≤ len → (at - 40 ≤ min (at + 60) len) × (min (at + 60) len ≤ len)
from-le-to at len le = (ground arith, ground arith)

around-shown :
    (at : ℕ) (expected got : List ℕ)
    → at ≤ length expected
    → at ≤ length got
    → around at expected got ≡ returns (shown at expected got)
unfolding around
around-shown at expected got le lg =
    let (a, b) = from-le-to at (length expected) le in
    let (c, d) = from-le-to at (length got) lg in
    rw (slice-take (at - 40) (min (at + 60) (length expected)) expected a b)
      (rw (slice-take (at - 40) (min (at + 60) (length got)) got c d) refl)

-- `body_diff` does not panic. It finds nothing exactly where the bodies are equal, and else the first byte on which they
-- differ or one of them ends, and shows of each the bytes from 40 before it, as far as there are, to 60 after it.
pub body_diff-DiffOf : (expected got : List ℕ) → DiffOf expected got (body_diff expected got)
unfolding body_diff
body_diff-DiffOf expected got = elim (Bool-cases (text_eq expected got)) [
  | inl same ↦ rw same (text_eq-true expected got same)
  | inr apart ↦
      let other : expected ≢ got = λ e. true-false (sym (text_eq_refl got) ∙ (rw e at apart)) in
      let d = divergence-Diverges expected got other in
      let (le, lg) = Diverges-le expected got (divergence expected got) d in
      rw apart
        (rw (around-shown (divergence expected got) expected got le lg) (other, d, refl, refl))
]
