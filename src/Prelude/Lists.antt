-- ===== src/Prelude/Lists.antt =====
-- Lists measured by native numbers, and predicates on all their elements.
use Prim.Native.Nat.{ℕ, suc, ◌+◌, ◌≤◌}
use mathlib.Core.Path.{◌≡◌, refl}
use mathlib.Core.Bool.{Bool}
use mathlib.Core.Option.{Option, none, some}
use mathlib.Core.List.{List, [], ◌∷◌, ◌++◌}
use native.Mathlib.Omega.{arith}
use mathlib.Core.Logic.{inl, inr}
use openworkers_runtime_nova.Prelude.Tests.{if◌then◌else◌, Option-cases}

abbrev pub All {ℓ κ} : {A : Type ℓ} → (A → Type κ) → List A → Type κ
All P [] = Unit
All P (x ∷ xs) = P x × All P xs

pub All-append {ℓ κ} :
    {A : Type ℓ} (P : A → Type κ) (xs ys : List A) → All P xs → All P ys → All P (xs ++ ys)
All-append P [] ys hx hy = hy
All-append P (x ∷ xs) ys hx hy = (hx.0, All-append P xs ys hx.1 hy)

pub All-imp {ℓ κ μ} :
    {A : Type ℓ} (P : A → Type κ) (Q : A → Type μ) (xs : List A)
    → ((a : A) → P a → Q a)
    → All P xs
    → All Q xs
All-imp P Q [] f h = tt
All-imp P Q (x ∷ xs) f h = (f x h.0, All-imp P Q xs f h.1)

pub All-imp_both {ℓ κ μ ν} :
    {A : Type ℓ} (P : A → Type κ) (Q : A → Type μ) (R : A → Type ν) (xs : List A)
    → ((a : A) → P a → Q a → R a)
    → All P xs
    → All Q xs
    → All R xs
All-imp_both P Q R [] f h k = tt
All-imp_both P Q R (x ∷ xs) f h k = (f x h.0 k.0, All-imp_both P Q R xs f h.1 k.1)

pub All-append_inv {ℓ κ} :
    {A : Type ℓ} (P : A → Type κ) (xs ys : List A) → All P (xs ++ ys) → All P xs × All P ys
All-append_inv P [] ys h = (tt, h)
All-append_inv P (x ∷ xs) ys h = let (l, r) = All-append_inv P xs ys h.1 in ((h.0, l), r)

module _ {ℓ} {A : Type ℓ} where
  abbrev pub length : List A → ℕ
  length [] = 0
  length (x ∷ xs) = suc (length xs)

  pub length-append : (xs ys : List A) → length (xs ++ ys) ≡ length xs + length ys
  length-append [] ys = omega arith
  length-append (x ∷ xs) ys = omega (arith, length-append xs ys)

  -- `Vec::retain` and `Iterator::filter`.
  unfoldable pub retain : (A → Bool) → List A → List A
  retain keep [] = []
  retain keep (x ∷ xs) = let rest = retain keep xs in if keep x then x ∷ rest else rest

  pub length-retain-le : (keep : A → Bool) (xs : List A) → length (retain keep xs) ≤ length xs
  unfolding retain
  length-retain-le keep [] = omega arith
  length-retain-le keep (x ∷ xs) = ground (arith, length-retain-le keep xs)

  pub All-retain {κ} :
      (P : A → Type κ) (keep : A → Bool) (xs : List A) → All P xs → All P (retain keep xs)
  unfolding retain
  All-retain P keep [] h = h
  All-retain P keep (x ∷ xs) h = ground (arith, All-retain P keep xs h.1)

  -- `Vec::pop`: the last element, and what stays.
  unfoldable pub pop : List A → Option (A × List A)
  pop [] = none
  pop (x ∷ xs) = elim (pop xs) [ none ↦ some (x, []) | some (y, rest) ↦ some (y, x ∷ rest) ]

  pub pop-append : (xs : List A) (x : A) → pop (xs ++ x ∷ []) ≡ some (x, xs)
  unfolding pop
  pop-append [] x = refl
  pop-append (y ∷ ys) x = rw (pop-append ys x)

  pub pop-none : (xs : List A) → pop xs ≡ none → xs ≡ []
  unfolding pop
  pop-none [] e = refl
  pop-none (x ∷ xs) e = absurd (ground arith)

  pub pop-some :
      (xs : List A) (x : A) (rest : List A) → pop xs ≡ some (x, rest) → xs ≡ rest ++ x ∷ []
  unfolding pop
  pop-some [] x rest e = cc
  pop-some (y ∷ ys) x rest e = elim (Option-cases (pop ys)) [
    | inl out ↦ let f = rw out at e in rw (pop-none ys out) cc
    | inr ((z, before), out) ↦ let f = rw out at e in rw (pop-some ys z before out) cc
  ]

  -- The sum of a measure over a list.
  abbrev pub total : (A → ℕ) → List A → ℕ
  total m [] = 0
  total m (x ∷ xs) = m x + total m xs

  pub total-append : (m : A → ℕ) (xs ys : List A) → total m (xs ++ ys) ≡ total m xs + total m ys
  total-append m [] ys = omega arith
  total-append m (x ∷ xs) ys = omega (arith, total-append m xs ys)

  pub total-retain-le :
      (m : A → ℕ) (keep : A → Bool) (xs : List A) → total m (retain keep xs) ≤ total m xs
  unfolding retain
  total-retain-le m keep [] = omega arith
  total-retain-le m keep (x ∷ xs) = ground (arith, total-retain-le m keep xs)
