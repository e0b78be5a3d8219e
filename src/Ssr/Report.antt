-- ===== src/Ssr/Report.antt =====
-- examples/common/mod.rs: `report`. The order of `f64::total_cmp` is a parameter, and the mean is left to the floats.
use openworkers_runtime_nova.Prelude.{
  ℕ, zero, suc, ◌/◌, ◌<◌, ◌≡◌, refl, ◌∙◌, ap, Bool, Option, none, some, List, [], ◌∷◌, Outcome,
  returns, panics, arith, if◌then◌else◌, Bool-cases, inl, inr, length,
}
use openworkers_runtime_nova.Conformance.{get}

-- What is printed of samples: the least, the one in the middle, and how many there are.
pub record Report (F : Type 0) : Type 0 where
  pub least : F
  pub median : F
  pub size : ℕ

module _ {F : Type 0} (le : F → F → Bool) where
  unfoldable pub insert : F → List F → List F
  insert x [] = x ∷ []
  insert x (y ∷ ys) = let rest = insert x ys in if le x y then x ∷ y ∷ ys else y ∷ rest

  unfoldable pub sort : List F → List F
  unfolding insert
  sort [] = []
  sort (x ∷ xs) = insert x (sort xs)

  abbrev reported : ℕ → Option F → Option F → Outcome (Report F)
  reported size none median = panics
  reported size (some least) none = panics
  reported size (some least) (some median) =
      returns (record { least = least; median = median; size = size })

  -- An index that is out of bounds panics.
  unfoldable pub report : List F → Outcome (Report F)
  unfolding sort
  report samples =
      let sorted = sort samples in
      reported (length sorted) (get 0 sorted) (get (length sorted / 2) sorted)

  length-insert : (x : F) (xs : List F) → length (insert x xs) ≡ suc (length xs)
  unfolding insert
  length-insert x [] = refl
  length-insert x (y ∷ ys) = elim (Bool-cases (le x y)) [
    | inl e ↦ rw e refl
    | inr e ↦ rw e (ap suc (length-insert x ys))
  ]

  length-sort : (xs : List F) → length (sort xs) ≡ length xs
  unfolding sort
  length-sort [] = refl
  length-sort (x ∷ xs) = length-insert x (sort xs) ∙ ap suc (length-sort xs)

  get-some : (n : ℕ) (xs : List F) → n < length xs → (x : F) × (get n xs ≡ some x)
  unfolding get
  get-some n [] lt = absurd (omega arith)
  get-some zero (x ∷ xs) lt = (x, refl)
  get-some (suc n) (x ∷ xs) lt = get-some n xs (omega arith)

  -- Of any samples at all there is a report, of as many.
  report-some :
      (x : F) (xs : List F)
      → (r : Report F) × (report (x ∷ xs) ≡ returns r) × (r.size ≡ suc (length xs))
  unfolding report
  report-some x xs =
      let size = length-sort (x ∷ xs) in
      let (least, e) = get-some 0 (sort (x ∷ xs)) (omega (arith, size)) in
      let (median, f) =
        get-some (length (sort (x ∷ xs)) / 2) (sort (x ∷ xs)) (omega (arith, size)) in
      (
        record { least = least; median = median; size = length (sort (x ∷ xs)) },
        rw (e, f) refl,
        size,
      )
