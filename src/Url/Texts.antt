-- ===== src/Url/Texts.antt =====
-- What the text functions of src/url.rs find.
use openworkers_runtime_nova.Prelude.{
  ℕ, ◌≡◌, ◌≢◌, refl, sym, ◌∙◌, ap, ◌⊎◌, inl, inr, true, false, Option, none, some, [], ◌∷◌, ◌++◌,
  Text, arith, ◌==◌, ==-refl, Bool-cases, true-false,
}
use openworkers_runtime_nova.Url.{contains, up_to, rsplit, ends_with, strip, non_empty}
use openworkers_runtime_nova.Url.Host.{ends_with-append}
use openworkers_runtime_nova.Url.Components.Sets.{Lacks, EndsIn, IsText, Unmarked}

same : (x c : ℕ) → (x == c) ≡ true → x ≡ c
same x c e = ground arith

apart : (x c : ℕ) → (x == c) ≡ false → x ≢ c
apart x c e f = ground arith

-- What stands before the first `c`.
abbrev pub FirstCut : ℕ → Text → Text → Type 0
FirstCut c value before =
    (after : Text) × (value ≡ before ++ after)
    × Lacks c before
    × ((after ≡ []) ⊎ ((rest : Text) × (after ≡ c ∷ rest)))

pub up_to-FirstCut : (c : ℕ) (value : Text) → FirstCut c value (up_to c value)
unfolding up_to
up_to-FirstCut c [] = ([], refl, tt, inl refl)
up_to-FirstCut c (x ∷ xs) = elim (Bool-cases (x == c)) [
  | inl e ↦ rw e (x ∷ xs, refl, tt, inr (xs, rw (same x c e) refl))
  | inr e ↦
      let (after, whole, lacks, rest) = up_to-FirstCut c xs in
      rw e (after, ap (λ t. x ∷ t) whole, (apart x c e, lacks), rest)
]

-- What stands around the last `c`, if there is one.
abbrev pub LastCut : ℕ → Text → Option (Text × Text) → Type 0
LastCut c value none = Lacks c value
LastCut c value (some (before, after)) = (value ≡ before ++ (c ∷ after)) × Lacks c after

rsplit-cons :
    (c x : ℕ) (xs : Text) (o : Option (Text × Text))
    → rsplit c xs ≡ o
    → LastCut c xs o
    → LastCut c (x ∷ xs) (rsplit c (x ∷ xs))
unfolding rsplit
rsplit-cons c x xs (some (before, after)) e (whole, lacks) =
    rw (e, rsplit) (ap (λ t. x ∷ t) whole, lacks)
rsplit-cons c x xs none e lacks =
    rw (e, rsplit)
      (elim (Bool-cases (x == c)) [
        | inl f ↦ rw f (rw (same x c f) refl, lacks)
        | inr f ↦ rw f (apart x c f, lacks)
      ])

pub rsplit-LastCut : (c : ℕ) (value : Text) → LastCut c value (rsplit c value)
rsplit-LastCut c [] = unfold rsplit in tt
rsplit-LastCut c (x ∷ xs) = rsplit-cons c x xs (rsplit c xs) refl (rsplit-LastCut c xs)

pub ends_with-true : (c : ℕ) (value : Text) → ends_with c value ≡ true → EndsIn c value
unfolding ends_with
ends_with-true c [] e = absurd (true-false (sym e))
ends_with-true c (x ∷ []) e = ([], rw (same x c e) refl)
ends_with-true c (x ∷ y ∷ ys) e =
    let (start, whole) = ends_with-true c (y ∷ ys) e in (x ∷ start, ap (λ t. x ∷ t) whole)

pub ends_with-false : (c : ℕ) (value : Text) → ends_with c value ≡ false → EndsIn c value → ⊥
unfolding ends_with
ends_with-false c value e (start, whole) =
    true-false (sym (==-refl c) ∙ (sym (ends_with-append c start c []) ∙ (rw whole at e)))

pub contains-true :
    (c : ℕ) (value : Text)
    → contains c value ≡ true
    → (before : Text) × (after : Text) × (value ≡ before ++ (c ∷ after))
unfolding contains
contains-true c [] e = absurd (true-false (sym e))
contains-true c (x ∷ xs) e = elim (Bool-cases (x == c)) [
  | inl f ↦ ([], xs, rw (same x c f) refl)
  | inr f ↦
      let (before, after, whole) = contains-true c xs (rw f at e) in
      (x ∷ before, after, ap (λ t. x ∷ t) whole)
]

pub contains-false : (c : ℕ) (value : Text) → contains c value ≡ false → Lacks c value
unfolding contains
contains-false c [] e = tt
contains-false c (x ∷ xs) e = elim (Bool-cases (x == c)) [
  | inl f ↦ absurd (true-false (rw f at e))
  | inr f ↦ (apart x c f, contains-false c xs (rw f at e))
]

head_of : ℕ → Text → ℕ
head_of d [] = d
head_of d (x ∷ xs) = x

pub strip-Unmarked : (mark : ℕ) (value : Text) → Unmarked mark value (strip mark value)
unfolding strip head_of
strip-Unmarked mark [] = inr (refl, λ rest e. cc)
strip-Unmarked mark (x ∷ xs) = elim (Bool-cases (x == mark)) [
  | inl e ↦ rw e (inl (rw (same x mark e) refl))
  | inr e ↦ rw e (inr (refl, λ rest f. apart x mark e (ap (head_of x) f)))
]

pub non_empty-IsText : (text : Text) → IsText text (non_empty text)
unfolding non_empty
non_empty-IsText [] = refl
non_empty-IsText (x ∷ xs) = (λ e. cc, refl)
