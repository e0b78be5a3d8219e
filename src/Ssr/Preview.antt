-- ===== src/Ssr/Preview.antt =====
-- What examples/ssr.rs prints of the first render.
use openworkers_runtime_nova.Prelude.{
  ℕ, zero, suc, ◌<◌, ◌≤◌, ◌≡◌, ◌↔◌, refl, sym, ◌∙◌, ap, true, false, Option, none, some, [], ◌∷◌,
  ◌++◌, Result, ok, err, Outcome, returns, panics, arith, Text, text_eq, text_eq_refl, text_eq-true,
  Bool-cases, inl, inr, length, true-false,
}
use openworkers_runtime_nova.Prelude.Slices.{take, drop}
use openworkers_runtime_nova.Hex.{continuation, splits_char}
use openworkers_runtime_nova.Worker.{Reason}
use openworkers_runtime_nova.Conformance.{get, min}
use openworkers_runtime_nova.Ssr.{Rendered, FirstRender, preview, verdict_on, first_render}

take-drop : (n : ℕ) (xs : Text) → xs ≡ take n xs ++ drop n xs
take-drop zero xs = refl
take-drop (suc n) [] = refl
take-drop (suc n) (x ∷ xs) = ap (λ ys. x ∷ ys) (take-drop n xs)

length-take : (n : ℕ) (xs : Text) → n ≤ length xs → length (take n xs) ≡ n
length-take zero xs le = refl
length-take (suc n) [] le = absurd (omega arith)
length-take (suc n) (x ∷ xs) le = let e = length-take n xs (omega arith) in omega (arith, e)

-- A text that is cut where a character goes on has a byte there.
splits_char-get :
    (n : ℕ) (xs : Text)
    → splits_char (drop n xs) ≡ true
    → (n < length xs) × ((c : ℕ) × (get n xs ≡ some c) × (continuation c ≡ true))
unfolding splits_char get
splits_char-get zero [] e = absurd (true-false (sym e))
splits_char-get zero (x ∷ xs) e = (omega arith, (x, refl, e))
splits_char-get (suc n) [] e = absurd (true-false (sym e))
splits_char-get (suc n) (x ∷ xs) e =
    let (lt, found) = splits_char-get n xs e in (omega arith, found)

-- Whether a render that came back is the reference.
abbrev pub Matches : Option Text → Text → Option (Option ℕ) → Type 0
Matches none body verdict = verdict ≡ none
Matches (some expected) body verdict = (verdict ≡ some none) ↔ (body ≡ expected)

-- What may come of a render that came back.
abbrev pub Shown : Option Text → Rendered → Outcome (Result FirstRender Text) → Type 0
Shown expected r panics =
    (200 < length r.body) × ((c : ℕ) × (get 200 r.body ≡ some c) × (continuation c ≡ true))
Shown expected r (returns (err message)) = ⊥
Shown expected r (returns (ok first)) =
    (rest : Text) × (r.body ≡ first.shown ++ rest)
    × (length first.shown ≡ min (length r.body) 200)
    × (splits_char rest ≡ false)
    × Matches expected r.body first.verdict

verdict_on-Matches :
    (expected : Option Text) (body : Text) → Matches expected body (verdict_on expected body)
unfolding verdict_on
verdict_on-Matches none body = refl
verdict_on-Matches (some expected) body = elim (Bool-cases (text_eq body expected)) [
  | inl same ↦ rw same (λ e. text_eq-true body expected same, λ e. refl)
  | inr other ↦
      rw other (λ e. cc, λ e. absurd (true-false (sym (text_eq_refl body) ∙ rw (← e) at other)))
]

min-past : (n m : ℕ) → min n m < n → min n m ≡ m
min-past n m lt = ground arith

min-le : (n m : ℕ) → min n m ≤ n
min-le n m = ground arith

preview-panics :
    (body : Text) → splits_char (drop (min (length body) 200) body) ≡ true → preview body ≡ panics
unfolding preview
preview-panics body e = rw e refl

preview-returns :
    (body : Text)
    → splits_char (drop (min (length body) 200) body) ≡ false
    → preview body ≡ returns (take (min (length body) 200) body)
unfolding preview
preview-returns body e = rw e refl

-- Past 200 bytes, if a text is cut in a character.
splits_char-past :
    (body : Text)
    → splits_char (drop (min (length body) 200) body) ≡ true
    → (200 < length body) × ((c : ℕ) × (get 200 body ≡ some c) × (continuation c ≡ true))
splits_char-past body e =
    let (lt, found) = splits_char-get (min (length body) 200) body e in
    let end = min-past (length body) 200 lt in (omega (arith, end), rw end at found)

-- Where the page comes back, the first render is printed or panics. It panics only where the page has more than 200 bytes
-- and the byte after these is inside a character; else it shows as many of the page's bytes, cut between two
-- characters, and says that the page is the reference exactly where it is.
pub first_render-Shown :
    (debug : Reason → Text) (expected : Option Text) (r : Rendered)
    → Shown expected r (first_render debug expected (ok r))
unfolding first_render
first_render-Shown debug expected r =
    elim (Bool-cases (splits_char (drop (min (length r.body) 200) r.body))) [
      | inl split ↦ rw (preview-panics r.body split) (splits_char-past r.body split)
      | inr whole ↦ rw (preview-returns r.body whole) (
        drop (min (length r.body) 200) r.body,
        take-drop (min (length r.body) 200) r.body,
        length-take (min (length r.body) 200) r.body (min-le (length r.body) 200),
        whole,
        verdict_on-Matches expected r.body,
      )
    ]
