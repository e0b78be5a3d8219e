-- ===== src/Timers/Cancel.antt =====
-- `native_timer_start` of src/worker.rs against `native_timer_clear`, and where it panics.
use mathlib.Core.List.{append-nil}
use openworkers_runtime_nova.Prelude.{
  ℕ, ◌+◌, ◌≤◌, ◌<◌, ◌≡◌, refl, ◌∙◌, ◌↔◌, ap, Bool, true, not, Option, none, some, List, [], ◌∷◌,
  ◌++◌, arith, returns, panics, if◌then◌else◌, All, Bool-cases, inl, inr, retain,
}
use openworkers_runtime_nova.Value.{Float}
use openworkers_runtime_nova.Timers.{
  Timer, Timers, delay_of, add_duration, push, start, clear, instant_limit,
}
use openworkers_runtime_nova.Timers.Invariant.{start_inv}

module _ {A : Type 0} (keep : A → Bool) where
  pub retain-append : (xs ys : List A) → retain keep (xs ++ ys) ≡ retain keep xs ++ retain keep ys
  unfolding retain
  retain-append [] ys = refl
  retain-append (x ∷ xs) ys = elim (Bool-cases (keep x)) [
    | inl kept ↦ rw kept (ap (λ r. x ∷ r) (retain-append xs ys))
    | inr dropped ↦ rw dropped (retain-append xs ys)
  ]

  pub retain-All : (xs : List A) → All (λ x. keep x ≡ true) (retain keep xs)
  unfolding retain
  retain-All [] = tt
  retain-All (x ∷ xs) = elim (Bool-cases (keep x)) [
    | inl kept ↦ rw kept (kept, retain-All xs)
    | inr dropped ↦ rw dropped (retain-All xs)
  ]

  retain-singleton : (x : A) → retain keep (x ∷ []) ≡ (if keep x then x ∷ [] else [])
  unfolding retain
  retain-singleton x = refl

module _ {F : Type 0} ⦃float : Float F⦄ where
  clear-push :
      (handle : F) (at : ℕ) (period : Option ℕ) (slots : Timers F)
      → (clear handle (push handle at period slots)).timers ≡ (
          if float.equal handle handle
          then (clear handle slots).timers
          else (push handle at period (clear handle slots)).timers)
  unfolding clear push
  clear-push handle at period slots =
      rw (retain-append _ slots.timers _) (elim (Bool-cases (float.equal handle handle)) [
        | inl same ↦ unfold retain in rw same (append-nil _)
        | inr other ↦ unfold retain in rw other refl
      ])

  -- A clear right after a start leaves the timers as the clear alone would, if the handle equals itself;
  -- a handle that does not (a NaN) is never cleared, and its timer stays last.
  pub clear-start :
      (now : ℕ) (handle delay : F) (repeating : Bool) (slots slots' : Timers F)
      → start now handle delay repeating slots ≡ returns slots'
      → (d : ℕ) × (delay_of delay ≡ returns d)
        × ((clear handle slots').timers ≡ (
            if float.equal handle handle
            then (clear handle slots).timers
            else (push handle
                (now + d)
                (if repeating then some d else none)
                (clear handle slots)).timers))
  clear-start now handle delay repeating slots slots' e =
      let (d, ed, small, same) = start_inv now handle delay repeating slots slots' e in
      (d, ed, ap (λ s. (clear handle s).timers) same ∙ clear-push handle (now + d) _ slots)

  -- No timer is left under a handle that was cleared.
  pub clear-All :
      (handle : F) (slots : Timers F)
      → All (λ (t : Timer F). not (float.equal t.handle handle) ≡ true) (clear handle slots).timers
  unfolding clear
  clear-All handle slots = retain-All _ slots.timers

  -- Setting a timer panics exactly when its delay is a finite positive number of milliseconds that leads
  -- past the instants that can be represented; any other delay that is no such number means now.
  pub start-panics :
      (now : ℕ) (handle delay : F) (repeating : Bool) (slots : Timers F)
      → now < instant_limit
      → (start now handle delay repeating slots ≡ panics) ↔ (
          (float.is_finite delay ≡ true)
          × (float.is_positive delay ≡ true)
          × (instant_limit ≤ now + float.nanoseconds delay))
  unfolding start delay_of add_duration
  start-panics now handle delay repeating slots small = (λ e. ground arith, λ h. ground arith)
