-- ===== src/Timers/Intervals.antt =====
-- The intervals of src/worker.rs keep their beat.
use mathlib.Core.List.{Memᴰ}
use mathlib.Core.List.Memᴰ
use openworkers_runtime_nova.Prelude.{
  ℕ, zero, suc, ◌+◌, ◌*◌, ◌<◌, ◌≡◌, refl, sym, ◌∙◌, ap, ◌⊎◌, inl, inr, Bool, true, false, Option,
  none, some, List, [], ◌∷◌, ◌++◌, arith, All, Bool-cases, returns, >>=-eq-returns,
  returns-injective, retain, max,
}
use openworkers_runtime_nova.Value.{Float}
use openworkers_runtime_nova.Timers.{
  Timer, Timers, one_milli, add_duration, push, start, clear, reschedule, next_timer,
}
use openworkers_runtime_nova.Timers.Order.{next_timer-NextTimer}
use openworkers_runtime_nova.Timers.Invariant.{add_duration_inv, start_inv}
use openworkers_runtime_nova.Timers.Queue.{Op, set, cancel, hand_out, step, run}

module _ {A : Type 0} where
  Memᴰ-retain :
      (keep : A → Bool) (a : A) (xs : List A) → keep a ≡ true → Memᴰ a xs → Memᴰ a (retain keep xs)
  unfolding retain
  Memᴰ-retain keep a _ kept (Memᴰ.head {x} {xs} e) = rw (← e, kept) (Memᴰ.head refl)
  Memᴰ-retain keep a _ kept (Memᴰ.tail {x} {xs} m) = elim (Bool-cases (keep x)) [
    | inl k ↦ rw k (Memᴰ.tail (Memᴰ-retain keep a xs kept m))
    | inr k ↦ rw k (Memᴰ-retain keep a xs kept m)
  ]

  -- What is in a list is what is taken out of it, or stays.
  Memᴰ-replaced :
      (a t : A) (pre post new : List A)
      → Memᴰ a (pre ++ (t ∷ post))
      → (a ≡ t) ⊎ Memᴰ a (pre ++ (new ++ post))
  Memᴰ-replaced a t pre post new m = elim (Memᴰ.append_cases pre m) [
    | inl early ↦ inr (Memᴰ.append_left (new ++ post) early)
    | inr rest ↦ elim (Memᴰ.cases_cons rest) [
      | inl e ↦ inl e
      | inr late ↦ inr (Memᴰ.append_right pre (Memᴰ.append_right new late))
    ]
  ]

next_beat : (at i beat : ℕ) → at + beat + i * beat ≡ at + suc i * beat
next_beat at i beat = omega arith

module _ {F : Type 0} where
  abbrev pub later : Timer F → ℕ → Timer F
  later t d = record t { at = t.at + d }

  -- A hand-out either is another timer's, or is this one's, which is set one beat later.
  abbrev Beats : Timer F → ℕ → Option (F × ℕ) → Timers F → Type 0
  Beats t beat fired slots =
      Memᴰ t slots.timers ⊎ ((fired ≡ some (t.handle, t.at)) × Memᴰ (later t beat) slots.timers)

  reschedule-later :
      (t : Timer F) (period : ℕ) (new : List (Timer F))
      → t.period ≡ some period
      → reschedule t ≡ returns new
      → new ≡ later t (max period one_milli) ∷ []
  unfolding reschedule
  reschedule-later t period new e h =
      let (at, sum, made) =
        >>=-eq-returns (add_duration t.at (max period one_milli)) _ (rw e at h) in
      let (same, small) = add_duration_inv t.at (max period one_milli) at sum in
      sym (returns-injective made) ∙ rw (same, e) refl

  next_timer-Beats :
      (t : Timer F) (period : ℕ) (slots slots' : Timers F) (fired : Option (F × ℕ))
      → t.period ≡ some period
      → Memᴰ t slots.timers
      → next_timer slots ≡ returns (fired, slots')
      → Beats t (max period one_milli) fired slots'
  next_timer-Beats t period slots slots' none p m e =
      inl (rw (rw e at (next_timer-NextTimer slots)).1 m)
  next_timer-Beats t period slots slots' (some due) p m e =
      let d = (rw e at (next_timer-NextTimer slots)).0 in
      elim (Memᴰ-replaced t d.timer d.pre d.post d.new (rw d.whole at m)) [
        | inl same ↦
            let made = reschedule-later t period d.new p (rw (← same) at d.renewed) in
            inr (
              ap some (d.named ∙ rw same refl),
              rw (d.rest, made) (Memᴰ.append_right d.pre (Memᴰ.head refl)),
            )
        | inr stays ↦ inl (rw d.rest stays)
      ]

module _ {F : Type 0} ⦃float : Float F⦄ where
  -- No cancellation of this handle.
  abbrev pub Spares : F → Op F → Type 0
  Spares handle (cancel other) = float.equal handle other ≡ false
  Spares handle _ = Unit

  step-Beats :
      (op : Op F) (t : Timer F) (period : ℕ) (slots slots' : Timers F) (fired : Option (F × ℕ))
      → t.period ≡ some period
      → Spares t.handle op
      → Memᴰ t slots.timers
      → step op slots ≡ returns (fired, slots')
      → Beats t (max period one_milli) fired slots'
  unfolding step push clear
  step-Beats (set now handle delay repeating) t period slots slots' fired p s m e =
      let (slots1, started, made) = >>=-eq-returns (start now handle delay repeating slots) _ e in
      let (d, ed, small, same) = start_inv now handle delay repeating slots slots1 started in
      let all = ap (λ (r : Option (F × ℕ) × Timers F). r.1) (returns-injective made) in
      inl (rw (← all, same) (Memᴰ.append_left _ m))
  step-Beats (cancel handle) t period slots slots' fired p s m e =
      let all = ap (λ (r : Option (F × ℕ) × Timers F). r.1) (returns-injective e) in
      inl (rw (← all) (Memᴰ-retain _ t slots.timers (rw s refl) m))
  step-Beats hand_out t period slots slots' fired p s m e =
      next_timer-Beats t period slots slots' fired p m e

  -- The hand-outs of a timer so far: one for each beat, at its instant.
  abbrev pub OnBeat : Timer F → ℕ → List (Option (F × ℕ)) → Timers F → Type 0
  OnBeat t beat fired slots =
      (k : ℕ) × Memᴰ (later t (k * beat)) slots.timers
      × ((i : ℕ) → i < k → Memᴰ (some (t.handle, t.at + i * beat)) fired)

  abbrev fired_of : List (Option (F × ℕ)) × Timers F → List (Option (F × ℕ))
  fired_of r = r.0

  abbrev slots_of : List (Option (F × ℕ)) × Timers F → Timers F
  slots_of r = r.1

  OnBeat-none :
      (t : Timer F) (beat : ℕ) (slots : Timers F) → Memᴰ t slots.timers → OnBeat t beat [] slots
  OnBeat-none t beat slots m =
      let e : t.at + 0 * beat ≡ t.at = omega arith in (0, rw e m, λ i lt. absurd (omega arith))

  OnBeat-other :
      (t : Timer F) (beat : ℕ) (fired : Option (F × ℕ)) (more : List (Option (F × ℕ)))
      (slots : Timers F)
      → OnBeat t beat more slots
      → OnBeat t beat (fired ∷ more) slots
  OnBeat-other t beat fired more slots (k, m, all) = (k, m, λ i lt. Memᴰ.tail (all i lt))

  OnBeat-own :
      (t : Timer F) (beat : ℕ) (fired : Option (F × ℕ)) (more : List (Option (F × ℕ)))
      (slots : Timers F)
      → fired ≡ some (t.handle, t.at)
      → OnBeat (later t beat) beat more slots
      → OnBeat t beat (fired ∷ more) slots
  OnBeat-own t beat fired more slots e (k, m, all) =
      (suc k, rw (next_beat t.at k beat) at m, λ i. each i)
    where
      each : (i : ℕ) → i < suc k → Memᴰ (some (t.handle, t.at + i * beat)) (fired ∷ more)
      each zero lt = let same : t.at + 0 * beat ≡ t.at = omega arith in rw same (Memᴰ.head (sym e))
      each (suc i) lt = Memᴰ.tail (rw (next_beat t.at i beat) at (all i (omega arith)))

  -- An interval keeps its beat, which is its period, or a millisecond where that is more: whatever else is set, cancelled
  -- and handed out, and however late, as long as no cancellation names its handle, it stays in the list, a whole
  -- number of beats after its first instant, and it was handed out at each beat before that one.
  pub run-OnBeat :
      (ops : List (Op F)) (t : Timer F) (period : ℕ) (slots slots' : Timers F)
      (fired : List (Option (F × ℕ)))
      → t.period ≡ some period
      → All (Spares t.handle) ops
      → Memᴰ t slots.timers
      → run ops slots ≡ returns (fired, slots')
      → OnBeat t (max period one_milli) fired slots'
  unfolding run
  run-OnBeat [] t period slots slots' fired p s m e =
      let tie = returns-injective e in
      rw (← ap fired_of tie, ← ap slots_of tie) (OnBeat-none t (max period one_milli) slots m)
  run-OnBeat (op ∷ ops) t period slots slots' fired p s m e =
      let ((one, slots1), stepped, rest) = >>=-eq-returns (step op slots) _ e in
      let ((more, slots2), ran, made) = >>=-eq-returns (run ops slots1) _ rest in
      let tie = returns-injective made in
      rw (← ap fired_of tie, ← ap slots_of tie)
        (elim (step-Beats op t period slots slots1 one p s.0 m stepped) [
          | inl stays ↦
              OnBeat-other t (max period one_milli) one more slots2
                (run-OnBeat ops t period slots1 slots2 more p s.1 stays ran)
          | inr (own, moved) ↦ OnBeat-own t (max period one_milli) one more slots2 own (
              run-OnBeat ops (later t (max period one_milli)) period slots1 slots2 more p s.1 moved
                ran)
        ])
