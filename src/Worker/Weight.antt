-- ===== src/Worker/Weight.antt =====
-- How many answers and timers the `drain` of src/worker.rs has to wait for.
use openworkers_runtime_nova.Prelude.{
  max, >>=-eq-returns, returns-injective, ◌>>=◌, ℕ, suc, ◌+◌, ◌-◌, ◌/◌, ◌<◌, ◌≤◌, total,
  total-append, sym, ◌∙◌, false, ◌≡◌, refl, ap, Option, none, some, List, [], ◌∷◌, ◌++◌, Result,
  Outcome, returns, panics, Text, arith, All, All-append, All-append_inv, length, pop,
}
use openworkers_runtime_nova.Timers.{Timer, reschedule, add_duration, one_milli}
use openworkers_runtime_nova.Timers.Order.{Due}
use openworkers_runtime_nova.Timers.Invariant.{add_duration_inv}
use openworkers_runtime_nova.Host.{Host}
use openworkers_runtime_nova.Engine.Inert.{IsOnce, Answers, Less, Less-trans}
use openworkers_runtime_nova.Worker.{
  Worker, Reason, Run, done, panicked, hung, starved, Turn, continues, ends, goes_on, next_turn,
  reported, and_then, is_late,
}

module _ {A : Type 0} where
  abbrev pub Popped : Option (A × List A) → List A → Type 0
  Popped none xs = xs ≡ []
  Popped (some (x, rest)) xs = length xs ≡ suc (length rest)

  Popped-cons :
      (x : A) (xs : List A) (o : Option (A × List A))
      → pop xs ≡ o
      → Popped o xs
      → Popped (pop (x ∷ xs)) (x ∷ xs)
  unfolding pop
  Popped-cons x xs none e p = rw (e, pop) (rw p refl)
  Popped-cons x xs (some (y, rest)) e p = rw (e, pop) (omega arith)

  pub pop-Popped : (xs : List A) → Popped (pop xs) xs
  pop-Popped [] = unfold pop in refl
  pop-Popped (x ∷ xs) = Popped-cons x xs (pop xs) refl (pop-Popped xs)

-- How often `drain` may fire a timer under a deadline: an interval moves on by a millisecond at least.
abbrev turns_in : Option ℕ → Option ℕ → ℕ → ℕ
turns_in none deadline at = 1
turns_in (some period) none at = 1
turns_in (some period) (some limit) at = (limit + one_milli - at) / one_milli

abbrev pub turns_of : {F : Type 0} → Option ℕ → Timer F → ℕ
turns_of deadline timer = turns_in timer.period deadline timer.at

module _ {F : Type 0} where
  -- Without a deadline no timer is an interval.
  abbrev pub Ending : Option ℕ → List (Timer F) → Type 0
  Ending deadline ts = deadline ≡ none → All IsOnce ts

  -- What a timer leaves when it is handed out in time.
  Left : Option ℕ → Timer F → List (Timer F) → Type 0
  Left deadline t new =
      (total (turns_of deadline) new < turns_of deadline t) × (t.period ≡ none → new ≡ [])

  reschedule-once :
      (t : Timer F) (new : List (Timer F)) → t.period ≡ none → reschedule t ≡ returns new → new ≡ []
  unfolding reschedule
  reschedule-once t new once e = ground arith

  -- What `reschedule` makes of a period.
  abbrev renewed : Timer F → Option ℕ → Outcome (List (Timer F))
  renewed t none = returns []
  renewed t (some period) = do
    at ← add_duration t.at (max period one_milli)
    returns (record t { at = at } ∷ [])

  reschedule-renewed : (t : Timer F) → reschedule t ≡ renewed t t.period
  unfolding reschedule
  reschedule-renewed t = go t.period
    where
      go :
          (o : Option ℕ)
          → elim o as (λ _. Outcome (List (Timer F))) [
            | none ↦ returns []
            | some period ↦ do
              at ← add_duration t.at (max period one_milli)
              returns (record t { at = at } ∷ [])
          ]
            ≡ renewed t o
      go none = refl
      go (some period) = refl

  reschedule-period :
      (t : Timer F) (period : ℕ) (new : List (Timer F))
      → t.period ≡ some period
      → reschedule t ≡ returns new
      → (at : ℕ) × (t.at + one_milli ≤ at) × (new ≡ record t { at = at } ∷ [])
  reschedule-period t period new e r =
      let same_run : renewed t (some period) ≡ returns new =
        ap (renewed t) (sym e) ∙ (sym (reschedule-renewed t) ∙ r) in
      let (at, sum, ended) = >>=-eq-returns (add_duration t.at (max period one_milli)) _ same_run in
      let (same, small) = add_duration_inv t.at (max period one_milli) at sum in
      (at, omega arith, sym (returns-injective ended))

  reschedule-Left :
      (deadline : Option ℕ) (t : Timer F) (new : List (Timer F)) (period : Option ℕ)
      → t.period ≡ period
      → reschedule t ≡ returns new
      → is_late deadline t.at ≡ false
      → (deadline ≡ none → IsOnce t)
      → Left deadline t new
  unfolding Left is_late
  reschedule-Left deadline t new none e r late once =
      rw (reschedule-once t new e r, e) (omega arith, λ h. refl)
  reschedule-Left none t new (some period) e r late once = absurd (let o = once refl in cc)
  reschedule-Left (some limit) t new (some period) e r late once =
      let (at, later, same) = reschedule-period t period new e r in
      let early : t.at ≤ limit = ground (arith, late) in
      let old : turns_in t.period (some limit) t.at ≡ (limit + one_milli - t.at) / one_milli =
        ap (λ o. turns_in o (some limit) t.at) e in
      let moved : turns_in t.period (some limit) at ≡ (limit + one_milli - at) / one_milli =
        ap (λ o. turns_in o (some limit) at) e in
      rw same (omega arith, λ h. absurd (let o = sym e ∙ h in cc))

  -- A timer that is handed out in time leaves fewer turns to take.
  pub Due-Ending :
      (deadline : Option ℕ) (ts ts' : List (Timer F)) (handle : F) (at : ℕ)
      → Due ts (handle, at) ts'
      → is_late deadline at ≡ false
      → Ending deadline ts
      → (total (turns_of deadline) ts' < total (turns_of deadline) ts) × Ending deadline ts'
  unfolding Left
  Due-Ending deadline ts ts' handle at d early once =
      let m : Timer F → ℕ = turns_of deadline in
      let parts : deadline ≡ none → All IsOnce d.pre × All IsOnce (d.timer ∷ d.post) = λ none_left.
        All-append_inv IsOnce d.pre (d.timer ∷ d.post) (rw d.whole at once none_left) in
      let when : at ≡ d.timer.at = ap (λ due. due.1) d.named in
      let (fewer, gone) =
        reschedule-Left deadline d.timer d.new d.timer.period refl d.renewed (rw when at early)
          (λ none_left. (parts none_left).1.0) in
      let a = total-append m d.pre (d.timer ∷ d.post) in
      let b = total-append m d.pre (d.new ++ d.post) in
      let c = total-append m d.new d.post in
      let e = ap (total m) d.whole in
      let f = ap (total m) d.rest in
      (
        omega arith,
        λ none_left.
            let (before, (here, after)) = parts none_left in
            rw (d.rest, gone here) (All-append IsOnce d.pre d.post before after),
      )

-- The run comes to an end: it has a result, or it panics.
abbrev pub Returns : {A : Type 0} → Run A → Type 0
Returns (done a) = Unit
Returns panicked = Unit
Returns hung = ⊥
Returns starved = ⊥

module _ {F J W O : Type 0} where
  -- How many answers there are to wait for, and how many turns the timers take.
  abbrev pub weight : Option ℕ → Host F J W O → ℕ
  weight deadline h = length h.bindings + total (turns_of deadline) h.timers.timers

  -- Without a deadline no timer is an interval, and every answer comes.
  abbrev pub Ready : Option ℕ → Host F J W O → Type 0
  Ready deadline h = Ending deadline h.timers.timers × (deadline ≡ none → All Answers h.bindings)

  pub Less-Ready :
      (deadline : Option ℕ) (g h : Host F J W O) → Less g h → Ready deadline g → Ready deadline h
  Less-Ready deadline g h l (once, answers) =
      (λ none_left. l.once (once none_left), λ none_left. l.answered (answers none_left))

module _ {S F J W O : Type 0} where
  -- After a turn that goes on there is less to wait for, and no turn waits for ever.
  abbrev pub Lighter : Option ℕ → ℕ → Run (Turn × Worker S F J W O) → Type 0
  Lighter deadline n (done (continues, w)) = (weight deadline w.host < n) × Ready deadline w.host
  Lighter deadline n (done (ends r, w)) = Unit
  Lighter deadline n panicked = Unit
  Lighter deadline n hung = ⊥
  Lighter deadline n starved = ⊥

  abbrev pub LessWorker : Host F J W O → Outcome (Worker S F J W O) → Type 0
  LessWorker h panics = Unit
  LessWorker h (returns w) = Less h w.host

  abbrev pub LessOutcome : {A : Type 0} → Host F J W O → Outcome (A × Worker S F J W O) → Type 0
  LessOutcome h panics = Unit
  LessOutcome h (returns (a, w)) = Less h w.host

  pub reported-Less :
      (h : Host F J W O) (o : Outcome (Option Text × Worker S F J W O))
      → LessOutcome h o
      → LessWorker h (reported o)
  reported-Less h panics l = tt
  reported-Less h (returns (thrown, w)) l = l

  pub LessWorker-trans :
      (g h : Host F J W O) (o : Outcome (Worker S F J W O))
      → Less g h
      → LessWorker h o
      → LessWorker g o
  LessWorker-trans g h panics r s = tt
  LessWorker-trans g h (returns w) r s = Less-trans g h w.host r s

  pub LessOutcome-trans :
      {A : Type 0} (g h : Host F J W O) (o : Outcome (A × Worker S F J W O))
      → Less g h
      → LessOutcome h o
      → LessOutcome g o
  LessOutcome-trans g h panics r s = tt
  LessOutcome-trans g h (returns (a, w)) r s = Less-trans g h w.host r s

  pub goes_on-Lighter :
      (deadline : Option ℕ) (n : ℕ) (h : Host F J W O) (o : Outcome (Worker S F J W O))
      → LessWorker h o
      → weight deadline h < n
      → Ready deadline h
      → Lighter deadline n (goes_on o)
  goes_on-Lighter deadline n h panics l small once = tt
  goes_on-Lighter deadline n h (returns w) l small once =
      let b = l.bindings_le in
      let t = l.total_le (turns_of deadline) in (omega arith, Less-Ready deadline h w.host l once)

  pub and_then-Less :
      {A : Type 0} (h : Host F J W O) (next : Worker S F J W O → Outcome (A × Worker S F J W O))
      (o : Outcome (Worker S F J W O))
      → LessWorker h o
      → ((w : Worker S F J W O) → LessOutcome w.host (next w))
      → LessOutcome h (and_then next o)
  and_then-Less h next panics l f = tt
  and_then-Less h next (returns w) l f = LessOutcome-trans h w.host (next w) l (f w)

  pub next_turn-ends :
      (deadline : Option ℕ) (n : ℕ)
      (loop : Worker S F J W O → Run (Result (Unit {0}) Reason × Worker S F J W O))
      (t : Run (Turn × Worker S F J W O))
      → ((w : Worker S F J W O)
          → weight deadline w.host < n
          → Ready deadline w.host
          → Returns (loop w))
      → Lighter deadline n t
      → Returns (next_turn loop t)
  next_turn-ends deadline n loop (done (continues, w)) f l = f w l.0 l.1
  next_turn-ends deadline n loop (done (ends r, w)) f l = tt
  next_turn-ends deadline n loop panicked f l = tt
  next_turn-ends deadline n loop hung f l = absurd l
  next_turn-ends deadline n loop starved f l = absurd l
