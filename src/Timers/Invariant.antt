-- ===== src/Timers/Invariant.antt =====
-- The timers stay in the order in which they were set, across every operation of src/worker.rs on them.
use openworkers_runtime_nova.Prelude.{
  ℕ, ◌+◌, ◌%◌, ◌^◌, ◌≤◌, ◌<◌, ◌≡◌, ◌⊎◌, inl, inr, Bool, true, false, Option, none, some, List, [],
  ◌∷◌, ◌++◌, arith, returns, sym, >>=-eq-returns, returns-injective, if◌then◌else◌, All, All-append,
  All-append_inv, All-imp, All-imp_both, All-retain, Bool-cases, retain,
}
use openworkers_runtime_nova.Value.{Float}
use openworkers_runtime_nova.Timers.{
  Timer, Timers, before, reschedule, next_timer, add_duration, delay_of, push, start, clear,
  instant_limit,
}
use openworkers_runtime_nova.Timers.Order.{Due, next_timer-NextTimer}

pub add_duration_inv :
    (at delay at' : ℕ)
    → add_duration at delay ≡ returns at'
    → (at' ≡ at + delay) × (at' < instant_limit)
unfolding add_duration
add_duration_inv at delay at' e = ground arith

module _ {F : Type 0} where
  abbrev pub Increasing : List (Timer F) → Type 0
  Increasing [] = Unit
  Increasing (t ∷ ts) = All (λ (u : Timer F). t.seq < u.seq) ts × Increasing ts

  -- The sequence numbers grow along the list, and the next one is above them all.
  pub record IsValid (slots : Timers F) : Type 0 where
    pub increasing : Increasing slots.timers
    pub fresh : All (λ (t : Timer F). t.seq < slots.timer_seq) slots.timers

  Increasing-push :
      (ts : List (Timer F)) (t : Timer F)
      → All (λ (u : Timer F). u.seq < t.seq) ts
      → Increasing ts
      → Increasing (ts ++ (t ∷ []))
  Increasing-push [] t h inc = (tt, tt)
  Increasing-push (u ∷ ts) t h inc =
      (All-append _ ts (t ∷ []) inc.0 (h.0, tt), Increasing-push ts t h.1 inc.1)

  Increasing-retain :
      (keep : Timer F → Bool) (ts : List (Timer F)) → Increasing ts → Increasing (retain keep ts)
  unfolding retain
  Increasing-retain keep [] h = h
  Increasing-retain keep (t ∷ ts) h = elim (Bool-cases (keep t)) [
    | inl kept ↦ rw kept (All-retain _ keep ts h.0, Increasing-retain keep ts h.1)
    | inr dropped ↦ rw dropped (Increasing-retain keep ts h.1)
  ]

  -- What `reschedule` leaves of a timer: nothing, or the timer with another instant.
  abbrev pub Kept : Timer F → List (Timer F) → Type 0
  Kept t new = (new ≡ []) ⊎ ((at : ℕ) × (new ≡ record t { at = at } ∷ []))

  pub reschedule-Kept :
      (t : Timer F) (new : List (Timer F)) → reschedule t ≡ returns new → Kept t new
  unfolding reschedule
  reschedule-Kept t new h = ground arith

  All-splice :
      (P : ℕ → Type 0) (pre post new : List (Timer F)) (t : Timer F)
      → Kept t new
      → All (λ (w : Timer F). P w.seq) (pre ++ (t ∷ post))
      → All (λ (w : Timer F). P w.seq) (pre ++ (new ++ post))
  All-splice P [] post new t (inl e) h = rw e h.1
  All-splice P [] post new t (inr (at, e)) h = rw e h
  All-splice P (u ∷ pre) post new t k h = (h.0, All-splice P pre post new t k h.1)

  Increasing-splice :
      (pre post new : List (Timer F)) (t : Timer F)
      → Kept t new
      → Increasing (pre ++ (t ∷ post))
      → Increasing (pre ++ (new ++ post))
  Increasing-splice [] post new t (inl e) h = rw e h.1
  Increasing-splice [] post new t (inr (at, e)) h = rw e h
  Increasing-splice (u ∷ pre) post new t k h =
      (All-splice (λ n. u.seq < n) pre post new t k h.0, Increasing-splice pre post new t k h.1)

  Due-IsValid :
      (slots slots' : Timers F) (due : F × ℕ)
      → Due slots.timers due slots'.timers
      → slots'.timer_seq ≡ slots.timer_seq
      → IsValid slots
      → IsValid slots'
  Due-IsValid slots slots' due d same v = record {
    increasing =
        rw d.rest (Increasing-splice d.pre d.post d.new d.timer kept (rw d.whole at v.increasing));
    fresh =
        rw (d.rest, same)
          (All-splice (λ n. n < slots.timer_seq) d.pre d.post d.new d.timer kept
            (rw d.whole at v.fresh));
  }
    where
      kept : Kept d.timer d.new
      kept = reschedule-Kept d.timer d.new d.renewed

  -- Handing out a timer keeps the timers in the order in which they were set.
  pub next_timer-IsValid :
      (slots : Timers F) (due : Option (F × ℕ)) (slots' : Timers F)
      → next_timer slots ≡ returns (due, slots')
      → IsValid slots
      → IsValid slots'
  next_timer-IsValid slots none slots' e v = rw (rw e at (next_timer-NextTimer slots)).1 v
  next_timer-IsValid slots (some due) slots' e v =
      let (d, same) = rw e at (next_timer-NextTimer slots) in Due-IsValid slots slots' due d same v

  pub Increasing-pre :
      (pre post : List (Timer F)) (t : Timer F)
      → Increasing (pre ++ (t ∷ post))
      → All (λ (u : Timer F). u.seq < t.seq) pre × All (λ (u : Timer F). t.seq < u.seq) post
  Increasing-pre [] post t h = (tt, h.0)
  Increasing-pre (u ∷ pre) post t h =
      let (early, late) = Increasing-pre pre post t h.1 in
      (((All-append_inv _ pre (t ∷ post) h.0).1.0, early), late)

  at-lt : (t u : Timer F) → before t u ≡ true → u.seq < t.seq → t.at < u.at
  unfolding before
  at-lt t u h k = ground arith

  at-le : (t u : Timer F) → before u t ≡ false → t.at ≤ u.at
  unfolding before
  at-le t u h = ground arith

  -- In a valid state the timer handed out is due before every other, or at the same instant and was set
  -- before it: two timers due at once fire as they were set.
  pub next_timer_fifo :
      (slots : Timers F) (due : F × ℕ) (slots' : Timers F)
      → next_timer slots ≡ returns (some due, slots')
      → IsValid slots
      → (t : Timer F) × (pre : List (Timer F)) × (post : List (Timer F)) × (slots.timers
          ≡ pre ++ (t ∷ post))
        × (due ≡ (t.handle, t.at))
        × All (λ (u : Timer F). t.at < u.at) pre
        × All (λ (u : Timer F). t.at ≤ u.at) post
  next_timer_fifo slots due slots' e v =
      let d = (rw e at (next_timer-NextTimer slots)).0 in
      let (early, late) = Increasing-pre d.pre d.post d.timer (rw d.whole at v.increasing) in
      (
        d.timer,
        d.pre,
        d.post,
        d.whole,
        d.named,
        All-imp_both _ _ _ d.pre (λ u. at-lt d.timer u) d.first early,
        All-imp _ _ d.post (λ u. at-le d.timer u) d.least,
      )

module _ {F : Type 0} ⦃float : Float F⦄ where
  -- A timer that was set is due its delay from now.
  pub start_inv :
      (now : ℕ) (handle delay : F) (repeating : Bool) (slots slots' : Timers F)
      → start now handle delay repeating slots ≡ returns slots'
      → (d : ℕ) × (delay_of delay ≡ returns d)
        × (now + d < instant_limit)
        × (slots' ≡ push handle (now + d) (if repeating then some d else none) slots)
  unfolding start
  start_inv now handle delay repeating slots slots' e =
      let (d, ed, rest) = >>=-eq-returns (delay_of delay) _ e in
      let (at, ea, done) = >>=-eq-returns (add_duration now d) _ rest in
      let (sum, small) = add_duration_inv now d at ea in
      (d, ed, omega arith, rw (← sum) (sym (returns-injective done)))

  push-IsValid :
      (handle : F) (at : ℕ) (period : Option ℕ) (slots : Timers F)
      → slots.timer_seq + 1 < 2 ^ 64
      → IsValid slots
      → IsValid (push handle at period slots)
  unfolding push
  push-IsValid handle at period slots room v = record {
    increasing = Increasing-push slots.timers _ v.fresh v.increasing;
    fresh =
        let same : (slots.timer_seq + 1) % 2 ^ 64 ≡ slots.timer_seq + 1 = omega arith in
        rw same (
          All-append _ slots.timers _ (All-imp _ _ slots.timers (λ t h. omega arith) v.fresh)
            (omega arith, tt));
  }

  -- Setting a timer keeps the order in which they were set, until the counter of 64 bits runs out.
  pub start-IsValid :
      (now : ℕ) (handle delay : F) (repeating : Bool) (slots slots' : Timers F)
      → slots.timer_seq + 1 < 2 ^ 64
      → start now handle delay repeating slots ≡ returns slots'
      → IsValid slots
      → IsValid slots'
  start-IsValid now handle delay repeating slots slots' room e v =
      let (d, ed, small, same) = start_inv now handle delay repeating slots slots' e in
      rw same (push-IsValid handle (now + d) _ slots room v)

  -- Clearing a timer keeps the timers in the order in which they were set.
  pub clear-IsValid : (handle : F) (slots : Timers F) → IsValid slots → IsValid (clear handle slots)
  unfolding clear
  clear-IsValid handle slots v = record {
    increasing = Increasing-retain _ slots.timers v.increasing;
    fresh = All-retain _ _ slots.timers v.fresh;
  }
