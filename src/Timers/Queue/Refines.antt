-- ===== src/Timers/Queue/Refines.antt =====
-- The timers of src/worker.rs refine a priority queue.
use openworkers_runtime_nova.Prelude.{
  ℕ, ◌+◌, ◌%◌, ◌^◌, ◌<◌, ◌≤◌, ◌≡◌, ◌≢◌, refl, sym, ◌∙◌, ap, inl, inr, Bool, true, false, Option,
  none, some, List, [], ◌∷◌, ◌++◌, arith, if◌then◌else◌, All, All-append, All-imp, All-imp_both,
  Outcome, returns, panics, ◌>>=◌, returns-injective, length,
}
use mathlib.Core.List.{append-nil}
use openworkers_runtime_nova.Value.{Float}
use openworkers_runtime_nova.Timers.{
  Timer, Timers, before, delay_of, add_duration, push, start, clear, reschedule, next_timer,
}
use openworkers_runtime_nova.Timers.Order.{NextTimer, next_timer-NextTimer}
use openworkers_runtime_nova.Timers.Invariant.{
  IsValid, Kept, reschedule-Kept, Increasing-pre, start_inv, start-IsValid, clear-IsValid,
  next_timer-IsValid,
}
use openworkers_runtime_nova.Timers.Sorting.{insert, sort, sort-append, sort-first, sort-retain}
use openworkers_runtime_nova.Timers.Queue.{
  Queue, Op, set, cancel, hand_out, enter, first, queue_of, seen, step, queue_step, run, queue_run,
}

module _ {F : Type 0} where
  apart :
      (t : Timer F) (ts : List (Timer F))
      → All (λ (u : Timer F). u.seq < t.seq) ts
      → All (λ (u : Timer F). u.seq ≢ t.seq) ts
  apart t ts h = All-imp _ _ ts (λ u less same. absurd (omega arith)) h

  before_later : (t u : Timer F) → before u t ≡ false → t.seq < u.seq → before t u ≡ true
  unfolding before
  before_later t u h k = ground arith

  -- In a valid state the timer that splits the list is the head of the queue.
  Splits-head :
      (slots : Timers F) (pre post : List (Timer F)) (t : Timer F)
      → slots.timers ≡ pre ++ (t ∷ post)
      → All (λ u. before t u ≡ true) pre
      → All (λ u. before u t ≡ false) post
      → IsValid slots
      → All (λ (u : Timer F). u.seq < t.seq) pre × (sort slots.timers ≡ t ∷ sort (pre ++ post))
  Splits-head slots pre post t whole early late v =
      let (lower, higher) = Increasing-pre pre post t (rw whole at v.increasing) in
      (
        lower,
        rw whole (
            sort-first pre post t (apart t pre lower) (
              All-append _ pre post early
                (All-imp_both _ _ _ post (λ u. before_later t u) late higher))),
      )

  enter-sort :
      (pre post new : List (Timer F)) (t : Timer F)
      → Kept t new
      → All (λ (u : Timer F). u.seq < t.seq) pre
      → sort (pre ++ (new ++ post)) ≡ enter new (sort (pre ++ post))
  enter-sort pre post new t (inl e) h = rw e refl
  enter-sort pre post new t (inr (at, e)) h =
      rw e (sort-append pre post (record t { at = at }) (apart t pre h))

  first-returns :
      (queue : Queue F) (t : Timer F) (ts new : List (Timer F))
      → queue.order ≡ t ∷ ts
      → reschedule t ≡ returns new
      → first queue ≡ returns (some (t.handle, t.at), record queue { order = enter new ts })
  unfolding first
  first-returns queue t ts new e r = rw (e, first) (rw (r, first) refl)

  first-panics :
      (queue : Queue F) (t : Timer F) (ts : List (Timer F))
      → queue.order ≡ t ∷ ts
      → reschedule t ≡ panics
      → first queue ≡ panics
  unfolding first
  first-panics queue t ts e r = rw (e, first) (rw (r, first) refl)

  seen-NextTimer :
      (slots : Timers F) (o : Outcome (Option (F × ℕ) × Timers F))
      → IsValid slots
      → NextTimer slots o
      → first (queue_of slots) ≡ seen o
  seen-NextTimer slots panics v (i, t, s, r) =
      first-panics (queue_of slots) t _
        (Splits-head slots s.pre s.post t s.whole s.first s.least v).1 r
  seen-NextTimer slots (returns (none, slots')) v (empty, same) =
      unfold first in rw (same, empty) refl
  seen-NextTimer slots (returns (some fired, slots')) v (d, same) =
      let (lower, head) = Splits-head slots d.pre d.post d.timer d.whole d.first d.least v in
      let entered =
        enter-sort d.pre d.post d.new d.timer (reschedule-Kept d.timer d.new d.renewed) lower in
      first-returns (queue_of slots) d.timer _ d.new head d.renewed
      ∙ rw (d.rest, d.named, entered, same) refl

delay_now :
    (now : ℕ) (d : Outcome ℕ)
    → (at : Outcome ℕ) × ((n : ℕ) → d ≡ returns n → add_duration now n ≡ at)
delay_now now panics = (panics, λ n e. absurd (panics-returns e))
  where
    panics-returns : {n : ℕ} → panics ≡ returns n → ⊥
    panics-returns e = cc
delay_now now (returns n) = (add_duration now n, λ m e. rw (returns-injective e) refl)

module _ {F : Type 0} ⦃float : Float F⦄ where
  sort-push :
      (handle : F) (at : ℕ) (period : Option ℕ) (slots : Timers F)
      → IsValid slots
      → sort (push handle at period slots).timers
        ≡ insert
            (record { handle = handle; at = at; period = period; seq = slots.timer_seq })
            (sort slots.timers)
  unfolding push
  sort-push handle at period slots v =
      sort-append slots.timers [] t (apart t slots.timers v.fresh)
      ∙ rw (append-nil slots.timers) refl
    where
      t : Timer F
      t = record { handle = handle; at = at; period = period; seq = slots.timer_seq }

  set-refines :
      (now : ℕ) (handle delay : F) (repeating : Bool) (slots : Timers F) (d at : Outcome ℕ)
      → delay_of delay ≡ d
      → ((n : ℕ) → d ≡ returns n → add_duration now n ≡ at)
      → IsValid slots
      → queue_step (set now handle delay repeating) (queue_of slots)
        ≡ seen (step (set now handle delay repeating) slots)
  unfolding queue_step step start push
  set-refines now handle delay repeating slots panics at e f v = rw e refl
  set-refines now handle delay repeating slots (returns d) panics e f v = rw e (rw (f d refl) refl)
  set-refines now handle delay repeating slots (returns d) (returns at) e f v = rw e (
      rw (f d refl) (
        ap
          (λ order.
            returns (none, record { order = order; next_seq = (slots.timer_seq + 1) % 2 ^ 64 }))
          (sym (sort-push handle at (if repeating then some d else none) slots v))))

  -- Whatever the operation, the queue of a valid state shows what the list does.
  step-refines :
      (op : Op F) (slots : Timers F)
      → IsValid slots
      → queue_step op (queue_of slots) ≡ seen (step op slots)
  step-refines (set now handle delay repeating) slots v =
      let (at, f) = delay_now now (delay_of delay) in
      set-refines now handle delay repeating slots (delay_of delay) at refl f v
  step-refines (cancel handle) slots v =
      unfold queue_step step clear in
      ap (λ order. returns (none, record { order = order; next_seq = slots.timer_seq }))
        (sym (sort-retain _ slots.timers))
  step-refines hand_out slots v =
      unfold queue_step step in
      seen-NextTimer slots (next_timer slots) v (next_timer-NextTimer slots)

  abbrev Stepped : Timers F → Outcome (Option (F × ℕ) × Timers F) → Type 0
  Stepped slots panics = Unit
  Stepped slots (returns (fired, slots')) =
      IsValid slots' × (slots'.timer_seq ≤ slots.timer_seq + 1)

  start-Stepped :
      (now : ℕ) (handle delay : F) (repeating : Bool) (slots : Timers F) (o : Outcome (Timers F))
      → start now handle delay repeating slots ≡ o
      → slots.timer_seq + 1 < 2 ^ 64
      → IsValid slots
      → Stepped slots (step (set now handle delay repeating) slots)
  unfolding step
  start-Stepped now handle delay repeating slots panics e room v = rw e tt
  start-Stepped now handle delay repeating slots (returns slots') e room v =
      let (d, ed, small, same) = start_inv now handle delay repeating slots slots' e in
      rw e (
        start-IsValid now handle delay repeating slots slots' room e v,
        rw same (unfold push in omega arith),
      )

  next_timer-Stepped :
      (slots : Timers F) (o : Outcome (Option (F × ℕ) × Timers F))
      → next_timer slots ≡ o
      → NextTimer slots o
      → IsValid slots
      → Stepped slots (step hand_out slots)
  unfolding step
  next_timer-Stepped slots panics e h v = rw e tt
  next_timer-Stepped slots (returns (none, slots')) e h v =
      rw e (next_timer-IsValid slots none slots' e v, rw h.1 (omega arith))
  next_timer-Stepped slots (returns (some fired, slots')) e h v =
      rw e (next_timer-IsValid slots (some fired) slots' e v, rw h.1 (omega arith))

  step-Stepped :
      (op : Op F) (slots : Timers F)
      → slots.timer_seq + 1 < 2 ^ 64
      → IsValid slots
      → Stepped slots (step op slots)
  step-Stepped (set now handle delay repeating) slots room v =
      start-Stepped now handle delay repeating slots _ refl room v
  step-Stepped (cancel handle) slots room v =
      unfold step in (clear-IsValid handle slots v, unfold clear in omega arith)
  step-Stepped hand_out slots room v =
      next_timer-Stepped slots _ refl (next_timer-NextTimer slots) v

  seen-then :
      (fired : Option (F × ℕ)) (o : Outcome (List (Option (F × ℕ)) × Timers F))
      → (do (more, queue) ← seen o; returns (fired ∷ more, queue))
        ≡ seen (do (more, slots) ← o; returns (fired ∷ more, slots))
  seen-then fired panics = refl
  seen-then fired (returns (more, slots)) = refl

  run-step :
      (op : Op F) (ops : List (Op F)) (slots : Timers F) (o : Outcome (Option (F × ℕ) × Timers F))
      → step op slots ≡ o
      → queue_step op (queue_of slots) ≡ seen o
      → Stepped slots o
      → ((slots' : Timers F)
          → IsValid slots'
          → slots'.timer_seq ≤ slots.timer_seq + 1
          → queue_run ops (queue_of slots') ≡ seen (run ops slots'))
      → queue_run (op ∷ ops) (queue_of slots) ≡ seen (run (op ∷ ops) slots)
  unfolding queue_run run
  run-step op ops slots panics e q s ih = rw (e, q) refl
  run-step op ops slots (returns (fired, slots')) e q s ih =
      rw (e, q) (rw (ih slots' s.0 s.1) (seen-then fired (run ops slots')))

  -- The timers refine the queue: no sequence of settings, cancellations and hand-outs tells the list of a valid state
  -- from the queue that it stands for, in which the due timer is the head, also where an operation
  -- panics; until the counter of 64 bits runs out.
  pub run-refines :
      (ops : List (Op F)) (slots : Timers F)
      → IsValid slots
      → slots.timer_seq + length ops < 2 ^ 64
      → queue_run ops (queue_of slots) ≡ seen (run ops slots)
  run-refines [] slots v room = unfold queue_run run in refl
  run-refines (op ∷ ops) slots v room =
      run-step op ops slots (step op slots) refl (step-refines op slots v)
        (step-Stepped op slots (omega arith) v)
        (λ slots' v' le. run-refines ops slots' v' (omega arith))
