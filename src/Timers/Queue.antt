-- ===== src/Timers/Queue.antt =====
-- The timers of src/worker.rs as a priority queue: an independent description of what a guest sees of them.
pub mod Refines
use openworkers_runtime_nova.Prelude.{
  ℕ, zero, suc, ◌+◌, ◌%◌, ◌^◌, ◌<◌, ◌≤◌, ◌≡◌, ◌≢◌, refl, sym, ◌∙◌, ap, ◌⊎◌, inl, inr, Bool, true,
  false, not, Option, none, some, List, [], ◌∷◌, ◌++◌, arith, if◌then◌else◌, All, All-append,
  All-imp, All-imp_both, Outcome, returns, panics, ◌>>=◌, returns-injective, length, retain,
}
use mathlib.Core.List.{append-nil}
use openworkers_runtime_nova.Value.{Float}
use openworkers_runtime_nova.Timers
use openworkers_runtime_nova.Timers.{
  Timer, Timers, before, delay_of, add_duration, push, start, clear, reschedule, next_timer,
}
use openworkers_runtime_nova.Timers.Order.{NextTimer, Due, next_timer-NextTimer, Splits}
use openworkers_runtime_nova.Timers.Invariant.{
  IsValid, Kept, reschedule-Kept, Increasing-pre, start_inv, start-IsValid, clear-IsValid,
  next_timer-IsValid,
}
use openworkers_runtime_nova.Timers.Sorting.{insert, sort, sort-append, sort-first, sort-retain}

-- The timers in the order in which they are due, and the number of the next.
pub record Queue (F : Type 0) : Type 0 where
  pub order : List (Timer F)
  pub next_seq : ℕ

-- What the guest and the loop ask of the timers.
pub data Op (F : Type 0) : Type 0 where
  set : ℕ → F → F → Bool → Op F
  cancel : F → Op F
  hand_out : Op F

module _ {F : Type 0} where
  abbrev pub enter : List (Timer F) → List (Timer F) → List (Timer F)
  enter [] ts = ts
  enter (t ∷ new) ts = insert t (enter new ts)

  -- The first timer is the one that is due. An interval enters the queue again.
  unfoldable pub first : Queue F → Outcome (Option (F × ℕ) × Queue F)
  first queue = elim queue.order [
    | [] ↦ returns (none, queue)
    | t ∷ ts ↦ do
      new ← reschedule t
      returns (some (t.handle, t.at), record queue { order = enter new ts })
  ]

  -- The queue that a list of timers stands for.
  abbrev pub queue_of : Timers F → Queue F
  queue_of slots = record { order = sort slots.timers; next_seq = slots.timer_seq }

  abbrev pub seen : {A : Type 0} → Outcome (A × Timers F) → Outcome (A × Queue F)
  seen panics = panics
  seen (returns (a, slots)) = returns (a, queue_of slots)

module _ {F : Type 0} ⦃float : Float F⦄ where
  -- The operations on the list, as src/worker.rs performs them.
  unfoldable pub step : Op F → Timers F → Outcome (Option (F × ℕ) × Timers F)
  step (set now handle delay repeating) slots = do
    slots' ← start now handle delay repeating slots
    returns (none, slots')
  step (cancel handle) slots = returns (none, clear handle slots)
  step hand_out slots = next_timer slots

  -- The operations on the queue.
  unfoldable pub queue_step : Op F → Queue F → Outcome (Option (F × ℕ) × Queue F)
  unfolding first
  queue_step (set now handle delay repeating) queue = do
    delay ← delay_of delay
    at ← add_duration now delay
    let timer : Timer F = record {
      handle = handle;
      at = at;
      period = if repeating then some delay else none;
      seq = queue.next_seq;
    }
    returns (
      none,
      record { order = insert timer queue.order; next_seq = (queue.next_seq + 1) % 2 ^ 64 },
    )
  queue_step (cancel handle) queue = returns (
    none,
    record queue { order = retain (λ timer. not (float.equal timer.handle handle)) queue.order },
  )
  queue_step hand_out queue = first queue

  unfoldable pub run : List (Op F) → Timers F → Outcome (List (Option (F × ℕ)) × Timers F)
  run [] slots = returns ([], slots)
  run (op ∷ ops) slots = do
    (fired, slots') ← step op slots
    (more, slots'') ← run ops slots'
    returns (fired ∷ more, slots'')

  unfoldable pub queue_run : List (Op F) → Queue F → Outcome (List (Option (F × ℕ)) × Queue F)
  queue_run [] queue = returns ([], queue)
  queue_run (op ∷ ops) queue = do
    (fired, queue') ← queue_step op queue
    (more, queue'') ← queue_run ops queue'
    returns (fired ∷ more, queue'')
