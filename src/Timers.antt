-- ===== src/Timers.antt =====
-- The timers of src/worker.rs: `Timer`, `native_timer_start`, `native_timer_clear`, `next_timer`.
-- An `Instant` and a `Duration` are counts of nanoseconds.
pub mod Order
pub mod Invariant
pub mod Cancel
pub mod Sorting
pub mod Queue
pub mod Intervals
mod Tests
use openworkers_runtime_nova.Prelude.{
  ℕ, zero, suc, ◌+◌, ◌*◌, ◌%◌, ◌^◌, max, Bool, ◌&&◌, ◌||◌, not, Option, none, some, List, [], ◌∷◌,
  ◌++◌, Outcome, returns, panics, ◌>>=◌, ltb, ◌==◌, if◌then◌else◌, retain,
}
use openworkers_runtime_nova.Value.{Float}

pub record Timer (F : Type 0) : Type 0 where
  pub handle : F
  pub at : ℕ
  pub period : Option ℕ
  pub seq : ℕ

-- The two cells of `HostSlots` that hold the timers.
pub record Timers (F : Type 0) : Type 0 where
  pub timers : List (Timer F)
  pub timer_seq : ℕ

abbrev pub nanos_per_sec : ℕ
nanos_per_sec = 1_000_000_000

-- `Duration` counts its seconds in 64 bits, `Instant` in 63.
abbrev pub duration_limit : ℕ
duration_limit = 2 ^ 64 * nanos_per_sec

abbrev pub instant_limit : ℕ
instant_limit = 2 ^ 63 * nanos_per_sec

abbrev pub one_milli : ℕ
one_milli = 1_000_000

-- `Instant + Duration`.
unfoldable pub add_duration : ℕ → ℕ → Outcome ℕ
add_duration at delay = if ltb (at + delay) instant_limit then returns (at + delay) else panics

-- `Duration::from_secs_f64`, of a number that is finite and positive.
unfoldable pub from_secs_f64 : ℕ → Outcome ℕ
from_secs_f64 nanos = if ltb nanos duration_limit then returns nanos else panics

module _ {F : Type 0} ⦃float : Float F⦄ where
  unfoldable pub delay_of : F → Outcome ℕ
  unfolding from_secs_f64
  delay_of delay =
      if float.is_finite delay && float.is_positive delay
      then from_secs_f64 (float.nanoseconds delay)
      else returns 0

  unfoldable pub push : F → ℕ → Option ℕ → Timers F → Timers F
  push handle at period slots = record {
    timers =
        slots.timers
        ++ (record { handle = handle; at = at; period = period; seq = slots.timer_seq } ∷ []);
    timer_seq = (slots.timer_seq + 1) % 2 ^ 64;
  }

  -- `native_timer_start` past the conversion of its arguments.
  unfoldable pub start : ℕ → F → F → Bool → Timers F → Outcome (Timers F)
  start now handle delay repeating slots = do
    delay ← delay_of delay
    at ← add_duration now delay
    returns (push handle at (if repeating then some delay else none) slots)

  -- `native_timer_clear` past the conversion of its argument.
  unfoldable pub clear : F → Timers F → Timers F
  clear handle slots = record slots {
    timers = retain (λ timer. not (float.equal timer.handle handle)) slots.timers;
  }

module _ {F : Type 0} where
  -- The order of `min_by_key(|(_, timer)| (timer.at, timer.seq))`.
  unfoldable pub before : Timer F → Timer F → Bool
  before t u = ltb t.at u.at || (t.at == u.at && ltb t.seq u.seq)

  -- The first least element, with its index.
  unfoldable pub earliest : List (Timer F) → Option (ℕ × Timer F)
  earliest [] = none
  earliest (t ∷ ts) = elim (earliest ts) [
    | none ↦ some (0, t)
    | some (i, u) ↦ if before u t then some (suc i, u) else some (0, t)
  ]

  -- What stands at an index, replaced by a list: nothing for `Vec::remove`.
  unfoldable pub splice : ℕ → List (Timer F) → List (Timer F) → List (Timer F)
  splice i new [] = []
  splice zero new (t ∷ ts) = new ++ ts
  splice (suc i) new (t ∷ ts) = t ∷ splice i new ts

  -- An interval stays, later by its period or a millisecond; any other timer goes.
  unfoldable pub reschedule : Timer F → Outcome (List (Timer F))
  unfolding add_duration
  reschedule t = elim t.period [
    | none ↦ returns []
    | some period ↦ do
      at ← add_duration t.at (max period one_milli)
      returns (record t { at = at } ∷ [])
  ]

  unfoldable pub next_timer : Timers F → Outcome (Option (F × ℕ) × Timers F)
  next_timer slots = elim (earliest slots.timers) [
    | none ↦ returns (none, slots)
    | some (index, timer) ↦ do
      new ← reschedule timer
      returns
          (some (timer.handle, timer.at), record slots { timers = splice index new slots.timers })
  ]
