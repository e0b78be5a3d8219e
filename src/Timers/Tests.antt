-- ===== src/Timers/Tests.antt =====
-- Tests of the timers of src/worker.rs, and examples of the theorems on them.
use mathlib.Core.List.Memᴰ
use openworkers_runtime_nova.Prelude.{
  List, All, ℕ, ◌+◌, ◌^◌, ◌≤◌, ◌≡◌, ◌↔◌, refl, true, false, none, some, [], ◌∷◌, returns, panics,
  arith,
}
use openworkers_runtime_nova.Value.{Float}
use openworkers_runtime_nova.Examples
use openworkers_runtime_nova.Timers.{
  Timer, Timers, delay_of, push, start, clear, next_timer, instant_limit,
}
use openworkers_runtime_nova.Timers.Queue.{
  Op, set, hand_out, cancel, queue_of, seen, run, queue_run,
}
use openworkers_runtime_nova.Timers.Queue.Refines.{run-refines}
use openworkers_runtime_nova.Timers.Intervals.{OnBeat, Spares, run-OnBeat}
use openworkers_runtime_nova.Timers.Order.{NextTimer, next_timer-NextTimer}
use openworkers_runtime_nova.Timers.Invariant.{IsValid}
use openworkers_runtime_nova.Timers.Cancel.{start-panics}

instance float : Float ℕ
float = Examples.float

-- An interval, and two timers due at one instant before it.
abbrev timers : Timers ℕ
timers = record {
  timers =
      record { handle = 1; at = 90; period = some 50; seq = 0 }
      ∷ record { handle = 2; at = 70; period = none; seq = 1 }
      ∷ record { handle = 3; at = 70; period = none; seq = 4 }
      ∷ [];
  timer_seq = 5;
}

abbrev rest : Timers ℕ
rest = record timers {
  timers =
      record { handle = 1; at = 90; period = some 50; seq = 0 }
      ∷ record { handle = 3; at = 70; period = none; seq = 4 }
      ∷ [];
}

timers-IsValid : IsValid timers
timers-IsValid = record {
  increasing = ((omega arith, (omega arith, tt)), ((omega arith, tt), (tt, tt)));
  fresh = (omega arith, (omega arith, (omega arith, tt)));
}

next-timers : next_timer timers ≡ returns (some (2, 70), rest)
unfolding next_timer openworkers_runtime_nova.Timers.earliest openworkers_runtime_nova.Timers.before
    openworkers_runtime_nova.Timers.reschedule openworkers_runtime_nova.Timers.splice
next-timers = refl

next_timer-NextTimer_example : NextTimer timers (next_timer timers)
next_timer-NextTimer_example = next_timer-NextTimer timers

abbrev due : ℕ × ℕ
due = (2, 70)

abbrev more : Timers ℕ
more = push 6 2_000_100 (some 2_000_000) timers

start-timers : start 100 6 2 true timers ≡ returns more
unfolding start delay_of float openworkers_runtime_nova.Timers.add_duration
start-timers = refl

-- A delay of 2 ^ 90 milliseconds.
start-panics_example : (start 100 6 (2 ^ 90) false timers ≡ panics) ↔ (
    (float.is_finite (2 ^ 90) ≡ true)
    × (float.is_positive (2 ^ 90) ≡ true)
    × (instant_limit ≤ 100 + float.nanoseconds (2 ^ 90)))
start-panics_example = start-panics 100 6 (2 ^ 90) false timers (omega arith)

-- The timers due at 70 come out as they were set, then the interval, once the other is cancelled.
run-refines_example :
    queue_run (hand_out ∷ hand_out ∷ cancel 3 ∷ hand_out ∷ []) (queue_of timers)
    ≡ seen (run (hand_out ∷ hand_out ∷ cancel 3 ∷ hand_out ∷ []) timers)
run-refines_example =
    run-refines (hand_out ∷ hand_out ∷ cancel 3 ∷ hand_out ∷ []) timers timers-IsValid (omega arith)

-- Hand-outs of the interval of a millisecond, between other operations.
abbrev ops : List (Op ℕ)
ops = hand_out ∷ cancel 3 ∷ hand_out ∷ set 100 7 2 false ∷ hand_out ∷ []

abbrev interval : Timer ℕ
interval = record { handle = 1; at = 90; period = some 50; seq = 0 }

abbrev beaten : Timers ℕ
beaten = record {
  timers =
      record { handle = 1; at = 2_000_090; period = some 50; seq = 0 }
      ∷ record { handle = 7; at = 2_000_100; period = none; seq = 5 }
      ∷ [];
  timer_seq = 6;
}

run-ops :
    run ops timers
    ≡ returns (some (2, 70) ∷ none ∷ some (1, 90) ∷ none ∷ some (1, 1_000_090) ∷ [], beaten)
unfolding run openworkers_runtime_nova.Timers.Queue.step next_timer
    openworkers_runtime_nova.Timers.earliest openworkers_runtime_nova.Timers.before
    openworkers_runtime_nova.Timers.reschedule clear openworkers_runtime_nova.Prelude.retain
    openworkers_runtime_nova.Timers.splice float start delay_of push
run-ops = refl

spared : All (Spares 1) ops
unfolding float
spared = (tt, (refl, (tt, (tt, (tt, tt)))))

run-OnBeat_example :
    OnBeat interval 1_000_000
      (some (2, 70) ∷ none ∷ some (1, 90) ∷ none ∷ some (1, 1_000_090) ∷ [])
      beaten
run-OnBeat_example =
    run-OnBeat ops interval 50 timers beaten
      (some (2, 70) ∷ none ∷ some (1, 90) ∷ none ∷ some (1, 1_000_090) ∷ []) refl spared
      (Memᴰ.head refl) run-ops
