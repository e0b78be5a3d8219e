-- ===== src/Worker/Firing.antt =====
-- Which timer `drain` of src/worker.rs fires, and when.
use mathlib.Core.List.{Memᴰ}
use mathlib.Core.List.Memᴰ
use openworkers_runtime_nova.Prelude.{
  ℕ, ◌<◌, ◌≤◌, ◌≡◌, ◌⊎◌, Option, some, List, [], ok, err, panics, All,
}
use openworkers_runtime_nova.Timers.{Timer, Timers, reschedule}
use openworkers_runtime_nova.Host.{Host}
use openworkers_runtime_nova.Engine.{Platform}
use openworkers_runtime_nova.Worker.{
  Worker, Run, done, panicked, wall_clock_timeout, Turn, ends, goes_on, fire_timer,
}
use openworkers_runtime_nova.Worker.Drain.{IsQuiet}

module _ {S F J W O : Type 0} (platform : Platform S J F W O) (deadline : Option ℕ) where
  -- There is no timer, and `drain` succeeds.
  abbrev pub Idle : Worker S F J W O → Run (Turn × Worker S F J W O) → Type 0
  Idle v r = (v.host.timers.timers ≡ []) × (r ≡ done (ends (ok tt), v))

  -- Every timer is due after the deadline, and `drain` fails without waiting for one; nothing is left.
  abbrev pub Late : Worker S F J W O → Run (Turn × Worker S F J W O) → Type 0
  Late v r =
      (limit : ℕ) × (deadline ≡ some limit)
      × All (λ (t : Timer F). limit < t.at) v.host.timers.timers
      × (u : Worker S F J W O) × (r ≡ done (ends (err wall_clock_timeout), u))
      × IsQuiet u
      × (u.host.now ≡ v.host.now)

  -- A timer that is due no later than any other, and not after the deadline, is fired, at its instant or later.
  abbrev pub Fires : Worker S F J W O → Run (Turn × Worker S F J W O) → Type 0
  Fires v r =
      (t : Timer F) × (u : Worker S F J W O) × Memᴰ t v.host.timers.timers
      × All (λ (x : Timer F). t.at ≤ x.at) v.host.timers.timers
      × ((limit : ℕ) → deadline ≡ some limit → t.at ≤ limit)
      × (t.at ≤ u.host.now)
      × (v.host.now ≤ u.host.now)
      × (r ≡ goes_on (fire_timer platform t.handle u))

  -- An interval that is due cannot be set again.
  abbrev pub Overflows : Worker S F J W O → Run (Turn × Worker S F J W O) → Type 0
  Overflows v r =
      (r ≡ panicked) × (t : Timer F) × Memᴰ t v.host.timers.timers × (reschedule t ≡ panics)

  abbrev pub Waits : Worker S F J W O → Run (Turn × Worker S F J W O) → Type 0
  Waits v r = Idle v r ⊎ (Late v r ⊎ (Fires v r ⊎ Overflows v r))
