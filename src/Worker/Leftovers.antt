-- ===== src/Worker/Leftovers.antt =====
-- What a `drain` of src/worker.rs that fails leaves in the worker.
use openworkers_runtime_nova.Prelude.{
  ℕ, zero, suc, ◌≡◌, refl, ◌⊎◌, inl, inr, Bool, true, false, Option, none, some, List, [], ◌∷◌,
  ◌++◌, Result, ok, err, Outcome, returns, panics, Text, pop, pop-none, pop-some,
}
use openworkers_runtime_nova.Timers.{Timers, next_timer}
use openworkers_runtime_nova.Host.{Pending, advance}
use openworkers_runtime_nova.Engine.{Platform}
use openworkers_runtime_nova.Worker.{
  Worker, Run, done, panicked, hung, starved, Reason, max_iterations_reached, wall_clock_timeout,
  Turn, continues, ends, with_host, goes_on, next_turn, drain_jobs, turn, drained_turn, wait_turn,
  settle_turn, timer_turn, fire_turn, drain_loop, drain, is_late, clear_timers, awaited,
  deadline_of,
}
use openworkers_runtime_nova.Worker.Jobs.{jobs-drain_jobs, drain_jobs-reason}
use openworkers_runtime_nova.Worker.Drain.{IsQuiet}

module _ {S F J W O : Type 0} (platform : Platform S J F W O) (deadline : Option ℕ) where
  -- The states in which the loop of `drain` has done the jobs and looks for what to wait for.
  pub data Reaches : Worker S F J W O → Worker S F J W O → Type 0 where
    drained : (w v : Worker S F J W O) → drain_jobs platform w ≡ returns (ok tt, v) → Reaches w v
    turned :
        (w v u : Worker S F J W O)
        → turn platform deadline w ≡ done (continues, v)
        → Reaches v u
        → Reaches w u

  -- The answer to the call asked for last did not come in time: that call is gone, and the clock has moved.
  abbrev pub Unanswered : Worker S F J W O → Worker S F J W O → Type 0
  Unanswered v u =
      (pending : Pending F) × (rest : List (Pending F)) × (d : ℕ) × (v.host.bindings
        ≡ rest ++ (pending ∷ []))
      × (awaited platform deadline pending.answer v.host.now ≡ some (d, none))
      × (u ≡ with_host v (advance d (record (v.host) { bindings = rest })))

  -- The timer that is next is due too late.
  abbrev pub TooLate : Worker S F J W O → Worker S F J W O → Type 0
  TooLate v u =
      (v.host.bindings ≡ [])
      × ((handle : F) × (at : ℕ) × (timers : Timers F) × (next_timer v.host.timers
            ≡ returns (some (handle, at), timers))
          × (is_late deadline at ≡ true))
      × IsQuiet u

  -- How `drain` may fail.
  abbrev pub Failed : Worker S F J W O → Reason → Worker S F J W O → Type 0
  Failed w reason u =
      (reason ≡ max_iterations_reached)
      ⊎ ((reason ≡ wall_clock_timeout)
          × (v : Worker S F J W O) × Reaches w v
          × (Unanswered v u ⊎ TooLate v u))

  abbrev FailedRun : Worker S F J W O → Run (Result (Unit {0}) Reason × Worker S F J W O) → Type 0
  FailedRun w (done (err reason, u)) = Failed w reason u
  FailedRun w _ = Unit

  -- The same of one turn, which starts with the jobs of `w`.
  abbrev FailedTurn : Worker S F J W O → Run (Turn × Worker S F J W O) → Type 0
  FailedTurn w (done (ends (err reason), u)) = Failed w reason u
  FailedTurn w _ = Unit

  goes_on-Failed :
      (w : Worker S F J W O) (o : Outcome (Worker S F J W O)) → FailedTurn w (goes_on o)
  goes_on-Failed w panics = tt
  goes_on-Failed w (returns v) = tt

  settle_turn-Failed :
      (w v : Worker S F J W O) (pending : Pending F) (rest : List (Pending F))
      (o : Option (ℕ × Option (Result Text Text)))
      → Reaches w v
      → v.host.bindings ≡ rest ++ (pending ∷ [])
      → awaited platform deadline pending.answer v.host.now ≡ o
      → FailedTurn w
          (settle_turn platform pending.id o (with_host v (record (v.host) { bindings = rest })))
  unfolding settle_turn
  settle_turn-Failed w v pending rest none reached e a = tt
  settle_turn-Failed w v pending rest (some (d, none)) reached e a =
      inr (refl, v, reached, inl (pending, rest, d, e, a, refl))
  settle_turn-Failed w v pending rest (some (d, some answer)) reached e a = goes_on-Failed w _

  fire_turn-Failed :
      (w v : Worker S F J W O) (handle : F) (at : ℕ) (timers : Timers F) (late : Bool)
      → Reaches w v
      → v.host.jobs ≡ []
      → v.host.bindings ≡ []
      → next_timer v.host.timers ≡ returns (some (handle, at), timers)
      → is_late deadline at ≡ late
      → FailedTurn w
          (fire_turn platform late handle at (with_host v (record (v.host) { timers = timers })))
  unfolding fire_turn clear_timers
  fire_turn-Failed w v handle at timers true reached jobs bindings e l = inr (
    refl,
    v,
    reached,
    inr (
      bindings,
      (handle, at, timers, e, l),
      record { no_jobs = jobs; no_bindings = bindings; no_timers = refl },
    ),
  )
  fire_turn-Failed w v handle at timers false reached jobs bindings e l = goes_on-Failed w _

  timer_turn-Failed :
      (w v : Worker S F J W O) (o : Outcome (Option (F × ℕ) × Timers F))
      → Reaches w v
      → v.host.jobs ≡ []
      → v.host.bindings ≡ []
      → next_timer v.host.timers ≡ o
      → FailedTurn w (timer_turn platform deadline o v)
  unfolding timer_turn
  timer_turn-Failed w v panics reached jobs bindings e = tt
  timer_turn-Failed w v (returns (none, timers)) reached jobs bindings e = tt
  timer_turn-Failed w v (returns (some (handle, at), timers)) reached jobs bindings e =
      fire_turn-Failed w v handle at timers (is_late deadline at) reached jobs bindings e refl

  wait_turn-Failed :
      (w v : Worker S F J W O) (o : Option (Pending F × List (Pending F)))
      → Reaches w v
      → v.host.jobs ≡ []
      → pop v.host.bindings ≡ o
      → FailedTurn w (wait_turn platform deadline o v)
  unfolding wait_turn
  wait_turn-Failed w v (some (pending, rest)) reached jobs e =
      settle_turn-Failed w v pending rest _ reached (pop-some v.host.bindings pending rest e) refl
  wait_turn-Failed w v none reached jobs e =
      timer_turn-Failed w v (next_timer v.host.timers) reached jobs (pop-none v.host.bindings e)
        refl

  drained_turn-Failed :
      (w : Worker S F J W O) (o : Outcome (Result (Unit {0}) Reason × Worker S F J W O))
      → drain_jobs platform w ≡ o
      → FailedTurn w (drained_turn platform deadline o)
  unfolding drained_turn
  drained_turn-Failed w panics e = tt
  drained_turn-Failed w (returns (ok _, v)) e =
      wait_turn-Failed w v (pop v.host.bindings) (drained w v e) (jobs-drain_jobs platform w v _ e)
        refl
  drained_turn-Failed w (returns (err reason, v)) e = inl (drain_jobs-reason platform w v reason e)

  Failed-turned :
      (w v u : Worker S F J W O) (reason : Reason)
      → turn platform deadline w ≡ done (continues, v)
      → Failed v reason u
      → Failed w reason u
  Failed-turned w v u reason e (inl capped) = inl capped
  Failed-turned w v u reason e (inr (late, x, reached, how)) =
      inr (late, x, turned w v x e reached, how)

  FailedRun-turned :
      (w v : Worker S F J W O) (r : Run (Result (Unit {0}) Reason × Worker S F J W O))
      → turn platform deadline w ≡ done (continues, v)
      → FailedRun v r
      → FailedRun w r
  FailedRun-turned w v (done (err reason, u)) e h = Failed-turned w v u reason e h
  FailedRun-turned w v (done (ok _, u)) e h = tt
  FailedRun-turned w v panicked e h = tt
  FailedRun-turned w v hung e h = tt
  FailedRun-turned w v starved e h = tt

  next_turn-Failed :
      (w : Worker S F J W O)
      (loop : Worker S F J W O → Run (Result (Unit {0}) Reason × Worker S F J W O))
      → ((v : Worker S F J W O) → FailedRun v (loop v))
      → (t : Run (Turn × Worker S F J W O)) → turn platform deadline w ≡ t
      → FailedTurn w t
      → FailedRun w (next_turn loop t)
  next_turn-Failed w loop ih (done (continues, v)) e h = FailedRun-turned w v (loop v) e (ih v)
  next_turn-Failed w loop ih (done (ends (ok _), v)) e h = tt
  next_turn-Failed w loop ih (done (ends (err reason), v)) e h = h
  next_turn-Failed w loop ih panicked e h = tt
  next_turn-Failed w loop ih hung e h = tt
  next_turn-Failed w loop ih starved e h = tt

  turn-Failed : (w : Worker S F J W O) → FailedTurn w (turn platform deadline w)
  unfolding turn
  turn-Failed w = drained_turn-Failed w (drain_jobs platform w) refl

  drain_loop-Failed :
      (fuel : ℕ) (w : Worker S F J W O) → FailedRun w (drain_loop platform fuel deadline w)
  unfolding drain_loop
  drain_loop-Failed zero w = tt
  drain_loop-Failed (suc fuel) w =
      next_turn-Failed w (drain_loop platform fuel deadline) (drain_loop-Failed fuel)
        (turn platform deadline w) refl (turn-Failed w)

module _ {S F J W O : Type 0} (platform : Platform S J F W O) where
  -- Where `drain` fails and has not met the cap on jobs, it met the wall clock in a state that its loop reached, with the
  -- jobs done. Either no call was waited for and the next timer was due too late, and nothing is left; or the
  -- answer to the call asked for last did not come in time, and the timers and the other calls of that state are left.
  pub drain-Failed :
      (fuel : ℕ) (w u : Worker S F J W O) (reason : Reason)
      → drain platform fuel w ≡ done (err reason, u)
      → Failed platform (deadline_of w.wall_clock w.host.now) w reason u
  unfolding drain
  drain-Failed fuel w u reason e =
      rw e at (drain_loop-Failed platform (deadline_of w.wall_clock w.host.now) fuel w)
