-- ===== src/Worker/Drain.antt =====
-- What `drain` of src/worker.rs has done when it returns, and that its fuel does not matter.
use openworkers_runtime_nova.Prelude.{
  ℕ, zero, suc, ◌+◌, ◌≡◌, ◌≢◌, refl, ◌⊎◌, inl, inr, Bool, true, false, Option, none, some, List, [],
  Result, ok, err, Outcome, returns, panics, arith, Text, pop, pop-none,
}
use openworkers_runtime_nova.Future.{Task}
use openworkers_runtime_nova.Timers.{Timers, next_timer}
use openworkers_runtime_nova.Timers.Order.{next_timer-NextTimer}
use openworkers_runtime_nova.Host.{Pending, advance}
use openworkers_runtime_nova.Engine.{Platform}
use openworkers_runtime_nova.Worker.{
  Worker, Run, done, panicked, hung, starved, Reason, max_iterations_reached, wall_clock_timeout,
  Turn, continues, ends, goes_on, next_turn, drain_jobs, turn, drained_turn, wait_turn, settle_turn,
  timer_turn, fire_turn, drain_loop, drain, is_late, clear_timers, awaited, unlimited, deadline_of,
}
use openworkers_runtime_nova.Worker.Jobs.{jobs-drain_jobs, drain_jobs-reason}

module _ {S F J W O : Type 0} where
  -- Nothing is left to wait for.
  pub record IsQuiet (w : Worker S F J W O) : Type 0 where
    pub no_jobs : w.host.jobs ≡ []
    pub no_bindings : w.host.bindings ≡ []
    pub no_timers : w.host.timers.timers ≡ []

  -- How `drain` may end, under a deadline or none.
  abbrev pub Ended : Option ℕ → Result (Unit {0}) Reason → Worker S F J W O → Type 0
  Ended deadline (ok _) w = IsQuiet w
  Ended deadline (err reason) w =
      (w.host.jobs ≡ [])
      × ((reason ≡ max_iterations_reached) ⊎ ((reason ≡ wall_clock_timeout) × (deadline ≢ none)))

  abbrev EndedTurn : Option ℕ → Run (Turn × Worker S F J W O) → Type 0
  EndedTurn deadline (done (continues, w)) = Unit
  EndedTurn deadline (done (ends r, w)) = Ended deadline r w
  EndedTurn deadline _ = Unit

  abbrev EndedRun : Option ℕ → Run (Result (Unit {0}) Reason × Worker S F J W O) → Type 0
  EndedRun deadline (done (r, w)) = Ended deadline r w
  EndedRun deadline _ = Unit

  goes_on-Ended :
      (deadline : Option ℕ) (o : Outcome (Worker S F J W O)) → EndedTurn deadline (goes_on o)
  goes_on-Ended deadline panics = tt
  goes_on-Ended deadline (returns w) = tt

  next_turn-Ended :
      (deadline : Option ℕ)
      (loop : Worker S F J W O → Run (Result (Unit {0}) Reason × Worker S F J W O))
      → ((w : Worker S F J W O) → EndedRun deadline (loop w))
      → (t : Run (Turn × Worker S F J W O)) → EndedTurn deadline t
      → EndedRun deadline (next_turn loop t)
  next_turn-Ended deadline loop ih (done (continues, w)) h = ih w
  next_turn-Ended deadline loop ih (done (ends r, w)) h = h
  next_turn-Ended deadline loop ih panicked h = tt
  next_turn-Ended deadline loop ih hung h = tt
  next_turn-Ended deadline loop ih starved h = tt

module _ {S F J W O : Type 0} (platform : Platform S J F W O) where
  abbrev Awaited : Option ℕ → Option (ℕ × Option (Result Text Text)) → Type 0
  Awaited deadline (some (d, none)) = deadline ≢ none
  Awaited deadline _ = Unit

  unlimited-Awaited : (o : Option (ℕ × Result Text Text)) → Awaited none (unlimited o)
  unlimited-Awaited none = tt
  unlimited-Awaited (some (d, r)) = tt

  timeout-Awaited :
      (deadline : ℕ) (o : Option (ℕ × Option (Result Text Text))) → Awaited (some deadline) o
  timeout-Awaited deadline none = tt
  timeout-Awaited deadline (some (d, none)) = λ e. cc
  timeout-Awaited deadline (some (d, some r)) = tt

  awaited-Awaited :
      (deadline : Option ℕ) (answer : Task Text) (now : ℕ)
      → Awaited deadline (awaited platform deadline answer now)
  unfolding awaited
  awaited-Awaited none answer now = unlimited-Awaited (answer now)
  awaited-Awaited (some deadline) answer now = timeout-Awaited deadline _

  settle_turn-Ended :
      (deadline : Option ℕ) (id : F) (o : Option (ℕ × Option (Result Text Text)))
      (w : Worker S F J W O)
      → w.host.jobs ≡ []
      → Awaited deadline o
      → EndedTurn deadline (settle_turn platform id o w)
  unfolding settle_turn advance
  settle_turn-Ended deadline id none w e h = tt
  settle_turn-Ended deadline id (some (d, none)) w e h = (e, inr (refl, h))
  settle_turn-Ended deadline id (some (d, some answer)) w e h = goes_on-Ended deadline _

  fire_turn-Ended :
      (deadline : Option ℕ) (late : Bool) (handle : F) (at : ℕ) (w : Worker S F J W O)
      → w.host.jobs ≡ []
      → (late ≡ true → deadline ≢ none)
      → EndedTurn deadline (fire_turn platform late handle at w)
  unfolding fire_turn clear_timers
  fire_turn-Ended deadline true handle at w e h = (e, inr (refl, h refl))
  fire_turn-Ended deadline false handle at w e h = goes_on-Ended deadline _

  is_late-deadline : (deadline : Option ℕ) (at : ℕ) → is_late deadline at ≡ true → deadline ≢ none
  unfolding is_late
  is_late-deadline deadline at h = ground arith

  timer_turn-Ended :
      (deadline : Option ℕ) (o : Outcome (Option (F × ℕ) × Timers F)) (w : Worker S F J W O)
      → next_timer w.host.timers ≡ o
      → w.host.jobs ≡ []
      → w.host.bindings ≡ []
      → EndedTurn deadline (timer_turn platform deadline o w)
  unfolding timer_turn
  timer_turn-Ended deadline panics w e jobs bindings = tt
  timer_turn-Ended deadline (returns (none, timers)) w e jobs bindings =
      let (empty, same) = rw e at (next_timer-NextTimer w.host.timers) in
      record { no_jobs = jobs; no_bindings = bindings; no_timers = rw same empty }
  timer_turn-Ended deadline (returns (some (handle, at), timers)) w e jobs bindings =
      fire_turn-Ended deadline (is_late deadline at) handle at _ jobs (is_late-deadline deadline at)

  wait_turn-Ended :
      (deadline : Option ℕ) (o : Option (Pending F × List (Pending F))) (w : Worker S F J W O)
      → pop w.host.bindings ≡ o
      → w.host.jobs ≡ []
      → EndedTurn deadline (wait_turn platform deadline o w)
  unfolding wait_turn
  wait_turn-Ended deadline (some (pending, rest)) w e jobs =
      settle_turn-Ended deadline pending.id _ _ jobs
        (awaited-Awaited deadline pending.answer w.host.now)
  wait_turn-Ended deadline none w e jobs =
      timer_turn-Ended deadline (next_timer w.host.timers) w refl jobs (pop-none w.host.bindings e)

  drained_turn-Ended :
      (deadline : Option ℕ) (w : Worker S F J W O)
      (o : Outcome (Result (Unit {0}) Reason × Worker S F J W O))
      → drain_jobs platform w ≡ o
      → EndedTurn deadline (drained_turn platform deadline o)
  unfolding drained_turn
  drained_turn-Ended deadline w panics e = tt
  drained_turn-Ended deadline w (returns (ok _, v)) e =
      wait_turn-Ended deadline (pop v.host.bindings) v refl (jobs-drain_jobs platform w v _ e)
  drained_turn-Ended deadline w (returns (err reason, v)) e =
      (jobs-drain_jobs platform w v _ e, inl (drain_jobs-reason platform w v reason e))

  turn-Ended :
      (deadline : Option ℕ) (w : Worker S F J W O) → EndedTurn deadline (turn platform deadline w)
  unfolding turn
  turn-Ended deadline w = drained_turn-Ended deadline w (drain_jobs platform w) refl

  drain_loop-Ended :
      (fuel : ℕ) (deadline : Option ℕ) (w : Worker S F J W O)
      → EndedRun deadline (drain_loop platform fuel deadline w)
  unfolding drain_loop
  drain_loop-Ended zero deadline w = tt
  drain_loop-Ended (suc fuel) deadline w =
      next_turn-Ended deadline (drain_loop platform fuel deadline) (drain_loop-Ended fuel deadline)
        (turn platform deadline w) (turn-Ended deadline w)

  deadline_of-none : (budget : Option ℕ) (now : ℕ) → deadline_of budget now ≢ none → budget ≢ none
  unfolding deadline_of
  deadline_of-none budget now h e = h (rw e refl)

  Ended-deadline :
      (budget : Option ℕ) (now : ℕ) (r : Result (Unit {0}) Reason) (w : Worker S F J W O)
      → Ended (deadline_of budget now) r w
      → Ended budget r w
  Ended-deadline budget now (ok _) w h = h
  Ended-deadline budget now (err reason) w (jobs, inl why) = (jobs, inl why)
  Ended-deadline budget now (err reason) w (jobs, inr (why, limited)) =
      (jobs, inr (why, deadline_of-none budget now limited))

  -- Where `drain` succeeds, no job, no binding call and no timer is left. Where it fails, no job is left, and it
  -- met the cap on jobs, or the wall clock if the worker has a limit on it.
  pub drain-Ended :
      (fuel : ℕ) (w u : Worker S F J W O) (r : Result (Unit {0}) Reason)
      → drain platform fuel w ≡ done (r, u)
      → Ended w.wall_clock r u
  unfolding drain
  drain-Ended fuel w u r e =
      Ended-deadline w.wall_clock w.host.now r u
        (rw e at (drain_loop-Ended fuel (deadline_of w.wall_clock w.host.now) w))

  next_turn-fuel :
      (loop more : Worker S F J W O → Run (Result (Unit {0}) Reason × Worker S F J W O))
      → ((w : Worker S F J W O) → loop w ≢ starved → more w ≡ loop w)
      → (t : Run (Turn × Worker S F J W O)) → next_turn loop t ≢ starved
      → next_turn more t ≡ next_turn loop t
  next_turn-fuel loop more ih (done (continues, w)) h = ih w h
  next_turn-fuel loop more ih (done (ends r, w)) h = refl
  next_turn-fuel loop more ih panicked h = refl
  next_turn-fuel loop more ih hung h = refl
  next_turn-fuel loop more ih starved h = refl

  -- Once the fuel of `drain` is enough, more of it changes nothing.
  pub drain_loop-fuel :
      (n k : ℕ) (deadline : Option ℕ) (w : Worker S F J W O)
      → drain_loop platform n deadline w ≢ starved
      → drain_loop platform (n + k) deadline w ≡ drain_loop platform n deadline w
  unfolding drain_loop
  drain_loop-fuel zero k deadline w h = absurd (h refl)
  drain_loop-fuel (suc n) k deadline w h =
      let e : suc n + k ≡ suc (n + k) = omega arith in
      rw e (
        next_turn-fuel (drain_loop platform n deadline) (drain_loop platform (n + k) deadline)
          (drain_loop-fuel n k deadline) (turn platform deadline w) h)
