-- ===== src/Worker/Invariant.antt =====
-- What every run of the engine keeps, `drain` of src/worker.rs keeps.
use openworkers_runtime_nova.Prelude.{
  ℕ, zero, suc, ◌+◌, ◌-◌, ◌≤◌, ◌≡◌, refl, Bool, true, false, Option, none, some, List, [], ◌∷◌,
  Result, ok, err, Outcome, returns, panics, arith, Text, pop, leb, Bool-cases, inl, inr,
}
use openworkers_runtime_nova.Timers.{Timers, next_timer}
use openworkers_runtime_nova.Host.{Host, Pending, advance, enqueue_job}
use openworkers_runtime_nova.Engine.{Prog, Platform, run}
use openworkers_runtime_nova.Worker.{
  Worker, Run, done, panicked, hung, starved, Reason, Turn, continues, ends, goes_on, next_turn,
  with_host, run_prog, reported, and_then, eval, take_job, clear_jobs, jobs_turn, jobs_end,
  drain_turns, drain_jobs, turn, drained_turn, wait_turn, settle_turn, timer_turn, fire_turn,
  drain_loop, drain, clear_timers, sleep_until, eval_reporting, settle_binding, fire_timer,
  deadline_of,
}

-- A property of a worker that the queues do not bear on, and that the engine keeps.
pub record WorkerInvariant {S F J W O : Type 0} (platform : Platform S J F W O)
    (P : Worker S F J W O → Type 0) : Type 0 where
  pub requeue :
      (w : Worker S F J W O) (jobs : List J) (bindings : List (Pending F)) (timers : Timers F)
      → P w
      → P (with_host w (record (w.host) { jobs = jobs; bindings = bindings; timers = timers }))
  pub passes :
      (w : Worker S F J W O) (now : ℕ)
      → w.host.now ≤ now
      → P w
      → P (with_host w (record (w.host) { now = now }))
  pub by_eval :
      (w : Worker S F J W O) (source : Text) (h' : Host F J W O) (thrown : Option Text) (s' : S)
      → run platform.natives (platform.eval w.engine source) w.host ≡ returns (thrown, s', h')
      → P w
      → P (record w { engine = s'; host = h' })
  pub by_job :
      (w : Worker S F J W O) (job : J) (h' : Host F J W O) (thrown : Option Text) (s' : S)
      → run platform.natives (platform.run_job w.engine job) w.host ≡ returns (thrown, s', h')
      → P w
      → P (record w { engine = s'; host = h' })

module _ {S F J W O : Type 0} (platform : Platform S J F W O) (P : Worker S F J W O → Type 0)
    (inv : WorkerInvariant platform P)
    (wakes : (now wait : ℕ) → now + wait ≤ platform.wake now wait) where
  abbrev pub OnOutcome : {A : Type 0} → Outcome (A × Worker S F J W O) → Type 0
  OnOutcome panics = Unit
  OnOutcome (returns (a, w)) = P w

  abbrev pub OnWorker : Outcome (Worker S F J W O) → Type 0
  OnWorker panics = Unit
  OnWorker (returns w) = P w

  abbrev pub OnRun : {A : Type 0} → Run (A × Worker S F J W O) → Type 0
  OnRun (done (a, w)) = P w
  OnRun _ = Unit

  run_prog-keeps :
      (prog : Prog S J F) (w : Worker S F J W O)
      → ((h' : Host F J W O) (thrown : Option Text) (s' : S)
          → run platform.natives prog w.host ≡ returns (thrown, s', h')
          → P (record w { engine = s'; host = h' }))
      → OnOutcome (run_prog platform prog w)
  run_prog-keeps prog w f = go (run platform.natives prog w.host) refl
    where
      go :
          (o : Outcome (Option Text × S × Host F J W O))
          → run platform.natives prog w.host ≡ o
          → OnOutcome (run_prog platform prog w)
      go panics e = unfold run_prog in rw (e, run_prog) tt
      go (returns (thrown, s', h')) e = unfold run_prog in rw (e, run_prog) (f h' thrown s' e)

  reported-keeps :
      (o : Outcome (Option Text × Worker S F J W O)) → OnOutcome o → OnWorker (reported o)
  reported-keeps panics h = tt
  reported-keeps (returns (thrown, w)) h = h

  pub eval-keeps : (source : Text) (w : Worker S F J W O) → P w → OnOutcome (eval platform source w)
  unfolding eval
  eval-keeps source w p =
      run_prog-keeps (platform.eval w.engine source) w
        (λ h' thrown s' e. inv.by_eval w source h' thrown s' e p)

  eval_reporting-keeps :
      (source : Text) (w : Worker S F J W O) → P w → OnWorker (eval_reporting platform source w)
  unfolding eval_reporting
  eval_reporting-keeps source w p = reported-keeps (eval platform source w) (eval-keeps source w p)

  requeued :
      (w : Worker S F J W O) (jobs : List J)
      → P w
      → P (with_host w (record (w.host) { jobs = jobs }))
  requeued w jobs p = inv.requeue w jobs w.host.bindings w.host.timers p

  take_job-keeps :
      (job : J) (rest : List J) (w : Worker S F J W O)
      → P w
      → OnWorker (take_job platform job rest w)
  unfolding take_job enqueue_job
  take_job-keeps job rest w p = elim (Bool-cases (platform.is_finished job w.host.now)) [
    | inl finished ↦ rw finished (
        reported-keeps _ (
          run_prog-keeps (platform.run_job w.engine job)
            (with_host w (record (w.host) { jobs = rest }))
            (λ h' thrown s' e. inv.by_job _ job h' thrown s' e (requeued w rest p))))
    | inr unfinished ↦ rw unfinished (requeued w _ p)
  ]

  and_then-keeps :
      {A : Type 0} (next : Worker S F J W O → Outcome (A × Worker S F J W O))
      (o : Outcome (Worker S F J W O))
      → ((w : Worker S F J W O) → P w → OnOutcome (next w))
      → OnWorker o
      → OnOutcome (and_then next o)
  and_then-keeps next panics f h = tt
  and_then-keeps next (returns w) f h = f w h

  jobs_turn-keeps :
      (next : Worker S F J W O → Outcome (Result (Unit {0}) Reason × Worker S F J W O))
      (jobs : List J) (w : Worker S F J W O)
      → ((v : Worker S F J W O) → P v → OnOutcome (next v))
      → P w
      → OnOutcome (jobs_turn platform next jobs w)
  unfolding jobs_turn
  jobs_turn-keeps next [] w f p = p
  jobs_turn-keeps next (job ∷ rest) w f p = and_then-keeps next _ f (take_job-keeps job rest w p)

  jobs_end-keeps :
      (jobs : List J) (w : Worker S F J W O) → P w → OnOutcome (jobs_end platform jobs w)
  unfolding jobs_end clear_jobs
  jobs_end-keeps [] w p = p
  jobs_end-keeps (job ∷ rest) w p = requeued w [] p

  drain_turns-keeps : (n : ℕ) (w : Worker S F J W O) → P w → OnOutcome (drain_turns platform n w)
  unfolding drain_turns
  drain_turns-keeps zero w p = jobs_end-keeps w.host.jobs w p
  drain_turns-keeps (suc n) w p =
      jobs_turn-keeps (drain_turns platform n) w.host.jobs w (drain_turns-keeps n) p

  goes_on-keeps : (o : Outcome (Worker S F J W O)) → OnWorker o → OnRun (goes_on o)
  goes_on-keeps panics h = tt
  goes_on-keeps (returns w) h = h

  advance-keeps : (d : ℕ) (w : Worker S F J W O) → P w → P (with_host w (advance d w.host))
  unfolding advance
  advance-keeps d w p = inv.passes w (w.host.now + d) (omega arith) p

  sleep_until-keeps :
      (at : ℕ) (w : Worker S F J W O) → P w → P (with_host w (sleep_until platform at w.host))
  unfolding sleep_until
  sleep_until-keeps at w p = elim (Bool-cases (leb w.host.now at)) [
    | inl ahead ↦
        let slept = wakes w.host.now (at - w.host.now) in
        rw ahead (inv.passes w (platform.wake w.host.now (at - w.host.now)) (omega arith) p)
    | inr past ↦ rw past p
  ]

  settle_turn-keeps :
      (id : F) (o : Option (ℕ × Option (Result Text Text))) (w : Worker S F J W O)
      → P w
      → OnRun (settle_turn platform id o w)
  unfolding settle_turn settle_binding
  settle_turn-keeps id none w p = tt
  settle_turn-keeps id (some (d, none)) w p = advance-keeps d w p
  settle_turn-keeps id (some (d, some answer)) w p =
      goes_on-keeps _ (eval_reporting-keeps _ _ (advance-keeps d w p))

  fire_turn-keeps :
      (late : Bool) (handle : F) (at : ℕ) (w : Worker S F J W O)
      → P w
      → OnRun (fire_turn platform late handle at w)
  unfolding fire_turn fire_timer clear_timers
  fire_turn-keeps true handle at w p = inv.requeue w w.host.jobs w.host.bindings _ p
  fire_turn-keeps false handle at w p =
      goes_on-keeps _ (eval_reporting-keeps _ _ (sleep_until-keeps at w p))

  timer_turn-keeps :
      (deadline : Option ℕ) (o : Outcome (Option (F × ℕ) × Timers F)) (w : Worker S F J W O)
      → P w
      → OnRun (timer_turn platform deadline o w)
  unfolding timer_turn
  timer_turn-keeps deadline panics w p = tt
  timer_turn-keeps deadline (returns (none, timers)) w p =
      inv.requeue w w.host.jobs w.host.bindings timers p
  timer_turn-keeps deadline (returns (some (handle, at), timers)) w p =
      fire_turn-keeps _ handle at _ (inv.requeue w w.host.jobs w.host.bindings timers p)

  wait_turn-keeps :
      (deadline : Option ℕ) (o : Option (Pending F × List (Pending F))) (w : Worker S F J W O)
      → P w
      → OnRun (wait_turn platform deadline o w)
  unfolding wait_turn
  wait_turn-keeps deadline (some (pending, rest)) w p =
      settle_turn-keeps pending.id _ _ (inv.requeue w w.host.jobs rest w.host.timers p)
  wait_turn-keeps deadline none w p = timer_turn-keeps deadline (next_timer w.host.timers) w p

  drained_turn-keeps :
      (deadline : Option ℕ) (o : Outcome (Result (Unit {0}) Reason × Worker S F J W O))
      → OnOutcome o
      → OnRun (drained_turn platform deadline o)
  unfolding drained_turn
  drained_turn-keeps deadline panics h = tt
  drained_turn-keeps deadline (returns (ok _, v)) h =
      wait_turn-keeps deadline (pop v.host.bindings) v h
  drained_turn-keeps deadline (returns (err reason, v)) h = h

  turn-keeps : (deadline : Option ℕ) (w : Worker S F J W O) → P w → OnRun (turn platform deadline w)
  unfolding turn drain_jobs
  turn-keeps deadline w p = drained_turn-keeps deadline _ (drain_turns-keeps _ w p)

  next_turn-keeps :
      (loop : Worker S F J W O → Run (Result (Unit {0}) Reason × Worker S F J W O))
      (t : Run (Turn × Worker S F J W O))
      → ((w : Worker S F J W O) → P w → OnRun (loop w))
      → OnRun t
      → OnRun (next_turn loop t)
  next_turn-keeps loop (done (continues, w)) f h = f w h
  next_turn-keeps loop (done (ends r, w)) f h = h
  next_turn-keeps loop panicked f h = tt
  next_turn-keeps loop hung f h = tt
  next_turn-keeps loop starved f h = tt

  drain_loop-keeps :
      (fuel : ℕ) (deadline : Option ℕ) (w : Worker S F J W O)
      → P w
      → OnRun (drain_loop platform fuel deadline w)
  unfolding drain_loop
  drain_loop-keeps zero deadline w p = tt
  drain_loop-keeps (suc fuel) deadline w p =
      next_turn-keeps (drain_loop platform fuel deadline) (turn platform deadline w)
        (drain_loop-keeps fuel deadline) (turn-keeps deadline w p)

  pub drain-keeps : (fuel : ℕ) (w : Worker S F J W O) → P w → OnRun (drain platform fuel w)
  unfolding drain
  drain-keeps fuel w p = drain_loop-keeps fuel (deadline_of w.wall_clock w.host.now) w p
