-- ===== src/Worker/Termination.antt =====
-- `drain` of src/worker.rs ends for a guest that asks for nothing more.
use openworkers_runtime_nova.Prelude.{
  ◌≡◌, false, none, refl, ℕ, zero, suc, ◌≤◌, ◌<◌, ◌≢◌, refl, Bool, true, false, Option, none, some,
  List, [], ◌∷◌, Result, ok, err, Outcome, returns, panics, Text, arith, All, pop, pop-some,
  All-append_inv, leb, Bool-cases, inl, inr,
}
use openworkers_runtime_nova.Future.{Task}
use openworkers_runtime_nova.Timers.{Timers}
use openworkers_runtime_nova.Timers.Order.{NextTimer, next_timer-NextTimer}
use openworkers_runtime_nova.Host.{Host, Pending, advance, enqueue_job}
use openworkers_runtime_nova.Engine.{Prog, Platform}
use openworkers_runtime_nova.Engine.Inert.{
  IsOnce, Answers, Less, Less-refl, Less-same, IsInert, LessRun, run-Less,
}
use openworkers_runtime_nova.Worker.{
  Worker, Reason, with_host, run_prog, eval, eval_reporting, settle_binding, fire_timer, take_job,
  jobs_turn, jobs_end, clear_jobs, drain_turns, drain_jobs, settle_turn, binding_turn, fire_turn,
  sleep_until, timer_turn, wait_turn, drained_turn, turn, drain_loop, drain, is_late, deadline_of,
  awaited, unlimited,
}
use openworkers_runtime_nova.Worker.Weight.{
  Popped, pop-Popped, Due-Ending, weight, turns_of, Ready, Less-Ready, Returns, Lighter, LessWorker,
  LessOutcome, reported-Less, LessWorker-trans, goes_on-Lighter, and_then-Less, next_turn-ends,
}

deadline-none : (limit : Option ℕ) (now : ℕ) → deadline_of limit now ≡ none → limit ≡ none
unfolding deadline_of
deadline-none none now e = refl
deadline-none (some budget) now e = cc

module _ {S F J W O : Type 0} (platform : Platform S J F W O)
    (scripts : (s : S) (source : Text) → IsInert (platform.eval s source))
    (jobs : (s : S) (job : J) → IsInert (platform.run_job s job))
    (timeouts : (budget now : ℕ) (answer : Task Text)
      → platform.timeout budget answer now ≢ none) where
  unlimited-comes : (o : Option (ℕ × Result Text Text)) → o ≢ none → unlimited o ≢ none
  unlimited-comes none comes = absurd (comes refl)
  unlimited-comes (some (d, answer)) comes = λ e. cc

  awaited-comes :
      (deadline : Option ℕ) (pending : Pending F) (now : ℕ)
      → (deadline ≡ none → Answers pending)
      → awaited platform deadline pending.answer now ≢ none
  unfolding awaited
  awaited-comes none pending now answers = unlimited-comes (pending.answer now) (answers refl now)
  awaited-comes (some deadline) pending now answers = timeouts _ now pending.answer

  run_prog_outcome :
      (w : Worker S F J W O) (o : Outcome (Option Text × S × Host F J W O))
      → LessRun platform.natives w.host o
      → LessOutcome w.host (elim o [
        | panics ↦ panics
        | returns (thrown, engine, host) ↦
            returns (thrown, record w { engine = engine; host = host })
      ])
  run_prog_outcome w panics l = tt
  run_prog_outcome w (returns (thrown, engine, host)) l = l

  run_prog-Less :
      (prog : Prog S J F) (w : Worker S F J W O)
      → IsInert prog
      → LessOutcome w.host (run_prog platform prog w)
  unfolding run_prog
  run_prog-Less prog w i = run_prog_outcome w _ (run-Less platform.natives prog w.host i)

  eval_reporting-Less :
      (source : Text) (w : Worker S F J W O) → LessWorker w.host (eval_reporting platform source w)
  unfolding eval_reporting eval
  eval_reporting-Less source w =
      reported-Less w.host _ (run_prog-Less _ w (scripts w.engine source))

  settle_binding-Less :
      (id : F) (answer : Result Text Text) (w : Worker S F J W O)
      → LessWorker w.host (settle_binding platform id answer w)
  unfolding settle_binding
  settle_binding-Less id answer w = eval_reporting-Less _ w

  fire_timer-Less :
      (handle : F) (w : Worker S F J W O) → LessWorker w.host (fire_timer platform handle w)
  unfolding fire_timer
  fire_timer-Less handle w = eval_reporting-Less _ w

  take_job-Less :
      (job : J) (rest : List J) (w : Worker S F J W O)
      → LessWorker w.host (take_job platform job rest w)
  unfolding take_job enqueue_job
  take_job-Less job rest w = elim (Bool-cases (platform.is_finished job w.host.now)) [
    | inl finished ↦ rw finished (
        LessWorker-trans w.host _ _ (Less-same w.host (record (w.host) { jobs = rest }) refl refl) (
          reported-Less _ _
            (run_prog-Less _ (with_host w (record (w.host) { jobs = rest })) (jobs w.engine job))))
    | inr unfinished ↦ rw unfinished (Less-same w.host _ refl refl)
  ]

  jobs_turn-Less :
      (next : Worker S F J W O → Outcome (Result (Unit {0}) Reason × Worker S F J W O))
      (queue : List J) (w : Worker S F J W O)
      → ((v : Worker S F J W O) → LessOutcome v.host (next v))
      → LessOutcome w.host (jobs_turn platform next queue w)
  unfolding jobs_turn
  jobs_turn-Less next [] w f = Less-refl w.host
  jobs_turn-Less next (job ∷ rest) w f = and_then-Less w.host next _ (take_job-Less job rest w) f

  jobs_end-Less :
      (queue : List J) (w : Worker S F J W O) → LessOutcome w.host (jobs_end platform queue w)
  unfolding jobs_end clear_jobs
  jobs_end-Less [] w = Less-refl w.host
  jobs_end-Less (job ∷ rest) w = Less-same w.host _ refl refl

  drain_turns-Less : (n : ℕ) (w : Worker S F J W O) → LessOutcome w.host (drain_turns platform n w)
  unfolding drain_turns
  drain_turns-Less zero w = jobs_end-Less w.host.jobs w
  drain_turns-Less (suc n) w =
      jobs_turn-Less (drain_turns platform n) w.host.jobs w (drain_turns-Less n)

  settle_turn-Lighter :
      (deadline : Option ℕ) (n : ℕ) (id : F) (o : Option (ℕ × Option (Result Text Text)))
      (w : Worker S F J W O)
      → weight deadline w.host < n
      → Ready deadline w.host
      → o ≢ none
      → Lighter deadline n (settle_turn platform id o w)
  unfolding settle_turn advance
  settle_turn-Lighter deadline n id none w small once comes = absurd (comes refl)
  settle_turn-Lighter deadline n id (some (d, none)) w small once comes = tt
  settle_turn-Lighter deadline n id (some (d, some answer)) w small once comes =
      goes_on-Lighter deadline n (advance d w.host) _
        (settle_binding-Less id answer (with_host w (advance d w.host))) small once

  sleep_until-Less : (at : ℕ) (h : Host F J W O) → Less h (sleep_until platform at h)
  unfolding sleep_until
  sleep_until-Less at h = elim (Bool-cases (leb h.now at)) [
    | inl early ↦ rw early (Less-same h _ refl refl)
    | inr late ↦ rw late (Less-refl h)
  ]

  fire_turn-Lighter :
      (deadline : Option ℕ) (n : ℕ) (late : Bool) (handle : F) (at : ℕ) (w : Worker S F J W O)
      → (late ≡ false → (weight deadline w.host < n) × Ready deadline w.host)
      → Lighter deadline n (fire_turn platform late handle at w)
  unfolding fire_turn
  fire_turn-Lighter deadline n true handle at w ready = tt
  fire_turn-Lighter deadline n false handle at w ready =
      goes_on-Lighter deadline n w.host _
        (LessWorker-trans w.host _ _ (sleep_until-Less at w.host)
          (fire_timer-Less handle (with_host w (sleep_until platform at w.host))))
        (ready refl).0 (ready refl).1

  timer_turn-Lighter :
      (deadline : Option ℕ) (n : ℕ) (w : Worker S F J W O) (o : Outcome (Option (F × ℕ) × Timers F))
      → NextTimer w.host.timers o
      → weight deadline w.host ≤ n
      → Ready deadline w.host
      → Lighter deadline n (timer_turn platform deadline o w)
  unfolding timer_turn
  timer_turn-Lighter deadline n w panics h small once = tt
  timer_turn-Lighter deadline n w (returns (none, timers)) h small once = tt
  timer_turn-Lighter deadline n w (returns (some (handle, at), timers)) h small once =
      fire_turn-Lighter deadline n (is_late deadline at) handle at
        (with_host w (record (w.host) { timers = timers }))
        (λ early.
          let (fewer, once') =
            Due-Ending deadline w.host.timers.timers timers.timers handle at h.0 early once.0 in
          (omega arith, (once', once.1)))

  wait_turn-Lighter :
      (deadline : Option ℕ) (n : ℕ) (o : Option (Pending F × List (Pending F)))
      (w : Worker S F J W O)
      → pop w.host.bindings ≡ o
      → Popped o w.host.bindings
      → weight deadline w.host ≤ n
      → Ready deadline w.host
      → Lighter deadline n (wait_turn platform deadline o w)
  unfolding wait_turn binding_turn
  wait_turn-Lighter deadline n (some (pending, rest)) w e p small once =
      let whole = pop-some w.host.bindings pending rest e in
      let parts : deadline ≡ none → All Answers rest × All Answers (pending ∷ []) =
        λ none_left. All-append_inv Answers rest (pending ∷ []) (rw whole at once.1 none_left) in
      settle_turn-Lighter deadline n pending.id _
        (with_host w (record (w.host) { bindings = rest })) (omega arith)
        (once.0, λ none_left. (parts none_left).0)
        (awaited-comes deadline pending w.host.now (λ none_left. (parts none_left).1.0))
  wait_turn-Lighter deadline n none w e p small once =
      timer_turn-Lighter deadline n w _ (next_timer-NextTimer w.host.timers) small once

  drained_turn-Lighter :
      (deadline : Option ℕ) (h : Host F J W O)
      (o : Outcome (Result (Unit {0}) Reason × Worker S F J W O))
      → LessOutcome h o
      → Ready deadline h
      → Lighter deadline (weight deadline h) (drained_turn platform deadline o)
  unfolding drained_turn
  drained_turn-Lighter deadline h panics l once = tt
  drained_turn-Lighter deadline h (returns (err reason, v)) l once = tt
  drained_turn-Lighter deadline h (returns (ok _, v)) l once =
      wait_turn-Lighter deadline (weight deadline h) (pop v.host.bindings) v refl
        (pop-Popped v.host.bindings)
        (let b = l.bindings_le in let t = l.total_le (turns_of deadline) in omega arith)
        (Less-Ready deadline h v.host l once)

  turn-Lighter :
      (deadline : Option ℕ) (w : Worker S F J W O)
      → Ready deadline w.host
      → Lighter deadline (weight deadline w.host) (turn platform deadline w)
  unfolding turn drain_jobs
  turn-Lighter deadline w once = drained_turn-Lighter deadline w.host _ (drain_turns-Less _ w) once

  drain_loop-ends :
      (fuel : ℕ) (deadline : Option ℕ) (w : Worker S F J W O)
      → weight deadline w.host < fuel
      → Ready deadline w.host
      → Returns (drain_loop platform fuel deadline w)
  unfolding drain_loop
  drain_loop-ends zero deadline w small once = absurd (omega arith)
  drain_loop-ends (suc fuel) deadline w small once =
      next_turn-ends deadline (weight deadline w.host) (drain_loop platform fuel deadline)
        (turn platform deadline w)
        (λ v less once'. drain_loop-ends fuel deadline v (omega arith) once')
        (turn-Lighter deadline w once)

  -- Where no script and no job asks a binding or sets a timer, `drain` ends, with a result or a panic: it neither runs out
  -- of fuel nor waits for ever. The worker has a limit on its wall clock, or else no timer that is set is an
  -- interval and the answers that are waited for all come. Fuel beyond the number of these answers and of
  -- the times that the timers can be due is enough: once, or for an interval once each millisecond up to the
  -- deadline. A timeout is taken to end.
  pub drain-ends :
      (fuel : ℕ) (w : Worker S F J W O)
      → weight (deadline_of w.wall_clock w.host.now) w.host < fuel
      → (w.wall_clock ≡ none → All IsOnce w.host.timers.timers × All Answers w.host.bindings)
      → Returns (drain platform fuel w)
  unfolding drain
  drain-ends fuel w small ready =
      let unlimited : deadline_of w.wall_clock w.host.now ≡ none → w.wall_clock ≡ none =
        λ none_left. deadline-none w.wall_clock w.host.now none_left in
      drain_loop-ends fuel (deadline_of w.wall_clock w.host.now) w small
        (λ none_left. (ready (unlimited none_left)).0, λ none_left. (ready (unlimited none_left)).1)
