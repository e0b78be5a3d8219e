-- ===== src/Worker.antt =====
-- The worker of src/worker.rs: its state, `eval`, `drain_jobs` and `drain`.
pub mod Jobs
pub mod Invariant
pub mod Drain
pub mod Deadline
pub mod Weight
pub mod Termination
pub mod Leftovers
pub mod Lifetime
pub mod Firing
mod Tests
use openworkers_runtime_nova.Prelude.{
  ℕ, zero, suc, ◌-◌, ◌+◌, Bool, true, false, Option, none, some, List, [], ◌∷◌, ◌++◌, Result, ok,
  err, Outcome, returns, panics, Text, bytes, ltb, leb, if◌then◌else◌, pop,
}
use openworkers_runtime_nova.Future.{Future, Task}
use openworkers_runtime_nova.Timers.{Timers, next_timer}
use openworkers_runtime_nova.Host.{Host, Pending, advance, enqueue_job}
use openworkers_runtime_nova.Engine.{Prog, Platform, run}

-- `TerminationReason` of openworkers_core, the reasons that the source names.
pub data Reason : Type 0 where
  exception other initialization_error : Text → Reason
  wall_clock_timeout max_iterations_reached aborted : Reason

pub record Worker (S F J W O : Type 0) : Type 0 where
  pub engine : S
  pub host : Host F J W O
  pub dispatches : ℕ
  pub is_aborted : Bool
  pub wall_clock : Option ℕ

-- Code that awaits: it comes to an end, panics, or waits for ever. A loop whose fuel runs out is `starved`.
pub data Run {ℓ} (A : Type ℓ) : Type ℓ where
  done : A → Run A
  panicked hung starved : Run A

infixl 5 ◌>>=◌
abbrev pub ◌>>=◌ {ℓ κ} : {A : Type ℓ} {B : Type κ} → Run A → (A → Run B) → Run B
done a >>= f = f a
panicked >>= f = panicked
hung >>= f = hung
starved >>= f = starved

abbrev pub sync {ℓ} : {A : Type ℓ} → Outcome A → Run A
sync (returns a) = done a
sync panics = panicked

-- `MAX_JOBS_PER_DRAIN`
abbrev pub max_jobs : ℕ
max_jobs = 10_000

-- One turn of the loop of `drain`: it goes on, or `drain` returns.
pub data Turn : Type 0 where
  continues : Turn
  ends : Result (Unit {0}) Reason → Turn

-- An await that no timeout wraps.
abbrev pub unlimited {ℓ} : {A : Type ℓ} → Option (ℕ × A) → Option (ℕ × Option A)
unlimited none = none
unlimited (some (d, a)) = some (d, some a)

module _ {S F J W O : Type 0} where
  abbrev pub with_host : Worker S F J W O → Host F J W O → Worker S F J W O
  with_host worker host = record worker { host = host }

  -- The message of an error is only printed.
  abbrev pub reported : Outcome (Option Text × Worker S F J W O) → Outcome (Worker S F J W O)
  reported panics = panics
  reported (returns (thrown, worker)) = returns worker

  abbrev pub and_then :
      {A : Type 0} → (Worker S F J W O → Outcome A) → Outcome (Worker S F J W O) → Outcome A
  and_then next panics = panics
  and_then next (returns worker) = next worker

  -- The engine runs a program, and the worker is left with the state after it.
  unfoldable pub run_prog :
      Platform S J F W O → Prog S J F → Worker S F J W O → Outcome (Option Text × Worker S F J W O)
  run_prog platform prog worker = elim (run platform.natives prog worker.host) [
    | panics ↦ panics
    | returns (thrown, engine, host) ↦
        returns (thrown, record worker { engine = engine; host = host })
  ]

  unfoldable pub clear_jobs : Worker S F J W O → Worker S F J W O
  clear_jobs worker = with_host worker (record (worker.host) { jobs = [] })

unfoldable pub deadline_of : Option ℕ → ℕ → Option ℕ
deadline_of none now = none
deadline_of (some budget) now = some (now + budget)

unfoldable pub is_late : Option ℕ → ℕ → Bool
is_late none at = false
is_late (some deadline) at = ltb deadline at

unfoldable pub clear_timers : {F J W O : Type 0} → Host F J W O → Host F J W O
clear_timers host = record host { timers = record (host.timers) { timers = [] } }

module _ {S F J W O : Type 0} where
  -- A turn of `drain` that evaluated something goes on with the loop.
  abbrev pub goes_on : Outcome (Worker S F J W O) → Run (Turn × Worker S F J W O)
  goes_on panics = panicked
  goes_on (returns worker) = done (continues, worker)

  abbrev pub next_turn :
      (Worker S F J W O → Run (Result (Unit {0}) Reason × Worker S F J W O))
      → Run (Turn × Worker S F J W O)
      → Run (Result (Unit {0}) Reason × Worker S F J W O)
  next_turn loop (done (continues, worker)) = loop worker
  next_turn loop (done (ends result, worker)) = done (result, worker)
  next_turn loop panicked = panicked
  next_turn loop hung = hung
  next_turn loop starved = starved

module _ {S F J W O : Type 0} (platform : Platform S J F W O) where
  -- `eval`: the message of what was thrown, if anything was.
  unfoldable pub eval : Text → Worker S F J W O → Outcome (Option Text × Worker S F J W O)
  unfolding run_prog
  eval source worker = run_prog platform (platform.eval worker.engine source) worker

  -- One turn of `drain_jobs`, on the job at the head of the queue. The message of a job that throws is only
  -- printed. An unfinished job goes to the back.
  unfoldable pub take_job : J → List J → Worker S F J W O → Outcome (Worker S F J W O)
  unfolding run_prog
  take_job job rest worker =
      let popped = with_host worker (record (worker.host) { jobs = rest }) in
      if platform.is_finished job worker.host.now
      then reported (run_prog platform (platform.run_job worker.engine job) popped)
      else returns (with_host worker (enqueue_job job popped.host))

  -- A turn of the loop of `drain_jobs` and what comes `next`.
  unfoldable pub jobs_turn :
      (Worker S F J W O → Outcome (Result (Unit {0}) Reason × Worker S F J W O))
      → List J
      → Worker S F J W O
      → Outcome (Result (Unit {0}) Reason × Worker S F J W O)
  jobs_turn next [] worker = returns (ok tt, worker)
  jobs_turn next (job ∷ rest) worker = and_then next (take_job job rest worker)

  -- Past the loop: what is left of the queue is dropped.
  unfoldable pub jobs_end :
      List J → Worker S F J W O → Outcome (Result (Unit {0}) Reason × Worker S F J W O)
  jobs_end [] worker = returns (ok tt, worker)
  jobs_end (job ∷ rest) worker = returns (err max_iterations_reached, clear_jobs worker)

  -- `drain_jobs` with a number of turns left.
  unfoldable pub drain_turns :
      ℕ → Worker S F J W O → Outcome (Result (Unit {0}) Reason × Worker S F J W O)
  unfolding jobs_turn jobs_end
  drain_turns zero worker = jobs_end worker.host.jobs worker
  drain_turns (suc turns) worker = jobs_turn (drain_turns turns) worker.host.jobs worker

  unfoldable pub drain_jobs :
      Worker S F J W O → Outcome (Result (Unit {0}) Reason × Worker S F J W O)
  drain_jobs worker = drain_turns max_jobs worker

  -- `format!("__ow_settle_binding({id}, {ok}, {payload});")`
  unfoldable pub settle_source : F → Result Text Text → Text
  settle_source id (ok payload) =
      bytes "__ow_settle_binding("
      ++ (platform.natives.float.show id
          ++ (bytes ", true, " ++ (platform.json_string payload ++ bytes ");")))
  settle_source id (err message) =
      bytes "__ow_settle_binding("
      ++ (platform.natives.float.show id
          ++ (bytes ", false, " ++ (platform.json_string message ++ bytes ");")))

  -- `eval` where the message of an error is only printed.
  unfoldable pub eval_reporting : Text → Worker S F J W O → Outcome (Worker S F J W O)
  eval_reporting source worker = reported (eval source worker)

  unfoldable pub settle_binding :
      F → Result Text Text → Worker S F J W O → Outcome (Worker S F J W O)
  unfolding eval_reporting settle_source
  settle_binding id answer = eval_reporting (settle_source id answer)

  unfoldable pub fire_timer : F → Worker S F J W O → Outcome (Worker S F J W O)
  unfolding eval_reporting
  fire_timer handle =
      eval_reporting (bytes "__ow_run_timer(" ++ (platform.natives.float.show handle ++ bytes ");"))

  -- The await of a binding's answer, under what is left of the budget. A subtraction on ℕ stops at 0, as
  -- `saturating_duration_since` does.
  unfoldable pub awaited : Option ℕ → Task Text → Future (Option (Result Text Text))
  awaited (some deadline) answer now = platform.timeout (deadline - now) answer now
  awaited none answer now = unlimited (answer now)

  -- What came of the await: the answer is settled, or `drain` returns. A future that never ends is
  -- waited for, for ever.
  unfoldable pub settle_turn :
      F → Option (ℕ × Option (Result Text Text)) → Worker S F J W O → Run (Turn × Worker S F J W O)
  settle_turn id none worker = hung
  settle_turn id (some (d, none)) worker =
      done (ends (err wall_clock_timeout), with_host worker (advance d worker.host))
  settle_turn id (some (d, some answer)) worker =
      goes_on (settle_binding id answer (with_host worker (advance d worker.host)))

  -- A turn of `drain` that takes the binding call asked for last.
  unfoldable pub binding_turn :
      Option ℕ → Pending F → Worker S F J W O → Run (Turn × Worker S F J W O)
  unfolding settle_turn
  binding_turn deadline pending worker =
      settle_turn pending.id (awaited deadline pending.answer worker.host.now) worker

  -- `sleep` until an instant, if it is not past.
  unfoldable pub sleep_until : ℕ → Host F J W O → Host F J W O
  sleep_until at host =
      if leb host.now at then record host { now = platform.wake host.now (at - host.now) } else host

  unfoldable pub fire_turn : Bool → F → ℕ → Worker S F J W O → Run (Turn × Worker S F J W O)
  fire_turn true handle at worker =
      done (ends (err wall_clock_timeout), with_host worker (clear_timers worker.host))
  fire_turn false handle at worker =
      goes_on (fire_timer handle (with_host worker (sleep_until at worker.host)))

  -- A turn of `drain` that waits for the timer that `next_timer` handed out.
  unfoldable pub timer_turn :
      Option ℕ
      → Outcome (Option (F × ℕ) × Timers F)
      → Worker S F J W O
      → Run (Turn × Worker S F J W O)
  unfolding fire_turn
  timer_turn deadline panics worker = panicked
  timer_turn deadline (returns (none, timers)) worker =
      done (ends (ok tt), with_host worker (record (worker.host) { timers = timers }))
  timer_turn deadline (returns (some (handle, at), timers)) worker =
      fire_turn (is_late deadline at) handle at
        (with_host worker (record (worker.host) { timers = timers }))

  -- What `drain` does once the jobs are done: the last binding call comes before any timer.
  unfoldable pub wait_turn :
      Option ℕ
      → Option (Pending F × List (Pending F))
      → Worker S F J W O
      → Run (Turn × Worker S F J W O)
  unfolding binding_turn timer_turn
  wait_turn deadline (some (pending, rest)) worker =
      binding_turn deadline pending (with_host worker (record (worker.host) { bindings = rest }))
  wait_turn deadline none worker = timer_turn deadline (next_timer worker.host.timers) worker

  unfoldable pub drained_turn :
      Option ℕ
      → Outcome (Result (Unit {0}) Reason × Worker S F J W O)
      → Run (Turn × Worker S F J W O)
  drained_turn deadline panics = panicked
  drained_turn deadline (returns (ok _, worker)) =
      wait_turn deadline (pop worker.host.bindings) worker
  drained_turn deadline (returns (err reason, worker)) = done (ends (err reason), worker)

  unfoldable pub turn : Option ℕ → Worker S F J W O → Run (Turn × Worker S F J W O)
  unfolding drained_turn
  turn deadline worker = drained_turn deadline (drain_jobs worker)

  -- The loop of `drain`, on fuel.
  unfoldable pub drain_loop :
      ℕ → Option ℕ → Worker S F J W O → Run (Result (Unit {0}) Reason × Worker S F J W O)
  drain_loop zero deadline worker = starved
  drain_loop (suc fuel) deadline worker =
      next_turn (drain_loop fuel deadline) (turn deadline worker)

  unfoldable pub drain : ℕ → Worker S F J W O → Run (Result (Unit {0}) Reason × Worker S F J W O)
  drain fuel worker = drain_loop fuel (deadline_of worker.wall_clock worker.host.now) worker
