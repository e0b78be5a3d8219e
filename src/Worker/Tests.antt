-- ===== src/Worker/Tests.antt =====
-- Tests of src/worker.rs on small guests, and examples of the theorems on `drain` and `drain_jobs`.
use openworkers_runtime_nova.Prelude.{
  Option, Result, Text, ◌<◌, ℕ, ◌+◌, ◌≡◌, ◌≢◌, refl, none, some, List, [], ◌∷◌, ok, err, returns,
  bytes, arith, pop,
}
use openworkers_runtime_nova.Future.{Task, ready}
use openworkers_runtime_nova.Examples.{
  Guest, timeout_of, Working, platform_of, worker, host, idle, asking, answering,
}
use openworkers_runtime_nova.Host.{init, Host, Pending, advance, call_native, native_respond}
use openworkers_runtime_nova.Timers.{Timer, Timers, next_timer}
use openworkers_runtime_nova.Engine.{run, Platform, enqueue, finish}
use openworkers_runtime_nova.Worker.{
  Worker, Reason, max_iterations_reached, wall_clock_timeout, Run, done, starved, drain, drain_jobs,
  drain_loop, eval, settle_binding, turn, drain_turns, take_job, wait_turn, awaited, deadline_of,
}
use openworkers_runtime_nova.Worker.Jobs.{Drained, drain_jobs-Drained}
use openworkers_runtime_nova.Worker.Weight.{weight, Returns}
use openworkers_runtime_nova.Worker.Termination.{drain-ends}
use openworkers_runtime_nova.Worker.Drain.{IsQuiet, drain-Ended}
use openworkers_runtime_nova.Worker.Leftovers.{Failed, drain-Failed}
use openworkers_runtime_nova.Worker.Deadline.{IsAsking, settling, drain-asking}

abbrev platform : Platform ℕ ℕ ℕ (List ℕ) (Unit {0})
platform = platform_of answering idle

-- A job, a binding call that is answered after a while, and a timer.
abbrev busy : Working
busy = record worker {
  wall_clock = none;
  host = record host {
    jobs = 1 ∷ [];
    bindings = record { id = 4; answer = λ now. some (2, ok (bytes "{}")) } ∷ [];
    timers = record {
      timers = record { handle = 5; at = 400; period = none; seq = 0 } ∷ [];
      timer_seq = 1;
    };
  };
}

abbrev rested : Working
rested = record worker {
  engine = 2;
  wall_clock = none;
  host = record host { timers = record { timers = []; timer_seq = 1 }; now = 400 };
}

drain-busy : drain platform 3 busy ≡ done (ok tt, rested)
unfolding drain drain_loop turn drain_jobs drain_turns take_job run advance wait_turn pop awaited
    deadline_of settle_binding eval call_native native_respond next_timer
    openworkers_runtime_nova.Host.init openworkers_runtime_nova.Timers.earliest
    openworkers_runtime_nova.Timers.reschedule openworkers_runtime_nova.Worker.is_late
    openworkers_runtime_nova.Worker.fire_timer openworkers_runtime_nova.Worker.sleep_until
    openworkers_runtime_nova.Timers.splice
drain-busy = refl

drain_short : drain platform 2 busy ≡ starved
unfolding drain drain_loop turn drain_jobs drain_turns take_job run advance wait_turn pop awaited
    deadline_of settle_binding eval call_native native_respond next_timer
    openworkers_runtime_nova.Host.init openworkers_runtime_nova.Timers.earliest
    openworkers_runtime_nova.Timers.reschedule openworkers_runtime_nova.Worker.is_late
    openworkers_runtime_nova.Worker.fire_timer openworkers_runtime_nova.Worker.sleep_until
drain_short = refl

abbrev late : Working
late = record busy { wall_clock = some 5 }

abbrev timed_out : Working
timed_out = record late {
  engine = 1;
  host = record host { timers = record { timers = []; timer_seq = 1 }; now = 105 };
}

-- The timer is due after the wall clock runs out.
drain-late : drain platform 3 late ≡ done (err wall_clock_timeout, timed_out)
unfolding drain drain_loop turn drain_jobs drain_turns take_job run advance wait_turn pop awaited
    deadline_of openworkers_runtime_nova.Host.init settle_binding eval call_native
    openworkers_runtime_nova.Host.native_respond next_timer openworkers_runtime_nova.Timers.earliest
    openworkers_runtime_nova.Timers.reschedule openworkers_runtime_nova.Worker.is_late
    openworkers_runtime_nova.Worker.clear_timers
drain-late = refl

drain-Ended_example : IsQuiet rested
drain-Ended_example = drain-Ended platform 3 busy rested (ok tt) drain-busy

drain_loop-busy : drain_loop platform 3 none busy ≡ done (ok tt, rested)
unfolding drain_loop turn drain_jobs drain_turns take_job run advance wait_turn pop awaited
    settle_binding eval call_native native_respond openworkers_runtime_nova.Host.init next_timer
    openworkers_runtime_nova.Timers.earliest openworkers_runtime_nova.Timers.reschedule
    openworkers_runtime_nova.Worker.is_late openworkers_runtime_nova.Worker.fire_timer
    openworkers_runtime_nova.Worker.sleep_until openworkers_runtime_nova.Timers.splice
drain_loop-busy = refl

enough : drain_loop platform 3 none busy ≢ starved
enough = rw drain_loop-busy (λ e. cc)

-- An interval of a millisecond, three milliseconds in which it may fire, and a call that is never answered.
abbrev ticking : Working
ticking = record worker {
  wall_clock = some 3_000_000;
  host = record host {
    bindings = record { id = 4; answer = λ now. none } ∷ [];
    timers = record {
      timers = record { handle = 5; at = 100; period = some 0; seq = 0 } ∷ [];
      timer_seq = 1;
    };
  };
}

limited : ticking.wall_clock ≢ none
limited e = cc

enough_ticks : weight (deadline_of ticking.wall_clock ticking.host.now) ticking.host < 6
unfolding deadline_of init
enough_ticks = omega arith

timeout_comes : (budget now : ℕ) (answer : Task Text) → platform.timeout budget answer now ≢ none
timeout_comes budget now answer = comes (answer now)
  where
    comes : (o : Option (ℕ × Result Text Text)) → timeout_of budget o ≢ none
    comes none e = cc
    comes (some (d, r)) e = ground arith

drain-ends_example : Returns (drain platform 6 ticking)
drain-ends_example =
    drain-ends platform (λ s source. (tt, λ reply. tt)) (λ s job. tt) timeout_comes 6 ticking
      enough_ticks (λ e. absurd (limited e))

drain_jobs-Drained_example : Drained platform 10_000 busy (drain_jobs platform busy)
drain_jobs-Drained_example = drain_jobs-Drained platform busy

abbrev jobless : Working
jobless = record busy { engine = 0; host = record (busy.host) { jobs = []; now = 103 } }

drain_jobs-busy : drain_jobs platform busy ≡ returns (ok tt, jobless)
unfolding drain_jobs drain_turns take_job run advance openworkers_runtime_nova.Host.init
drain_jobs-busy = refl

-- A guest that queues a job whenever it is answered, and the job asks again.
abbrev queueing : ℕ → Guest
queueing s = enqueue 1 (finish s none)

abbrev asking_platform : Platform ℕ ℕ ℕ (List ℕ) (Unit {0})
asking_platform = platform_of queueing (asking 0)

abbrev queued : ℕ → Working
queued now = record worker { host = record host { jobs = 1 ∷ []; now = now } }

-- Once the job has run.
abbrev asked : ℕ → Working
asked now = record worker {
  host = record host { bindings = record { id = 0; answer = ready (ok []) } ∷ []; now = now + 1 };
}

abbrev IsQueued : Working → Type 0
IsQueued w = (now : ℕ) × (w ≡ queued now)

drain_jobs-queued : (now : ℕ) → drain_jobs asking_platform (queued now) ≡ returns (ok tt, asked now)
unfolding drain_jobs drain_turns take_job run call_native
    openworkers_runtime_nova.Host.native_binding advance init
drain_jobs-queued now = refl

abbrev asks : (w : Working) → IsQueued w → IsAsking asking_platform w
unfolding openworkers_runtime_nova.Host.init
asks w (now, e) = record {
  drained = asked now;
  jobs_done = rw e (drain_jobs-queued now);
  id = 0;
  answer = ok [];
  rest = [];
  asked = refl;
}

settle-asked :
    (now : ℕ)
    → settle_binding asking_platform 0
        (ok [])
        (record worker { host = record host { bindings = []; now = now + 1 + 0 } })
      ≡ returns (queued (now + 1 + 0))
unfolding settle_binding eval run openworkers_runtime_nova.Host.enqueue_job init
settle-asked now = refl

again :
    (w : Working) (q : IsQueued w)
    → (w' : Working) × (settle_binding asking_platform
          (asks w q).id
          (asks w q).answer
          (settling asking_platform w (asks w q))
        ≡ returns w')
      × IsQueued w'
unfolding advance asks
again w (now, e) = (queued (now + 1 + 0), settle-asked now, (now + 1 + 0, refl))

drain-asking_example : drain asking_platform 100_000 (queued 0) ≡ starved
drain-asking_example =
    drain-asking asking_platform IsQueued asks again (λ budget now answer. ground arith) 100_000
      (queued 0) (0, refl)

-- A binding call that is never answered, after another call and a timer that is due soon.
abbrev waiting : Working
waiting = record worker {
  wall_clock = some 5;
  host = record host {
    bindings =
        record { id = 3; answer = ready (ok []) } ∷ record { id = 4; answer = λ now. none } ∷ [];
    timers = record {
      timers = record { handle = 5; at = 108; period = none; seq = 0 } ∷ [];
      timer_seq = 1;
    };
  };
}

-- The clock ran out, and the timer and the other call are still there.
abbrev left_over : Working
left_over = record waiting {
  host = record (waiting.host) {
    bindings = record { id = 3; answer = ready (ok []) } ∷ [];
    now = 105;
  };
}

drain-waiting : drain platform 1 waiting ≡ done (err wall_clock_timeout, left_over)
unfolding drain drain_loop turn drain_jobs drain_turns init wait_turn pop awaited deadline_of
    advance
drain-waiting = refl

-- The next `drain` settles that call and fires that timer.
drain-left_over :
    drain platform 3 left_over
    ≡ done (
      ok tt,
      record left_over {
        engine = 2;
        host = record host { timers = record { timers = []; timer_seq = 1 }; now = 108 };
      },
    )
unfolding drain drain_loop turn drain_jobs drain_turns init wait_turn pop awaited deadline_of
    settle_binding eval run call_native native_respond advance
    openworkers_runtime_nova.Timers.next_timer openworkers_runtime_nova.Timers.earliest
    openworkers_runtime_nova.Timers.reschedule openworkers_runtime_nova.Worker.is_late
    openworkers_runtime_nova.Worker.fire_timer openworkers_runtime_nova.Worker.sleep_until
    openworkers_runtime_nova.Timers.splice
drain-left_over = refl

drain-Failed_example :
    Failed platform
      (deadline_of waiting.wall_clock waiting.host.now)
      waiting
      wall_clock_timeout
      left_over
drain-Failed_example = drain-Failed platform 1 waiting left_over wall_clock_timeout drain-waiting

-- A timer that is due before the deadline, and one that is due after it.
abbrev set_two : Working
set_two = record worker {
  wall_clock = some 50;
  host = record host {
    timers = record {
      timers =
          record { handle = 5; at = 400; period = none; seq = 0 }
          ∷ record { handle = 6; at = 120; period = none; seq = 1 }
          ∷ [];
      timer_seq = 2;
    };
  };
}
