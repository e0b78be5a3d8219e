-- ===== src/Build/Built.antt =====
-- What `build` of src/worker.rs may give.
use openworkers_runtime_nova.Prelude.{
  ℕ, ◌≡◌, ◌≢◌, ◌⊎◌, Option, none, Result, ok, err, Outcome, returns, panics, Text,
}
use openworkers_runtime_nova.Host.{Host}
use openworkers_runtime_nova.Worker.{
  Worker, Reason, exception, initialization_error, max_iterations_reached, wall_clock_timeout, Run,
  done,
}
use openworkers_runtime_nova.Worker.Drain.{IsQuiet}

-- Why a worker was not built, under a limit of the wall clock.
abbrev pub Failed : Option ℕ → Reason → Type 0
Failed limit reason =
    ((message : Text) × (reason ≡ initialization_error message))
    ⊎ (((message : Text) × (reason ≡ exception message))
        ⊎ ((reason ≡ max_iterations_reached) ⊎ ((reason ≡ wall_clock_timeout) × (limit ≢ none))))

module _ {S F J W O : Type 0} where
  abbrev pub Built : Option ℕ → Run (Result (Worker S F J W O) Reason) → Type 0
  Built limit (done (ok worker)) = IsQuiet worker
  Built limit (done (err reason)) = Failed limit reason
  Built limit _ = Unit

  abbrev Limited : Option ℕ → Outcome (Option Text × Worker S F J W O) → Type 0
  Limited limit panics = Unit
  Limited limit (returns (thrown, worker)) = worker.wall_clock ≡ limit
