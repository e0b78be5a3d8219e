-- ===== src/Engine.antt =====
-- The engine, nova_vm, as src/worker.rs uses it. A script or a job runs to its end in one go: on the way it
-- takes time, queues jobs, and calls the native functions, whose replies it goes on from.
pub mod Frame
pub mod Inert
pub mod Convert
pub mod Conversions
pub mod Quiet
pub mod Describe
mod Tests
use openworkers_runtime_nova.Prelude.{ℕ, Bool, Option, Outcome, returns, panics, Text, Result}
use openworkers_runtime_nova.Value.{Value, JsResult}
use openworkers_runtime_nova.Future.{Task, Future}
use openworkers_runtime_nova.Host.{Host, Call, Natives, Reply, advance, enqueue_job, call_native}

pub data Prog (S J F : Type 0) : Type 0 where
  -- The engine's state after the run, and the message of an error that was thrown.
  finish : S → Option Text → Prog S J F
  spend : ℕ → Prog S J F → Prog S J F
  enqueue : J → Prog S J F → Prog S J F
  native : Call F → (JsResult F (Value F) → Prog S J F) → Prog S J F

-- The crates that a worker stands on: nova_vm, tokio, serde_json, and `from_utf8_lossy`.
pub record Platform (S J F W O : Type 0) : Type 0 where
  pub natives : Natives F W O
  pub eval : S → Text → Prog S J F
  pub run_job : S → J → Prog S J F
  -- Whether a job may run at an instant without blocking on another thread.
  pub is_finished : J → ℕ → Bool
  -- `tokio::time::timeout`: `none` once the budget has gone by.
  pub timeout : ℕ → Task Text → Future (Option (Result Text Text))
  -- The instant at which `tokio::time::sleep` returns, from now and how long to wait.
  pub wake : ℕ → ℕ → ℕ
  -- A text as a JSON string, quotes included.
  pub json_string : Text → Text
  -- `{x}` of an `i64` in a format string, from its bit pattern.
  pub show_i64 : ℕ → Text

-- The program goes on from the reply of a native function.
abbrev pub resume :
    {F J W O : Type 0} {R : Type 0}
    → (JsResult F (Value F) → Host F J W O → Outcome R)
    → Reply F J W O
    → Outcome R
resume k panics = panics
resume k (returns (reply, host)) = k reply host

module _ {S J F W O : Type 0} (natives : Natives F W O) where
  -- A run of the engine against the host.
  unfoldable pub run : Prog S J F → Host F J W O → Outcome (Option Text × S × Host F J W O)
  run (finish engine thrown) host = returns (thrown, engine, host)
  run (spend d rest) host = run rest (advance d host)
  run (enqueue job rest) host = run rest (enqueue_job job host)
  run (native call rest) host =
      resume (λ reply host'. run (rest reply) host') (call_native natives call host)
