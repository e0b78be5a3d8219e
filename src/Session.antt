-- ===== src/Session.antt =====
-- The life of a worker of src/worker.rs, as an embedder makes it: `build`, and then `exec` and `abort` in any order.
pub mod Lasting
mod Tests
use openworkers_runtime_nova.Prelude.{ℕ, suc, ◌≡◌, Option, Result, ok, List, Text}
use openworkers_runtime_nova.Engine.{Platform}
use openworkers_runtime_nova.Worker.{Worker, Reason, done}
use openworkers_runtime_nova.Build.{SurfaceModule, EnvJson, Script, build}
use openworkers_runtime_nova.Exec.{Wire, Event, Sent, exec, abort}

-- What a worker is built of.
pub record Start (S O E : Type 0) : Type 0 where
  pub json : EnvJson E
  pub runtime_js : List Text
  pub modules : List SurfaceModule
  pub script : Script E
  pub limit : ℕ
  pub ops : Option O
  pub engine : S
  pub now : ℕ

module _ {S F J W O M X R E : Type 0} (platform : Platform S J F W O) (wire : Wire M X R)
    (start : Start S O E) where
  -- The worker after a number of events. The fuel may be another one each time.
  pub data Life : ℕ → Worker S F J W O → Type 0 where
    built :
        (fuel : ℕ) (w : Worker S F J W O)
        → build platform start.json fuel start.runtime_js start.modules start.script start.limit
            start.ops start.engine start.now
          ≡ done (ok w)
        → Life 0 w
    served :
        (n fuel : ℕ) (w u : Worker S F J W O) (event : Event M X) (r : Result (Unit {0}) Reason)
        (sent : Option (Sent R))
        → Life n w
        → exec platform wire fuel event w ≡ done (r, sent, u)
        → Life (suc n) u
    stopped : (n : ℕ) (w : Worker S F J W O) → Life n w → Life n (abort w)
