-- ===== src/Ssr/Phases.antt =====
-- examples/phases.rs: the rounds, each of a new worker and two requests. The clock and the printing are left out: what is
-- printed of a round is its status.
use openworkers_runtime_nova.Prelude.{
  ℕ, zero, suc, List, [], ◌∷◌, Option, none, some, Result, ok, err, Text, bytes,
}
use openworkers_runtime_nova.Engine.{Platform}
use openworkers_runtime_nova.Worker.{Reason, Run, done, ◌>>=◌}
use openworkers_runtime_nova.Exec.{Wire, fetch, Sent, response, task_result, exec}
use openworkers_runtime_nova.Url.Components.{decimal}
use openworkers_runtime_nova.Conformance.Driver.{Client, Setup}
use openworkers_runtime_nova.Ssr.{get, expect, create}

-- A status has at most 5 digits. `debug` is `{:?}`.
unfoldable pub status_of :
    {R : Type 0} → (Reason → Text) → Result (Unit {0}) Reason → Option (Sent R) → Text
status_of debug (ok _) (some (response r)) = decimal 5 r.status
status_of debug (ok _) (some (task_result r)) = bytes "no response"
status_of debug (ok _) none = bytes "no response"
status_of debug (err reason) sent = debug reason

module _ {S F J W O M X R E : Type 0} (platform : Platform S J F W O) (wire : Wire M X R)
    (client : Client M) (fuel : ℕ) (method : M) (setup : Setup S E) where
  unfoldable pub round : (Reason → Text) → Text → Run Text
  unfolding status_of
  round debug code = do
    built ← create platform wire client fuel method setup code
    worker ← expect built
    (outcome, sent, worker) ←
        exec platform wire fuel (fetch (some (get method (bytes "http://localhost/")))) worker
    (warm, sent_again, worker) ←
        exec platform wire fuel (fetch (some (get method (bytes "http://localhost/")))) worker
    done (status_of debug outcome sent)

  unfoldable pub rounds : ℕ → (Reason → Text) → Text → Run (List Text)
  unfolding round
  rounds zero debug code = done []
  rounds (suc n) debug code = do
    status ← round debug code
    more ← rounds n debug code
    done (status ∷ more)
