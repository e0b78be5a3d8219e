-- ===== src/Exec/Rest.antt =====
-- An event that `exec` of src/worker.rs serves leaves nothing to wait for.
use openworkers_runtime_nova.Prelude.{
  ℕ, ◌≡◌, refl, Bool, true, false, Option, none, some, Result, ok, err, Outcome, returns, panics,
  Text, bytes,
}
use openworkers_runtime_nova.Bindings.{HttpRequest, HttpResponse}
use openworkers_runtime_nova.Engine.{Platform}
use openworkers_runtime_nova.Worker.{Worker, Reason, Run, done, panicked, hung, starved, drain}
use openworkers_runtime_nova.Worker.Drain.{IsQuiet, drain-Ended}
use openworkers_runtime_nova.Exec.{
  Wire, TaskInit, DispatchOutcome, DispatchResponse, take_outcome, dispatched, dispatch, answered,
  to_response, fetch_with, handle_fetch, handle_task, request_text, Event, fetch, task, Sent,
  send_response, send_result, handle, refuse_or, exec,
}

module _ {S F J W O : Type 0} where
  abbrev Rests : {A : Type 0} → Run (Result A Reason × Worker S F J W O) → Type 0
  Rests (done (ok a, u)) = IsQuiet u
  Rests _ = Unit

  abbrev RestsSent :
      {R : Type 0} → Run (Result (Unit {0}) Reason × Option (Sent R) × Worker S F J W O) → Type 0
  RestsSent (done (ok a, sent, u)) = IsQuiet u
  RestsSent _ = Unit

  to_response-Rests :
      (o : Run (Result DispatchResponse Reason × Worker S F J W O))
      → Rests o
      → Rests (to_response o)
  unfolding to_response
  to_response-Rests (done (ok r, u)) h = h
  to_response-Rests (done (err reason, u)) h = tt
  to_response-Rests panicked h = tt
  to_response-Rests hung h = tt
  to_response-Rests starved h = tt

  taken-Rests :
      {A : Type 0} (r : Result A Reason) (u : Worker S F J W O) → IsQuiet u → Rests (done (r, u))
  taken-Rests (ok a) u q = q
  taken-Rests (err reason) u q = tt

  answered-Rests :
      {A : Type 0} (kind : Text) (parse : Text → Result (DispatchOutcome A) Text)
      (o : Run (Result (Unit {0}) Reason × Worker S F J W O))
      → Rests o
      → Rests (answered kind parse o)
  unfolding answered take_outcome
  answered-Rests kind parse (done (ok _, u)) q =
      taken-Rests _ _
        (record { no_jobs = q.no_jobs; no_bindings = q.no_bindings; no_timers = q.no_timers })
  answered-Rests kind parse (done (err reason, u)) h = tt
  answered-Rests kind parse panicked h = tt
  answered-Rests kind parse hung h = tt
  answered-Rests kind parse starved h = tt

module _ {S F J W O : Type 0} (platform : Platform S J F W O) (fuel : ℕ) where
  drain-Rests :
      (w : Worker S F J W O) (o : Run (Result (Unit {0}) Reason × Worker S F J W O))
      → drain platform fuel w ≡ o
      → Rests o
  drain-Rests w (done (ok _, u)) e = drain-Ended platform fuel w u (ok tt) e
  drain-Rests w (done (err reason, u)) e = tt
  drain-Rests w panicked e = tt
  drain-Rests w hung e = tt
  drain-Rests w starved e = tt

  dispatched-Rests :
      (o : Outcome (Option Text × Worker S F J W O)) → Rests (dispatched platform fuel o)
  unfolding dispatched
  dispatched-Rests panics = tt
  dispatched-Rests (returns (some message, w)) = tt
  dispatched-Rests (returns (none, w)) = drain-Rests w _ refl

  module _ {M X R : Type 0} (wire : Wire M X R) (w : Worker S F J W O) where
    fetch_with-Rests :
        (req : HttpRequest M) (body : Result (Option Text) Reason)
        → Rests (fetch_with platform wire fuel req body w)
    unfolding fetch_with dispatch
    fetch_with-Rests req (err reason) = tt
    fetch_with-Rests req (ok body) =
        to_response-Rests _
          (answered-Rests (bytes "fetch") wire.parse_response _ (dispatched-Rests _))

    handle_task-Rests : (init : TaskInit X) → Rests (handle_task platform wire fuel init w)
    unfolding handle_task dispatch
    handle_task-Rests init = answered-Rests (bytes "task") wire.parse_task _ (dispatched-Rests _)

    send_response-Rests :
        (o : Run (Result HttpResponse Reason × Worker S F J W O))
        → Rests o
        → RestsSent (send_response platform wire o)
    unfolding send_response
    send_response-Rests (done (ok r, u)) h = h
    send_response-Rests (done (err reason, u)) h = tt
    send_response-Rests panicked h = tt
    send_response-Rests hung h = tt
    send_response-Rests starved h = tt

    send_result-Rests :
        (o : Run (Result R Reason × Worker S F J W O))
        → Rests o
        → RestsSent (send_result platform wire o)
    unfolding send_result
    send_result-Rests (done (ok r, u)) h = h
    send_result-Rests (done (err reason, u)) h = tt
    send_result-Rests panicked h = tt
    send_result-Rests hung h = tt
    send_result-Rests starved h = tt

    refuse_or-Rests :
        (refused : Bool) (event : Event M X)
        → RestsSent (refuse_or platform wire refused fuel event w)
    unfolding refuse_or handle handle_fetch
    refuse_or-Rests true event = tt
    refuse_or-Rests false (fetch none) = tt
    refuse_or-Rests false (fetch (some req)) =
        send_response-Rests _ (fetch_with-Rests req (request_text platform wire req.body))
    refuse_or-Rests false (task none) = tt
    refuse_or-Rests false (task (some init)) = send_result-Rests _ (handle_task-Rests init)

    -- Where `exec` succeeds, no job, no binding call and no timer of the event is left for the next one.
    pub exec-IsQuiet :
        (event : Event M X) (u : Worker S F J W O) (sent : Option (Sent R))
        → exec platform wire fuel event w ≡ done (ok tt, sent, u)
        → IsQuiet u
    unfolding exec
    exec-IsQuiet event u sent e = rw e at (refuse_or-Rests w.is_aborted event)
