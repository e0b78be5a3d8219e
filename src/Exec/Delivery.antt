-- ===== src/Exec/Delivery.antt =====
-- What `exec` of src/worker.rs puts into an event's channel.
use openworkers_runtime_nova.Prelude.{
  ℕ, ◌≡◌, refl, ◌⊎◌, inl, inr, Option, none, some, Result, ok, err, Bool, true, false,
}
use openworkers_runtime_nova.Bindings.{HttpRequest, HttpResponse}
use openworkers_runtime_nova.Engine.{Platform}
use openworkers_runtime_nova.Worker.{Worker, Reason, aborted, Run, done, panicked, hung, starved}
use openworkers_runtime_nova.Exec.{
  Wire, TaskInit, Event, fetch, task, Sent, response, task_result, handle_fetch, handle_task,
  send_response, send_result, handle, refuse_or, exec,
}

module _ {S F J W O M X R : Type 0} (platform : Platform S J F W O) (wire : Wire M X R) where
  -- What an event's channel may have got when `exec` returns.
  abbrev pub Delivered : Bool → Event M X → Result (Unit {0}) Reason → Option (Sent R) → Type 0
  Delivered true event r sent = (r ≡ err aborted) × (sent ≡ none)
  Delivered false (fetch none) r sent = ((reason : Reason) × (r ≡ err reason)) × (sent ≡ none)
  Delivered false (fetch (some req)) r sent =
      ((r ≡ ok tt) × ((answer : HttpResponse) × (sent ≡ some (response answer))))
      ⊎ (((reason : Reason) × (r ≡ err reason)) × (sent ≡ none))
  Delivered false (task none) r sent = ((reason : Reason) × (r ≡ err reason)) × (sent ≡ none)
  Delivered false (task (some init)) r sent =
      ((r ≡ ok tt) × ((result : R) × (sent ≡ some (task_result result))))
      ⊎ ((reason : Reason) × (r ≡ err reason)
          × (sent ≡ some (task_result (wire.task_error (wire.description reason)))))

  abbrev DeliveredRun :
      Bool
      → Event M X
      → Run (Result (Unit {0}) Reason × Option (Sent R) × Worker S F J W O)
      → Type 0
  DeliveredRun refused event (done (r, sent, u)) = Delivered refused event r sent
  DeliveredRun refused event _ = Unit

  send_response-Delivered :
      (req : HttpRequest M) (o : Run (Result HttpResponse Reason × Worker S F J W O))
      → DeliveredRun false (fetch (some req)) (send_response platform wire o)
  unfolding send_response
  send_response-Delivered req (done (ok r, u)) = inl (refl, (r, refl))
  send_response-Delivered req (done (err reason, u)) = inr ((reason, refl), refl)
  send_response-Delivered req panicked = tt
  send_response-Delivered req hung = tt
  send_response-Delivered req starved = tt

  send_result-Delivered :
      (init : TaskInit X) (o : Run (Result R Reason × Worker S F J W O))
      → DeliveredRun false (task (some init)) (send_result platform wire o)
  unfolding send_result
  send_result-Delivered init (done (ok r, u)) = inl (refl, (r, refl))
  send_result-Delivered init (done (err reason, u)) = inr (reason, refl, refl)
  send_result-Delivered init panicked = tt
  send_result-Delivered init hung = tt
  send_result-Delivered init starved = tt

  refuse_or-Delivered :
      (refused : Bool) (fuel : ℕ) (event : Event M X) (w : Worker S F J W O)
      → DeliveredRun refused event (refuse_or platform wire refused fuel event w)
  unfolding refuse_or handle
  refuse_or-Delivered true fuel event w = (refl, refl)
  refuse_or-Delivered false fuel (fetch none) w = ((_, refl), refl)
  refuse_or-Delivered false fuel (fetch (some req)) w =
      send_response-Delivered req (handle_fetch platform wire fuel req w)
  refuse_or-Delivered false fuel (task none) w = ((_, refl), refl)
  refuse_or-Delivered false fuel (task (some init)) w =
      send_result-Delivered init (handle_task platform wire fuel init w)

  -- When `exec` returns, an aborted worker has refused the event and sent nothing; a fetch has got a response
  -- exactly where `exec` succeeds; and a task has got a result either way, which describes the failure where
  -- `exec` fails.
  pub exec-Delivered :
      (fuel : ℕ) (event : Event M X) (w u : Worker S F J W O) (r : Result (Unit {0}) Reason)
      (sent : Option (Sent R))
      → exec platform wire fuel event w ≡ done (r, sent, u)
      → Delivered w.is_aborted event r sent
  unfolding exec
  exec-Delivered fuel event w u r sent e = rw e at (refuse_or-Delivered w.is_aborted fuel event w)
