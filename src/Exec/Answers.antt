-- ===== src/Exec/Answers.antt =====
-- An event of src/worker.rs is answered by its own dispatch or not at all.
use openworkers_runtime_nova.Prelude.{
  ℕ, ◌+◌, ◌≤◌, ◌≡◌, ◌≢◌, refl, ◌∙◌, Option, none, some, Result, ok, err, Outcome, returns, panics,
  Text, bytes, Bool, true, false,
}
use openworkers_runtime_nova.Bindings.{HttpRequest, HttpResponse}
use openworkers_runtime_nova.Host.{Host}
use openworkers_runtime_nova.Engine.{Platform, Prog, run}
use openworkers_runtime_nova.Engine.Frame.{IsStale, run-stale, run-Runs}
use openworkers_runtime_nova.Worker.{Worker, Reason, Run, done, panicked, hung, starved}
use openworkers_runtime_nova.Worker.Invariant.{
  WorkerInvariant, OnRun, OnOutcome, eval-keeps, drain-keeps,
}
use openworkers_runtime_nova.Exec.{
  Wire, TaskInit, DispatchOutcome, DispatchResponse, begin, outcome_of, dispatched, dispatch,
  answered, to_response, fetch_with, handle_fetch, handle_task, request_text, Event, fetch, task,
  Sent, send_response, send_result, handle, refuse_or, exec,
}

module _ {S F J W O : Type 0} (platform : Platform S J F W O) where
  -- The running dispatch is `id`, and nothing answered it.
  abbrev pub IsUnanswered : ℕ → Host F J W O → Type 0
  IsUnanswered id h = (h.dispatch ≡ id) × (h.outcome ≡ none)

  -- No script and no job answers for the dispatch.
  pub record IsSilent (id : ℕ) : Type 0 where
    pub scripts : (s : S) (source : Text) → IsStale platform.natives id (platform.eval s source)
    pub jobs : (s : S) (job : J) → IsStale platform.natives id (platform.run_job s job)

  stale-IsUnanswered :
      (id : ℕ) (prog : Prog S J F) (h h' : Host F J W O) (thrown : Option Text) (s' : S)
      → IsStale platform.natives id prog
      → run platform.natives prog h ≡ returns (thrown, s', h')
      → IsUnanswered id h
      → IsUnanswered id h'
  stale-IsUnanswered id prog h h' thrown s' stale e (d, o) =
      let runs = run-Runs platform.natives prog h h' thrown s' e in
      (runs.same_dispatch ∙ d, run-stale platform.natives prog h h' thrown s' (rw d stale) e ∙ o)

  unanswered-WorkerInvariant :
      (id : ℕ) → IsSilent id → WorkerInvariant platform (λ w. IsUnanswered id w.host)
  unanswered-WorkerInvariant id silent = record {
    requeue = λ w jobs bindings timers p. p;
    passes = λ w now later p. p;
    by_eval = λ w source h' thrown s' e p.
        stale-IsUnanswered id _ w.host h' thrown s' (silent.scripts w.engine source) e p;
    by_job = λ w job h' thrown s' e p.
        stale-IsUnanswered id _ w.host h' thrown s' (silent.jobs w.engine job) e p;
  }

  module _ (wakes : (now wait : ℕ) → now + wait ≤ platform.wake now wait) (id : ℕ)
      (silent : IsSilent id) where
    abbrev Silenced : {A : Type 0} → Run (A × Worker S F J W O) → Type 0
    Silenced =
        OnRun platform (λ w. IsUnanswered id w.host) (unanswered-WorkerInvariant id silent) wakes

    dispatched-Silenced :
        (fuel : ℕ) (o : Outcome (Option Text × Worker S F J W O))
        → OnOutcome platform
            (λ w. IsUnanswered id w.host)
            (unanswered-WorkerInvariant id silent)
            wakes
            o
        → Silenced (dispatched platform fuel o)
    unfolding dispatched
    dispatched-Silenced fuel panics h = tt
    dispatched-Silenced fuel (returns (some message, w)) h = h
    dispatched-Silenced fuel (returns (none, w)) h =
        drain-keeps platform (λ w. IsUnanswered id w.host) (unanswered-WorkerInvariant id silent)
          wakes fuel w h

    dispatch-Silenced :
        (fuel : ℕ) (dispatcher event : Text) (w : Worker S F J W O)
        → (begin w).dispatches ≡ id
        → Silenced (dispatch platform fuel dispatcher event w)
    unfolding dispatch begin
    dispatch-Silenced fuel dispatcher event w e = dispatched-Silenced fuel _ (
        eval-keeps platform (λ w. IsUnanswered id w.host) (unanswered-WorkerInvariant id silent)
          wakes _ (begin w) (e, refl))

    -- With nothing delivered, what a dispatch that ends well gives its event is an error.
    abbrev Fails : {A : Type 0} → Run (Result A Reason × Worker S F J W O) → Type 0
    Fails (done (ok a, u)) = ⊥
    Fails _ = Unit

    answered-Fails :
        {A : Type 0} (kind : Text) (parse : Text → Result (DispatchOutcome A) Text)
        (o : Run (Result (Unit {0}) Reason × Worker S F J W O))
        → Silenced o
        → Fails (answered kind parse o)
    unfolding answered outcome_of
    answered-Fails kind parse (done (ok _, v)) h = rw h.1 tt
    answered-Fails kind parse (done (err reason, v)) h = tt
    answered-Fails kind parse panicked h = tt
    answered-Fails kind parse hung h = tt
    answered-Fails kind parse starved h = tt

    to_response-Fails :
        (o : Run (Result DispatchResponse Reason × Worker S F J W O))
        → Fails o
        → Fails (to_response o)
    unfolding to_response
    to_response-Fails (done (ok r, u)) h = h
    to_response-Fails (done (err reason, u)) h = tt
    to_response-Fails panicked h = tt
    to_response-Fails hung h = tt
    to_response-Fails starved h = tt

    module _ {M X R : Type 0} (wire : Wire M X R) (fuel : ℕ) (w : Worker S F J W O)
        (next : (begin w).dispatches ≡ id) where
      fetch_with-Fails :
          (req : HttpRequest M) (body : Result (Option Text) Reason)
          → Fails (fetch_with platform wire fuel req body w)
      unfolding fetch_with
      fetch_with-Fails req (err reason) = tt
      fetch_with-Fails req (ok body) =
          to_response-Fails _ (
            answered-Fails (bytes "fetch") wire.parse_response _
              (dispatch-Silenced fuel _ _ w next))

      handle_task-Fails : (init : TaskInit X) → Fails (handle_task platform wire fuel init w)
      unfolding handle_task
      handle_task-Fails init =
          answered-Fails (bytes "task") wire.parse_task _ (dispatch-Silenced fuel _ _ w next)

      abbrev FailsSent :
          Run (Result (Unit {0}) Reason × Option (Sent R) × Worker S F J W O) → Type 0
      FailsSent (done (ok _, sent, u)) = ⊥
      FailsSent _ = Unit

      send_response-Fails :
          (o : Run (Result HttpResponse Reason × Worker S F J W O))
          → Fails o
          → FailsSent (send_response platform wire o)
      unfolding send_response
      send_response-Fails (done (ok r, u)) h = h
      send_response-Fails (done (err reason, u)) h = tt
      send_response-Fails panicked h = tt
      send_response-Fails hung h = tt
      send_response-Fails starved h = tt

      send_result-Fails :
          (o : Run (Result R Reason × Worker S F J W O))
          → Fails o
          → FailsSent (send_result platform wire o)
      unfolding send_result
      send_result-Fails (done (ok r, u)) h = h
      send_result-Fails (done (err reason, u)) h = tt
      send_result-Fails panicked h = tt
      send_result-Fails hung h = tt
      send_result-Fails starved h = tt

      refuse_or-Fails :
          (refused : Bool) (event : Event M X)
          → FailsSent (refuse_or platform wire refused fuel event w)
      unfolding refuse_or handle handle_fetch
      refuse_or-Fails true event = tt
      refuse_or-Fails false (fetch none) = tt
      refuse_or-Fails false (fetch (some req)) =
          send_response-Fails _ (fetch_with-Fails req (request_text platform wire req.body))
      refuse_or-Fails false (task none) = tt
      refuse_or-Fails false (task (some init)) = send_result-Fails _ (handle_task-Fails init)

  -- Where no script and no job answers for the dispatch that an event begins, the event does not succeed,
  -- whatever answers for other dispatches come in. Sleeping is taken not to end early.
  pub exec-silent :
      {M X R : Type 0} (wire : Wire M X R) (fuel : ℕ) (event : Event M X) (w u : Worker S F J W O)
      (sent : Option (Sent R))
      → ((now wait : ℕ) → now + wait ≤ platform.wake now wait)
      → IsSilent (begin w).dispatches
      → exec platform wire fuel event w ≢ done (ok tt, sent, u)
  unfolding exec
  exec-silent wire fuel event w u sent wakes silent e =
      rw e at
        (refuse_or-Fails wakes (begin w).dispatches silent wire fuel w refl w.is_aborted event)
