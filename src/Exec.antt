-- ===== src/Exec.antt =====
-- One event through a worker, src/worker.rs: `dispatch`, `take_outcome`, `handle_fetch`, `handle_task`, `exec`
-- and `abort`. `M` is an HTTP method, `X` what a task carries that is only passed on, `R` a task's result.
pub mod Answers
pub mod Delivery
pub mod Numbers
pub mod Rest
mod Tests
use openworkers_runtime_nova.Prelude.{
  ℕ, ◌+◌, ◌%◌, ◌^◌, Bool, true, false, Option, none, some, List, [], ◌∷◌, ◌++◌, Result, ok, err,
  Outcome, returns, panics, Text, bytes,
}
use openworkers_runtime_nova.Bindings.{
  Headers, HttpRequest, HttpResponse, RequestBody, ResponseBody,
}
use openworkers_runtime_nova.Host.{Host}
use openworkers_runtime_nova.Engine.{Platform}
use openworkers_runtime_nova.Worker.{
  Worker, Reason, exception, other, aborted, Run, done, panicked, hung, starved, with_host, eval,
  drain,
}

pub data DispatchOutcome (A : Type 0) : Type 0 where
  value : A → DispatchOutcome A
  error : Text → DispatchOutcome A

pub record DispatchResponse : Type 0 where
  pub status : ℕ
  pub headers : Headers
  pub body : Text

pub data TaskSource (X : Type 0) : Type 0 where
  schedule : ℕ → X → TaskSource X
  unscheduled : X → TaskSource X

-- `TaskInit`: the source, and the id, the payload and the attempt, which are only passed on.
pub record TaskInit (X : Type 0) : Type 0 where
  pub source : Option (TaskSource X)
  pub carried : X

-- serde_json and openworkers_core, as these functions use them, and `String::from_utf8_lossy`.
pub record Wire (M X R : Type 0) : Type 0 where
  -- The text of `json!({ "method", "url", "headers", "body" })`, and of the event of a task.
  pub fetch_event : M → Text → Headers → Option Text → Text
  pub task_event : TaskInit X → Option ℕ → Text
  pub from_utf8_lossy : List ℕ → Text
  pub parse_response : Text → Result (DispatchOutcome DispatchResponse) Text
  pub parse_task : Text → Result (DispatchOutcome R) Text
  pub description : Reason → Text
  pub task_error : Text → R

-- What went into an event's channel.
pub data Sent (R : Type 0) : Type 0 where
  response : HttpResponse → Sent R
  task_result : R → Sent R

-- `Event`: the channel's other half is dropped with the event.
pub data Event (M X : Type 0) : Type 0 where
  fetch : Option (HttpRequest M) → Event M X
  task : Option (TaskInit X) → Event M X

unfoldable pub unsettled : Text → Reason
unsettled kind =
    exception (kind ++ bytes " handler did not settle: async host operations are not supported yet")

unfoldable pub read_outcome : {A : Type 0} → Result (DispatchOutcome A) Text → Result A Reason
read_outcome (ok (DispatchOutcome.value v)) = ok v
read_outcome (ok (DispatchOutcome.error message)) = err (exception message)
read_outcome (err e) = err (other (bytes "invalid dispatch payload: " ++ e))

unfoldable pub outcome_of :
    {A : Type 0} → Text → (Text → Result (DispatchOutcome A) Text) → Option Text → Result A Reason
unfolding unsettled read_outcome
outcome_of kind parse none = err (unsettled kind)
outcome_of kind parse (some payload) = read_outcome (parse payload)

module _ {S F J W O : Type 0} where
  -- A new dispatch: nothing answered the one before, as far as this one goes.
  unfoldable pub begin : Worker S F J W O → Worker S F J W O
  begin worker =
      let id = (worker.dispatches + 1) % 2 ^ 64 in
      record worker {
        dispatches = id;
        host = record (worker.host) { dispatch = id; outcome = none };
      }

  unfoldable pub abort : Worker S F J W O → Worker S F J W O
  abort worker = record worker { is_aborted = true }

  unfoldable pub take_outcome :
      {A : Type 0}
      → Text
      → (Text → Result (DispatchOutcome A) Text)
      → Worker S F J W O
      → Result A Reason × Worker S F J W O
  unfolding outcome_of
  take_outcome kind parse worker = (
    outcome_of kind parse worker.host.outcome,
    with_host worker (record (worker.host) { outcome = none }),
  )

  -- `dispatch(..).await?; take_outcome(..)`
  unfoldable pub answered :
      {A : Type 0}
      → Text
      → (Text → Result (DispatchOutcome A) Text)
      → Run (Result (Unit {0}) Reason × Worker S F J W O)
      → Run (Result A Reason × Worker S F J W O)
  unfolding take_outcome
  answered kind parse (done (ok _, worker)) = done (take_outcome kind parse worker)
  answered kind parse (done (err reason, worker)) = done (err reason, worker)
  answered kind parse panicked = panicked
  answered kind parse hung = hung
  answered kind parse starved = starved

  -- The response of a fetch, out of what the guest delivered.
  unfoldable pub to_response :
      Run (Result DispatchResponse Reason × Worker S F J W O)
      → Run (Result HttpResponse Reason × Worker S F J W O)
  to_response (done (ok r, worker)) = done (
    ok (record { status = r.status; headers = r.headers; body = ResponseBody.bytes_body r.body }),
    worker,
  )
  to_response (done (err reason, worker)) = done (err reason, worker)
  to_response panicked = panicked
  to_response hung = hung
  to_response starved = starved

module _ {S F J W O : Type 0} (platform : Platform S J F W O) where
  -- The evaluation of the dispatcher, and the drain if it did not throw.
  unfoldable pub dispatched :
      ℕ
      → Outcome (Option Text × Worker S F J W O)
      → Run (Result (Unit {0}) Reason × Worker S F J W O)
  dispatched fuel panics = panicked
  dispatched fuel (returns (some message, worker)) = done (err (exception message), worker)
  dispatched fuel (returns (none, worker)) = drain platform fuel worker

  unfoldable pub dispatch_source : Text → ℕ → Text → Text
  dispatch_source dispatcher id event =
      dispatcher
      ++ (bytes "("
          ++ (platform.show_i64 id ++ (bytes ", " ++ (platform.json_string event ++ bytes ");"))))

  unfoldable pub dispatch :
      ℕ → Text → Text → Worker S F J W O → Run (Result (Unit {0}) Reason × Worker S F J W O)
  unfolding dispatched begin
  dispatch fuel dispatcher event worker =
      let begun = begin worker in
      dispatched fuel (eval platform (dispatch_source dispatcher begun.dispatches event) begun)

  module _ {M X R : Type 0} (wire : Wire M X R) where
    unfoldable pub request_text : RequestBody → Result (Option Text) Reason
    request_text RequestBody.none_body = ok none
    request_text (RequestBody.bytes_body b) = ok (some (wire.from_utf8_lossy b))
    request_text (RequestBody.stream_body s) =
        err (other (bytes "Streaming request bodies are not supported"))

    unfoldable pub fetch_with :
        ℕ
        → HttpRequest M
        → Result (Option Text) Reason
        → Worker S F J W O
        → Run (Result HttpResponse Reason × Worker S F J W O)
    unfolding answered to_response
    fetch_with fuel req (err reason) worker = done (err reason, worker)
    fetch_with fuel req (ok body) worker = to_response (
        answered (bytes "fetch") wire.parse_response (
          dispatch fuel (bytes "__ow_dispatch")
            (wire.fetch_event req.method req.url req.headers body) worker))

    unfoldable pub handle_fetch :
        ℕ → HttpRequest M → Worker S F J W O → Run (Result HttpResponse Reason × Worker S F J W O)
    unfolding fetch_with request_text
    handle_fetch fuel req worker = fetch_with fuel req (request_text req.body) worker

    unfoldable pub scheduled_time : Option (TaskSource X) → Option ℕ
    scheduled_time (some (schedule time x)) = some time
    scheduled_time (some (unscheduled x)) = none
    scheduled_time none = none

    unfoldable pub handle_task :
        ℕ → TaskInit X → Worker S F J W O → Run (Result R Reason × Worker S F J W O)
    unfolding answered scheduled_time
    handle_task fuel init worker = answered (bytes "task") wire.parse_task (
        dispatch fuel (bytes "__ow_dispatch_task")
          (wire.task_event init (scheduled_time init.source)) worker)

    -- The channel of a fetch gets a response, or is dropped.
    unfoldable pub send_response :
        Run (Result HttpResponse Reason × Worker S F J W O)
        → Run (Result (Unit {0}) Reason × Option (Sent R) × Worker S F J W O)
    send_response (done (ok r, worker)) = done (ok tt, some (response r), worker)
    send_response (done (err reason, worker)) = done (err reason, none, worker)
    send_response panicked = panicked
    send_response hung = hung
    send_response starved = starved

    -- The channel of a task gets a result either way.
    unfoldable pub send_result :
        Run (Result R Reason × Worker S F J W O)
        → Run (Result (Unit {0}) Reason × Option (Sent R) × Worker S F J W O)
    send_result (done (ok r, worker)) = done (ok tt, some (task_result r), worker)
    send_result (done (err reason, worker)) =
        done (err reason, some (task_result (wire.task_error (wire.description reason))), worker)
    send_result panicked = panicked
    send_result hung = hung
    send_result starved = starved

    unfoldable pub handle :
        ℕ
        → Event M X
        → Worker S F J W O
        → Run (Result (Unit {0}) Reason × Option (Sent R) × Worker S F J W O)
    unfolding send_response send_result
    handle fuel (fetch none) worker =
        done (err (other (bytes "FetchInit already taken")), none, worker)
    handle fuel (fetch (some req)) worker = send_response (handle_fetch fuel req worker)
    handle fuel (task none) worker =
        done (err (other (bytes "TaskInit already taken")), none, worker)
    handle fuel (task (some init)) worker = send_result (handle_task fuel init worker)

    unfoldable pub refuse_or :
        Bool
        → ℕ
        → Event M X
        → Worker S F J W O
        → Run (Result (Unit {0}) Reason × Option (Sent R) × Worker S F J W O)
    unfolding handle
    refuse_or true fuel event worker = done (err aborted, none, worker)
    refuse_or false fuel event worker = handle fuel event worker

    unfoldable pub exec :
        ℕ
        → Event M X
        → Worker S F J W O
        → Run (Result (Unit {0}) Reason × Option (Sent R) × Worker S F J W O)
    unfolding refuse_or
    exec fuel event worker = refuse_or worker.is_aborted fuel event worker
