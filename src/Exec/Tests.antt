-- ===== src/Exec/Tests.antt =====
-- Tests of `exec` of src/worker.rs on small guests, and examples of its theorems.
use openworkers_runtime_nova.Prelude.{
  ◌⊎◌, ℕ, ◌+◌, ◌%◌, ◌^◌, ◌≡◌, ◌≢◌, refl, Option, none, some, List, [], ◌∷◌, Result, ok, err, Text,
  bytes, arith,
}
use openworkers_runtime_nova.Examples.{
  Working, platform_of, worker, host, idle, number_arg, answering, belated,
}
use openworkers_runtime_nova.Bindings.{RequestBody, ResponseBody}
use openworkers_runtime_nova.Engine.{Platform}
use openworkers_runtime_nova.Worker.{Worker, Reason, exception, aborted, done}
use openworkers_runtime_nova.Exec.{
  Wire, DispatchOutcome, value, Event, fetch, task, Sent, response, task_result, TaskInit, schedule,
  exec, abort, unsettled,
}
use openworkers_runtime_nova.Exec.Answers.{IsSilent, exec-silent}
use openworkers_runtime_nova.Exec.Delivery.{Delivered, exec-Delivered}

abbrev wire : Wire ℕ ℕ ℕ
wire = record {
  fetch_event = λ method url headers body. url;
  task_event = λ init time. [];
  from_utf8_lossy = λ b. b;
  parse_response = λ text. ok (value (record { status = 200; headers = []; body = text }));
  parse_task = λ text. ok (value 1);
  description = λ reason. bytes "failed";
  task_error = λ text. 0;
}

abbrev platform : Platform ℕ ℕ ℕ (List ℕ) (Unit {0})
platform = platform_of answering idle

-- A guest that is still busy with dispatch 7.
abbrev busy_platform : Platform ℕ ℕ ℕ (List ℕ) (Unit {0})
busy_platform = platform_of belated idle

abbrev request : Event ℕ ℕ
request =
    fetch
      (some (record { method = 0; url = bytes "/"; headers = []; body = RequestBody.none_body }))

abbrev job : Event ℕ ℕ
job = task (some (record { source = some (schedule 12 0); carried = 0 }))

abbrev after : Working
after = record worker { engine = 1; dispatches = 1; host = record host { dispatch = 1 } }

abbrev sent : Option (Sent ℕ)
sent =
    some (
      response (record { status = 200; headers = []; body = ResponseBody.bytes_body (bytes "{}") }))

exec-request : exec platform wire 1 request worker ≡ done (ok tt, sent, after)
unfolding exec openworkers_runtime_nova.Exec.handle_fetch openworkers_runtime_nova.Exec.dispatch
    openworkers_runtime_nova.Worker.eval openworkers_runtime_nova.Engine.run
    openworkers_runtime_nova.Host.call_native openworkers_runtime_nova.Host.native_respond
    openworkers_runtime_nova.Worker.drain openworkers_runtime_nova.Worker.drain_loop
    openworkers_runtime_nova.Worker.turn openworkers_runtime_nova.Worker.drain_jobs
    openworkers_runtime_nova.Worker.drain_turns openworkers_runtime_nova.Host.init
    openworkers_runtime_nova.Worker.wait_turn openworkers_runtime_nova.Prelude.pop
    openworkers_runtime_nova.Timers.next_timer openworkers_runtime_nova.Timers.earliest
exec-request = refl

exec-aborted : exec platform wire 1 request (abort worker) ≡ done (err aborted, none, abort worker)
unfolding exec abort
exec-aborted = refl

abbrev failed : Working
failed = record worker {
  engine = 0;
  dispatches = 1;
  host = record host { dispatch = 1; now = 103 };
}

-- The answer for dispatch 7 does not answer dispatch 1: the task gets an error.
exec-belated :
    exec busy_platform wire 1 job worker
    ≡ done (err (unsettled (bytes "task")), some (task_result 0), failed)
unfolding exec openworkers_runtime_nova.Exec.handle_task openworkers_runtime_nova.Exec.dispatch
    openworkers_runtime_nova.Worker.eval openworkers_runtime_nova.Engine.run
    openworkers_runtime_nova.Host.call_native openworkers_runtime_nova.Host.native_respond
    openworkers_runtime_nova.Worker.drain openworkers_runtime_nova.Worker.drain_loop
    openworkers_runtime_nova.Worker.turn openworkers_runtime_nova.Worker.drain_jobs
    openworkers_runtime_nova.Worker.drain_turns openworkers_runtime_nova.Host.enqueue_job
    openworkers_runtime_nova.Host.init openworkers_runtime_nova.Worker.take_job
    openworkers_runtime_nova.Host.advance openworkers_runtime_nova.Worker.wait_turn
    openworkers_runtime_nova.Prelude.pop openworkers_runtime_nova.Timers.next_timer
    openworkers_runtime_nova.Timers.earliest
exec-belated = refl

exec-Delivered_example : Delivered platform wire (worker.is_aborted) request (ok tt) sent
exec-Delivered_example =
    exec-Delivered platform wire 1 request worker after (ok tt) sent exec-request

busy-IsSilent : IsSilent busy_platform 1
busy-IsSilent = record { scripts = λ s source. (other, λ reply. tt); jobs = λ s j. tt }
  where
    other : (n : ℕ) → (number_arg 7).to_number ≡ ok n → n % 2 ^ 64 ≢ 1
    other n e h = ground arith

exec-silent_example :
    exec busy_platform wire 1 job worker ≢ done (ok tt, some (task_result 1), failed)
unfolding openworkers_runtime_nova.Exec.begin
exec-silent_example =
    exec-silent busy_platform wire 1 job worker failed (some (task_result 1))
      (λ now wait. omega arith) busy-IsSilent
