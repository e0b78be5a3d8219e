-- ===== src/Session/Tests.antt =====
-- A small life of a worker of src/worker.rs, and an example of the theorem on lives.
use openworkers_runtime_nova.Prelude.{
  ℕ, ◌+◌, ◌≡◌, false, none, Option, some, List, [], ◌∷◌, ok, err, refl, bytes, arith,
}
use openworkers_runtime_nova.Examples.{Guest, Working, platform_of, idle, number_arg, text_arg}
use openworkers_runtime_nova.Bindings.{RequestBody, ResponseBody}
use openworkers_runtime_nova.Host.{init, respond}
use openworkers_runtime_nova.Engine.{Platform, finish, native}
use openworkers_runtime_nova.Worker.{done}
use openworkers_runtime_nova.Build.{build}
use openworkers_runtime_nova.Exec.{Wire, value, Event, fetch, Sent, response, exec, abort}
use openworkers_runtime_nova.Session
use openworkers_runtime_nova.Session.{Start, Life}
use openworkers_runtime_nova.Session.Lasting.{Lasting, Life-Lasting}

abbrev wire : Wire ℕ ℕ ℕ
wire = record {
  fetch_event = λ method url headers body. url;
  task_event = λ init time. [];
  from_utf8_lossy = λ b. b;
  parse_response = λ text. ok (value (record { status = 200; headers = []; body = text }));
  parse_task = λ text. ok (value 1);
  description = λ reason. bytes "failed";
  task_error = λ text. 0;
}

-- Every script answers for the first dispatch.
abbrev eager : ℕ → Guest
eager s = native (respond (number_arg 1) (text_arg (bytes "{}"))) (λ reply. finish (s + 1) none)

abbrev platform : Platform ℕ ℕ ℕ (List ℕ) (Unit {0})
platform = platform_of eager idle

abbrev start : Start ℕ (Unit {0}) ℕ
start = record {
  json = record { variables = λ env. err []; name = λ name. ok name };
  runtime_js = bytes "layer" ∷ [];
  modules = [];
  script = record { code = some (bytes "code"); env = none; bindings = [] };
  limit = 0;
  ops = some tt;
  engine = 0;
  now = 100;
}

abbrev made : Working
made = record {
  engine = 3;
  host = init (some tt) 100;
  dispatches = 0;
  is_aborted = false;
  wall_clock = none;
}

abbrev after : Working
after = record {
  engine = 4;
  host = record (init (some tt) 100) { dispatch = 1 };
  dispatches = 1;
  is_aborted = false;
  wall_clock = none;
}

abbrev request : Event ℕ ℕ
request = fetch (some (record { method = 0; url = []; headers = []; body = RequestBody.none_body }))

build-made :
    build platform start.json 1 start.runtime_js start.modules start.script start.limit start.ops
      start.engine start.now
    ≡ done (ok made)
unfolding build openworkers_runtime_nova.Worker.eval openworkers_runtime_nova.Engine.run
    openworkers_runtime_nova.Host.call_native openworkers_runtime_nova.Host.native_respond init
    openworkers_runtime_nova.Prelude.retain openworkers_runtime_nova.Worker.drain
    openworkers_runtime_nova.Worker.drain_loop openworkers_runtime_nova.Worker.turn
    openworkers_runtime_nova.Worker.drain_jobs openworkers_runtime_nova.Worker.drain_turns
    openworkers_runtime_nova.Worker.wait_turn openworkers_runtime_nova.Prelude.pop
    openworkers_runtime_nova.Timers.next_timer openworkers_runtime_nova.Timers.earliest
build-made = refl

abbrev sent : Option (Sent ℕ)
sent =
    some (
      response (record { status = 200; headers = []; body = ResponseBody.bytes_body (bytes "{}") }))

exec-made : exec platform wire 1 request made ≡ done (ok tt, sent, after)
unfolding exec openworkers_runtime_nova.Exec.handle_fetch openworkers_runtime_nova.Exec.dispatch
    openworkers_runtime_nova.Worker.eval openworkers_runtime_nova.Engine.run
    openworkers_runtime_nova.Host.call_native openworkers_runtime_nova.Host.native_respond
    openworkers_runtime_nova.Worker.drain openworkers_runtime_nova.Worker.drain_loop
    openworkers_runtime_nova.Worker.turn openworkers_runtime_nova.Worker.drain_jobs
    openworkers_runtime_nova.Worker.drain_turns init openworkers_runtime_nova.Worker.wait_turn
    openworkers_runtime_nova.Prelude.pop openworkers_runtime_nova.Timers.next_timer
    openworkers_runtime_nova.Timers.earliest
exec-made = refl

-- The worker is built, answers a fetch, and is stopped.
stopped : Life platform wire start 1 (abort after)
stopped =
    Session.stopped 1 after (
      Session.served 0 1 made after request (ok tt) sent (Session.built 1 made build-made)
        exec-made)

Life-Lasting_example : Lasting platform wire start 1 (abort after)
Life-Lasting_example =
    Life-Lasting platform wire start (λ now wait. omega arith) 1 (abort after) stopped
