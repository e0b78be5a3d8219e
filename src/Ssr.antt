-- ===== src/Ssr.antt =====
-- examples/ssr.rs: a worker that renders a page is built and asked, again and again. The clock, the memory of the process
-- and the printing are left out: what is printed of the first render is a record.
pub mod Preview
pub mod Phases
pub mod Report
pub mod Main
pub mod Timings
mod Tests
use openworkers_runtime_nova.Prelude.{
  ℕ, zero, suc, ◌-◌, Bool, true, false, Option, none, some, List, [], ◌∷◌, ◌++◌, Result, ok, err,
  Outcome, returns, panics, Text, bytes, text_eq, leb, if◌then◌else◌, length,
}
use openworkers_runtime_nova.Prelude.Slices.{take, drop}
use openworkers_runtime_nova.Hex.{splits_char}
use openworkers_runtime_nova.Future.{Future}
use openworkers_runtime_nova.Bindings.{Headers, HttpRequest, HttpResponse, RequestBody, unwrap_or}
use openworkers_runtime_nova.Host.{advance}
use openworkers_runtime_nova.Engine.{Platform}
use openworkers_runtime_nova.Worker.{
  Worker, Reason, exception, other, initialization_error, wall_clock_timeout,
  max_iterations_reached, aborted, Run, done, panicked, hung, starved, ◌>>=◌, sync, with_host,
}
use openworkers_runtime_nova.Build.{new}
use openworkers_runtime_nova.Exec.{Wire, fetch, Sent, response, task_result, exec}
use openworkers_runtime_nova.Conformance.{min}
use openworkers_runtime_nova.Conformance.Driver.{Client, Setup, script_of}

abbrev pub bench_url : Text
bench_url = bytes "http://localhost/ssr-bench"

-- `WARM_RUNS`, `COLD_RUNS` and `RESIDENT_WORKERS`.
abbrev pub warm_runs : ℕ
warm_runs = 20

abbrev pub cold_runs : ℕ
cold_runs = 10

abbrev pub resident_workers : ℕ
resident_workers = 10

-- `get` of examples/common, of the method that it names.
unfoldable pub get : {M : Type 0} → M → Text → HttpRequest M
get method url = record { method = method; url = url; headers = []; body = RequestBody.none_body }

pub record Rendered : Type 0 where
  pub status : ℕ
  pub headers : Headers
  pub body : Text

-- `debug` is `{:?}`.
unfoldable pub describe : (Reason → Text) → Reason → Text
describe debug (exception message) = message
describe debug (initialization_error message) = message
describe debug (other message) = message
describe debug reason = debug reason

-- `&body[..body.len().min(200)]`, on the bytes of a text.
unfoldable pub preview : Text → Outcome Text
preview body =
    let end = min (length body) 200 in
    if splits_char (drop end body) then panics else returns (take end body)

-- What is printed of the first render. With an oracle: `none` where it matches, or the bytes expected.
pub record FirstRender : Type 0 where
  pub status : ℕ
  pub size : ℕ
  pub headers : Headers
  pub shown : Text
  pub verdict : Option (Option ℕ)

unfoldable pub verdict_on : Option Text → Text → Option (Option ℕ)
verdict_on none body = none
verdict_on (some expected) body =
    if text_eq body expected then some none else some (some (length expected))

abbrev first_of : Option Text → Rendered → Outcome Text → Outcome (Result FirstRender Text)
first_of expected r panics = panics
first_of expected r (returns shown) = returns (
    ok (record {
      status = r.status;
      size = length r.body;
      headers = r.headers;
      shown = shown;
      verdict = verdict_on expected r.body;
    }))

-- `render_once` past the render: what is printed, or why the render failed.
unfoldable pub first_render :
    (Reason → Text) → Option Text → Result Rendered Reason → Outcome (Result FirstRender Text)
unfolding describe preview verdict_on
first_render debug expected (err reason) = returns (err (describe debug reason))
first_render debug expected (ok r) = first_of expected r (preview r.body)

-- `expect` of a worker or a render that was awaited.
abbrev pub expect : {A : Type 0} → Result A Reason → Run A
expect (ok a) = done a
expect (err reason) = panicked

-- The text that a branch that nothing takes is put around.
unfoldable pub parse_only : Text → Text
parse_only source = bytes "if (globalThis.__ow_never) {\n" ++ (source ++ bytes "\n}")

module _ {S F J W O M X R : Type 0} (platform : Platform S J F W O) (wire : Wire M X R)
    (client : Client M) (fuel : ℕ) (method : M) where
  -- The body of the response, as text.
  unfoldable pub read_text :
      HttpResponse
      → Option (ℕ × Result (Option (List ℕ)) Text)
      → Worker S F J W O
      → Run (Result Rendered Reason × Worker S F J W O)
  read_text r none worker = hung
  read_text r (some (d, err e)) worker = panicked
  read_text r (some (d, ok body)) worker = done (
    ok (record {
      status = r.status;
      headers = r.headers;
      body = wire.from_utf8_lossy (unwrap_or body []);
    }),
    with_host worker (advance d worker.host),
  )

  unfoldable pub rendered :
      Result (Unit {0}) Reason
      → Option (Sent R)
      → Worker S F J W O
      → Run (Result Rendered Reason × Worker S F J W O)
  unfolding read_text
  rendered (err reason) sent worker = done (err reason, worker)
  rendered (ok _) (some (response r)) worker =
      read_text r (client.collect r.body worker.host.now) worker
  rendered (ok _) (some (task_result r)) worker = panicked
  rendered (ok _) none worker = panicked

  unfoldable pub render : Worker S F J W O → Run (Result Rendered Reason × Worker S F J W O)
  unfolding rendered get
  render worker = do
    (result, sent, worker) ← exec platform wire fuel (fetch (some (get method bench_url))) worker
    rendered result sent worker

  unfoldable pub render_once :
      (Reason → Text)
      → Option Text
      → Worker S F J W O
      → Run (Result FirstRender Text × Worker S F J W O)
  unfolding render first_render
  render_once debug expected worker = do
    (outcome, worker) ← render worker
    first ← sync (first_render debug expected outcome)
    done (first, worker)

  -- A number of renders on one worker.
  unfoldable pub warm_renders : ℕ → Worker S F J W O → Run (Worker S F J W O)
  unfolding render
  warm_renders zero worker = done worker
  warm_renders (suc n) worker = do
    (outcome, worker) ← render worker
    _ ← expect outcome
    warm_renders n worker

module _ {S F J W O M X R E : Type 0} (platform : Platform S J F W O) (wire : Wire M X R)
    (client : Client M) (fuel : ℕ) (method : M) (setup : Setup S E) where
  -- `Worker::new(Script::new(source), None)`
  abbrev pub create : Text → Run (Result (Worker S F J W O) Reason)
  create source =
      new platform setup.json fuel setup.runtime_js setup.modules client.default_limit
        (script_of source) none setup.engine setup.now

  -- A number of new workers, each with one render.
  unfoldable pub cold_renders : ℕ → Text → Run (Unit {0})
  unfolding render
  cold_renders zero source = done tt
  cold_renders (suc n) source = do
    built ← create source
    worker ← expect built
    (outcome, worker) ← render platform wire client fuel method worker
    _ ← expect outcome
    cold_renders n source

  unfoldable pub measure_renders : Text → Worker S F J W O → Run (Worker S F J W O)
  unfolding warm_renders cold_renders
  measure_renders source worker = do
    worker ← warm_renders platform wire client fuel method warm_runs worker
    _ ← cold_renders cold_runs source
    done worker

  -- A round builds a worker of no script, whatever comes of it, and one of the bundle, which is not run. A worker of the
  -- bundle that is not built ends the rounds.
  unfoldable pub parse_rounds : ℕ → Text → Run (Result (Unit {0}) Reason)
  parse_rounds zero source = done (ok tt)
  parse_rounds (suc n) source = do
    _ ← create []
    worker ← create (parse_only source)
    elim worker [ err reason ↦ done (err reason) | ok _ ↦ parse_rounds n source ]

  -- The workers that stay alive.
  unfoldable pub residents : ℕ → Text → Run (List (Worker S F J W O))
  residents zero source = done []
  residents (suc n) source = do
    built ← create source
    worker ← expect built
    workers ← residents n source
    done (worker ∷ workers)
