-- ===== src/Conformance/Driver.antt =====
-- examples/conformance.rs: `dispatch` and `run`. `HttpMethod::from_str` and
-- the `collect` of a response's body are parameters, of the crate openworkers_core.
use openworkers_runtime_nova.Prelude.{
  ℕ, Bool, true, false, ◌&&◌, not, Option, none, some, List, [], ◌∷◌, ◌++◌, map, Result, ok, err,
  Outcome, returns, panics, Text, bytes, text_eq, ◌==◌, if◌then◌else◌, retain,
}
use openworkers_runtime_nova.Future.{Future}
use openworkers_runtime_nova.Bindings.{
  Headers, HttpRequest, HttpResponse, RequestBody, ResponseBody, unwrap_or,
}
use openworkers_runtime_nova.Host.{advance}
use openworkers_runtime_nova.Engine.{Platform}
use openworkers_runtime_nova.Worker.{
  Worker, Reason, Run, done, panicked, hung, ◌>>=◌, sync, with_host,
}
use openworkers_runtime_nova.Build.{SurfaceModule, EnvJson, Script, new}
use openworkers_runtime_nova.Exec.{Wire, fetch, Sent, response, task_result, exec}
use openworkers_runtime_nova.Conformance.{BodyDiff, header_diff, body_diff}

pub record RequestSpec : Type 0 where
  pub method : Text
  pub path : Text
  pub headers : List Text
  pub body : Option Text

pub record Scenario : Type 0 where
  pub name : Text
  pub request : RequestSpec

-- A recorded response, with the bytes of its file for the body.
pub record Recorded : Type 0 where
  pub name : Text
  pub status : ℕ
  pub headers : List Text
  pub body : List ℕ
  pub warm_identical : Bool

pub record Answer : Type 0 where
  pub status : ℕ
  pub headers : List Text
  pub body : List ℕ

abbrev before_it : ℕ → Option (Text × Text) → Option (Text × Text)
before_it c none = none
before_it c (some (l, r)) = some (c ∷ l, r)

-- `split_once(": ")`
unfoldable pub split_header : Text → Option (Text × Text)
split_header [] = none
split_header (c ∷ []) = none
split_header (c ∷ d ∷ rest) =
    let later = before_it c (split_header (d ∷ rest)) in
    if (c == b':') && (d == b' ') then some ([], rest) else later

-- `insert` of a map of headers, in some order.
unfoldable pub insert_header : Text → Text → Headers → Headers
insert_header name value headers =
    (name, value) ∷ retain (λ header. not (text_eq header.0 name)) headers

unfoldable pub collect_header : Headers → Option (Text × Text) → Outcome Headers
unfolding insert_header
collect_header headers none = panics
collect_header headers (some (name, value)) = returns (insert_header name value headers)

abbrev pub bind_outcome : {A B : Type 0} → Outcome A → (A → Outcome B) → Outcome B
bind_outcome panics k = panics
bind_outcome (returns a) k = k a

-- The headers of a request as a map: one that is not `name: value` panics, and the last of a name stays.
unfoldable pub collect_headers : Headers → List Text → Outcome Headers
unfolding collect_header split_header
collect_headers headers [] = returns headers
collect_headers headers (line ∷ lines) =
    bind_outcome (collect_header headers (split_header line)) (λ more. collect_headers more lines)

-- `expect`
abbrev pub expected : {A : Type 0} → Option A → Outcome A
expected none = panics
expected (some a) = returns a

abbrev expected_ok : {A : Type 0} → Result A Text → Outcome A
expected_ok (err e) = panics
expected_ok (ok a) = returns a

unfoldable pub request_body : Option Text → RequestBody
request_body none = RequestBody.none_body
request_body (some body) = RequestBody.bytes_body body

abbrev pub header_line : Text × Text → Text
header_line header = header.0 ++ (bytes ": " ++ header.1)

unfoldable pub answer_of : HttpResponse → Option (List ℕ) → Answer
answer_of r body = record {
  status = r.status;
  headers = map header_line r.headers;
  body = unwrap_or body [];
}

-- The crate openworkers_core, as the driver uses it.
pub record Client (M : Type 0) : Type 0 where
  pub parse_method : Text → Option M
  pub collect : ResponseBody → Future (Result (Option (List ℕ)) Text)
  pub default_limit : ℕ

-- What is made of an answer: the verdict, and what is printed with it.
pub record Judged : Type 0 where
  pub verdict : Text
  pub headers : Option Text
  pub body : Option BodyDiff

unfoldable pub verdict_of : Bool → Option Text → Option BodyDiff → Text
verdict_of true none none = bytes "PASS"
verdict_of true (some headers) none = bytes "PARTIAL"
verdict_of status_ok headers body = bytes "FAIL"

unfoldable pub judge : Recorded → Answer → Outcome Judged
unfolding verdict_of
judge recorded answer =
    let headers = header_diff recorded.headers answer.headers in
    bind_outcome (body_diff recorded.body answer.body) (λ body. returns (record {
      verdict = verdict_of (answer.status == recorded.status) headers body;
      headers = headers;
      body = body;
    }))

abbrev texts_eq : List Text → List Text → Bool
texts_eq [] [] = true
texts_eq [] (y ∷ ys) = false
texts_eq (x ∷ xs) [] = false
texts_eq (x ∷ xs) (y ∷ ys) = text_eq x y && texts_eq xs ys

-- Whether the second answer of a worker is the first one again.
unfoldable pub is_warm_identical : Answer → Result Answer Reason → Bool
is_warm_identical answer (err reason) = false
is_warm_identical answer (ok second) =
    (second.status == answer.status)
    && (texts_eq second.headers answer.headers && text_eq second.body answer.body)

module _ {S F J W O M X R : Type 0} (platform : Platform S J F W O) (wire : Wire M X R)
    (client : Client M) (fuel : ℕ) where
  -- The body of the response, once it has been read.
  unfoldable pub read :
      HttpResponse
      → Option (ℕ × Result (Option (List ℕ)) Text)
      → Worker S F J W O
      → Run (Result Answer Reason × Worker S F J W O)
  unfolding answer_of
  read r none worker = hung
  read r (some (d, body)) worker = do
    body ← sync (expected_ok body)
    done (ok (answer_of r body), with_host worker (advance d worker.host))

  -- What came through the channel of the event.
  unfoldable pub received :
      Result (Unit {0}) Reason
      → Option (Sent R)
      → Worker S F J W O
      → Run (Result Answer Reason × Worker S F J W O)
  unfolding read
  received (err reason) sent worker = done (err reason, worker)
  received (ok _) (some (response r)) worker = read r (client.collect r.body worker.host.now) worker
  received (ok _) (some (task_result r)) worker = panicked
  received (ok _) none worker = panicked

  unfoldable pub request_of : Text → RequestSpec → Outcome (HttpRequest M)
  unfolding collect_headers request_body
  request_of base_url spec = bind_outcome (collect_headers [] spec.headers) (λ headers.
      bind_outcome (expected (client.parse_method spec.method)) (λ method. returns (record {
        method = method;
        url = base_url ++ spec.path;
        headers = headers;
        body = request_body spec.body;
      })))

  unfoldable pub dispatch :
      Text → RequestSpec → Worker S F J W O → Run (Result Answer Reason × Worker S F J W O)
  unfolding received request_of
  dispatch base_url spec worker = do
    request ← sync (request_of base_url spec)
    (result, sent, worker) ← exec platform wire fuel (fetch (some request)) worker
    received result sent worker

  -- A run past the first answer: the same request again, and the verdict on the first.
  unfoldable pub answered :
      Text
      → RequestSpec
      → Recorded
      → Result Answer Reason × Worker S F J W O
      → Run (Text × Option (Judged × Bool))
  unfolding dispatch judge is_warm_identical
  answered base_url spec recorded (err reason, worker) = done (bytes "FAIL", none)
  answered base_url spec recorded (ok answer, worker) = do
    judged ← sync (judge recorded answer)
    (warm, worker) ← dispatch base_url spec worker
    done (judged.verdict, some (judged, is_warm_identical answer warm))

  unfoldable pub on_built :
      Text
      → RequestSpec
      → Recorded
      → Result (Worker S F J W O) Reason
      → Run (Text × Option (Judged × Bool))
  unfolding answered
  on_built base_url spec recorded (err reason) = done (bytes "FAIL", none)
  on_built base_url spec recorded (ok worker) = do
    outcome ← dispatch base_url spec worker
    answered base_url spec recorded outcome

-- What a worker of the driver is built of, for one scenario.
pub record Setup (S E : Type 0) : Type 0 where
  pub json : EnvJson E
  pub runtime_js : List Text
  pub modules : List SurfaceModule
  pub engine : S
  pub now : ℕ

-- `Script::new(code)`
abbrev pub script_of : {E : Type 0} → Text → Script E
script_of code = record { code = some code; env = none; bindings = [] }

module _ {S F J W O M X R E : Type 0} (platform : Platform S J F W O) (wire : Wire M X R)
    (client : Client M) (fuel : ℕ) where
  -- `run`: the verdict, and what is printed of an answer, with whether the second answer was the same.
  unfoldable pub run :
      Text → Text → Setup S E → Scenario → Recorded → Run (Text × Option (Judged × Bool))
  unfolding on_built
  run code base_url setup scenario recorded = do
    built ←
        new platform setup.json fuel setup.runtime_js setup.modules client.default_limit
          (script_of code) none setup.engine setup.now
    on_built platform wire client fuel base_url scenario.request recorded built
