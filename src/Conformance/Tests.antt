-- ===== src/Conformance/Tests.antt =====
-- Tests of examples/conformance.rs on small answers, and examples of the theorems on it.
use openworkers_runtime_nova.Prelude.{
  ℕ, ◌≡◌, refl, true, none, Option, some, List, [], ◌∷◌, ok, err, Result, Outcome, returns, panics,
  Text, bytes,
}
use openworkers_runtime_nova.Examples.{Working, platform_of, worker, host, idle, answering}
use openworkers_runtime_nova.Bindings.{HttpRequest, RequestBody, ResponseBody}
use openworkers_runtime_nova.Engine.{Platform}
use openworkers_runtime_nova.Worker.{done, panicked}
use openworkers_runtime_nova.Exec.{Wire, value, Sent, response}
use openworkers_runtime_nova.Conformance.{header_diff, body_diff}
use openworkers_runtime_nova.Conformance.Driver.{
  RequestSpec, Recorded, Answer, Judged, Client, collect_headers, judge, dispatch,
}
use openworkers_runtime_nova.Conformance.Main.{parse_args, count, Fixture, Tools, main}
use openworkers_runtime_nova.Conformance.Verdict.{Fair, judge-Fair}

abbrev recorded : Recorded
recorded = record {
  name = bytes "home";
  status = 200;
  headers = bytes "a: 1" ∷ [];
  body = bytes "page";
  warm_identical = true;
}

abbrev given : Answer
given = record { status = 200; headers = bytes "a: 1" ∷ bytes "b: 2" ∷ []; body = bytes "page" }

header_diff_extra :
    header_diff recorded.headers given.headers ≡ some (bytes "header 1: unexpected `b: 2`")
unfolding header_diff openworkers_runtime_nova.Prelude.text_eq
    openworkers_runtime_nova.Url.Components.decimal
header_diff_extra = refl

header_diff_value :
    header_diff (bytes "a: 1" ∷ []) (bytes "a: 2" ∷ [])
    ≡ some (bytes "header 0: want `a: 1`, got `a: 2`")
unfolding header_diff openworkers_runtime_nova.Prelude.text_eq
    openworkers_runtime_nova.Url.Components.decimal
header_diff_value = refl

body_diff_end :
    body_diff (bytes "page") (bytes "pa")
    ≡ returns (some (record { at = 2; expected = bytes "page"; got = bytes "pa" }))
unfolding body_diff openworkers_runtime_nova.Prelude.text_eq
body_diff_end = refl

collect_headers_last :
    collect_headers [] (bytes "a: 1" ∷ bytes "a: b: c" ∷ [])
    ≡ returns ((bytes "a", bytes "b: c") ∷ [])
unfolding collect_headers openworkers_runtime_nova.Prelude.retain
    openworkers_runtime_nova.Prelude.text_eq
collect_headers_last = refl

collect_headers_bad : collect_headers [] (bytes "a:1" ∷ []) ≡ panics
unfolding collect_headers
collect_headers_bad = refl

parse_args_both :
    parse_args none none (bytes "--only" ∷ bytes "x" ∷ bytes "--fixture" ∷ bytes "y" ∷ [])
    ≡ returns (some (bytes "x"), some (bytes "y"))
unfolding parse_args openworkers_runtime_nova.Prelude.text_eq
parse_args_both = refl

count_two : count (bytes "PASS") (bytes "PASS" ∷ bytes "FAIL" ∷ bytes "PASS" ∷ []) ≡ 2
unfolding count openworkers_runtime_nova.Prelude.retain openworkers_runtime_nova.Prelude.text_eq
count_two = refl

judge-Fair_example :
    (judged : Judged) × (judge recorded given ≡ returns judged) × Fair recorded given judged.verdict
judge-Fair_example = judge-Fair recorded given

abbrev wire : Wire ℕ ℕ ℕ
wire = record {
  fetch_event = λ method url headers body. url;
  task_event = λ init time. [];
  from_utf8_lossy = λ b. b;
  parse_response = λ text. ok (value (record { status = 200; headers = []; body = text }));
  parse_task = λ text. ok (value 1);
  description = λ reason. bytes "failed";
  task_error = λ text. 0;
}

abbrev platform : Platform ℕ ℕ ℕ (List ℕ) (Unit {0})
platform = platform_of answering idle

-- A body of bytes is read at once, and there are no others.
abbrev collected : ResponseBody → Option (List ℕ)
collected ResponseBody.none_body = none
collected (ResponseBody.bytes_body b) = some b
collected (ResponseBody.stream_body s) = none

abbrev client : Client ℕ
client = record {
  parse_method = λ text. some 0;
  collect = λ body now. some (0, ok (collected body));
  default_limit = 0;
}

abbrev spec : RequestSpec
spec = record { method = bytes "GET"; path = bytes "/"; headers = []; body = none }

abbrev request : HttpRequest ℕ
request = record { method = 0; url = bytes "x/"; headers = []; body = RequestBody.none_body }

abbrev after : Working
after = record worker { engine = 1; dispatches = 1; host = record host { dispatch = 1 } }

abbrev sent : Option (Sent ℕ)
sent =
    some (
      response (record { status = 200; headers = []; body = ResponseBody.bytes_body (bytes "{}") }))

-- A fixture of one scenario besides another that is asked for with `--only`.
abbrev fixture : Fixture
fixture = record {
  base_url = bytes "x";
  scenarios =
      record { name = bytes "home"; request = spec }
      ∷ record { name = bytes "about"; request = spec }
      ∷ [];
  oracle = recorded ∷ [];
  lowered_bytes = 2;
  lowered_sha256 = bytes "0a";
  bundle = 1 ∷ 2 ∷ [];
}

abbrev tools : Tools
tools = record {
  read = λ path. some fixture;
  parse_worker_code = λ bundle. some bundle;
  finalize = λ input. 10 ∷ [];
}

main_home :
    main tools
      (bytes "--only" ∷ bytes "home" ∷ [])
      none
      (bytes "f")
      (λ code url scenario r. done (bytes "PARTIAL"))
    ≡ done (true, 0, 1, 1)
unfolding main openworkers_runtime_nova.Prelude.text_eq openworkers_runtime_nova.Hex.to_hex
    openworkers_runtime_nova.Prelude.retain
main_home = refl

-- A scenario that was not recorded.
main_about : main tools [] none (bytes "f") (λ code url scenario r. done (bytes "PASS")) ≡ panicked
unfolding main openworkers_runtime_nova.Prelude.text_eq
main_about = refl
