-- ===== src/Examples.antt =====
-- Concrete instances of the parameters, for the tests and the examples: numbers for floats, a codec that copies,
-- and small guests.
use openworkers_runtime_nova.Prelude.{
  ℕ, ◌+◌, ◌*◌, ◌/◌, ◌%◌, ◌^◌, true, false, Option, none, some, List, [], ◌∷◌, ◌++◌, Result, ok, err,
  Text, bytes, text_eq, ltb, ◌==◌, if◌then◌else◌, length,
}
use openworkers_runtime_nova.Value.{Float, number, string, boolean, Arg}
use openworkers_runtime_nova.Future.{ready}
use openworkers_runtime_nova.Compression.{Flate}
use openworkers_runtime_nova.Host.{Host, init, Natives, respond, binding}
use openworkers_runtime_nova.Engine.{Prog, finish, spend, enqueue, native, Platform}
use openworkers_runtime_nova.Worker.{Worker}

-- A number from 2 ^ 200 on counts as infinite, and is not equal to itself.
abbrev pub float : Float ℕ
float = record {
  equal = λ a b. if ltb a (2 ^ 200) then a == b else false;
  is_finite = λ a. ltb a (2 ^ 200);
  is_positive = λ a. ltb 0 a;
  nanoseconds = λ a. a * 1_000_000;
  into_i64 = λ a. a % 2 ^ 64;
  from_u32 = λ a. a;
  as_millis = λ a. a / 1_000_000;
  show = λ a. (b'0' + a % 10) ∷ [];
}

-- The writers hand out what was written to them, and fail on nothing.
abbrev pub flate : Flate (List ℕ)
flate = record {
  new = λ kind. [];
  write_all = λ kind w input. if ltb 0 (length input) then ok (w ++ input) else err tt;
  take_out = λ kind w. (w, []);
  finish = λ kind w. ok w;
}

abbrev pub natives : Natives ℕ (List ℕ) (Unit {0})
natives = record {
  float = float;
  flate = flate;
  answer = λ ops kind name params. ready (ok params);
  parse_level = λ name. if text_eq name (bytes "warn") then some 2 else none;
  log_level = 1;
}

abbrev pub number_arg : ℕ → Arg ℕ
number_arg n = record {
  value = number n;
  to_string = ok ((b'0' + n % 10) ∷ []);
  to_number = ok n;
  to_uint32 = ok (n % 2 ^ 32);
  to_int32 = ok (n % 2 ^ 32);
}

abbrev pub text_arg : Text → Arg ℕ
text_arg text = record {
  value = string text;
  to_string = ok text;
  to_number = ok (2 ^ 200);
  to_uint32 = ok 0;
  to_int32 = ok 0;
}

abbrev pub true_arg : Arg ℕ
true_arg = record {
  value = boolean true;
  to_string = ok (bytes "true");
  to_number = ok 1;
  to_uint32 = ok 1;
  to_int32 = ok 1;
}

abbrev pub Guest : Type 0
Guest = Prog ℕ ℕ ℕ

abbrev pub Hosted : Type 0
Hosted = Host ℕ ℕ (List ℕ) (Unit {0})

abbrev pub Working : Type 0
Working = Worker ℕ ℕ ℕ (List ℕ) (Unit {0})

-- A future that is done in time, or the end of the budget.
abbrev pub timeout_of : ℕ → Option (ℕ × Result Text Text) → Option (ℕ × Option (Result Text Text))
timeout_of budget none = some (budget, none)
timeout_of budget (some (d, answer)) =
    if ltb budget d then some (budget, none) else some (d, some answer)

-- An engine that runs the same program for every script, and one for every job.
abbrev pub platform_of : (ℕ → Guest) → Guest → Platform ℕ ℕ ℕ (List ℕ) (Unit {0})
platform_of script job = record {
  natives = natives;
  eval = λ s source. script s;
  run_job = λ s j. job;
  is_finished = λ j now. true;
  timeout = λ budget answer now. timeout_of budget (answer now);
  wake = λ now wait. now + wait;
  json_string = λ text. b'"' ∷ (text ++ (b'"' ∷ []));
  show_i64 = λ n. (b'0' + n % 10) ∷ [];
}

-- The engine's state counts the scripts. This one answers for the dispatch of its number.
abbrev pub answering : ℕ → Guest
answering s =
    native (respond (number_arg (s + 1)) (text_arg (bytes "{}"))) (λ reply. finish (s + 1) none)

-- This one answers for dispatch 7 only, and queues a job.
abbrev pub belated : ℕ → Guest
belated s =
    native (respond (number_arg 7) (text_arg (bytes "{}")))
      (λ reply. enqueue 1 (finish (s + 1) none))

-- This one asks again, and takes a while.
abbrev pub asking : ℕ → Guest
asking s = spend 1 (
    native (binding (number_arg 0) (text_arg []) (text_arg []) (text_arg []))
      (λ reply. finish s none))

abbrev pub idle : Guest
idle = spend 3 (finish 0 none)

abbrev pub host : Hosted
host = init (some tt) 100

abbrev pub worker : Working
worker = record { engine = 0; host = host; dispatches = 0; is_aborted = false; wall_clock = some 5 }
