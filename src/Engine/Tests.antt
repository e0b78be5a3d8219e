-- ===== src/Engine/Tests.antt =====
-- Runs of small guests against a host, and examples of the theorems on a run.
use openworkers_runtime_nova.Prelude.{
  ◌==◌, ltb, err, some, if◌then◌else◌, bytes, ℕ, ◌%◌, ◌^◌, ◌+◌, ◌≡◌, ◌≢◌, refl, none, [], ◌∷◌, ok,
  returns, arith,
}
use openworkers_runtime_nova.Examples.{Hosted, natives, host, number_arg, belated}
use openworkers_runtime_nova.Engine.{run, finish}
use openworkers_runtime_nova.Engine.Describe.{Errors, describe}
use openworkers_runtime_nova.Value.{object, undefined}
use openworkers_runtime_nova.Host.{respond}
use openworkers_runtime_nova.Engine.Convert.{
  gives, spends, enqueues, calls, GuestArg, HostCall, starting, steps_of, then_prog, respond_call,
}
use openworkers_runtime_nova.Engine.Conversions.{does, Responded, respond_call-Responded}
use openworkers_runtime_nova.Engine.Quiet.{IsQuietCall, steps_of-Runs}
use openworkers_runtime_nova.Engine.Frame.{Runs, run-Runs, IsStale, run-stale}

abbrev queued : Hosted
queued = record host { jobs = 1 ∷ [] }

run-belated : run natives (belated 4) host ≡ returns (none, 5, queued)
unfolding run openworkers_runtime_nova.Host.call_native openworkers_runtime_nova.Host.native_respond
    openworkers_runtime_nova.Host.init openworkers_runtime_nova.Host.enqueue_job
run-belated = refl

run-Runs_example : Runs host queued
run-Runs_example = run-Runs natives (belated 4) host queued none 5 run-belated

stale : IsStale natives 0 (belated 4)
stale = (other, λ reply. tt)
  where
    other : (n : ℕ) → (number_arg 7).to_number ≡ ok n → n % 2 ^ 64 ≢ 0
    other n e h = ground arith

run-stale_example : queued.outcome ≡ host.outcome
unfolding openworkers_runtime_nova.Host.init
run-stale_example = run-stale natives (belated 4) host queued none 5 stale run-belated

-- An error is a number: an odd one is an object, whose stack is a text where it is above 4, and reading the stack of 3
-- throws.
abbrev errors : Errors ℕ ℕ ℕ
errors = record {
  value = λ x. x;
  as_object = λ v. if (v % 2) == 1 then some v else none;
  internal_get = λ key v. if v == 3 then err 9 else ok v;
  as_text = λ v. if ltb 4 v then some (bytes "at line 1") else none;
  to_text = λ x. bytes "Error";
}

describe-stack : describe errors 5 ≡ bytes "at line 1"
unfolding describe
describe-stack = refl

describe-throws : describe errors 3 ≡ bytes "Error"
unfolding describe
describe-throws = refl

describe-plain : describe errors 2 ≡ bytes "Error"
unfolding describe
describe-plain = refl

-- An object as a number is 4 to the guest, whose conversion answers for dispatch 7 first and takes time.
abbrev odd_number : GuestArg ℕ ℕ
odd_number = record {
  value = object 1;
  to_string = gives (ok (bytes "4"));
  to_number = spends 5 (calls (respond (number_arg 7) (number_arg 1)) (λ reply. gives (ok 4)));
  to_uint32 = gives (ok 4);
}

-- The text of this one answers for dispatch 4, and queues a job.
abbrev odd_text : GuestArg ℕ ℕ
odd_text = record {
  value = object 2;
  to_string =
      enqueues 9 (calls (respond (number_arg 4) (number_arg 1)) (λ reply. gives (ok (bytes "b"))));
  to_number = gives (ok 0);
  to_uint32 = gives (ok 0);
}

abbrev fourth : Hosted
fourth = record host { dispatch = 4 }

-- The text that the call hands over is over the answer of its conversion.
respond_call-twice :
    does natives (respond_call odd_number odd_text) fourth
    ≡ returns (
      none,
      ok undefined,
      record fourth { jobs = 9 ∷ []; now = fourth.now + 5; outcome = some (bytes "b") },
    )
unfolding run then_prog respond_call openworkers_runtime_nova.Host.call_native
    openworkers_runtime_nova.Host.native_respond openworkers_runtime_nova.Host.advance
    openworkers_runtime_nova.Host.enqueue_job openworkers_runtime_nova.Host.init
respond_call-twice = refl

respond_call-Responded_example :
    Responded natives fourth odd_number odd_text
      (does natives (respond_call odd_number odd_text) fourth)
respond_call-Responded_example = respond_call-Responded natives fourth odd_number odd_text

abbrev fifth : Hosted
fifth = record host { dispatch = 5 }

abbrev setting : HostCall ℕ ℕ
setting = starting odd_number odd_text odd_number

abbrev set_fifth : Hosted
set_fifth = record fifth {
  now = fifth.now + 5;
  timers = record {
    timers = record { handle = 4; at = fifth.now + 5; period = none; seq = 0 } ∷ [];
    timer_seq = 1;
  };
}

not_fifth : (m n : ℕ) → (number_arg m).to_number ≡ ok n → m % 2 ^ 64 ≢ 5 → n % 2 ^ 64 ≢ 5
not_fifth m n e other same = ground arith

setting-quiet : IsQuietCall natives 5 setting
setting-quiet = (
  (tt, (λ n e. not_fifth 7 n e (λ f. absurd (omega arith)), λ reply. tt), tt),
  ((λ n e. not_fifth 4 n e (λ f. absurd (omega arith)), λ reply. tt), tt, tt),
)

set_run :
    run {S = ℕ} natives (then_prog (steps_of setting) (λ result. finish 1 none)) fifth
    ≡ returns (none, 1, set_fifth)
unfolding run then_prog steps_of openworkers_runtime_nova.Host.call_native
    openworkers_runtime_nova.Host.native_respond openworkers_runtime_nova.Host.advance
    openworkers_runtime_nova.Host.native_timer_start openworkers_runtime_nova.Timers.start
    openworkers_runtime_nova.Timers.delay_of openworkers_runtime_nova.Timers.add_duration
    openworkers_runtime_nova.Host.init openworkers_runtime_nova.Timers.push
    openworkers_runtime_nova.Value.is_true
set_run = refl

steps_of-Runs_example : (set_fifth.outcome ≡ fifth.outcome) × Runs fifth set_fifth
steps_of-Runs_example =
    steps_of-Runs natives setting (λ result. finish 1 none) fifth set_fifth none 1 setting-quiet
      (λ result. tt) set_run
