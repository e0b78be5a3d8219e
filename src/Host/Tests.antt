-- ===== src/Host/Tests.antt =====
-- Tests of the native functions of src/worker.rs, and examples of the theorems on them.
use openworkers_runtime_nova.Prelude.{
  ℕ, ◌%◌, ◌^◌, ◌≡◌, ◌≢◌, refl, some, [], ◌∷◌, ok, returns, bytes, arith,
}
use openworkers_runtime_nova.Value.{undefined}
use openworkers_runtime_nova.Examples.{Hosted, natives, host, number_arg, text_arg}
use openworkers_runtime_nova.Host.{Call, respond, timer_start, log, handled, call_native}

-- A host that answers for dispatch 3.
abbrev third : Hosted
third = record host { dispatch = 3 }

answer-third :
    call_native natives (respond (number_arg 3) (text_arg (bytes "{}"))) third
    ≡ returns (ok undefined, record third { outcome = some (bytes "{}") })
unfolding call_native openworkers_runtime_nova.Host.native_respond
answer-third = refl

log-third :
    call_native natives (log (text_arg (bytes "warn")) (text_arg (bytes "hi"))) third
    ≡ returns (ok undefined, record third { logged = handled 2 (bytes "hi") ∷ [] })
unfolding call_native openworkers_runtime_nova.Host.native_log openworkers_runtime_nova.Host.init
    openworkers_runtime_nova.Prelude.text_eq
log-third = refl

other : (n : ℕ) → (number_arg 2).to_number ≡ ok n → n % 2 ^ 64 ≢ 3
other n e h = ground arith

-- A level that is not known.
log-unknown :
    call_native natives (log (text_arg (bytes "shout")) (text_arg (bytes "hi"))) third
    ≡ returns (ok undefined, record third { logged = handled 1 (bytes "hi") ∷ [] })
unfolding call_native openworkers_runtime_nova.Host.native_log openworkers_runtime_nova.Host.init
    openworkers_runtime_nova.Prelude.text_eq
log-unknown = refl
