-- ===== src/Ssr/Tests.antt =====
-- Tests of examples/ssr.rs and examples/phases.rs on a small guest, and an example of the theorem on the first render.
use openworkers_runtime_nova.Prelude.{
  ◌-◌, ◌^◌, leb, ℕ, zero, suc, ◌++◌, ◌≡◌, refl, none, some, [], ◌∷◌, ok, err, returns, panics, Text,
  bytes,
}
use openworkers_runtime_nova.Worker.{Reason, exception, aborted, done}
use openworkers_runtime_nova.Ssr.{Rendered, preview, describe, first_render}
use openworkers_runtime_nova.Ssr.Preview.{Shown, first_render-Shown}
use openworkers_runtime_nova.Ssr.Main.{growth}
use openworkers_runtime_nova.Ssr.Report.{report}
use openworkers_runtime_nova.Ssr.Timings.{assert_doubled}
use openworkers_runtime_nova.Exec.{Sent, task_result}
use openworkers_runtime_nova.Ssr.Phases.{status_of}

abbrev copies : ℕ → ℕ → Text
copies c zero = []
copies c (suc n) = c ∷ copies c n

-- A page of 199 letters and a character of two bytes.
abbrev split_page : Rendered
split_page = record { status = 200; headers = []; body = copies b'a' 199 ++ (0xc3 ∷ 0xa9 ∷ []) }

preview_split : preview split_page.body ≡ panics
unfolding preview openworkers_runtime_nova.Hex.splits_char
preview_split = refl

preview_short : preview (bytes "page") ≡ returns (bytes "page")
unfolding preview openworkers_runtime_nova.Hex.splits_char
preview_short = refl

abbrev debug : Reason → Text
debug reason = bytes "Aborted"

describe-thrown : describe debug (exception (bytes "no")) ≡ bytes "no"
unfolding describe
describe-thrown = refl

status-aborted : status_of {R = ℕ} debug (err aborted) none ≡ bytes "Aborted"
unfolding status_of
status-aborted = refl

first_render-Shown_example :
    Shown
      (some (bytes "page"))
      (record { status = 200; headers = []; body = bytes "page" })
      (first_render debug
        (some (bytes "page"))
        (ok (record { status = 200; headers = []; body = bytes "page" })))
first_render-Shown_example =
    first_render-Shown debug (some (bytes "page"))
      (record { status = 200; headers = []; body = bytes "page" })

growth_up : growth 1_000 1_250 ≡ (250, 25)
unfolding growth
growth_up = refl

-- Where the process has given memory back, the difference wraps around.
growth_down : (growth 1_000 999).0 ≡ 2 ^ 64 - 1
unfolding growth
growth_down = refl

report_three : report leb (5 ∷ 2 ∷ 9 ∷ []) ≡ returns (record { least = 2; median = 5; size = 3 })
unfolding report openworkers_runtime_nova.Conformance.get
report_three = refl

abbrev doubled : Sent ℕ
doubled = task_result 42

assert-doubled : assert_doubled (λ r. some r) (some doubled) ≡ done tt
unfolding assert_doubled
assert-doubled = refl
