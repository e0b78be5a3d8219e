-- ===== src/Ssr/Timings.antt =====
-- examples/timings.rs: new workers, each with one task. The clock and the printing are left out.
use openworkers_runtime_nova.Prelude.{
  ℕ, zero, suc, Option, none, some, Text, bytes, ◌==◌, if◌then◌else◌,
}
use openworkers_runtime_nova.Engine.{Platform}
use openworkers_runtime_nova.Worker.{Run, done, panicked, ◌>>=◌}
use openworkers_runtime_nova.Exec.{Wire, TaskInit, task, Sent, response, task_result, exec}
use openworkers_runtime_nova.Conformance.Driver.{Client, Setup}
use openworkers_runtime_nova.Ssr.{expect, create}

abbrev pub script : Text
script = bytes "globalThis.default = { task: (event) => ({ doubled: event.payload.n * 2 }) };"

abbrev pub runs : ℕ
runs = 200

-- The result is unwrapped and its field asserted. `doubled` is that field of a result.
unfoldable pub assert_doubled : {R : Type 0} → (R → Option ℕ) → Option (Sent R) → Run (Unit {0})
assert_doubled doubled none = panicked
assert_doubled doubled (some (response r)) = panicked
assert_doubled doubled (some (task_result r)) = elim (doubled r) [
  | none ↦ panicked
  | some n ↦ if n == 42 then done tt else panicked
]

module _ {S F J W O M X R E : Type 0} (platform : Platform S J F W O) (wire : Wire M X R)
    (client : Client M) (fuel : ℕ) (method : M) (setup : Setup S E) where
  -- `init` is what `Event::invoke` makes of the payload.
  unfoldable pub run_tasks : TaskInit X → (R → Option ℕ) → ℕ → Run (Unit {0})
  unfolding assert_doubled
  run_tasks init doubled zero = done tt
  run_tasks init doubled (suc n) = do
    built ← create platform wire client fuel method setup script
    worker ← expect built
    (outcome, sent, worker) ← exec platform wire fuel (task (some init)) worker
    _ ← expect outcome
    _ ← assert_doubled doubled sent
    run_tasks init doubled n

  unfoldable pub main : TaskInit X → (R → Option ℕ) → Run (Unit {0})
  unfolding run_tasks
  main init doubled = run_tasks init doubled runs
