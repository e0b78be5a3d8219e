-- ===== src/Ssr/Main.antt =====
-- examples/ssr.rs: `main`, past the reading of its arguments, and what it makes of the memory of the process.
use openworkers_runtime_nova.Prelude.{
  ℕ, ◌+◌, ◌-◌, ◌%◌, ◌^◌, ◌/◌, Option, List, Result, ok, err, Text,
}
use openworkers_runtime_nova.Engine.{Platform}
use openworkers_runtime_nova.Worker.{Worker, Reason, Run, done, ◌>>=◌}
use openworkers_runtime_nova.Exec.{Wire}
use openworkers_runtime_nova.Conformance.Driver.{Client, Setup}
use openworkers_runtime_nova.Ssr.{
  FirstRender, cold_runs, resident_workers, describe, render_once, create, measure_renders,
  parse_rounds, residents,
}

-- What the workers added, and each of them, in kB. The arithmetic of a release build wraps around.
unfoldable pub growth : ℕ → ℕ → ℕ × ℕ
growth before after =
    let added = (after + 2 ^ 64 - before) % 2 ^ 64 in (added, added / resident_workers)

module _ {S F J W O M X R E : Type 0} (platform : Platform S J F W O) (wire : Wire M X R)
    (client : Client M) (fuel : ℕ) (method : M) (setup : Setup S E) where
  -- A first render that failed ends the renders.
  unfoldable pub more_renders :
      Text → Result FirstRender Text × Worker S F J W O → Run (Result FirstRender Text)
  more_renders source (err message, worker) = done (err message)
  more_renders source (ok first, worker) = do
    worker ← measure_renders platform wire client fuel method setup source worker
    done (ok first)

  unfoldable pub on_created :
      (Reason → Text)
      → Text
      → Option Text
      → Result (Worker S F J W O) Reason
      → Run (Result FirstRender Text)
  unfolding more_renders
  on_created debug source expected (err reason) = done (err (describe debug reason))
  on_created debug source expected (ok worker) = do
    outcome ← render_once platform wire client fuel method debug expected worker
    more_renders source outcome

  -- What is printed of the first render, or why there is none, and the workers that stay.
  unfoldable pub main :
      (Reason → Text) → Text → Option Text → Run (Result FirstRender Text × List (Worker S F J W O))
  unfolding on_created
  main debug source expected = do
    parsed ← parse_rounds platform wire client fuel method setup cold_runs source
    built ← create platform wire client fuel method setup source
    first ← on_created debug source expected built
    workers ← residents platform wire client fuel method setup resident_workers source
    done (first, workers)
