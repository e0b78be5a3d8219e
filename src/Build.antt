-- ===== src/Build.antt =====
-- How a worker comes to be: `surface` and `build` of src/worker.rs, `env_source` of src/bindings.rs.
-- The definition of the globals calls the engine only; the engine's state after it is a parameter.
pub mod Surface
pub mod Built
mod Tests
use openworkers_runtime_nova.Prelude.{
  ℕ, ◌*◌, Bool, true, false, ◌&&◌, ◌||◌, Option, none, some, List, [], ◌∷◌, ◌++◌, map, Result, ok,
  err, Outcome, returns, panics, Text, bytes, text_eq, ◌==◌, if◌then◌else◌, retain,
}
use openworkers_runtime_nova.Bindings.{unwrap_or}
use openworkers_runtime_nova.Host.{Host, init}
use openworkers_runtime_nova.Engine.{Platform}
use openworkers_runtime_nova.Worker.{
  Worker, Reason, exception, initialization_error, Run, done, panicked, hung, starved, eval, drain,
}

-- A module of the surface, as the crate openworkers_wintertc lists it.
pub record SurfaceModule : Type 0 where
  pub required_ops : List Text
  pub source : Text

-- `PROVIDED_OPS`
abbrev pub provided_ops : List Text
provided_ops =
    bytes "compressionDrop"
    ∷ bytes "compressionFinish"
    ∷ bytes "compressionPush"
    ∷ bytes "compressionStart"
    ∷ bytes "performanceNow"
    ∷ bytes "timeOrigin"
    ∷ bytes "urlParse"
    ∷ bytes "urlPatternParse"
    ∷ bytes "urlPatternProcessInput"
    ∷ bytes "urlUpdate"
    ∷ bytes "userAgent"
    ∷ []

unfoldable pub contains_text : List Text → Text → Bool
contains_text [] t = false
contains_text (x ∷ xs) t = text_eq x t || contains_text xs t

unfoldable pub all_in : List Text → List Text → Bool
all_in [] provided = true
all_in (op ∷ ops) provided = contains_text provided op && all_in ops provided

-- `surface`, of the modules listed and the ops provided.
unfoldable pub surface : List SurfaceModule → List Text → List Text
surface modules provided =
    map (λ (m : SurfaceModule). m.source) (retain (λ m. all_in m.required_ops provided) modules)

pub data BindingType : Type 0 where
  assets database invoke another : BindingType

pub record BindingInfo : Type 0 where
  pub name : Text
  pub binding_type : BindingType

-- serde_json: of the variables, and of a name.
pub record EnvJson (E : Type 0) : Type 0 where
  pub variables : E → Result Text Text
  pub name : Text → Result Text Text

abbrev text_or : Result Text Text → Text → Text
text_or (ok t) d = t
text_or (err e) d = d

-- The function of the platform layer that makes the object of a binding, in a build with the `invoke` feature.
unfoldable pub maker : BindingType → Text
maker assets = bytes "__ow_assets_binding"
maker database = bytes "__ow_database_binding"
maker invoke = bytes "__ow_invoke_binding"
maker another = bytes "__ow_absent_binding"

-- `join(",")`
unfoldable pub join : List Text → Text
join [] = []
join (x ∷ []) = x
join (x ∷ y ∷ ys) = x ++ (bytes "," ++ join (y ∷ ys))

unfoldable pub braced : List Text → Text
unfolding join
braced [] = []
braced (x ∷ xs) = bytes ", {" ++ (join (x ∷ xs) ++ bytes "}")

module _ {E : Type 0} (json : EnvJson E) where
  unfoldable pub binding_object : BindingInfo → Text
  unfolding maker
  binding_object binding =
      let name = text_or (json.name binding.name) (bytes "\"\"") in
      name ++ (bytes ": " ++ (maker binding.binding_type ++ (bytes "(" ++ (name ++ bytes ")"))))

  unfoldable pub variables_of : Option E → Text
  variables_of none = bytes "{}"
  variables_of (some env) = text_or (json.variables env) (bytes "{}")

  unfoldable pub env_source : Option E → List BindingInfo → Text
  unfolding binding_object variables_of braced
  env_source env bindings =
      bytes "Object.defineProperty(globalThis, 'env', { value: Object.freeze(Object.assign("
      ++ (variables_of env
          ++ (braced (map binding_object bindings)
              ++ bytes ")), writable: false, enumerable: true, configurable: false });"))

-- A script: its code, if that is JavaScript, its variables and its bindings.
pub record Script (E : Type 0) : Type 0 where
  pub code : Option Text
  pub env : Option E
  pub bindings : List BindingInfo

-- A limit of 0 milliseconds is none. One of 64 bits leads to no instant that cannot be represented.
unfoldable pub wall_clock_of : ℕ → Option ℕ
wall_clock_of milliseconds = if milliseconds == 0 then none else some (milliseconds * 1_000_000)

unfoldable pub fresh : {S F J W O : Type 0} → S → Option O → ℕ → Option ℕ → Worker S F J W O
fresh engine ops now wall_clock = record {
  engine = engine;
  host = init ops now;
  dispatches = 0;
  is_aborted = false;
  wall_clock = wall_clock;
}

module _ {S F J W O : Type 0} (platform : Platform S J F W O) where
  -- What goes on if an evaluation did not throw.
  unfoldable pub eval_or :
      (Text → Reason)
      → Outcome (Option Text × Worker S F J W O)
      → (Worker S F J W O → Run (Result (Worker S F J W O) Reason))
      → Run (Result (Worker S F J W O) Reason)
  eval_or reason panics next = panicked
  eval_or reason (returns (some message, worker)) next = done (err (reason message))
  eval_or reason (returns (none, worker)) next = next worker

  -- The scripts in turn, until one throws.
  unfoldable pub eval_all :
      List Text
      → (Worker S F J W O → Run (Result (Worker S F J W O) Reason))
      → Worker S F J W O
      → Run (Result (Worker S F J W O) Reason)
  unfolding eval_or
  eval_all [] next worker = next worker
  eval_all (script ∷ scripts) next worker =
      eval_or initialization_error (eval platform script worker) (eval_all scripts next)

  unfoldable pub built :
      Run (Result (Unit {0}) Reason × Worker S F J W O) → Run (Result (Worker S F J W O) Reason)
  built (done (ok _, worker)) = done (ok worker)
  built (done (err reason, worker)) = done (err reason)
  built panicked = panicked
  built hung = hung
  built starved = starved

  -- The user's code, and the drain after it.
  unfoldable pub run_code : ℕ → Text → Worker S F J W O → Run (Result (Worker S F J W O) Reason)
  unfolding eval_or built
  run_code fuel code worker =
      eval_or exception (eval platform code worker) (λ w. built (drain platform fuel w))

  unfoldable pub build_with :
      ℕ → List Text → Option Text → Worker S F J W O → Run (Result (Worker S F J W O) Reason)
  unfolding eval_all run_code
  build_with fuel layer none worker =
      done (err (initialization_error (bytes "Nova runtime only supports JavaScript code")))
  build_with fuel layer (some code) worker = eval_all layer (run_code fuel code) worker

  -- `build`, of the platform layer's files, the surface's modules, the script, the limit of the wall clock in
  -- milliseconds, the embedder's handle, the engine once its globals are defined, and the instant.
  unfoldable pub build :
      {E : Type 0}
      → EnvJson E
      → ℕ
      → List Text
      → List SurfaceModule
      → Script E
      → ℕ
      → Option O
      → S
      → ℕ
      → Run (Result (Worker S F J W O) Reason)
  unfolding build_with fresh surface env_source wall_clock_of
  build json fuel runtime_js modules script limit ops engine now =
      build_with fuel
        (runtime_js
          ++ (surface modules provided_ops ++ (env_source json script.env script.bindings ∷ [])))
        script.code (fresh engine ops now (wall_clock_of limit))

  -- `new` and `new_with_ops`, of the limit that the crate has by default, and the limits that were given.
  unfoldable pub new :
      {E : Type 0}
      → EnvJson E
      → ℕ
      → List Text
      → List SurfaceModule
      → ℕ
      → Script E
      → Option ℕ
      → S
      → ℕ
      → Run (Result (Worker S F J W O) Reason)
  new json fuel runtime_js modules default script limits engine now =
      build json fuel runtime_js modules script (unwrap_or limits default) none engine now

  unfoldable pub new_with_ops :
      {E : Type 0}
      → EnvJson E
      → ℕ
      → List Text
      → List SurfaceModule
      → ℕ
      → Script E
      → Option ℕ
      → O
      → S
      → ℕ
      → Run (Result (Worker S F J W O) Reason)
  new_with_ops json fuel runtime_js modules default script limits ops engine now =
      build json fuel runtime_js modules script (unwrap_or limits default) (some ops) engine now
