-- ===== src/Conformance/Main.antt =====
-- examples/conformance.rs: `main`, its arguments, the fixture, and the loop over the scenarios.
use openworkers_runtime_nova.Prelude.{
  ◌++◌, ◌&&◌, ◌==◌, ℕ, Bool, false, Option, none, some, List, [], ◌∷◌, Outcome, returns, panics,
  Text, bytes, text_eq, not, if◌then◌else◌, retain, length,
}
use openworkers_runtime_nova.Hex.{to_hex}
use openworkers_runtime_nova.Worker.{Run, done, ◌>>=◌, sync}
use openworkers_runtime_nova.Conformance.Driver.{Scenario, Recorded, expected}

unfoldable pub find_recorded : Text → List Recorded → Option Recorded
find_recorded name [] = none
find_recorded name (r ∷ rs) =
    let later = find_recorded name rs in if text_eq r.name name then some r else later

-- `only.as_ref().is_some_and(..)`
unfoldable pub is_skipped : Option Text → Text → Bool
is_skipped none name = false
is_skipped (some only) name = not (text_eq only name)

-- The loop of `main` over the scenarios: the verdicts of those that are not skipped. `run_one` is `run` of one.
unfoldable pub tally :
    Option Text → List Recorded → (Scenario → Recorded → Run Text) → List Scenario → Run (List Text)
unfolding is_skipped find_recorded
tally only oracle run_one [] = done []
tally only oracle run_one (scenario ∷ scenarios) =
    let rest = tally only oracle run_one scenarios in
    if is_skipped only scenario.name then rest else (do
      recorded ← sync (expected (find_recorded scenario.name oracle))
      verdict ← run_one scenario recorded
      verdicts ← rest
      done (verdict ∷ verdicts))

unfoldable pub count : Text → List Text → ℕ
count verdict verdicts = length (retain (λ v. text_eq v verdict) verdicts)

-- The arguments of `main`: `--only` and `--fixture`, each with the argument after it.
unfoldable pub parse_args :
    Option Text → Option Text → List Text → Outcome (Option Text × Option Text)
parse_args only fixture [] = returns (only, fixture)
parse_args only fixture (arg ∷ []) =
    if text_eq arg (bytes "--only")
    then returns (none, fixture)
    else if text_eq arg (bytes "--fixture")
    then returns (only, none)
    else panics
parse_args only fixture (arg ∷ value ∷ args) =
    let with_only = parse_args (some value) fixture args in
    let with_fixture = parse_args only (some value) args in
    if text_eq arg (bytes "--only")
    then with_only
    else if text_eq arg (bytes "--fixture")
    then with_fixture
    else panics

-- The bindings never reach the guest: its ASSETS are a shim that answers 404.
abbrev pub env_shim : Text
env_shim =
    bytes "globalThis.env = { ASSETS: { fetch() { return Promise.resolve(new Response(null, { "
    ++ bytes "status: 404 })); } } };\n"

-- The argument, or else the variable of the environment, or else the directory in the repository beside this one.
unfoldable pub fixture_dir : Option Text → Option Text → Text → Text
fixture_dir (some path) variable beside = path
fixture_dir none (some path) beside = path
fixture_dir none none beside = beside

-- What the files of a fixture hold: `scenarios.json`, `oracle.json` and the bundle.
pub record Fixture : Type 0 where
  pub base_url : Text
  pub scenarios : List Scenario
  pub oracle : List Recorded
  pub lowered_bytes : ℕ
  pub lowered_sha256 : Text
  pub bundle : List ℕ

-- The files, the crate openworkers_transform, and the hasher.
pub record Tools : Type 0 where
  pub read : Text → Option Fixture
  pub parse_worker_code : List ℕ → Option Text
  pub finalize : List ℕ → List ℕ

unfoldable pub sha256 : Tools → List ℕ → Text
sha256 tools input = to_hex (tools.finalize input)

-- Whether the transform gives the same bytes as the oracle's did.
unfoldable pub is_same_lowered : Tools → Fixture → Text → Bool
unfolding sha256
is_same_lowered tools fixture lowered =
    text_eq (sha256 tools lowered) fixture.lowered_sha256
    && (length lowered == fixture.lowered_bytes)

-- What `main` prints at its ends: whether the lowered bytes are the same, and of how many scenarios the answers match, of
-- how many, and how many do partially. `run_one` is `run`, of the code, the base URL, a scenario and what was recorded.
unfoldable pub main :
    Tools
    → List Text
    → Option Text
    → Text
    → (Text → Text → Scenario → Recorded → Run Text)
    → Run (Bool × ℕ × ℕ × ℕ)
unfolding parse_args fixture_dir is_same_lowered tally count
main tools args variable beside run_one = do
  (only, path) ← sync (parse_args none none args)
  fixture ← sync (expected (tools.read (fixture_dir path variable beside)))
  lowered ← sync (expected (tools.parse_worker_code fixture.bundle))
  verdicts ←
      tally only fixture.oracle (run_one (env_shim ++ lowered) fixture.base_url) fixture.scenarios
  done (
    is_same_lowered tools fixture lowered,
    count (bytes "PASS") verdicts,
    length verdicts,
    count (bytes "PARTIAL") verdicts,
  )
