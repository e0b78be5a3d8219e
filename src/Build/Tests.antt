-- ===== src/Build/Tests.antt =====
-- Tests of `surface`, `env_source` and `build`, and examples of the theorems on them.
use openworkers_runtime_nova.Prelude.{
  ℕ, ◌≡◌, refl, Option, none, some, List, [], ◌∷◌, ◌++◌, Result, ok, err, Text, bytes,
}
use openworkers_runtime_nova.Examples.{platform_of, idle, answering}
use openworkers_runtime_nova.Engine.{Platform}
use openworkers_runtime_nova.Build.{
  SurfaceModule, EnvJson, Script, BindingInfo, database, another, provided_ops, surface, env_source,
}
use openworkers_runtime_nova.Build.Surface.{Chosen, surface-Chosen}
use openworkers_runtime_nova.Build.Built.{Built}

abbrev modules : List SurfaceModule
modules =
    record { required_ops = bytes "urlParse" ∷ []; source = bytes "a" }
    ∷ record { required_ops = bytes "urlParse" ∷ bytes "dns" ∷ []; source = bytes "b" }
    ∷ record { required_ops = []; source = bytes "c" }
    ∷ []

surface-modules : surface modules provided_ops ≡ bytes "a" ∷ bytes "c" ∷ []
unfolding surface openworkers_runtime_nova.Prelude.retain openworkers_runtime_nova.Build.all_in
    openworkers_runtime_nova.Build.contains_text openworkers_runtime_nova.Prelude.text_eq
surface-modules = refl

surface-Chosen_example : Chosen provided_ops modules (surface modules provided_ops)
surface-Chosen_example = surface-Chosen modules provided_ops

abbrev json : EnvJson ℕ
json = record {
  variables = λ env. err (bytes "no");
  name = λ name. ok (bytes "\"" ++ (name ++ bytes "\""));
}

abbrev script : Script ℕ
script = record {
  code = some (bytes "1");
  env = some 0;
  bindings =
      record { name = bytes "D"; binding_type = database }
      ∷ record { name = bytes "K"; binding_type = another }
      ∷ [];
}

env_source-script :
    env_source json script.env script.bindings
    ≡ bytes
        "Object.defineProperty(globalThis, 'env', { value: Object.freeze(Object.assign({}, {\"D\": __ow_database_binding(\"D\"),\"K\": __ow_absent_binding(\"K\")})), writable: false, enumerable: true, configurable: false });"
unfolding env_source
env_source-script = refl

abbrev platform : Platform ℕ ℕ ℕ (List ℕ) (Unit {0})
platform = platform_of answering idle
