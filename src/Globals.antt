-- ===== src/Globals.antt =====
-- src/worker.rs: `initialize_global_object`, which puts the native functions in reach of the guest, with
-- `define_native_namespace`, `define_builtin` and `define_value`. `G` is an object of the engine, which is a parameter.
pub mod Defined
pub mod Calls
mod Tests
use openworkers_runtime_nova.Prelude.{
  ℕ, Option, none, some, List, [], ◌∷◌, ◌++◌, Outcome, returns, panics, ◌>>=◌, Text, bytes,
}
use openworkers_runtime_nova.Value.{Value, number, string}

-- The native functions, as `Behaviour::Regular` takes them.
pub data Behaviour : Type 0 where
  respond log url random digest binding hmac aes_gcm timer_start timer_clear : Behaviour
  ecdsa url_pattern compression encoding performance_now : Behaviour

-- What a property holds: a function with its length, a value that is no object, or an object.
pub data Property (F G : Type 0) : Type 0 where
  function : Behaviour → ℕ → Property F G
  plain : Value F → Property F G
  namespace : G → Property F G

-- `internal_define_own_property` of a descriptor with a value alone, `none` where it throws, and the property of a name.
pub record Objects (F G : Type 0) : Type 0 where
  pub empty : G
  pub define : Text → Property F G → G → Option G
  pub get : Text → G → Option (Property F G)

-- What is read of the process: the clock of the system, in milliseconds since 1970 where it is past that, and `0.0`;
-- and the name of the namespace in the crate openworkers_wintertc.
pub record Process (F : Type 0) : Type 0 where
  pub since_epoch : Option F
  pub zero : F
  pub native_namespace : Text

abbrev package_version : Text
package_version = bytes "0.18.3"

unfoldable pub user_agent : Text
user_agent = bytes "OpenWorkers/" ++ (package_version ++ bytes " (nova)")

unfoldable pub time_origin : {F : Type 0} → Process F → F
time_origin process = elim process.since_epoch [ none ↦ process.zero | some since ↦ since ]

module _ {F G : Type 0} (objects : Objects F G) where
  abbrev expected : Option G → Outcome G
  expected none = panics
  expected (some target) = returns target

  unfoldable pub define_value : Text → Property F G → G → Outcome G
  define_value name property target = expected (objects.define name property target)

  unfoldable pub define_builtin : Text → ℕ → Behaviour → G → Outcome G
  unfolding define_value
  define_builtin name length behaviour = define_value name (function behaviour length)

  unfoldable pub define_native_namespace : Process F → G → Outcome G
  unfolding define_builtin define_value user_agent time_origin
  define_native_namespace process global = do
    ops ← define_builtin (bytes "performanceNow") 0 performance_now objects.empty
    ops ← define_value (bytes "timeOrigin") (plain (number (time_origin process))) ops
    ops ← define_value (bytes "userAgent") (plain (string user_agent)) ops
    define_value process.native_namespace (namespace ops) global

  unfoldable pub initialize_global_object : Process F → G → Outcome G
  unfolding define_builtin define_native_namespace
  initialize_global_object process global = do
    global ← define_builtin (bytes "__ow_native_respond") 2 respond global
    global ← define_builtin (bytes "__ow_native_log") 2 log global
    global ← define_builtin (bytes "__ow_native_url") 3 url global
    global ← define_builtin (bytes "__ow_native_random") 1 random global
    global ← define_builtin (bytes "__ow_native_digest") 2 digest global
    global ← define_builtin (bytes "__ow_native_binding") 5 binding global
    global ← define_builtin (bytes "__ow_native_hmac") 4 hmac global
    global ← define_builtin (bytes "__ow_native_aes_gcm") 4 aes_gcm global
    global ← define_builtin (bytes "__ow_native_timer_start") 3 timer_start global
    global ← define_builtin (bytes "__ow_native_timer_clear") 1 timer_clear global
    global ← define_builtin (bytes "__ow_native_ecdsa") 5 ecdsa global
    global ← define_builtin (bytes "__ow_native_url_pattern") 3 url_pattern global
    global ← define_builtin (bytes "__ow_native_compression") 5 compression global
    global ← define_builtin (bytes "__ow_native_encoding") 5 encoding global
    define_native_namespace process global
