-- ===== src/Globals/Tests.antt =====
-- Tests of the globals of src/worker.rs over association lists, and examples of the theorems on them.
use openworkers_runtime_nova.Prelude.{
  ℕ, ◌≡◌, ◌≢◌, refl, true, false, Option, none, some, [], ◌∷◌, returns, ok, Text, bytes, text_eq,
  text_eq_refl, text_eq-false, if◌then◌else◌,
}
use openworkers_runtime_nova.Value.{Value, Arg, undefined, string}
use openworkers_runtime_nova.Examples.{natives, text_arg, host}
use openworkers_runtime_nova.Host
use openworkers_runtime_nova.Host.{Call, call_native}
use openworkers_runtime_nova.Crypto.Ecdsa.{Curve}
use openworkers_runtime_nova.Url.Components.{native_url}
use openworkers_runtime_nova.Globals.Calls.{Crates, call_of}
use openworkers_runtime_nova.Globals.{
  Property, namespace, plain, function, Behaviour, log, Objects, Process, user_agent,
  initialize_global_object,
}
use openworkers_runtime_nova.Globals.Defined.{
  functions, ops_of, is_among, IsOrdinary, Has, Lacks, initialize_global_object-Has,
}

-- An object is its properties, the last first.
data Object : Type 0 where
  blank : Object
  with_function : Text → Behaviour → ℕ → Object → Object
  with_plain : Text → Value ℕ → Object → Object
  with_namespace : Text → Object → Object → Object

abbrev put : Text → Property ℕ Object → Object → Object
put name (function behaviour n) g = with_function name behaviour n g
put name (plain value) g = with_plain name value g
put name (namespace ops) g = with_namespace name ops g

unfoldable get : Text → Object → Option (Property ℕ Object)
get name blank = none
get name (with_function n behaviour len g) =
    let rest = get name g in if text_eq name n then some (function behaviour len) else rest
get name (with_plain n value g) =
    let rest = get name g in if text_eq name n then some (plain value) else rest
get name (with_namespace n ops g) =
    let rest = get name g in if text_eq name n then some (namespace ops) else rest

abbrev objects : Objects ℕ Object
objects = record {
  empty = blank;
  define = λ name property g. some (put name property g);
  get = get;
}

get-put :
    (name : Text) (property : Property ℕ Object) (g : Object)
    → get name (put name property g) ≡ some property
unfolding get
get-put name (function behaviour n) g = rw (text_eq_refl name) refl
get-put name (plain value) g = rw (text_eq_refl name) refl
get-put name (namespace ops) g = rw (text_eq_refl name) refl

get-put-other :
    (name other : Text) (property : Property ℕ Object) (g : Object)
    → other ≢ name
    → get other (put name property g) ≡ get other g
unfolding get
get-put-other name other (function behaviour n) g apart = rw (text_eq-false other name apart) refl
get-put-other name other (plain value) g apart = rw (text_eq-false other name apart) refl
get-put-other name other (namespace ops) g apart = rw (text_eq-false other name apart) refl

objects-IsOrdinary : IsOrdinary objects
unfolding get
objects-IsOrdinary = record {
  defines = λ name property g absent. (
    put name property g,
    refl,
    get-put name property g,
    λ other apart. get-put-other name other property g apart,
  );
  empty_get = λ name. refl;
}

abbrev process : Process ℕ
process = record { since_epoch = none; zero = 0; native_namespace = bytes "__native" }

blank-Lacks : Lacks objects blank functions
unfolding get
blank-Lacks = (
  refl,
  (
    refl,
    (
      refl,
      (refl, (refl, (refl, (refl, (refl, (refl, (refl, (refl, (refl, (refl, (refl, tt))))))))))),
    ),
  ),
)

namespace_apart : is_among {F = ℕ} {G = Object} (bytes "__native") functions ≡ false
unfolding text_eq
namespace_apart = refl

user_agent_text : user_agent ≡ bytes "OpenWorkers/0.18.3 (nova)"
unfolding user_agent
user_agent_text = refl

initialize_global_object-Has_example :
    (g : Object) × (ops : Object) × (initialize_global_object objects process blank ≡ returns g)
    × Has objects g functions
    × (get (bytes "__native") g ≡ some (namespace ops))
    × Has objects ops (ops_of process)
unfolding get
initialize_global_object-Has_example =
    initialize_global_object-Has objects process blank objects-IsOrdinary blank-Lacks refl
      namespace_apart

abbrev missing : Arg ℕ
missing = record {
  value = undefined;
  to_string = ok (bytes "undefined");
  to_number = ok 0;
  to_uint32 = ok 0;
  to_int32 = ok 0;
}

-- A line of console output, with the level left out.
abbrev log_call : Call ℕ
log_call = Host.log (text_arg (bytes "hello")) missing

abbrev curve : Curve (Unit {0}) (Unit {0}) (Unit {0})
curve = record {
  size = 1;
  signing_from_slice = λ scalar. some tt;
  verifying_key = λ k. tt;
  to_sec1_point = λ v. [];
  sign_prehash = λ k digest. some tt;
  to_bytes = λ s. [];
  from_sec1_bytes = λ point. some tt;
  signature_from_slice = λ signature. some tt;
  verify_prehash = λ v digest s. true;
}

-- Crates that do as little as they can.
abbrev crates :
    Crates
      (Unit {0})
      (Unit {0})
      (Unit {0})
      (Unit {0})
      (Unit {0})
      (Unit {0})
      (Unit {0})
      Text
      Text
      Text
      Text
      Text
      Text
crates = record {
  crypto = record {
    digest = λ hash input. input;
    finalize = λ hash key message. message;
    verify_slice = λ hash key message tag. false;
    encrypt = λ key iv message. none;
    decrypt = λ key iv message. none;
  };
  p256 = curve;
  p384 = curve;
  encodings = record {
    for_label = λ label. none;
    name = λ e. [];
    is_utf_16le = λ e. false;
    is_utf_16be = λ e. false;
    decode_strict = λ e input. none;
    decode = λ e input. input;
  };
  quirks = record {
    from_str = λ text. none;
    process_construct_pattern_input = λ input base. base;
    parse_pattern = λ init. none;
    pattern_to_string = λ pattern. none;
    process_match_input = λ input base. none;
    parse_match_input = λ match_input. none;
    components_to_string = λ parts. none;
  };
  url = record {
    parse = λ text. none;
    parse_with_base = λ base text. none;
    set_scheme = λ scheme url. (url, false);
    set_username = λ username url. (url, false);
    set_password = λ password url. (url, false);
    set_host = λ host url. (url, false);
    set_port = λ port url. (url, false);
    set_path = λ path url. url;
    set_query = λ query url. url;
    set_fragment = λ fragment url. url;
  };
  getters = record {
    as_str = λ url. url;
    origin = λ url. [];
    scheme = λ url. [];
    username = λ url. [];
    password = λ url. none;
    host_and_port = λ url. [];
    host_str = λ url. none;
    port = λ url. none;
    path = λ url. [];
    query = λ url. none;
    fragment = λ url. none;
    to_json = λ parts. [];
  };
  fill = λ n. [];
  source = λ call size. [];
}

call_of-log : call_of crates missing 1 log (text_arg (bytes "hello") ∷ []) ≡ some log_call
unfolding call_of
call_of-log = refl

-- A URL that does not parse is answered at once.
call_of-url :
    call_native natives
      (Host.stateless
        (native_url crates.getters crates.url (text_arg (bytes "parse")) (text_arg []) missing))
      host
    ≡ returns (ok (string (bytes "null")), host)
unfolding call_native Host.reply_alone native_url openworkers_runtime_nova.Value.to_optional_string
    openworkers_runtime_nova.Value.is_undefined openworkers_runtime_nova.Url.apply text_eq
call_of-url = refl
