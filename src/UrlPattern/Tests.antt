-- ===== src/UrlPattern/Tests.antt =====
-- Tests of src/url_pattern.rs over a small crate.
use openworkers_runtime_nova.Prelude.{
  ℕ, ◌≡◌, refl, Option, none, some, [], ◌∷◌, ok, err, returns, bytes, Text, text_eq, if◌then◌else◌,
}
use openworkers_runtime_nova.Value.{Arg, undefined, null, string}
use openworkers_runtime_nova.Examples.{text_arg}
use openworkers_runtime_nova.UrlPattern.{Quirks, native_url_pattern}

abbrev nonempty : Text → Option Text
nonempty [] = none
nonempty (c ∷ cs) = some (c ∷ cs)

-- Everything is text; an empty input does not read, and the input "x" matches no pattern.
abbrev matched : Text → Option Text → Option (Option Text)
matched input base = if text_eq input (bytes "x") then some none else some (some input)

abbrev quirks : Quirks Text Text Text Text Text
quirks = record {
  from_str = nonempty;
  process_construct_pattern_input = λ input base. base;
  parse_pattern = some;
  pattern_to_string = some;
  process_match_input = matched;
  parse_match_input = some;
  components_to_string = some;
}

abbrev left_out : Arg ℕ
left_out = record {
  value = undefined;
  to_string = ok (bytes "undefined");
  to_number = ok 0;
  to_uint32 = ok 0;
  to_int32 = ok 0;
}

-- An argument whose conversion throws.
abbrev throwing : Arg ℕ
throwing = record {
  value = null;
  to_string = err (string (bytes "no"));
  to_number = err null;
  to_uint32 = err null;
  to_int32 = err null;
}

parse-base :
    native_url_pattern quirks
      (text_arg (bytes "parse"))
      (text_arg (bytes "a"))
      (text_arg (bytes "b"))
    ≡ returns (ok (string (bytes "b")))
unfolding native_url_pattern openworkers_runtime_nova.Value.to_optional_string
    openworkers_runtime_nova.Value.is_undefined openworkers_runtime_nova.Prelude.text_eq
parse-base = refl

parse_no_base :
    native_url_pattern quirks (text_arg (bytes "parse")) (text_arg (bytes "a")) left_out
    ≡ returns (ok (string (bytes "null")))
unfolding native_url_pattern openworkers_runtime_nova.Value.to_optional_string
    openworkers_runtime_nova.Value.is_undefined openworkers_runtime_nova.Prelude.text_eq
parse_no_base = refl

input_unmatched :
    native_url_pattern quirks (text_arg (bytes "input")) (text_arg (bytes "x")) left_out
    ≡ returns (ok (string (bytes "null")))
unfolding native_url_pattern openworkers_runtime_nova.Value.to_optional_string
    openworkers_runtime_nova.Value.is_undefined text_eq
input_unmatched = refl

unknown_op :
    native_url_pattern quirks (text_arg (bytes "test")) (text_arg (bytes "a")) left_out
    ≡ returns (ok (string (bytes "null")))
unfolding native_url_pattern openworkers_runtime_nova.Value.to_optional_string
    openworkers_runtime_nova.Value.is_undefined openworkers_runtime_nova.Prelude.text_eq
unknown_op = refl

throws_first :
    native_url_pattern quirks (text_arg (bytes "parse")) throwing left_out
    ≡ returns (err (string (bytes "no")))
unfolding native_url_pattern
throws_first = refl
