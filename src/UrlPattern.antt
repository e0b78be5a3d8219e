-- ===== src/UrlPattern.antt =====
-- src/url_pattern.rs: `native_url_pattern` and `answer`. The crates urlpattern and serde_json are parameters: `I` is an
-- input text as parsed, `N` what a pattern is built from, `P` a pattern, `M` a match input and `C` its components.
mod Tests
use openworkers_runtime_nova.Prelude.{
  Option, none, some, Text, bytes, text_eq, returns, ok, if◌then◌else◌,
}
use openworkers_runtime_nova.Value.{string, Arg, Native, given, to_optional_string}

pub record Quirks (I N P M C : Type 0) : Type 0 where
  pub from_str : Text → Option I
  pub process_construct_pattern_input : I → Option Text → Option N
  pub parse_pattern : N → Option P
  pub pattern_to_string : P → Option Text
  -- `none` is an error, and `some none` an input that no pattern could match.
  pub process_match_input : I → Option Text → Option (Option M)
  pub parse_match_input : M → Option C
  pub components_to_string : C → Option Text

infixl 5 ◌>>=◌
abbrev ◌>>=◌ : {A B : Type 0} → Option A → (A → Option B) → Option B
none >>= f = none
some a >>= f = f a

-- `unwrap_or_else(|| "null")`.
unfoldable pub or_null : Option Text → Text
or_null none = bytes "null"
or_null (some text) = text

module _ {I N P M C : Type 0} (quirks : Quirks I N P M C) where
  unfoldable pub parse_answer : I → Option Text → Option Text
  parse_answer input base = do
    init ← quirks.process_construct_pattern_input input base
    pattern ← quirks.parse_pattern init
    quirks.pattern_to_string pattern

  unfoldable pub input_answer : I → Option Text → Option Text
  input_answer input base = do
    found ← quirks.process_match_input input base
    match_input ← found
    components ← quirks.parse_match_input match_input
    quirks.components_to_string components

  unfoldable pub answer : Text → Text → Option Text → Option Text
  unfolding parse_answer input_answer
  answer op input base = do
    input ← quirks.from_str input
    (if text_eq op (bytes "parse")
        then parse_answer input base
        else if text_eq op (bytes "input")
        then input_answer input base
        else none)

  unfoldable pub native_url_pattern : {F : Type 0} → Arg F → Arg F → Arg F → Native F
  unfolding answer or_null
  native_url_pattern op input base = given op.to_string (λ op. given input.to_string (λ input.
      given (to_optional_string base)
        (λ base. returns (ok (string (or_null (answer op input base)))))))
