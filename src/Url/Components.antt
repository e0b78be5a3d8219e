-- ===== src/Url/Components.antt =====
-- src/url.rs: `components`, which prints a URL, and `native_url`. What they read of the `url` crate, and the JSON
-- of serde_json, are parameters.
pub mod Decimal
pub mod Sets
pub mod Setters
use openworkers_runtime_nova.Prelude.{
  ℕ, zero, suc, ◌+◌, ◌/◌, ◌%◌, Option, none, some, List, [], ◌∷◌, ◌++◌, Text, bytes, ltb,
  if◌then◌else◌, returns, ok,
}
use openworkers_runtime_nova.Value.{string, Arg, Native, given, to_optional_string}
use openworkers_runtime_nova.Url.{UrlCrate, or_empty, apply}

pub record Getters (U : Type 0) : Type 0 where
  pub as_str : U → Text
  -- `origin().ascii_serialization()`.
  pub origin : U → Text
  pub scheme : U → Text
  pub username : U → Text
  pub password : U → Option Text
  -- The slice from `BeforeHost` to `AfterPort`.
  pub host_and_port : U → Text
  pub host_str : U → Option Text
  pub port : U → Option ℕ
  pub path : U → Text
  pub query : U → Option Text
  pub fragment : U → Option Text
  -- A JSON object of texts, printed.
  pub to_json : List (Text × Text) → Text

-- `to_string` of a number with at most so many digits.
unfoldable pub decimal : ℕ → ℕ → Text
decimal zero n = []
decimal (suc digits) n =
    let before = decimal digits (n / 10) in
    if ltb n 10 then (b'0' + n) ∷ [] else before ++ ((b'0' + n % 10) ∷ [])

unfoldable pub port_text : Option ℕ → Text
unfolding decimal
port_text none = []
port_text (some port) = decimal 5 port

-- A part after its mark, where there is one and it is not empty.
unfoldable pub marked : ℕ → Option Text → Text
marked mark none = []
marked mark (some []) = []
marked mark (some (c ∷ cs)) = mark ∷ c ∷ cs

module _ {U : Type 0} (getters : Getters U) where
  unfoldable pub components : U → List (Text × Text)
  unfolding port_text marked
  components url =
      (bytes "href", getters.as_str url)
      ∷ (bytes "origin", getters.origin url)
      ∷ (bytes "protocol", getters.scheme url ++ (b':' ∷ []))
      ∷ (bytes "username", getters.username url)
      ∷ (bytes "password", or_empty (getters.password url))
      ∷ (bytes "host", getters.host_and_port url)
      ∷ (bytes "hostname", or_empty (getters.host_str url))
      ∷ (bytes "port", port_text (getters.port url))
      ∷ (bytes "pathname", getters.path url)
      ∷ (bytes "search", marked b'?' (getters.query url))
      ∷ (bytes "hash", marked b'#' (getters.fragment url))
      ∷ []

  unfoldable pub answer_text : Option U → Text
  unfolding components
  answer_text none = bytes "null"
  answer_text (some url) = getters.to_json (components url)

  unfoldable pub native_url : {F : Type 0} → UrlCrate U → Arg F → Arg F → Arg F → Native F
  unfolding answer_text
  native_url crate op input value = given op.to_string (λ op. given input.to_string (λ input.
      given (to_optional_string value)
        (λ value. returns (ok (string (answer_text (apply crate op input value)))))))
