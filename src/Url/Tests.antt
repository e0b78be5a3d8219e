-- ===== src/Url/Tests.antt =====
-- Tests of src/url.rs over a small crate, and examples of the theorems on its setters.
use openworkers_runtime_nova.Prelude.{
  ℕ, ◌≡◌, ◌≢◌, refl, Bool, true, false, Option, none, some, List, [], ◌∷◌, ◌++◌, ok, returns, Text,
  bytes, text_eq, arith, All,
}
use openworkers_runtime_nova.Url.{
  UrlCrate, parse_digits, parse_u16, set_host, set_hostname, set_port, apply, ends_with,
}
use openworkers_runtime_nova.Value.{Arg, string}
use openworkers_runtime_nova.Examples.{text_arg}
use openworkers_runtime_nova.Url.Components.{Getters, port_text, native_url}
use openworkers_runtime_nova.Url.Components.Decimal.{set_port-port_text}
use openworkers_runtime_nova.Url.Components.Sets.{
  scheme, username, password, port, path, query, fragment,
}
use openworkers_runtime_nova.Url.Port.{number}
use openworkers_runtime_nova.Url.Host.{set_host-append}

-- A URL that is a host and a port. An empty host is refused.
abbrev Site : Type 0
Site = Text × Option ℕ

abbrev named : Option Text → Site → Site × Bool
named none url = (url, false)
named (some []) url = (url, false)
named (some (c ∷ cs)) (old, number) = ((c ∷ cs, number), true)

abbrev crate : UrlCrate Site
crate = record {
  parse = λ text. some (text, none);
  parse_with_base = λ base text. some (text, base.1);
  set_scheme = λ text url. (url, true);
  set_username = λ text url. (url, true);
  set_password = λ text url. (url, true);
  set_host = named;
  set_port = λ number url. ((url.0, number), true);
  set_path = λ text url. url;
  set_query = λ text url. url;
  set_fragment = λ text url. url;
}

abbrev site : Site
site = (bytes "a", some 1)

parse_u16-plus : parse_u16 (bytes "+80") ≡ some 80
unfolding parse_u16 openworkers_runtime_nova.Url.decimal_digit
parse_u16-plus = refl

parse_u16_big : parse_u16 (bytes "65536") ≡ none
unfolding parse_u16 openworkers_runtime_nova.Url.decimal_digit
parse_u16_big = refl

apply-port : apply crate (bytes "port") (bytes "a") (some (bytes "80")) ≡ some (bytes "a", some 80)
unfolding apply text_eq parse_u16 openworkers_runtime_nova.Url.decimal_digit
apply-port = refl

-- The parts as one text.
abbrev concat : List (Text × Text) → Text
concat [] = []
concat ((name, text) ∷ parts) = name ++ (text ++ concat parts)

abbrev IsColonFree : Text → Type 0
IsColonFree text = All (λ x. x ≢ b':') text

plain : IsColonFree (bytes "80")
plain = (λ e. absurd (omega arith), (λ e. absurd (omega arith), tt))

bare : ends_with b']' (bytes ":80") ≡ false
unfolding ends_with
bare = refl

set_host-append_example :
    set_host crate (bytes "b:80") site ≡ set_port crate (bytes "80") (bytes "b", some 1)
set_host-append_example = set_host-append crate (bytes "b") (bytes "80") site plain bare

abbrev getters : Getters Site
getters = record {
  as_str = λ url. url.0;
  origin = λ url. bytes "null";
  scheme = λ url. bytes "a";
  username = λ url. [];
  password = λ url. none;
  host_and_port = λ url. url.0;
  host_str = λ url. some url.0;
  port = λ url. url.1;
  path = λ url. bytes "/";
  query = λ url. some [];
  fragment = λ url. some (bytes "f");
  to_json = λ parts. concat parts;
}

abbrev number_text : Arg ℕ
number_text = text_arg (bytes "80")

-- A port that is too large is refused, and the URL comes back as it was.
native_url-refused :
    native_url getters crate
      (text_arg (bytes "port"))
      (text_arg (bytes "x"))
      (text_arg (bytes "65536"))
    ≡ returns (
        ok (
          string (
            bytes
              "hrefxoriginnullprotocola:usernamepasswordhostxhostnamexportpathname/searchhash#f")))
unfolding native_url openworkers_runtime_nova.Value.to_optional_string
    openworkers_runtime_nova.Value.is_undefined apply text_eq parse_u16
    openworkers_runtime_nova.Url.decimal_digit
native_url-refused = refl

native_url_unknown :
    native_url getters crate (text_arg (bytes "query")) (text_arg (bytes "x")) number_text
    ≡ returns (ok (string (bytes "null")))
unfolding native_url openworkers_runtime_nova.Value.to_optional_string
    openworkers_runtime_nova.Value.is_undefined apply text_eq
native_url_unknown = refl

set_port-port_text_example :
    set_port crate (port_text (some 8_080)) site ≡ (crate.set_port (some 8_080) site).0
set_port-port_text_example = set_port-port_text crate (some 8_080) site (omega arith)
