-- ===== src/Url.antt =====
-- src/url.rs: `apply` and the setters. The `url` crate is a parameter; a setter of it answers the URL that it
-- leaves, and whether it succeeded. A text is its bytes.
pub mod Port
pub mod Host
pub mod Texts
pub mod Components
mod Tests
use openworkers_runtime_nova.Prelude.{
  ℕ, ◌+◌, ◌-◌, ◌*◌, Bool, true, false, not, ◌&&◌, Option, none, some, List, [], ◌∷◌, Text, bytes,
  text_eq, ltb, leb, ◌==◌, if◌then◌else◌,
}

pub record UrlCrate (U : Type 0) : Type 0 where
  pub parse : Text → Option U
  pub parse_with_base : U → Text → Option U
  pub set_scheme : Text → U → U × Bool
  pub set_username : Text → U → U × Bool
  pub set_password : Option Text → U → U × Bool
  pub set_host : Option Text → U → U × Bool
  pub set_port : Option ℕ → U → U × Bool
  pub set_path : Text → U → U
  pub set_query : Option Text → U → U
  pub set_fragment : Option Text → U → U

unfoldable pub contains : ℕ → Text → Bool
contains c [] = false
contains c (x ∷ xs) = if x == c then true else contains c xs

-- `value.split(c).next()`.
unfoldable pub up_to : ℕ → Text → Text
up_to c [] = []
up_to c (x ∷ xs) = if x == c then [] else x ∷ up_to c xs

-- `rfind(c)`, as the texts before and after the last `c`.
unfoldable pub rsplit : ℕ → Text → Option (Text × Text)
rsplit c [] = none
rsplit c (x ∷ xs) = elim (rsplit c xs) [
  | some (before, after) ↦ some (x ∷ before, after)
  | none ↦ if x == c then some ([], xs) else none
]

unfoldable pub ends_with : ℕ → Text → Bool
ends_with c [] = false
ends_with c (x ∷ []) = x == c
ends_with c (x ∷ y ∷ ys) = ends_with c (y ∷ ys)

-- `value.strip_prefix(c).unwrap_or(value)`.
unfoldable pub strip : ℕ → Text → Text
strip c [] = []
strip c (x ∷ xs) = if x == c then xs else x ∷ xs

unfoldable pub non_empty : Text → Option Text
non_empty [] = none
non_empty (x ∷ xs) = some (x ∷ xs)

unfoldable pub decimal_digit : ℕ → Option ℕ
decimal_digit c = if leb b'0' c && leb c b'9' then some (c - b'0') else none

-- The digits of a `u16`, with the check for overflow at each of them.
unfoldable pub parse_digits : ℕ → Text → Option ℕ
parse_digits acc [] = some acc
parse_digits acc (c ∷ cs) = elim (decimal_digit c) [
  | none ↦ none
  | some d ↦ if ltb (acc * 10 + d) 65_536 then parse_digits (acc * 10 + d) cs else none
]

-- `value.parse::<u16>().ok()`: a plus sign may stand before the digits, of which there is one at least.
unfoldable pub parse_u16 : Text → Option ℕ
unfolding parse_digits
parse_u16 [] = none
parse_u16 (c ∷ []) = parse_digits 0 (c ∷ [])
parse_u16 (c ∷ d ∷ ds) = if c == b'+' then parse_digits 0 (d ∷ ds) else parse_digits 0 (c ∷ d ∷ ds)

-- The host and the port that `set_host` tells apart.
unfoldable pub split_host : Text → Text × Option Text
split_host value = elim (rsplit b':' value) [
  | none ↦ (value, none)
  | some (host, port) ↦ if ends_with b']' value then (value, none) else (host, some port)
]

abbrev pub or_empty : Option Text → Text
or_empty none = []
or_empty (some value) = value

module _ {U : Type 0} (crate : UrlCrate U) where
  unfoldable pub set_parsed : Option ℕ → U → U
  set_parsed none url = url
  set_parsed (some port) url = (crate.set_port (some port) url).0

  unfoldable pub set_port : Text → U → U
  unfolding set_parsed
  set_port [] url = (crate.set_port none url).0
  set_port (c ∷ cs) url = set_parsed (parse_u16 (c ∷ cs)) url

  unfoldable pub set_optional_port : Option Text → U → U
  unfolding set_port
  set_optional_port none url = url
  set_optional_port (some port) url = set_port port url

  unfoldable pub set_split : Text × Option Text → U → U
  unfolding set_optional_port
  set_split (host, port) url =
      let (url', good) = crate.set_host (some host) url in
      if good then set_optional_port port url' else url'

  unfoldable pub set_host : Text → U → U
  unfolding set_split
  set_host value url = set_split (split_host value) url

  unfoldable pub set_hostname : Text → U → U
  set_hostname value url = if contains b':' value then url else (crate.set_host (some value) url).0

  -- The `match` over the setters.
  unfoldable pub setter : Text → Text → U → Option U
  unfolding set_host set_hostname
  setter op value url =
      if text_eq op (bytes "protocol")
      then some (crate.set_scheme (up_to b':' value) url).0
      else if text_eq op (bytes "username")
      then some (crate.set_username value url).0
      else if text_eq op (bytes "password")
      then some (crate.set_password (some value) url).0
      else if text_eq op (bytes "host")
      then some (set_host value url)
      else if text_eq op (bytes "hostname")
      then some (set_hostname value url)
      else if text_eq op (bytes "port")
      then some (set_port value url)
      else if text_eq op (bytes "pathname")
      then some (crate.set_path value url)
      else if text_eq op (bytes "search")
      then some (crate.set_query (non_empty (strip b'?' value)) url)
      else if text_eq op (bytes "hash")
      then some (crate.set_fragment (non_empty (strip b'#' value)) url)
      else none

  unfoldable pub parse_input : Text → Option Text → Option U
  parse_input input none = crate.parse input
  parse_input input (some base) = elim (crate.parse base) [
    | none ↦ none
    | some url ↦ crate.parse_with_base url input
  ]

  unfoldable pub apply : Text → Text → Option Text → Option U
  unfolding parse_input setter
  apply op input value =
      if text_eq op (bytes "parse") then parse_input input value else elim (crate.parse input) [
        | none ↦ none
        | some url ↦
            if text_eq op (bytes "href")
            then crate.parse (or_empty value)
            else setter op (or_empty value) url
      ]
