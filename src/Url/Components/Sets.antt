-- ===== src/Url/Components/Sets.antt =====
-- What the setters of src/url.rs mean: the calls of the crate that each stands for, in their order.
use openworkers_runtime_nova.Prelude.{
  ℕ, ◌≡◌, ◌≢◌, ◌⊎◌, Bool, true, false, Option, none, some, List, [], ◌∷◌, ◌++◌, Text, bytes, All,
  if◌then◌else◌,
}
use openworkers_runtime_nova.Url.{UrlCrate, parse_u16}
use openworkers_runtime_nova.Url.Components.Decimal.{IsPort}

-- A call of the crate that changes a URL.
pub data Call : Type 0 where
  scheme username password host path : Text → Call
  port : Option ℕ → Call
  query fragment : Option Text → Call

abbrev pub Lacks : ℕ → Text → Type 0
Lacks c text = All (λ x. x ≢ c) text

abbrev pub EndsIn : ℕ → Text → Type 0
EndsIn c text = (start : Text) × (text ≡ start ++ (c ∷ []))

-- A port: none for an empty text, no call for one that is not a number of 16 bits.
pub data MeansPort : Text → List Call → Type 0 where
  no_port : MeansPort [] (port none ∷ [])
  numbered :
      (value : Text) (n : ℕ)
      → value ≢ []
      → parse_u16 value ≡ some n
      → IsPort (some n)
      → MeansPort value (port (some n) ∷ [])
  unnumbered : (value : Text) → value ≢ [] → parse_u16 value ≡ none → MeansPort value []

-- An empty text is none.
abbrev pub IsText : Text → Option Text → Type 0
IsText text none = text ≡ []
IsText text (some same) = (text ≢ []) × (same ≡ text)

-- The text after a mark that may stand before it.
abbrev pub Unmarked : ℕ → Text → Text → Type 0
Unmarked mark value text =
    (value ≡ mark ∷ text) ⊎ ((value ≡ text) × ((rest : Text) → value ≢ mark ∷ rest))

-- The calls that a setter stands for, on a value.
pub data Means (op value : Text) : List Call → Type 0 where
  protocol :
      (before after : Text)
      → op ≡ bytes "protocol"
      → value ≡ before ++ after
      → Lacks b':' before
      → (after ≡ []) ⊎ ((rest : Text) × (after ≡ b':' ∷ rest))
      → Means op value (scheme before ∷ [])
  names_user : op ≡ bytes "username" → Means op value (username value ∷ [])
  has_password : op ≡ bytes "password" → Means op value (password value ∷ [])
  -- The last colon is before a port, unless the value is an IPv6 address in brackets.
  host_alone :
      op ≡ bytes "host" → Lacks b':' value ⊎ EndsIn b']' value → Means op value (host value ∷ [])
  host_and_port :
      (name number : Text) (calls : List Call)
      → op ≡ bytes "host"
      → value ≡ name ++ (b':' ∷ number)
      → Lacks b':' number
      → (EndsIn b']' value → ⊥)
      → MeansPort number calls
      → Means op value (host name ∷ calls)
  hostname : op ≡ bytes "hostname" → Lacks b':' value → Means op value (host value ∷ [])
  -- No call, whether a port follows the colon or it is part of an IPv6 address.
  hostname_colon :
      (before after : Text)
      → op ≡ bytes "hostname"
      → value ≡ before ++ (b':' ∷ after)
      → Means op value []
  ported : (calls : List Call) → op ≡ bytes "port" → MeansPort value calls → Means op value calls
  pathname : op ≡ bytes "pathname" → Means op value (path value ∷ [])
  search :
      (text : Text) (given : Option Text)
      → op ≡ bytes "search"
      → Unmarked b'?' value text
      → IsText text given
      → Means op value (query given ∷ [])
  hash :
      (text : Text) (given : Option Text)
      → op ≡ bytes "hash"
      → Unmarked b'#' value text
      → IsText text given
      → Means op value (fragment given ∷ [])

module _ {U : Type 0} (crate : UrlCrate U) where
  -- What a call leaves, and whether it succeeds.
  abbrev pub call : Call → U → U × Bool
  call (scheme text) url = crate.set_scheme text url
  call (username text) url = crate.set_username text url
  call (password text) url = crate.set_password (some text) url
  call (host text) url = crate.set_host (some text) url
  call (port number) url = crate.set_port number url
  call (path text) url = (crate.set_path text url, true)
  call (query text) url = (crate.set_query text url, true)
  call (fragment text) url = (crate.set_fragment text url, true)

  -- The calls in turn, up to the first that is refused, which changes nothing.
  abbrev pub perform : List Call → U → U
  perform [] url = url
  perform (c ∷ cs) url = if (call c url).1 then perform cs (call c url).0 else url

  -- A call of the crate that fails leaves the URL as it was.
  abbrev pub Refuses : Type 0
  Refuses = (c : Call) (url : U) → (call c url).1 ≡ false → (call c url).0 ≡ url
