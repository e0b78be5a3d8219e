-- ===== src/Url/Components/Setters.antt =====
-- What a setter of src/url.rs leaves of a URL: what the calls of the crate that it stands for leave.
use openworkers_runtime_nova.Prelude.{◌≡◌, Option, none, some, List, Text}
use openworkers_runtime_nova.Url.Components.Sets.{Call, MeansPort, Means, perform, Refuses}
use openworkers_runtime_nova.Url.{UrlCrate, setter}

module _ {U : Type 0} (crate : UrlCrate U) (refuses : Refuses crate) where
  abbrev PortCalls : Text → U → U → Type 0
  PortCalls value url url' =
      (calls : List Call) × MeansPort value calls × (url' ≡ perform crate calls url)

  module _ (op value : Text) where
    abbrev SetBy : U → U → Type 0
    SetBy url url' = (calls : List Call) × Means op value calls × (url' ≡ perform crate calls url)

    abbrev Left : U → Option U → Type 0
    Left url none = Unit
    Left url (some url') = SetBy url url'

    abbrev Applied : Text → Option U → Type 0
    Applied input none = Unit
    Applied input (some url') = (url : U) × (crate.parse input ≡ some url) × SetBy url url'

    abbrev set_on : Option U → Option U
    set_on parsed = elim parsed [ none ↦ none | some url ↦ setter crate op value url ]
