-- ===== src/Globals/Calls.antt =====
-- A call of a global by the guest: the function that src/worker.rs put under its name, on the arguments that it reads by
-- their positions.
use openworkers_runtime_nova.Prelude.{ℕ, zero, suc, Option, none, some, List, [], ◌∷◌}
use openworkers_runtime_nova.Value.{Arg, Native}
use openworkers_runtime_nova.Crypto.{Crypto}
use openworkers_runtime_nova.Crypto.Natives.{
  native_random, native_digest, native_hmac, native_aes_gcm,
}
use openworkers_runtime_nova.Crypto.Ecdsa.{Curve, Source, native_ecdsa}
use openworkers_runtime_nova.Encoding.{Encodings, native_encoding}
use openworkers_runtime_nova.UrlPattern.{Quirks, native_url_pattern}
use openworkers_runtime_nova.Url.{UrlCrate}
use openworkers_runtime_nova.Url.Components.{Getters, native_url}
use openworkers_runtime_nova.Host
use openworkers_runtime_nova.Host.{Host, Call, stateless, Natives, call_native}
use openworkers_runtime_nova.Engine.Convert.{
  GuestArg, HostCall, responding, logging, asking, starting, clearing, compressing,
}
use openworkers_runtime_nova.Globals.{
  Behaviour, respond, log, url, random, digest, binding, hmac, aes_gcm, timer_start, timer_clear,
  ecdsa, url_pattern, compression, encoding, performance_now,
}

-- The crates under the functions that keep no state, and what the random source gives this call.
pub record Crates (K V S K' V' S' E I N P M C U : Type 0) : Type 0 where
  pub crypto : Crypto
  pub p256 : Curve K V S
  pub p384 : Curve K' V' S'
  pub encodings : Encodings E
  pub quirks : Quirks I N P M C
  pub url : UrlCrate U
  pub getters : Getters U
  pub fill : ℕ → List ℕ
  pub source : Source

-- `args.get(at)`, which is `undefined` past the end.
unfoldable pub arg_at : {A : Type 0} → A → ℕ → List A → A
arg_at missing at [] = missing
arg_at missing zero (arg ∷ args) = arg
arg_at missing (suc at) (arg ∷ args) = arg_at missing at args

abbrev alone : {F : Type 0} → Option (Native F) → Option (Call F)
alone none = none
alone (some reply) = some (stateless reply)

module _ {F K V S K' V' S' E I N P M C U : Type 0} (crates : Crates K V S K' V' S' E I N P M C U)
    (missing : Arg F) (fuel : ℕ) where
  -- The call, with what the conversions of its arguments give: the guest code that they run comes before it. `none` where
  -- the fuel of `ecdsa` runs out.
  unfoldable pub call_of : Behaviour → List (Arg F) → Option (Call F)
  unfolding arg_at
  call_of behaviour args =
      let at : ℕ → Arg F = λ i. arg_at missing i args in
      elim behaviour [
        | respond ↦ some (Host.respond (at 0) (at 1))
        | log ↦ some (Host.log (at 0) (at 1))
        | url ↦ some (stateless (native_url crates.getters crates.url (at 0) (at 1) (at 2)))
        | random ↦ some (stateless (native_random crates.fill (at 0)))
        | digest ↦ some (stateless (native_digest crates.crypto (at 0) (at 1)))
        | binding ↦ some (Host.binding (at 0) (at 1) (at 2) (at 4))
        | hmac ↦ some (stateless (native_hmac crates.crypto (at 0) (at 1) (at 2) (at 3)))
        | aes_gcm ↦ some (stateless (native_aes_gcm crates.crypto (at 0) (at 1) (at 2) (at 3)))
        | timer_start ↦ some (Host.timer_start (at 0) (at 1) (at 2))
        | timer_clear ↦ some (Host.timer_clear (at 0))
        | ecdsa ↦ alone (
            native_ecdsa crates.p256 crates.p384 crates.source fuel (at 0) (at 1) (at 2) (at 3)
              (at 4))
        | url_pattern ↦ some (stateless (native_url_pattern crates.quirks (at 0) (at 1) (at 2)))
        | compression ↦ some (Host.compression (at 0) (at 1) (at 2) (at 3) (at 4))
        | encoding ↦
            some (stateless (native_encoding crates.encodings (at 0) (at 1) (at 2) (at 3) (at 4)))
        | performance_now ↦ some Host.performance_now
      ]

-- A call of a global that reaches the host, with the guest code that the conversions of its arguments run. The arguments are
-- read as in `call_of`.
unfoldable pub host_call_of :
    {J F : Type 0} → GuestArg J F → Behaviour → List (GuestArg J F) → Option (HostCall J F)
unfolding arg_at
host_call_of {J} {F} missing behaviour args =
    let at : ℕ → GuestArg J F = λ i. arg_at missing i args in
    elim behaviour [
      | respond ↦ some (responding (at 0) (at 1))
      | log ↦ some (logging (at 0) (at 1))
      | binding ↦ some (asking (at 0) (at 1) (at 2) (at 4))
      | timer_start ↦ some (starting (at 0) (at 1) (at 2))
      | timer_clear ↦ some (clearing (at 0))
      | compression ↦ some (compressing (at 0) (at 1) (at 2) (at 3) (at 4))
      | url ↦ none
      | random ↦ none
      | digest ↦ none
      | hmac ↦ none
      | aes_gcm ↦ none
      | ecdsa ↦ none
      | url_pattern ↦ none
      | encoding ↦ none
      | performance_now ↦ none
    ]
