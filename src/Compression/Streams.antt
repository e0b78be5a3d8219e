-- ===== src/Compression/Streams.antt =====
-- Streams through the codecs of src/compression.rs: many may be under way at once, and the calls of one come between
-- those of the others.
pub mod Untouched
pub mod Alone
use mathlib.Core.List.{append-nil}
use openworkers_runtime_nova.Prelude.{
  ℕ, ◌+◌, ◌^◌, ◌<◌, ◌≤◌, ◌≡◌, refl, ◌∙◌, ap, inl, inr, Bool, false, Option, none, some, List, [],
  ◌∷◌, ◌++◌, Result, ok, err, arith, Text, ◌==◌, ==-refl, if◌then◌else◌, Option-cases, total, All,
}
use openworkers_runtime_nova.Value.{Value, array_buffer, Float}
use openworkers_runtime_nova.Compression.{
  Codec, Codecs, Flate, insert, new_codec, push, finish, bytes_of, start_codec, push_open,
  push_codec, finish_codec, drop_codec,
}
use openworkers_runtime_nova.Compression.Table.{get-insert}
use openworkers_runtime_nova.Compression.Calls.{
  find, Pushed, PushedInto, push_codec-Pushed, push_open-none, pushed-ok, pushed-err,
  push_codec-out, push_codec-in, find-finish, find-drop, start_codec-none, start_codec-some,
}

-- A call of `native_compression`, its arguments converted.
pub data Call (F : Type 0) : Type 0 where
  starting : Text → Bool → Call F
  pushing : ℕ → Value F → ℕ → ℕ → Call F
  finishing : ℕ → Call F
  dropping : ℕ → Call F

-- The bytes that a value carries.
abbrev pub bytes_in : {F : Type 0} → Value F → Option (List ℕ)
bytes_in (array_buffer out) = some out
bytes_in _ = none

-- An answer without bytes is the end of a stream.
abbrev pub after : Option (List ℕ) → Option (List ℕ) → Option (List ℕ)
after none rest = none
after (some out) none = none
after (some out) (some rest) = some (out ++ rest)

abbrev pub prefixed : List ℕ → Result (List ℕ) (Unit {0}) → Result (List ℕ) (Unit {0})
prefixed out (err e) = err e
prefixed out (ok rest) = ok (out ++ rest)

abbrev pub succeeded : Result (List ℕ) (Unit {0}) → Option (List ℕ)
succeeded (err e) = none
succeeded (ok out) = some out

module _ {F : Type 0} where
  abbrev pub is_for : ℕ → Call F → Bool
  is_for id (starting format decompress) = false
  is_for id (pushing j payload offset len) = j == id
  is_for id (finishing j) = j == id
  is_for id (dropping j) = j == id

  abbrev pub Elsewhere : ℕ → Call F → Type 0
  Elsewhere id call = is_for id call ≡ false

  -- How many codecs a call may start.
  abbrev pub starts : Call F → ℕ
  starts (starting format decompress) = 1
  starts _ = 0

  -- The calls of one stream, which are pushes of these chunks, each a slice of some buffer, and then a finish, with calls
  -- for other codecs anywhere between them.
  pub data Streams (id : ℕ) : List (List ℕ) → List (Call F) → Type 0 where
    pushed :
        (chunk : List ℕ) (chunks : List (List ℕ)) (payload : Value F) (offset len : ℕ)
        (calls : List (Call F))
        → bytes_of payload offset len ≡ some chunk
        → Streams id chunks calls
        → Streams id (chunk ∷ chunks) (pushing id payload offset len ∷ calls)
    finished :
        (calls : List (Call F)) → All (Elsewhere id) calls → Streams id [] (finishing id ∷ calls)
    between :
        (chunks : List (List ℕ)) (call : Call F) (calls : List (Call F))
        → Elsewhere id call
        → Streams id chunks calls
        → Streams id chunks (call ∷ calls)

abbrev pub fed :
    {W : Type 0}
    → Result (List ℕ × Codec W) (Unit {0})
    → (Codec W → Result (List ℕ) (Unit {0}))
    → Result (List ℕ) (Unit {0})
fed (err e) k = err e
fed (ok (out, codec)) k = prefixed out (k codec)

module _ {W : Type 0} (flate : Flate W) where
  -- What a codec makes of chunks on its own: all that it emits, up to and with its end.
  unfoldable pub feed : Codec W → List (List ℕ) → Result (List ℕ) (Unit {0})
  feed codec [] = finish flate codec
  feed codec (chunk ∷ chunks) = fed (push flate codec chunk) (λ next. feed next chunks)

  module _ {F : Type 0} (float : Float F) where
    abbrev pub serve : Call F → Codecs W → Value F × Codecs W
    serve (starting format decompress) c = start_codec flate float format decompress c
    serve (pushing id payload offset len) c = push_codec flate float id payload offset len c
    serve (finishing id) c = finish_codec flate float id c
    serve (dropping id) c = drop_codec flate float id c

    -- What the calls for one number are answered, together.
    unfoldable pub heard : ℕ → List (Call F) → Codecs W → Option (List ℕ)
    heard id [] c = some []
    heard id (call ∷ calls) c =
        let (value, c') = serve call c in
        let rest = heard id calls c' in if is_for id call then after (bytes_in value) rest else rest
