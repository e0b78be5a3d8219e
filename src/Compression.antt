-- ===== src/Compression.antt =====
-- src/compression.rs: the codecs that a guest holds by number. The flate2 writers are a parameter.
pub mod Table
pub mod Calls
pub mod Pushes
pub mod Streams
pub mod RoundTrip
mod Tests
use openworkers_runtime_nova.Prelude.{
  ℕ, ◌+◌, ◌%◌, ◌^◌, Bool, true, false, Option, none, some, List, [], ◌∷◌, Result, ok, err, Text,
  bytes, text_eq, leb, ◌==◌, ◌-◌, if◌then◌else◌, length,
}
use openworkers_runtime_nova.Prelude.Slices.{take, drop}
use openworkers_runtime_nova.Value.{
  Value, undefined, null, number, array_buffer, Arg, Float, JsResult, is_true,
}

-- The six writers: the format, and the direction.
pub data Kind : Type 0 where
  zlib_encoder deflate_encoder gz_encoder zlib_decoder deflate_decoder gz_decoder : Kind

-- flate2: a new writer over an empty vector, `write_all`, what has been written taken out of it, `finish`.
-- An `io::Error` is dropped by the callers.
pub record Flate (W : Type 0) : Type 0 where
  pub new : Kind → W
  pub write_all : Kind → W → List ℕ → Result W (Unit {0})
  pub take_out : Kind → W → List ℕ × W
  pub finish : Kind → W → Result (List ℕ) (Unit {0})

pub data Codec (W : Type 0) : Type 0 where
  zlib_encode raw_encode gzip_encode zlib_decode raw_decode gzip_decode : W → Codec W

-- The codecs that one worker has open, by number.
pub record Codecs (W : Type 0) : Type 0 where
  pub open_codecs : List (ℕ × Codec W)
  pub next : ℕ

module _ {V : Type 0} where
  -- `HashMap::get`, `remove` and `insert`.
  unfoldable pub get : ℕ → List (ℕ × V) → Option V
  get id [] = none
  get id ((k, v) ∷ m) = if k == id then some v else get id m

  unfoldable pub remove : ℕ → List (ℕ × V) → List (ℕ × V)
  remove id [] = []
  remove id ((k, v) ∷ m) = let rest = remove id m in if k == id then rest else (k, v) ∷ rest

  unfoldable pub insert : ℕ → V → List (ℕ × V) → List (ℕ × V)
  insert id v m = (id, v) ∷ remove id m

-- `bytes_of`: the slice of a buffer, if the value is one and the range is inside it. An offset and a length are
-- of 32 bits, so their sum does not overflow a `usize`.
unfoldable pub bytes_of : {F : Type 0} → Value F → ℕ → ℕ → Option (List ℕ)
bytes_of (array_buffer buffer) offset len =
    if leb (offset + len) (length buffer) then some (take len (drop offset buffer)) else none
bytes_of _ offset len = none

module _ {W : Type 0} (flate : Flate W) where
  -- `Codec::new`.
  unfoldable pub new_codec : Text → Bool → Option (Codec W)
  new_codec format false =
      if text_eq format (bytes "deflate")
      then some (zlib_encode (flate.new zlib_encoder))
      else if text_eq format (bytes "deflate-raw")
      then some (raw_encode (flate.new deflate_encoder))
      else if text_eq format (bytes "gzip")
      then some (gzip_encode (flate.new gz_encoder))
      else none
  new_codec format true =
      if text_eq format (bytes "deflate")
      then some (zlib_decode (flate.new zlib_decoder))
      else if text_eq format (bytes "deflate-raw")
      then some (raw_decode (flate.new deflate_decoder))
      else if text_eq format (bytes "gzip")
      then some (gzip_decode (flate.new gz_decoder))
      else none

  -- The macro `push_into!`: write, then take what came out.
  unfoldable pub push_into :
      Kind → (W → Codec W) → W → List ℕ → Result (List ℕ × Codec W) (Unit {0})
  push_into kind wrap w input = elim (flate.write_all kind w input) [
    | err e ↦ err e
    | ok w' ↦ let (out, rest) = flate.take_out kind w' in ok (out, wrap rest)
  ]

  unfoldable pub push : Codec W → List ℕ → Result (List ℕ × Codec W) (Unit {0})
  unfolding push_into
  push (zlib_encode w) = push_into zlib_encoder zlib_encode w
  push (raw_encode w) = push_into deflate_encoder raw_encode w
  push (gzip_encode w) = push_into gz_encoder gzip_encode w
  push (zlib_decode w) = push_into zlib_decoder zlib_decode w
  push (raw_decode w) = push_into deflate_decoder raw_decode w
  push (gzip_decode w) = push_into gz_decoder gzip_decode w

  unfoldable pub finish : Codec W → Result (List ℕ) (Unit {0})
  finish (zlib_encode w) = flate.finish zlib_encoder w
  finish (raw_encode w) = flate.finish deflate_encoder w
  finish (gzip_encode w) = flate.finish gz_encoder w
  finish (zlib_decode w) = flate.finish zlib_decoder w
  finish (raw_decode w) = flate.finish deflate_decoder w
  finish (gzip_decode w) = flate.finish gz_decoder w

  module _ {F : Type 0} (float : Float F) where
    -- `buffer_of`: the engine's allocation is taken to succeed.
    unfoldable pub start_codec : Text → Bool → Codecs W → Value F × Codecs W
    start_codec format decompress codecs = elim (new_codec format decompress) [
      | none ↦ (null, codecs)
      | some codec ↦
          let id = (codecs.next + 1) % 2 ^ 32 in
          (
            number (float.from_u32 id),
            record { open_codecs = insert id codec codecs.open_codecs; next = id },
          )
    ]

    unfoldable pub push_open : ℕ → List ℕ → Codecs W → Value F × Codecs W
    push_open id input codecs = elim (get id codecs.open_codecs) [
      | none ↦ (null, codecs)
      | some codec ↦ elim (push codec input) [
        | ok (out, codec') ↦
            (array_buffer out, record codecs { open_codecs = insert id codec' codecs.open_codecs })
        | err e ↦ (null, record codecs { open_codecs = remove id codecs.open_codecs })
      ]
    ]

    unfoldable pub push_codec : ℕ → Value F → ℕ → ℕ → Codecs W → Value F × Codecs W
    unfolding push_open
    push_codec id payload offset len codecs = elim (bytes_of payload offset len) [
      | none ↦ (null, codecs)
      | some input ↦ push_open id input codecs
    ]

    unfoldable pub finish_codec : ℕ → Codecs W → Value F × Codecs W
    finish_codec id codecs = (
      elim (get id codecs.open_codecs) [
        | none ↦ null
        | some codec ↦ elim (finish codec) [ ok out ↦ array_buffer out | err e ↦ null ]
      ],
      record codecs { open_codecs = remove id codecs.open_codecs },
    )

    unfoldable pub drop_codec : ℕ → Codecs W → Value F × Codecs W
    drop_codec id codecs = (undefined, record codecs { open_codecs = remove id codecs.open_codecs })

    abbrev convert :
        {A : Type 0}
        → JsResult F A
        → Codecs W
        → (A → JsResult F (Value F) × Codecs W)
        → JsResult F (Value F) × Codecs W
    convert (ok a) codecs k = k a
    convert (err thrown) codecs k = (err thrown, codecs)

    abbrev answered : Value F × Codecs W → JsResult F (Value F) × Codecs W
    answered (value, codecs) = (ok value, codecs)

    -- `native_compression` past the conversion of its first argument.
    unfoldable pub compression_op :
        Text → Arg F → Arg F → Arg F → Arg F → Codecs W → JsResult F (Value F) × Codecs W
    compression_op op a payload offset len codecs =
        if text_eq op (bytes "start")
        then convert a.to_string codecs
            (λ format. answered (start_codec format (is_true payload.value) codecs))
        else if text_eq op (bytes "push")
        then convert a.to_uint32 codecs (λ id. convert offset.to_uint32 codecs (λ from.
          convert len.to_uint32 codecs
            (λ count. answered (push_codec id payload.value from count codecs))))
        else if text_eq op (bytes "finish")
        then convert a.to_uint32 codecs (λ id. answered (finish_codec id codecs))
        else if text_eq op (bytes "drop")
        then convert a.to_uint32 codecs (λ id. answered (drop_codec id codecs))
        else (ok null, codecs)

    unfoldable pub native_compression :
        Arg F → Arg F → Arg F → Arg F → Arg F → Codecs W → JsResult F (Value F) × Codecs W
    native_compression op a payload offset len codecs =
        convert op.to_string codecs (λ name. compression_op name a payload offset len codecs)
