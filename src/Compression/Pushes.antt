-- ===== src/Compression/Pushes.antt =====
-- What `push` of `native_compression` in src/compression.rs does, told by the bytes of the buffer and by the writers of flate2.
use openworkers_runtime_nova.Prelude.{
  ℕ, zero, suc, ◌+◌, ◌≤◌, ◌≡◌, refl, ap, ◌∙◌, ◌⊎◌, inl, inr, Option, none, some, List, [], ◌∷◌,
  ◌++◌, Result, ok, err, arith, ◌==◌, leb, if◌then◌else◌, length, length-append, Bool-cases,
}
use openworkers_runtime_nova.Prelude.Slices.{take, drop}
use openworkers_runtime_nova.Value.{
  Value, undefined, null, boolean, number, string, array_buffer, object, Float,
}
use openworkers_runtime_nova.Compression.{
  Kind, zlib_encoder, deflate_encoder, gz_encoder, zlib_decoder, deflate_decoder, gz_decoder, Codec,
  zlib_encode, raw_encode, gzip_encode, zlib_decode, raw_decode, gzip_decode, Codecs, Flate, push,
  push_into, bytes_of, push_codec,
}
use openworkers_runtime_nova.Compression.Calls.{find, Pushed, PushedInto, push_codec-Pushed}

-- A list cut after so many elements.
abbrev Cut : ℕ → List ℕ → Type 0
Cut n xs =
    (xs ≡ take n xs ++ drop n xs) × (length (take n xs) ≡ n) × (length xs ≡ n + length (drop n xs))

cut : (n : ℕ) (xs : List ℕ) → n ≤ length xs → Cut n xs
cut zero xs le = (refl, refl, omega arith)
cut (suc n) [] le = absurd (omega arith)
cut (suc n) (x ∷ xs) le =
    let (whole, long, rest) = cut n xs (omega arith) in
    (ap (λ t. x ∷ t) whole, ap suc long, omega (arith, rest))

-- The bytes of a buffer from an offset, of a length.
abbrev pub IsSlice : {F : Type 0} → Value F → ℕ → ℕ → List ℕ → Type 0
IsSlice payload offset len input =
    (before : List ℕ) × (after : List ℕ) × (payload ≡ array_buffer (before ++ (input ++ after)))
    × (length before ≡ offset)
    × (length input ≡ len)

abbrev Sliced : {F : Type 0} → Value F → ℕ → ℕ → Option (List ℕ) → Type 0
Sliced payload offset len none = (input : List ℕ) → IsSlice payload offset len input → ⊥
Sliced payload offset len (some input) = IsSlice payload offset len input

bytes_in : {F : Type 0} → Value F → List ℕ
bytes_in (array_buffer buffer) = buffer
bytes_in _ = []

IsSlice-length :
    {F : Type 0} (buffer input : List ℕ) (offset len : ℕ)
    → IsSlice {F = F} (array_buffer buffer) offset len input
    → offset + len ≤ length buffer
unfolding bytes_in
IsSlice-length buffer input offset len (before, after, same, start, long) =
    let whole : length buffer ≡ length (before ++ (input ++ after)) =
      ap (λ v. length (bytes_in v)) same in
    let outer = length-append before (input ++ after) in
    let inner = length-append input after in omega (arith, whole, outer, inner, start, long)

IsSlice-cut :
    {F : Type 0} (buffer : List ℕ) (offset len : ℕ)
    → offset + len ≤ length buffer
    → IsSlice {F = F} (array_buffer buffer) offset len (take len (drop offset buffer))
IsSlice-cut buffer offset len le =
    let (whole, start, rest) = cut offset buffer (omega arith) in
    let (whole', long, rest') = cut len (drop offset buffer) (omega (arith, rest, le)) in
    (
      take offset buffer,
      drop len (drop offset buffer),
      ap array_buffer (whole ∙ ap (λ t. take offset buffer ++ t) whole'),
      start,
      long,
    )

bytes_of-Sliced :
    {F : Type 0} (payload : Value F) (offset len : ℕ)
    → Sliced payload offset len (bytes_of payload offset len)
unfolding bytes_of
bytes_of-Sliced undefined offset len = λ input (before, after, same, start, long). cc
bytes_of-Sliced null offset len = λ input (before, after, same, start, long). cc
bytes_of-Sliced (boolean b) offset len = λ input (before, after, same, start, long). cc
bytes_of-Sliced (number x) offset len = λ input (before, after, same, start, long). cc
bytes_of-Sliced (string text) offset len = λ input (before, after, same, start, long). cc
bytes_of-Sliced (object id) offset len = λ input (before, after, same, start, long). cc
bytes_of-Sliced (array_buffer buffer) offset len =
    elim (Bool-cases (leb (offset + len) (length buffer))) [
      | inl e ↦ rw e (IsSlice-cut buffer offset len (ground arith))
      | inr e ↦
          rw e
            (λ input slice. let le = IsSlice-length buffer input offset len slice in ground arith)
    ]

-- The codec of a writer.
abbrev pub codec_of : {W : Type 0} → Kind → W → Codec W
codec_of zlib_encoder w = zlib_encode w
codec_of deflate_encoder w = raw_encode w
codec_of gz_encoder w = gzip_encode w
codec_of zlib_decoder w = zlib_decode w
codec_of deflate_decoder w = raw_decode w
codec_of gz_decoder w = gzip_decode w

module _ {W F : Type 0} (flate : Flate W) (float : Float F) where
  -- The writer takes the input, and what it has written by then is taken out of it and answered; or it fails, and its
  -- codec is released.
  abbrev pub Written : ℕ → Kind → W → List ℕ → Codecs W → Value F × Codecs W → Type 0
  Written id kind w input c r =
      ((w' : W) × (flate.write_all kind w input ≡ ok w')
        × (r.0 ≡ array_buffer (flate.take_out kind w').0)
        × ((j : ℕ)
            → find j r.1
              ≡ (if id == j then some (codec_of kind (flate.take_out kind w').1) else find j c)))
      ⊎ ((flate.write_all kind w input ≡ err tt)
          × (r.0 ≡ null)
          × ((j : ℕ) → find j r.1 ≡ (if id == j then none else find j c)))

  -- What a push may do.
  abbrev pub PushOf : ℕ → Value F → ℕ → ℕ → Codecs W → Value F × Codecs W → Type 0
  PushOf id payload offset len c r =
      ((((input : List ℕ) → IsSlice payload offset len input → ⊥) ⊎ (find id c ≡ none))
        × (r.0 ≡ null)
        × (r.1 ≡ c))
      ⊎ ((input : List ℕ) × (kind : Kind) × (w : W) × IsSlice payload offset len input
          × (find id c ≡ some (codec_of kind w))
          × Written id kind w input c r)

  abbrev Wrote : Kind → W → List ℕ → Result (List ℕ × Codec W) (Unit {0}) → Type 0
  Wrote kind w input (ok (out, codec)) =
      (w' : W) × (flate.write_all kind w input ≡ ok w')
      × (out ≡ (flate.take_out kind w').0)
      × (codec ≡ codec_of kind (flate.take_out kind w').1)
  Wrote kind w input (err e) = flate.write_all kind w input ≡ err tt

  push_into-Wrote :
      (kind : Kind) (w : W) (input : List ℕ) (o : Result W (Unit {0}))
      → flate.write_all kind w input ≡ o
      → Wrote kind w input (push_into flate kind (codec_of kind) w input)
  unfolding push_into
  push_into-Wrote kind w input (ok w') e = rw (e, push_into) (w', e, refl, refl)
  push_into-Wrote kind w input (err tt) e = rw (e, push_into) e

  abbrev PushWrote : Codec W → List ℕ → Type 0
  PushWrote codec input =
      (kind : Kind) × (w : W) × (codec ≡ codec_of kind w)
      × Wrote kind w input (push flate codec input)

  push-Wrote : (codec : Codec W) (input : List ℕ) → PushWrote codec input
  unfolding push
  push-Wrote (zlib_encode w) input =
      (zlib_encoder, w, refl, push_into-Wrote zlib_encoder w input _ refl)
  push-Wrote (raw_encode w) input =
      (deflate_encoder, w, refl, push_into-Wrote deflate_encoder w input _ refl)
  push-Wrote (gzip_encode w) input =
      (gz_encoder, w, refl, push_into-Wrote gz_encoder w input _ refl)
  push-Wrote (zlib_decode w) input =
      (zlib_decoder, w, refl, push_into-Wrote zlib_decoder w input _ refl)
  push-Wrote (raw_decode w) input =
      (deflate_decoder, w, refl, push_into-Wrote deflate_decoder w input _ refl)
  push-Wrote (gzip_decode w) input =
      (gz_decoder, w, refl, push_into-Wrote gz_decoder w input _ refl)

  Wrote-Written :
      (id : ℕ) (kind : Kind) (w : W) (input : List ℕ) (c : Codecs W) (r : Value F × Codecs W)
      (o : Result (List ℕ × Codec W) (Unit {0}))
      → Wrote kind w input o
      → PushedInto flate float id o c r
      → Written id kind w input c r
  Wrote-Written id kind w input c r (ok (out, codec)) (w', e, same, kept) (answer, table) =
      inl (w', e, answer ∙ ap array_buffer same, λ j. table j ∙ rw kept refl)
  Wrote-Written id kind w input c r (err failure) e (answer, table) = inr (e, answer, table)

  Pushed-PushOf :
      (id : ℕ) (payload : Value F) (offset len : ℕ) (c : Codecs W) (r : Value F × Codecs W)
      (o : Option (List ℕ))
      → Sliced payload offset len o
      → Pushed flate float id o c r
      → PushOf id payload offset len c r
  Pushed-PushOf id payload offset len c r none out (answer, same) = inl (inl out, answer, same)
  Pushed-PushOf id payload offset len c r (some input) slice (inl (gone, answer, same)) =
      inl (inr gone, answer, same)
  Pushed-PushOf id payload offset len c r (some input) slice (inr (codec, there, into)) =
      let (kind, w, is_kind, wrote) = push-Wrote codec input in
      inr (
        input,
        kind,
        w,
        slice,
        there ∙ ap some is_kind,
        Wrote-Written id kind w input c r (push flate codec input) wrote into,
      )

  -- A push whose payload is no buffer, or has no slice of that length at that offset, or whose number names no open codec,
  -- answers `null` and changes nothing. Any other writes the bytes of the slice to the writer of the codec of its number:
  -- it answers what the writer has written by then and keeps the writer without it, or answers `null` and releases a codec
  -- whose writer fails. What the other numbers name stays.
  pub push_codec-PushOf :
      (id : ℕ) (payload : Value F) (offset len : ℕ) (c : Codecs W)
      → PushOf id payload offset len c (push_codec flate float id payload offset len c)
  push_codec-PushOf id payload offset len c =
      Pushed-PushOf id payload offset len c (push_codec flate float id payload offset len c)
        (bytes_of payload offset len) (bytes_of-Sliced payload offset len)
        (push_codec-Pushed flate float id payload offset len c)
