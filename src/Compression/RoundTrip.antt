-- ===== src/Compression/RoundTrip.antt =====
-- What is compressed through src/compression.rs is what its decompression gives back.
use openworkers_runtime_nova.Prelude.{
  ℕ, ◌+◌, ◌^◌, ◌<◌, ◌≡◌, ◌≢◌, refl, sym, ◌∙◌, ap, inl, inr, Bool, true, false, none, some, List, [],
  ◌∷◌, ◌++◌, Result, ok, err, arith, Text, bytes, text_eq, Bool-cases, ==-refl, total,
}
use openworkers_runtime_nova.Value.{Float}
use openworkers_runtime_nova.Compression.{
  Kind, zlib_encoder, deflate_encoder, gz_encoder, zlib_decoder, deflate_decoder, gz_decoder, Codec,
  zlib_encode, raw_encode, gzip_encode, zlib_decode, raw_decode, gzip_decode, Codecs, Flate, insert,
  new_codec, push, push_into, finish, start_codec,
}
use openworkers_runtime_nova.Compression.Table.{get-insert}
use openworkers_runtime_nova.Compression.Calls.{start_codec-some}
use openworkers_runtime_nova.Compression.Streams.Alone.{heard-feed}
use openworkers_runtime_nova.Compression.Streams.{
  Call, starts, Streams, prefixed, succeeded, feed, heard,
}

abbrev pub concat : List (List ℕ) → List ℕ
concat [] = []
concat (chunk ∷ chunks) = chunk ++ concat chunks

module _ {W : Type 0} (flate : Flate W) where
  abbrev wrote :
      Kind → Result W (Unit {0}) → (W → Result (List ℕ) (Unit {0})) → Result (List ℕ) (Unit {0})
  wrote kind (err e) k = err e
  wrote kind (ok w) k = prefixed (flate.take_out kind w).0 (k (flate.take_out kind w).1)

  -- What a writer of flate2 makes of chunks: all that is taken out of it, up to and with its end.
  abbrev pub written : Kind → W → List (List ℕ) → Result (List ℕ) (Unit {0})
  written kind w [] = flate.finish kind w
  written kind w (chunk ∷ chunks) =
      wrote kind (flate.write_all kind w chunk) (λ next. written kind next chunks)

  -- flate2 decodes what it encoded, however either side is cut into chunks.
  abbrev pub Decodes : Kind → Kind → Type 0
  Decodes encoder decoder =
      (chunks pieces : List (List ℕ))
      → written encoder (flate.new encoder) chunks ≡ ok (concat pieces)
      → written decoder (flate.new decoder) pieces ≡ ok (concat chunks)

  module _ (kind : Kind) (wrap : W → Codec W)
      (pushes : (w : W) (input : List ℕ)
        → push flate (wrap w) input ≡ push_into flate kind wrap w input)
      (finishes : (w : W) → finish flate (wrap w) ≡ flate.finish kind w) where
    fed-wrote :
        (o : Result W (Unit {0})) (w : W) (chunk : List ℕ) (chunks : List (List ℕ))
        → flate.write_all kind w chunk ≡ o
        → ((next : W) → feed flate (wrap next) chunks ≡ written kind next chunks)
        → feed flate (wrap w) (chunk ∷ chunks) ≡ wrote kind o (λ next. written kind next chunks)
    unfolding feed push_into
    fed-wrote (ok next) w chunk chunks e ih =
        rw (pushes w chunk, push_into)
          (rw (e, push_into)
            (ap (prefixed (flate.take_out kind next).0) (ih (flate.take_out kind next).1)))
    fed-wrote (err failure) w chunk chunks e ih =
        rw (pushes w chunk, push_into) (rw (e, push_into) refl)

    -- A codec does what its writer does.
    pub feed-written :
        (w : W) (chunks : List (List ℕ)) → feed flate (wrap w) chunks ≡ written kind w chunks
    unfolding feed
    feed-written w [] = finishes w
    feed-written w (chunk ∷ chunks) =
        fed-wrote (flate.write_all kind w chunk) w chunk chunks refl
          (λ next. feed-written next chunks)

  -- A format that both directions know, and that decodes what it encodes.
  abbrev Coded : Text → Type 0
  Coded format =
      (encoder decoder : Codec W) × (new_codec flate format false ≡ some encoder)
      × (new_codec flate format true ≡ some decoder)
      × ((chunks pieces : List (List ℕ))
          → feed flate encoder chunks ≡ ok (concat pieces)
          → feed flate decoder pieces ≡ ok (concat chunks))

  zlib-Coded :
      (format : Text)
      → Decodes zlib_encoder zlib_decoder
      → text_eq format (bytes "deflate") ≡ true
      → Coded format
  unfolding new_codec push finish
  zlib-Coded format law e = (
    zlib_encode (flate.new zlib_encoder),
    zlib_decode (flate.new zlib_decoder),
    rw e refl,
    rw e refl,
    λ chunks pieces f.
        feed-written zlib_decoder zlib_decode (λ w input. refl) (λ w. refl) _ pieces
        ∙ law chunks pieces (
            sym (feed-written zlib_encoder zlib_encode (λ w input. refl) (λ w. refl) _ chunks) ∙ f),
  )

  raw-Coded :
      (format : Text)
      → Decodes deflate_encoder deflate_decoder
      → text_eq format (bytes "deflate") ≡ false
      → text_eq format (bytes "deflate-raw") ≡ true
      → Coded format
  unfolding new_codec push finish
  raw-Coded format law e1 e = (
    raw_encode (flate.new deflate_encoder),
    raw_decode (flate.new deflate_decoder),
    rw (e1, e) refl,
    rw (e1, e) refl,
    λ chunks pieces f.
        feed-written deflate_decoder raw_decode (λ w input. refl) (λ w. refl) _ pieces
        ∙ law chunks pieces (
            sym (feed-written deflate_encoder raw_encode (λ w input. refl) (λ w. refl) _ chunks)
            ∙ f),
  )

  gzip-Coded :
      (format : Text)
      → Decodes gz_encoder gz_decoder
      → text_eq format (bytes "deflate") ≡ false
      → text_eq format (bytes "deflate-raw") ≡ false
      → text_eq format (bytes "gzip") ≡ true
      → Coded format
  unfolding new_codec push finish
  gzip-Coded format law e1 e2 e = (
    gzip_encode (flate.new gz_encoder),
    gzip_decode (flate.new gz_decoder),
    rw (e1, e2, e) refl,
    rw (e1, e2, e) refl,
    λ chunks pieces f.
        feed-written gz_decoder gzip_decode (λ w input. refl) (λ w. refl) _ pieces
        ∙ law chunks pieces
            (sym (feed-written gz_encoder gzip_encode (λ w input. refl) (λ w. refl) _ chunks) ∙ f),
  )

  unknown-none :
      (format : Text) (decompress : Bool)
      → text_eq format (bytes "deflate") ≡ false
      → text_eq format (bytes "deflate-raw") ≡ false
      → text_eq format (bytes "gzip") ≡ false
      → new_codec flate format decompress ≡ none
  unfolding new_codec
  unknown-none format true e1 e2 e3 = rw (e1, e2, e3) refl
  unknown-none format false e1 e2 e3 = rw (e1, e2, e3) refl

  known-Coded :
      (format : Text)
      → Decodes zlib_encoder zlib_decoder
      → Decodes deflate_encoder deflate_decoder
      → Decodes gz_encoder gz_decoder
      → new_codec flate format false ≢ none
      → Coded format
  known-Coded format zlib raw gzip known = elim (Bool-cases (text_eq format (bytes "deflate"))) [
    | inl e ↦ zlib-Coded format zlib e
    | inr e1 ↦ elim (Bool-cases (text_eq format (bytes "deflate-raw"))) [
      | inl e ↦ raw-Coded format raw e1 e
      | inr e2 ↦ elim (Bool-cases (text_eq format (bytes "gzip"))) [
        | inl e ↦ gzip-Coded format gzip e1 e2 e
        | inr e3 ↦ absurd (known (unknown-none format false e1 e2 e3))
      ]
    ]
  ]

  module _ {F : Type 0} (float : Float F) where
    -- The number that a start gives names the new codec, and is the last one given out.
    started-heard :
        (format : Text) (decompress : Bool) (c : Codecs W) (codec : Codec W)
        (chunks : List (List ℕ)) (calls : List (Call F))
        → new_codec flate format decompress ≡ some codec
        → c.next + 1 + total starts calls < 2 ^ 32
        → Streams (c.next + 1) chunks calls
        → heard flate float (c.next + 1) calls (start_codec flate float format decompress c).1
          ≡ succeeded (feed flate codec chunks)
    started-heard format decompress c codec chunks calls e room s =
        rw (start_codec-some flate float format decompress c codec (omega arith) e) (
          heard-feed flate float (c.next + 1) chunks calls
            (record { open_codecs = insert (c.next + 1) codec c.open_codecs; next = c.next + 1 })
            codec
            (get-insert (c.next + 1) (c.next + 1) codec c.open_codecs
              ∙ rw (==-refl (c.next + 1)) refl)
            (omega arith) room s)

    succeeded-ok :
        (r : Result (List ℕ) (Unit {0})) (out : List ℕ) → succeeded r ≡ some out → r ≡ ok out
    succeeded-ok (ok x) out e = cc
    succeeded-ok (err failure) out e = cc

    -- Whatever the calls of a stream that compresses chunks are answered, cut anywhere into pieces, a stream of the same
    -- format that decompresses these pieces is answered the bytes of the chunks, calls for other codecs between
    -- its own or not. The writers of flate2 are taken to decode what they encode, and the counter not to run out.
    pub heard-heard :
        (format : Text) (c d : Codecs W) (chunks pieces : List (List ℕ))
        (calls others : List (Call F))
        → Decodes zlib_encoder zlib_decoder
        → Decodes deflate_encoder deflate_decoder
        → Decodes gz_encoder gz_decoder
        → new_codec flate format false ≢ none
        → c.next + 1 + total starts calls < 2 ^ 32
        → d.next + 1 + total starts others < 2 ^ 32
        → Streams (c.next + 1) chunks calls
        → Streams (d.next + 1) pieces others
        → heard flate float (c.next + 1) calls (start_codec flate float format false c).1
          ≡ some (concat pieces)
        → heard flate float (d.next + 1) others (start_codec flate float format true d).1
          ≡ some (concat chunks)
    heard-heard format c d chunks pieces calls others zlib raw gzip known roomc roomd s t zipped =
        let (encoder, decoder, e, f, decodes) = known-Coded format zlib raw gzip known in
        let whole =
          succeeded-ok (feed flate encoder chunks) (concat pieces)
            (sym (started-heard format false c encoder chunks calls e roomc s) ∙ zipped) in
        started-heard format true d decoder pieces others f roomd t
        ∙ ap succeeded (decodes chunks pieces whole)
