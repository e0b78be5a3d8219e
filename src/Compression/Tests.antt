-- ===== src/Compression/Tests.antt =====
-- Tests of src/compression.rs over a codec that copies, and examples of the theorems on its calls.
use mathlib.Core.List.{append-nil, append_assoc}
use openworkers_runtime_nova.Prelude.{
  ℕ, ◌≡◌, refl, Bool, true, false, Option, none, some, List, [], ◌∷◌, bytes, arith, if◌then◌else◌,
  ◌==◌, ◌≢◌, ◌++◌, ◌-◌, ◌+◌, ◌∙◌, ap, sym, map, Result, ok,
}
use openworkers_runtime_nova.Value.{Value, null, number, array_buffer}
use openworkers_runtime_nova.Examples.{flate, float}
use openworkers_runtime_nova.Compression.{
  Kind, Flate, Codecs, zlib_encoder, deflate_encoder, gz_encoder, zlib_decoder, deflate_decoder,
  gz_decoder, gzip_encode, new_codec, bytes_of, start_codec, push_codec, finish_codec, drop_codec,
}
use openworkers_runtime_nova.Compression.Streams.Alone.{heard-feed}
use openworkers_runtime_nova.Compression.Streams.{
  Call, starting, pushing, finishing, dropping, Streams, pushed, finished, between, feed, heard,
  succeeded,
}
use openworkers_runtime_nova.Compression.RoundTrip.{concat, written, Decodes, heard-heard}
use openworkers_runtime_nova.Compression.Pushes.{PushOf, push_codec-PushOf}

-- Codec 1 is open, and 4 was the last number given out.
abbrev codecs : Codecs (List ℕ)
codecs = record { open_codecs = (1, gzip_encode (9 ∷ [])) ∷ []; next = 4 }

start-gzip : (start_codec flate float (bytes "gzip") false codecs).0 ≡ number 5
unfolding start_codec new_codec openworkers_runtime_nova.Prelude.text_eq
start-gzip = refl

push-gzip :
    (push_codec flate float 1 (array_buffer (7 ∷ 8 ∷ 6 ∷ [])) 1 2 codecs).0
    ≡ array_buffer (9 ∷ 8 ∷ 6 ∷ [])
unfolding push_codec bytes_of openworkers_runtime_nova.Compression.get
    openworkers_runtime_nova.Compression.push
push-gzip = refl

push_outside : push_codec flate float 1 (array_buffer (7 ∷ 8 ∷ 6 ∷ [])) 2 2 codecs ≡ (null, codecs)
unfolding push_codec bytes_of
push_outside = refl

abbrev buffer : Value ℕ
buffer = array_buffer (7 ∷ 8 ∷ [])

push_codec-PushOf_example :
    PushOf flate float 1 buffer 0 2 codecs (push_codec flate float 1 buffer 0 2 codecs)
push_codec-PushOf_example = push_codec-PushOf flate float 1 buffer 0 2 codecs

-- Codec 1 is pushed two chunks and finished, and codecs of other numbers come and go meanwhile.
abbrev meanwhile : List (Call ℕ)
meanwhile =
    starting (bytes "deflate") true
    ∷ pushing 1 buffer 1 1
    ∷ pushing 5 buffer 0 2
    ∷ pushing 1 buffer 0 2
    ∷ dropping 5
    ∷ finishing 1
    ∷ starting (bytes "gzip") false
    ∷ []

abbrev meanwhile-Streams : Streams 1 ((8 ∷ []) ∷ (7 ∷ 8 ∷ []) ∷ []) meanwhile
unfolding bytes_of
meanwhile-Streams = between _ _ _ refl (
    pushed _ _ buffer 1 1 _ refl (
      between _ _ _ refl
        (pushed _ _ buffer 0 2 _ refl (between _ _ _ refl (finished _ (refl, tt))))))

heard-feed_example :
    heard flate float 1 meanwhile codecs
    ≡ succeeded (feed flate (gzip_encode (9 ∷ [])) ((8 ∷ []) ∷ (7 ∷ 8 ∷ []) ∷ []))
unfolding openworkers_runtime_nova.Compression.get
heard-feed_example =
    heard-feed flate float 1 ((8 ∷ []) ∷ (7 ∷ 8 ∷ []) ∷ []) meanwhile codecs (gzip_encode (9 ∷ []))
      refl (omega arith) (omega arith) meanwhile-Streams

-- An encoder counts each byte up by one, a decoder counts it down, and both hand everything out at the end.
abbrev counted : Kind → ℕ → ℕ
counted zlib_encoder n = n + 1
counted deflate_encoder n = n + 1
counted gz_encoder n = n + 1
counted zlib_decoder n = n - 1
counted deflate_decoder n = n - 1
counted gz_decoder n = n - 1

abbrev counting : Flate (List ℕ)
counting = record {
  new = λ kind. [];
  write_all = λ kind w input. ok (w ++ input);
  take_out = λ kind w. ([], w);
  finish = λ kind w. ok (map (counted kind) w);
}

written-counting :
    (kind : Kind) (w : List ℕ) (chunks : List (List ℕ))
    → written counting kind w chunks ≡ ok (map (counted kind) (w ++ concat chunks))
written-counting kind w [] = rw (append-nil w) refl
written-counting kind w (chunk ∷ chunks) =
    rw (written-counting kind (w ++ chunk) chunks, append_assoc w chunk (concat chunks)) refl

map-counted :
    (there here : Kind)
    → ((n : ℕ) → counted here (counted there n) ≡ n)
    → (xs : List ℕ) → map (counted here) (map (counted there) xs) ≡ xs
map-counted there here back [] = refl
map-counted there here back (x ∷ xs) = rw (map-counted there here back xs, back x) refl

abbrev Made : Type 0
Made = Result (List ℕ) (Unit {0})

abbrev made : List ℕ → Made
made out = ok out

made_inj : (xs ys : List ℕ) → made xs ≡ made ys → xs ≡ ys
made_inj xs ys e = cc

counting-Decodes :
    (there here : Kind)
    → ((n : ℕ) → counted here (counted there n) ≡ n)
    → Decodes counting there here
counting-Decodes there here back chunks pieces h =
    let same =
      made_inj (map (counted there) (concat chunks)) (concat pieces)
        (sym (written-counting there [] chunks) ∙ h) in
    written-counting here [] pieces
    ∙ ap ok (ap (map (counted here)) (sym same) ∙ map-counted there here back (concat chunks))

-- Codec 5 compresses, next to codec 1.
abbrev zipping : List (Call ℕ)
zipping =
    pushing 5 (array_buffer (6 ∷ 8 ∷ 9 ∷ [])) 1 2
    ∷ pushing 1 buffer 0 1
    ∷ starting (bytes "deflate") false
    ∷ pushing 5 buffer 0 1
    ∷ finishing 5
    ∷ []

abbrev zipping-Streams : Streams 5 ((8 ∷ 9 ∷ []) ∷ (7 ∷ []) ∷ []) zipping
unfolding bytes_of
zipping-Streams =
    pushed _ _ _ 1 2 _ refl
      (between _ _ _ refl (between _ _ _ refl (pushed _ _ buffer 0 1 _ refl (finished _ tt))))

-- Another worker decompresses.
abbrev unzipping : List (Call ℕ)
unzipping =
    pushing 1 (array_buffer (9 ∷ [])) 0 1
    ∷ pushing 1 (array_buffer (10 ∷ 8 ∷ [])) 0 2
    ∷ finishing 1
    ∷ []

abbrev unzipping-Streams : Streams 1 ((9 ∷ []) ∷ (10 ∷ 8 ∷ []) ∷ []) unzipping
unfolding bytes_of
unzipping-Streams = pushed _ _ _ 0 1 _ refl (pushed _ _ _ 0 2 _ refl (finished _ tt))

abbrev no_codecs : Codecs (List ℕ)
no_codecs = record { open_codecs = []; next = 0 }

gzip_known : new_codec counting (bytes "gzip") false ≢ none
unfolding new_codec openworkers_runtime_nova.Prelude.text_eq
gzip_known e = cc

zipped :
    heard counting float 5 zipping (start_codec counting float (bytes "gzip") false codecs).1
    ≡ some (9 ∷ 10 ∷ 8 ∷ [])
unfolding heard push_codec bytes_of openworkers_runtime_nova.Compression.get start_codec new_codec
    openworkers_runtime_nova.Prelude.text_eq openworkers_runtime_nova.Compression.insert
    openworkers_runtime_nova.Compression.push openworkers_runtime_nova.Compression.remove
    finish_codec openworkers_runtime_nova.Compression.finish
zipped = refl

heard-heard_example :
    heard counting float 1 unzipping (start_codec counting float (bytes "gzip") true no_codecs).1
    ≡ some (8 ∷ 9 ∷ 7 ∷ [])
heard-heard_example =
    heard-heard counting float (bytes "gzip") codecs no_codecs ((8 ∷ 9 ∷ []) ∷ (7 ∷ []) ∷ [])
      ((9 ∷ []) ∷ (10 ∷ 8 ∷ []) ∷ []) zipping unzipping
      (counting-Decodes zlib_encoder zlib_decoder (λ n. omega arith))
      (counting-Decodes deflate_encoder deflate_decoder (λ n. omega arith))
      (counting-Decodes gz_encoder gz_decoder (λ n. omega arith)) gzip_known (omega arith)
      (omega arith) zipping-Streams unzipping-Streams zipped
