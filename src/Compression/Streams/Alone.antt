-- ===== src/Compression/Streams/Alone.antt =====
-- A stream through the codecs of src/compression.rs is its codec on its own.
use mathlib.Core.List.{append-nil}
use openworkers_runtime_nova.Prelude.{
  ℕ, ◌+◌, ◌^◌, ◌<◌, ◌≤◌, ◌≡◌, refl, ◌∙◌, ap, some, List, [], ◌∷◌, Result, ok, err, arith, ==-refl,
  total, All,
}
use openworkers_runtime_nova.Value.{Value, Float}
use openworkers_runtime_nova.Compression.{
  Codec, Codecs, Flate, insert, push, finish, bytes_of, finish_codec,
}
use openworkers_runtime_nova.Compression.Table.{get-insert}
use openworkers_runtime_nova.Compression.Calls.{find, pushed-ok, pushed-err, push_codec-in}
use openworkers_runtime_nova.Compression.Streams.{
  Call, pushing, finishing, bytes_in, after, prefixed, succeeded, Elsewhere, starts, Streams,
  pushed, finished, between, fed, feed, serve, heard,
}
use openworkers_runtime_nova.Compression.Streams.Untouched.{serve-Untouched}

module _ {W F : Type 0} (flate : Flate W) (float : Float F) where
  heard-Elsewhere :
      (id : ℕ) (call : Call F) (calls : List (Call F)) (c : Codecs W)
      → Elsewhere id call
      → heard flate float id (call ∷ calls) c
        ≡ heard flate float id calls (serve flate float call c).1
  unfolding heard
  heard-Elsewhere id call calls c e = rw e refl

  heard_all-Elsewhere :
      (id : ℕ) (calls : List (Call F)) (c : Codecs W)
      → All (Elsewhere id) calls
      → heard flate float id calls c ≡ some []
  unfolding heard
  heard_all-Elsewhere id [] c h = refl
  heard_all-Elsewhere id (call ∷ calls) c h =
      rw (h.0, heard_all-Elsewhere id calls (serve flate float call c).1 h.1) refl

  after-succeeded :
      (out : List ℕ) (r : Result (List ℕ) (Unit {0}))
      → after (some out) (succeeded r) ≡ succeeded (prefixed out r)
  after-succeeded out (ok rest) = refl
  after-succeeded out (err e) = refl

  after_end : (r : Result (List ℕ) (Unit {0})) → after (succeeded r) (some []) ≡ succeeded r
  after_end (ok out) = ap some (append-nil out)
  after_end (err e) = refl

  finish_codec-answer :
      (id : ℕ) (c : Codecs W) (codec : Codec W) (r : Result (List ℕ) (Unit {0}))
      → find id c ≡ some codec
      → finish flate codec ≡ r
      → bytes_in (finish_codec flate float id c).0 ≡ succeeded r
  unfolding finish_codec
  finish_codec-answer id c codec (ok out) e f = rw (e, finish_codec) (rw (f, finish_codec) refl)
  finish_codec-answer id c codec (err failure) e f =
      rw (e, finish_codec) (rw (f, finish_codec) refl)

  heard-finished :
      (id : ℕ) (calls : List (Call F)) (c : Codecs W) (codec : Codec W)
      → find id c ≡ some codec
      → All (Elsewhere id) calls
      → heard flate float id (finishing id ∷ calls) c ≡ succeeded (finish flate codec)
  unfolding heard
  heard-finished id calls c codec e h =
      rw
        (
          ==-refl id,
          heard_all-Elsewhere id calls (finish_codec flate float id c).1 h,
          finish_codec-answer id c codec (finish flate codec) e refl,
        )
        (after_end (finish flate codec))

  heard-pushed :
      (id : ℕ) (chunk : List ℕ) (chunks : List (List ℕ)) (payload : Value F) (offset len : ℕ)
      (calls : List (Call F)) (c : Codecs W) (codec : Codec W)
      (o : Result (List ℕ × Codec W) (Unit {0}))
      → ((d : Codecs W) (next : Codec W)
          → find id d ≡ some next
          → d.next ≡ c.next
          → heard flate float id calls d ≡ succeeded (feed flate next chunks))
      → find id c ≡ some codec
      → bytes_of payload offset len ≡ some chunk
      → push flate codec chunk ≡ o
      → heard flate float id (pushing id payload offset len ∷ calls) c
        ≡ succeeded (fed o (λ next. feed flate next chunks))
  unfolding heard
  heard-pushed id chunk chunks payload offset len calls c codec (ok (out, next)) ih e b p =
      let served =
        push_codec-in flate float id payload offset len c chunk b
        ∙ pushed-ok flate float id chunk c codec next out e p in
      rw
        (
          ==-refl id,
          served,
          ih (record c { open_codecs = insert id next c.open_codecs }) next
              (get-insert id id next c.open_codecs ∙ rw (==-refl id) refl) refl,
        )
        (after-succeeded out (feed flate next chunks))
  heard-pushed id chunk chunks payload offset len calls c codec (err failure) ih e b p =
      let served =
        push_codec-in flate float id payload offset len c chunk b
        ∙ pushed-err flate float id chunk c codec failure e p in
      rw (==-refl id, served) refl

  -- What the calls of one stream are answered is what its codec makes of its chunks on its own, whatever calls for other
  -- codecs come between them, and there is no whole answer exactly where that codec fails. The counter of
  -- 32 bits is taken not to run out.
  pub heard-feed :
      (id : ℕ) (chunks : List (List ℕ)) (calls : List (Call F)) (c : Codecs W) (codec : Codec W)
      → find id c ≡ some codec
      → id ≤ c.next
      → c.next + total starts calls < 2 ^ 32
      → Streams id chunks calls
      → heard flate float id calls c ≡ succeeded (feed flate codec chunks)
  unfolding feed
  heard-feed id _ _ c codec e le room (pushed chunk chunks payload offset len calls b s) =
      heard-pushed id chunk chunks payload offset len calls c codec (push flate codec chunk)
        (λ d next there same.
          heard-feed id chunks calls d next there (omega (arith, same)) (omega (arith, same)) s)
        e b refl
  heard-feed id _ _ c codec e le room (finished calls h) = heard-finished id calls c codec e h
  heard-feed id _ _ c codec e le room (between chunks call calls apart s) =
      let (same, low, high) = serve-Untouched flate float id call c apart le (omega arith) in
      heard-Elsewhere id call calls c apart
      ∙ heard-feed id chunks calls (serve flate float call c).1 codec (same ∙ e)
          (omega (arith, low)) (omega (arith, high)) s
