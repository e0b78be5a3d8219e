-- ===== src/Compression/Streams/Untouched.antt =====
-- What a call of src/compression.rs for one codec leaves of the others.
use openworkers_runtime_nova.Prelude.{
  ℕ, ◌+◌, ◌^◌, ◌<◌, ◌≤◌, ◌≡◌, refl, ◌∙◌, inl, inr, Bool, false, Option, none, some, List, Result,
  ok, err, arith, Text, ◌==◌, Option-cases,
}
use openworkers_runtime_nova.Value.{Value, Float}
use openworkers_runtime_nova.Compression.{
  Codec, Codecs, Flate, new_codec, push, bytes_of, start_codec, push_open, push_codec, finish_codec,
  drop_codec,
}
use openworkers_runtime_nova.Compression.Table.{get-insert}
use openworkers_runtime_nova.Compression.Calls.{
  find, Pushed, PushedInto, push_codec-Pushed, push_open-none, pushed-ok, pushed-err,
  push_codec-out, push_codec-in, find-finish, find-drop, start_codec-none, start_codec-some,
}
use openworkers_runtime_nova.Compression.Streams.{
  Call, starting, pushing, finishing, dropping, after, Elsewhere, starts, serve,
}

module _ {W F : Type 0} (flate : Flate W) (float : Float F) where
  pushed-next :
      (id : ℕ) (input : List ℕ) (c : Codecs W) (codec : Codec W)
      (o : Result (List ℕ × Codec W) (Unit {0}))
      → find id c ≡ some codec
      → push flate codec input ≡ o
      → (push_open flate float id input c).1.next ≡ c.next
  pushed-next id input c codec (ok (out, codec')) e p =
      rw (pushed-ok flate float id input c codec codec' out e p) refl
  pushed-next id input c codec (err failure) e p =
      rw (pushed-err flate float id input c codec failure e p) refl

  push_open-next :
      (id : ℕ) (input : List ℕ) (c : Codecs W) → (push_open flate float id input c).1.next ≡ c.next
  push_open-next id input c = elim (Option-cases (find id c)) [
    | inl gone ↦ rw (push_open-none flate float id input c gone) refl
    | inr (codec, there) ↦ pushed-next id input c codec (push flate codec input) there refl
  ]

  push_codec-next :
      (id : ℕ) (payload : Value F) (offset len : ℕ) (c : Codecs W)
      → (push_codec flate float id payload offset len c).1.next ≡ c.next
  push_codec-next id payload offset len c = elim (Option-cases (bytes_of payload offset len)) [
    | inl out ↦ rw (push_codec-out flate float id payload offset len c out) refl
    | inr (input, inside) ↦
        rw (push_codec-in flate float id payload offset len c input inside)
          (push_open-next id input c)
  ]

  finish_codec-next :
      (id : ℕ) (c : Codecs W)
      → ((finish_codec flate float id c).1.next ≡ c.next)
        × ((drop_codec flate float id c).1.next ≡ c.next)
  unfolding finish_codec drop_codec
  finish_codec-next id c = (refl, refl)

  -- What a call for another codec leaves as it was.
  abbrev pub Untouched : ℕ → Call F → Codecs W → Codecs W → Type 0
  Untouched id call c after =
      (find id after ≡ find id c) × (c.next ≤ after.next) × (after.next ≤ c.next + starts call)

  start_codec-Untouched :
      (id : ℕ) (format : Text) (decompress : Bool) (c : Codecs W)
      → id ≤ c.next
      → c.next + 1 < 2 ^ 32
      → Untouched id (starting format decompress) c (start_codec flate float format decompress c).1
  start_codec-Untouched id format decompress c le room =
      elim (Option-cases (new_codec flate format decompress)) [
        | inl unknown ↦
            rw (start_codec-none flate float format decompress c unknown)
              (refl, omega arith, omega arith)
        | inr (codec, known) ↦
            rw (start_codec-some flate float format decompress c codec room known) (
              get-insert (c.next + 1) id codec c.open_codecs ∙ ground arith,
              omega arith,
              omega arith,
            )
      ]

  PushedInto-find :
      (id j : ℕ) (o : Result (List ℕ × Codec W) (Unit {0})) (c : Codecs W) (r : Value F × Codecs W)
      → (j == id) ≡ false
      → PushedInto flate float j o c r
      → find id r.1 ≡ find id c
  PushedInto-find id j (ok (out, codec)) c r e (answer, table) = table id ∙ rw e refl
  PushedInto-find id j (err failure) c r e (answer, table) = table id ∙ rw e refl

  Pushed-find :
      (id j : ℕ) (o : Option (List ℕ)) (c : Codecs W) (r : Value F × Codecs W)
      → (j == id) ≡ false
      → Pushed flate float j o c r
      → find id r.1 ≡ find id c
  Pushed-find id j none c r e (answer, same) = rw same refl
  Pushed-find id j (some input) c r e (inl (gone, answer, same)) = rw same refl
  Pushed-find id j (some input) c r e (inr (codec, there, into)) =
      PushedInto-find id j (push flate codec input) c r e into

  pub serve-Untouched :
      (id : ℕ) (call : Call F) (c : Codecs W)
      → Elsewhere id call
      → id ≤ c.next
      → c.next + starts call < 2 ^ 32
      → Untouched id call c (serve flate float call c).1
  serve-Untouched id (starting format decompress) c e le room =
      start_codec-Untouched id format decompress c le room
  serve-Untouched id (pushing j payload offset len) c e le room =
      let next = push_codec-next j payload offset len c in
      (
        Pushed-find id j (bytes_of payload offset len) c _ e
            (push_codec-Pushed flate float j payload offset len c),
        omega (arith, next),
        omega (arith, next),
      )
  serve-Untouched id (finishing j) c e le room =
      let next = (finish_codec-next j c).0 in
      (find-finish flate float j id c ∙ rw e refl, omega (arith, next), omega (arith, next))
  serve-Untouched id (dropping j) c e le room =
      let next = (finish_codec-next j c).1 in
      (find-drop flate float j id c ∙ rw e refl, omega (arith, next), omega (arith, next))
