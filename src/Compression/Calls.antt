-- ===== src/Compression/Calls.antt =====
-- What the calls of `native_compression` in src/compression.rs do to the codecs that are open.
use openworkers_runtime_nova.Prelude.{
  ℕ, ◌+◌, ◌%◌, ◌^◌, ◌<◌, ◌≡◌, refl, ap, ◌∙◌, ◌⊎◌, inl, inr, Bool, Option, none, some, List, Result,
  ok, err, arith, Text, ◌==◌, ==-refl, if◌then◌else◌, Option-cases,
}
use openworkers_runtime_nova.Value.{Value, null, number, array_buffer, Float}
use openworkers_runtime_nova.Compression.{
  Codec, Codecs, Flate, get, remove, insert, new_codec, push, bytes_of, start_codec, push_open,
  push_codec, finish_codec, drop_codec,
}
use openworkers_runtime_nova.Compression.Table.{
  get-remove, get-insert, KeysLe, KeysLe-remove, KeysLe-mono, get-KeysLe,
}

-- The numbers in use are at most the last one given out.
pub record IsValid {W : Type 0} (c : Codecs W) : Type 0 where
  pub given : KeysLe c.next c.open_codecs

abbrev pub find : {W : Type 0} → ℕ → Codecs W → Option (Codec W)
find id c = get id c.open_codecs

module _ {W F : Type 0} (flate : Flate W) (float : Float F) where
  pub start_codec-none :
      (format : Text) (decompress : Bool) (c : Codecs W)
      → new_codec flate format decompress ≡ none
      → start_codec flate float format decompress c ≡ (null, c)
  unfolding start_codec
  start_codec-none format decompress c e = rw (e, start_codec)

  pub start_codec-some :
      (format : Text) (decompress : Bool) (c : Codecs W) (codec : Codec W)
      → c.next + 1 < 2 ^ 32
      → new_codec flate format decompress ≡ some codec
      → start_codec flate float format decompress c ≡ (
        number (float.from_u32 (c.next + 1)),
        record { open_codecs = insert (c.next + 1) codec c.open_codecs; next = c.next + 1 },
      )
  unfolding start_codec
  start_codec-some format decompress c codec room e =
      let small : (c.next + 1) % 2 ^ 32 ≡ c.next + 1 = omega arith in
      rw (e, start_codec)
        (ap
          (λ n. (
            number (float.from_u32 n),
            record { open_codecs = insert n codec c.open_codecs; next = n },
          ))
          small)

  -- What starting a codec may give.
  abbrev pub Started : Option (Codec W) → Codecs W → Value F × Codecs W → Type 0
  Started none c r = (r.0 ≡ null) × (r.1 ≡ c)
  Started (some codec) c r =
      (r.0 ≡ number (float.from_u32 (c.next + 1)))
      × (find (c.next + 1) c ≡ none)
      × ((j : ℕ) → find j r.1 ≡ (if (c.next + 1) == j then some codec else find j c))
      × IsValid r.1

  insert-IsValid :
      (c : Codecs W) (codec : Codec W)
      → IsValid c
      → IsValid
          (record { open_codecs = insert (c.next + 1) codec c.open_codecs; next = c.next + 1 })
  unfolding insert
  insert-IsValid c codec v = record {
    given = (
      omega arith,
      KeysLe-mono c.next (c.next + 1) _ (omega arith)
          (KeysLe-remove c.next (c.next + 1) c.open_codecs v.given),
    );
  }

  Started-start :
      (format : Text) (decompress : Bool) (c : Codecs W) (o : Option (Codec W))
      → c.next + 1 < 2 ^ 32
      → IsValid c
      → new_codec flate format decompress ≡ o
      → Started o c (start_codec flate float format decompress c)
  Started-start format decompress c none room v e =
      rw (start_codec-none format decompress c e) (refl, refl)
  Started-start format decompress c (some codec) room v e =
      rw (start_codec-some format decompress c codec room e) (
        refl,
        get-KeysLe c.next (c.next + 1) c.open_codecs v.given (omega arith),
        λ j. get-insert (c.next + 1) j codec c.open_codecs,
        insert-IsValid c codec v,
      )

  -- Until the counter of 32 bits runs out: for a format that is not known nothing is started; for any other the guest
  -- gets a number that named no open codec, which now names the new one, and every other number names what
  -- it did.
  pub start_codec-Started :
      (format : Text) (decompress : Bool) (c : Codecs W)
      → c.next + 1 < 2 ^ 32
      → IsValid c
      → Started (new_codec flate format decompress) c (start_codec flate float format decompress c)
  start_codec-Started format decompress c room v =
      Started-start format decompress c (new_codec flate format decompress) room v refl

  abbrev pub PushedInto :
      ℕ → Result (List ℕ × Codec W) (Unit {0}) → Codecs W → Value F × Codecs W → Type 0
  PushedInto id (ok (out, codec)) c r =
      (r.0 ≡ array_buffer out) × ((j : ℕ) → find j r.1 ≡ (if id == j then some codec else find j c))
  PushedInto id (err e) c r =
      (r.0 ≡ null) × ((j : ℕ) → find j r.1 ≡ (if id == j then none else find j c))

  -- What a push may give: it needs a slice of a buffer and an open codec. A codec that fails is released, and
  -- no other number is touched.
  abbrev pub Pushed : ℕ → Option (List ℕ) → Codecs W → Value F × Codecs W → Type 0
  Pushed id none c r = (r.0 ≡ null) × (r.1 ≡ c)
  Pushed id (some input) c r =
      ((find id c ≡ none) × (r.0 ≡ null) × (r.1 ≡ c))
      ⊎ ((codec : Codec W) × (find id c ≡ some codec) × PushedInto id (push flate codec input) c r)

  pub push_open-none :
      (id : ℕ) (input : List ℕ) (c : Codecs W)
      → find id c ≡ none
      → push_open flate float id input c ≡ (null, c)
  unfolding push_open
  push_open-none id input c e = rw (e, push_open)

  pub pushed-ok :
      (id : ℕ) (input : List ℕ) (c : Codecs W) (codec codec' : Codec W) (out : List ℕ)
      → find id c ≡ some codec
      → push flate codec input ≡ ok (out, codec')
      → push_open flate float id input c
        ≡ (array_buffer out, record c { open_codecs = insert id codec' c.open_codecs })
  unfolding push_open
  pushed-ok id input c codec codec' out e p = rw (e, push_open) (rw (p, push_open) refl)

  pub pushed-err :
      (id : ℕ) (input : List ℕ) (c : Codecs W) (codec : Codec W) (failure : Unit {0})
      → find id c ≡ some codec
      → push flate codec input ≡ err failure
      → push_open flate float id input c
        ≡ (null, record c { open_codecs = remove id c.open_codecs })
  unfolding push_open
  pushed-err id input c codec failure e p = rw (e, push_open) (rw (p, push_open) refl)

  push_open-some :
      (id : ℕ) (input : List ℕ) (c : Codecs W) (codec : Codec W)
      (o : Result (List ℕ × Codec W) (Unit {0}))
      → find id c ≡ some codec
      → push flate codec input ≡ o
      → PushedInto id o c (push_open flate float id input c)
  push_open-some id input c codec (ok (out, codec')) e p =
      rw (pushed-ok id input c codec codec' out e p)
        (refl, λ j. get-insert id j codec' c.open_codecs)
  push_open-some id input c codec (err failure) e p =
      rw (pushed-err id input c codec failure e p) (refl, λ j. get-remove id j c.open_codecs)

  push_open-Pushed :
      (id : ℕ) (input : List ℕ) (c : Codecs W) (o : Option (Codec W))
      → find id c ≡ o
      → Pushed id (some input) c (push_open flate float id input c)
  push_open-Pushed id input c none e = inl (rw (push_open-none id input c e) (e, refl, refl))
  push_open-Pushed id input c (some codec) e =
      inr (codec, e, push_open-some id input c codec (push flate codec input) e refl)

  pub push_codec-out :
      (id : ℕ) (payload : Value F) (offset len : ℕ) (c : Codecs W)
      → bytes_of payload offset len ≡ none
      → push_codec flate float id payload offset len c ≡ (null, c)
  unfolding push_codec
  push_codec-out id payload offset len c e = rw (e, push_codec)

  pub push_codec-in :
      (id : ℕ) (payload : Value F) (offset len : ℕ) (c : Codecs W) (input : List ℕ)
      → bytes_of payload offset len ≡ some input
      → push_codec flate float id payload offset len c ≡ push_open flate float id input c
  unfolding push_codec
  push_codec-in id payload offset len c input e = rw (e, push_codec)

  push_codec-some :
      (id : ℕ) (payload : Value F) (offset len : ℕ) (c : Codecs W) (o : Option (List ℕ))
      → bytes_of payload offset len ≡ o
      → Pushed id o c (push_codec flate float id payload offset len c)
  push_codec-some id payload offset len c none e =
      rw (push_codec-out id payload offset len c e) (refl, refl)
  push_codec-some id payload offset len c (some input) e =
      rw (push_codec-in id payload offset len c input e)
        (push_open-Pushed id input c (find id c) refl)

  pub push_codec-Pushed :
      (id : ℕ) (payload : Value F) (offset len : ℕ) (c : Codecs W)
      → Pushed id (bytes_of payload offset len) c (push_codec flate float id payload offset len c)
  push_codec-Pushed id payload offset len c =
      push_codec-some id payload offset len c (bytes_of payload offset len) refl

  pub find-finish :
      (id j : ℕ) (c : Codecs W)
      → find j (finish_codec flate float id c).1 ≡ (if id == j then none else find j c)
  unfolding finish_codec
  find-finish id j c = get-remove id j c.open_codecs

  pub find-drop :
      (id j : ℕ) (c : Codecs W)
      → find j (drop_codec flate float id c).1 ≡ (if id == j then none else find j c)
  unfolding drop_codec
  find-drop id j c = get-remove id j c.open_codecs

  push_codec-released :
      (id : ℕ) (payload : Value F) (offset len : ℕ) (c : Codecs W)
      → find id c ≡ none
      → push_codec flate float id payload offset len c ≡ (null, c)
  push_codec-released id payload offset len c gone =
      elim (Option-cases (bytes_of payload offset len)) [
        | inl out ↦ push_codec-out id payload offset len c out
        | inr (input, inside) ↦
            push_codec-in id payload offset len c input inside ∙ push_open-none id input c gone
      ]

  -- `finish` and `drop` release the codec of their number and no other: a later push to that number answers
  -- `null` and changes nothing.
  pub finish_codec-releases :
      (id : ℕ) (c : Codecs W)
      → ((j : ℕ) → find j (finish_codec flate float id c).1 ≡ (if id == j then none else find j c))
        × ((j : ℕ) → find j (drop_codec flate float id c).1 ≡ (if id == j then none else find j c))
        × ((payload : Value F) (offset len : ℕ)
            → push_codec flate float id payload offset len (finish_codec flate float id c).1
              ≡ (null, (finish_codec flate float id c).1))
  finish_codec-releases id c = (
    λ j. find-finish id j c,
    λ j. find-drop id j c,
    λ payload offset len.
        push_codec-released id payload offset len _ (find-finish id id c ∙ rw (==-refl id) refl),
  )
