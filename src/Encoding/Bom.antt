-- ===== src/Encoding/Bom.antt =====
-- Which bytes src/encoding.rs hands to the decoder: the byte order mark of the encoding's own is dropped.
use openworkers_runtime_nova.Prelude.{
  ℕ, ◌≡◌, ◌≢◌, refl, sym, ap₂, ◌∙◌, ◌⊎◌, inl, inr, Bool, true, false, Option, none, some, List, [],
  ◌∷◌, ◌++◌, Outcome, returns, arith, Bool-cases, Option-cases, Text, ◌==◌, ==-refl,
}
use openworkers_runtime_nova.Value.{Value, boolean, string}
use openworkers_runtime_nova.Hex.{to_hex}
use openworkers_runtime_nova.Hex.RoundTrip.{IsBytes, from_hex-to_hex}
use openworkers_runtime_nova.Encoding.{
  Encodings, strip_prefix, rest_or, drop_bom, bom_of, decoded, text_or_false, decode_bytes,
  decode_hex,
}

none-some : {A : Type 0} {a : A} → none ≡ some a → ⊥
none-some e = cc

==-cases : (c b : ℕ) → ((c ≡ b) × ((c == b) ≡ true)) ⊎ ((c == b) ≡ false)
==-cases c b = ground arith

strip_prefix-some :
    (prefix input rest : List ℕ) → strip_prefix prefix input ≡ some rest → input ≡ prefix ++ rest
unfolding strip_prefix
strip_prefix-some [] input rest e = cc
strip_prefix-some (b ∷ prefix) [] rest e = cc
strip_prefix-some (b ∷ prefix) (c ∷ input) rest e = elim (==-cases c b) [
  | inl (same, t) ↦ ap₂ (λ x xs. x ∷ xs) same (strip_prefix-some prefix input rest (rw t at e))
  | inr f ↦ absurd (none-some (rw f at e))
]

strip_prefix-append : (prefix rest : List ℕ) → strip_prefix prefix (prefix ++ rest) ≡ some rest
unfolding strip_prefix
strip_prefix-append [] rest = refl
strip_prefix-append (b ∷ prefix) rest = rw (==-refl b) (strip_prefix-append prefix rest)

-- Which part of the bytes the decoder gets: those after the mark, or all where marks are ignored or there is none.
abbrev pub Used : List ℕ → Bool → List ℕ → List ℕ → Type 0
Used bom ignore_bom input used =
    ((ignore_bom ≡ false) × (input ≡ bom ++ used))
    ⊎ ((ignore_bom ≡ true) × (used ≡ input))
    ⊎ ((used ≡ input) × ((rest : List ℕ) → input ≢ bom ++ rest))

rest_or-Used :
    (bom : List ℕ) (ignore_bom : Bool) (input : List ℕ) (o : Option (List ℕ))
    → strip_prefix bom input ≡ o
    → Used bom ignore_bom input (rest_or bom ignore_bom input o)
unfolding rest_or
rest_or-Used bom ignore_bom input none e = inr (
    inr
      (refl, λ rest same. none-some {a = rest} (sym e ∙ (rw same (strip_prefix-append bom rest)))))
rest_or-Used bom true input (some rest) e = inr (inl (refl, refl))
rest_or-Used [] false input (some rest) e = inl (refl, refl)
rest_or-Used (b ∷ bom) false input (some rest) e =
    inl (refl, strip_prefix-some (b ∷ bom) input rest e)

drop_bom-Used :
    (bom : List ℕ) (ignore_bom : Bool) (input : List ℕ)
    → Used bom ignore_bom input (drop_bom bom ignore_bom input)
unfolding drop_bom
drop_bom-Used bom ignore_bom input = rest_or-Used bom ignore_bom input (strip_prefix bom input) refl

module _ {E : Type 0} (crate : Encodings E) (encoding : E) where
  -- The byte order mark of the encoding's own: UTF-16LE and UTF-16BE have one, no other encoding has.
  abbrev pub IsMark : List ℕ → Type 0
  IsMark bom =
      ((crate.is_utf_16le encoding ≡ true) × (bom ≡ 0xff ∷ 0xfe ∷ []))
      ⊎ ((crate.is_utf_16le encoding ≡ false)
          × (crate.is_utf_16be encoding ≡ true)
          × (bom ≡ 0xfe ∷ 0xff ∷ []))
      ⊎ ((crate.is_utf_16le encoding ≡ false) × (crate.is_utf_16be encoding ≡ false) × (bom ≡ []))

  -- What is answered for the bytes that are used: where `fatal` is set, `false` for malformed ones; else a text.
  abbrev pub Answers : {F : Type 0} → Bool → List ℕ → Outcome (Value F) → Type 0
  Answers false used r = r ≡ returns (string (crate.decode encoding used))
  Answers true used r =
      ((text : Text) × (crate.decode_strict encoding used ≡ some text)
        × (r ≡ returns (string text)))
      ⊎ ((crate.decode_strict encoding used ≡ none) × (r ≡ returns (boolean false)))

  bom_of-IsMark : IsMark (bom_of crate encoding)
  unfolding bom_of
  bom_of-IsMark = elim (Bool-cases (crate.is_utf_16le encoding)) [
    | inl le ↦ rw le (inl (refl, refl))
    | inr other ↦ elim (Bool-cases (crate.is_utf_16be encoding)) [
      | inl be ↦ rw (other, be) (inr (inl (refl, refl, refl)))
      | inr none_of ↦ rw (other, none_of) (inr (inr (refl, refl, refl)))
    ]
  ]

  decoded-Answers :
      (F : Type 0) (fatal : Bool) (used : List ℕ)
      → Answers {F = F} fatal used (returns (text_or_false (decoded crate encoding fatal used)))
  unfolding decoded text_or_false
  decoded-Answers F false used = refl
  decoded-Answers F true used = elim (Option-cases (crate.decode_strict encoding used)) [
    | inl malformed ↦ rw malformed (inr (refl, refl))
    | inr (text, formed) ↦ rw formed (inl (text, refl, refl))
  ]

  -- Bytes in hex are decoded without the byte order mark of the encoding's own at their start, unless marks are
  -- ignored; a second mark stays. The marks are those of UTF-16LE and UTF-16BE. Where `fatal` is set, malformed bytes
  -- answer `false`; else they are decoded with replacements.
  pub decode_hex-Used :
      (F : Type 0) (input : List ℕ) (fatal ignore_bom : Bool)
      → IsBytes input
      → (bom : List ℕ) × (used : List ℕ) × IsMark bom
        × Used bom ignore_bom input used
        × Answers fatal used (decode_hex crate {F = F} encoding (to_hex input) fatal ignore_bom)
  unfolding decode_hex decode_bytes
  decode_hex-Used F input fatal ignore_bom b = (
    bom_of crate encoding,
    drop_bom (bom_of crate encoding) ignore_bom input,
    bom_of-IsMark,
    drop_bom-Used (bom_of crate encoding) ignore_bom input,
    rw (from_hex-to_hex input b)
        (decoded-Answers F fatal (drop_bom (bom_of crate encoding) ignore_bom input)),
  )
