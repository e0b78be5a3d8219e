-- ===== src/Encoding.antt =====
-- src/encoding.rs: `native_encoding`. The crate encoding_rs is a parameter; `E` is an encoding of it.
pub mod Trim
pub mod Bom
mod Tests
use openworkers_runtime_nova.Prelude.{
  ℕ, Bool, true, false, not, ◌&&◌, Option, none, some, List, [], ◌∷◌, ok, Outcome, returns, ◌>>=◌,
  Text, bytes, text_eq, ◌==◌, if◌then◌else◌,
}
use openworkers_runtime_nova.Value.{
  Value, null, boolean, string, is_true, Arg, Native, given, replies,
}
use openworkers_runtime_nova.Hex.{from_hex}
use openworkers_runtime_nova.Encoding.Trim.{trim}

pub record Encodings (E : Type 0) : Type 0 where
  pub for_label : Text → Option E
  pub name : E → Text
  pub is_utf_16le : E → Bool
  pub is_utf_16be : E → Bool
  -- Without handling of byte order marks: malformed bytes are none, or are replaced.
  pub decode_strict : E → List ℕ → Option Text
  pub decode : E → List ℕ → Text

unfoldable pub strip_prefix : List ℕ → List ℕ → Option (List ℕ)
strip_prefix [] input = some input
strip_prefix (b ∷ prefix) [] = none
strip_prefix (b ∷ prefix) (c ∷ input) = if c == b then strip_prefix prefix input else none

abbrev is_empty : List ℕ → Bool
is_empty [] = true
is_empty (b ∷ bs) = false

unfoldable pub rest_or : List ℕ → Bool → List ℕ → Option (List ℕ) → List ℕ
rest_or bom ignore_bom input none = input
rest_or bom ignore_bom input (some rest) =
    if not ignore_bom && not (is_empty bom) then rest else input

unfoldable pub drop_bom : List ℕ → Bool → List ℕ → List ℕ
unfolding rest_or strip_prefix
drop_bom bom ignore_bom input = rest_or bom ignore_bom input (strip_prefix bom input)

unfoldable pub text_or_false : {F : Type 0} → Option Text → Value F
text_or_false none = boolean false
text_or_false (some text) = string text

module _ {E : Type 0} (crate : Encodings E) where
  -- The byte order mark of the encoding's own.
  unfoldable pub bom_of : E → List ℕ
  bom_of encoding =
      if crate.is_utf_16le encoding
      then 0xff ∷ 0xfe ∷ []
      else if crate.is_utf_16be encoding
      then 0xfe ∷ 0xff ∷ []
      else []

  unfoldable pub decoded : E → Bool → List ℕ → Option Text
  decoded encoding fatal input =
      if fatal then crate.decode_strict encoding input else some (crate.decode encoding input)

  module _ {F : Type 0} where
    unfoldable pub decode_bytes : E → Bool → Bool → Option (List ℕ) → Value F
    unfolding drop_bom bom_of decoded text_or_false
    decode_bytes encoding fatal ignore_bom none = null
    decode_bytes encoding fatal ignore_bom (some input) =
        text_or_false (decoded encoding fatal (drop_bom (bom_of encoding) ignore_bom input))

    unfoldable pub decode_hex : E → Text → Bool → Bool → Outcome (Value F)
    unfolding decode_bytes
    decode_hex encoding hex fatal ignore_bom = do
      input ← from_hex hex
      returns (decode_bytes encoding fatal ignore_bom input)

    -- The bytes are not looked at for a label that is unknown or asked for its name.
    unfoldable pub encoding_op : Text → Option E → Arg F → Bool → Bool → Native F
    encoding_op op none hex fatal ignore_bom = returns (ok null)
    encoding_op op (some encoding) hex fatal ignore_bom = elim (text_eq op (bytes "name")) [
      | true ↦ returns (ok (string (crate.name encoding)))
      | false ↦ given hex.to_string (λ hex. replies (decode_hex encoding hex fatal ignore_bom))
    ]

    unfoldable pub native_encoding : Arg F → Arg F → Arg F → Arg F → Arg F → Native F
    unfolding encoding_op trim
    native_encoding op label hex fatal ignore_bom = given op.to_string (λ op.
        given label.to_string (λ label.
          encoding_op op (crate.for_label (trim label)) hex (is_true fatal.value)
            (is_true ignore_bom.value)))
