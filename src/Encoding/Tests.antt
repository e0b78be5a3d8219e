-- ===== src/Encoding/Tests.antt =====
-- Tests of src/encoding.rs over a small crate, and an example of the theorem on byte order marks.
use openworkers_runtime_nova.Prelude.{
  ℕ, ◌≡◌, refl, true, false, Option, none, some, List, [], ◌∷◌, ok, returns, bytes, text_eq, Text,
  arith, if◌then◌else◌,
}
use openworkers_runtime_nova.Value.{null, string}
use openworkers_runtime_nova.Examples.{text_arg, true_arg}
use openworkers_runtime_nova.Hex.{to_hex}
use openworkers_runtime_nova.Encoding.{Encodings, decode_hex, native_encoding}
use openworkers_runtime_nova.Encoding.Trim.{trim}
use openworkers_runtime_nova.Encoding.Bom.{IsMark, Answers, Used, decode_hex-Used}

-- One encoding, little-endian, that decodes bytes to themselves.
abbrev known : Text → Option (Unit {0})
known label = if text_eq label (bytes "utf-16") then some tt else none

abbrev crate : Encodings (Unit {0})
crate = record {
  for_label = known;
  name = λ e. bytes "UTF-16LE";
  is_utf_16le = λ e. true;
  is_utf_16be = λ e. false;
  decode_strict = λ e input. some input;
  decode = λ e input. input;
}

trim-both :
    trim (0x20 ∷ 0xc2 ∷ 0xa0 ∷ b'a' ∷ 0x20 ∷ b'b' ∷ 0xe2 ∷ 0x80 ∷ 0x83 ∷ 0x0a ∷ [])
    ≡ b'a' ∷ 0x20 ∷ b'b' ∷ []
unfolding trim
trim-both = refl

trim_blank : trim (bytes "  ") ≡ []
unfolding trim
trim_blank = refl

name-trim :
    native_encoding crate {F = ℕ}
      (text_arg (bytes "name"))
      (text_arg (bytes " utf-16 "))
      true_arg
      true_arg
      true_arg
    ≡ returns (ok (string (bytes "UTF-16LE")))
unfolding native_encoding text_eq
name-trim = refl

unknown_label :
    native_encoding crate {F = ℕ}
      (text_arg (bytes "decode"))
      (text_arg (bytes "utf-99"))
      (text_arg (bytes "00"))
      true_arg
      true_arg
    ≡ returns (ok null)
unfolding native_encoding text_eq
unknown_label = refl

decode-bom :
    decode_hex crate {F = ℕ} tt (bytes "fffefffe61") false false
    ≡ returns (string (0xff ∷ 0xfe ∷ b'a' ∷ []))
unfolding decode_hex openworkers_runtime_nova.Hex.from_hex openworkers_runtime_nova.Hex.from_pairs
    openworkers_runtime_nova.Hex.from_str_radix openworkers_runtime_nova.Hex.to_digit
decode-bom = refl

decode_hex-Used_example :
    (bom : List ℕ) × (used : List ℕ) × IsMark crate tt bom
    × Used bom false (0xff ∷ 0xfe ∷ b'a' ∷ []) used
    × Answers crate tt true used
        (decode_hex crate {F = ℕ} tt (to_hex (0xff ∷ 0xfe ∷ b'a' ∷ [])) true false)
decode_hex-Used_example =
    decode_hex-Used crate tt ℕ (0xff ∷ 0xfe ∷ b'a' ∷ []) true false
      (omega arith, (omega arith, (omega arith, tt)))
