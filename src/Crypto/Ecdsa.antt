-- ===== src/Crypto/Ecdsa.antt =====
-- src/crypto.rs: the macro `ecdsa_curve` and `native_ecdsa`. The crates p256 and p384 are parameters: `K`, `V` and `S`
-- are their signing keys, verifying keys and signatures.
pub mod RoundTrip
use openworkers_runtime_nova.Prelude.{
  ℕ, zero, suc, ◌+◌, Bool, true, false, Option, none, some, List, [], ◌∷◌, ◌++◌, Result, ok, err,
  Outcome, returns, panics, ◌>>=◌, Text, bytes, text_eq, if◌then◌else◌,
}
use openworkers_runtime_nova.Value.{
  Value, null, boolean, string, Arg, JsResult, Native, is_undefined,
}
use openworkers_runtime_nova.Hex.{from_hex, to_hex}

pub data Answer : Type 0 where
  text : Text → Answer
  flag : Bool → Answer
  invalid : Answer

pub record Curve (K V S : Type 0) : Type 0 where
  pub size : ℕ
  pub signing_from_slice : List ℕ → Option K
  pub verifying_key : K → V
  pub to_sec1_point : V → List ℕ
  pub sign_prehash : K → List ℕ → Option S
  pub to_bytes : S → List ℕ
  pub from_sec1_bytes : List ℕ → Option V
  pub signature_from_slice : List ℕ → Option S
  pub verify_prehash : V → List ℕ → S → Bool

-- The random source: what its call of a number fills a buffer of a size with.
abbrev pub Source : Type 0
Source = ℕ → ℕ → List ℕ

module _ {K V S : Type 0} (curve : Curve K V S) where
  unfoldable pub key_pair : List ℕ → K → Text
  key_pair scalar signing =
      to_hex scalar ++ (b':' ∷ to_hex (curve.to_sec1_point (curve.verifying_key signing)))

  -- A draw that is no key is followed by the next.
  unfoldable pub taken_or : Option Text → List ℕ → Option K → Option Text
  unfolding key_pair
  taken_or again scalar none = again
  taken_or again scalar (some signing) = some (key_pair scalar signing)

  -- The loop of `generate`, from a call of the source on; `none` where the fuel runs out.
  unfoldable pub generate : Source → ℕ → ℕ → Option Text
  unfolding taken_or
  generate fill call zero = none
  generate fill call (suc fuel) =
      let again = generate fill (call + 1) fuel in
      let scalar = fill call curve.size in taken_or again scalar (curve.signing_from_slice scalar)

  unfoldable pub signature_of : Option S → Answer
  signature_of none = invalid
  signature_of (some signature) = text (to_hex (curve.to_bytes signature))

  unfoldable pub sign_bytes : Option (List ℕ) → Option (List ℕ) → Answer
  unfolding signature_of
  sign_bytes none digest = invalid
  sign_bytes (some key) none = invalid
  sign_bytes (some key) (some digest) = elim (curve.signing_from_slice key) [
    | none ↦ invalid
    | some signing ↦ signature_of (curve.sign_prehash signing digest)
  ]

  unfoldable pub sign : Text → Text → Outcome Answer
  unfolding sign_bytes
  sign a b = do key ← from_hex a; digest ← from_hex b; returns (sign_bytes key digest)

  -- A signature of the wrong size does not hold.
  unfoldable pub holds : V → List ℕ → Option S → Answer
  holds verifying digest none = flag false
  holds verifying digest (some signature) = flag (curve.verify_prehash verifying digest signature)

  unfoldable pub verify_bytes : Option (List ℕ) → Option (List ℕ) → Option (List ℕ) → Answer
  unfolding holds
  verify_bytes none digest signature = invalid
  verify_bytes (some key) none signature = invalid
  verify_bytes (some key) (some digest) none = invalid
  verify_bytes (some key) (some digest) (some signature) = elim (curve.from_sec1_bytes key) [
    | none ↦ invalid
    | some verifying ↦ holds verifying digest (curve.signature_from_slice signature)
  ]

  unfoldable pub verify : Text → Text → Text → Outcome Answer
  unfolding verify_bytes
  verify a b c = do
    key ← from_hex a
    digest ← from_hex b
    signature ← from_hex c
    returns (verify_bytes key digest signature)

  unfoldable pub is_point : Option (List ℕ) → Bool
  is_point none = false
  is_point (some key) = elim (curve.from_sec1_bytes key) [ none ↦ false | some verifying ↦ true ]

  unfoldable pub check : Text → Outcome Answer
  unfolding is_point
  check a = do key ← from_hex a; returns (flag (is_point key))

  abbrev generated : Option Text → Option (Outcome Answer)
  generated none = none
  generated (some pair) = some (returns (text pair))

  -- `none` where the fuel of `generate` runs out.
  unfoldable pub ecdsa_curve : Source → ℕ → Text → Text → Text → Text → Option (Outcome Answer)
  unfolding generate sign verify check
  ecdsa_curve fill fuel op a b c =
      if text_eq op (bytes "generate")
      then generated (generate fill 0 fuel)
      else if text_eq op (bytes "sign")
      then some (sign a b)
      else if text_eq op (bytes "verify")
      then some (verify a b c)
      else if text_eq op (bytes "check")
      then some (check a)
      else some (returns invalid)

module _ {F : Type 0} where
  -- The text of an argument, empty where it is left out.
  unfoldable pub part_of : Arg F → JsResult F Text
  part_of arg = elim (is_undefined arg.value) [ true ↦ ok [] | false ↦ arg.to_string ]

  abbrev with_part : Arg F → (Text → Option (Native F)) → Option (Native F)
  with_part arg k = elim (part_of arg) [
    | ok part ↦ k part
    | err thrown ↦ some (returns (err thrown))
  ]

  unfoldable pub value_of : Answer → Value F
  value_of (text t) = string t
  value_of (flag b) = boolean b
  value_of invalid = null

  abbrev replied : Option (Outcome Answer) → Option (Native F)
  replied none = none
  replied (some panics) = some panics
  replied (some (returns answer)) = some (returns (ok (value_of answer)))

  -- `none` where the fuel of `generate` runs out.
  unfoldable pub native_ecdsa :
      {K V S K' V' S' : Type 0}
      → Curve K V S
      → Curve K' V' S'
      → Source
      → ℕ
      → Arg F
      → Arg F
      → Arg F
      → Arg F
      → Arg F
      → Option (Native F)
  unfolding part_of value_of
  native_ecdsa p256 p384 fill fuel op curve a b c = with_part op (λ op. with_part curve (λ curve.
      with_part a (λ a. with_part b (λ b. with_part c (λ c. replied (
        if text_eq curve (bytes "P-256")
        then ecdsa_curve p256 fill fuel op a b c
        else if text_eq curve (bytes "P-384")
        then ecdsa_curve p384 fill fuel op a b c
        else some (returns invalid)))))))
