-- ===== src/Value.antt =====
-- What crosses between the guest and a native function: `Value` of the nova_vm crate as the files
-- under src/ match on it, and the `f64` numbers in it.
use openworkers_runtime_nova.Prelude.{
  ℕ, Bool, true, false, Option, none, some, List, Text, Result, ok, err, Outcome, returns, panics,
}

-- What src/worker.rs does with an `f64`. The floats themselves are a parameter.
pub record Float (F : Type 0) : Type 0 where
  -- `==`, which is not reflexive at a NaN.
  pub equal : F → F → Bool
  pub is_finite : F → Bool
  -- `x > 0.0`.
  pub is_positive : F → Bool
  -- Of a finite positive number of milliseconds: `x / 1000.0` seconds in whole nanoseconds.
  pub nanoseconds : F → ℕ
  -- `into_i64`, as a bit pattern of 64 bits.
  pub into_i64 : F → ℕ
  -- `f64::from(id)` of a `u32`, and a count of nanoseconds as milliseconds.
  pub from_u32 : ℕ → F
  pub as_millis : ℕ → F
  -- `{x}` in a format string.
  pub show : F → Text

pub data Value (F : Type 0) : Type 0 where
  undefined null : Value F
  boolean : Bool → Value F
  number : F → Value F
  string : Text → Value F
  array_buffer : List ℕ → Value F
  object : ℕ → Value F

-- `JsResult`: a value, or what was thrown.
abbrev pub JsResult {ℓ} : Type 0 → Type ℓ → Type ℓ
JsResult F A = Result A (Value F)

-- An argument, with what the engine's conversions of it give: an object's may throw.
pub record Arg (F : Type 0) : Type 0 where
  pub value : Value F
  pub to_string : Result Text (Value F)
  pub to_number : Result F (Value F)
  pub to_uint32 : Result ℕ (Value F)
  -- A bit pattern of 32 bits, in two's complement.
  pub to_int32 : Result ℕ (Value F)

-- `value == Value::Boolean(true)`.
unfoldable pub is_true : {F : Type 0} → Value F → Bool
is_true (boolean b) = b
is_true _ = false

unfoldable pub is_undefined : {F : Type 0} → Value F → Bool
is_undefined undefined = true
is_undefined _ = false

-- What a native function that keeps no state does to its caller.
abbrev pub Native : Type 0 → Type 0
Native F = Outcome (JsResult F (Value F))

-- A conversion of an argument: the `?` after it ends the call with what was thrown.
abbrev pub given : {F A : Type 0} → JsResult F A → (A → Native F) → Native F
given (ok a) k = k a
given (err thrown) k = returns (err thrown)

-- `Ok(value)`, where nothing panics before it.
abbrev pub replies : {F : Type 0} → Outcome (Value F) → Native F
replies (returns value) = returns (ok value)
replies panics = panics

abbrev provided : {F : Type 0} → JsResult F Text → JsResult F (Option Text)
provided (ok text) = ok (some text)
provided (err thrown) = err thrown

-- The text of an argument that may be left out.
unfoldable pub to_optional_string : {F : Type 0} → Arg F → JsResult F (Option Text)
to_optional_string arg = elim (is_undefined arg.value) [
  | true ↦ ok none
  | false ↦ provided arg.to_string
]
