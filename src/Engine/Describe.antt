-- ===== src/Engine/Describe.antt =====
-- `describe` of src/worker.rs: the message of what a script or a job threw.
use openworkers_runtime_nova.Prelude.{Option, none, some, Result, ok, err, Text, bytes}

-- nova_vm: the value of an error, `Object::try_from`, `internal_get`, `JsString::try_from` with `to_string_lossy`, and
-- the text of an error.
pub record Errors (V G X : Type 0) : Type 0 where
  pub value : X → V
  pub as_object : V → Option G
  pub internal_get : Text → G → Result V X
  pub as_text : V → Option Text
  pub to_text : X → Text

module _ {V G X : Type 0} (errors : Errors V G X) where
  -- The stack, if it was read and is a string.
  unfoldable pub stack_or : Text → Result V X → Text
  stack_or text (err thrown) = text
  stack_or text (ok stack) = elim (errors.as_text stack) [ none ↦ text | some shown ↦ shown ]

  unfoldable pub described : X → Option G → Text
  unfolding stack_or
  described error none = errors.to_text error
  described error (some object) =
      stack_or (errors.to_text error) (errors.internal_get (bytes "stack") object)

  unfoldable pub describe : X → Text
  unfolding described
  describe error = described error (errors.as_object (errors.value error))
