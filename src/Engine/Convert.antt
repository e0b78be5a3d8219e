-- ===== src/Engine/Convert.antt =====
-- The native functions of src/worker.rs, src/bindings.rs and src/compression.rs that reach the host, with the conversions
-- of their arguments: converting an object runs guest code, which may call them in turn, queue jobs and take time.
use openworkers_runtime_nova.Prelude.{ℕ, true, ok, err, Text, bytes, text_eq, if◌then◌else◌}
use openworkers_runtime_nova.Value.{Value, undefined, null, boolean, number, string, Arg, JsResult}
use openworkers_runtime_nova.Host.{
  Call, respond, asks_current, log, timer_start, timer_clear, binding, compression,
}
use openworkers_runtime_nova.Engine.{Prog, spend, enqueue, native}

-- A conversion: the code that it runs, and what comes of it.
pub data Steps (J F A : Type 0) : Type 0 where
  gives : JsResult F A → Steps J F A
  spends : ℕ → Steps J F A → Steps J F A
  enqueues : J → Steps J F A → Steps J F A
  calls : Call F → (JsResult F (Value F) → Steps J F A) → Steps J F A

-- An argument as the guest hands it over.
pub record GuestArg (J F : Type 0) : Type 0 where
  pub value : Value F
  pub to_string : Steps J F Text
  pub to_number : Steps J F F
  pub to_uint32 : Steps J F ℕ

module _ {F : Type 0} where
  -- An argument once it is converted. No conversion of it other than the one that was made is asked for again.
  abbrev pub as_text : Text → Arg F
  as_text text = record {
    value = string text;
    to_string = ok text;
    to_number = err undefined;
    to_uint32 = err undefined;
    to_int32 = err undefined;
  }

  abbrev pub as_number : F → Arg F
  as_number x = record {
    value = number x;
    to_string = err undefined;
    to_number = ok x;
    to_uint32 = err undefined;
    to_int32 = err undefined;
  }

  abbrev as_uint32 : ℕ → Arg F
  as_uint32 n = record {
    value = undefined;
    to_string = err undefined;
    to_number = err undefined;
    to_uint32 = ok n;
    to_int32 = err undefined;
  }

  abbrev as_value : Value F → Arg F
  as_value value = record {
    value = value;
    to_string = err undefined;
    to_number = err undefined;
    to_uint32 = err undefined;
    to_int32 = err undefined;
  }

module _ {J F : Type 0} where
  -- The `?` after a conversion: what it throws ends the call.
  unfoldable pub then_steps : {A B : Type 0} → Steps J F A → (A → Steps J F B) → Steps J F B
  then_steps (gives (ok a)) k = k a
  then_steps (gives (err thrown)) k = gives (err thrown)
  then_steps (spends d rest) k = spends d (then_steps rest k)
  then_steps (enqueues job rest) k = enqueues job (then_steps rest k)
  then_steps (calls call rest) k = calls call (λ reply. then_steps (rest reply) k)

  -- The guest goes on from what the call gives.
  unfoldable pub then_prog : {S A : Type 0} → Steps J F A → (JsResult F A → Prog S J F) → Prog S J F
  then_prog (gives result) k = k result
  then_prog (spends d rest) k = spend d (then_prog rest k)
  then_prog (enqueues job rest) k = enqueue job (then_prog rest k)
  then_prog (calls call rest) k = native call (λ reply. then_prog (rest reply) k)

  abbrev pub call_with : Call F → Steps J F (Value F)
  call_with call = calls call gives

  abbrev pub respond_if : F → GuestArg J F → JsResult F (Value F) → Steps J F (Value F)
  respond_if id payload (ok (boolean true)) =
      then_steps payload.to_string (λ text. call_with (respond (as_number id) (as_text text)))
  respond_if id payload _ = gives (ok undefined)

  -- The payload of an answer for another dispatch is not converted. (The number of the running dispatch does not change while
  -- the payload is converted.)
  unfoldable pub respond_call : GuestArg J F → GuestArg J F → Steps J F (Value F)
  unfolding then_steps
  respond_call dispatch payload =
      then_steps dispatch.to_number (λ id. calls (asks_current id) (respond_if id payload))

  unfoldable pub log_call : GuestArg J F → GuestArg J F → Steps J F (Value F)
  unfolding then_steps
  log_call level message =
      then_steps level.to_string (λ name.
        then_steps message.to_string (λ text. call_with (log (as_text name) (as_text text))))

  unfoldable pub timer_start_call : GuestArg J F → GuestArg J F → GuestArg J F → Steps J F (Value F)
  unfolding then_steps
  timer_start_call handle delay repeating = then_steps handle.to_number (λ h.
      then_steps delay.to_number
        (λ d. call_with (timer_start (as_number h) (as_number d) (as_value repeating.value))))

  unfoldable pub timer_clear_call : GuestArg J F → Steps J F (Value F)
  unfolding then_steps
  timer_clear_call handle = then_steps handle.to_number (λ h. call_with (timer_clear (as_number h)))

  unfoldable pub binding_call :
      GuestArg J F → GuestArg J F → GuestArg J F → GuestArg J F → Steps J F (Value F)
  unfolding then_steps
  binding_call id kind name params = then_steps id.to_number (λ i. then_steps kind.to_string (λ k.
      then_steps name.to_string (λ n.
        then_steps params.to_string
          (λ p. call_with (binding (as_number i) (as_text k) (as_text n) (as_text p))))))

  abbrev compression_with : Text → Arg F → Arg F → Arg F → Arg F → Steps J F (Value F)
  compression_with op a payload offset len =
      call_with (compression (as_text op) a payload offset len)

  -- Which arguments are converted depends on the operation. The payload holds the bytes that are in its buffer once they
  -- are.
  unfoldable pub compression_op_call :
      Text → GuestArg J F → GuestArg J F → GuestArg J F → GuestArg J F → Steps J F (Value F)
  unfolding then_steps
  compression_op_call op a payload offset len =
      let none = as_value undefined in
      if text_eq op (bytes "start")
      then then_steps a.to_string
          (λ format. compression_with op (as_text format) (as_value payload.value) none none)
      else if text_eq op (bytes "push")
      then then_steps a.to_uint32 (λ id. then_steps offset.to_uint32 (λ from.
        then_steps len.to_uint32 (λ count.
          compression_with op (as_uint32 id) (as_value payload.value) (as_uint32 from)
            (as_uint32 count))))
      else if text_eq op (bytes "finish")
      then then_steps a.to_uint32 (λ id. compression_with op (as_uint32 id) none none none)
      else if text_eq op (bytes "drop")
      then then_steps a.to_uint32 (λ id. compression_with op (as_uint32 id) none none none)
      else gives (ok null)

  unfoldable pub compression_call :
      GuestArg J F → GuestArg J F → GuestArg J F → GuestArg J F → GuestArg J F → Steps J F (Value F)
  unfolding then_steps compression_op_call
  compression_call op a payload offset len =
      then_steps op.to_string (λ name. compression_op_call name a payload offset len)

-- A call of a native function that reaches the host.
pub data HostCall (J F : Type 0) : Type 0 where
  responding logging : GuestArg J F → GuestArg J F → HostCall J F
  starting : GuestArg J F → GuestArg J F → GuestArg J F → HostCall J F
  clearing : GuestArg J F → HostCall J F
  asking : GuestArg J F → GuestArg J F → GuestArg J F → GuestArg J F → HostCall J F
  compressing :
      GuestArg J F → GuestArg J F → GuestArg J F → GuestArg J F → GuestArg J F → HostCall J F

unfoldable pub steps_of : {J F : Type 0} → HostCall J F → Steps J F (Value F)
unfolding respond_call log_call timer_start_call timer_clear_call binding_call compression_call
steps_of (responding dispatch payload) = respond_call dispatch payload
steps_of (logging level message) = log_call level message
steps_of (starting handle delay repeating) = timer_start_call handle delay repeating
steps_of (clearing handle) = timer_clear_call handle
steps_of (asking id kind name params) = binding_call id kind name params
steps_of (compressing op a payload offset len) = compression_call op a payload offset len
