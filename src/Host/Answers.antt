-- ===== src/Host/Answers.antt =====
-- `native_respond` of src/worker.rs takes no answer for a dispatch other than the one that is running.
use openworkers_runtime_nova.Prelude.{
  ℕ, ◌≡◌, ◌≢◌, refl, Bool-cases, inl, inr, ok, err, Outcome, returns, panics, arith, ◌==◌,
}
use openworkers_runtime_nova.Value.{undefined, Arg, JsResult}
use openworkers_runtime_nova.Timers.{Timers}
use openworkers_runtime_nova.Host.{
  Host, Call, stateless, reply_alone, respond, asks_current, log, timer_start, timer_clear,
  performance_now, binding, compression, Natives, Reply, convert, deliver, native_log,
  native_respond, is_current, native_timer_start, native_timer_clear, native_performance_now,
  native_binding, call_compression, call_native,
}

module _ {F W O : Type 0} (natives : Natives F W O) where
  -- A call that is no answer for a dispatch.
  abbrev pub NotFor : ℕ → Call F → Type 0
  NotFor dispatch (respond id payload) =
      (n : F) → id.to_number ≡ ok n → natives.float.into_i64 n ≢ dispatch
  NotFor dispatch _ = Unit

module _ {F J W O : Type 0} where
  abbrev pub KeepsOutcome : Host F J W O → Reply F J W O → Type 0
  KeepsOutcome h panics = Unit
  KeepsOutcome h (returns (r, h')) = h'.outcome ≡ h.outcome

  convert-KeepsOutcome :
      {A : Type 0} (c : JsResult F A) (h : Host F J W O) (k : A → Reply F J W O)
      → ((a : A) → c ≡ ok a → KeepsOutcome h (k a))
      → KeepsOutcome h (convert c h k)
  convert-KeepsOutcome (ok a) h k f = f a refl
  convert-KeepsOutcome (err thrown) h k f = refl

  timers-KeepsOutcome :
      (h : Host F J W O) (o : Outcome (Timers F))
      → KeepsOutcome h (elim o [
        | panics ↦ panics
        | returns timers ↦ returns (ok undefined, record h { timers = timers })
      ])
  timers-KeepsOutcome h panics = tt
  timers-KeepsOutcome h (returns timers) = refl

  module _ (natives : Natives F W O) where
    deliver-other :
        (n : F) (payload : Arg F) (h : Host F J W O)
        → natives.float.into_i64 n ≢ h.dispatch
        → KeepsOutcome h (deliver (natives.float.into_i64 n == h.dispatch) payload h)
    deliver-other n payload h other = elim (Bool-cases (natives.float.into_i64 n == h.dispatch)) [
      | inl same ↦ absurd (other (ground arith))
      | inr not_same ↦ rw not_same (unfold deliver in refl)
    ]

    -- Only an answer for the running dispatch changes the outcome.
    pub call_native-KeepsOutcome :
        (call : Call F) (h : Host F J W O)
        → NotFor natives h.dispatch call
        → KeepsOutcome h (call_native natives call h)
    unfolding call_native native_log native_respond is_current native_timer_start native_timer_clear
        native_performance_now native_binding call_compression reply_alone
    call_native-KeepsOutcome (stateless panics) h other = tt
    call_native-KeepsOutcome (stateless (returns reply)) h other = refl
    call_native-KeepsOutcome (respond dispatch payload) h other =
        convert-KeepsOutcome dispatch.to_number h _ (λ n e. deliver-other n payload h (other n e))
    call_native-KeepsOutcome (asks_current id) h other = refl
    call_native-KeepsOutcome (log level message) h other =
        convert-KeepsOutcome level.to_string h _
          (λ name _. convert-KeepsOutcome message.to_string h _ (λ text _. refl))
    call_native-KeepsOutcome (timer_start handle delay repeating) h other =
        convert-KeepsOutcome handle.to_number h _
          (λ x _. convert-KeepsOutcome delay.to_number h _ (λ d _. timers-KeepsOutcome h _))
    call_native-KeepsOutcome (timer_clear handle) h other =
        convert-KeepsOutcome handle.to_number h _ (λ x _. refl)
    call_native-KeepsOutcome performance_now h other = refl
    call_native-KeepsOutcome (binding id kind name params) h other =
        convert-KeepsOutcome id.to_number h _ (λ i _.
          convert-KeepsOutcome kind.to_string h _ (λ k _.
            convert-KeepsOutcome name.to_string h _
              (λ n _. convert-KeepsOutcome params.to_string h _ (λ p _. refl))))
    call_native-KeepsOutcome (compression op a payload offset len) h other = refl
