-- ===== src/Host/Calls.antt =====
-- What a native function of src/worker.rs leaves alone, and when an answer is taken.
use openworkers_runtime_nova.Prelude.{
  ◌≡◌, refl, Bool, true, false, ok, err, Outcome, returns, panics, arith,
}
use openworkers_runtime_nova.Value.{undefined, Arg, JsResult}
use openworkers_runtime_nova.Timers.{Timers}
use openworkers_runtime_nova.Host.{
  Host, Call, stateless, reply_alone, respond, asks_current, log, timer_start, timer_clear,
  performance_now, binding, compression, Natives, Reply, convert, deliver, native_log,
  native_respond, native_timer_start, native_timer_clear, native_performance_now, native_binding,
  call_compression, call_native,
}

module _ {F J W O : Type 0} where
  -- The parts of the host that no native function changes.
  pub record Framed (h h' : Host F J W O) : Type 0 where
    pub same_jobs : h'.jobs ≡ h.jobs
    pub same_dispatch : h'.dispatch ≡ h.dispatch
    pub same_ops : h'.ops ≡ h.ops
    pub same_start : h'.start ≡ h.start
    pub same_now : h'.now ≡ h.now

  abbrev pub FramedReply : Host F J W O → Reply F J W O → Type 0
  FramedReply h panics = Unit
  FramedReply h (returns (r, h')) = Framed h h'

  abbrev unframed : (h : Host F J W O) → Framed h h
  unframed h = record {
    same_jobs = refl;
    same_dispatch = refl;
    same_ops = refl;
    same_start = refl;
    same_now = refl;
  }

  convert-Framed :
      {A : Type 0} (c : JsResult F A) (h : Host F J W O) (k : A → Reply F J W O)
      → ((a : A) → FramedReply h (k a))
      → FramedReply h (convert c h k)
  convert-Framed (ok a) h k f = f a
  convert-Framed (err thrown) h k f = unframed h

  deliver-Framed :
      (b : Bool) (payload : Arg F) (h : Host F J W O) → FramedReply h (deliver b payload h)
  unfolding deliver
  deliver-Framed false payload h = unframed h
  deliver-Framed true payload h = convert-Framed payload.to_string h _ (λ text. ground arith)

  module _ (natives : Natives F W O) where
    timers-Framed :
        (h : Host F J W O) (o : Outcome (Timers F))
        → FramedReply h (elim o [
          | panics ↦ panics
          | returns timers ↦ returns (ok undefined, record h { timers = timers })
        ])
    timers-Framed h panics = tt
    timers-Framed h (returns timers) = ground arith

    -- Whatever the guest calls, once its arguments are converted the queue of jobs, the dispatch being answered, the
    -- operations handle, the worker's start and the clock are as they were.
    pub call_native-Framed :
        (call : Call F) (h : Host F J W O) → FramedReply h (call_native natives call h)
    unfolding call_native native_log native_respond native_timer_start native_timer_clear
        native_performance_now native_binding call_compression reply_alone
    call_native-Framed (stateless panics) h = tt
    call_native-Framed (stateless (returns reply)) h = unframed h
    call_native-Framed (respond dispatch payload) h =
        convert-Framed dispatch.to_number h _ (λ id. deliver-Framed _ payload h)
    call_native-Framed (asks_current id) h = unframed h
    call_native-Framed (log level message) h =
        convert-Framed level.to_string h _
          (λ name. convert-Framed message.to_string h _ (λ text. ground arith))
    call_native-Framed (timer_start handle delay repeating) h =
        convert-Framed handle.to_number h _
          (λ x. convert-Framed delay.to_number h _ (λ d. timers-Framed h _))
    call_native-Framed (timer_clear handle) h =
        convert-Framed handle.to_number h _ (λ x. ground arith)
    call_native-Framed performance_now h = unframed h
    call_native-Framed (binding id kind name params) h = convert-Framed id.to_number h _ (λ i.
        convert-Framed kind.to_string h _ (λ k.
          convert-Framed name.to_string h _
            (λ n. convert-Framed params.to_string h _ (λ p. ground arith))))
    call_native-Framed (compression op a payload offset len) h = ground arith
