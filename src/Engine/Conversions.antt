-- ===== src/Engine/Conversions.antt =====
-- The native functions of src/worker.rs that reach the host, where the conversions of their arguments run guest code.
use openworkers_runtime_nova.Prelude.{
  ◌≡◌, ◌≢◌, refl, sym, ◌∙◌, inl, inr, Bool-cases, Option, none, some, ok, err, Outcome, returns,
  panics, arith, Text, ◌==◌, ==-refl,
}
use openworkers_runtime_nova.Value.{Value, undefined, JsResult}
use openworkers_runtime_nova.Host.{
  Host, Natives, Reply, respond, asks_current, call_native, native_respond, deliver, is_current,
  advance, enqueue_job,
}
use openworkers_runtime_nova.Engine.{finish, run, resume}
use openworkers_runtime_nova.Engine.Frame.{run-Runs}
use openworkers_runtime_nova.Engine.Convert.{
  Steps, gives, spends, enqueues, calls, GuestArg, then_steps, then_prog, call_with, as_number,
  as_text, respond_call, respond_if,
}

-- What a conversion or a call gives, and the host that it leaves.
abbrev pub Done : Type 0 → Type 0 → Type 0 → Type 0 → Type 0 → Type 0
Done J F W O A = Outcome (Option Text × JsResult F A × Host F J W O)

module _ {J F W O : Type 0} (natives : Natives F W O) where
  -- A conversion, or a call with its conversions, against a host.
  abbrev pub does : {A : Type 0} → Steps J F A → Host F J W O → Done J F W O A
  does {A} steps host = run natives (then_prog steps (λ result. finish result none)) host

  abbrev after : {A B : Type 0} → Done J F W O A → (A → Steps J F B) → Done J F W O B
  after panics k = panics
  after (returns (thrown, ok a, host)) k = does (k a) host
  after (returns (thrown, err e, host)) k = returns (none, err e, host)

  after-resume :
      {A B : Type 0} (rest : JsResult F (Value F) → Steps J F A) (k : A → Steps J F B)
      (r : Reply F J W O)
      → ((reply : JsResult F (Value F)) (h : Host F J W O)
          → does (then_steps (rest reply) k) h ≡ after (does (rest reply) h) k)
      → resume (λ reply h. does (then_steps (rest reply) k) h) r
        ≡ after (resume (λ reply h. does (rest reply) h) r) k
  after-resume rest k panics ih = refl
  after-resume rest k (returns (reply, h)) ih = ih reply h

  does-then_steps :
      {A B : Type 0} (steps : Steps J F A) (k : A → Steps J F B) (h : Host F J W O)
      → does (then_steps steps k) h ≡ after (does steps h) k
  unfolding run then_prog then_steps
  does-then_steps (gives (ok a)) k h = refl
  does-then_steps (gives (err thrown)) k h = refl
  does-then_steps (spends d rest) k h = does-then_steps rest k (advance d h)
  does-then_steps (enqueues job rest) k h = does-then_steps rest k (enqueue_job job h)
  does-then_steps (calls call rest) k h =
      after-resume rest k (call_native natives call h)
        (λ reply h'. does-then_steps (rest reply) k h')

  -- What a call of `native_respond` does on a host. The number is held against that of the dispatch which runs when the
  -- call is made.
  pub data Responded (h : Host F J W O) (dispatch payload : GuestArg J F)
      : Done J F W O (Value F) → Type 0 where
    number_panics : does dispatch.to_number h ≡ panics → Responded h dispatch payload panics
    number_throws :
        (thrown : Option Text) (e : Value F) (h1 : Host F J W O)
        → does dispatch.to_number h ≡ returns (thrown, err e, h1)
        → Responded h dispatch payload (returns (none, err e, h1))
    belongs_to_nobody :
        (thrown : Option Text) (n : F) (h1 : Host F J W O)
        → does dispatch.to_number h ≡ returns (thrown, ok n, h1)
        → natives.float.into_i64 n ≢ h.dispatch
        → Responded h dispatch payload (returns (none, ok undefined, h1))
    payload_panics :
        (thrown : Option Text) (n : F) (h1 : Host F J W O)
        → does dispatch.to_number h ≡ returns (thrown, ok n, h1)
        → natives.float.into_i64 n ≡ h.dispatch
        → does payload.to_string h1 ≡ panics
        → Responded h dispatch payload panics
    payload_throws :
        (thrown thrown' : Option Text) (n : F) (e : Value F) (h1 h2 : Host F J W O)
        → does dispatch.to_number h ≡ returns (thrown, ok n, h1)
        → natives.float.into_i64 n ≡ h.dispatch
        → does payload.to_string h1 ≡ returns (thrown', err e, h2)
        → Responded h dispatch payload (returns (none, err e, h2))
    answers :
        (thrown thrown' : Option Text) (n : F) (text : Text) (h1 h2 : Host F J W O)
        → does dispatch.to_number h ≡ returns (thrown, ok n, h1)
        → natives.float.into_i64 n ≡ h.dispatch
        → does payload.to_string h1 ≡ returns (thrown', ok text, h2)
        → Responded h dispatch payload
            (returns (none, ok undefined, record h2 { outcome = some text }))

  does-dispatch :
      {A : Type 0} (steps : Steps J F A) (h h' : Host F J W O) (thrown : Option Text)
      (result : JsResult F A)
      → does steps h ≡ returns (thrown, result, h')
      → h'.dispatch ≡ h.dispatch
  does-dispatch steps h h' thrown result e =
      (run-Runs natives (then_prog steps (λ r. finish r none)) h h' thrown result e).same_dispatch

  respond-answers :
      (n : F) (text : Text) (h : Host F J W O)
      → natives.float.into_i64 n ≡ h.dispatch
      → does (call_with (respond (as_number n) (as_text text))) h
        ≡ returns (none, ok undefined, record h { outcome = some text })
  unfolding run then_prog call_native native_respond deliver is_current
  respond-answers n text h same = rw same (rw (==-refl h.dispatch) refl)

  module _ (h : Host F J W O) (dispatch payload : GuestArg J F) (thrown : Option Text) (n : F)
      (h1 : Host F J W O) (number : does dispatch.to_number h ≡ returns (thrown, ok n, h1)) where
    payload-Responded :
        (o : Done J F W O Text)
        → natives.float.into_i64 n ≡ h.dispatch
        → does payload.to_string h1 ≡ o
        → Responded h dispatch payload
            (after o (λ text. call_with (respond (as_number n) (as_text text))))
    payload-Responded panics same e = payload_panics thrown n h1 number same e
    payload-Responded (returns (thrown', err x, h2)) same e =
        payload_throws thrown thrown' n x h1 h2 number same e
    payload-Responded (returns (thrown', ok text, h2)) same e =
        let kept =
          same
          ∙ sym (
              does-dispatch payload.to_string h1 h2 thrown' (ok text) e
              ∙ does-dispatch dispatch.to_number h h1 thrown (ok n) number) in
        rw (respond-answers n text h2 kept) (answers thrown thrown' n text h1 h2 number same e)

    current-Responded :
        Responded h dispatch payload (does (calls (asks_current n) (respond_if n payload)) h1)
    unfolding run then_prog call_native is_current
    current-Responded =
        let kept = does-dispatch dispatch.to_number h h1 thrown (ok n) number in
        elim (Bool-cases (natives.float.into_i64 n == h1.dispatch)) [
          | inl e ↦
              let same : natives.float.into_i64 n ≡ h.dispatch = ground arith in
              rw e (
                rw
                  (does-then_steps payload.to_string
                    (λ text. call_with (respond (as_number n) (as_text text))) h1)
                  (payload-Responded (does payload.to_string h1) same refl))
          | inr e ↦ rw e (belongs_to_nobody thrown n h1 number (λ same. ground arith))
        ]

  number-Responded :
      (h : Host F J W O) (dispatch payload : GuestArg J F) (o : Done J F W O F)
      → does dispatch.to_number h ≡ o
      → Responded h dispatch payload (after o (λ n. calls (asks_current n) (respond_if n payload)))
  number-Responded h dispatch payload panics e = number_panics e
  number-Responded h dispatch payload (returns (thrown, err x, h1)) e = number_throws thrown x h1 e
  number-Responded h dispatch payload (returns (thrown, ok n, h1)) e =
      current-Responded h dispatch payload thrown n h1 e

  -- Whatever guest code the conversions of its arguments run: `native_respond` takes the payload for the outcome, over what
  -- that code may have answered meanwhile, exactly where the number is that of the dispatch which runs when it is called. For
  -- any other the payload is not converted, and what a conversion throws ends the call, which then
  -- takes nothing.
  pub respond_call-Responded :
      (h : Host F J W O) (dispatch payload : GuestArg J F)
      → Responded h dispatch payload (does (respond_call dispatch payload) h)
  unfolding respond_call
  respond_call-Responded h dispatch payload =
      rw (does-then_steps dispatch.to_number (λ n. calls (asks_current n) (respond_if n payload)) h)
        (number-Responded h dispatch payload (does dispatch.to_number h) refl)
