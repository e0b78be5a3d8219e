-- ===== src/Engine/Quiet.antt =====
-- A call of a native function of src/worker.rs whose arguments answer for no dispatch while they are converted.
use openworkers_runtime_nova.Prelude.{
  ℕ, ◌≡◌, ◌≢◌, ap, ◌∙◌, Bool, true, false, Option, ok, err, returns, Text, bytes, text_eq,
  if◌then◌else◌,
}
use openworkers_runtime_nova.Value.{
  Value, undefined, null, boolean, number, string, array_buffer, object, JsResult,
}
use openworkers_runtime_nova.Host.{Host, Natives}
use openworkers_runtime_nova.Host.Answers.{NotFor}
use openworkers_runtime_nova.Engine.{Prog, run}
use openworkers_runtime_nova.Engine.Frame.{Runs, run-Runs, IsStale, run-stale}
use openworkers_runtime_nova.Engine.Convert.{
  Steps, gives, spends, enqueues, calls, GuestArg, then_steps, then_prog, as_number, HostCall,
  responding, logging, starting, clearing, asking, compressing, steps_of, compression_op_call,
  respond_call, log_call, timer_start_call, timer_clear_call, binding_call, compression_call,
  respond_if,
}

abbrev given_or : {F : Type 0} → F → JsResult F F → F
given_or d (ok n) = n
given_or d (err thrown) = d

module _ {J F W O : Type 0} (natives : Natives F W O) (dispatch : ℕ) where
  -- A conversion whose answers are all for other dispatches.
  abbrev pub IsQuiet : {A : Type 0} → Steps J F A → Type 0
  IsQuiet (gives result) = Unit
  IsQuiet (spends d rest) = IsQuiet rest
  IsQuiet (enqueues job rest) = IsQuiet rest
  IsQuiet (calls call rest) =
      NotFor natives dispatch call × ((reply : JsResult F (Value F)) → IsQuiet (rest reply))

  -- A conversion that gives only values of which `P` holds.
  abbrev pub GivesOnly : {A : Type 0} → (A → Type 0) → Steps J F A → Type 0
  GivesOnly P (gives (ok a)) = P a
  GivesOnly P (gives (err thrown)) = Unit
  GivesOnly P (spends d rest) = GivesOnly P rest
  GivesOnly P (enqueues job rest) = GivesOnly P rest
  GivesOnly P (calls call rest) = (reply : JsResult F (Value F)) → GivesOnly P (rest reply)

  abbrev pub IsQuietArg : GuestArg J F → Type 0
  IsQuietArg arg = IsQuiet arg.to_string × IsQuiet arg.to_number × IsQuiet arg.to_uint32

  -- A call whose arguments are converted without an answer for the dispatch, and that is no answer for it.
  abbrev pub IsQuietCall : HostCall J F → Type 0
  IsQuietCall (responding id payload) =
      IsQuietArg id
      × IsQuietArg payload
      × GivesOnly (λ n. natives.float.into_i64 n ≢ dispatch) id.to_number
  IsQuietCall (logging level message) = IsQuietArg level × IsQuietArg message
  IsQuietCall (starting handle delay repeating) = IsQuietArg handle × IsQuietArg delay
  IsQuietCall (clearing handle) = IsQuietArg handle
  IsQuietCall (asking id kind name params) =
      IsQuietArg id × IsQuietArg kind × IsQuietArg name × IsQuietArg params
  IsQuietCall (compressing op a payload offset len) =
      IsQuietArg op × IsQuietArg a × IsQuietArg offset × IsQuietArg len

  GivesOnly-any : {A : Type 0} (steps : Steps J F A) → GivesOnly (λ a. Unit) steps
  GivesOnly-any (gives (ok a)) = tt
  GivesOnly-any (gives (err thrown)) = tt
  GivesOnly-any (spends d rest) = GivesOnly-any rest
  GivesOnly-any (enqueues job rest) = GivesOnly-any rest
  GivesOnly-any (calls call rest) = λ reply. GivesOnly-any (rest reply)

  then_steps-only :
      {A B : Type 0} (P : A → Type 0) (steps : Steps J F A) (k : A → Steps J F B)
      → IsQuiet steps
      → GivesOnly P steps
      → ((a : A) → P a → IsQuiet (k a))
      → IsQuiet (then_steps steps k)
  unfolding then_steps
  then_steps-only P (gives (ok a)) k q g f = f a g
  then_steps-only P (gives (err thrown)) k q g f = tt
  then_steps-only P (spends d rest) k q g f = then_steps-only P rest k q g f
  then_steps-only P (enqueues job rest) k q g f = then_steps-only P rest k q g f
  then_steps-only P (calls call rest) k q g f =
      (q.0, λ reply. then_steps-only P (rest reply) k (q.1 reply) (g reply) f)

  then_steps-IsQuiet :
      {A B : Type 0} (steps : Steps J F A) (k : A → Steps J F B)
      → IsQuiet steps
      → ((a : A) → IsQuiet (k a))
      → IsQuiet (then_steps steps k)
  then_steps-IsQuiet steps k q f =
      then_steps-only (λ a. Unit) steps k q (GivesOnly-any steps) (λ a _. f a)

  then_prog-IsStale :
      {S A : Type 0} (steps : Steps J F A) (k : JsResult F A → Prog S J F)
      → IsQuiet steps
      → ((result : JsResult F A) → IsStale natives dispatch (k result))
      → IsStale natives dispatch (then_prog steps k)
  unfolding then_prog
  then_prog-IsStale (gives result) k q f = f result
  then_prog-IsStale (spends d rest) k q f = then_prog-IsStale rest k q f
  then_prog-IsStale (enqueues job rest) k q f = then_prog-IsStale rest k q f
  then_prog-IsStale (calls call rest) k q f =
      (q.0, λ reply. then_prog-IsStale (rest reply) k (q.1 reply) f)

  respond_if-IsQuiet :
      (n : F) (payload : GuestArg J F) (reply : JsResult F (Value F))
      → IsQuietArg payload
      → natives.float.into_i64 n ≢ dispatch
      → IsQuiet (respond_if n payload reply)
  respond_if-IsQuiet n payload (ok (boolean true)) q other =
      then_steps-IsQuiet payload.to_string _ q.0 (λ text. (own, λ reply. tt))
    where
      own : (m : F) → (as_number n).to_number ≡ ok m → natives.float.into_i64 m ≢ dispatch
      own m e = λ same. other (ap (λ r. natives.float.into_i64 (given_or n r)) e ∙ same)
  respond_if-IsQuiet n payload (ok (boolean false)) q other = tt
  respond_if-IsQuiet n payload (ok undefined) q other = tt
  respond_if-IsQuiet n payload (ok null) q other = tt
  respond_if-IsQuiet n payload (ok (number x)) q other = tt
  respond_if-IsQuiet n payload (ok (string text)) q other = tt
  respond_if-IsQuiet n payload (ok (array_buffer buffer)) q other = tt
  respond_if-IsQuiet n payload (ok (object id)) q other = tt
  respond_if-IsQuiet n payload (err thrown) q other = tt

  compression_op_call-IsQuiet :
      (op : Text) (a payload offset len : GuestArg J F)
      → IsQuietArg a
      → IsQuietArg offset
      → IsQuietArg len
      → IsQuiet (compression_op_call op a payload offset len)
  unfolding compression_op_call
  compression_op_call-IsQuiet op a payload offset len qa qo ql =
      either _ _ (text_eq op (bytes "start"))
        (then_steps-IsQuiet a.to_string _ qa.0 (λ format. (tt, λ reply. tt)))
        (either _ _ (text_eq op (bytes "push"))
          (then_steps-IsQuiet a.to_uint32 _ qa.2 (λ id.
            then_steps-IsQuiet offset.to_uint32 _ qo.2
              (λ from. then_steps-IsQuiet len.to_uint32 _ ql.2 (λ count. (tt, λ reply. tt)))))
          (either _ _ (text_eq op (bytes "finish"))
            (then_steps-IsQuiet a.to_uint32 _ qa.2 (λ id. (tt, λ reply. tt)))
            (either _ _ (text_eq op (bytes "drop"))
              (then_steps-IsQuiet a.to_uint32 _ qa.2 (λ id. (tt, λ reply. tt))) tt)))
    where
      either :
          (l r : Steps J F (Value F)) (test : Bool)
          → IsQuiet l
          → IsQuiet r
          → IsQuiet (if test then l else r)
      either l r true ql qr = ql
      either l r false ql qr = qr

  steps_of-IsQuiet : (call : HostCall J F) → IsQuietCall call → IsQuiet (steps_of call)
  unfolding steps_of respond_call log_call timer_start_call timer_clear_call binding_call
      compression_call
  steps_of-IsQuiet (responding id payload) (qi, qp, other) =
      then_steps-only (λ n. natives.float.into_i64 n ≢ dispatch) id.to_number _ qi.1 other
        (λ n o. (tt, λ reply. respond_if-IsQuiet n payload reply qp o))
  steps_of-IsQuiet (logging level message) (ql, qm) =
      then_steps-IsQuiet level.to_string _ ql.0
        (λ name. then_steps-IsQuiet message.to_string _ qm.0 (λ text. (tt, λ reply. tt)))
  steps_of-IsQuiet (starting handle delay repeating) (qh, qd) =
      then_steps-IsQuiet handle.to_number _ qh.1
        (λ h. then_steps-IsQuiet delay.to_number _ qd.1 (λ d. (tt, λ reply. tt)))
  steps_of-IsQuiet (clearing handle) qh =
      then_steps-IsQuiet handle.to_number _ qh.1 (λ h. (tt, λ reply. tt))
  steps_of-IsQuiet (asking id kind name params) (qi, qk, qn, qp) =
      then_steps-IsQuiet id.to_number _ qi.1 (λ i. then_steps-IsQuiet kind.to_string _ qk.0 (λ k.
        then_steps-IsQuiet name.to_string _ qn.0
          (λ n. then_steps-IsQuiet params.to_string _ qp.0 (λ p. (tt, λ reply. tt)))))
  steps_of-IsQuiet (compressing op a payload offset len) (qop, qa, qo, ql) =
      then_steps-IsQuiet op.to_string _ qop.0
        (λ name. compression_op_call-IsQuiet name a payload offset len qa qo ql)

module _ {J F W O : Type 0} (natives : Natives F W O) where
  -- A call of a native function that reaches the host, and what the guest goes on with, leave the outcome of the running
  -- dispatch as it was, whatever guest code the conversions of the arguments run, where that code and what follows answer
  -- only for others and an answer that is the call itself is for another. Nor do they change the number of the dispatch, the
  -- operations handle or the start; jobs only join the queue at its back, and the clock does not go back.
  pub steps_of-Runs :
      {S : Type 0} (call : HostCall J F) (k : JsResult F (Value F) → Prog S J F)
      (h h' : Host F J W O) (thrown : Option Text) (engine : S)
      → IsQuietCall natives h.dispatch call
      → ((result : JsResult F (Value F)) → IsStale natives h.dispatch (k result))
      → run natives (then_prog (steps_of call) k) h ≡ returns (thrown, engine, h')
      → (h'.outcome ≡ h.outcome) × Runs h h'
  steps_of-Runs call k h h' thrown engine quiet stale e = (
    run-stale natives (then_prog (steps_of call) k) h h' thrown engine
        (then_prog-IsStale natives h.dispatch (steps_of call) k
          (steps_of-IsQuiet natives h.dispatch call quiet) stale)
        e,
    run-Runs natives (then_prog (steps_of call) k) h h' thrown engine e,
  )
