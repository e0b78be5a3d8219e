-- ===== src/Engine/Inert.antt =====
-- A program that asks for nothing more of its host, against the host of src/worker.rs.
use openworkers_runtime_nova.Prelude.{
  ℕ, ◌≤◌, ◌≡◌, ◌≢◌, refl, Bool, true, false, Option, none, ok, err, Outcome, returns, panics, Text,
  arith, All, All-retain, length, total, total-retain-le,
}
use openworkers_runtime_nova.Value.{Value, Arg, JsResult}
use openworkers_runtime_nova.Timers
use openworkers_runtime_nova.Timers.{Timer}
use openworkers_runtime_nova.Host.{
  Host, Pending, Call, stateless, respond, asks_current, log, timer_start, timer_clear,
  performance_now, binding, compression, Natives, Reply, convert, deliver, native_log,
  native_respond, native_timer_clear, native_performance_now, call_compression, call_native,
  reply_alone, enqueue_job, advance,
}
use openworkers_runtime_nova.Engine.{Prog, finish, spend, enqueue, native, run, resume}

-- The timer is no interval.
abbrev pub IsOnce : {F : Type 0} → Timer F → Type 0
IsOnce timer = timer.period ≡ none

-- The answer comes, sooner or later, whenever it is waited for.
abbrev pub Answers : {F : Type 0} → Pending F → Type 0
Answers pending = (now : ℕ) → pending.answer now ≢ none

module _ {F J W O : Type 0} where
  -- There is no more to wait for than before.
  pub record Less (h h' : Host F J W O) : Type 0 where
    pub bindings_le : length h'.bindings ≤ length h.bindings
    pub answered : All Answers h.bindings → All Answers h'.bindings
    pub total_le : (m : Timer F → ℕ) → total m h'.timers.timers ≤ total m h.timers.timers
    pub once : All IsOnce h.timers.timers → All IsOnce h'.timers.timers

  pub Less-refl : (h : Host F J W O) → Less h h
  Less-refl h = record {
    bindings_le = omega arith;
    answered = λ a. a;
    total_le = λ m. omega arith;
    once = λ o. o;
  }

  pub Less-trans : (g h i : Host F J W O) → Less g h → Less h i → Less g i
  Less-trans g h i r s = record {
    bindings_le = let a = r.bindings_le in let b = s.bindings_le in omega arith;
    answered = λ a. s.answered (r.answered a);
    total_le = λ m. let a = r.total_le m in let b = s.total_le m in omega arith;
    once = λ o. s.once (r.once o);
  }

  pub Less-same :
      (h h' : Host F J W O) → h'.bindings ≡ h.bindings → h'.timers ≡ h.timers → Less h h'
  Less-same h h' b t = record {
    bindings_le = rw b (omega arith);
    answered = λ a. rw b a;
    total_le = λ m. rw t (omega arith);
    once = λ o. rw t o;
  }

  abbrev LessReply : Host F J W O → Reply F J W O → Type 0
  LessReply h panics = Unit
  LessReply h (returns (r, h')) = Less h h'

  convert-Less :
      {A : Type 0} (c : JsResult F A) (h : Host F J W O) (k : A → Reply F J W O)
      → ((a : A) → LessReply h (k a))
      → LessReply h (convert c h k)
  convert-Less (ok a) h k f = f a
  convert-Less (err thrown) h k f = Less-refl h

  deliver-Less : (b : Bool) (payload : Arg F) (h : Host F J W O) → LessReply h (deliver b payload h)
  unfolding deliver
  deliver-Less false payload h = Less-refl h
  deliver-Less true payload h = convert-Less payload.to_string h _ (λ text. Less-same h _ refl refl)

-- A call that neither sets a timer nor asks a binding.
abbrev pub AsksNothing : {F : Type 0} → Call F → Type 0
AsksNothing (timer_start handle delay repeating) = ⊥
AsksNothing (binding id kind name params) = ⊥
AsksNothing _ = Unit

module _ {F J W O : Type 0} (natives : Natives F W O) where
  clear-Less :
      (handle : F) (h : Host F J W O)
      → Less h (record h { timers = Timers.clear ⦃float = natives.float⦄ handle h.timers })
  unfolding Timers.clear
  clear-Less handle h = record {
    bindings_le = omega arith;
    answered = λ a. a;
    total_le = λ m. total-retain-le m _ h.timers.timers;
    once = λ o. All-retain _ _ h.timers.timers o;
  }

  call_native-Less :
      (call : Call F) (h : Host F J W O)
      → AsksNothing call
      → LessReply h (call_native natives call h)
  unfolding call_native native_log native_respond native_timer_clear native_performance_now
      call_compression reply_alone
  call_native-Less (stateless panics) h a = tt
  call_native-Less (stateless (returns reply)) h a = Less-refl h
  call_native-Less (respond dispatch payload) h a =
      convert-Less dispatch.to_number h _ (λ n. deliver-Less _ payload h)
  call_native-Less (asks_current id) h a = Less-refl h
  call_native-Less (log level message) h a =
      convert-Less level.to_string h _
        (λ name. convert-Less message.to_string h _ (λ text. Less-same h _ refl refl))
  call_native-Less (timer_start handle delay repeating) h a = absurd a
  call_native-Less (timer_clear handle) h a =
      convert-Less handle.to_number h _ (λ x. clear-Less x h)
  call_native-Less performance_now h a = Less-refl h
  call_native-Less (binding id kind name params) h a = absurd a
  call_native-Less (compression op a payload offset len) h b = Less-same h _ refl refl

-- A program whose calls neither set a timer nor ask a binding, whatever the replies. It may queue jobs.
abbrev pub IsInert : {S J F : Type 0} → Prog S J F → Type 0
IsInert (finish engine thrown) = Unit
IsInert (spend d rest) = IsInert rest
IsInert (enqueue job rest) = IsInert rest
IsInert {S} {J} {F} (native call rest) =
    AsksNothing call × ((reply : JsResult F (Value F)) → IsInert (rest reply))

module _ {S F J W O : Type 0} (natives : Natives F W O) where
  abbrev pub LessRun : Host F J W O → Outcome (Option Text × S × Host F J W O) → Type 0
  LessRun h panics = Unit
  LessRun h (returns (thrown, engine, h')) = Less h h'

  LessRun-trans :
      (g h : Host F J W O) (o : Outcome (Option Text × S × Host F J W O))
      → Less g h
      → LessRun h o
      → LessRun g o
  LessRun-trans g h panics r s = tt
  LessRun-trans g h (returns (thrown, engine, i)) r s = Less-trans g h i r s

  resume-Less :
      (k : JsResult F (Value F) → Host F J W O → Outcome (Option Text × S × Host F J W O))
      (h : Host F J W O) (r : Reply F J W O)
      → LessReply h r
      → ((reply : JsResult F (Value F)) (h' : Host F J W O) → LessRun h' (k reply h'))
      → LessRun h (resume k r)
  resume-Less k h panics l f = tt
  resume-Less k h (returns (reply, h')) l f = LessRun-trans h h' (k reply h') l (f reply h')

  pub run-Less :
      (prog : Prog S J F) (h : Host F J W O) → IsInert prog → LessRun h (run natives prog h)
  unfolding run advance enqueue_job
  run-Less (finish engine thrown) h i = Less-refl h
  run-Less (spend d rest) h i =
      LessRun-trans h _ _ (Less-same h _ refl refl) (run-Less rest (advance d h) i)
  run-Less (enqueue job rest) h i =
      LessRun-trans h _ _ (Less-same h _ refl refl) (run-Less rest (enqueue_job job h) i)
  run-Less (native call rest) h i =
      resume-Less (λ reply h'. run natives (rest reply) h') h (call_native natives call h)
        (call_native-Less natives call h i.0) (λ reply h'. run-Less (rest reply) h' (i.1 reply))
