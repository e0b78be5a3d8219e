-- ===== src/Host.antt =====
-- The host side of a worker, src/worker.rs: `WorkerHostHooks` with its `HostSlots`, and the native functions
-- that the guest reaches them through. `J` is a job of the engine, `W` a codec's writer, `O` the embedder's
-- operations handle. The clock that `Instant::now` reads is a field.
pub mod Calls
pub mod Answers
mod Tests
use openworkers_runtime_nova.Prelude.{
  ℕ, zero, ◌+◌, ◌-◌, Bool, true, false, Option, none, some, List, [], ◌∷◌, ◌++◌, Result, ok, err,
  Outcome, returns, panics, Text, bytes, ◌==◌, if◌then◌else◌,
}
use openworkers_runtime_nova.Value.{
  Value, undefined, boolean, number, Arg, Float, JsResult, is_true,
}
use openworkers_runtime_nova.Future.{Task, ready}
use openworkers_runtime_nova.Timers
use openworkers_runtime_nova.Timers.{Timers}
use openworkers_runtime_nova.Compression.{Codecs, Flate, native_compression}

-- `Pending` of src/bindings.rs: a call that the guest is waiting on.
pub record Pending (F : Type 0) : Type 0 where
  pub id : F
  pub answer : Task Text

-- A line of console output: handed to the operations handler with its level, or printed with the text of the level.
pub data Logged : Type 0 where
  handled : ℕ → Text → Logged
  printed : Text → Text → Logged

pub record Host (F J W O : Type 0) : Type 0 where
  pub jobs : List J
  pub dispatch : ℕ
  pub outcome : Option Text
  pub ops : Option O
  pub start : ℕ
  pub timers : Timers F
  pub bindings : List (Pending F)
  pub codecs : Codecs W
  pub now : ℕ
  pub logged : List Logged

-- `HostSlots::default` with the embedder's handle, at an instant.
unfoldable pub init : {F J W O : Type 0} → Option O → ℕ → Host F J W O
init ops now = record {
  jobs = [];
  dispatch = 0;
  outcome = none;
  ops = ops;
  start = now;
  timers = record { timers = []; timer_seq = 0 };
  bindings = [];
  codecs = record { open_codecs = []; next = 0 };
  now = now;
  logged = [];
}

-- A call of a native function by the guest. An argument comes with what its conversions give. A conversion may run guest
-- code, which does what the code of a program does: that code is steps of the program, before the call (Engine/Convert
-- has the calls with the code of their conversions). `asks_current` is the first half of `native_respond`, up to the
-- conversion of the payload. The functions that use no `HostSlots` (the URLs, the texts and the
-- cryptography) are one constructor, with the reply to the call.
pub data Call (F : Type 0) : Type 0 where
  stateless : Outcome (JsResult F (Value F)) → Call F
  respond : Arg F → Arg F → Call F
  asks_current : F → Call F
  log : Arg F → Arg F → Call F
  timer_start : Arg F → Arg F → Arg F → Call F
  timer_clear : Arg F → Call F
  performance_now : Call F
  binding : Arg F → Arg F → Arg F → Arg F → Call F
  compression : Arg F → Arg F → Arg F → Arg F → Arg F → Call F

-- What the native functions stand on: the floats, flate2, `answer` of src/bindings.rs, and `LogLevel` of
-- openworkers_core, by numbers.
pub record Natives (F W O : Type 0) : Type 0 where
  pub float : Float F
  pub flate : Flate W
  pub answer : O → Text → Text → Text → Task Text
  -- `LogLevel::from_str`, and `LogLevel::Log`.
  pub parse_level : Text → Option ℕ
  pub log_level : ℕ

-- The reply to a call, with the host after it.
abbrev pub Reply : Type 0 → Type 0 → Type 0 → Type 0 → Type 0
Reply F J W O = Outcome (JsResult F (Value F) × Host F J W O)

unfoldable pub answer_of :
    {F W O : Type 0} → Natives F W O → Option O → Text → Text → Text → Task Text
answer_of natives none k n p = ready (err (bytes "no operations handler is wired"))
answer_of natives (some ops) k n p = natives.answer ops k n p

-- A level that does not parse is `LogLevel::Log`; where the line is printed, the level is as the guest gave it.
unfoldable pub level_of : {F W O : Type 0} → Natives F W O → Text → ℕ
level_of natives name = elim (natives.parse_level name) [
  | none ↦ natives.log_level
  | some level ↦ level
]

unfoldable pub line_of : {F W O : Type 0} → Natives F W O → Option O → Text → Text → Logged
unfolding level_of
line_of natives none name text = printed name text
line_of natives (some _) name text = handled (level_of natives name) text

module _ {F J W O : Type 0} where
  -- A conversion that throws ends the call.
  abbrev pub convert :
      {A : Type 0} → JsResult F A → Host F J W O → (A → Reply F J W O) → Reply F J W O
  convert (ok a) host k = k a
  convert (err thrown) host k = returns (err thrown, host)

  unfoldable pub advance : ℕ → Host F J W O → Host F J W O
  advance d host = record host { now = host.now + d }

  -- The `HostHooks`: the three kinds of job join one queue.
  unfoldable pub enqueue_job : J → Host F J W O → Host F J W O
  enqueue_job job host = record host { jobs = host.jobs ++ (job ∷ []) }

  unfoldable pub deliver : Bool → Arg F → Host F J W O → Reply F J W O
  deliver false payload host = returns (ok undefined, host)
  deliver true payload host =
      convert payload.to_string host
        (λ text. returns (ok undefined, record host { outcome = some text }))

  unfoldable pub push_binding : F → Task Text → Host F J W O → Host F J W O
  push_binding id answer host = record host {
    bindings = host.bindings ++ (record { id = id; answer = answer } ∷ []);
  }

  module _ (natives : Natives F W O) where
    unfoldable pub native_log : Arg F → Arg F → Host F J W O → Reply F J W O
    unfolding line_of
    native_log level message host = convert level.to_string host (λ name.
        convert message.to_string host (λ text. returns (
          ok undefined,
          record host { logged = host.logged ++ (line_of natives host.ops name text ∷ []) },
        )))

    -- Whether a number of a dispatch is that of the running one, as `native_respond` asks.
    unfoldable pub is_current : F → Host F J W O → Bool
    is_current id host = natives.float.into_i64 id == host.dispatch

    unfoldable pub native_respond : Arg F → Arg F → Host F J W O → Reply F J W O
    unfolding deliver is_current
    native_respond dispatch payload host =
        convert dispatch.to_number host (λ id. deliver (is_current id host) payload host)

    unfoldable pub native_timer_start : Arg F → Arg F → Arg F → Host F J W O → Reply F J W O
    native_timer_start handle delay repeating host = convert handle.to_number host (λ h.
        convert delay.to_number host (λ d.
          elim (Timers.start ⦃float = natives.float⦄ host.now h d (is_true repeating.value)
            host.timers) [
              | panics ↦ panics
              | returns timers ↦ returns (ok undefined, record host { timers = timers })
            ]))

    unfoldable pub native_timer_clear : Arg F → Host F J W O → Reply F J W O
    native_timer_clear handle host = convert handle.to_number host (λ h.
        returns (
          ok undefined,
          record host { timers = Timers.clear ⦃float = natives.float⦄ h host.timers },
        ))

    unfoldable pub native_performance_now : Host F J W O → Reply F J W O
    native_performance_now host =
        returns (ok (number (natives.float.as_millis (host.now - host.start))), host)

    -- `native_binding`: without a handler the call is answered at once.
    unfoldable pub native_binding : Arg F → Arg F → Arg F → Arg F → Host F J W O → Reply F J W O
    unfolding push_binding answer_of
    native_binding id kind name params host = convert id.to_number host (λ i.
        convert kind.to_string host (λ k. convert name.to_string host (λ n.
          convert params.to_string host
            (λ p. returns (ok undefined, push_binding i (answer_of natives host.ops k n p) host)))))

    unfoldable pub call_compression :
        Arg F → Arg F → Arg F → Arg F → Arg F → Host F J W O → Reply F J W O
    call_compression op a payload offset len host =
        let (result, codecs) =
          native_compression natives.flate natives.float op a payload offset len host.codecs in
        returns (result, record host { codecs = codecs })

    unfoldable pub reply_alone : Outcome (JsResult F (Value F)) → Host F J W O → Reply F J W O
    reply_alone panics host = panics
    reply_alone (returns reply) host = returns (reply, host)

    unfoldable pub call_native : Call F → Host F J W O → Reply F J W O
    unfolding is_current
    call_native (stateless reply) host = reply_alone reply host
    call_native (respond dispatch payload) host = native_respond dispatch payload host
    call_native (asks_current id) host = returns (ok (boolean (is_current id host)), host)
    call_native (log level message) host = native_log level message host
    call_native (timer_start handle delay repeating) host =
        native_timer_start handle delay repeating host
    call_native (timer_clear handle) host = native_timer_clear handle host
    call_native performance_now host = native_performance_now host
    call_native (binding id kind name params) host = native_binding id kind name params host
    call_native (compression op a payload offset len) host =
        call_compression op a payload offset len host
