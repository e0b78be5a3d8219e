-- ===== src/Worker/Deadline.antt =====
-- The wall clock of `drain` in src/worker.rs: what it bounds, and what it does not.
use openworkers_runtime_nova.Prelude.{
  ℕ, zero, suc, ◌+◌, ◌≤◌, ◌≡◌, refl, ap, ◌∙◌, Option, none, some, List, [], ◌∷◌, ◌++◌, Result, ok,
  returns, arith, Text, pop, pop-append,
}
use openworkers_runtime_nova.Future.{ready}
use openworkers_runtime_nova.Host.{Pending, advance}
use openworkers_runtime_nova.Engine.{Platform}
use openworkers_runtime_nova.Engine.Frame.{run-Runs}
use openworkers_runtime_nova.Worker.{
  Worker, done, starved, Reason, continues, goes_on, next_turn, with_host, drain_jobs, turn,
  drained_turn, wait_turn, settle_turn, drain_loop, drain, settle_binding, awaited,
}
use openworkers_runtime_nova.Worker.Invariant.{WorkerInvariant, drain-keeps}

module _ {S F J W O : Type 0} (platform : Platform S J F W O) where
  clock-WorkerInvariant : (start : ℕ) → WorkerInvariant platform (λ w. start ≤ w.host.now)
  clock-WorkerInvariant start = record {
    requeue = λ w jobs bindings timers p. p;
    passes = λ w now later p. omega arith;
    by_eval = λ w source h' thrown s' e p.
        let r = (run-Runs platform.natives _ w.host h' thrown s' e).later in omega arith;
    by_job = λ w job h' thrown s' e p.
        let r = (run-Runs platform.natives _ w.host h' thrown s' e).later in omega arith;
  }

  -- The clock does not go back over a `drain`, where a sleep does not end early.
  pub drain_clock :
      (fuel : ℕ) (w u : Worker S F J W O) (r : Result (Unit {0}) Reason)
      → ((now wait : ℕ) → now + wait ≤ platform.wake now wait)
      → drain platform fuel w ≡ done (r, u)
      → w.host.now ≤ u.host.now
  drain_clock fuel w u r wakes e =
      rw e at (drain-keeps platform _ (clock-WorkerInvariant w.host.now) wakes fuel w (omega arith))

  -- The jobs that are queued come to an end, within the cap on jobs; the binding call asked for last is then answered at
  -- once.
  pub record IsAsking (w : Worker S F J W O) : Type 0 where
    pub drained : Worker S F J W O
    pub jobs_done : drain_jobs platform w ≡ returns (ok tt, drained)
    pub id : F
    pub answer : Result Text Text
    pub rest : List (Pending F)
    pub asked : drained.host.bindings ≡ rest ++ (record { id = id; answer = ready answer } ∷ [])

  -- tokio polls a future before it looks at the time, so one that is ready wins against any budget.
  abbrev pub ReadyWins : Type 0
  ReadyWins =
      (budget now : ℕ) (answer : Result Text Text)
      → platform.timeout budget (ready answer) now ≡ some (0, some answer)

  awaited-ready :
      (deadline : Option ℕ) (answer : Result Text Text) (now : ℕ)
      → ReadyWins
      → awaited platform deadline (ready answer) now ≡ some (0, some answer)
  unfolding awaited
  awaited-ready none answer now wins = refl
  awaited-ready (some deadline) answer now wins = wins _ now answer

  -- The worker whose last binding call has been answered, as it settles it.
  abbrev pub settling : (w : Worker S F J W O) → IsAsking w → Worker S F J W O
  settling w a = with_host a.drained (advance 0 (record (a.drained.host) { bindings = a.rest }))

  turn-asking :
      (deadline : Option ℕ) (w w' : Worker S F J W O) (a : IsAsking w)
      → ReadyWins
      → settle_binding platform a.id a.answer (settling w a) ≡ returns w'
      → turn platform deadline w ≡ done (continues, w')
  unfolding turn drained_turn
  turn-asking deadline w w' a wins settled =
      ap (drained_turn platform deadline) a.jobs_done ∙ popped
    where
      last : Pending F
      last = record { id = a.id; answer = ready a.answer }

      begun : Worker S F J W O
      begun = with_host a.drained (record (a.drained.host) { bindings = a.rest })

      answered :
          settle_turn platform a.id
            (awaited platform deadline (ready a.answer) a.drained.host.now)
            begun
          ≡ done (continues, w')
      answered =
          ap (λ o. settle_turn platform a.id o begun)
            (awaited-ready deadline a.answer a.drained.host.now wins)
          ∙ unfold settle_turn in ap goes_on settled

      popped :
          wait_turn platform deadline (pop a.drained.host.bindings) a.drained ≡ done (continues, w')
      popped =
          ap (λ b. wait_turn platform deadline (pop b) a.drained) a.asked
          ∙ (ap (λ o. wait_turn platform deadline o a.drained) (pop-append a.rest last)
              ∙ unfold wait_turn in answered)

  module _ (Q : Worker S F J W O → Type 0) (asks : (w : Worker S F J W O) → Q w → IsAsking w)
      (again : (w : Worker S F J W O) (q : Q w)
        → (w' : Worker S F J W O) × (settle_binding platform
              (asks w q).id
              (asks w q).answer
              (settling w (asks w q))
            ≡ returns w')
          × Q w')
      (wins : ReadyWins) where
    drain_loop-asking :
        (fuel : ℕ) (deadline : Option ℕ) (w : Worker S F J W O)
        → Q w
        → drain_loop platform fuel deadline w ≡ starved
    unfolding drain_loop
    drain_loop-asking zero deadline w q = refl
    drain_loop-asking (suc n) deadline w q =
        let (w', settled, q') = again w q in
        ap (next_turn (drain_loop platform n deadline))
          (turn-asking deadline w w' (asks w q) wins settled)
        ∙ drain_loop-asking n deadline w' q'

    -- A guest whose jobs come to an end, and that has then asked a binding again whenever it was answered, and is
    -- answered at once, keeps `drain` going for ever: the wall clock of the worker is not looked at between two
    -- answers, however far in the past it lies. A future that is ready is taken to win against any timeout.
    pub drain-asking : (fuel : ℕ) (w : Worker S F J W O) → Q w → drain platform fuel w ≡ starved
    unfolding drain
    drain-asking fuel w q = drain_loop-asking fuel _ w q
