-- ===== src/Engine/Frame.antt =====
-- What a run of the engine can do to the host of src/worker.rs, whatever the guest's code is.
use mathlib.Core.List.{append-nil, append_assoc}
use openworkers_runtime_nova.Prelude.{
  ℕ, ◌≤◌, ◌≡◌, refl, sym, ◌∙◌, Option, List, [], ◌∷◌, ◌++◌, Outcome, returns, panics, arith, Text,
}
use openworkers_runtime_nova.Value.{Value, JsResult}
use openworkers_runtime_nova.Host.{Host, Natives, Reply, advance, enqueue_job, call_native}
use openworkers_runtime_nova.Host.Calls.{Framed, FramedReply, call_native-Framed}
use openworkers_runtime_nova.Host.Answers.{NotFor, KeepsOutcome, call_native-KeepsOutcome}
use openworkers_runtime_nova.Engine.{Prog, finish, spend, enqueue, native, resume, run}

module _ {F J W O : Type 0} where
  -- Time goes on, jobs join the queue at its back, and what the worker is answering for stays.
  pub record Runs (h h' : Host F J W O) : Type 0 where
    pub queued : List J
    pub more_jobs : h'.jobs ≡ h.jobs ++ queued
    pub same_dispatch : h'.dispatch ≡ h.dispatch
    pub same_ops : h'.ops ≡ h.ops
    pub same_start : h'.start ≡ h.start
    pub later : h.now ≤ h'.now

  Runs-trans : (g h i : Host F J W O) → Runs g h → Runs h i → Runs g i
  Runs-trans g h i r s = record {
    queued = r.queued ++ s.queued;
    more_jobs = rw (s.more_jobs, r.more_jobs) (append_assoc g.jobs r.queued s.queued);
    same_dispatch = s.same_dispatch ∙ r.same_dispatch;
    same_ops = s.same_ops ∙ r.same_ops;
    same_start = s.same_start ∙ r.same_start;
    later = let a = r.later in let b = s.later in omega arith;
  }

  Runs-refl : (h : Host F J W O) → Runs h h
  Runs-refl h = record {
    queued = [];
    more_jobs = sym (append-nil h.jobs);
    same_dispatch = refl;
    same_ops = refl;
    same_start = refl;
    later = omega arith;
  }

  Runs-Framed : (h h' : Host F J W O) → Framed h h' → Runs h h'
  Runs-Framed h h' f = record {
    queued = [];
    more_jobs = f.same_jobs ∙ sym (append-nil h.jobs);
    same_dispatch = f.same_dispatch;
    same_ops = f.same_ops;
    same_start = f.same_start;
    later = let e = f.same_now in omega arith;
  }

  Runs-advance : (d : ℕ) (h : Host F J W O) → Runs h (advance d h)
  unfolding advance
  Runs-advance d h = record {
    queued = [];
    more_jobs = sym (append-nil h.jobs);
    same_dispatch = refl;
    same_ops = refl;
    same_start = refl;
    later = omega arith;
  }

  Runs-enqueue : (job : J) (h : Host F J W O) → Runs h (enqueue_job job h)
  unfolding enqueue_job
  Runs-enqueue job h = record {
    queued = job ∷ [];
    more_jobs = refl;
    same_dispatch = refl;
    same_ops = refl;
    same_start = refl;
    later = omega arith;
  }

  abbrev pub RunsOutcome :
      {S : Type 0} → Host F J W O → Outcome (Option Text × S × Host F J W O) → Type 0
  RunsOutcome h panics = Unit
  RunsOutcome h (returns (thrown, engine, h')) = Runs h h'

module _ {S F J W O : Type 0} where
  RunsOutcome-trans :
      (g h : Host F J W O) (o : Outcome (Option Text × S × Host F J W O))
      → Runs g h
      → RunsOutcome h o
      → RunsOutcome g o
  RunsOutcome-trans g h panics r s = tt
  RunsOutcome-trans g h (returns (thrown, engine, i)) r s = Runs-trans g h i r s

  resume-Runs :
      (k : JsResult F (Value F) → Host F J W O → Outcome (Option Text × S × Host F J W O))
      (h : Host F J W O) (r : Reply F J W O)
      → FramedReply h r
      → ((reply : JsResult F (Value F)) (h' : Host F J W O) → RunsOutcome h' (k reply h'))
      → RunsOutcome h (resume k r)
  resume-Runs k h panics f ih = tt
  resume-Runs k h (returns (reply, h')) f ih =
      RunsOutcome-trans h h' (k reply h') (Runs-Framed h h' f) (ih reply h')

module _ {S F J W O : Type 0} (natives : Natives F W O) where
  run-RunsOutcome : (prog : Prog S J F) (h : Host F J W O) → RunsOutcome h (run natives prog h)
  unfolding run
  run-RunsOutcome (finish engine thrown) h = Runs-refl h
  run-RunsOutcome (spend d rest) h =
      RunsOutcome-trans h (advance d h) _ (Runs-advance d h) (run-RunsOutcome rest (advance d h))
  run-RunsOutcome (enqueue job rest) h =
      RunsOutcome-trans h (enqueue_job job h) _ (Runs-enqueue job h)
        (run-RunsOutcome rest (enqueue_job job h))
  run-RunsOutcome (native call rest) h =
      resume-Runs _ h (call_native natives call h) (call_native-Framed natives call h)
        (λ reply h'. run-RunsOutcome (rest reply) h')

  -- Whatever a script or a job does, it only appends to the queue of jobs, it does not change the dispatch that
  -- is answered for, the operations handle or the worker's start, and the clock does not go back.
  pub run-Runs :
      (prog : Prog S J F) (h h' : Host F J W O) (thrown : Option Text) (engine : S)
      → run natives prog h ≡ returns (thrown, engine, h')
      → Runs h h'
  run-Runs prog h h' thrown engine e = rw e at (run-RunsOutcome prog h)

  -- Every answer in the program is for another dispatch.
  abbrev pub IsStale : ℕ → Prog S J F → Type 0
  IsStale dispatch (finish engine thrown) = Unit
  IsStale dispatch (spend d rest) = IsStale dispatch rest
  IsStale dispatch (enqueue job rest) = IsStale dispatch rest
  IsStale dispatch (native call rest) =
      NotFor natives dispatch call
      × ((reply : JsResult F (Value F)) → IsStale dispatch (rest reply))

  abbrev Unanswered : Option Text → Outcome (Option Text × S × Host F J W O) → Type 0
  Unanswered old panics = Unit
  Unanswered old (returns (thrown, engine, h')) = h'.outcome ≡ old

  resume-Unanswered :
      (dispatch : ℕ) (old : Option Text)
      (k : JsResult F (Value F) → Host F J W O → Outcome (Option Text × S × Host F J W O))
      (h : Host F J W O) (r : Reply F J W O)
      → FramedReply h r
      → KeepsOutcome h r
      → h.dispatch ≡ dispatch
      → h.outcome ≡ old
      → ((reply : JsResult F (Value F)) (h' : Host F J W O)
          → h'.dispatch ≡ dispatch
          → h'.outcome ≡ old
          → Unanswered old (k reply h'))
      → Unanswered old (resume k r)
  resume-Unanswered dispatch old k h panics f keep d o ih = tt
  resume-Unanswered dispatch old k h (returns (reply, h')) f keep d o ih =
      ih reply h' (f.same_dispatch ∙ d) (keep ∙ o)

  run-Unanswered :
      (dispatch : ℕ) (old : Option Text) (prog : Prog S J F) (h : Host F J W O)
      → IsStale dispatch prog
      → h.dispatch ≡ dispatch
      → h.outcome ≡ old
      → Unanswered old (run natives prog h)
  unfolding run advance enqueue_job
  run-Unanswered dispatch old (finish engine thrown) h s d o = o
  run-Unanswered dispatch old (spend n rest) h s d o =
      run-Unanswered dispatch old rest (advance n h) s d o
  run-Unanswered dispatch old (enqueue job rest) h s d o =
      run-Unanswered dispatch old rest (enqueue_job job h) s d o
  run-Unanswered dispatch old (native call rest) h s d o =
      resume-Unanswered dispatch old _ h (call_native natives call h)
        (call_native-Framed natives call h) (call_native-KeepsOutcome natives call h (rw d s.0)) d o
        (λ reply h' d' o'. run-Unanswered dispatch old (rest reply) h' (s.1 reply) d' o')

  -- A program whose answers are all for other dispatches leaves the outcome of the running one as it was: a
  -- promise of an earlier event that settles late answers nobody.
  pub run-stale :
      (prog : Prog S J F) (h h' : Host F J W O) (thrown : Option Text) (engine : S)
      → IsStale h.dispatch prog
      → run natives prog h ≡ returns (thrown, engine, h')
      → h'.outcome ≡ h.outcome
  run-stale prog h h' thrown engine s e =
      rw e at (run-Unanswered h.dispatch h.outcome prog h s refl refl)
