-- ===== src/Session/Lasting.antt =====
-- What holds of a worker of src/worker.rs all its life.
use openworkers_runtime_nova.Prelude.{
  ℕ, suc, ◌+◌, ◌%◌, ◌^◌, ◌≤◌, ◌≡◌, refl, ◌∙◌, ◌⊎◌, inl, inr, Option, none, some, Result, ok, err,
  List, [], ◌∷◌, Outcome, returns, panics, Text, arith,
}
use openworkers_runtime_nova.Host.{init}
use openworkers_runtime_nova.Engine.{Platform}
use openworkers_runtime_nova.Worker.{Worker, Run, Reason, done, panicked, hung, starved, drain}
use openworkers_runtime_nova.Worker.Invariant.{OnOutcome, OnRun, eval-keeps, drain-keeps}
use openworkers_runtime_nova.Build.{
  wall_clock_of, fresh, eval_or, eval_all, built, run_code, build_with, build,
}
use openworkers_runtime_nova.Exec.{Wire, abort}
use openworkers_runtime_nova.Exec.Numbers.{
  IsSynced, Follows, Follows-refl, Follows-WorkerInvariant, exec-Follows,
}
use openworkers_runtime_nova.Session
use openworkers_runtime_nova.Session.{Start, Life}

module _ {S F J W O : Type 0} (platform : Platform S J F W O)
    (wakes : (now wait : ℕ) → now + wait ≤ platform.wake now wait) (w : Worker S F J W O) where
  abbrev Built : Run (Result (Worker S F J W O) Reason) → Type 0
  Built (done (ok u)) = Follows w.dispatches w u
  Built _ = Unit

  eval_or-Built :
      (reason : Text → Reason) (o : Outcome (Option Text × Worker S F J W O))
      (next : Worker S F J W O → Run (Result (Worker S F J W O) Reason))
      → OnOutcome platform
          (Follows w.dispatches w)
          (Follows-WorkerInvariant platform wakes w w.dispatches)
          wakes
          o
      → ((u : Worker S F J W O) → Follows w.dispatches w u → Built (next u))
      → Built (eval_or platform reason o next)
  unfolding eval_or
  eval_or-Built reason panics next h f = tt
  eval_or-Built reason (returns (some message, u)) next h f = tt
  eval_or-Built reason (returns (none, u)) next h f = f u h

  eval_all-Built :
      (scripts : List Text) (next : Worker S F J W O → Run (Result (Worker S F J W O) Reason))
      (u : Worker S F J W O)
      → Follows w.dispatches w u
      → ((v : Worker S F J W O) → Follows w.dispatches w v → Built (next v))
      → Built (eval_all platform scripts next u)
  unfolding eval_all
  eval_all-Built [] next u h f = f u h
  eval_all-Built (script ∷ scripts) next u h f =
      eval_or-Built _ _ (eval_all platform scripts next)
        (eval-keeps platform (Follows w.dispatches w)
          (Follows-WorkerInvariant platform wakes w w.dispatches) wakes script u h)
        (λ v k. eval_all-Built scripts next v k f)

  built-Built :
      (o : Run (Result (Unit {0}) Reason × Worker S F J W O))
      → OnRun platform
          (Follows w.dispatches w)
          (Follows-WorkerInvariant platform wakes w w.dispatches)
          wakes
          o
      → Built (built platform o)
  unfolding built
  built-Built (done (ok _, u)) h = h
  built-Built (done (err reason, u)) h = tt
  built-Built panicked h = tt
  built-Built hung h = tt
  built-Built starved h = tt

  run_code-Built :
      (fuel : ℕ) (code : Text) (u : Worker S F J W O)
      → Follows w.dispatches w u
      → Built (run_code platform fuel code u)
  unfolding run_code
  run_code-Built fuel code u h =
      eval_or-Built _ _ (λ v. built platform (drain platform fuel v))
        (eval-keeps platform (Follows w.dispatches w)
          (Follows-WorkerInvariant platform wakes w w.dispatches) wakes code u h)
        (λ v k. built-Built _ (
          drain-keeps platform (Follows w.dispatches w)
            (Follows-WorkerInvariant platform wakes w w.dispatches) wakes fuel v k))

  build_with-Built :
      (fuel : ℕ) (layer : List Text) (code : Option Text)
      → IsSynced w
      → Built (build_with platform fuel layer code w)
  unfolding build_with
  build_with-Built fuel layer none s = tt
  build_with-Built fuel layer (some code) s =
      eval_all-Built layer (run_code platform fuel code) w (Follows-refl w s)
        (λ v k. run_code-Built fuel code v k)

  build_with-done :
      (fuel : ℕ) (layer : List Text) (code : Option Text) (u : Worker S F J W O)
      → IsSynced w
      → build_with platform fuel layer code w ≡ done (ok u)
      → Follows w.dispatches w u
  build_with-done fuel layer code u s e = rw e at (build_with-Built fuel layer code s)

module _ {S F J W O M X R E : Type 0} (platform : Platform S J F W O) (wire : Wire M X R)
    (start : Start S O E) where
  -- The host answers for the dispatch that was begun last, no more were begun than there were events, and the limit, the
  -- operations handle and the start are those that the worker was built with.
  pub record Lasting (n : ℕ) (w : Worker S F J W O) : Type 0 where
    pub synced : w.host.dispatch ≡ w.dispatches
    pub begun : w.dispatches ≤ n
    pub same_limit : w.wall_clock ≡ wall_clock_of start.limit
    pub same_ops : w.host.ops ≡ start.ops
    pub same_start : w.host.start ≡ start.now

  Lasting-Follows :
      (n m k : ℕ) (w u : Worker S F J W O) → Lasting n w → m ≤ k → Follows m w u → Lasting k u
  Lasting-Follows n m k w u l le f = record {
    synced = f.synced;
    begun = let number = f.number in omega arith;
    same_limit = f.same_limit ∙ l.same_limit;
    same_ops = f.same_ops ∙ l.same_ops;
    same_start = f.same_start ∙ l.same_start;
  }

  abbrev first : Worker S F J W O
  first = fresh start.engine start.ops start.now (wall_clock_of start.limit)

  first-Lasting : Lasting 0 first
  unfolding fresh init
  first-Lasting = record {
    synced = refl;
    begun = omega arith;
    same_limit = refl;
    same_ops = refl;
    same_start = refl;
  }

  first-dispatches : first.dispatches ≡ 0
  unfolding fresh
  first-dispatches = refl

  next-le : (d n : ℕ) → d ≤ n → (d + 1) % 2 ^ 64 ≤ suc n
  next-le d n le = omega arith

  module _ (wakes : (now wait : ℕ) → now + wait ≤ platform.wake now wait) where
    built-Lasting :
        (fuel : ℕ) (w : Worker S F J W O)
        → build platform start.json fuel start.runtime_js start.modules start.script start.limit
            start.ops start.engine start.now
          ≡ done (ok w)
        → Lasting 0 w
    unfolding build
    built-Lasting fuel w e =
        Lasting-Follows 0 first.dispatches 0 first w first-Lasting
          (let none_begun = first-dispatches in omega arith)
          (build_with-done platform wakes first fuel _ start.script.code w first-Lasting.synced e)

    served-Lasting :
        (n : ℕ) (w u : Worker S F J W O)
        → Lasting n w
        → Follows w.dispatches w u ⊎ Follows ((w.dispatches + 1) % 2 ^ 64) w u
        → Lasting (suc n) u
    served-Lasting n w u l (inl f) =
        Lasting-Follows n w.dispatches (suc n) w u l (let le = l.begun in omega arith) f
    served-Lasting n w u l (inr f) =
        Lasting-Follows n _ (suc n) w u l (next-le w.dispatches n l.begun) f

    -- All the life of a worker, through events that succeed or fail and aborts in any order, the host answers for the
    -- dispatch that was begun last, no more dispatches were begun than there were events, and the limit, the
    -- operations handle and the start are those that it was built with. Sleeping is taken not to end early.
    pub Life-Lasting : (n : ℕ) (w : Worker S F J W O) → Life platform wire start n w → Lasting n w
    unfolding abort
    Life-Lasting _ _ (Session.built fuel w e) = built-Lasting fuel w e
    Life-Lasting _ _ (Session.served n fuel w u event r sent life e) =
        let l = Life-Lasting n w life in
        served-Lasting n w u l (exec-Follows platform wire wakes fuel w event u r sent l.synced e)
    Life-Lasting _ _ (Session.stopped n v life) =
        let l = Life-Lasting n v life in
        record {
          synced = l.synced;
          begun = l.begun;
          same_limit = l.same_limit;
          same_ops = l.same_ops;
          same_start = l.same_start;
        }
