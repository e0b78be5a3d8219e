-- ===== src/Exec/Numbers.antt =====
-- What one event leaves of the worker for the next one, in `exec` of src/worker.rs.
use openworkers_runtime_nova.Prelude.{
  ℕ, ◌+◌, ◌%◌, ◌^◌, ◌≤◌, ◌≡◌, refl, ◌∙◌, ◌⊎◌, inl, inr, Bool, true, false, Option, none, some,
  Result, ok, err, Outcome, returns, panics, Text, bytes,
}
use openworkers_runtime_nova.Bindings.{HttpRequest, HttpResponse}
use openworkers_runtime_nova.Host.{Host}
use openworkers_runtime_nova.Engine.{Platform}
use openworkers_runtime_nova.Engine.Frame.{run-Runs}
use openworkers_runtime_nova.Worker.{Worker, Reason, Run, done, panicked, hung, starved, with_host}
use openworkers_runtime_nova.Worker.Invariant.{
  WorkerInvariant, OnRun, OnOutcome, eval-keeps, drain-keeps,
}
use openworkers_runtime_nova.Exec.{
  Wire, TaskInit, DispatchOutcome, DispatchResponse, begin, take_outcome, dispatched, dispatch,
  answered, to_response, fetch_with, handle_fetch, handle_task, request_text, Event, fetch, task,
  Sent, send_response, send_result, handle, refuse_or, exec,
}

module _ {S F J W O : Type 0} where
  -- The host answers for the dispatch that the worker began last.
  abbrev pub IsSynced : Worker S F J W O → Type 0
  IsSynced w = w.host.dispatch ≡ w.dispatches

  -- The worker with another number of dispatches, the host in step with it.
  pub record Follows (n : ℕ) (w u : Worker S F J W O) : Type 0 where
    pub synced : u.host.dispatch ≡ u.dispatches
    pub number : u.dispatches ≡ n
    pub same_abort : u.is_aborted ≡ w.is_aborted
    pub same_limit : u.wall_clock ≡ w.wall_clock
    pub same_ops : u.host.ops ≡ w.host.ops
    pub same_start : u.host.start ≡ w.host.start

  pub Follows-refl : (w : Worker S F J W O) → IsSynced w → Follows w.dispatches w w
  Follows-refl w s = record {
    synced = s;
    number = refl;
    same_abort = refl;
    same_limit = refl;
    same_ops = refl;
    same_start = refl;
  }

  Follows-begin : (w : Worker S F J W O) → Follows ((w.dispatches + 1) % 2 ^ 64) w (begin w)
  unfolding begin
  Follows-begin w = record {
    synced = refl;
    number = refl;
    same_abort = refl;
    same_limit = refl;
    same_ops = refl;
    same_start = refl;
  }

module _ {S F J W O : Type 0} (platform : Platform S J F W O)
    (wakes : (now wait : ℕ) → now + wait ≤ platform.wake now wait) (w : Worker S F J W O)
    (n : ℕ) where
  ran-Follows :
      (u : Worker S F J W O) (h' : Host F J W O) (thrown : Option Text) (s' : S)
      → Follows n w u
      → (h'.dispatch ≡ u.host.dispatch) × (h'.ops ≡ u.host.ops) × (h'.start ≡ u.host.start)
      → Follows n w (record u { engine = s'; host = h' })
  ran-Follows u h' thrown s' f (d, o, s) = record {
    synced = d ∙ f.synced;
    number = f.number;
    same_abort = f.same_abort;
    same_limit = f.same_limit;
    same_ops = o ∙ f.same_ops;
    same_start = s ∙ f.same_start;
  }

  same-Follows :
      (u : Worker S F J W O) (h' : Host F J W O)
      → h'.dispatch ≡ u.host.dispatch
      → h'.ops ≡ u.host.ops
      → h'.start ≡ u.host.start
      → Follows n w u
      → Follows n w (with_host u h')
  same-Follows u h' d o s f = ran-Follows u h' none u.engine f (d, o, s)

  pub Follows-WorkerInvariant : WorkerInvariant platform (Follows n w)
  Follows-WorkerInvariant = record {
    requeue = λ u jobs bindings timers f. same-Follows u _ refl refl refl f;
    passes = λ u now later f. same-Follows u _ refl refl refl f;
    by_eval = λ u source h' thrown s' e f.
        let r = run-Runs platform.natives _ u.host h' thrown s' e in
        ran-Follows u h' thrown s' f (r.same_dispatch, r.same_ops, r.same_start);
    by_job = λ u job h' thrown s' e f.
        let r = run-Runs platform.natives _ u.host h' thrown s' e in
        ran-Follows u h' thrown s' f (r.same_dispatch, r.same_ops, r.same_start);
  }

  -- What code that awaits leaves.
  abbrev Leaves : {A : Type 0} → Run (A × Worker S F J W O) → Type 0
  Leaves = OnRun platform (Follows n w) Follows-WorkerInvariant wakes

  dispatched-Leaves :
      (fuel : ℕ) (o : Outcome (Option Text × Worker S F J W O))
      → OnOutcome platform (Follows n w) Follows-WorkerInvariant wakes o
      → Leaves (dispatched platform fuel o)
  unfolding dispatched
  dispatched-Leaves fuel panics h = tt
  dispatched-Leaves fuel (returns (some message, u)) h = h
  dispatched-Leaves fuel (returns (none, u)) h =
      drain-keeps platform (Follows n w) Follows-WorkerInvariant wakes fuel u h

  answered-Leaves :
      {A : Type 0} (kind : Text) (parse : Text → Result (DispatchOutcome A) Text)
      (o : Run (Result (Unit {0}) Reason × Worker S F J W O))
      → Leaves o
      → Leaves (answered kind parse o)
  unfolding answered take_outcome
  answered-Leaves kind parse (done (ok _, u)) h = same-Follows u _ refl refl refl h
  answered-Leaves kind parse (done (err reason, u)) h = h
  answered-Leaves kind parse panicked h = tt
  answered-Leaves kind parse hung h = tt
  answered-Leaves kind parse starved h = tt

  to_response-Leaves :
      (o : Run (Result DispatchResponse Reason × Worker S F J W O))
      → Leaves o
      → Leaves (to_response o)
  unfolding to_response
  to_response-Leaves (done (ok r, u)) h = h
  to_response-Leaves (done (err reason, u)) h = h
  to_response-Leaves panicked h = tt
  to_response-Leaves hung h = tt
  to_response-Leaves starved h = tt

module _ {S F J W O M X R : Type 0} (platform : Platform S J F W O) (wire : Wire M X R)
    (wakes : (now wait : ℕ) → now + wait ≤ platform.wake now wait) (fuel : ℕ)
    (w : Worker S F J W O) where
  abbrev next : ℕ
  next = (w.dispatches + 1) % 2 ^ 64

  dispatch-Leaves :
      (dispatcher event : Text)
      → Leaves platform wakes w next (dispatch platform fuel dispatcher event w)
  unfolding dispatch
  dispatch-Leaves dispatcher event = dispatched-Leaves platform wakes w next fuel _ (
      eval-keeps platform (Follows next w) (Follows-WorkerInvariant platform wakes w next) wakes _
        (begin w) (Follows-begin w))

  -- An event that is refused before it is dispatched leaves the number, any other takes the next.
  abbrev LeftRun : {A : Type 0} → Run (A × Worker S F J W O) → Type 0
  LeftRun (done (a, u)) = Follows w.dispatches w u ⊎ Follows next w u
  LeftRun _ = Unit

  abbrev LeftSent : Run (Result (Unit {0}) Reason × Option (Sent R) × Worker S F J W O) → Type 0
  LeftSent (done (r, sent, u)) = Follows w.dispatches w u ⊎ Follows next w u
  LeftSent _ = Unit

  Leaves-LeftRun :
      {A : Type 0} (o : Run (A × Worker S F J W O)) → Leaves platform wakes w next o → LeftRun o
  Leaves-LeftRun (done (a, u)) h = inr h
  Leaves-LeftRun panicked h = tt
  Leaves-LeftRun hung h = tt
  Leaves-LeftRun starved h = tt

  fetch_with-Left :
      (req : HttpRequest M) (body : Result (Option Text) Reason)
      → IsSynced w
      → LeftRun (fetch_with platform wire fuel req body w)
  unfolding fetch_with
  fetch_with-Left req (err reason) s = inl (Follows-refl w s)
  fetch_with-Left req (ok body) s = Leaves-LeftRun _ (
      to_response-Leaves platform wakes w next _ (
        answered-Leaves platform wakes w next (bytes "fetch") wire.parse_response _
          (dispatch-Leaves _ _)))

  handle_task-Left : (init : TaskInit X) → LeftRun (handle_task platform wire fuel init w)
  unfolding handle_task
  handle_task-Left init =
      Leaves-LeftRun _ (
        answered-Leaves platform wakes w next (bytes "task") wire.parse_task _
          (dispatch-Leaves _ _))

  send_response-Left :
      (o : Run (Result HttpResponse Reason × Worker S F J W O))
      → LeftRun o
      → LeftSent (send_response platform wire o)
  unfolding send_response
  send_response-Left (done (ok r, u)) h = h
  send_response-Left (done (err reason, u)) h = h
  send_response-Left panicked h = tt
  send_response-Left hung h = tt
  send_response-Left starved h = tt

  send_result-Left :
      (o : Run (Result R Reason × Worker S F J W O))
      → LeftRun o
      → LeftSent (send_result platform wire o)
  unfolding send_result
  send_result-Left (done (ok r, u)) h = h
  send_result-Left (done (err reason, u)) h = h
  send_result-Left panicked h = tt
  send_result-Left hung h = tt
  send_result-Left starved h = tt

  refuse_or-Left :
      (refused : Bool) (event : Event M X)
      → IsSynced w
      → LeftSent (refuse_or platform wire refused fuel event w)
  unfolding refuse_or handle handle_fetch
  refuse_or-Left true event s = inl (Follows-refl w s)
  refuse_or-Left false (fetch none) s = inl (Follows-refl w s)
  refuse_or-Left false (fetch (some req)) s =
      send_response-Left _ (fetch_with-Left req (request_text platform wire req.body) s)
  refuse_or-Left false (task none) s = inl (Follows-refl w s)
  refuse_or-Left false (task (some init)) s = send_result-Left _ (handle_task-Left init)

  -- When `exec` returns, the host answers for the dispatch that the worker began last, as before; that is the one of
  -- before or the next one, modulo 2 ^ 64; and the abort flag, the limit, the operations handle and the
  -- start are as they were. Sleeping is taken not to end early.
  pub exec-Follows :
      (event : Event M X) (u : Worker S F J W O) (r : Result (Unit {0}) Reason)
      (sent : Option (Sent R))
      → IsSynced w
      → exec platform wire fuel event w ≡ done (r, sent, u)
      → Follows w.dispatches w u ⊎ Follows ((w.dispatches + 1) % 2 ^ 64) w u
  unfolding exec
  exec-Follows event u r sent s e = rw e at (refuse_or-Left w.is_aborted event s)
