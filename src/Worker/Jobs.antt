-- ===== src/Worker/Jobs.antt =====
-- `drain_jobs` of src/worker.rs: the turns that it takes, and what it leaves in the queue.
use openworkers_runtime_nova.Prelude.{
  ℕ, zero, suc, ◌≤◌, ◌<◌, ◌≡◌, ◌≢◌, refl, List, [], ◌∷◌, Result, ok, err, Outcome, returns, panics,
  arith,
}
use openworkers_runtime_nova.Engine.{Platform}
use openworkers_runtime_nova.Worker.{
  Worker, Reason, max_iterations_reached, take_job, clear_jobs, jobs_turn, jobs_end, drain_turns,
  drain_jobs, max_jobs,
}

module _ {S F J W O : Type 0} (platform : Platform S J F W O) where
  -- A number of turns, each on the job at the head of the queue.
  pub data Turns : ℕ → Worker S F J W O → Worker S F J W O → Type 0 where
    stays : {w : Worker S F J W O} → Turns zero w w
    takes :
        {n : ℕ} {w v u : Worker S F J W O} (job : J) (rest : List J)
        → w.host.jobs ≡ job ∷ rest
        → take_job platform job rest w ≡ returns v
        → Turns n v u
        → Turns (suc n) w u

  -- What `drain_jobs` with a budget of turns may give.
  abbrev pub Drained :
      ℕ → Worker S F J W O → Outcome (Result (Unit {0}) Reason × Worker S F J W O) → Type 0
  Drained n w (returns (ok _, u)) = (k : ℕ) × (k ≤ n) × Turns k w u × (u.host.jobs ≡ [])
  Drained n w (returns (err reason, u)) =
      (v : Worker S F J W O) × Turns n w v
      × (v.host.jobs ≢ [])
      × (reason ≡ max_iterations_reached)
      × (u ≡ clear_jobs v)
  Drained n w panics =
      (k : ℕ) × (v : Worker S F J W O) × (job : J) × (rest : List J) × (k < n)
      × Turns k w v
      × (v.host.jobs ≡ job ∷ rest)
      × (take_job platform job rest v ≡ panics)

  Drained-step :
      (n : ℕ) (w v : Worker S F J W O) (job : J) (rest : List J)
      → w.host.jobs ≡ job ∷ rest
      → take_job platform job rest w ≡ returns v
      → (o : Outcome (Result (Unit {0}) Reason × Worker S F J W O)) → Drained n v o
      → Drained (suc n) w o
  Drained-step n w v job rest e t (returns (ok _, u)) (k, small, turns, empty) =
      (suc k, omega arith, takes job rest e t turns, empty)
  Drained-step n w v job rest e t (returns (err reason, u)) (v', turns, more, why, same) =
      (v', takes job rest e t turns, more, why, same)
  Drained-step n w v job rest e t panics (k, v', job', rest', small, turns, e', p) =
      (suc k, v', job', rest', omega arith, takes job rest e t turns, e', p)

  jobs_turn-Drained :
      (n : ℕ) (w : Worker S F J W O) (jobs : List J)
      → w.host.jobs ≡ jobs
      → ((v : Worker S F J W O) → Drained n v (drain_turns platform n v))
      → Drained (suc n) w (jobs_turn platform (drain_turns platform n) jobs w)
  jobs_turn-Drained n w [] e ih = unfold jobs_turn in (0, omega arith, stays, e)
  jobs_turn-Drained n w (job ∷ rest) e ih = go (take_job platform job rest w) refl
    where
      go :
          (o : Outcome (Worker S F J W O))
          → take_job platform job rest w ≡ o
          → Drained (suc n) w (jobs_turn platform (drain_turns platform n) (job ∷ rest) w)
      go panics t = unfold jobs_turn in rw t (0, w, job, rest, omega arith, stays, e, t)
      go (returns v) t = unfold jobs_turn in rw t (Drained-step n w v job rest e t _ (ih v))

  jobs_end-Drained :
      (w : Worker S F J W O) (jobs : List J)
      → w.host.jobs ≡ jobs
      → Drained zero w (jobs_end platform jobs w)
  unfolding jobs_end
  jobs_end-Drained w [] e = (0, omega arith, stays, e)
  jobs_end-Drained w (job ∷ rest) e = (w, stays, λ empty. cc, refl, refl)

  drain_turns-Drained : (n : ℕ) (w : Worker S F J W O) → Drained n w (drain_turns platform n w)
  unfolding drain_turns
  drain_turns-Drained zero w = jobs_end-Drained w w.host.jobs refl
  drain_turns-Drained (suc n) w = jobs_turn-Drained n w w.host.jobs refl (drain_turns-Drained n)

  -- `drain_jobs` takes the job at the head of the queue, turn by turn. It succeeds when the queue is empty
  -- after at most 10000 turns, the last of them included; it fails, with the rest of the queue dropped,
  -- when a job is left after exactly 10000 turns; and it panics only in a turn that panics.
  pub drain_jobs-Drained : (w : Worker S F J W O) → Drained max_jobs w (drain_jobs platform w)
  unfolding drain_jobs
  drain_jobs-Drained w = drain_turns-Drained max_jobs w

  Drained-jobs :
      (n : ℕ) (w u : Worker S F J W O) (r : Result (Unit {0}) Reason)
      → Drained n w (returns (r, u))
      → u.host.jobs ≡ []
  unfolding clear_jobs
  Drained-jobs n w u (ok _) (k, small, turns, empty) = empty
  Drained-jobs n w u (err reason) (v, turns, more, why, same) = rw same refl

  -- Whether it succeeds or fails, `drain_jobs` leaves no job behind for the next event.
  pub jobs-drain_jobs :
      (w u : Worker S F J W O) (r : Result (Unit {0}) Reason)
      → drain_jobs platform w ≡ returns (r, u)
      → u.host.jobs ≡ []
  jobs-drain_jobs w u r e = Drained-jobs max_jobs w u r (rw e at (drain_jobs-Drained w))

  Drained-reason :
      (n : ℕ) (w u : Worker S F J W O) (reason : Reason)
      → Drained n w (returns (err reason, u))
      → reason ≡ max_iterations_reached
  Drained-reason n w u reason (v, turns, more, why, same) = why

  pub drain_jobs-reason :
      (w u : Worker S F J W O) (reason : Reason)
      → drain_jobs platform w ≡ returns (err reason, u)
      → reason ≡ max_iterations_reached
  drain_jobs-reason w u reason e =
      Drained-reason max_jobs w u reason (rw e at (drain_jobs-Drained w))
