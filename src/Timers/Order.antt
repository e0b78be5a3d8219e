-- ===== src/Timers/Order.antt =====
-- Which timer `next_timer` of src/worker.rs hands out, and what it does to the rest.
use openworkers_runtime_nova.Prelude.{
  ℕ, suc, ◌≡◌, refl, ap, inl, inr, true, false, Option, none, some, List, [], ◌∷◌, ◌++◌, arith,
  Outcome, returns, panics, All, All-append, All-imp, Bool-cases,
}
use openworkers_runtime_nova.Timers.{
  Timer, Timers, before, earliest, splice, reschedule, next_timer,
}

module _ {F : Type 0} where
  pub before_trans : (t u v : Timer F) → before t u ≡ true → before u v ≡ true → before t v ≡ true
  unfolding before
  before_trans t u v h k = ground arith

  not-before_trans :
      (t u v : Timer F) → before u t ≡ false → before v u ≡ false → before v t ≡ false
  unfolding before
  not-before_trans t u v h k = ground arith

  -- `t` stands between timers that it comes before, and timers that do not come before it.
  pub record Splits (ts : List (Timer F)) (i : ℕ) (t : Timer F) : Type 0 where
    pub pre : List (Timer F)
    pub post : List (Timer F)
    pub whole : ts ≡ pre ++ (t ∷ post)
    pub first : All (λ u. before t u ≡ true) pre
    pub least : All (λ u. before u t ≡ false) post
    pub spliced : (new : List (Timer F)) → splice i new ts ≡ pre ++ (new ++ post)

  abbrev Picks : List (Timer F) → Option (ℕ × Timer F) → Type 0
  Picks ts none = ts ≡ []
  Picks ts (some (i, t)) = Splits ts i t

  Splits-one : (t : Timer F) → Splits (t ∷ []) 0 t
  unfolding splice
  Splits-one t = record {
    pre = [];
    post = [];
    whole = refl;
    first = tt;
    least = tt;
    spliced = λ new. refl;
  }

  least_of :
      (ts : List (Timer F)) (i : ℕ) (t u : Timer F)
      → Splits ts i u
      → before u t ≡ false
      → All (λ w. before w t ≡ false) ts
  least_of ts i t u s h = rw s.whole (
      All-append _ s.pre (u ∷ s.post)
        (All-imp _ _ s.pre (λ w later. ground (arith, before_trans u w t)) s.first)
        (h, All-imp _ _ s.post (λ w least. not-before_trans t u w h least) s.least))

  Splits-here :
      (ts : List (Timer F)) (i : ℕ) (t u : Timer F)
      → Splits ts i u
      → before u t ≡ false
      → Splits (t ∷ ts) 0 t
  unfolding splice
  Splits-here ts i t u s h = record {
    pre = [];
    post = ts;
    whole = refl;
    first = tt;
    least = least_of ts i t u s h;
    spliced = λ new. refl;
  }

  Splits-later :
      (ts : List (Timer F)) (i : ℕ) (t u : Timer F)
      → Splits ts i u
      → before u t ≡ true
      → Splits (t ∷ ts) (suc i) u
  unfolding splice
  Splits-later ts i t u s h = record {
    pre = t ∷ s.pre;
    post = s.post;
    whole = ap (λ r. t ∷ r) s.whole;
    first = (h, s.first);
    least = s.least;
    spliced = λ new. ap (λ r. t ∷ r) (s.spliced new);
  }

  earliest-Picks-cons :
      (t : Timer F) (ts : List (Timer F)) (o : Option (ℕ × Timer F))
      → earliest ts ≡ o
      → Picks ts o
      → Picks (t ∷ ts) (earliest (t ∷ ts))
  unfolding earliest
  earliest-Picks-cons t ts none e p = rw e (rw p (Splits-one t))
  earliest-Picks-cons t ts (some (i, u)) e s = rw e (elim (Bool-cases (before u t)) [
    | inl yes_before ↦ rw yes_before (Splits-later ts i t u s yes_before)
    | inr not_before ↦ rw not_before (Splits-here ts i t u s not_before)
  ])

  pub earliest-Picks : (ts : List (Timer F)) → Picks ts (earliest ts)
  earliest-Picks [] = unfold earliest in refl
  earliest-Picks (t ∷ ts) = earliest-Picks-cons t ts (earliest ts) refl (earliest-Picks ts)

  -- The due timer splits the list: each timer set ahead of it in the list is due strictly later (or as
  -- soon, but set later), no other is due sooner, and only its own place changes.
  pub record Due (ts : List (Timer F)) (due : F × ℕ) (ts' : List (Timer F)) : Type 0 where
    pub timer : Timer F
    pub pre : List (Timer F)
    pub post : List (Timer F)
    pub new : List (Timer F)
    pub named : due ≡ (timer.handle, timer.at)
    pub whole : ts ≡ pre ++ (timer ∷ post)
    pub first : All (λ u. before timer u ≡ true) pre
    pub least : All (λ u. before u timer ≡ false) post
    pub renewed : reschedule timer ≡ returns new
    pub rest : ts' ≡ pre ++ (new ++ post)

  abbrev pub NextTimer : Timers F → Outcome (Option (F × ℕ) × Timers F) → Type 0
  NextTimer slots panics =
      (i : ℕ) × (t : Timer F) × Splits slots.timers i t × (reschedule t ≡ panics)
  NextTimer slots (returns (none, slots')) = (slots.timers ≡ []) × (slots' ≡ slots)
  NextTimer slots (returns (some due, slots')) =
      Due slots.timers due slots'.timers × (slots'.timer_seq ≡ slots.timer_seq)

  next_timer-none :
      (slots : Timers F) → earliest slots.timers ≡ none → next_timer slots ≡ returns (none, slots)
  unfolding next_timer
  next_timer-none slots e = rw (e, next_timer)

  next_timer-panics :
      (slots : Timers F) (i : ℕ) (t : Timer F)
      → earliest slots.timers ≡ some (i, t)
      → reschedule t ≡ panics
      → next_timer slots ≡ panics
  unfolding next_timer
  next_timer-panics slots i t e r = rw (e, next_timer) (rw (r, next_timer))

  next_timer-some :
      (slots : Timers F) (i : ℕ) (t : Timer F) (new : List (Timer F))
      → earliest slots.timers ≡ some (i, t)
      → reschedule t ≡ returns new
      → next_timer slots
        ≡ returns (some (t.handle, t.at), record slots { timers = splice i new slots.timers })
  unfolding next_timer
  next_timer-some slots i t new e r = rw (e, next_timer) (rw (r, next_timer))

  next_timer_due :
      (slots : Timers F) (i : ℕ) (t : Timer F) (o : Outcome (List (Timer F)))
      → earliest slots.timers ≡ some (i, t)
      → reschedule t ≡ o
      → Splits slots.timers i t
      → NextTimer slots (next_timer slots)
  next_timer_due slots i t panics e r s = rw (next_timer-panics slots i t e r) (i, t, s, r)
  next_timer_due slots i t (returns new) e r s = rw (next_timer-some slots i t new e r) (due, refl)
    where
      due : Due slots.timers (t.handle, t.at) (splice i new slots.timers)
      due = record {
        timer = t;
        pre = s.pre;
        post = s.post;
        new = new;
        named = refl;
        whole = s.whole;
        first = s.first;
        least = s.least;
        renewed = r;
        rest = s.spliced new;
      }

  next_timer_picked :
      (slots : Timers F) (o : Option (ℕ × Timer F))
      → earliest slots.timers ≡ o
      → Picks slots.timers o
      → NextTimer slots (next_timer slots)
  next_timer_picked slots none e p = rw (next_timer-none slots e) (p, refl)
  next_timer_picked slots (some (i, t)) e s = next_timer_due slots i t (reschedule t) e refl s

  -- `next_timer` hands out nothing exactly when no timer is set, and else the timer due first, of those
  -- due at one instant the one set first; that timer is rescheduled in its place or dropped, the
  -- others stay as they are. It panics only where the rescheduled instant cannot be represented.
  pub next_timer-NextTimer : (slots : Timers F) → NextTimer slots (next_timer slots)
  next_timer-NextTimer slots =
      next_timer_picked slots (earliest slots.timers) refl (earliest-Picks slots.timers)
