-- ===== src/Timers/Sorting.antt =====
-- Timers in the order in which src/worker.rs hands them out.
use openworkers_runtime_nova.Prelude.{
  ◌≡◌, ◌≢◌, refl, sym, ◌∙◌, ap, inl, inr, Bool, true, false, List, [], ◌∷◌, ◌++◌, arith,
  if◌then◌else◌, All, All-retain, All-imp, Bool-cases, retain,
}
use openworkers_runtime_nova.Timers.{Timer, before}

module _ {F : Type 0} where
  unfoldable pub insert : Timer F → List (Timer F) → List (Timer F)
  insert t [] = t ∷ []
  insert t (u ∷ us) = let rest = insert t us in if before t u then t ∷ u ∷ us else u ∷ rest

  insert-before :
      (t u : Timer F) (us : List (Timer F)) → before t u ≡ true → insert t (u ∷ us) ≡ t ∷ u ∷ us
  unfolding insert
  insert-before t u us e = rw e refl

  insert-after :
      (t u : Timer F) (us : List (Timer F))
      → before t u ≡ false
      → insert t (u ∷ us) ≡ u ∷ insert t us
  unfolding insert
  insert-after t u us e = rw e refl

  abbrev pub sort : List (Timer F) → List (Timer F)
  sort [] = []
  sort (t ∷ ts) = insert t (sort ts)

  abbrev pub Sorted : List (Timer F) → Type 0
  Sorted [] = Unit
  Sorted (t ∷ ts) = All (λ u. before u t ≡ false) ts × Sorted ts

  before_asym : (t u : Timer F) → before t u ≡ true → before u t ≡ false
  unfolding before
  before_asym t u h = ground arith

  before_total : (t u : Timer F) → t.seq ≢ u.seq → before t u ≡ false → before u t ≡ true
  unfolding before
  before_total t u n h = ground arith

  before_of : (t u v : Timer F) → before t u ≡ true → before v u ≡ false → before t v ≡ true
  unfolding before
  before_of t u v h k = ground arith

  pub All-insert :
      (P : Timer F → Type 0) (t : Timer F) (ts : List (Timer F))
      → P t
      → All P ts
      → All P (insert t ts)
  All-insert P t [] p h = unfold insert in (p, h)
  All-insert P t (u ∷ us) p h = elim (Bool-cases (before t u)) [
    | inl t_u ↦ rw (insert-before t u us t_u) (p, h)
    | inr u_t ↦ rw (insert-after t u us u_t) (h.0, All-insert P t us p h.1)
  ]

  pub All-sort : (P : Timer F → Type 0) (ts : List (Timer F)) → All P ts → All P (sort ts)
  All-sort P [] h = h
  All-sort P (t ∷ ts) h = All-insert P t (sort ts) h.0 (All-sort P ts h.1)

  All-before :
      (t u : Timer F) (us : List (Timer F))
      → before t u ≡ true
      → All (λ v. before v u ≡ false) us
      → All (λ v. before t v ≡ true) us
  All-before t u us e h = All-imp _ _ us (λ v later. before_of t u v e later) h

  insert-Sorted : (t : Timer F) (ts : List (Timer F)) → Sorted ts → Sorted (insert t ts)
  insert-Sorted t [] h = unfold insert in (tt, tt)
  insert-Sorted t (u ∷ us) h = elim (Bool-cases (before t u)) [
    | inl t_u ↦ rw (insert-before t u us t_u) (
      (
        before_asym t u t_u,
        All-imp _ _ us (λ v later. before_asym t v later) (All-before t u us t_u h.0),
      ),
      h,
    )
    | inr u_t ↦ rw (insert-after t u us u_t) (All-insert _ t us u_t h.0, insert-Sorted t us h.1)
  ]

  pub sort-Sorted : (ts : List (Timer F)) → Sorted (sort ts)
  sort-Sorted [] = tt
  sort-Sorted (t ∷ ts) = insert-Sorted t (sort ts) (sort-Sorted ts)

  insert-first :
      (t : Timer F) (ts : List (Timer F)) → All (λ u. before t u ≡ true) ts → insert t ts ≡ t ∷ ts
  insert-first t [] h = unfold insert in refl
  insert-first t (u ∷ us) h = insert-before t u us h.0

  insert-swap :
      (t u : Timer F) (ts : List (Timer F))
      → t.seq ≢ u.seq
      → insert t ts ≡ t ∷ ts
      → insert u ts ≡ u ∷ ts
      → insert t (insert u ts) ≡ insert u (insert t ts)
  insert-swap t u ts n et eu =
      rw (et, eu)
        (elim (Bool-cases (before t u)) [
          | inl t_u ↦
              rw (insert-before t u ts t_u, insert-after u t ts (before_asym t u t_u), eu) refl
          | inr u_t ↦
              rw (insert-after t u ts u_t, insert-before u t ts (before_total t u n u_t), et) refl
        ])

  insert-apart :
      (t u x : Timer F) (xs : List (Timer F))
      → before t x ≡ true
      → before u x ≡ false
      → insert t (insert u (x ∷ xs)) ≡ insert u (insert t (x ∷ xs))
  insert-apart t u x xs t_x x_u =
      rw (insert-after u x xs x_u, insert-before t x xs t_x)
        (rw
          (
            insert-before t x (insert u xs) t_x,
            insert-after u t (x ∷ xs) (before_asym t u (before_of t x u t_x x_u)),
            insert-after u x xs x_u,
          )
          refl)

  -- Insertion of timers with different numbers commutes.
  insert-insert :
      (t u : Timer F) (xs : List (Timer F))
      → t.seq ≢ u.seq
      → insert t (insert u xs) ≡ insert u (insert t xs)
  insert-insert t u [] n = insert-swap t u [] n (unfold insert in refl) (unfold insert in refl)
  insert-insert t u (x ∷ xs) n = elim (Bool-cases (before t x)) [
    | inl t_x ↦ elim (Bool-cases (before u x)) [
      | inl u_x ↦ insert-swap t u (x ∷ xs) n (insert-before t x xs t_x) (insert-before u x xs u_x)
      | inr x_u ↦ insert-apart t u x xs t_x x_u
    ]
    | inr x_t ↦ elim (Bool-cases (before u x)) [
      | inl u_x ↦ sym (insert-apart u t x xs u_x x_t)
      | inr x_u ↦
          rw (insert-after u x xs x_u, insert-after t x xs x_t)
            (rw (insert-after t x (insert u xs) x_t, insert-after u x (insert t xs) x_u)
              (ap (λ r. x ∷ r) (insert-insert t u xs n)))
    ]
  ]

  -- A timer may be taken out of the list before it is sorted.
  pub sort-append :
      (pre post : List (Timer F)) (t : Timer F)
      → All (λ u. u.seq ≢ t.seq) pre
      → sort (pre ++ (t ∷ post)) ≡ insert t (sort (pre ++ post))
  sort-append [] post t h = refl
  sort-append (x ∷ pre) post t h =
      ap (insert x) (sort-append pre post t h.1) ∙ insert-insert x t (sort (pre ++ post)) h.0

  -- The timer that comes first stands first once the list is sorted.
  pub sort-first :
      (pre post : List (Timer F)) (t : Timer F)
      → All (λ u. u.seq ≢ t.seq) pre
      → All (λ u. before t u ≡ true) (pre ++ post)
      → sort (pre ++ (t ∷ post)) ≡ t ∷ sort (pre ++ post)
  sort-first pre post t apart h =
      sort-append pre post t apart ∙ insert-first t _ (All-sort _ (pre ++ post) h)

  module _ (keep : Timer F → Bool) where
    retain-kept :
        (u : Timer F) (us : List (Timer F))
        → keep u ≡ true
        → retain keep (u ∷ us) ≡ u ∷ retain keep us
    unfolding retain
    retain-kept u us e = rw e refl

    retain-dropped :
        (u : Timer F) (us : List (Timer F)) → keep u ≡ false → retain keep (u ∷ us) ≡ retain keep us
    unfolding retain
    retain-dropped u us e = rw e refl

    abbrev Inserted : Timer F → List (Timer F) → Type 0
    Inserted t ts =
        retain keep (insert t ts) ≡ (if keep t then insert t (retain keep ts) else retain keep ts)

    retain-first :
        (t : Timer F) (ts : List (Timer F)) → All (λ u. before t u ≡ true) ts → Inserted t ts
    retain-first t ts h =
        rw (insert-first t ts h, insert-first t (retain keep ts) (All-retain _ keep ts h))
          (unfold retain in refl)

    retain-after :
        (t u : Timer F) (us : List (Timer F))
        → before t u ≡ false
        → Inserted t us
        → Inserted t (u ∷ us)
    retain-after t u us e ih = elim (Bool-cases (keep u)) [
      | inl kept ↦
          rw
            (
              insert-after t u us e,
              retain-kept u us kept,
              retain-kept u (insert t us) kept,
              ih,
              insert-after t u (retain keep us) e,
            )
            (elim (Bool-cases (keep t)) [ inl b ↦ rw b refl | inr b ↦ rw b refl ])
      | inr dropped ↦
          rw
            (
              insert-after t u us e,
              retain-dropped u us dropped,
              retain-dropped u (insert t us) dropped,
            )
            ih
    ]

    retain-insert : (t : Timer F) (ts : List (Timer F)) → Sorted ts → Inserted t ts
    retain-insert t [] h = retain-first t [] tt
    retain-insert t (u ∷ us) h = elim (Bool-cases (before t u)) [
      | inl t_u ↦ retain-first t (u ∷ us) (t_u, All-before t u us t_u h.0)
      | inr u_t ↦ retain-after t u us u_t (retain-insert t us h.1)
    ]

    -- Dropping timers and sorting commute.
    pub sort-retain : (ts : List (Timer F)) → sort (retain keep ts) ≡ retain keep (sort ts)
    sort-retain [] = unfold retain in refl
    sort-retain (t ∷ ts) =
        rw (retain-insert t (sort ts) (sort-Sorted ts)) (elim (Bool-cases (keep t)) [
          | inl kept ↦ rw (retain-kept t ts kept, kept) (ap (insert t) (sort-retain ts))
          | inr dropped ↦ rw (retain-dropped t ts dropped, dropped) (sort-retain ts)
        ])
