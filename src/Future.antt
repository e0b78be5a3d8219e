-- ===== src/Future.antt =====
-- Rust futures as src/bindings.rs builds and src/worker.rs awaits them. A future does nothing until it is
-- polled: it takes the instant of its first poll to how long it takes and what it yields, or to `none`
-- where it never ends.
use openworkers_runtime_nova.Prelude.{ℕ, ◌+◌, Option, none, some, Result, ok, err, Text}

abbrev pub Future : Type 0 → Type 0
Future A = ℕ → Option (ℕ × A)

-- `Future<Output = Result<A, String>>`.
abbrev pub Task : Type 0 → Type 0
Task A = Future (Result A Text)

module _ {A : Type 0} where
  abbrev pub ready : A → Future A
  ready a now = some (0, a)

  -- The same future, begun `d` later.
  abbrev pub later : ℕ → Future A → Future A
  later d f now = elim (f (now + d)) [ none ↦ none | some (e, a) ↦ some (d + e, a) ]

module _ {A B : Type 0} where
  -- `.await` of a future whose output is used whole.
  abbrev pub await : Future A → (A → Future B) → Future B
  await f k now = elim (f now) [ none ↦ none | some (d, a) ↦ later d (k a) now ]

  abbrev pub or_fail : Result A Text → (A → Task B) → Task B
  or_fail (ok a) k = k a
  or_fail (err message) k = ready (err message)

module _ {A B : Type 0} where
  -- `.await?`
  infixl 5 ◌>>=◌
  abbrev pub ◌>>=◌ : Task A → (A → Task B) → Task B
  m >>= k = await m (λ r. or_fail r k)

-- `map_err(|e| format!("{prefix}{e}"))`.
module _ {A : Type 0} where
  abbrev pub map_err : (Text → Text) → Result A Text → Result A Text
  map_err f (ok a) = ok a
  map_err f (err e) = err (f e)

  abbrev pub lift : Result A Text → Task A
  lift r = ready r
