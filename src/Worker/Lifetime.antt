-- ===== src/Worker/Lifetime.antt =====
-- What a worker of src/worker.rs owns by hand: the hooks that `build` leaks, and the agent, which is dropped by hand.
-- `none` is behaviour that Rust does not define.
use openworkers_runtime_nova.Prelude.{
  ◌≡◌, refl, Bool, true, false, Option, none, some, List, [], ◌∷◌, if◌then◌else◌, ◌&&◌, not,
}

-- Whether the hooks and the agent are there, and the jobs of the hooks, which hold roots into the agent's heap.
pub record Memory (J : Type 0) : Type 0 where
  pub hooks : Bool
  pub agent : Bool
  pub jobs : List J

abbrev after : {A B : Type 0} → Option A → (A → Option B) → Option B
after none next = none
after (some a) next = next a

module _ {J : Type 0} where
  -- `build` leaks the hooks, and then makes the agent, which holds a reference to them.
  unfoldable pub leak : Memory J
  leak = record { hooks = true; agent = true; jobs = [] }

  -- Jobs are dropped with their roots.
  unfoldable pub clear : Memory J → Option (Memory J)
  clear m = if m.hooks && m.agent then some (record m { jobs = [] }) else none

  -- `ManuallyDrop::drop`, once, while the hooks are there, and no root is left.
  abbrev no_roots : List J → Bool
  no_roots [] = true
  no_roots (job ∷ rest) = false

  unfoldable pub drop_agent : Memory J → Option (Memory J)
  drop_agent m =
      if m.hooks && (m.agent && no_roots m.jobs) then some (record m { agent = false }) else none

  -- `Box::from_raw`, once, when the agent's reference is gone.
  unfoldable pub free_hooks : Memory J → Option (Memory J)
  free_hooks m = if m.hooks && not m.agent then some (record m { hooks = false }) else none

  unfoldable pub drop : Memory J → Option (Memory J)
  unfolding clear drop_agent free_hooks
  drop m = after (after (clear m) drop_agent) free_hooks

  -- A worker that was built and has queued any jobs is dropped once, without behaviour that is not defined, and nothing
  -- of it is left; it cannot be dropped again.
  drop-drop :
      (jobs : List J)
      → (drop (record leak { jobs = jobs })
          ≡ some (record { hooks = false; agent = false; jobs = [] }))
        × (after (drop (record leak { jobs = jobs })) drop ≡ none)
  unfolding drop leak
  drop-drop jobs = (refl, refl)
