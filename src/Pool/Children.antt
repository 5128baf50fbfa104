-- ===== src/Pool/Children.antt =====
-- The children that are alive over a history of the pool's events, counted from the events: a child
-- starts or closes with the task that does it, and exits with `forgetExitedChild`.
use omp_bundler.Prelude.{ℕ, ◌-◌, List, [], ◌∷◌, ◌&&◌, none, some, Text, ◌==◌, if◌then◌else◌}
use omp_bundler.Prelude.Maps.{get}
use omp_bundler.StorageKey.{storage_key}
use omp_bundler.Pool.{Task, closes, spawns, Pool}
use omp_bundler.Pool.Sections.{is_at}
use omp_bundler.Pool.Machine.{
  Wake, child_closed, child_kept, child_started, Event, forgets, ends_pool, wakes, pick, step,
}
use omp_bundler.Pool.Slots.{is_here}
use omp_bundler.Pool.Creation.{started_children}

-- After the wait of a task, with `n` before. A child that did not close gets its entry back and takes
-- the place of a child that has it.
abbrev pub woken_children : Text → Pool → Task → Wake → ℕ → ℕ
woken_children ts s (closes p id c rest failed) child_closed n = n - 1
woken_children ts s (closes p id c rest failed) child_kept n =
    if is_here (get id s.entries) then n - 1 else n
woken_children ts s (spawns x a k) (child_started up) n = started_children ts s a k up n
woken_children ts s task wake n = n

-- After an event. The end of `close` has dealt with every child.
abbrev pub children_after : Text → Pool → Event → ℕ → ℕ
children_after ts s (forgets a k c) n =
    if is_at c (get (storage_key a k) s.entries) then n - 1 else n
children_after ts s (ends_pool exits) n =
    if s.closed && (s.pending_creations == 0 && s.closing == 0) then 0 else n
children_after ts s (wakes i wake) n = elim (pick i s.tasks) [
  | none ↦ n
  | some (task, tasks) ↦ woken_children ts (record s { tasks = tasks }) task wake n
]
children_after ts s e n = n

-- Over a history. A child whose entry another child takes is no longer counted, though it is alive.
abbrev pub children : Pool → List (Text × Event) → ℕ → ℕ
children s [] n = n
children s ((ts, e) ∷ es) n = children (step ts s e) es (children_after ts s e n)
