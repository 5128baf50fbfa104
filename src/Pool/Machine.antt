-- ===== src/Pool/Machine.antt =====
-- packages/core/src/pool-manager.ts: the pool as a machine. An event is a call of a method, or the end
-- of the wait of one task; any task may be the next, whatever order the run time would choose.
use omp_bundler.Prelude.{
  ℕ, zero, suc, List, [], ◌∷◌, Bool, true, false, not, ◌&&◌, ◌||◌, Option, none, some, Text, ◌==◌,
  if◌then◌else◌,
}
use omp_bundler.Prelude.Results.{Result, ok, err}
use omp_bundler.Prelude.Maps.{get, remove}
use omp_bundler.Prelude.Rows.{select, delete}
use omp_bundler.StorageKey.{storage_key}
use omp_bundler.Sessions.{SessionRecord, touch}
use omp_bundler.Pool.{
  PoolError, factory_failed, pool_closed, Waiter, for_idle, for_retire, Task, closes, continues,
  spawns, awaits, Pool, object, is_in_use, is_retired, mutate, touch_lru, answer,
}
use omp_bundler.Pool.Sections.{drop_idle_timer, is_at, detach, idle_entries, drain_waiters, acquire}
use omp_bundler.Pool.Wakes.{
  refuse_all, close_next, continue_after, not_closed, release_ownership, did_close, settle, Startup,
  started, created_for,
}

-- `Lease.release`: the second call for one lease does nothing.
unfoldable pub release_entry : Text → Text → Pool → Pool
release_entry ts id s = elim (get id s.entries) [
  | none ↦ s
  | some c ↦
      let t =
        touch_lru id
          (mutate c (λ e. record e { in_use = false; last_used_at = ts; idle_timer = true }) s) in
      let touched : List SessionRecord = elim (object s c) [
        | none ↦ t.rows
        | some e ↦ (touch t.rows e.adapter_id e.conversation_key ts).0
      ] in
      if s.closed || is_retired s c then s else drain_waiters ts (record t { rows = touched })
]

-- A caller's number stands for one lease, so the lease that is gone is the one released before.
unfoldable pub release_lease : Text → ℕ → Pool → Pool
release_lease ts caller s = elim (select (λ (l : ℕ × Text). l.0 == caller) s.leases) [
  | none ↦ s
  | some l ↦
      release_entry ts l.1 (record s { leases = delete (λ (m : ℕ × Text). m.0 == caller) s.leases })
]

unfoldable pub forget_exited_child : Text → Text → Text → ℕ → Pool → Pool
forget_exited_child ts a k c s =
    let id = storage_key a k in
    let t = record (drop_idle_timer c s) {
      entries = remove id s.entries;
      rows = release_ownership ts (object s c) s.rows;
    } in
    if is_at c (get id s.entries) then drain_waiters ts t else s

unfoldable pub retire_child : ℕ → Text → Text → ℕ → Pool → Pool
retire_child caller a k c s =
    let id = storage_key a k in
    let t = mutate c (λ e. record e { retiring = true; in_use = false }) s in
    if is_at c (get id s.entries) && not (is_retired s c)
    then detach (for_retire caller) id c [] false t
    else answer caller (ok c) s

unfoldable pub retire_conversation : ℕ → Text → Text → Pool → Pool
retire_conversation caller a k s = elim (get (storage_key a k) s.entries) [
  | none ↦ answer caller (ok 0) s
  | some c ↦ retire_child caller a k c s
]

-- The callback of the idle timer that was armed for a child; it looks the conversation up again.
unfoldable pub idle_sweep : ℕ → Pool → Pool
idle_sweep c s = elim (object s c) [
  | none ↦ s
  | some e ↦
      let id = storage_key e.adapter_id e.conversation_key in
      let t = drop_idle_timer c s in
      let swept : Pool = elim (get id s.entries) [
        | none ↦ t
        | some d ↦ if is_in_use s d then t else detach for_idle id d [] false t
      ] in
      if e.idle_timer then swept else s
]

unfoldable pub drop_timers : List (Text × ℕ) → Pool → Pool
drop_timers [] s = s
drop_timers ((id, c) ∷ entries) s = drop_timers entries (drop_idle_timer c s)

unfoldable pub close_idle : Text → ℕ → Pool → Pool
close_idle ts caller s =
    let idle = idle_entries s s.entries in close_next ts caller 0 (drop_timers idle s) idle

-- `close` up to its first wait.
unfoldable pub close_pool : Pool → Pool
close_pool s =
    if s.closed
    then s
    else drop_timers s.entries (record (refuse_all pool_closed s) { closed = true })

-- The teardown of the entries that are left, and the number of children that did not close.
unfoldable pub torn_down :
    Text → (ℕ → Bool) → Pool → List (Text × ℕ) → List SessionRecord → List SessionRecord
torn_down ts exits s [] rows = rows
torn_down ts exits s ((id, c) ∷ entries) rows =
    torn_down ts exits s entries (if exits c then release_ownership ts (object s c) rows else rows)

-- The rest of `close`, once no creation is in flight and no child is being closed; `exits` tells which
-- children close.
unfoldable pub end_pool : Text → (ℕ → Bool) → Pool → Pool
end_pool ts exits s =
    if s.closed && (s.pending_creations == 0 && s.closing == 0)
    then record s { entries = []; inflight = []; rows = torn_down ts exits s s.entries s.rows }
    else s

-- What ends the wait of a task.
pub data Wake : Type 0 where
  -- The child closed, or did not.
  child_closed child_kept : Wake
  -- The eviction or the creation that it waits for is over.
  proceed : Wake
  factory_failed_wake : Wake
  child_started : Startup → Wake

pub data Event : Type 0 where
  acquires : Waiter → Option Text → Event
  releases : ℕ → Event
  forgets : Text → Text → ℕ → Event
  retires : ℕ → Text → Text → ℕ → Event
  resets : ℕ → Text → Text → Event
  idles : ℕ → Event
  closes_idle : ℕ → Event
  closes_pool : Event
  ends_pool : (ℕ → Bool) → Event
  -- The wait of the task with this index in the list is over.
  wakes : ℕ → Wake → Event

-- A list without one of its elements, and that element.
unfoldable pub pick : ℕ → List Task → Option (Task × List Task)
pick i [] = none
pick zero (t ∷ ts) = some (t, ts)
pick (suc i) (t ∷ ts) = elim (pick i ts) [ none ↦ none | some (u, us) ↦ some (u, t ∷ us) ]

-- `s` is the pool without the task, and `still` the pool with it, for a task that does not wait for
-- what happened.
unfoldable pub woken : Text → Task → Wake → Pool → Pool → Pool
woken ts (closes p id c rest failed) child_closed s still = did_close ts p c rest s
woken ts (closes p id c rest failed) child_kept s still = not_closed ts p id c rest s
woken ts (continues p outcome) proceed s still = continue_after ts p outcome s
woken ts (spawns n a k) factory_failed_wake s still =
    settle n (storage_key a k) (err factory_failed) s
woken ts (spawns n a k) (child_started up) s still = started ts n a k up s
woken ts (awaits who n) proceed s still =
    elim (select (λ (o : ℕ × Result PoolError ℕ). o.0 == n) s.outcomes) [
      | none ↦ still
      | some o ↦ created_for ts who o.1 s
    ]
woken ts task wake s still = still

unfoldable pub step : Text → Pool → Event → Pool
step ts s (acquires w parent) = acquire ts w parent s
step ts s (releases caller) = release_lease ts caller s
step ts s (forgets a k c) = forget_exited_child ts a k c s
step ts s (retires caller a k c) = retire_child caller a k c s
step ts s (resets caller a k) = retire_conversation caller a k s
step ts s (idles c) = idle_sweep c s
step ts s (closes_idle caller) = close_idle ts caller s
step ts s closes_pool = close_pool s
step ts s (ends_pool exits) = end_pool ts exits s
step ts s (wakes i wake) = elim (pick i s.tasks) [
  | none ↦ s
  | some (task, tasks) ↦ woken ts task wake (record s { tasks = tasks }) s
]

unfoldable pub run : Pool → List (Text × Event) → Pool
unfolding step
run s [] = s
run s ((ts, e) ∷ es) = run (step ts s e) es

abbrev pub empty_pool : ℕ → List SessionRecord → Pool
empty_pool max_children rows = record {
  max_children = max_children;
  entries = [];
  objects = [];
  inflight = [];
  waiters = [];
  closed = false;
  pending_creations = 0;
  closing = 0;
  draining = false;
  tasks = [];
  outcomes = [];
  leases = [];
  replies = [];
  fresh = 0;
  rows = rows;
}

-- The constructor. On whole numbers the only options out of range are zeros.
unfoldable pub new_pool : ℕ → ℕ → List SessionRecord → Option Pool
new_pool max_children idle_timeout_ms rows =
    if max_children == 0 || idle_timeout_ms == 0 then none else some (empty_pool max_children rows)
