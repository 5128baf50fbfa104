-- ===== src/Pool/Sections.antt =====
-- packages/core/src/pool-manager.ts: the stretches of code between two waits. `ts` is the clock's
-- reading, and the ticks between the end of a child's teardown or of a creation and the code that
-- waits for it inside the pool are not told apart.
use omp_bundler.Prelude.{
  ℕ, ◌+◌, List, [], ◌∷◌, ◌++◌, Bool, true, false, not, ◌&&◌, Option, none, some, Text, is_empty,
  ltb, leb, ◌==◌, if◌then◌else◌,
}
use omp_bundler.Prelude.Results.{ok}
use omp_bundler.Prelude.Maps.{get, set, remove}
use omp_bundler.Sessions.{touch}
use omp_bundler.Pool.{
  adapter_id_required, conversation_key_required, pool_closed, is_retiring, Waiter, Purpose,
  for_acquire, for_drain, evicted, all_in_use, no_close, Claimant, creator, joiner, drained_creator,
  drained_joiner, closes, continues, spawns, awaits, Pool, occupied_slots, is_in_use, is_retired,
  mutate, touch_lru, reject, enqueue_waiter, add_task, key_of,
}

abbrev pub drop_idle_timer : ℕ → Pool → Pool
drop_idle_timer c = mutate c (λ e. record e { idle_timer = false })

-- A lease is made for a waiter: the entry is in use and the most recently used.
unfoldable pub hold : Text → Waiter → ℕ → Pool → Pool
hold ts w c s =
    let t = touch_lru (key_of w) (mutate c (λ e. record e { in_use = true }) s) in
    record t {
      rows = (touch t.rows w.adapter_id w.conversation_key ts).0;
      leases = t.leases ++ (w.caller, key_of w) ∷ [];
      replies = t.replies ++ (w.caller, ok c) ∷ [];
    }

-- Eviction.
abbrev pub is_at : ℕ → Option ℕ → Bool
is_at c none = false
is_at c (some d) = d == c

-- The entry is live and not in use, so it may be closed.
abbrev pub is_evictable : Pool → Text → ℕ → Bool
is_evictable s id c = is_at c (get id s.entries) && not (is_in_use s c)

unfoldable pub detach : Purpose → Text → ℕ → List (Text × ℕ) → Bool → Pool → Pool
detach p id c rest failed s = record (drop_idle_timer c s) {
  entries = remove id s.entries;
  closing = s.closing + 1;
  tasks = s.tasks ++ closes p id c rest failed ∷ [];
}

abbrev pub idle_entries : Pool → List (Text × ℕ) → List (Text × ℕ)
idle_entries s [] = []
idle_entries s ((id, c) ∷ entries) =
    let rest = idle_entries s entries in if is_in_use s c then rest else (id, c) ∷ rest

-- The loop of `evictIdleForCapacity` from a candidate on.
unfoldable pub evict_next : Purpose → Pool → Bool → List (Text × ℕ) → Pool
evict_next p s failed [] =
    add_task
      (continues p (
        if failed
        then no_close
        else if ltb (occupied_slots s) s.max_children
        then evicted
        else all_in_use))
      s
evict_next p s failed ((id, c) ∷ rest) =
    let more = evict_next p s failed rest in
    if is_evictable s id c then detach p id c rest failed s else more

unfoldable pub evict_idle_for_capacity : Purpose → Pool → Pool
evict_idle_for_capacity p s = elim (idle_entries s s.entries) [
  | [] ↦ add_task (continues p all_in_use) s
  | e ∷ rest ↦ evict_next p s false (e ∷ rest)
]

-- `createEntry`, with the claimant that waits for it.
unfoldable pub create_entry : (Waiter → Claimant) → Waiter → Pool → Pool
create_entry kind w s = elim (get (key_of w) s.inflight) [
  | some n ↦ add_task (awaits (kind w) n) s
  | none ↦ record s {
    pending_creations = s.pending_creations + 1;
    inflight = set (key_of w) s.fresh s.inflight;
    fresh = s.fresh + 1;
    tasks =
        s.tasks ++ spawns s.fresh w.adapter_id w.conversation_key ∷ awaits (kind w) s.fresh ∷ [];
  }
]

-- The head of the queue has no child and none is being created, and no slot is free.
unfoldable pub make_room : Pool → Pool
make_room s =
    if is_empty (idle_entries s s.entries)
    then s
    else if s.draining
    then s
    else evict_idle_for_capacity for_drain (record s { draining = true })

-- The loop of `drainWaiters`; the list is the queue.
unfoldable pub drain : Text → Pool → List Waiter → Pool
drain ts s [] = record s { waiters = [] }
drain ts s (w ∷ ws) = elim (get (key_of w) s.entries) [
  | some c ↦
      let refused = drain ts (reject w is_retiring s) ws in
      let served = drain ts (hold ts w c (drop_idle_timer c s)) ws in
      if is_retired s c
      then refused
      else if is_in_use s c
      then record s { waiters = w ∷ ws }
      else served
  | none ↦ elim (get (key_of w) s.inflight) [
    | some n ↦ record (add_task (awaits (drained_joiner w) n) s) { waiters = ws }
    | none ↦
        if leb s.max_children (occupied_slots s)
        then make_room (record s { waiters = w ∷ ws })
        else create_entry drained_creator w (record s { waiters = ws })
  ]
]

unfoldable pub drain_waiters : Text → Pool → Pool
drain_waiters ts s = drain ts s s.waiters

-- `acquire` up to its first wait.
unfoldable pub acquire_live : Text → Waiter → ℕ → Pool → Pool
acquire_live ts w c s =
    if is_retired s c
    then reject w is_retiring s
    else if is_in_use s c
    then enqueue_waiter w s
    else hold ts w c (drop_idle_timer c s)

unfoldable pub acquire_new : Waiter → Option Text → Pool → Pool
acquire_new w parent s = elim (get (key_of w) s.inflight) [
  | some n ↦ add_task (awaits (joiner w) n) s
  | none ↦
      if leb s.max_children (occupied_slots s)
      then evict_idle_for_capacity (for_acquire w parent) s
      else create_entry creator w s
]

unfoldable pub acquire : Text → Waiter → Option Text → Pool → Pool
acquire ts w parent s =
    if is_empty w.adapter_id
    then reject w adapter_id_required s
    else if is_empty w.conversation_key
    then reject w conversation_key_required s
    else if s.closed
    then reject w pool_closed s
    else elim (get (key_of w) s.entries) [
      | some c ↦ acquire_live ts w c s
      | none ↦ acquire_new w parent s
    ]
