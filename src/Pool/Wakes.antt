-- ===== src/Pool/Wakes.antt =====
-- packages/core/src/pool-manager.ts: what runs when a wait is over, and the methods that callers use
-- besides `acquire`.
use omp_bundler.Prelude.{
  ℕ, ◌+◌, ◌-◌, List, [], ◌∷◌, ◌++◌, Bool, true, false, Option, none, some, Text, same,
  if◌then◌else◌,
}
use omp_bundler.Prelude.Results.{Result, ok, err, ◌>>=◌}
use omp_bundler.Prelude.Maps.{set, remove}
use omp_bundler.StorageKey.{storage_key}
use omp_bundler.Sessions.{SessionRecord, StateReply, release}
use omp_bundler.Pool.{
  Entry, PoolError, pool_closed, close_failed, Waiter, Purpose, for_acquire, for_drain, for_idle,
  for_retire, for_close_idle, EvictOutcome, evicted, all_in_use, no_close, Claimant, creator,
  joiner, drained_creator, drained_joiner, continues, Pool, object, is_in_use, mutate, answer,
  reject, enqueue_waiter, add_task, key_of,
}
use omp_bundler.Pool.Claim.{claim, session_for}
use omp_bundler.Pool.Sections.{hold, is_evictable, detach, evict_next, create_entry, drain_waiters}

unfoldable pub refusals : PoolError → List Waiter → List (ℕ × Result PoolError ℕ)
refusals e [] = []
refusals e (w ∷ ws) = (w.caller, err e) ∷ refusals e ws

-- All waiters are refused, in the order of the queue.
unfoldable pub refuse_all : PoolError → Pool → Pool
unfolding refusals
refuse_all e s = record s { waiters = []; replies = s.replies ++ refusals e s.waiters }

-- The loop of `closeIdle` from a candidate on, `n` children closed so far.
unfoldable pub close_next : Text → ℕ → ℕ → Pool → List (Text × ℕ) → Pool
close_next ts caller n s [] = answer caller (ok n) (drain_waiters ts s)
close_next ts caller n s ((id, c) ∷ rest) =
    let more = close_next ts caller n s rest in
    if is_evictable s id c then detach (for_close_idle caller n) id c rest false s else more

-- The code after `await this.evictIdleForCapacity()`.
unfoldable pub continue_after : Text → Purpose → EvictOutcome → Pool → Pool
continue_after ts (for_acquire w parent) no_close s = reject w close_failed s
continue_after ts (for_acquire w parent) all_in_use s = enqueue_waiter w s
continue_after ts (for_acquire w parent) evicted s =
    if s.closed then reject w pool_closed s else create_entry creator w s
continue_after ts for_drain no_close s =
    drain_waiters ts (record (refuse_all close_failed s) { draining = false })
continue_after ts for_drain outcome s = drain_waiters ts (record s { draining = false })
continue_after ts p outcome s = s

-- `rejectWaitersFor`, from the end of the queue.
unfoldable pub reject_waiters_for : Text → PoolError → Pool → List Waiter → Pool
reject_waiters_for id e s [] = record s { waiters = [] }
reject_waiters_for id e s (w ∷ ws) =
    let t = reject_waiters_for id e s ws in
    if same (key_of w) id then reject w e t else record t { waiters = w ∷ t.waiters }

-- A child did not close: its entry is live again, idle, with its owner kept.
abbrev pub restore : Text → ℕ → Pool → Pool
restore id c s = record (mutate c (λ e. record e { in_use = false; idle_timer = false }) s) {
  entries = set id c s.entries;
  closing = s.closing - 1;
}

unfoldable pub not_closed : Text → Purpose → Text → ℕ → List (Text × ℕ) → Pool → Pool
not_closed ts (for_acquire w parent) id c rest s =
    evict_next (for_acquire w parent) (restore id c s) true rest
not_closed ts for_drain id c rest s = evict_next for_drain (restore id c s) true rest
not_closed ts for_idle id c rest s = drain_waiters ts (restore id c s)
not_closed ts (for_retire caller) id c rest s =
    let t = mutate c (λ e. record e { in_use = true }) (restore id c s) in
    answer caller (err close_failed) (reject_waiters_for id close_failed t t.waiters)
not_closed ts (for_close_idle caller n) id c rest s = close_next ts caller n (restore id c s) rest

-- `releaseOwnership`: a failure is logged and leaves the table.
unfoldable pub release_ownership : Text → Option Entry → List SessionRecord → List SessionRecord
release_ownership ts none rows = rows
release_ownership ts (some e) rows =
    elim (release rows e.adapter_id e.conversation_key e.owner_token ts) [
      | ok (rows', r) ↦ rows'
      | err x ↦ rows
    ]

-- A child closed: its ownership is released and its slot is free.
unfoldable pub free : Text → ℕ → Pool → Pool
free ts c s = record s { closing = s.closing - 1; rows = release_ownership ts (object s c) s.rows }

unfoldable pub did_close : Text → Purpose → ℕ → List (Text × ℕ) → Pool → Pool
did_close ts (for_retire caller) c rest s = answer caller (ok c) (drain_waiters ts (free ts c s))
did_close ts for_idle c rest s = drain_waiters ts (free ts c s)
did_close ts (for_close_idle caller n) c rest s = close_next ts caller (n + 1) (free ts c s) rest
did_close ts p c rest s = add_task (continues p evicted) (free ts c s)

-- The end of a creation: `createEntry`'s `finally`, with its outcome.
abbrev pub settle : ℕ → Text → Result PoolError ℕ → Pool → Pool
settle n id outcome s = record s {
  inflight = remove id s.inflight;
  pending_creations = s.pending_creations - 1;
  outcomes = s.outcomes ++ (n, outcome) ∷ [];
}

-- What the child says while its session is found, and the new owner's token.
pub record Startup : Type 0 where
  pub token : Text
  pub switched : Bool
  pub created : Bool
  pub reply : StateReply

abbrev pub new_entry : ℕ → Text → Text → Text → Text → Entry
new_entry c a k token ts = record {
  child = c;
  adapter_id = a;
  conversation_key = k;
  owner_token = token;
  in_use = false;
  retiring = false;
  last_used_at = ts;
  idle_timer = false;
}

-- The table after the session was found and claimed.
unfoldable pub prepare :
    Text → Text → Text → Startup → List SessionRecord → Result PoolError (List SessionRecord)
prepare ts a k up rows =
    session_for rows a k up.switched up.created up.reply ts >>= λ rows'. claim rows' a k up.token ts

abbrev rows_or : List SessionRecord → Result PoolError (List SessionRecord) → List SessionRecord
rows_or rows (ok rows') = rows'
rows_or rows (err e) = rows

-- `doCreate` after the child has started. After a failure the row that was
-- found or created stays.
unfoldable pub started : Text → ℕ → Text → Text → Startup → Pool → Pool
started ts n a k up s =
    let id = storage_key a k in
    let found = rows_or s.rows (session_for s.rows a k up.switched up.created up.reply ts) in
    elim (prepare ts a k up s.rows) [
      | ok rows ↦ record (settle n id (ok s.fresh) s) {
        entries = set id s.fresh s.entries;
        objects = s.objects ++ new_entry s.fresh a k up.token ts ∷ [];
        fresh = s.fresh + 1;
        rows = rows;
      }
      | err e ↦ record (settle n id (err e) s) { rows = found }
    ]

-- The code after `await` of a creation.
unfoldable pub take_joined : Text → Waiter → ℕ → Pool → Pool
take_joined ts w c s =
    if s.closed
    then reject w pool_closed s
    else if is_in_use s c
    then enqueue_waiter w s
    else hold ts w c s

unfoldable pub take_drained : Text → Waiter → ℕ → Pool → Pool
take_drained ts w c s =
    let t = if is_in_use s c then record s { waiters = w ∷ s.waiters } else hold ts w c s in
    if s.closed then reject w pool_closed s else drain_waiters ts t

unfoldable pub created_for : Text → Claimant → Result PoolError ℕ → Pool → Pool
created_for ts (creator w) (ok c) s = if s.closed then reject w pool_closed s else hold ts w c s
created_for ts (creator w) (err e) s = reject w e s
created_for ts (joiner w) (ok c) s = take_joined ts w c s
created_for ts (joiner w) (err e) s = reject w e s
created_for ts (drained_creator w) (ok c) s =
    if s.closed then reject w pool_closed s else drain_waiters ts (hold ts w c s)
created_for ts (drained_creator w) (err e) s = drain_waiters ts (reject w e s)
created_for ts (drained_joiner w) (ok c) s = take_drained ts w c s
created_for ts (drained_joiner w) (err e) s = drain_waiters ts (reject w e s)
