-- ===== src/Pool.antt =====
-- packages/core/src/pool-manager.ts: the bounded pool of child processes. The pool is single-threaded
-- code that waits: each stretch between two waits is a function from the pool before to the pool
-- after it, and what waits is a task of the pool. The entry objects, which several tasks share, are a
-- store, and the map of live entries holds their children's numbers.
pub mod Claim
pub mod Sections
pub mod Wakes
pub mod Machine
pub mod Slots
pub mod Filling
pub mod Capacity
pub mod Creation
pub mod Children
pub mod Picking
pub mod Handlers
pub mod Steps
pub mod Bounded
pub mod Takeover
pub mod Sparing
pub mod Callers
pub mod Answers
pub mod Served
mod Tests
use omp_bundler.Prelude.{
  ℕ, ◌+◌, ◌-◌, List, [], ◌∷◌, ◌++◌, Bool, true, false, not, ◌&&◌, Option, none, some, Text, length,
  ltb, leb, ◌==◌, if◌then◌else◌,
}
use omp_bundler.Prelude.Results.{Result, ok, err}
use omp_bundler.Prelude.Maps.{get, set, remove}
use omp_bundler.Prelude.Rows.{select, update}
use omp_bundler.StorageKey.{storage_key}
use omp_bundler.Sessions.{SessionRecord, RegistryError}

-- `PoolEntry`. A child stands for its entry too, which is the only one that it has.
pub record Entry : Type 0 where
  pub child : ℕ
  pub adapter_id : Text
  pub conversation_key : Text
  pub owner_token : Text
  pub in_use : Bool
  pub retiring : Bool
  pub last_used_at : Text
  -- Whether the idle timer is armed.
  pub idle_timer : Bool

pub data PoolError : Type 0 where
  adapter_id_required conversation_key_required pool_closed is_retiring : PoolError
  close_failed factory_failed row_disappeared owner_changed : PoolError
  session_failed claim_failed : RegistryError → PoolError

-- A caller of `acquire` that is to be answered, under a number of its own.
pub record Waiter : Type 0 where
  pub caller : ℕ
  pub adapter_id : Text
  pub conversation_key : Text

-- Who evicts: `acquire`, the draining of the queue, an idle timer, `retireChild`, or `closeIdle`.
pub data Purpose : Type 0 where
  for_acquire : Waiter → Option Text → Purpose
  for_drain for_idle : Purpose
  for_retire : ℕ → Purpose
  -- `closeIdle`, with the caller's number and how many it has closed so far.
  for_close_idle : ℕ → ℕ → Purpose

pub data EvictOutcome : Type 0 where
  evicted all_in_use no_close : EvictOutcome

-- Who waits for a creation: the `acquire` that began it, one that found it in flight, or a waiter of
-- the queue in either of these places.
pub data Claimant : Type 0 where
  creator joiner drained_creator drained_joiner : Waiter → Claimant

-- What waits.
pub data Task : Type 0 where
  -- For a child to close: its conversation and number, the candidates that remain, and whether a
  -- close failed before.
  closes : Purpose → Text → ℕ → List (Text × ℕ) → Bool → Task
  -- For the code after `await this.evictIdleForCapacity()`.
  continues : Purpose → EvictOutcome → Task
  -- For a child to start and its session to be found: the number of the creation.
  spawns : ℕ → Text → Text → Task
  -- For the creation with a number.
  awaits : Claimant → ℕ → Task

pub record Pool : Type 0 where
  pub max_children : ℕ
  pub entries : List (Text × ℕ)
  pub objects : List Entry
  -- The creations in flight, by conversation.
  pub inflight : List (Text × ℕ)
  pub waiters : List Waiter
  pub closed : Bool
  pub pending_creations : ℕ
  pub closing : ℕ
  -- Whether an eviction for the queue is under way.
  pub draining : Bool
  pub tasks : List Task
  -- The outcomes of the creations that are over.
  pub outcomes : List (ℕ × Result PoolError ℕ)
  -- The leases that are held: the caller's number and the conversation.
  pub leases : List (ℕ × Text)
  -- The answers that callers were given, the latest last. The number is that of the child, or how many
  -- children `closeIdle` closed, or 0 for nothing.
  pub replies : List (ℕ × Result PoolError ℕ)
  -- The number of the next creation and of the next child.
  pub fresh : ℕ
  -- The session registry's table.
  pub rows : List SessionRecord

unfoldable pub occupied_slots : Pool → ℕ
occupied_slots s = length s.entries + s.pending_creations + s.closing

abbrev pub is_child : ℕ → Entry → Bool
is_child c e = e.child == c

-- The entry of a child.
abbrev pub object : Pool → ℕ → Option Entry
object s c = select (is_child c) s.objects

abbrev pub flag : (Entry → Bool) → Option Entry → Bool
flag f none = false
flag f (some e) = f e

abbrev pub is_in_use : Pool → ℕ → Bool
is_in_use s c = flag (λ e. e.in_use) (object s c)

abbrev pub is_retired : Pool → ℕ → Bool
is_retired s c = flag (λ e. e.retiring) (object s c)

-- A write to the entry object of a child.
abbrev pub mutate : ℕ → (Entry → Entry) → Pool → Pool
mutate c f s = record s { objects = update (is_child c) f s.objects }

abbrev pub id_of : Entry → Text
id_of e = storage_key e.adapter_id e.conversation_key

unfoldable pub touch_lru : Text → Pool → Pool
touch_lru id s = elim (get id s.entries) [
  | none ↦ s
  | some c ↦ record s { entries = set id c (remove id s.entries) }
]

abbrev pub answer : ℕ → Result PoolError ℕ → Pool → Pool
answer caller reply s = record s { replies = s.replies ++ (caller, reply) ∷ [] }

abbrev pub reject : Waiter → PoolError → Pool → Pool
reject w e s = answer w.caller (err e) s

unfoldable pub enqueue_waiter : Waiter → Pool → Pool
enqueue_waiter w s = record s { waiters = s.waiters ++ w ∷ [] }

abbrev pub add_task : Task → Pool → Pool
add_task t s = record s { tasks = s.tasks ++ t ∷ [] }

abbrev pub key_of : Waiter → Text
key_of w = storage_key w.adapter_id w.conversation_key

pub record PoolStats : Type 0 where
  pub size : ℕ
  pub active_leases : ℕ
  pub idle : ℕ
  pub waiters : ℕ
  pub closing : ℕ
  pub max_children : ℕ

active : Pool → List (Text × ℕ) → ℕ
active s [] = 0
active s ((id, c) ∷ entries) =
    let rest = active s entries in if is_in_use s c then rest + 1 else rest

unfoldable pub stats : Pool → PoolStats
unfolding active
stats s = record {
  size = length s.entries;
  active_leases = active s s.entries;
  idle = length s.entries - active s s.entries;
  waiters = length s.waiters;
  closing = s.closing;
  max_children = s.max_children;
}
