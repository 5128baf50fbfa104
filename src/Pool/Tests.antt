-- ===== src/Pool/Tests.antt =====
-- Runs of the pool, and its theorems at concrete histories.
use omp_bundler.Prelude.{◌≤◌, ◌+◌, ℕ, ◌≡◌, refl, List, [], ◌∷◌, true, none, some, Text, same, codes}
use omp_bundler.Prelude.Results.{ok}
use omp_bundler.Prelude.Maps.{get, set, remove}
use omp_bundler.Prelude.Rows.{select}
use omp_bundler.StorageKey.{storage_key}
use omp_bundler.Sessions.{SessionRecord, at, with_owner, create, set_owner, release, touch}
use omp_bundler.Pool.{Waiter, Pool, for_drain, occupied_slots, is_in_use, touch_lru, enqueue_waiter}
use omp_bundler.Pool.Claim.{claim, claimed, session_for}
use omp_bundler.Pool.Sections.{
  hold, detach, evict_next, evict_idle_for_capacity, create_entry, make_room, drain, drain_waiters,
  acquire_live, acquire_new, acquire,
}
use omp_bundler.Pool.Wakes.{
  Startup, continue_after, did_close, free, release_ownership, prepare, started, created_for,
  take_joined,
}
use omp_bundler.Pool.Machine.{
  Event, acquires, releases, wakes, child_closed, proceed, child_started, release_entry,
  release_lease, pick, woken, step, run, empty_pool, new_pool,
}
use omp_bundler.Pool.Creation.{started_children}
use omp_bundler.Pool.Children.{children}
use omp_bundler.Pool.Slots.{Balanced}
use omp_bundler.Pool.Bounded.{Uncontended, run-Balanced}
use omp_bundler.Pool.Callers.{owed}
use omp_bundler.Pool.Served.{calls_in, run-owed}
use omp_bundler.Pool.Takeover.{claim_lem}
use omp_bundler.Pool.Sparing.{evict_idle_for_capacity_spares}

abbrev slack : Text
slack = codes "slack"

abbrev now : Text
now = codes "t1"

abbrev caller : ℕ → Text → Waiter
caller n room = record { caller = n; adapter_id = slack; conversation_key = room }

abbrev startup : Text → Startup
startup token = record {
  token = token;
  switched = true;
  created = true;
  reply = record { success = true; state = some (some (codes "a.jsonl")) };
}

-- A child is made for the first caller.
abbrev opening : List (Text × Event)
opening =
    (now, acquires (caller 1 (codes "a")) none)
    ∷ (now, wakes 0 (child_started (startup (codes "child-1"))))
    ∷ (now, wakes 0 proceed)
    ∷ []

-- A second caller finds it in use and waits until it is given back and evicted.
abbrev traffic : List (Text × Event)
traffic =
    (now, acquires (caller 1 (codes "a")) none)
    ∷ (now, wakes 0 (child_started (startup (codes "child-1"))))
    ∷ (now, wakes 0 proceed)
    ∷ (now, acquires (caller 2 (codes "b")) none)
    ∷ (now, wakes 0 proceed)
    ∷ (now, releases 1)
    ∷ (now, wakes 0 child_closed)
    ∷ (now, wakes 0 proceed)
    ∷ (now, wakes 0 (child_started (startup (codes "child-2"))))
    ∷ (now, wakes 0 proceed)
    ∷ []

abbrev small : Pool
small = empty_pool 1 []

new_pool_runs : new_pool 1 60 [] ≡ some small
unfolding new_pool
new_pool_runs = refl

traffic_runs : (run small traffic).replies ≡ (1, ok 1) ∷ (2, ok 3) ∷ []
unfolding run step acquire acquire_live acquire_new occupied_slots hold detach evict_next
    evict_idle_for_capacity create_entry make_room drain drain_waiters continue_after did_close free
    release_ownership prepare started created_for take_joined release_entry release_lease pick woken
    touch_lru enqueue_waiter claim claimed session_for storage_key same get create set_owner set
    remove release touch
traffic_runs = refl

traffic_fits : Uncontended small traffic
unfolding run step acquire acquire_live acquire_new occupied_slots hold detach evict_next
    evict_idle_for_capacity create_entry make_room drain drain_waiters continue_after did_close free
    release_ownership prepare started created_for take_joined release_entry release_lease pick woken
    touch_lru enqueue_waiter claim claimed session_for storage_key same get create set_owner set
    remove release touch
traffic_fits = (refl, (refl, (refl, (refl, (refl, (refl, (refl, (refl, (refl, (refl, tt))))))))))

-- The second child takes the place of the first, which closed.
children_run : children small traffic 0 ≡ 1
unfolding started_children run step acquire acquire_live acquire_new occupied_slots hold detach
    evict_next evict_idle_for_capacity create_entry make_room drain drain_waiters continue_after
    did_close free release_ownership prepare started created_for take_joined release_entry
    release_lease pick woken touch_lru enqueue_waiter claim claimed session_for storage_key same get
    create set_owner set remove release touch
children_run = refl

run-Balanced_example :
    (children small traffic 0 + (run small traffic).pending_creations ≤ 1)
    × Balanced (record { most = 1; live = children small traffic 0 }) 0 0 (run small traffic)
run-Balanced_example = run-Balanced 1 60 [] traffic new_pool_runs traffic_fits

-- A caller evicts the idle child, and before it goes on, another takes the slot.
abbrev crowd : List (Text × Event)
crowd =
    (now, releases 1)
    ∷ (now, acquires (caller 2 (codes "b")) none)
    ∷ (now, wakes 0 child_closed)
    ∷ (now, acquires (caller 3 (codes "c")) none)
    ∷ (now, wakes 0 proceed)
    ∷ []

crowd_runs : occupied_slots (run (run small opening) crowd) ≡ 2
unfolding run step acquire acquire_live acquire_new occupied_slots hold detach evict_next
    evict_idle_for_capacity create_entry make_room drain drain_waiters continue_after did_close free
    release_ownership prepare started created_for take_joined release_entry release_lease pick woken
    touch_lru enqueue_waiter claim claimed session_for storage_key same get create set_owner set
    remove release touch
crowd_runs = refl

run-owed_example : owed 2 (run small traffic) ≡ calls_in 2 traffic
run-owed_example = run-owed 2 1 60 [] traffic new_pool_runs

opening_live : get (storage_key slack (codes "a")) (run small opening).entries ≡ some 1
unfolding run step acquire acquire_live acquire_new occupied_slots hold detach evict_next
    evict_idle_for_capacity create_entry make_room drain drain_waiters continue_after did_close free
    release_ownership prepare started created_for take_joined release_entry release_lease pick woken
    touch_lru enqueue_waiter claim claimed session_for storage_key same get create set_owner set
    remove release touch
opening_live = refl

opening_used : is_in_use (run small opening) 1 ≡ true
unfolding run step acquire acquire_live acquire_new occupied_slots hold detach evict_next
    evict_idle_for_capacity create_entry make_room drain drain_waiters continue_after did_close free
    release_ownership prepare started created_for take_joined release_entry release_lease pick woken
    touch_lru enqueue_waiter claim claimed session_for storage_key same get create set_owner set
    remove release touch
opening_used = refl

evict_idle_for_capacity_spares_example :
    get
      (storage_key slack (codes "a"))
      (evict_idle_for_capacity for_drain (run small opening)).entries
    ≡ some 1
evict_idle_for_capacity_spares_example =
    evict_idle_for_capacity_spares (run small opening) for_drain (storage_key slack (codes "a")) 1
      opening_live opening_used

abbrev stale : SessionRecord
stale = record {
  adapter_id = slack;
  conversation_key = codes "a";
  session_file = codes "a.jsonl";
  created_at = now;
  last_active = now;
  current_owner = some (codes "crashed");
}

claim_lem_example :
    (rows : List SessionRecord) × (claim (stale ∷ []) slack (codes "a") (codes "child-1") now
      ≡ ok rows)
    × (select (at slack (codes "a")) rows ≡ some (with_owner (some (codes "child-1")) now stale))
unfolding same
claim_lem_example =
    claim_lem (stale ∷ []) slack (codes "a") (codes "child-1") now stale (tt, tt) refl
