-- ===== src/Pool/Callers.antt =====
-- The callers of the pool: those that were answered, those in the queue, and those whom a task is to
-- answer. Each stretch of code keeps the account of them.
use omp_bundler.Prelude.{
  ℕ, ◌+◌, ◌≡◌, refl, ◌∙◌, ap, inl, inr, List, [], ◌∷◌, ◌++◌, Bool, true, false, Text, is_empty, leb,
  ◌==◌, if◌then◌else◌, arith, Bool-cases, Option-cases,
}
use omp_bundler.Prelude.Results.{Result, ok, err}
use omp_bundler.Prelude.Maps.{get}
use omp_bundler.Prelude.Rows.{changes}
use omp_bundler.Pool.{
  PoolError, is_retiring, Waiter, Purpose, for_acquire, for_drain, for_idle, for_retire,
  for_close_idle, all_in_use, Claimant, creator, joiner, drained_creator, drained_joiner, Task,
  closes, continues, spawns, awaits, Pool, occupied_slots, is_in_use, is_retired, touch_lru, mutate,
  reject, answer, enqueue_waiter, add_task, key_of,
}
use omp_bundler.Pool.Sections.{
  drop_idle_timer, hold, is_evictable, detach, idle_entries, evict_next, evict_idle_for_capacity,
  create_entry, make_room, drain, drain_waiters,
}

-- The caller of a waiter, for a claimant.
abbrev pub caller_of : Claimant → ℕ
caller_of (creator w) = w.caller
caller_of (joiner w) = w.caller
caller_of (drained_creator w) = w.caller
caller_of (drained_joiner w) = w.caller

module _ (n : ℕ) where
  abbrev pub one : ℕ → ℕ
  one caller = if caller == n then 1 else 0

  -- Whether an eviction is to answer the caller.
  abbrev pub asks_for : Purpose → ℕ
  asks_for (for_acquire w parent) = one w.caller
  asks_for for_drain = 0
  asks_for for_idle = 0
  asks_for (for_retire caller) = one caller
  asks_for (for_close_idle caller closed) = one caller

  -- Only an `acquire` goes on for its caller after an eviction for capacity.
  abbrev pub goes_on_for : Purpose → ℕ
  goes_on_for (for_acquire w parent) = one w.caller
  goes_on_for _ = 0

  abbrev pub asks : Task → ℕ
  asks (closes p id c rest failed) = asks_for p
  asks (continues p outcome) = goes_on_for p
  asks (spawns i a k) = 0
  asks (awaits who i) = one (caller_of who)

  abbrev pub asked : List Task → ℕ
  asked [] = 0
  asked (t ∷ ts) = asked ts + asks t

  abbrev pub answered : List (ℕ × Result PoolError ℕ) → ℕ
  answered rs = changes (λ (r : ℕ × Result PoolError ℕ). r.0 == n) rs

  abbrev pub queued : List Waiter → ℕ
  queued ws = changes (λ (w : Waiter). w.caller == n) ws

  -- The answers to the caller, those that it has and those that it is to have.
  abbrev pub owed : Pool → ℕ
  owed s = answered s.replies + queued s.waiters + asked s.tasks

  pub asked-append : (ts us : List Task) → asked (ts ++ us) ≡ asked ts + asked us
  asked-append [] us = omega arith
  asked-append (t ∷ ts) us = omega (arith, asked-append ts us)

  pub changes-append {ℓ} :
      {R : Type ℓ} (p : R → Bool) (xs ys : List R)
      → changes p (xs ++ ys) ≡ changes p xs + changes p ys
  changes-append p [] ys = omega arith
  changes-append p (x ∷ xs) ys = ground (arith, changes-append p xs ys)

  pub answer-owed :
      (caller : ℕ) (reply : Result PoolError ℕ) (s : Pool)
      → owed (answer caller reply s) ≡ owed s + one caller
  answer-owed caller reply s = ground (
    arith,
    changes-append (λ (r : ℕ × Result PoolError ℕ). r.0 == n) s.replies ((caller, reply) ∷ []),
  )

  pub add_task-owed : (t : Task) (s : Pool) → owed (add_task t s) ≡ owed s + asks t
  add_task-owed t s = omega (arith, asked-append s.tasks (t ∷ []))

  pub enqueue-owed : (w : Waiter) (s : Pool) → owed (enqueue_waiter w s) ≡ owed s + one w.caller
  unfolding enqueue_waiter
  enqueue-owed w s =
      ground (arith, changes-append (λ (w : Waiter). w.caller == n) s.waiters (w ∷ []))

  pub touch_lru-frame :
      (id : Text) (s : Pool)
      → ((touch_lru id s).replies ≡ s.replies)
        × ((touch_lru id s).waiters ≡ s.waiters)
        × ((touch_lru id s).tasks ≡ s.tasks)
  unfolding touch_lru
  touch_lru-frame id s = elim (Option-cases (get id s.entries)) [
    | inl e ↦ rw (e, touch_lru) (refl, refl, refl)
    | inr (c, e) ↦ rw (e, touch_lru) (refl, refl, refl)
  ]

  pub hold-owed :
      (ts : Text) (w : Waiter) (c : ℕ) (s : Pool) → owed (hold ts w c s) ≡ owed s + one w.caller
  unfolding hold
  hold-owed ts w c s =
      let u = mutate c (λ e. record e { in_use = true }) s in
      let (r, q, t) = touch_lru-frame (key_of w) u in
      let last =
        changes-append (λ (r : ℕ × Result PoolError ℕ). r.0 == n) s.replies
          ((w.caller, ok c) ∷ []) in
      rw (r, q, t) (ground (arith, last))

  pub queued-cons : (w : Waiter) (ws : List Waiter) → queued (w ∷ ws) ≡ queued ws + one w.caller
  queued-cons w ws = ground arith

  hold-waiters :
      (ts : Text) (w : Waiter) (c : ℕ) (s : Pool)
      → queued (hold ts w c s).waiters ≡ queued s.waiters
  unfolding hold
  hold-waiters ts w c s =
      let (r, q, t) = touch_lru-frame (key_of w) (mutate c (λ e. record e { in_use = true }) s) in
      ap queued q

  pub detach-owed :
      (p : Purpose) (id : Text) (c : ℕ) (rest : List (Text × ℕ)) (failed : Bool) (s : Pool)
      → owed (detach p id c rest failed s) ≡ owed s + asks_for p
  unfolding detach
  detach-owed p id c rest failed s =
      omega (arith, asked-append s.tasks (closes p id c rest failed ∷ []))

  pub evict_next-owed :
      (p : Purpose) (s : Pool) (failed : Bool) (idle : List (Text × ℕ))
      → goes_on_for p ≡ asks_for p
      → owed (evict_next p s failed idle) ≡ owed s + asks_for p
  unfolding evict_next
  evict_next-owed p s failed [] h = add_task-owed (continues p _) s ∙ rw h refl
  evict_next-owed p s failed ((id, c) ∷ rest) h = elim (Bool-cases (is_evictable s id c)) [
    | inl idle ↦ rw idle (detach-owed p id c rest failed s)
    | inr busy ↦ rw busy (evict_next-owed p s failed rest h)
  ]

  pub evict_idle_for_capacity-owed :
      (p : Purpose) (s : Pool)
      → goes_on_for p ≡ asks_for p
      → owed (evict_idle_for_capacity p s) ≡ owed s + asks_for p
  unfolding evict_idle_for_capacity
  evict_idle_for_capacity-owed p s h = go (idle_entries s s.entries)
    where
      go :
          (idle : List (Text × ℕ))
          → owed (elim idle as (λ x. Pool) [
            | [] ↦ add_task (continues p all_in_use) s
            | e ∷ rest ↦ evict_next p s false (e ∷ rest)
          ])
            ≡ owed s + asks_for p
      go [] = add_task-owed (continues p all_in_use) s ∙ rw h refl
      go (e ∷ rest) = evict_next-owed p s false (e ∷ rest) h

  pub create_entry-owed :
      (kind : Waiter → Claimant) (w : Waiter) (s : Pool)
      → owed (create_entry kind w s) ≡ owed s + one (caller_of (kind w))
  unfolding create_entry
  create_entry-owed kind w s = elim (Option-cases (get (key_of w) s.inflight)) [
    | inr (i, e) ↦ rw (e, create_entry) (add_task-owed (awaits (kind w) i) s)
    | inl e ↦
        rw (e, create_entry)
          (omega (
            arith,
            asked-append s.tasks
                (spawns s.fresh w.adapter_id w.conversation_key ∷ awaits (kind w) s.fresh ∷ []),
          ))
  ]

  make_room-owed : (s : Pool) → owed (make_room s) ≡ owed s
  unfolding make_room
  make_room-owed s = elim (Bool-cases (is_empty (idle_entries s s.entries))) [
    | inl none_idle ↦ rw none_idle refl
    | inr idle ↦ elim (Bool-cases s.draining) [
      | inl already ↦ rw (idle, already) refl
      | inr first ↦
          rw (idle, first)
            (evict_idle_for_capacity-owed for_drain (record s { draining = true }) refl
              ∙ omega arith)
    ]
  ]

  -- The queue's callers, but for those that it leaves in the queue, are taken over by the loop.
  pub drain-owed :
      (ts : Text) (s : Pool) (ws : List Waiter)
      → owed (drain ts s ws) + queued s.waiters ≡ owed s + queued ws
  unfolding drain
  drain-owed ts s [] = omega arith
  drain-owed ts s (w ∷ ws) =
      let head = queued-cons w ws in
      elim (Option-cases (get (key_of w) s.entries)) [
        | inr (c, e) ↦ elim (Bool-cases (is_retired s c)) [
          | inl gone ↦
              let rest = drain-owed ts (reject w is_retiring s) ws in
              let told = answer-owed w.caller (err is_retiring) s in
              rw (e, gone, drain) (omega (arith, head))
          | inr live ↦ elim (Bool-cases (is_in_use s c)) [
            | inl busy ↦ rw (e, live, busy, drain) (omega (arith, head))
            | inr idle ↦
                let t = drop_idle_timer c s in
                let rest = drain-owed ts (hold ts w c t) ws in
                let told = hold-owed ts w c t in
                let kept = hold-waiters ts w c t in rw (e, live, idle, drain) (omega (arith, head))
          ]
        ]
        | inl e ↦ elim (Option-cases (get (key_of w) s.inflight)) [
          | inr (i, f) ↦
              let told = asked-append s.tasks (awaits (drained_joiner w) i ∷ []) in
              rw (e, f, drain) (omega (arith, head))
          | inl f ↦ elim (Bool-cases (leb s.max_children (occupied_slots s))) [
            | inl full ↦
                let told = make_room-owed (record s { waiters = w ∷ ws }) in
                rw (e, f, full, drain) (omega (arith, head))
            | inr free ↦
                let told = create_entry-owed drained_creator w (record s { waiters = ws }) in
                rw (e, f, free, drain) (omega (arith, told, head))
          ]
        ]
      ]

  pub drain_waiters-owed : (ts : Text) (s : Pool) → owed (drain_waiters ts s) ≡ owed s
  unfolding drain_waiters
  drain_waiters-owed ts s = omega (arith, drain-owed ts s s.waiters)
