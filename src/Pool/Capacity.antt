-- ===== src/Pool/Capacity.antt =====
-- The handlers keep the slots that the pool counts as occupied within the maximum, so long as no
-- acquire finds its slot taken when it resumes after an eviction.
use omp_bundler.Prelude.{
  ◌-◌, ℕ, ◌+◌, ◌≡◌, refl, sym, inl, inr, List, [], ◌∷◌, Bool, true, false, ◌&&◌, Option, Text, same,
  is_empty, leb, if◌then◌else◌, arith, Bool-cases, Option-cases,
}
use omp_bundler.Prelude.Maps.{get, set-Distinct}
use omp_bundler.Pool.{
  PoolError, adapter_id_required, conversation_key_required, pool_closed, close_failed, Waiter,
  Purpose, for_acquire, for_drain, for_idle, for_retire, for_close_idle, evicted, creator, joiner,
  Task, continues, awaits, Pool, occupied_slots, is_in_use, is_retired, is_retiring, mutate, reject,
  enqueue_waiter, key_of,
}
use omp_bundler.Pool.Sections.{
  drop_idle_timer, is_evictable, drain_waiters, acquire_live, acquire_new, acquire,
}
use omp_bundler.Pool.Wakes.{close_next, reject_waiters_for, restore, not_closed, free, did_close}
use omp_bundler.Pool.Slots.{Limits, is_here, Balanced, frame, add_task-Balanced, length-set}
use omp_bundler.Pool.Filling.{
  hold-Balanced, is_evictable_live, detach-Balanced, evict_next-Balanced,
  evict_idle_for_capacity-Balanced, create_entry-Balanced, drain_waiters-Balanced,
}

-- A change of what is not counted.
pub still :
    {m : Limits} {dc dp : ℕ} (s t : Pool)
    → t.max_children ≡ s.max_children
    → t.closing ≡ s.closing
    → t.pending_creations ≡ s.pending_creations
    → t.tasks ≡ s.tasks
    → t.entries ≡ s.entries
    → Balanced m dc dp s
    → Balanced m dc dp t
still s t e1 e2 e3 e4 e5 b = frame s t e1 e2 e3 e4 e5 b

-- The task is an `acquire` that goes on to create a child after its eviction.
abbrev pub creates_after : Task → Bool
creates_after (continues (for_acquire w parent) evicted) = true
creates_after _ = false

-- And it finds the slot taken.
abbrev pub oversteps : Task → Pool → Bool
oversteps t s = creates_after t && leb s.max_children (occupied_slots s)

module _ (m : Limits) where
  abbrev Fine : Pool → Type 0
  Fine s = Balanced m 0 0 s

  -- Whichever branch is taken.
  pub if-Fine : (test : Bool) {s t : Pool} → Fine s → Fine t → Fine (if test then s else t)
  if-Fine true b b' = b
  if-Fine false b b' = b'

  pub reject-Fine : (w : Waiter) (e : PoolError) (s : Pool) → Fine s → Fine (reject w e s)
  reject-Fine w e s b = still s _ refl refl refl refl refl b

  pub enqueue-Fine : (w : Waiter) (s : Pool) → Fine s → Fine (enqueue_waiter w s)
  unfolding enqueue_waiter
  enqueue-Fine w s b = still s _ refl refl refl refl refl b

  acquire_live-Fine :
      (ts : Text) (w : Waiter) (c : ℕ) (s : Pool) → Fine s → Fine (acquire_live ts w c s)
  unfolding acquire_live
  acquire_live-Fine ts w c s b = if-Fine (is_retired s c) (reject-Fine w is_retiring s b) (
      if-Fine (is_in_use s c) (enqueue-Fine w s b)
        (hold-Balanced m 0 0 ts w c (drop_idle_timer c s) (still s _ refl refl refl refl refl b)))

  acquire_new-Fine :
      (w : Waiter) (parent : Option Text) (s : Pool) → Fine s → Fine (acquire_new w parent s)
  unfolding acquire_new
  acquire_new-Fine w parent s b = elim (Option-cases (get (key_of w) s.inflight)) [
    | inr (n, e) ↦ rw (e, acquire_new) (add_task-Balanced (awaits (joiner w) n) s refl refl b)
    | inl e ↦ elim (Bool-cases (leb s.max_children (occupied_slots s))) [
      | inl full ↦
          rw (e, full, acquire_new)
            (evict_idle_for_capacity-Balanced m 0 0 (for_acquire w parent) s b)
      | inr room ↦
          rw (e, room, acquire_new)
            (create_entry-Balanced m 0 0 creator w s (rw (sym b.limit) room) b)
    ]
  ]

  pub acquire-Fine :
      (ts : Text) (w : Waiter) (parent : Option Text) (s : Pool)
      → Fine s
      → Fine (acquire ts w parent s)
  unfolding acquire
  acquire-Fine ts w parent s b =
      if-Fine (is_empty w.adapter_id) (reject-Fine w adapter_id_required s b) (
        if-Fine (is_empty w.conversation_key) (reject-Fine w conversation_key_required s b) (
          if-Fine s.closed (reject-Fine w pool_closed s b)
            (elim (Option-cases (get (key_of w) s.entries)) [
              | inl e ↦ rw (e, acquire) (acquire_new-Fine w parent s b)
              | inr (c, e) ↦ rw (e, acquire) (acquire_live-Fine ts w c s b)
            ])))

  pub close_next-Fine :
      (ts : Text) (caller n : ℕ) (s : Pool) (idle : List (Text × ℕ))
      → Fine s
      → Fine (close_next ts caller n s idle)
  unfolding close_next
  close_next-Fine ts caller n s [] b =
      still (drain_waiters ts s) _ refl refl refl refl refl (drain_waiters-Balanced m 0 0 ts s b)
  close_next-Fine ts caller n s ((id, c) ∷ rest) b = elim (Bool-cases (is_evictable s id c)) [
    | inl idle ↦
        let (d, here) = is_evictable_live m 0 0 s id c idle in
        rw idle (detach-Balanced m 0 0 (for_close_idle caller n) id c d rest false s here b)
    | inr busy ↦ rw busy (close_next-Fine ts caller n s rest b)
  ]

  reject_waiters_for-Fine :
      (id : Text) (e : PoolError) (s : Pool) (ws : List Waiter)
      → Fine s
      → Fine (reject_waiters_for id e s ws)
  unfolding reject_waiters_for
  reject_waiters_for-Fine id e s [] b = still s _ refl refl refl refl refl b
  reject_waiters_for-Fine id e s (w ∷ ws) b =
      let t = reject_waiters_for id e s ws in
      let b' = reject_waiters_for-Fine id e s ws b in
      elim (Bool-cases (same (key_of w) id)) [
        | inl hit ↦ rw hit (reject-Fine w e t b')
        | inr miss ↦ rw miss (still t _ refl refl refl refl refl b')
      ]

  -- The closing that has ended gives its slot back to the entry.
  restore-Fine :
      (id : Text) (c : ℕ) (s : Pool) (l : ℕ)
      → (if is_here (get id s.entries) then l - 1 else l) ≡ m.live
      → Balanced (record m { live = l }) 1 0 s
      → Fine (restore id c s)
  restore-Fine id c s l e b = record {
    limit = b.limit;
    closing_counted = omega (arith, b.closing_counted);
    pending_counted = b.pending_counted;
    bounded = ground (arith, b.bounded, b.closing_counted, length-set id c s.entries);
    alive = ground (arith, b.alive, b.closing_counted, length-set id c s.entries);
    keys = set-Distinct id c s.entries b.keys;
  }

  -- Or it is free.
  free-Fine :
      (ts : Text) (c : ℕ) (s : Pool) (l : ℕ)
      → l - 1 ≡ m.live
      → Balanced (record m { live = l }) 1 0 s
      → Fine (free ts c s)
  unfolding free
  free-Fine ts c s l e b = record {
    limit = b.limit;
    closing_counted = omega (arith, b.closing_counted);
    pending_counted = b.pending_counted;
    bounded = omega (arith, b.bounded);
    alive = omega (arith, e, b.alive, b.closing_counted);
    keys = b.keys;
  }

  pub not_closed-Fine :
      (ts : Text) (p : Purpose) (id : Text) (c : ℕ) (rest : List (Text × ℕ)) (s : Pool) (l : ℕ)
      → (if is_here (get id s.entries) then l - 1 else l) ≡ m.live
      → Balanced (record m { live = l }) 1 0 s
      → Fine (not_closed ts p id c rest s)
  unfolding not_closed
  not_closed-Fine ts (for_acquire w parent) id c rest s l e b =
      evict_next-Balanced m 0 0 (for_acquire w parent) (restore id c s) true rest
        (restore-Fine id c s l e b)
  not_closed-Fine ts for_drain id c rest s l e b =
      evict_next-Balanced m 0 0 for_drain (restore id c s) true rest (restore-Fine id c s l e b)
  not_closed-Fine ts for_idle id c rest s l e b =
      drain_waiters-Balanced m 0 0 ts (restore id c s) (restore-Fine id c s l e b)
  not_closed-Fine ts (for_retire caller) id c rest s l e b =
      let t = mutate c (λ e. record e { in_use = true }) (restore id c s) in
      still (reject_waiters_for id close_failed t t.waiters) _ refl refl refl refl refl (
        reject_waiters_for-Fine id close_failed t t.waiters
          (still (restore id c s) t refl refl refl refl refl (restore-Fine id c s l e b)))
  not_closed-Fine ts (for_close_idle caller n) id c rest s l e b =
      close_next-Fine ts caller n (restore id c s) rest (restore-Fine id c s l e b)

  pub did_close-Fine :
      (ts : Text) (p : Purpose) (c : ℕ) (rest : List (Text × ℕ)) (s : Pool) (l : ℕ)
      → l - 1 ≡ m.live
      → Balanced (record m { live = l }) 1 0 s
      → Fine (did_close ts p c rest s)
  unfolding did_close
  did_close-Fine ts (for_retire caller) c rest s l e b =
      still (drain_waiters ts (free ts c s)) _ refl refl refl refl refl
        (drain_waiters-Balanced m 0 0 ts (free ts c s) (free-Fine ts c s l e b))
  did_close-Fine ts for_idle c rest s l e b =
      drain_waiters-Balanced m 0 0 ts (free ts c s) (free-Fine ts c s l e b)
  did_close-Fine ts (for_close_idle caller n) c rest s l e b =
      close_next-Fine ts caller (n + 1) (free ts c s) rest (free-Fine ts c s l e b)
  did_close-Fine ts (for_acquire w parent) c rest s l e b =
      add_task-Balanced (continues (for_acquire w parent) evicted) (free ts c s) refl refl
        (free-Fine ts c s l e b)
  did_close-Fine ts for_drain c rest s l e b =
      add_task-Balanced (continues for_drain evicted) (free ts c s) refl refl
        (free-Fine ts c s l e b)
