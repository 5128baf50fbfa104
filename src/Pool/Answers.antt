-- ===== src/Pool/Answers.antt =====
-- What runs when a wait is over keeps the account of the callers.
use omp_bundler.Prelude.{
  ℕ, ◌+◌, ◌≡◌, refl, ◌∙◌, inl, inr, List, [], ◌∷◌, Bool, true, false, Option, Text, same, is_empty,
  leb, ◌==◌, if◌then◌else◌, arith, Bool-cases, Option-cases,
}
use omp_bundler.Prelude.Results.{Result, ok, err, Result-cases}
use omp_bundler.Prelude.Maps.{get}
use omp_bundler.Pool.{
  PoolError, adapter_id_required, conversation_key_required, pool_closed, is_retiring, close_failed,
  Waiter, Purpose, for_acquire, for_drain, for_idle, for_retire, for_close_idle, EvictOutcome,
  evicted, all_in_use, no_close, Claimant, creator, joiner, drained_creator, drained_joiner,
  continues, awaits, Pool, occupied_slots, is_in_use, is_retired, mutate, reject, key_of,
}
use omp_bundler.Pool.Sections.{
  drop_idle_timer, hold, is_evictable, drain_waiters, acquire_live, acquire_new, acquire,
}
use omp_bundler.Pool.Wakes.{
  refusals, refuse_all, close_next, continue_after, reject_waiters_for, restore, not_closed, free,
  did_close, Startup, prepare, started, take_joined, take_drained, created_for,
}
use omp_bundler.Pool.Callers.{
  one, asks_for, goes_on_for, answered, queued, owed, caller_of, changes-append, queued-cons,
  answer-owed, add_task-owed, enqueue-owed, hold-owed, detach-owed, evict_next-owed,
  evict_idle_for_capacity-owed, create_entry-owed, drain_waiters-owed,
}

module _ (n : ℕ) where
  -- Whichever branch is taken.
  pub if-owed :
      (test : Bool) (s t : Pool) {k : ℕ}
      → owed n s ≡ k
      → owed n t ≡ k
      → owed n (if test then s else t) ≡ k
  if-owed true s t p q = p
  if-owed false s t p q = q

  acquire_live-owed :
      (ts : Text) (w : Waiter) (c : ℕ) (s : Pool)
      → owed n (acquire_live ts w c s) ≡ owed n s + one n w.caller
  unfolding acquire_live
  acquire_live-owed ts w c s =
      if-owed (is_retired s c) _ _ (answer-owed n w.caller (err is_retiring) s) (
        if-owed (is_in_use s c) _ _ (enqueue-owed n w s) (hold-owed n ts w c (drop_idle_timer c s)))

  acquire_new-owed :
      (w : Waiter) (parent : Option Text) (s : Pool)
      → owed n (acquire_new w parent s) ≡ owed n s + one n w.caller
  unfolding acquire_new
  acquire_new-owed w parent s = elim (Option-cases (get (key_of w) s.inflight)) [
    | inr (i, e) ↦ rw (e, acquire_new) (add_task-owed n (awaits (joiner w) i) s)
    | inl e ↦
        rw (e, acquire_new)
          (if-owed (leb s.max_children (occupied_slots s)) _ _
            (evict_idle_for_capacity-owed n (for_acquire w parent) s refl)
            (create_entry-owed n creator w s))
  ]

  pub acquire-owed :
      (ts : Text) (w : Waiter) (parent : Option Text) (s : Pool)
      → owed n (acquire ts w parent s) ≡ owed n s + one n w.caller
  unfolding acquire
  acquire-owed ts w parent s =
      if-owed (is_empty w.adapter_id) _ _ (answer-owed n w.caller (err adapter_id_required) s) (
        if-owed (is_empty w.conversation_key) _ _
          (answer-owed n w.caller (err conversation_key_required) s)
          (if-owed s.closed _ _ (answer-owed n w.caller (err pool_closed) s)
            (elim (Option-cases (get (key_of w) s.entries)) [
              | inl e ↦ rw (e, acquire) (acquire_new-owed w parent s)
              | inr (c, e) ↦ rw (e, acquire) (acquire_live-owed ts w c s)
            ])))

  pub close_next-owed :
      (ts : Text) (caller k : ℕ) (s : Pool) (idle : List (Text × ℕ))
      → owed n (close_next ts caller k s idle) ≡ owed n s + one n caller
  unfolding close_next
  close_next-owed ts caller k s [] =
      let told = answer-owed n caller (ok k) (drain_waiters ts s) in
      let drained = drain_waiters-owed n ts s in omega (arith, told, drained)
  close_next-owed ts caller k s ((id, c) ∷ rest) =
      if-owed (is_evictable s id c) _ _ (detach-owed n (for_close_idle caller k) id c rest false s)
        (close_next-owed ts caller k s rest)

  answered-refusals : (e : PoolError) (ws : List Waiter) → answered n (refusals e ws) ≡ queued n ws
  unfolding refusals
  answered-refusals e [] = refl
  answered-refusals e (w ∷ ws) = ground (arith, answered-refusals e ws)

  pub refuse_all-owed : (e : PoolError) (s : Pool) → owed n (refuse_all e s) ≡ owed n s
  unfolding refuse_all
  refuse_all-owed e s =
      let told =
        changes-append n (λ (r : ℕ × Result PoolError ℕ). r.0 == n) s.replies
          (refusals e s.waiters) in
      let all = answered-refusals e s.waiters in omega (arith, told, all)

  reject_waiters_for-owed :
      (id : Text) (e : PoolError) (s : Pool) (ws : List Waiter)
      → owed n (reject_waiters_for id e s ws) + queued n s.waiters ≡ owed n s + queued n ws
  unfolding reject_waiters_for
  reject_waiters_for-owed id e s [] = omega arith
  reject_waiters_for-owed id e s (w ∷ ws) =
      let t = reject_waiters_for id e s ws in
      let rest = reject_waiters_for-owed id e s ws in
      let head = queued-cons n w ws in
      let told = answer-owed n w.caller (err e) t in
      let kept = queued-cons n w t.waiters in
      elim (Bool-cases (same (key_of w) id)) [
        | inl hit ↦ rw hit (omega (arith, rest, head, told))
        | inr miss ↦ rw miss (omega (arith, rest, head, kept))
      ]

  pub continue_after-owed :
      (ts : Text) (p : Purpose) (outcome : EvictOutcome) (s : Pool)
      → owed n (continue_after ts p outcome s) ≡ owed n s + goes_on_for n p
  unfolding continue_after
  continue_after-owed ts (for_acquire w parent) no_close s =
      answer-owed n w.caller (err close_failed) s
  continue_after-owed ts (for_acquire w parent) all_in_use s = enqueue-owed n w s
  continue_after-owed ts (for_acquire w parent) evicted s =
      if-owed s.closed _ _ (answer-owed n w.caller (err pool_closed) s)
        (create_entry-owed n creator w s)
  continue_after-owed ts for_drain no_close s = omega (
    arith,
    refuse_all-owed close_failed s,
    drain_waiters-owed n ts (record (refuse_all close_failed s) { draining = false }),
  )
  continue_after-owed ts for_drain evicted s =
      omega (arith, drain_waiters-owed n ts (record s { draining = false }))
  continue_after-owed ts for_drain all_in_use s =
      omega (arith, drain_waiters-owed n ts (record s { draining = false }))
  continue_after-owed ts for_idle outcome s = omega arith
  continue_after-owed ts (for_retire caller) outcome s = omega arith
  continue_after-owed ts (for_close_idle caller k) outcome s = omega arith

  pub not_closed-owed :
      (ts : Text) (p : Purpose) (id : Text) (c : ℕ) (rest : List (Text × ℕ)) (s : Pool)
      → owed n (not_closed ts p id c rest s) ≡ owed n s + asks_for n p
  unfolding not_closed
  not_closed-owed ts (for_acquire w parent) id c rest s =
      evict_next-owed n (for_acquire w parent) (restore id c s) true rest refl
  not_closed-owed ts for_drain id c rest s =
      evict_next-owed n for_drain (restore id c s) true rest refl
  not_closed-owed ts for_idle id c rest s = omega (arith, drain_waiters-owed n ts (restore id c s))
  not_closed-owed ts (for_retire caller) id c rest s =
      let t = mutate c (λ e. record e { in_use = true }) (restore id c s) in
      let told =
        answer-owed n caller (err close_failed) (reject_waiters_for id close_failed t t.waiters) in
      let refused = reject_waiters_for-owed id close_failed t t.waiters in
      omega (arith, told, refused)
  not_closed-owed ts (for_close_idle caller k) id c rest s =
      close_next-owed ts caller k (restore id c s) rest

  pub did_close-owed :
      (ts : Text) (p : Purpose) (c : ℕ) (rest : List (Text × ℕ)) (s : Pool)
      → owed n (did_close ts p c rest s) ≡ owed n s + asks_for n p
  unfolding did_close free
  did_close-owed ts (for_retire caller) c rest s =
      let told = answer-owed n caller (ok c) (drain_waiters ts (free ts c s)) in
      let drained = drain_waiters-owed n ts (free ts c s) in omega (arith, told, drained)
  did_close-owed ts for_idle c rest s = omega (arith, drain_waiters-owed n ts (free ts c s))
  did_close-owed ts (for_close_idle caller k) c rest s =
      close_next-owed ts caller (k + 1) (free ts c s) rest
  did_close-owed ts (for_acquire w parent) c rest s =
      add_task-owed n (continues (for_acquire w parent) evicted) (free ts c s)
  did_close-owed ts for_drain c rest s = add_task-owed n (continues for_drain evicted) (free ts c s)

  pub started-owed :
      (ts : Text) (i : ℕ) (a k : Text) (up : Startup) (s : Pool)
      → owed n (started ts i a k up s) ≡ owed n s
  unfolding started
  started-owed ts i a k up s = elim (Result-cases (prepare ts a k up s.rows)) [
    | inr (x, e) ↦ rw (e, started) refl
    | inl (rows, e) ↦ rw (e, started) refl
  ]

  take_joined-owed :
      (ts : Text) (w : Waiter) (c : ℕ) (s : Pool)
      → owed n (take_joined ts w c s) ≡ owed n s + one n w.caller
  unfolding take_joined
  take_joined-owed ts w c s =
      if-owed s.closed _ _ (answer-owed n w.caller (err pool_closed) s)
        (if-owed (is_in_use s c) _ _ (enqueue-owed n w s) (hold-owed n ts w c s))

  take_drained-owed :
      (ts : Text) (w : Waiter) (c : ℕ) (s : Pool)
      → owed n (take_drained ts w c s) ≡ owed n s + one n w.caller
  unfolding take_drained
  take_drained-owed ts w c s =
      let head = queued-cons n w s.waiters in
      if-owed s.closed _ _ (answer-owed n w.caller (err pool_closed) s) (
        drain_waiters-owed n ts _
        ∙ if-owed (is_in_use s c) _ _ (omega (arith, head)) (hold-owed n ts w c s))

  pub created_for-owed :
      (ts : Text) (who : Claimant) (outcome : Result PoolError ℕ) (s : Pool)
      → owed n (created_for ts who outcome s) ≡ owed n s + one n (caller_of who)
  unfolding created_for
  created_for-owed ts (creator w) (ok c) s =
      if-owed s.closed _ _ (answer-owed n w.caller (err pool_closed) s) (hold-owed n ts w c s)
  created_for-owed ts (creator w) (err e) s = answer-owed n w.caller (err e) s
  created_for-owed ts (joiner w) (ok c) s = take_joined-owed ts w c s
  created_for-owed ts (joiner w) (err e) s = answer-owed n w.caller (err e) s
  created_for-owed ts (drained_creator w) (ok c) s =
      if-owed s.closed _ _ (answer-owed n w.caller (err pool_closed) s)
        (drain_waiters-owed n ts (hold ts w c s) ∙ hold-owed n ts w c s)
  created_for-owed ts (drained_creator w) (err e) s =
      drain_waiters-owed n ts (reject w e s) ∙ answer-owed n w.caller (err e) s
  created_for-owed ts (drained_joiner w) (ok c) s = take_drained-owed ts w c s
  created_for-owed ts (drained_joiner w) (err e) s =
      drain_waiters-owed n ts (reject w e s) ∙ answer-owed n w.caller (err e) s
