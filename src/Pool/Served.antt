-- ===== src/Pool/Served.antt =====
-- Every caller of the pool is answered once or is still to be answered, over histories of events.
use omp_bundler.Prelude.{
  ℕ, ◌+◌, ◌≡◌, refl, ◌∙◌, ap, inl, inr, List, [], ◌∷◌, Bool, true, false, not, ◌&&◌, ◌||◌, Option,
  none, some, Text, ◌==◌, arith, Bool-cases, Option-cases,
}
use omp_bundler.Prelude.Results.{Result, ok}
use omp_bundler.Prelude.Rows.{select}
use omp_bundler.Prelude.Maps.{get}
use omp_bundler.StorageKey.{storage_key}
use omp_bundler.Sessions.{SessionRecord}
use omp_bundler.Pool.{
  PoolError, pool_closed, for_idle, for_retire, Task, closes, continues, spawns, awaits, Pool,
  is_in_use, is_retired, object, mutate,
}
use omp_bundler.Pool.Sections.{drop_idle_timer, is_at, idle_entries}
use omp_bundler.Pool.Wakes.{refuse_all}
use omp_bundler.Pool.Machine.{
  release_entry, release_lease, forget_exited_child, retire_child, retire_conversation, idle_sweep,
  drop_timers, close_idle, close_pool, end_pool, Wake, child_closed, child_kept, proceed,
  factory_failed_wake, child_started, Event, acquires, releases, forgets, retires, resets, idles,
  closes_idle, closes_pool, ends_pool, wakes, pick, woken, step, run, new_pool, empty_pool,
}
use omp_bundler.Pool.Picking.{pick_sum}
use omp_bundler.Pool.Callers.{
  one, asks, asked, owed, touch_lru-frame, answer-owed, detach-owed, drain_waiters-owed,
}
use omp_bundler.Pool.Answers.{
  if-owed, acquire-owed, close_next-owed, refuse_all-owed, continue_after-owed, not_closed-owed,
  did_close-owed, started-owed, created_for-owed,
}

module _ (n : ℕ) where
  release_entry-owed : (ts id : Text) (s : Pool) → owed n (release_entry ts id s) ≡ owed n s
  unfolding release_entry
  release_entry-owed ts id s = elim (Option-cases (get id s.entries)) [
    | inl e ↦ rw (e, release_entry) refl
    | inr (c, e) ↦
        let u =
          mutate c (λ x. record x { in_use = false; last_used_at = ts; idle_timer = true }) s in
        let (r, q, t) = touch_lru-frame n id u in
        rw (e, release_entry)
          (if-owed n (s.closed || is_retired s c) _ _ refl
            (drain_waiters-owed n ts _ ∙ rw (r, q, t) refl))
  ]

  release_lease-owed :
      (ts : Text) (caller : ℕ) (s : Pool) → owed n (release_lease ts caller s) ≡ owed n s
  unfolding release_lease
  release_lease-owed ts caller s =
      elim (Option-cases (select (λ (l : ℕ × Text). l.0 == caller) s.leases)) [
        | inl e ↦ rw (e, release_lease) refl
        | inr (l, e) ↦ rw (e, release_lease) (release_entry-owed ts l.1 _)
      ]

  forget-owed :
      (ts a k : Text) (c : ℕ) (s : Pool) → owed n (forget_exited_child ts a k c s) ≡ owed n s
  unfolding forget_exited_child
  forget-owed ts a k c s =
      if-owed n (is_at c (get (storage_key a k) s.entries)) _ _ (drain_waiters-owed n ts _) refl

  retire-owed :
      (caller : ℕ) (a k : Text) (c : ℕ) (s : Pool)
      → owed n (retire_child caller a k c s) ≡ owed n s + one n caller
  unfolding retire_child
  retire-owed caller a k c s =
      let t = mutate c (λ x. record x { retiring = true; in_use = false }) s in
      if-owed n (is_at c (get (storage_key a k) s.entries) && not (is_retired s c)) _ _
        (detach-owed n (for_retire caller) (storage_key a k) c [] false t)
        (answer-owed n caller (ok c) s)

  reset-owed :
      (caller : ℕ) (a k : Text) (s : Pool)
      → owed n (retire_conversation caller a k s) ≡ owed n s + one n caller
  unfolding retire_conversation
  reset-owed caller a k s = elim (Option-cases (get (storage_key a k) s.entries)) [
    | inl e ↦ rw (e, retire_conversation) (answer-owed n caller (ok 0) s)
    | inr (c, e) ↦ rw (e, retire_conversation) (retire-owed caller a k c s)
  ]

  idle_sweep-owed : (c : ℕ) (s : Pool) → owed n (idle_sweep c s) ≡ owed n s
  unfolding idle_sweep
  idle_sweep-owed c s = elim (Option-cases (object s c)) [
    | inl e ↦ rw (e, idle_sweep) refl
    | inr (x, e) ↦
        let id = storage_key x.adapter_id x.conversation_key in
        elim (Option-cases (get id s.entries)) [
          | inl f ↦ rw (e, f, idle_sweep) (if-owed n x.idle_timer _ _ refl refl)
          | inr (d, f) ↦
              let swept = detach-owed n for_idle id d [] false (drop_idle_timer c s) in
              rw (e, f, idle_sweep)
                (if-owed n x.idle_timer _ _
                  (if-owed n (is_in_use s d) _ _ refl (omega (arith, swept))) refl)
        ]
  ]

  drop_timers-owed : (live : List (Text × ℕ)) (s : Pool) → owed n (drop_timers live s) ≡ owed n s
  unfolding drop_timers
  drop_timers-owed [] s = refl
  drop_timers-owed ((id, c) ∷ live) s = drop_timers-owed live (drop_idle_timer c s)

  close_idle-owed :
      (ts : Text) (caller : ℕ) (s : Pool)
      → owed n (close_idle ts caller s) ≡ owed n s + one n caller
  unfolding close_idle
  close_idle-owed ts caller s =
      let idle = idle_entries s s.entries in
      let told = close_next-owed n ts caller 0 (drop_timers idle s) idle in
      let dropped = drop_timers-owed idle s in omega (arith, told, dropped)

  close_pool-owed : (s : Pool) → owed n (close_pool s) ≡ owed n s
  unfolding close_pool
  close_pool-owed s = if-owed n s.closed _ _ refl (
      drop_timers-owed s.entries (record (refuse_all pool_closed s) { closed = true })
      ∙ refuse_all-owed n pool_closed s)

  end_pool-owed :
      (ts : Text) (exits : ℕ → Bool) (s : Pool) → owed n (end_pool ts exits s) ≡ owed n s
  unfolding end_pool
  end_pool-owed ts exits s =
      if-owed n (s.closed && (s.pending_creations == 0 && s.closing == 0)) _ _ refl refl

  -- A task that has woken, with what it is to answer.
  woken-owed :
      (ts : Text) (task : Task) (wake : Wake) (s before : Pool)
      → owed n before ≡ owed n s + asks n task
      → owed n (woken ts task wake s before) ≡ owed n s + asks n task
  unfolding woken
  woken-owed ts (closes p id c rest failed) child_closed s before f = did_close-owed n ts p c rest s
  woken-owed ts (closes p id c rest failed) child_kept s before f =
      not_closed-owed n ts p id c rest s
  woken-owed ts (closes p id c rest failed) proceed s before f = f
  woken-owed ts (closes p id c rest failed) factory_failed_wake s before f = f
  woken-owed ts (closes p id c rest failed) (child_started up) s before f = f
  woken-owed ts (continues p outcome) proceed s before f = continue_after-owed n ts p outcome s
  woken-owed ts (continues p outcome) child_closed s before f = f
  woken-owed ts (continues p outcome) child_kept s before f = f
  woken-owed ts (continues p outcome) factory_failed_wake s before f = f
  woken-owed ts (continues p outcome) (child_started up) s before f = f
  woken-owed ts (spawns i a k) factory_failed_wake s before f = omega arith
  woken-owed ts (spawns i a k) (child_started up) s before f =
      let kept = started-owed n ts i a k up s in omega (arith, kept)
  woken-owed ts (spawns i a k) child_closed s before f = f
  woken-owed ts (spawns i a k) child_kept s before f = f
  woken-owed ts (spawns i a k) proceed s before f = f
  woken-owed ts (awaits who i) proceed s before f =
      elim (Option-cases (select (λ (x : ℕ × Result PoolError ℕ). x.0 == i) s.outcomes)) [
        | inl e ↦ rw (e, woken) f
        | inr (x, e) ↦ rw (e, woken) (created_for-owed n ts who x.1 s)
      ]
  woken-owed ts (awaits who i) child_closed s before f = f
  woken-owed ts (awaits who i) child_kept s before f = f
  woken-owed ts (awaits who i) factory_failed_wake s before f = f
  woken-owed ts (awaits who i) (child_started up) s before f = f

  -- Whether the event is a call that is to be answered, by this caller.
  abbrev pub calls : Event → ℕ
  calls (acquires w parent) = one n w.caller
  calls (retires caller a k c) = one n caller
  calls (resets caller a k) = one n caller
  calls (closes_idle caller) = one n caller
  calls _ = 0

  abbrev pub calls_in : List (Text × Event) → ℕ
  calls_in [] = 0
  calls_in ((ts, e) ∷ es) = calls e + calls_in es

  step-owed : (ts : Text) (s : Pool) (e : Event) → owed n (step ts s e) ≡ owed n s + calls e
  unfolding step
  step-owed ts s (acquires w parent) = acquire-owed n ts w parent s
  step-owed ts s (releases caller) = omega (arith, release_lease-owed ts caller s)
  step-owed ts s (forgets a k c) = omega (arith, forget-owed ts a k c s)
  step-owed ts s (retires caller a k c) = retire-owed caller a k c s
  step-owed ts s (resets caller a k) = reset-owed caller a k s
  step-owed ts s (idles c) = omega (arith, idle_sweep-owed c s)
  step-owed ts s (closes_idle caller) = close_idle-owed ts caller s
  step-owed ts s closes_pool = omega (arith, close_pool-owed s)
  step-owed ts s (ends_pool exits) = omega (arith, end_pool-owed ts exits s)
  step-owed ts s (wakes i wake) = elim (Option-cases (pick i s.tasks)) [
    | inl e ↦ rw (e, step) (omega arith)
    | inr ((t, us), e) ↦
        let split = pick_sum (asked n) (λ u vs. omega arith) i s.tasks us t e in
        let woke = woken-owed ts t wake (record s { tasks = us }) s (omega (arith, split)) in
        rw (e, step) (omega (arith, split, woke))
  ]

  run_total : (s : Pool) (es : List (Text × Event)) → owed n (run s es) ≡ owed n s + calls_in es
  unfolding run
  run_total s [] = omega arith
  run_total s ((ts, e) ∷ es) = omega (arith, run_total (step ts s e) es, step-owed ts s e)

-- From a new pool, over any events, the answers that a caller was given, its places in the queue and
-- the tasks that are to answer it are together as many as its calls of `acquire`, `retireChild`,
-- `retireConversation` and `closeIdle`: no call is answered twice and none is forgotten.
pub run-owed :
    (n m idle : ℕ) (rows : List SessionRecord) {s : Pool} (es : List (Text × Event))
    → new_pool m idle rows ≡ some s
    → owed n (run s es) ≡ calls_in n es
unfolding new_pool
run-owed n m idle rows {s} es e = elim (Bool-cases (m == 0 || idle == 0)) [
  | inl bad ↦ let e' : Path (Option Pool) none (some s) = rw bad at e in cc
  | inr good ↦
      let e' : Path (Option Pool) (some (empty_pool m rows)) (some s) = rw good at e in
      let p : empty_pool m rows ≡ s = cc in omega (arith, run_total n s es, ap (owed n) p)
]
