-- ===== src/Pool/Creation.antt =====
-- What follows an eviction, and the end of a creation, keep the account of the slots and of the
-- children that are alive.
use omp_bundler.Prelude.{ℕ, ◌+◌, ◌≡◌, refl, sym, inl, inr, false, Text, if◌then◌else◌, arith}
use omp_bundler.Prelude.Results.{Result, ok, err, Result-cases}
use omp_bundler.Prelude.Maps.{get, set-Distinct}
use omp_bundler.StorageKey.{storage_key}
use omp_bundler.Pool.{
  PoolError, pool_closed, close_failed, Waiter, Purpose, for_acquire, for_drain, for_idle,
  for_retire, for_close_idle, EvictOutcome, evicted, all_in_use, no_close, Claimant, creator,
  joiner, drained_creator, drained_joiner, continues, Pool, is_in_use, reject,
}
use omp_bundler.Pool.Sections.{hold}
use omp_bundler.Pool.Wakes.{
  refuse_all, continue_after, settle, Startup, prepare, started, take_joined, take_drained,
  created_for,
}
use omp_bundler.Pool.Slots.{Limits, is_here, Balanced, length-set}
use omp_bundler.Pool.Filling.{hold-Balanced, create_entry-Balanced, drain_waiters-Balanced}
use omp_bundler.Pool.Capacity.{still, oversteps, if-Fine, reject-Fine, enqueue-Fine}

-- How many children are alive once a child has started, when `n` were before: it stays alive if its
-- session was found and claimed, and takes the place of a child that has its entry.
unfoldable pub started_children : Text → Pool → Text → Text → Startup → ℕ → ℕ
started_children ts s a k up n = elim (prepare ts a k up s.rows) [
  | err e ↦ n
  | ok rows ↦ if is_here (get (storage_key a k) s.entries) then n else n + 1
]

module _ (m : Limits) where
  abbrev Fine : Pool → Type 0
  Fine s = Balanced m 0 0 s

  -- The code after an eviction, if there is a slot for the child that it is to create.
  pub continue_after-Fine :
      (ts : Text) (p : Purpose) (outcome : EvictOutcome) (s : Pool)
      → oversteps (continues p outcome) s ≡ false
      → Fine s
      → Fine (continue_after ts p outcome s)
  unfolding continue_after refuse_all
  continue_after-Fine ts (for_acquire w parent) no_close s room b = reject-Fine m w close_failed s b
  continue_after-Fine ts (for_acquire w parent) all_in_use s room b = enqueue-Fine m w s b
  continue_after-Fine ts (for_acquire w parent) evicted s room b =
      if-Fine m s.closed (reject-Fine m w pool_closed s b)
        (create_entry-Balanced m 0 0 creator w s (rw (sym b.limit) room) b)
  continue_after-Fine ts for_drain no_close s room b =
      drain_waiters-Balanced m 0 0 ts _ (still s _ refl refl refl refl refl b)
  continue_after-Fine ts for_drain evicted s room b =
      drain_waiters-Balanced m 0 0 ts _ (still s _ refl refl refl refl refl b)
  continue_after-Fine ts for_drain all_in_use s room b =
      drain_waiters-Balanced m 0 0 ts _ (still s _ refl refl refl refl refl b)
  continue_after-Fine ts for_idle outcome s room b = b
  continue_after-Fine ts (for_retire caller) outcome s room b = b
  continue_after-Fine ts (for_close_idle caller n) outcome s room b = b

  pub settle-Fine :
      (n : ℕ) (id : Text) (outcome : Result PoolError ℕ) (s : Pool)
      → Balanced m 0 1 s
      → Fine (settle n id outcome s)
  settle-Fine n id outcome s b = record {
    limit = b.limit;
    closing_counted = b.closing_counted;
    pending_counted = omega (arith, b.pending_counted);
    bounded = omega (arith, b.bounded);
    alive = b.alive;
    keys = b.keys;
  }

  pub started-Fine :
      (ts : Text) (n : ℕ) (a k : Text) (up : Startup) (s : Pool) (l : ℕ)
      → started_children ts s a k up l ≡ m.live
      → Balanced (record m { live = l }) 0 1 s
      → Fine (started ts n a k up s)
  unfolding started started_children
  started-Fine ts n a k up s l q b = elim (Result-cases (prepare ts a k up s.rows)) [
    | inr (x, e) ↦
        rw (e, started)
          (record {
            limit = b.limit;
            closing_counted = b.closing_counted;
            pending_counted = omega (arith, b.pending_counted);
            bounded = omega (arith, b.bounded);
            alive =
                let same_count : l ≡ m.live = rw (e, started_children) at q in
                omega (arith, same_count, b.alive);
            keys = b.keys;
          })
    | inl (rows, e) ↦
        rw (e, started)
          (record {
            limit = b.limit;
            closing_counted = b.closing_counted;
            pending_counted = omega (arith, b.pending_counted);
            bounded = ground (
              arith,
              b.bounded,
              b.pending_counted,
              length-set (storage_key a k) s.fresh s.entries,
            );
            alive =
                let one_more : (if is_here (get (storage_key a k) s.entries) then l else l + 1)
                    ≡ m.live =
                  rw (e, started_children) at q in
                ground (arith, b.alive, length-set (storage_key a k) s.fresh s.entries);
            keys = set-Distinct (storage_key a k) s.fresh s.entries b.keys;
          })
  ]

  take_joined-Fine :
      (ts : Text) (w : Waiter) (c : ℕ) (s : Pool) → Fine s → Fine (take_joined ts w c s)
  unfolding take_joined
  take_joined-Fine ts w c s b =
      if-Fine m s.closed (reject-Fine m w pool_closed s b)
        (if-Fine m (is_in_use s c) (enqueue-Fine m w s b) (hold-Balanced m 0 0 ts w c s b))

  take_drained-Fine :
      (ts : Text) (w : Waiter) (c : ℕ) (s : Pool) → Fine s → Fine (take_drained ts w c s)
  unfolding take_drained
  take_drained-Fine ts w c s b = if-Fine m s.closed (reject-Fine m w pool_closed s b) (
      drain_waiters-Balanced m 0 0 ts _ (
        if-Fine m (is_in_use s c) (still s _ refl refl refl refl refl b)
          (hold-Balanced m 0 0 ts w c s b)))

  pub created_for-Fine :
      (ts : Text) (who : Claimant) (outcome : Result PoolError ℕ) (s : Pool)
      → Fine s
      → Fine (created_for ts who outcome s)
  unfolding created_for
  created_for-Fine ts (creator w) (ok c) s b =
      if-Fine m s.closed (reject-Fine m w pool_closed s b) (hold-Balanced m 0 0 ts w c s b)
  created_for-Fine ts (creator w) (err e) s b = reject-Fine m w e s b
  created_for-Fine ts (joiner w) (ok c) s b = take_joined-Fine ts w c s b
  created_for-Fine ts (joiner w) (err e) s b = reject-Fine m w e s b
  created_for-Fine ts (drained_creator w) (ok c) s b =
      if-Fine m s.closed (reject-Fine m w pool_closed s b)
        (drain_waiters-Balanced m 0 0 ts (hold ts w c s) (hold-Balanced m 0 0 ts w c s b))
  created_for-Fine ts (drained_creator w) (err e) s b =
      drain_waiters-Balanced m 0 0 ts (reject w e s) (reject-Fine m w e s b)
  created_for-Fine ts (drained_joiner w) (ok c) s b = take_drained-Fine ts w c s b
  created_for-Fine ts (drained_joiner w) (err e) s b =
      drain_waiters-Balanced m 0 0 ts (reject w e s) (reject-Fine m w e s b)
