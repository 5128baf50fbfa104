-- ===== src/Pool/Handlers.antt =====
-- The calls other than `acquire` keep the account of the slots and of the children that are alive.
use omp_bundler.Prelude.{
  ◌≤◌, ◌-◌, if◌then◌else◌, ℕ, ◌≡◌, refl, inl, inr, List, [], ◌∷◌, Bool, true, false, not, ◌&&◌,
  ◌||◌, Option, none, some, Text, ◌==◌, arith, Bool-cases, Option-cases,
}
use omp_bundler.Prelude.Rows.{select}
use omp_bundler.Prelude.Maps.{get, remove-Distinct}
use omp_bundler.StorageKey.{storage_key}
use omp_bundler.Pool.{for_idle, for_retire, Pool, is_in_use, is_retired, object, touch_lru, mutate}
use omp_bundler.Pool.Sections.{drop_idle_timer, is_at, idle_entries}
use omp_bundler.Pool.Wakes.{refuse_all}
use omp_bundler.Pool.Machine.{
  release_entry, release_lease, forget_exited_child, retire_child, retire_conversation, idle_sweep,
  drop_timers, close_idle, close_pool, end_pool,
}
use omp_bundler.Pool.Slots.{length-remove_found, Limits, Balanced, touch_lru-Balanced}
use omp_bundler.Pool.Filling.{detach-Balanced, drain_waiters-Balanced}
use omp_bundler.Pool.Capacity.{still, if-Fine, close_next-Fine}

entry_at : (c : ℕ) (o : Option ℕ) → is_at c o ≡ true → (d : ℕ) × (o ≡ some d)
entry_at c none h = cc
entry_at c (some d) h = (d, refl)

module _ (m : Limits) where
  abbrev Fine : Pool → Type 0
  Fine s = Balanced m 0 0 s

  -- No more children are alive than are counted.
  fewer : (l : ℕ) (s : Pool) → m.live ≤ l → Balanced (record m { live = l }) 0 0 s → Fine s
  fewer l s h b = record {
    limit = b.limit;
    closing_counted = b.closing_counted;
    pending_counted = b.pending_counted;
    bounded = b.bounded;
    alive = omega (arith, b.alive);
    keys = b.keys;
  }

  pub release_entry-Fine : (ts id : Text) (s : Pool) → Fine s → Fine (release_entry ts id s)
  unfolding release_entry
  release_entry-Fine ts id s b = elim (Option-cases (get id s.entries)) [
    | inl e ↦ rw (e, release_entry) b
    | inr (c, e) ↦
        let u =
          mutate c (λ x. record x { in_use = false; last_used_at = ts; idle_timer = true }) s in
        rw (e, release_entry)
          (if-Fine m (s.closed || is_retired s c) b (
            drain_waiters-Balanced m 0 0 ts _ (
              still (touch_lru id u) _ refl refl refl refl refl
                (touch_lru-Balanced id u (still s u refl refl refl refl refl b)))))
  ]

  pub release_lease-Fine :
      (ts : Text) (caller : ℕ) (s : Pool) → Fine s → Fine (release_lease ts caller s)
  unfolding release_lease
  release_lease-Fine ts caller s b =
      elim (Option-cases (select (λ (l : ℕ × Text). l.0 == caller) s.leases)) [
        | inl e ↦ rw (e, release_lease) b
        | inr (l, e) ↦
            rw (e, release_lease)
              (release_entry-Fine ts l.1 _ (still s _ refl refl refl refl refl b))
      ]

  pub forget-Fine :
      (ts a k : Text) (c : ℕ) (s : Pool) (l : ℕ)
      → (if is_at c (get (storage_key a k) s.entries) then l - 1 else l) ≡ m.live
      → Balanced (record m { live = l }) 0 0 s
      → Fine (forget_exited_child ts a k c s)
  unfolding forget_exited_child
  forget-Fine ts a k c s l q b = elim (Bool-cases (is_at c (get (storage_key a k) s.entries))) [
    | inl hit ↦
        let one_less : l - 1 ≡ m.live = rw hit at q in
        let (d, here) = entry_at c (get (storage_key a k) s.entries) hit in
        let left = length-remove_found (storage_key a k) s.entries here in
        rw (hit, forget_exited_child)
          (drain_waiters-Balanced m 0 0 ts _ (record {
            limit = b.limit;
            closing_counted = b.closing_counted;
            pending_counted = b.pending_counted;
            bounded = omega (arith, b.bounded, left);
            alive = omega (arith, b.alive, left, one_less);
            keys = remove-Distinct (storage_key a k) s.entries b.keys;
          }))
    | inr miss ↦
        let no_less : l ≡ m.live = rw miss at q in
        rw (miss, forget_exited_child) (fewer l s (omega arith) b)
  ]

  pub retire-Fine :
      (caller : ℕ) (a k : Text) (c : ℕ) (s : Pool) → Fine s → Fine (retire_child caller a k c s)
  unfolding retire_child
  retire-Fine caller a k c s b = elim (Option-cases (get (storage_key a k) s.entries)) [
    | inl e ↦ rw e (still s _ refl refl refl refl refl b)
    | inr (d, e) ↦
        let t = mutate c (λ x. record x { retiring = true; in_use = false }) s in
        if-Fine m (is_at c (get (storage_key a k) s.entries) && not (is_retired s c))
          (detach-Balanced m 0 0 (for_retire caller) (storage_key a k) c d [] false t e
            (still s t refl refl refl refl refl b))
          (still s _ refl refl refl refl refl b)
  ]

  pub reset-Fine :
      (caller : ℕ) (a k : Text) (s : Pool) → Fine s → Fine (retire_conversation caller a k s)
  unfolding retire_conversation
  reset-Fine caller a k s b = elim (Option-cases (get (storage_key a k) s.entries)) [
    | inl e ↦ rw (e, retire_conversation) (still s _ refl refl refl refl refl b)
    | inr (c, e) ↦ rw (e, retire_conversation) (retire-Fine caller a k c s b)
  ]

  pub idle_sweep-Fine : (c : ℕ) (s : Pool) → Fine s → Fine (idle_sweep c s)
  unfolding idle_sweep
  idle_sweep-Fine c s b = elim (Option-cases (object s c)) [
    | inl e ↦ rw (e, idle_sweep) b
    | inr (x, e) ↦
        let id = storage_key x.adapter_id x.conversation_key in
        let t = drop_idle_timer c s in
        let b' : Fine t = still s t refl refl refl refl refl b in
        elim (Option-cases (get id s.entries)) [
          | inl f ↦ rw (e, f, idle_sweep) (if-Fine m x.idle_timer b' b)
          | inr (d, f) ↦
              rw (e, f, idle_sweep)
                (if-Fine m x.idle_timer
                  (if-Fine m (is_in_use s d) b'
                    (detach-Balanced m 0 0 for_idle id d d [] false t f b'))
                  b)
        ]
  ]

  pub drop_timers-Fine : (live : List (Text × ℕ)) (s : Pool) → Fine s → Fine (drop_timers live s)
  unfolding drop_timers
  drop_timers-Fine [] s b = b
  drop_timers-Fine ((id, c) ∷ live) s b =
      drop_timers-Fine live (drop_idle_timer c s) (still s _ refl refl refl refl refl b)

  pub close_pool-Fine : (s : Pool) → Fine s → Fine (close_pool s)
  unfolding close_pool refuse_all
  close_pool-Fine s b =
      if-Fine m s.closed b (drop_timers-Fine s.entries _ (still s _ refl refl refl refl refl b))

  pub end_pool-Fine :
      (ts : Text) (exits : ℕ → Bool) (s : Pool) (l : ℕ)
      → (if s.closed && (s.pending_creations == 0 && s.closing == 0) then 0 else l) ≡ m.live
      → Balanced (record m { live = l }) 0 0 s
      → Fine (end_pool ts exits s)
  unfolding end_pool
  end_pool-Fine ts exits s l q b =
      elim (Bool-cases (s.closed && (s.pending_creations == 0 && s.closing == 0))) [
        | inl ends ↦
            let none_left : 0 ≡ m.live = rw ends at q in
            rw (ends, end_pool)
              (record {
                limit = b.limit;
                closing_counted = b.closing_counted;
                pending_counted = b.pending_counted;
                bounded = omega (arith, b.bounded);
                alive = omega (arith, none_left);
                keys = tt;
              })
        | inr waits ↦
            let same_count : l ≡ m.live = rw waits at q in
            rw (waits, end_pool) (fewer l s (omega arith) b)
      ]

  pub close_idle-Fine : (ts : Text) (caller : ℕ) (s : Pool) → Fine s → Fine (close_idle ts caller s)
  unfolding close_idle
  close_idle-Fine ts caller s b =
      let idle = idle_entries s s.entries in
      close_next-Fine m ts caller 0 (drop_timers idle s) idle (drop_timers-Fine idle s b)
