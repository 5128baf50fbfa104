-- ===== src/Pool/Filling.antt =====
-- Each stretch of the pool's code keeps the account of its slots.
use omp_bundler.Prelude.{
  ℕ, ◌≡◌, refl, sym, inl, inr, List, [], ◌∷◌, Bool, true, false, some, Text, is_empty, leb, arith,
  Bool-cases, Option-cases,
}
use omp_bundler.Prelude.Maps.{get}
use omp_bundler.Pool.{
  Waiter, Purpose, for_drain, EvictOutcome, Claimant, continues, awaits, Pool, occupied_slots,
  is_in_use, is_retired, touch_lru, mutate, is_retiring, reject, add_task, key_of, drained_creator,
  drained_joiner,
}
use omp_bundler.Pool.Sections.{
  drop_idle_timer, hold, is_evictable, detach, idle_entries, evict_next, evict_idle_for_capacity,
  create_entry, make_room, drain, drain_waiters,
}
use omp_bundler.Pool.Slots.{
  Limits, Balanced, frame, add_task-Balanced, evict-Balanced, create-Balanced, touch_lru-Balanced,
}

module _ (m : Limits) (dc dp : ℕ) where
  abbrev Fine : Pool → Type 0
  Fine s = Balanced m dc dp s

  pub hold-Balanced : (ts : Text) (w : Waiter) (c : ℕ) (s : Pool) → Fine s → Fine (hold ts w c s)
  unfolding hold
  hold-Balanced ts w c s b =
      let u = mutate c (λ e. record e { in_use = true }) s in
      let t = touch_lru (key_of w) u in
      frame t _ refl refl refl refl refl
        (touch_lru-Balanced (key_of w) u (frame s u refl refl refl refl refl b))

  pub is_evictable_live :
      (s : Pool) (id : Text) (c : ℕ)
      → is_evictable s id c ≡ true
      → (d : ℕ) × (get id s.entries ≡ some d)
  is_evictable_live s id c e = elim (Option-cases (get id s.entries)) [
    | inl gone ↦ ground arith
    | inr (d, here) ↦ (d, here)
  ]

  pub detach-Balanced :
      (p : Purpose) (id : Text) (c d : ℕ) (rest : List (Text × ℕ)) (failed : Bool) (s : Pool)
      → get id s.entries ≡ some d
      → Fine s
      → Fine (detach p id c rest failed s)
  unfolding detach
  detach-Balanced p id c d rest failed s e b =
      let t = drop_idle_timer c s in
      evict-Balanced p id c d rest failed t e (frame s t refl refl refl refl refl b)

  pub evict_next-Balanced :
      (p : Purpose) (s : Pool) (failed : Bool) (idle : List (Text × ℕ))
      → Fine s
      → Fine (evict_next p s failed idle)
  unfolding evict_next
  evict_next-Balanced p s failed [] b = add_task-Balanced (continues p _) s refl refl b
  evict_next-Balanced p s failed ((id, c) ∷ rest) b = elim (Bool-cases (is_evictable s id c)) [
    | inl idle ↦
        let (d, here) = is_evictable_live s id c idle in
        rw idle (detach-Balanced p id c d rest failed s here b)
    | inr busy ↦ rw busy (evict_next-Balanced p s failed rest b)
  ]

  pub evict_idle_for_capacity-Balanced :
      (p : Purpose) (s : Pool) → Fine s → Fine (evict_idle_for_capacity p s)
  unfolding evict_idle_for_capacity
  evict_idle_for_capacity-Balanced p s b = go (idle_entries s s.entries)
    where
      go :
          (idle : List (Text × ℕ))
          → Fine (elim idle [
            | [] ↦ add_task (continues p EvictOutcome.all_in_use) s
            | e ∷ rest ↦ evict_next p s false (e ∷ rest)
          ])
      go [] = add_task-Balanced (continues p EvictOutcome.all_in_use) s refl refl b
      go (e ∷ rest) = evict_next-Balanced p s false (e ∷ rest) b

  -- A creation takes a slot unless it joins one; it may be begun when there is a slot.
  pub create_entry-Balanced :
      (kind : Waiter → Claimant) (w : Waiter) (s : Pool)
      → leb m.most (occupied_slots s) ≡ false
      → Fine s
      → Fine (create_entry kind w s)
  unfolding create_entry occupied_slots
  create_entry-Balanced kind w s free b = elim (Option-cases (get (key_of w) s.inflight)) [
    | inr (n, e) ↦ rw (e, create_entry) (add_task-Balanced (awaits (kind w) n) s refl refl b)
    | inl e ↦ rw (e, create_entry) (create-Balanced w (key_of w) (kind w) s (ground arith) b)
  ]

  pub make_room-Balanced : (s : Pool) → Fine s → Fine (make_room s)
  unfolding make_room
  make_room-Balanced s b = elim (Bool-cases (is_empty (idle_entries s s.entries))) [
    | inl none_idle ↦ rw none_idle b
    | inr idle ↦ elim (Bool-cases s.draining) [
      | inl already ↦
          rw (idle, already) (frame s (record s { draining = true }) refl refl refl refl refl b)
      | inr first ↦
          let t = record s { draining = true } in
          rw (idle, first)
            (evict_idle_for_capacity-Balanced for_drain t (frame s t refl refl refl refl refl b))
    ]
  ]

  pub drain-Balanced : (ts : Text) (s : Pool) (ws : List Waiter) → Fine s → Fine (drain ts s ws)
  unfolding drain occupied_slots
  drain-Balanced ts s [] b = frame s _ refl refl refl refl refl b
  drain-Balanced ts s (w ∷ ws) b =
      let left : (vs : List Waiter) → Fine (record s { waiters = vs }) =
        λ vs. frame s _ refl refl refl refl refl b in
      elim (Option-cases (get (key_of w) s.entries)) [
        | inr (c, e) ↦ elim (Bool-cases (is_retired s c)) [
          | inl gone ↦
              rw (e, gone, drain)
                (drain-Balanced ts (reject w is_retiring s) ws
                  (frame s _ refl refl refl refl refl b))
          | inr live ↦ elim (Bool-cases (is_in_use s c)) [
            | inl busy ↦ rw (e, live, busy, drain) (left (w ∷ ws))
            | inr idle ↦
                rw (e, live, idle, drain)
                  (drain-Balanced ts (hold ts w c (drop_idle_timer c s)) ws (
                    hold-Balanced ts w c (drop_idle_timer c s)
                      (frame s _ refl refl refl refl refl b)))
          ]
        ]
        | inl e ↦ elim (Option-cases (get (key_of w) s.inflight)) [
          | inr (n, f) ↦
              rw (e, f, drain)
                (frame (add_task (awaits (drained_joiner w) n) s) _ refl refl refl refl refl
                  (add_task-Balanced (awaits (drained_joiner w) n) s refl refl b))
          | inl f ↦ elim (Bool-cases (leb s.max_children (occupied_slots s))) [
            | inl full ↦
                rw (e, f, full, drain)
                  (make_room-Balanced (record s { waiters = w ∷ ws }) (left (w ∷ ws)))
            | inr free ↦
                rw (e, f, free, drain)
                  (create_entry-Balanced drained_creator w (record s { waiters = ws })
                    (rw (sym b.limit) free) (left ws))
          ]
        ]
      ]

  pub drain_waiters-Balanced : (ts : Text) (s : Pool) → Fine s → Fine (drain_waiters ts s)
  unfolding drain_waiters
  drain_waiters-Balanced ts s b = drain-Balanced ts s s.waiters b
