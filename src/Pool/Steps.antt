-- ===== src/Pool/Steps.antt =====
-- Each step of the pool keeps the account of its slots and of the children that are alive.
use omp_bundler.Prelude.{
  ◌-◌, if◌then◌else◌, ℕ, ◌≡◌, refl, inl, inr, [], ◌∷◌, Bool, false, ◌&&◌, none, some, Text, ◌==◌,
  arith, Option-cases,
}
use omp_bundler.Prelude.Results.{Result, err}
use omp_bundler.Prelude.Rows.{select}
use omp_bundler.Prelude.Maps.{get}
use omp_bundler.StorageKey.{storage_key}
use omp_bundler.Pool.{
  PoolError, factory_failed, Task, closes, continues, spawns, awaits, Pool, occupied_slots,
}
use omp_bundler.Pool.Sections.{is_at}
use omp_bundler.Pool.Machine.{
  Wake, child_closed, child_kept, proceed, factory_failed_wake, child_started, Event, acquires,
  releases, forgets, retires, resets, idles, closes_idle, closes_pool, ends_pool, wakes, pick,
  woken, step,
}
use omp_bundler.Pool.Slots.{is_here, Limits, Balanced, closings, spawnings}
use omp_bundler.Pool.Children.{woken_children, children_after}
use omp_bundler.Pool.Capacity.{oversteps, acquire-Fine, not_closed-Fine, did_close-Fine}
use omp_bundler.Pool.Creation.{
  started_children, continue_after-Fine, settle-Fine, started-Fine, created_for-Fine,
}
use omp_bundler.Pool.Picking.{pick_sum, closings-cons, spawnings-cons}
use omp_bundler.Pool.Handlers.{
  release_lease-Fine, forget-Fine, retire-Fine, reset-Fine, idle_sweep-Fine, close_pool-Fine,
  end_pool-Fine, close_idle-Fine,
}

-- The event is that of an `acquire` that finds its slot taken.
abbrev pub oversteps_at : Pool → Event → Bool
oversteps_at s (wakes i wake) = elim (pick i s.tasks) [
  | none ↦ false
  | some (t, us) ↦ oversteps t s
]
oversteps_at s _ = false

-- A task that has woken, with the slot that it held.
woken-Fine :
    (m : Limits) (ts : Text) (task : Task) (wake : Wake) (s before : Pool)
    → Balanced m 0 0 before
    → Balanced m (closings (task ∷ [])) (spawnings (task ∷ [])) s
    → oversteps task s ≡ false
    → Balanced
        (record m { live = woken_children ts s task wake m.live })
        0
        0
        (woken ts task wake s before)
unfolding woken
woken-Fine m ts (closes p id c rest failed) child_closed s before f b o =
    did_close-Fine (record m { live = m.live - 1 }) ts p c rest s m.live refl b
woken-Fine m ts (closes p id c rest failed) child_kept s before f b o =
    not_closed-Fine (record m { live = if is_here (get id s.entries) then m.live - 1 else m.live })
      ts p id c rest s m.live refl b
woken-Fine m ts (closes p id c rest failed) proceed s before f b o = f
woken-Fine m ts (closes p id c rest failed) factory_failed_wake s before f b o = f
woken-Fine m ts (closes p id c rest failed) (child_started up) s before f b o = f
woken-Fine m ts (continues p outcome) proceed s before f b o =
    continue_after-Fine m ts p outcome s o b
woken-Fine m ts (continues p outcome) child_closed s before f b o = f
woken-Fine m ts (continues p outcome) child_kept s before f b o = f
woken-Fine m ts (continues p outcome) factory_failed_wake s before f b o = f
woken-Fine m ts (continues p outcome) (child_started up) s before f b o = f
woken-Fine m ts (spawns n a k) factory_failed_wake s before f b o =
    settle-Fine m n (storage_key a k) (err factory_failed) s b
woken-Fine m ts (spawns n a k) (child_started up) s before f b o =
    started-Fine (record m { live = started_children ts s a k up m.live }) ts n a k up s m.live refl
      b
woken-Fine m ts (spawns n a k) child_closed s before f b o = f
woken-Fine m ts (spawns n a k) child_kept s before f b o = f
woken-Fine m ts (spawns n a k) proceed s before f b o = f
woken-Fine m ts (awaits who n) proceed s before f b o =
    elim (Option-cases (select (λ (x : ℕ × Result PoolError ℕ). x.0 == n) s.outcomes)) [
      | inl e ↦ rw (e, woken) f
      | inr (x, e) ↦ rw (e, woken) (created_for-Fine m ts who x.1 s b)
    ]
woken-Fine m ts (awaits who n) child_closed s before f b o = f
woken-Fine m ts (awaits who n) child_kept s before f b o = f
woken-Fine m ts (awaits who n) factory_failed_wake s before f b o = f
woken-Fine m ts (awaits who n) (child_started up) s before f b o = f

pub step-Fine :
    (m : Limits) (ts : Text) (s : Pool) (e : Event)
    → oversteps_at s e ≡ false
    → Balanced m 0 0 s
    → Balanced (record m { live = children_after ts s e m.live }) 0 0 (step ts s e)
unfolding step occupied_slots
step-Fine m ts s (acquires w parent) o b = acquire-Fine m ts w parent s b
step-Fine m ts s (releases caller) o b = release_lease-Fine m ts caller s b
step-Fine m ts s (forgets a k c) o b =
    forget-Fine
      (record m { live = if is_at c (get (storage_key a k) s.entries) then m.live - 1 else m.live })
      ts a k c s m.live refl b
step-Fine m ts s (retires caller a k c) o b = retire-Fine m caller a k c s b
step-Fine m ts s (resets caller a k) o b = reset-Fine m caller a k s b
step-Fine m ts s (idles c) o b = idle_sweep-Fine m c s b
step-Fine m ts s (closes_idle caller) o b = close_idle-Fine m ts caller s b
step-Fine m ts s closes_pool o b = close_pool-Fine m s b
step-Fine m ts s (ends_pool exits) o b =
    end_pool-Fine
      (record m {
        live = if s.closed && (s.pending_creations == 0 && s.closing == 0) then 0 else m.live;
      })
      ts exits s m.live refl b
step-Fine m ts s (wakes i wake) o b = elim (Option-cases (pick i s.tasks)) [
  | inl e ↦ rw (e, step, children_after) b
  | inr ((t, us), e) ↦
      let o' : oversteps t s ≡ false = rw (e, oversteps_at) at o in
      rw (e, step, children_after)
        (woken-Fine m ts t wake (record s { tasks = us }) s b
          (record {
            limit = b.limit;
            closing_counted =
                omega (arith, b.closing_counted, pick_sum closings closings-cons i s.tasks us t e);
            pending_counted =
                omega
                  (arith, b.pending_counted, pick_sum spawnings spawnings-cons i s.tasks us t e);
            bounded = b.bounded;
            alive = b.alive;
            keys = b.keys;
          })
          o')
]
