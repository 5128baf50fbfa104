-- ===== src/Pool/Bounded.antt =====
-- The bound on the children that are alive and on the slots that the pool counts as occupied, over
-- histories of events.
use mathlib.Core.Path.{subst}
use omp_bundler.Prelude.{
  ◌≤◌, ℕ, ◌+◌, ◌≡◌, refl, inl, inr, List, [], ◌∷◌, false, ◌||◌, Option, none, some, Text, ◌==◌,
  arith, Bool-cases,
}
use omp_bundler.Sessions.{SessionRecord}
use omp_bundler.Pool.{Pool}
use omp_bundler.Pool.Machine.{Event, step, run, new_pool, empty_pool}
use omp_bundler.Pool.Slots.{Limits, Balanced}
use omp_bundler.Pool.Children.{children_after, children}
use omp_bundler.Pool.Steps.{oversteps_at, step-Fine}

-- No `acquire` finds its slot taken when it goes on after its eviction.
abbrev pub Uncontended : Pool → List (Text × Event) → Type 0
Uncontended s [] = Unit
Uncontended s ((ts, e) ∷ es) = (oversteps_at s e ≡ false) × Uncontended (step ts s e) es

run-Fine :
    (m : Limits) (s : Pool) (es : List (Text × Event))
    → Uncontended s es
    → Balanced m 0 0 s
    → Balanced (record m { live = children s es m.live }) 0 0 (run s es)
unfolding run
run-Fine m s [] u b = b
run-Fine m s ((ts, e) ∷ es) u b =
    run-Fine (record m { live = children_after ts s e m.live }) (step ts s e) es u.1
      (step-Fine m ts s e u.0 b)

new_pool-Fine :
    (m idle : ℕ) (rows : List SessionRecord) {s : Pool}
    → new_pool m idle rows ≡ some s
    → Balanced (record { most = m; live = 0 }) 0 0 s
unfolding new_pool
new_pool-Fine m idle rows {s} e = elim (Bool-cases (m == 0 || idle == 0)) [
  | inl bad ↦ let e' : Path (Option Pool) none (some s) = rw bad at e in cc
  | inr good ↦
      let e' : Path (Option Pool) (some (empty_pool m rows)) (some s) = rw good at e in
      let p : empty_pool m rows ≡ s = cc in
      subst (Balanced (record { most = m; live = 0 }) 0 0) p (record {
        limit = refl;
        closing_counted = refl;
        pending_counted = refl;
        bounded = omega arith;
        alive = omega arith;
        keys = tt;
      })
]

-- From a new pool, over any events in which no acquire finds its slot taken when it goes on after its
-- eviction, the children that are alive and the creations in flight together are never more than the
-- maximum, where a child is no longer counted once another child takes its entry, which a closing that
-- failed or a second creation for its conversation can do, and none is counted once `close` has ended.
-- The children counted are no more than the entries and the closings, no conversation has two entries,
-- the slots occupied are never more than the maximum, and each slot counted for a creation or a
-- closing has a task that is to free it.
pub run-Balanced :
    (m idle : ℕ) (rows : List SessionRecord) {s : Pool} (es : List (Text × Event))
    → new_pool m idle rows ≡ some s
    → Uncontended s es
    → (children s es 0 + (run s es).pending_creations ≤ m)
      × Balanced (record { most = m; live = children s es 0 }) 0 0 (run s es)
run-Balanced m idle rows {s} es e u =
    let b = run-Fine (record { most = m; live = 0 }) s es u (new_pool-Fine m idle rows e) in
    (omega (arith, b.alive, b.bounded), b)
