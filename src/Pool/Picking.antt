-- ===== src/Pool/Picking.antt =====
-- The account of the tasks when one of them is picked.
use omp_bundler.Prelude.{
  ℕ, zero, suc, ◌+◌, ◌≡◌, ap, inl, inr, List, [], ◌∷◌, Option, none, some, arith, Option-cases,
}
use omp_bundler.Pool.{Task}
use omp_bundler.Pool.Machine.{pick}
use omp_bundler.Pool.Slots.{closings, spawnings, closings-append, spawnings-append}

-- A sum over the tasks is that of the task that is picked and of the others.
pub pick_sum :
    (f : List Task → ℕ)
    → ((t : Task) (ts : List Task) → f (t ∷ ts) ≡ f ts + f (t ∷ []))
    → (i : ℕ) (ts us : List Task) (t : Task) → pick i ts ≡ some (t, us)
    → f ts ≡ f us + f (t ∷ [])
unfolding pick
pick_sum f split i [] us t e = cc
pick_sum f split zero (u ∷ ts) us t e =
    let p : u ≡ t = cc in
    let q : ts ≡ us = cc in omega (arith, split u ts, ap (λ x. f (x ∷ [])) p, ap f q)
pick_sum f split (suc i) (u ∷ ts) us t e =
    let again = pick_sum f split i ts in
    elim (Option-cases (pick i ts)) [
      | inl gone ↦
          let e' : Path (Option (Task × List Task)) none (some (t, us)) = rw (gone, pick) at e in cc
      | inr ((v, vs), found) ↦
          let e' : Path (Option (Task × List Task)) (some (v, u ∷ vs)) (some (t, us)) =
            rw (found, pick) at e in
          let p : v ≡ t = cc in
          let q : u ∷ vs ≡ us = cc in
          omega (arith, split u ts, split u vs, again vs v found, ap (λ x. f (x ∷ [])) p, ap f q)
    ]

pub closings-cons :
    (t : Task) (ts : List Task) → closings (t ∷ ts) ≡ closings ts + closings (t ∷ [])
closings-cons t ts = omega (arith, closings-append (t ∷ []) ts)

pub spawnings-cons :
    (t : Task) (ts : List Task) → spawnings (t ∷ ts) ≡ spawnings ts + spawnings (t ∷ [])
spawnings-cons t ts = omega (arith, spawnings-append (t ∷ []) ts)
