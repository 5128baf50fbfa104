-- ===== src/Cron/Part.antt =====
-- Which values one part of a field matches: `*`, `A`, `A-B` and their forms with a step, those that
-- go round after the field's largest value included.
use omp_bundler.Prelude.{
  ℕ, zero, suc, ◌+◌, ◌-◌, ◌*◌, ◌≤◌, ◌<◌, ◌≡◌, List, [], ◌∷◌, true, leb, ◌==◌, any, if◌then◌else◌,
  All,
}
use omp_bundler.Prelude.Results.{Result, ok, err}
use omp_bundler.Cron.{FieldDef, CronError, Span, first_of, last_of}
use omp_bundler.Cron.Range.{Within}

-- The value so far after the start, where the smallest value follows the largest.
abbrev pub at_offset : FieldDef → ℕ → ℕ → ℕ
at_offset def start d =
    if leb (start + d) def.max then start + d else def.min + (start + d - suc def.max)

-- How many values lie from the start to the end, both included.
abbrev pub width : FieldDef → ℕ → ℕ → ℕ
width def start end =
    if leb start end then suc end - start else (suc def.max - start) + (suc end - def.min)

module _ (g : ℕ → ℕ) (step bound : ℕ) where
  -- The list has the values of `g` at the offset d and each multiple of the step after it, below the
  -- bound, and no others.
  abbrev pub Steps : ℕ → List ℕ → Type 0
  Steps d vs =
      All (λ v. (i : ℕ) × (d + i * step < bound) × (v ≡ g (d + i * step))) vs
      × ((i : ℕ) → d + i * step < bound → any (λ w. w == g (d + i * step)) vs ≡ true)

-- The values of `g` at n offsets in a row.
walk : (ℕ → ℕ) → ℕ → ℕ → List ℕ
walk g zero d = []
walk g (suc n) d = g d ∷ walk g n (suc d)

-- The outcome of a part: the values that it matches, or that its step or an end is out of range.
abbrev pub Matches : FieldDef → Span → ℕ → Result CronError (List ℕ) → Type 0
Matches def span step (ok vs) =
    let start = first_of def span in
    let end = last_of def span in
    (1 ≤ step)
    × Within def.min def.max start
    × Within def.min def.max end
    × Steps (at_offset def start) step (width def start end) 0 vs
Matches def span step (err e) = ¬ (
    (1 ≤ step)
    × Within def.min def.max (first_of def span)
    × Within def.min def.max (last_of def span))
