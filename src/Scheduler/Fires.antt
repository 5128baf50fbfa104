-- ===== src/Scheduler/Fires.antt =====
-- No boundary of a job is fired twice, over any ticks.
use omp_bundler.Prelude.{
  ℕ, ◌+◌, ◌≡◌, ◌≤◌, ◌<◌, refl, ap, inl, inr, List, [], ◌∷◌, Bool, true, false, not, ◌||◌, Option,
  none, some, Text, same, same_iff, same_refl, any, if◌then◌else◌, All, arith, Bool-cases,
  Option-cases,
}
use omp_bundler.Prelude.Results.{Result-cases}
use omp_bundler.Prelude.Maps.{get, set, get-set}
use omp_bundler.Scheduler.{
  CronJob, compute_due_fires, Scheduler, run_at_boot_once, boot, fire_one, fire_all, visit,
  visit_all, earlier, tick, ticks, new_scheduler,
}
use omp_bundler.Scheduler.Due.{Due, compute_due_fires-Due}

-- The first instant that is not covered by the last run.
abbrev uncovered : Option ℕ → ℕ
uncovered none = 0
uncovered (some last) = last + 1

abbrev uncovered_of : Scheduler → Text → ℕ
uncovered_of s id = uncovered (get id s.last_runs)

-- Every fire of a job in the log is later than those before it.
abbrev pub Ascends : List (Text × ℕ) → Type 0
Ascends [] = Unit
Ascends ((id, fire) ∷ log) = All (λ f. same f.0 id ≡ true → f.1 < fire) log × Ascends log

record Once (s : Scheduler) : Type 0 where
  ascends : Ascends s.fired
  covered : All (λ f. f.1 < uncovered_of s f.0) s.fired

-- A later last run of one job covers more.
covered-set :
    (id : Text) (fire : ℕ) (s : Scheduler) (log : List (Text × ℕ))
    → uncovered_of s id ≤ fire + 1
    → All (λ f. f.1 < uncovered_of s f.0) log
    → All (λ f. f.1 < uncovered (get f.0 (set id fire s.last_runs))) log
covered-set id fire s [] later h = tt
covered-set id fire s (f ∷ log) later h =
    let seen = get-set id f.0 fire s.last_runs in
    (
      elim (Bool-cases (same id f.0)) [
        | inl hit ↦
            let p : id ≡ f.0 = (same_iff id f.0).0 hit in
            rw (seen, hit) (omega (arith, h.0, later, ap (uncovered_of s) p))
        | inr miss ↦ rw (seen, miss) h.0
      ],
      covered-set id fire s log later h.1,
    )

covered_before :
    (id : Text) (fire : ℕ) (s : Scheduler) (log : List (Text × ℕ))
    → uncovered_of s id ≤ fire
    → All (λ f. f.1 < uncovered_of s f.0) log
    → All (λ f. same f.0 id ≡ true → f.1 < fire) log
covered_before id fire s [] later h = tt
covered_before id fire s (f ∷ log) later h = (
  (λ hit. omega (arith, h.0, later, ap (uncovered_of s) ((same_iff f.0 id).0 hit))),
  covered_before id fire s log later h.1,
)

marked_set :
    (id : Text) (fire : ℕ) (s : Scheduler) → uncovered (get id (set id fire s.last_runs)) ≡ fire + 1
marked_set id fire s = rw (get-set id id fire s.last_runs, same_refl id) refl

fire_one-Once :
    (id : Text) (fire : ℕ) (s : Scheduler)
    → uncovered_of s id ≤ fire
    → Once s
    → Once (fire_one id fire s)
unfolding fire_one
fire_one-Once id fire s later o = record {
  ascends = (covered_before id fire s s.fired later o.covered, o.ascends);
  covered = (
    omega (arith, marked_set id fire s),
    covered-set id fire s s.fired (omega (arith, later)) o.covered,
  );
}

fire_all-Once :
    (now : ℕ) (id : Text) (last : ℕ) (fires : List ℕ) (s : Scheduler)
    → Due now last fires
    → uncovered_of s id ≤ last + 1
    → Once s
    → Once (fire_all id fires s)
unfolding fire_all fire_one
fire_all-Once now id last [] s d m o = o
fire_all-Once now id last (fire ∷ fires) s d m o =
    fire_all-Once now id fire fires (fire_one id fire s) d.2 (omega (arith, marked_set id fire s))
      (fire_one-Once id fire s (omega (arith, m, d.0)) o)

visit-Once : (now : ℕ) (job : CronJob) (s : Scheduler) → Once s → Once (visit now job s).0
unfolding visit
visit-Once now job s o = elim (Option-cases (get job.id s.last_runs)) [
  | inl e ↦
      rw (e, visit)
        (record {
          ascends = o.ascends;
          covered = covered-set job.id now s s.fired (omega (arith, ap uncovered e)) o.covered;
        })
  | inr (last, e) ↦ elim (Result-cases (compute_due_fires job last now)) [
    | inr (x, f) ↦ rw (e, f, visit) o
    | inl (fires, f) ↦
        rw (e, f, visit)
          (fire_all-Once now job.id last fires s (compute_due_fires-Due job last now fires f)
            (omega (arith, ap uncovered e)) o)
  ]
]

visit_all-Once :
    (now : ℕ) (jobs : List CronJob) (earliest : Option ℕ) (s : Scheduler)
    → Once s
    → Once (visit_all now jobs earliest s).0
unfolding visit_all
visit_all-Once now [] earliest s o = o
visit_all-Once now (job ∷ jobs) earliest s o = elim (Result-cases (visit now job s).1) [
  | inr (x, e) ↦ rw (e, visit_all) (visit-Once now job s o)
  | inl (next, e) ↦
      rw (e, visit_all)
        (visit_all-Once now jobs (earlier earliest next) (visit now job s).0
          (visit-Once now job s o))
]

boot-Once : (now : ℕ) (jobs : List CronJob) (s : Scheduler) → Once s → Once (boot now jobs s)
unfolding boot run_at_boot_once
boot-Once now [] s o = o
boot-Once now (job ∷ jobs) s o =
    boot-Once now jobs (run_at_boot_once now job s)
      (go (not job.run_at_boot || any (λ j. same j job.id) s.boot_ran))
  where
    go :
        (test : Bool)
        → Once (
            if test
            then s
            else record s { boot_ran = job.id ∷ s.boot_ran; booted = (job.id, now) ∷ s.booted })
    go true = o
    go false = record { ascends = o.ascends; covered = o.covered }

tick-Once :
    (now : ℕ) (loaded : Option (List CronJob)) (s : Scheduler) → Once s → Once (tick now loaded s).0
unfolding tick
tick-Once now none s o = o
tick-Once now (some []) s o = o
tick-Once now (some (job ∷ jobs)) s o =
    visit_all-Once now (job ∷ jobs) none _ (boot-Once now (job ∷ jobs) s o)

ticks-Once :
    (rest : List (ℕ × Option (List CronJob))) (s : Scheduler) → Once s → Once (ticks rest s)
unfolding ticks
ticks-Once [] s o = o
ticks-Once ((now, loaded) ∷ rest) s o =
    ticks-Once rest (tick now loaded s).0 (tick-Once now loaded s o)

-- Over any ticks of a new scheduler, whatever the clock says and whatever the schedules are changed to,
-- the fires of each job ascend: no boundary is fired twice, and none after a later one.
pub ticks-Ascends :
    (last_runs : List (Text × ℕ)) (rest : List (ℕ × Option (List CronJob)))
    → Ascends (ticks rest (new_scheduler last_runs)).fired
ticks-Ascends last_runs rest =
    (ticks-Once rest (new_scheduler last_runs) (record { ascends = tt; covered = tt })).ascends
