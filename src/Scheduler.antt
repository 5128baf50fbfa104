-- ===== src/Scheduler.antt =====
-- packages/core/src/cron-scheduler.ts: the fires of the cron jobs, and the tick loop. A run of a job is
-- the child's or the shell's; what the scheduler keeps of it is the same whether it succeeds or fails.
-- The files under the data directory are maps by job id.
pub mod Due
pub mod Fires
pub mod Source
pub mod Command
mod Tests
use omp_bundler.Prelude.{
  ℕ, zero, suc, ◌+◌, ◌-◌, List, [], ◌∷◌, ◌++◌, Bool, true, false, not, ◌&&◌, ◌||◌, Option, none,
  some, Text, codes, same, any, is_empty, ltb, leb, ◌==◌, if◌then◌else◌,
}
use omp_bundler.Prelude.Results.{Result, ok, err, require, ◌>>=◌}
use omp_bundler.Prelude.Maps.{get, set}
use omp_bundler.Cron.{CronSchedule, CronError, parse_cron_expression}
use omp_bundler.Cron.Next.{Calendar, next_run_after}

pub data Missed : Type 0 where
  skip catch_up : Missed

pub record CronJob : Type 0 where
  pub id : Text
  pub schedule : Text
  pub missed : Missed
  pub prompt : Option Text
  pub command : Option Text
  pub timeout : Option ℕ
  pub run_at_boot : Bool
  pub parsed : CronSchedule
  -- What `Intl` and `Date` say of the job's time zone.
  pub calendar : Calendar

abbrev pub next_fire : CronJob → ℕ → Result CronError ℕ
next_fire job after = next_run_after job.calendar job.parsed after

-- The loop of `computeDueFires` for `skip`; the fuel is the number of rounds that are left.
unfoldable pub latest_due : CronJob → ℕ → ℕ → ℕ → Option ℕ → Result CronError (Option ℕ)
latest_due job now zero cursor latest = ok latest
latest_due job now (suc rounds) cursor latest = next_fire job cursor >>= λ fire.
    (let rest = latest_due job now rounds fire (some fire) in
      if ltb now fire then ok latest else rest)

abbrev pub list_of : Option ℕ → List ℕ
list_of none = []
list_of (some fire) = fire ∷ []

abbrev pub catch_up_cap : ℕ
catch_up_cap = 5

-- And for `catchUp`.
unfoldable pub missed_fires : CronJob → ℕ → ℕ → ℕ → Result CronError (List ℕ)
missed_fires job now zero cursor = ok []
missed_fires job now (suc rounds) cursor = next_fire job cursor >>= λ fire.
    (let rest = missed_fires job now rounds fire >>= λ fires. ok (fire ∷ fires) in
      if ltb now fire then ok [] else rest)

unfoldable pub due_of : Missed → CronJob → ℕ → ℕ → Result CronError (List ℕ)
due_of skip job last now =
    latest_due job now (now - last + 1) last none >>= λ fire. ok (list_of fire)
due_of catch_up job last now = missed_fires job now catch_up_cap last

abbrev pub compute_due_fires : CronJob → ℕ → ℕ → Result CronError (List ℕ)
compute_due_fires job last now = due_of job.missed job last now

pub record Scheduler : Type 0 where
  -- The jobs whose boot run was made.
  pub boot_ran : List Text
  -- The `fireEpoch` of each job's last-run.json.
  pub last_runs : List (Text × ℕ)
  -- The runs that were made on the schedule and at boot, the latest first.
  pub fired : List (Text × ℕ)
  pub booted : List (Text × ℕ)

unfoldable pub run_at_boot_once : ℕ → CronJob → Scheduler → Scheduler
run_at_boot_once now job s =
    if not job.run_at_boot || any (λ j. same j job.id) s.boot_ran
    then s
    else record s { boot_ran = job.id ∷ s.boot_ran; booted = (job.id, now) ∷ s.booted }

unfoldable pub boot : ℕ → List CronJob → Scheduler → Scheduler
boot now [] s = s
boot now (job ∷ jobs) s = boot now jobs (run_at_boot_once now job s)

unfoldable pub fire_one : Text → ℕ → Scheduler → Scheduler
fire_one id fire s = record s { last_runs = set id fire s.last_runs; fired = (id, fire) ∷ s.fired }

unfoldable pub fire_all : Text → List ℕ → Scheduler → Scheduler
fire_all id [] s = s
fire_all id (fire ∷ fires) s = fire_all id fires (fire_one id fire s)

-- The body of the loop over the jobs, with what ended it.
unfoldable pub visit : ℕ → CronJob → Scheduler → Scheduler × Result CronError ℕ
visit now job s = elim (get job.id s.last_runs) [
  | none ↦ (record s { last_runs = set job.id now s.last_runs }, next_fire job now)
  | some last ↦ elim (compute_due_fires job last now) [
    | err e ↦ (s, err e)
    | ok fires ↦ (fire_all job.id fires s, next_fire job now)
  ]
]

abbrev pub earlier : Option ℕ → ℕ → Option ℕ
earlier none t = some t
earlier (some u) t = if ltb t u then some t else some u

-- The earliest next fire of the jobs, unless one of them throws: then the tick is over.
unfoldable pub visit_all :
    ℕ → List CronJob → Option ℕ → Scheduler → Scheduler × Result CronError (Option ℕ)
visit_all now [] earliest s = (s, ok earliest)
visit_all now (job ∷ jobs) earliest s =
    let (t, outcome) = visit now job s in
    elim outcome [ err e ↦ (t, err e) | ok next ↦ visit_all now jobs (earlier earliest next) t ]

abbrev pub max_wake_ms : ℕ
max_wake_ms = 60000

-- The delay of the next tick.
abbrev pub delay : ℕ → Result CronError (Option ℕ) → ℕ
delay now (err e) = max_wake_ms
delay now (ok none) = max_wake_ms
delay now (ok (some next)) = if ltb (next - now) max_wake_ms then next - now else max_wake_ms

-- With the schedules that were loaded, or none if one of them does not parse.
unfoldable pub tick : ℕ → Option (List CronJob) → Scheduler → Scheduler × ℕ
tick now none s = (s, 0)
tick now (some []) s = (s, max_wake_ms)
tick now (some (job ∷ jobs)) s =
    let (t, outcome) = visit_all now (job ∷ jobs) none (boot now (job ∷ jobs) s) in
    (t, delay now outcome)

unfoldable pub ticks : List (ℕ × Option (List CronJob)) → Scheduler → Scheduler
unfolding tick
ticks [] s = s
ticks ((now, loaded) ∷ rest) s = ticks rest (tick now loaded s).0

abbrev pub new_scheduler : List (Text × ℕ) → Scheduler
new_scheduler last_runs = record { boot_ran = []; last_runs = last_runs; fired = []; booted = [] }
