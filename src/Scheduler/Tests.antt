-- ===== src/Scheduler/Tests.antt =====
-- Runs of the scheduler, and its theorems at concrete times.
use omp_bundler.Prelude.{
  ℕ, ◌+◌, ◌/◌, ◌%◌, ◌*◌, ◌-◌, ◌≡◌, ◌<◌, refl, List, [], ◌∷◌, ◌++◌, true, false, Option, none, some,
  same, codes,
}
use omp_bundler.Prelude.Results.{ok, err}
use omp_bundler.Prelude.Maps.{get, set}
use omp_bundler.Cron.{CronSchedule}
use omp_bundler.Cron.Next.{
  Calendar, next_run_after, search, day_matches, first_candidate, times, wall_to_epoch, offset_ms,
  wall_equals,
}
use omp_bundler.Scheduler.{
  catch_up, CronJob, skip, next_fire, compute_due_fires, due_of, latest_due, run_at_boot_once, boot,
  fire_one, fire_all, visit, visit_all, tick, ticks, new_scheduler,
}
use omp_bundler.Scheduler.Source.{
  ScheduleFile, absent, text, whole, flag, timeout_without_command, timeout_of,
}
use omp_bundler.Scheduler.Command.{
  CommandRun, outputs, exits, times_out, grace_ends, is_settled, handle_all, handle_all_settles,
}
use omp_bundler.Scheduler.Due.{Due, compute_due_fires-Due, due_of-skip}
use omp_bundler.Scheduler.Fires.{Ascends, ticks-Ascends}

-- A calendar of months of 31 days, in UTC.
abbrev plain : Calendar
plain = record {
  wall_of = λ t. record {
    year = t / 60000 / 60 / 24 / 31 / 12;
    month = t / 60000 / 60 / 24 / 31 % 12 + 1;
    day = t / 60000 / 60 / 24 % 31 + 1;
    hour = t / 60000 / 60 % 24;
    minute = t / 60000 % 60;
  };
  zone_name = λ t. codes "GMT";
  utc = λ y m0 d h min. ((((y * 12 + m0) * 31 + (d - 1)) * 24 + h) * 60 + min) * 60000;
  weekday_of = λ y m0 d. ((y * 12 + m0) * 31 + (d - 1)) % 7;
  day_after = λ y m0 d. (y, m0, d + 1);
}

-- At nine and ten past nine, on Mondays and on the first of the month.
abbrev morning : CronSchedule
morning = record {
  minute = 0 ∷ 10 ∷ [];
  hour = 9 ∷ [];
  day_of_month = 1 ∷ [];
  month = 1 ∷ 2 ∷ 3 ∷ 4 ∷ 5 ∷ 6 ∷ 7 ∷ 8 ∷ 9 ∷ 10 ∷ 11 ∷ 12 ∷ [];
  day_of_week = 1 ∷ [];
}

abbrev job : CronJob
job = record {
  id = codes "daily";
  schedule = codes "0,10 9 1 * 1";
  missed = skip;
  prompt = some (codes "Report.");
  command = none;
  timeout = none;
  run_at_boot = true;
  parsed = morning;
  calendar = plain;
}

due_runs : compute_due_fires job 1735635599999 1735635600001 ≡ ok (1735635600000 ∷ [])
unfolding due_of latest_due next_run_after search day_matches first_candidate times wall_to_epoch
    offset_ms same wall_equals
due_runs = refl

compute_due_fires-Due_example : Due 1735635600001 1735635599999 (1735635600000 ∷ [])
compute_due_fires-Due_example =
    compute_due_fires-Due job 1735635599999 1735635600001 (1735635600000 ∷ []) due_runs

due_of-skip_example : (next : ℕ) × (next_fire job 1735635600000 ≡ ok next) × (1735635600001 < next)
due_of-skip_example = due_of-skip job 1735635599999 1735635600001 1735635600000 due_runs

-- The first tick anchors the job, the second fires it, the third finds nothing due.
abbrev nine_oclock : List (ℕ × Option (List CronJob))
nine_oclock =
    (1735635599999, some (job ∷ []))
    ∷ (1735635600001, some (job ∷ []))
    ∷ (1735635600002, some (job ∷ []))
    ∷ []

nine_oclock_runs :
    (ticks nine_oclock (new_scheduler [])).fired ≡ (codes "daily", 1735635600000) ∷ []
unfolding ticks tick visit_all visit boot run_at_boot_once fire_all fire_one get set due_of
    latest_due next_run_after search day_matches first_candidate times wall_to_epoch offset_ms same
    wall_equals
nine_oclock_runs = refl

ticks-Ascends_example : Ascends (ticks nine_oclock (new_scheduler [])).fired
ticks-Ascends_example = ticks-Ascends [] nine_oclock

-- A command that ignores the first signal, and ends after the second.
abbrev stubborn : CommandRun
stubborn = record { text = []; timed_out = false; result = none; signals = [] }

handle_all_settles_example :
    is_settled
      (handle_all 600
        ((outputs (codes "...") ∷ []) ++ times_out ∷ ([] ++ grace_ends ∷ exits (some 0) ∷ []))
        stubborn).result
    ≡ true
handle_all_settles_example =
    handle_all_settles 600 (outputs (codes "...") ∷ []) [] (exits (some 0) ∷ []) stubborn

-- A schedule file without a time zone.
abbrev file : ScheduleFile
file = record {
  schedule = text (codes "0 9 * * 1");
  timezone = absent;
  missed = some catch_up;
  prompt = absent;
  command = text (codes "true");
  timeout = absent;
  run_at_boot = flag true;
}

file_runs :
    timeout_of (λ t. none) (λ z. true) (λ z. plain) file.timeout (some (codes "true"))
    ≡ ok (some 600)
unfolding timeout_of
file_runs = refl

-- A prompt has no timeout.
prompt_runs :
    timeout_of (λ t. none) (λ z. true) (λ z. plain) (whole 5) none ≡ err timeout_without_command
unfolding timeout_of
prompt_runs = refl
