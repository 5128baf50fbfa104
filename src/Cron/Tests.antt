-- ===== src/Cron/Tests.antt =====
-- Runs of the cron parser and of the search, and their theorems at concrete schedules.
use omp_bundler.Prelude.{◌+◌, ◌-◌, ◌*◌, ◌/◌, ◌%◌, ◌≡◌, refl, [], ◌∷◌, Text, codes, same, trim}
use omp_bundler.Prelude.Results.{ok, err}
use omp_bundler.Cron.{
  CronSchedule, field_count, named_macro, out_of_range, value, range, minute_def, part_values,
  parse_cron_expression,
}
use omp_bundler.Cron.Range.{IsProper, parse_cron_expression-IsProper}
use omp_bundler.Cron.Next.{
  Calendar, max_days, start_of, is_past, next_run_after, search, day_matches, first_candidate,
  times, wall_to_epoch, offset_ms, wall_equals,
}
use omp_bundler.Cron.Soundness.{IsRun, next_run_after-IsRun}

-- At nine and ten past nine, on Mondays and on the first of the month.
abbrev morning : CronSchedule
morning = record {
  minute = 0 ∷ 10 ∷ [];
  hour = 9 ∷ [];
  day_of_month = 1 ∷ [];
  month = 1 ∷ 2 ∷ 3 ∷ 4 ∷ 5 ∷ 6 ∷ 7 ∷ 8 ∷ 9 ∷ 10 ∷ 11 ∷ 12 ∷ [];
  day_of_week = 1 ∷ [];
}

abbrev source : Text
source = codes " 10,0 9 1 */1 1-1/3"

source_runs : parse_cron_expression source ≡ ok morning
unfolding parse_cron_expression trim
source_runs = refl

macro_runs : parse_cron_expression (codes "@daily") ≡ err named_macro
unfolding parse_cron_expression trim
macro_runs = refl

short_runs : parse_cron_expression (codes "0 9 * *") ≡ err field_count
unfolding parse_cron_expression trim
short_runs = refl

wrapped_runs : part_values minute_def (range 58 2, 2) ≡ ok (58 ∷ 0 ∷ 2 ∷ [])
unfolding part_values
wrapped_runs = refl

outside_runs : part_values minute_def (value 60, 1) ≡ err out_of_range
unfolding part_values
outside_runs = refl

parse_cron_expression-IsProper_example : IsProper morning
parse_cron_expression-IsProper_example = parse_cron_expression-IsProper source source_runs

-- A stand-in for the calendar: UTC, and months of 31 days.
abbrev plain : Calendar
plain = record {
  wall_of = λ t. record {
    year = t / 60000 / 60 / 24 / 31 / 12;
    month = t / 60000 / 60 / 24 / 31 % 12 + 1;
    day = t / 60000 / 60 / 24 % 31 + 1;
    hour = t / 60000 / 60 % 24;
    minute = t / 60000 % 60;
  };
  zone_name = λ t. codes "GMT";
  utc = λ y m0 d h min. ((((y * 12 + m0) * 31 + (d - 1)) * 24 + h) * 60 + min) * 60000;
  weekday_of = λ y m0 d. ((y * 12 + m0) * 31 + (d - 1)) % 7;
  day_after = λ y m0 d. (y, m0, d + 1);
}

-- A run ten minutes past nine, five minutes after the start.
soon : next_run_after plain morning 1735635900000 ≡ ok 1735636200000
unfolding next_run_after search day_matches first_candidate times wall_to_epoch offset_ms same
    wall_equals
soon = refl

next_run_after-IsRun_example :
    IsRun plain morning 1735635900000 max_days
      (start_of plain 1735635900000)
      (is_past plain (plain.wall_of 1735635900000))
      1735636200000
next_run_after-IsRun_example = next_run_after-IsRun plain morning 1735635900000 1735636200000 soon
