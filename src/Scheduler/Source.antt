-- ===== src/Scheduler/Source.antt =====
-- packages/core/src/cron-scheduler.ts, `parseScheduleFile`: the checks of a schedule file, from the
-- value of its YAML text on. `is_timezone` stands for Intl, and `number_of` for Number on a text.
use omp_bundler.Prelude.{
  ℕ, Bool, true, false, not, Option, none, some, Text, codes, is_empty, ltb, if◌then◌else◌, trim,
}
use omp_bundler.Prelude.Results.{Result, ok, err, require, ◌>>=◌}
use omp_bundler.Cron.{CronError, CronSchedule, parse_cron_expression}
use omp_bundler.Cron.Next.{Calendar}
use omp_bundler.Scheduler.{Missed, CronJob}

-- The value of a field.
pub data Field : Type 0 where
  absent : Field
  text : Text → Field
  -- A whole number that is not negative, or another one.
  whole : ℕ → Field
  other_number : Field
  flag : Bool → Field
  other : Field

-- A mapping's fields that the scheduler reads.
pub record ScheduleFile : Type 0 where
  pub schedule : Field
  pub timezone : Field
  pub missed : Option Missed
  pub prompt : Field
  pub command : Field
  pub timeout : Field
  pub run_at_boot : Field

pub data ScheduleError : Type 0 where
  not_a_string invalid_missed not_one_mode timeout_without_command : ScheduleError
  invalid_timeout invalid_run_at_boot invalid_timezone : ScheduleError
  invalid_expression : CronError → ScheduleError

unfoldable pub optional_string : Field → Result ScheduleError (Option Text)
optional_string absent = ok none
optional_string (text t) = require (not (is_empty (trim t))) not_a_string (ok (some t))
optional_string field = err not_a_string

unfoldable pub required_string : Field → Result ScheduleError Text
required_string (text t) = require (not (is_empty (trim t))) not_a_string (ok t)
required_string field = err not_a_string

abbrev pub positive : Option ℕ → Result ScheduleError ℕ
positive none = err invalid_timeout
positive (some n) = require (ltb 0 n) invalid_timeout (ok n)

abbrev pub or_utc : Option Text → Text
or_utc none = codes "UTC"
or_utc (some zone) = zone

abbrev pub required_missed : Option Missed → Result ScheduleError Missed
required_missed none = err invalid_missed
required_missed (some policy) = ok policy

-- Exactly one of the two is there.
abbrev pub is_one_mode : Option Text → Option Text → Bool
is_one_mode none none = false
is_one_mode (some p) (some c) = false
is_one_mode prompt command = true

abbrev pub run_at_boot_of : Field → Result ScheduleError Bool
run_at_boot_of absent = ok false
run_at_boot_of (flag b) = ok b
run_at_boot_of field = err invalid_run_at_boot

abbrev pub expression_of : Result CronError CronSchedule → Result ScheduleError CronSchedule
expression_of (ok s) = ok s
expression_of (err e) = err (invalid_expression e)

abbrev pub default_command_timeout_seconds : ℕ
default_command_timeout_seconds = 600

module _ (number_of : Text → Option ℕ) (is_timezone : Text → Bool)
    (calendar_of : Text → Calendar) where
  unfoldable pub parse_command_timeout : Field → Result ScheduleError ℕ
  parse_command_timeout (whole n) = positive (some n)
  parse_command_timeout (text t) =
      if is_empty (trim t) then err invalid_timeout else positive (number_of t)
  parse_command_timeout field = err invalid_timeout

  unfoldable pub timeout_of : Field → Option Text → Result ScheduleError (Option ℕ)
  timeout_of absent none = ok none
  timeout_of absent (some command) = ok (some default_command_timeout_seconds)
  timeout_of field none = err timeout_without_command
  timeout_of field (some command) = parse_command_timeout field >>= λ n. ok (some n)

  unfoldable pub parse_schedule_file : Text → ScheduleFile → Result ScheduleError CronJob
  parse_schedule_file id f = required_string f.schedule >>= λ schedule.
      (optional_string f.timezone >>= λ zone.
      (required_missed f.missed >>= λ missed.
      (optional_string f.prompt >>= λ prompt.
      (optional_string f.command >>= λ command. require (is_one_mode prompt command) not_one_mode (
        timeout_of f.timeout command >>= λ timeout.
        (run_at_boot_of f.run_at_boot >>= λ run_at_boot.
        require (is_timezone (or_utc zone)) invalid_timezone (
          expression_of (parse_cron_expression schedule) >>= λ parsed. ok (record {
            id = id;
            schedule = schedule;
            missed = missed;
            prompt = prompt;
            command = command;
            timeout = timeout;
            run_at_boot = run_at_boot;
            parsed = parsed;
            calendar = calendar_of (or_utc zone);
          }))))))))
