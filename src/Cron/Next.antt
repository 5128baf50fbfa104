-- ===== src/Cron/Next.antt =====
-- packages/core/src/cron-expression.ts: the next run after an instant. Instants are milliseconds
-- since 1970, and none before it is meant: an offset that would lead there stops at 0. What `Intl` and
-- `Date` compute is a parameter, of one time zone that they accept.
use omp_bundler.Prelude.{
  ℕ, zero, suc, ◌+◌, ◌-◌, ◌*◌, ◌%◌, List, [], ◌∷◌, ◌++◌, Bool, true, false, ◌&&◌, ◌||◌, Option,
  none, some, Text, codes, same, any, length, ltb, leb, ◌==◌, if◌then◌else◌, map,
}
use omp_bundler.Prelude.Results.{Result, ok, err, require, ◌>>=◌}
use omp_bundler.Cron.{CronSchedule, CronError, invalid_offset, never_matches, is_digit}

-- A calendar date with its month from 0 and its weekday from Sunday.
pub record Date : Type 0 where
  pub year : ℕ
  pub month0 : ℕ
  pub day : ℕ
  pub weekday : ℕ

-- What the formatter of the time zone says of an instant.
pub record WallClock : Type 0 where
  pub year : ℕ
  pub month : ℕ
  pub day : ℕ
  pub hour : ℕ
  pub minute : ℕ

-- The offset of a time zone: ahead of UTC or behind it, in milliseconds.
pub data Offset : Type 0 where
  ahead behind : ℕ → Offset

-- What is used of `Intl.DateTimeFormat` and `Date`, for one time zone.
pub record Calendar : Type 0 where
  pub wall_of : ℕ → WallClock
  -- The name of the offset at an instant, "GMT" if the formatter gives none.
  pub zone_name : ℕ → Text
  -- `Date.UTC` of year, month from 0, day, hour and minute.
  pub utc : ℕ → ℕ → ℕ → ℕ → ℕ → ℕ
  pub weekday_of : ℕ → ℕ → ℕ → ℕ
  -- Year, month from 0 and day of the day after.
  pub day_after : ℕ → ℕ → ℕ → ℕ × ℕ × ℕ

-- `(\d{1,2})(?::(\d{2}))?$`, in minutes.
offset_minutes : Text → Result CronError ℕ
offset_minutes (a ∷ []) = require (is_digit a) invalid_offset (ok ((a - 48) * 60))
offset_minutes (a ∷ b ∷ []) =
    require (is_digit a && is_digit b) invalid_offset (ok (((a - 48) * 10 + (b - 48)) * 60))
offset_minutes (a ∷ c ∷ m ∷ n ∷ []) =
    require (is_digit a && (c == b':' && (is_digit m && is_digit n))) invalid_offset
      (ok ((a - 48) * 60 + ((m - 48) * 10 + (n - 48))))
offset_minutes (a ∷ b ∷ c ∷ m ∷ n ∷ []) =
    require (is_digit a && (is_digit b && (c == b':' && (is_digit m && is_digit n)))) invalid_offset
      (ok (((a - 48) * 10 + (b - 48)) * 60 + ((m - 48) * 10 + (n - 48))))
offset_minutes _ = err invalid_offset

named_offset : Text → Result CronError Offset
unfolding offset_minutes
named_offset (g ∷ m ∷ t ∷ sign ∷ rest) =
    require (same (g ∷ m ∷ t ∷ []) (codes "GMT") && (sign == b'+' || sign == b'-')) invalid_offset (
      offset_minutes rest >>= λ n.
      ok (if sign == b'-' then behind (n * 60000) else ahead (n * 60000)))
named_offset _ = err invalid_offset

unfoldable pub offset_ms : Text → Result CronError Offset
unfolding named_offset
offset_ms name =
    if same name (codes "GMT") || same name (codes "UTC") then ok (ahead 0) else named_offset name

-- `guess - offset`
abbrev pub less_offset : ℕ → Offset → ℕ
less_offset guess (ahead n) = guess - n
less_offset guess (behind n) = guess + n

unfoldable pub wall_equals : WallClock → Date → ℕ → ℕ → Bool
wall_equals w date h min =
    w.year == date.year
    && (w.month - 1 == date.month0 && (w.day == date.day && (w.hour == h && w.minute == min)))

-- Whether the schedule asks for a run on the date.
unfoldable pub day_matches : CronSchedule → Date → Bool
day_matches s date =
    let dom_all = length s.day_of_month == 31 in
    let dow_all = length s.day_of_week == 7 in
    let on_day = any (λ v. v == date.day) s.day_of_month in
    let on_weekday = any (λ v. v == date.weekday) s.day_of_week in
    (if dom_all
      then (if dow_all then true else on_weekday)
      else (if dow_all then on_day else on_day || on_weekday))
    && any (λ v. v == date.month0 + 1) s.month

-- The rounds of the loops over the hours and their minutes.
unfoldable pub times : List ℕ → List ℕ → List (ℕ × ℕ)
times [] minutes = []
times (h ∷ hours) minutes = map (λ m. (h, m)) minutes ++ times hours minutes

abbrev pub max_days : ℕ
max_days = 366

-- The rest of a round: the instant that was found ends the search if it is late enough.
abbrev pub accepted : ℕ → Result CronError (Option ℕ) → Option ℕ → Result CronError (Option ℕ)
accepted after more none = more
accepted after more (some cand) = if ltb after cand then ok (some cand) else more

abbrev pub ended : Result CronError ℕ → Option ℕ → Result CronError ℕ
ended rest none = rest
ended rest (some cand) = ok cand

module _ (c : Calendar) where
  unfoldable pub wall_to_epoch : Date → ℕ → ℕ → Result CronError (Option ℕ)
  wall_to_epoch date h min =
      let guess = c.utc date.year date.month0 date.day h min in
      offset_ms (c.zone_name guess) >>= λ o.
      let cand = less_offset guess o in
      if wall_equals (c.wall_of cand) date h min
      then ok (some cand)
      else (offset_ms (c.zone_name cand) >>= λ o'.
          let cand' = less_offset guess o' in
          ok (if wall_equals (c.wall_of cand') date h min then some cand' else none))

  -- The loop of one day; `skips` tells the rounds that are passed over.
  unfoldable pub first_candidate :
      Date → (ℕ → ℕ → Bool) → ℕ → List (ℕ × ℕ) → Result CronError (Option ℕ)
  first_candidate date skips after [] = ok none
  first_candidate date skips after ((h, m) ∷ rest) =
      let more = first_candidate date skips after rest in
      if skips h m then more else wall_to_epoch date h m >>= accepted after more

  abbrev pub advance : Date → Date
  advance date =
      let (y, m0, d) = c.day_after date.year date.month0 date.day in
      record { year = y; month0 = m0; day = d; weekday = (date.weekday + 1) % 7 }

  -- The loop over the days; the fuel is the number of rounds that are left.
  unfoldable pub search : CronSchedule → ℕ → ℕ → Date → (ℕ → ℕ → Bool) → Result CronError ℕ
  search s after zero date skips = err never_matches
  search s after (suc rounds) date skips =
      let rest = search s after rounds (advance date) (λ h m. false) in
      if day_matches s date
      then first_candidate date skips after (times s.hour s.minute) >>= ended rest
      else rest

  abbrev pub start_of : ℕ → Date
  start_of after =
      let w = c.wall_of after in
      record {
        year = w.year;
        month0 = w.month - 1;
        day = w.day;
        weekday = c.weekday_of w.year (w.month - 1) w.day;
      }

  -- The times of the first day that are not after the wall clock of the start.
  abbrev pub is_past : WallClock → ℕ → ℕ → Bool
  is_past w h m = ltb h w.hour || h == w.hour && leb m w.minute

  unfoldable pub next_run_after : CronSchedule → ℕ → Result CronError ℕ
  next_run_after s after = search s after max_days (start_of after) (is_past (c.wall_of after))
