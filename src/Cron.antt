-- ===== src/Cron.antt =====
-- packages/core/src/cron-expression.ts: five-field cron expressions and the search for the next run.
-- A number of the text is read without the rounding of a double, which starts beyond every range.
pub mod Ascending
pub mod Range
pub mod Next
pub mod Soundness
pub mod Part
mod Tests
use omp_bundler.Prelude.{
  ℕ, zero, suc, ◌+◌, ◌-◌, ◌*◌, List, [], ◌∷◌, ◌++◌, Bool, true, false, ◌&&◌, ◌||◌, not, Option,
  none, some, Text, is_space, trim, is_empty, length, leb, ltb, ◌==◌, if◌then◌else◌,
}
use omp_bundler.Prelude.Results.{Result, ok, err, require, ◌>>=◌}
use omp_bundler.Prelude.Rows.{delete}

pub record CronSchedule : Type 0 where
  pub minute : List ℕ
  pub hour : List ℕ
  pub day_of_month : List ℕ
  pub month : List ℕ
  pub day_of_week : List ℕ

pub record FieldDef : Type 0 where
  pub min : ℕ
  pub max : ℕ

abbrev pub minute_def : FieldDef
minute_def = record { min = 0; max = 59 }

abbrev pub hour_def : FieldDef
hour_def = record { min = 0; max = 23 }

abbrev pub day_of_month_def : FieldDef
day_of_month_def = record { min = 1; max = 31 }

abbrev pub month_def : FieldDef
month_def = record { min = 1; max = 12 }

abbrev pub day_of_week_def : FieldDef
day_of_week_def = record { min = 0; max = 7 }

pub data CronError : Type 0 where
  empty_element invalid_part invalid_step out_of_range named_macro field_count : CronError
  invalid_offset never_matches : CronError

-- A part of a field: `*`, `A` or `A-B`, and its step.
pub data Span : Type 0 where
  star : Span
  value : ℕ → Span
  range : ℕ → ℕ → Span

abbrev pub is_digit : ℕ → Bool
is_digit c = leb 48 c && leb c 57

-- `\d+` and what follows it; `acc` is the value of the digits before.
digits_from : ℕ → Text → ℕ × Text
digits_from acc [] = (acc, [])
digits_from acc (c ∷ s) =
    let rest = digits_from (acc * 10 + (c - 48)) s in if is_digit c then rest else (acc, c ∷ s)

unfoldable pub number : Text → Result CronError (ℕ × Text)
unfolding digits_from
number [] = err invalid_part
number (c ∷ s) = require (is_digit c) invalid_part (ok (digits_from 0 (c ∷ s)))

-- `(?:\/(\d+))?$`, with the default of the step.
step_of : Text → Result CronError ℕ
unfolding number
step_of [] = ok 1
step_of (c ∷ s) =
    require (c == b'/') invalid_part
      (number s >>= λ found. require (is_empty found.1) invalid_part (ok found.0))

-- `(?:-(\d+))?`
span_from : ℕ → Text → Result CronError (Span × Text)
unfolding number
span_from a [] = ok (value a, [])
span_from a (c ∷ s) =
    if c == b'-' then (number s >>= λ found. ok (range a found.0, found.1)) else ok (value a, c ∷ s)

span_of : Text → Result CronError (Span × Text)
unfolding number span_from
span_of [] = err invalid_part
span_of (c ∷ s) =
    if c == b'*' then ok (star, s) else (number (c ∷ s) >>= λ found. span_from found.0 found.1)

-- `PART_RE.exec`
unfoldable pub part_of : Text → Result CronError (Span × ℕ)
unfolding span_of step_of
part_of s = span_of s >>= λ found. (step_of found.1 >>= λ step. ok (found.0, step))

abbrev pub first_of : FieldDef → Span → ℕ
first_of def star = def.min
first_of def (value a) = a
first_of def (range a b) = a

abbrev pub last_of : FieldDef → Span → ℕ
last_of def star = def.max
last_of def (value a) = a
last_of def (range a b) = b

-- `for (let v = start; v <= end; v += step)`; the fuel bounds the number of rounds.
unfoldable pub count_up : ℕ → ℕ → ℕ → ℕ → List ℕ
count_up zero v end step = []
count_up (suc fuel) v end step =
    let rest = count_up fuel (v + step) end step in if leb v end then v ∷ rest else []

unfoldable pub up_to : ℕ → ℕ → ℕ → List ℕ
unfolding count_up
up_to start end step = count_up (suc end - start) start end step

-- `for (let i = 0; i < seq.length; i += step)`; `skip` values are passed over first.
unfoldable pub stride : ℕ → ℕ → List ℕ → List ℕ
stride step skip [] = []
stride step zero (v ∷ seq) = v ∷ stride step (step - 1) seq
stride step (suc skip) (v ∷ seq) = stride step skip seq

unfoldable pub span_values : FieldDef → ℕ → ℕ → ℕ → List ℕ
unfolding up_to stride
span_values def start end step =
    if leb start end
    then up_to start end step
    else stride step 0 (up_to start def.max 1 ++ up_to def.min end 1)

unfoldable pub part_values : FieldDef → Span × ℕ → Result CronError (List ℕ)
unfolding span_values
part_values def (span, step) =
    let start = first_of def span in
    let end = last_of def span in
    require (leb 1 step) invalid_step (
      require (leb def.min start && leb def.min end && leb start def.max && leb end def.max)
        out_of_range (ok (span_values def start end step)))

-- `raw.split(",")`, which always has a first piece.
pub split_commas : Text → Text × List Text
split_commas [] = ([], [])
split_commas (c ∷ s) =
    let (piece, rest) = split_commas s in
    if c == b',' then ([], piece ∷ rest) else (c ∷ piece, rest)

unfoldable pub parts_values : FieldDef → List Text → Result CronError (List ℕ)
unfolding part_of part_values
parts_values def [] = ok []
parts_values def (part ∷ parts) =
    let more = parts_values def parts in
    require (not (is_empty (trim part))) empty_element (
      part_of (trim part) >>= λ found.
      part_values def found >>= λ vs. more >>= λ rest. ok (vs ++ rest))

-- `[...new Set(values)]`
unfoldable pub distinct : List ℕ → List ℕ
distinct [] = []
distinct (v ∷ vs) = v ∷ delete (λ w. w == v) (distinct vs)

abbrev pub sunday : ℕ → ℕ
sunday v = if v == 7 then 0 else v

unfoldable pub normalized : FieldDef → List ℕ → List ℕ
normalized def [] = []
normalized def (v ∷ vs) = (if def.max == 7 then sunday v else v) ∷ normalized def vs

unfoldable pub place : ℕ → List ℕ → List ℕ
place v [] = v ∷ []
place v (w ∷ ws) = let rest = place v ws in if leb v w then v ∷ w ∷ ws else w ∷ rest

-- `sort((a, b) => a - b)`
unfoldable pub sorted : List ℕ → List ℕ
unfolding place
sorted [] = []
sorted (v ∷ vs) = place v (sorted vs)

unfoldable pub parse_field : Text → FieldDef → Result CronError (List ℕ)
unfolding split_commas parts_values distinct normalized sorted
parse_field raw def =
    let (piece, rest) = split_commas raw in
    parts_values def (piece ∷ rest) >>= λ values.
    ok (sorted (distinct (normalized def (distinct values))))

abbrev starts_space : Text → Bool
starts_space [] = false
starts_space (c ∷ s) = is_space c

-- `split(/\s+/)`, which always has a first piece.
pub split_spaces : Text → Text × List Text
unfolding is_space
split_spaces [] = ([], [])
split_spaces (c ∷ s) =
    let (piece, rest) = split_spaces s in
    if is_space c
    then (if starts_space s then (piece, rest) else ([], piece ∷ rest))
    else (c ∷ piece, rest)

unfoldable pub parse_fields : List Text → Result CronError CronSchedule
unfolding parse_field
parse_fields (a ∷ b ∷ c ∷ d ∷ e ∷ []) = parse_field a minute_def >>= λ minute.
    parse_field b hour_def >>= λ hour. parse_field c day_of_month_def >>= λ day_of_month.
    parse_field d month_def >>= λ month. parse_field e day_of_week_def >>= λ day_of_week.
    ok (record {
      minute = minute;
      hour = hour;
      day_of_month = day_of_month;
      month = month;
      day_of_week = day_of_week;
    })
parse_fields _ = err field_count

pub is_macro : Text → Bool
is_macro [] = false
is_macro (c ∷ s) = c == b'@'

unfoldable pub parse_cron_expression : Text → Result CronError CronSchedule
unfolding is_macro split_spaces parse_fields
parse_cron_expression expr =
    let (piece, rest) = split_spaces (trim expr) in
    require (not (is_macro (trim expr))) named_macro (parse_fields (piece ∷ rest))
