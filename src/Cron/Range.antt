-- ===== src/Cron/Range.antt =====
-- What a parsed cron expression holds: values within the range of their field, in order.
use mathlib.Core.Path.{subst}
use omp_bundler.Prelude.{
  ℕ, zero, suc, ◌+◌, ◌-◌, ◌≤◌, ◌≡◌, refl, inl, inr, List, [], ◌∷◌, not, is_empty, trim, leb, ◌==◌,
  ◌&&◌, if◌then◌else◌, Text, All, All-append, arith, Bool-cases,
}
use omp_bundler.Prelude.Results.{Result, ok, err, ◌>>=◌, Result-cases, bind_ok}
use omp_bundler.Cron.{
  CronSchedule, FieldDef, CronError, Span, first_of, last_of, count_up, up_to, stride, span_values,
  part_values, part_of, parts_values, distinct, normalized, sorted, parse_field, split_commas,
  split_spaces, is_macro, parse_fields, parse_cron_expression, named_macro, minute_def, hour_def,
  day_of_month_def, month_def, day_of_week_def,
}
use omp_bundler.Cron.Ascending.{Ascending, distinct-All, sorted-All, sorted-distinct-Ascending}

abbrev pub Within : ℕ → ℕ → ℕ → Type 0
Within lo hi v = (lo ≤ v) × (v ≤ hi)

count_up-Within :
    (fuel v end step lo hi : ℕ) → lo ≤ v → end ≤ hi → All (Within lo hi) (count_up fuel v end step)
unfolding count_up
count_up-Within zero v end step lo hi l h = tt
count_up-Within (suc fuel) v end step lo hi l h = elim (Bool-cases (leb v end)) [
  | inl le ↦
      rw le ((l, ground arith), count_up-Within fuel (v + step) end step lo hi (omega arith) h)
  | inr gt ↦ rw gt tt
]

stride-All : (P : ℕ → Type 0) (step skip : ℕ) (vs : List ℕ) → All P vs → All P (stride step skip vs)
unfolding stride
stride-All P step skip [] h = tt
stride-All P step zero (v ∷ vs) h = (h.0, stride-All P step (step - 1) vs h.1)
stride-All P step (suc skip) (v ∷ vs) h = stride-All P step skip vs h.1

span_values-Within :
    (def : FieldDef) (start end step : ℕ)
    → Within def.min def.max start
    → Within def.min def.max end
    → All (Within def.min def.max) (span_values def start end step)
unfolding span_values up_to
span_values-Within def start end step s e = elim (Bool-cases (leb start end)) [
  | inl le ↦ rw le (count_up-Within _ start end step def.min def.max s.0 e.1)
  | inr gt ↦ rw gt (
      stride-All _ step 0 _ (
        All-append _ _ _
          (count_up-Within (suc def.max - start) start def.max 1 def.min def.max s.0 (omega arith))
          (count_up-Within (suc end - def.min) def.min end 1 def.min def.max (omega arith) e.1)))
]

-- The values that a call returned, if it did.
abbrev Holds : (List ℕ → Type 0) → Result CronError (List ℕ) → Type 0
Holds P (ok vs) = P vs
Holds P (err e) = Unit

part_values-Within :
    (def : FieldDef) (found : Span × ℕ)
    → Holds (All (Within def.min def.max)) (part_values def found)
unfolding part_values
part_values-Within def (span, step) =
    let start = first_of def span in
    let end = last_of def span in
    elim (Bool-cases (leb 1 step)) [
      | inr zero_step ↦ rw zero_step tt
      | inl positive ↦
          elim (Bool-cases
            (leb def.min start && leb def.min end && leb start def.max && leb end def.max)) [
              | inr outside ↦ rw (positive, outside) tt
              | inl inside ↦
                  rw (positive, inside)
                    (span_values-Within def start end step (ground arith) (ground arith))
            ]
    ]

parts_values-Within :
    (def : FieldDef) (parts : List Text)
    → Holds (All (Within def.min def.max)) (parts_values def parts)
unfolding parts_values
parts_values-Within def [] = tt
parts_values-Within def (part ∷ parts) =
    let more = parts_values-Within def parts in
    elim (Bool-cases (not (is_empty (trim part)))) [
      | inr blank ↦ rw blank tt
      | inl full ↦ elim (Result-cases (part_of (trim part))) [
        | inr (x, e) ↦ rw (full, e) tt
        | inl (found, e) ↦ elim (Result-cases (part_values def found)) [
          | inr (x, e') ↦ rw (full, e, e') tt
          | inl (vs, e') ↦
              let here : All (Within def.min def.max) vs =
                subst (Holds (All (Within def.min def.max))) e' (part_values-Within def found) in
              elim (Result-cases (parts_values def parts)) [
                | inr (x, e'') ↦ rw (full, e, e', e'') tt
                | inl (rest, e'') ↦
                    let there : All (Within def.min def.max) rest =
                      subst (Holds (All (Within def.min def.max))) e'' more in
                    rw (full, e, e', e'') (All-append _ vs rest here there)
              ]
        ]
      ]
    ]

-- The largest value that a field is left with: 7 is a Sunday too.
abbrev pub top : FieldDef → ℕ
top def = if def.max == 7 then 6 else def.max

normalized-Within :
    (def : FieldDef) (vs : List ℕ)
    → All (Within def.min def.max) vs
    → (def.max ≡ 7 → def.min ≡ 0)
    → All (Within def.min (top def)) (normalized def vs)
unfolding normalized
normalized-Within def [] h z = tt
normalized-Within def (v ∷ vs) h z = (ground arith, normalized-Within def vs h.1 z)

-- The values of a field: in range, sorted, none twice.
abbrev pub Fits : FieldDef → List ℕ → Type 0
Fits def vs = All (Within def.min (top def)) vs × Ascending vs

abbrev pub Fitting : FieldDef → Result CronError (List ℕ) → Type 0
Fitting def r = Holds (Fits def) r

finished :
    (def : FieldDef) (r : Result CronError (List ℕ))
    → (def.max ≡ 7 → def.min ≡ 0)
    → Holds (All (Within def.min def.max)) r
    → Fitting def (r >>= λ vs. ok (sorted (distinct (normalized def (distinct vs)))))
finished def (ok vs) z h = (
  sorted-All _ (distinct (normalized def (distinct vs)))
      (distinct-All _ _ (normalized-Within def (distinct vs) (distinct-All _ vs h) z)),
  sorted-distinct-Ascending (normalized def (distinct vs)),
)
finished def (err e) z h = tt

parse_field-Fitting :
    (raw : Text) (def : FieldDef) → (def.max ≡ 7 → def.min ≡ 0) → Fitting def (parse_field raw def)
unfolding parse_field
parse_field-Fitting raw def z =
    finished def (parts_values def ((split_commas raw).0 ∷ (split_commas raw).1)) z
      (parts_values-Within def ((split_commas raw).0 ∷ (split_commas raw).1))

-- What a schedule holds: minutes of 0 to 59, hours of 0 to 23, days of 1 to 31, months of 1 to 12
-- and weekdays of 0 to 6, each list in order and without a value twice.
pub record IsProper (s : CronSchedule) : Type 0 where
  pub minutes : Fits minute_def s.minute
  pub hours : Fits hour_def s.hour
  pub days : Fits day_of_month_def s.day_of_month
  pub months : Fits month_def s.month
  pub weekdays : Fits day_of_week_def s.day_of_week

-- The list that a call returned is as it should be.
returned :
    (raw : Text) (def : FieldDef) {vs : List ℕ}
    → (def.max ≡ 7 → def.min ≡ 0)
    → parse_field raw def ≡ ok vs
    → Fits def vs
returned raw def z e = subst (Fitting def) e (parse_field-Fitting raw def z)

ok_injective : {s t : CronSchedule} → Path (Result CronError CronSchedule) (ok s) (ok t) → s ≡ t
ok_injective e = cc

fields-IsProper : (fields : List Text) {s : CronSchedule} → parse_fields fields ≡ ok s → IsProper s
unfolding parse_fields
fields-IsProper (a ∷ b ∷ c ∷ d ∷ w ∷ []) {s} e =
    let (minute, p, e1) = bind_ok (parse_field a minute_def) _ e in
    let (hour, q, e2) = bind_ok (parse_field b hour_def) _ e1 in
    let (day_of_month, r, e3) = bind_ok (parse_field c day_of_month_def) _ e2 in
    let (month, t, e4) = bind_ok (parse_field d month_def) _ e3 in
    let (day_of_week, u, e5) = bind_ok (parse_field w day_of_week_def) _ e4 in
    subst IsProper (ok_injective e5) (record {
      minutes = returned a minute_def (λ z. refl) p;
      hours = returned b hour_def (λ z. cc) q;
      days = returned c day_of_month_def (λ z. cc) r;
      months = returned d month_def (λ z. cc) t;
      weekdays = returned w day_of_week_def (λ z. refl) u;
    })
fields-IsProper [] e = cc
fields-IsProper (a ∷ []) e = cc
fields-IsProper (a ∷ b ∷ []) e = cc
fields-IsProper (a ∷ b ∷ c ∷ []) e = cc
fields-IsProper (a ∷ b ∷ c ∷ d ∷ []) e = cc
fields-IsProper (a ∷ b ∷ c ∷ d ∷ w ∷ x ∷ rest) e = cc

-- Every schedule that parses is within the ranges of its fields, in order and without a value twice.
pub parse_cron_expression-IsProper :
    (expr : Text) {s : CronSchedule} → parse_cron_expression expr ≡ ok s → IsProper s
unfolding parse_cron_expression
parse_cron_expression-IsProper expr {s} e = elim (Bool-cases (not (is_macro (trim expr)))) [
  | inl plain ↦
      let e' : parse_fields ((split_spaces (trim expr)).0 ∷ (split_spaces (trim expr)).1) ≡ ok s =
        rw plain at e in
      fields-IsProper ((split_spaces (trim expr)).0 ∷ (split_spaces (trim expr)).1) e'
  | inr named ↦
      let e' : Path (Result CronError CronSchedule) (err named_macro) (ok s) = rw named at e in cc
]
