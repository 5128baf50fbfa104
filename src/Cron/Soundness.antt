-- ===== src/Cron/Soundness.antt =====
-- What the search for the next run returns.
use mathlib.Core.Path.{subst}
use omp_bundler.Prelude.{
  ℕ, zero, suc, ◌<◌, ◌≡◌, ap, ◌∙◌, inl, inr, List, [], ◌∷◌, Bool, true, false, Option, none, some,
  any, ltb, ◌==◌, if◌then◌else◌, map, All, All-append, arith, Bool-cases, Option-cases,
}
use omp_bundler.Prelude.Results.{Result, ok, ◌>>=◌, bind_ok}
use omp_bundler.Cron.{CronSchedule, CronError}
use omp_bundler.Cron.Next.{
  Date, WallClock, Calendar, offset_ms, less_offset, wall_equals, day_matches, times, max_days,
  accepted, ended, wall_to_epoch, first_candidate, advance, search, start_of, is_past,
  next_run_after,
}

-- A time of the schedule.
abbrev pub Listed : List ℕ → List ℕ → ℕ × ℕ → Type 0
Listed hours minutes (h, m) = (any (λ v. v == h) hours ≡ true) × (any (λ v. v == m) minutes ≡ true)

map-Listed :
    (hours minutes ms : List ℕ) (h : ℕ)
    → any (λ v. v == h) hours ≡ true
    → ((m : ℕ) → any (λ v. v == m) ms ≡ true → any (λ v. v == m) minutes ≡ true)
    → All (Listed hours minutes) (map (λ m. (h, m)) ms)
map-Listed hours minutes [] h i f = tt
map-Listed hours minutes (m ∷ ms) h i f =
    ((i, f m (ground arith)), map-Listed hours minutes ms h i (λ n j. f n (ground (arith, j))))

times-Listed :
    (all hours minutes : List ℕ)
    → ((h : ℕ) → any (λ v. v == h) hours ≡ true → any (λ v. v == h) all ≡ true)
    → All (Listed all minutes) (times hours minutes)
unfolding times
times-Listed all [] minutes f = tt
times-Listed all (h ∷ hours) minutes f =
    All-append _ _ _ (map-Listed all minutes minutes h (f h (ground arith)) (λ m i. i))
      (times-Listed all hours minutes (λ n j. f n (ground (arith, j))))

settled_ok :
    (w : WallClock) (date : Date) (h m cand t : ℕ)
    → Path
        (Result CronError (Option ℕ))
        (ok (if wall_equals w date h m then some cand else none))
        (ok (some t))
    → (cand ≡ t) × (wall_equals w date h m ≡ true)
settled_ok w date h m cand t e = elim (Bool-cases (wall_equals w date h m)) [
  | inl hit ↦
      let e' : Path (Result CronError (Option ℕ)) (ok (some cand)) (ok (some t)) = rw hit at e in
      (cc, hit)
  | inr miss ↦
      let e' : Path (Result CronError (Option ℕ)) (ok none) (ok (some t)) = rw miss at e in cc
]

some_injective : {s t : ℕ} → Path (Result CronError (Option ℕ)) (ok (some s)) (ok (some t)) → s ≡ t
some_injective e = cc

instant_injective : {s t : ℕ} → Path (Result CronError ℕ) (ok s) (ok t) → s ≡ t
instant_injective e = cc

module _ (c : Calendar) where
  abbrev pub Shows : Date → ℕ → ℕ → ℕ → Type 0
  Shows date h m t = wall_equals (c.wall_of t) date h m ≡ true

  wall_to_epoch_ok :
      (date : Date) (h m t : ℕ) → wall_to_epoch c date h m ≡ ok (some t) → Shows date h m t
  unfolding wall_to_epoch
  wall_to_epoch_ok date h m t e =
      let guess = c.utc date.year date.month0 date.day h m in
      let (o, p, q) = bind_ok (offset_ms (c.zone_name guess)) _ e in
      let cand = less_offset guess o in
      elim (Bool-cases (wall_equals (c.wall_of cand) date h m)) [
        | inl hit ↦
            let e' : Path (Result CronError (Option ℕ)) (ok (some cand)) (ok (some t)) =
              rw hit at q in
            subst (Shows date h m) (some_injective e') hit
        | inr miss ↦
            let q' : Path (Result CronError (Option ℕ))
                (offset_ms (c.zone_name cand) >>= λ o'. ok (
                  if wall_equals (c.wall_of (less_offset guess o')) date h m
                  then some (less_offset guess o')
                  else none))
                (ok (some t)) =
              rw miss at q in
            let (o', p', r) = bind_ok (offset_ms (c.zone_name cand)) _ q' in
            let (i, hit) =
              settled_ok (c.wall_of (less_offset guess o')) date h m (less_offset guess o') t r in
            subst (Shows date h m) i hit
      ]

  -- An instant that the loop of one day may return.
  pub record IsCandidate (hours minutes : List ℕ) (date : Date) (after t : ℕ) : Type 0 where
    pub time : ℕ × ℕ
    pub listed : Listed hours minutes time
    pub later : after < t
    pub shown : Shows date time.0 time.1 t

  first_candidate_ok :
      (hours minutes : List ℕ) (date : Date) (skips : ℕ → ℕ → Bool) (after t : ℕ)
      (ts : List (ℕ × ℕ))
      → All (Listed hours minutes) ts
      → first_candidate c date skips after ts ≡ ok (some t)
      → IsCandidate hours minutes date after t
  unfolding first_candidate
  first_candidate_ok hours minutes date skips after t [] l e = cc
  first_candidate_ok hours minutes date skips after t ((h, m) ∷ rest) l e =
      let again = first_candidate_ok hours minutes date skips after t rest l.1 in
      elim (Bool-cases (skips h m)) [
        | inl skip ↦ again (rw skip at e)
        | inr try ↦
            let e' : (wall_to_epoch c date h m
                  >>= accepted after (first_candidate c date skips after rest))
                ≡ ok (some t) =
              rw try at e in
            let (found, p, q) = bind_ok (wall_to_epoch c date h m) _ e' in
            elim (Option-cases found) [
              | inl gone ↦ again (rw gone at q)
              | inr (cand, here) ↦ elim (Bool-cases (ltb after cand)) [
                | inr early ↦ again (rw (here, early) at q)
                | inl late ↦
                    let q' : Path (Result CronError (Option ℕ)) (ok (some cand)) (ok (some t)) =
                      rw (here, late) at q in
                    let i = some_injective q' in
                    record {
                      time = (h, m);
                      listed = l.0;
                      later = ground (arith, i);
                      shown = wall_to_epoch_ok date h m t (p ∙ (ap ok here ∙ q'));
                    }
              ]
            ]
      ]

  -- The date after a number of days.
  abbrev pub nth : ℕ → Date → Date
  nth zero date = date
  nth (suc days) date = nth days (advance c date)

  -- The rounds that are passed over after a number of days.
  abbrev pub skips_on : (ℕ → ℕ → Bool) → ℕ → ℕ → ℕ → Bool
  skips_on skips zero = skips
  skips_on skips (suc days) = λ h m. false

  -- What the search returns: an instant after the start whose wall clock is at a listed time of a
  -- day of the schedule, a number of days below the bound after the start. No earlier day of the
  -- schedule has an instant to return.
  pub record IsRun (s : CronSchedule) (after bound : ℕ) (start : Date) (skips : ℕ → ℕ → Bool)
      (t : ℕ) : Type 0 where
    pub days : ℕ
    pub few : days < bound
    pub on_day : day_matches s (nth days start) ≡ true
    pub candidate : IsCandidate s.hour s.minute (nth days start) after t
    pub earlier :
        (j : ℕ)
        → j < days
        → day_matches s (nth j start) ≡ true
        → first_candidate c (nth j start) (skips_on skips j) after (times s.hour s.minute) ≡ ok none

  next_day :
      (s : CronSchedule) (after rounds : ℕ) (date : Date) (skips : ℕ → ℕ → Bool) (t : ℕ)
      → (day_matches s date ≡ true
          → first_candidate c date skips after (times s.hour s.minute) ≡ ok none)
      → IsRun s after rounds (advance c date) (λ h m. false) t
      → IsRun s after (suc rounds) date skips t
  next_day s after rounds date skips t today run = record {
    days = suc run.days;
    few = omega (arith, run.few);
    on_day = run.on_day;
    candidate = run.candidate;
    earlier = before;
  }
    where
      before :
          (j : ℕ)
          → j < suc run.days
          → day_matches s (nth j date) ≡ true
          → first_candidate c (nth j date) (skips_on skips j) after (times s.hour s.minute)
            ≡ ok none
      before zero l m = today m
      before (suc zero) l m = run.earlier zero (omega (arith, l)) m
      before (suc (suc j)) l m = run.earlier (suc j) (omega (arith, l)) m

  search_ok :
      (s : CronSchedule) (after rounds : ℕ) (date : Date) (skips : ℕ → ℕ → Bool) (t : ℕ)
      → search c s after rounds date skips ≡ ok t
      → IsRun s after rounds date skips t
  unfolding search
  search_ok s after zero date skips t e = cc
  search_ok s after (suc rounds) date skips t e =
      let rest = search c s after rounds (advance c date) (λ h m. false) in
      let again = search_ok s after rounds (advance c date) (λ h m. false) t in
      elim (Bool-cases (day_matches s date)) [
        | inr other ↦ next_day s after rounds date skips t (λ m. cc) (again (rw other at e))
        | inl match ↦
            let e' : (first_candidate c date skips after (times s.hour s.minute) >>= ended rest)
                ≡ ok t =
              rw match at e in
            let (found, p, q) =
              bind_ok (first_candidate c date skips after (times s.hour s.minute)) _ e' in
            elim (Option-cases found) [
              | inl gone ↦
                  next_day s after rounds date skips t (λ m. p ∙ ap ok gone) (again (rw gone at q))
              | inr (cand, here) ↦
                  let q' : Path (Result CronError ℕ) (ok cand) (ok t) = rw here at q in
                  record {
                    days = 0;
                    few = omega arith;
                    on_day = match;
                    candidate =
                        first_candidate_ok s.hour s.minute date skips after t
                          (times s.hour s.minute) (times-Listed s.hour s.hour s.minute (λ h i. i))
                          (p ∙ (ap ok here ∙ ap (λ x. ok (some x)) (instant_injective q')));
                    earlier = λ j l m. absurd (omega (arith, l));
                  }
            ]
      ]

-- The next run of a schedule is after the start, and the wall clock of the time zone then shows one of
-- its hours and one of its minutes on a date that it asks for, less than 366 days after the start. On
-- no earlier date that it asks for does the loop over the times find an instant after the start.
pub next_run_after-IsRun :
    (c : Calendar) (s : CronSchedule) (after t : ℕ)
    → next_run_after c s after ≡ ok t
    → IsRun c s after max_days (start_of c after) (is_past c (c.wall_of after)) t
unfolding next_run_after
next_run_after-IsRun c s after t e =
    search_ok c s after max_days (start_of c after) (is_past c (c.wall_of after)) t e
