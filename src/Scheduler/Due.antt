-- ===== src/Scheduler/Due.antt =====
-- The fires of a job that are due are its boundaries after the last run, none later than now.
use mathlib.Core.Path.{subst}
use omp_bundler.Prelude.{
  ℕ, zero, suc, ◌+◌, ◌-◌, ◌≡◌, ◌≤◌, ◌<◌, refl, sym, ap, ◌∙◌, ◌⊎◌, inl, inr, List, [], ◌∷◌, true,
  false, Option, none, some, ltb, arith, Bool-cases,
}
use omp_bundler.Prelude.Results.{Result, ok, ◌>>=◌, bind_ok}
use omp_bundler.Cron.{CronError}
use omp_bundler.Cron.Soundness.{next_run_after-IsRun}
use omp_bundler.Scheduler.{
  Missed, skip, catch_up, CronJob, next_fire, latest_due, list_of, catch_up_cap, missed_fires,
  due_of, compute_due_fires,
}

pub next_fire_later : (job : CronJob) (after t : ℕ) → next_fire job after ≡ ok t → after < t
next_fire_later job after t e =
    (next_run_after-IsRun job.calendar job.parsed after t e).candidate.later

-- From a run on, the fires ascend, and none is later than now.
abbrev pub Due : ℕ → ℕ → List ℕ → Type 0
Due now last [] = Unit
Due now last (fire ∷ fires) = (last < fire) × (fire ≤ now) × Due now fire fires

ok_injective {ℓ} : {A : Type ℓ} (a b : A) → Path (Result CronError A) (ok a) (ok b) → a ≡ b
ok_injective a b e = cc

is_late : (now fire : ℕ) → ltb now fire ≡ true → now < fire
is_late now fire e = ground (arith, e)

found_one : (found : Option ℕ) (fire : ℕ) → list_of found ≡ fire ∷ [] → found ≡ some fire
found_one none fire e = cc
found_one (some f) fire e = cc

not_late : (now fire : ℕ) → ltb now fire ≡ false → fire ≤ now
not_late now fire e = ground (arith, e)

missed_fires-Due :
    (job : CronJob) (now rounds cursor : ℕ) (fires : List ℕ)
    → missed_fires job now rounds cursor ≡ ok fires
    → Due now cursor fires
unfolding missed_fires
missed_fires-Due job now zero cursor fires e = subst (Due now cursor) (ok_injective [] fires e) tt
missed_fires-Due job now (suc rounds) cursor fires e =
    let (fire, found, rest) = bind_ok (next_fire job cursor) _ e in
    elim (Bool-cases (ltb now fire)) [
      | inl late ↦
          let stop : Path (Result CronError (List ℕ)) (ok []) (ok fires) = rw late at rest in
          subst (Due now cursor) (ok_injective [] fires stop) tt
      | inr due ↦
          let more : Path (Result CronError (List ℕ))
              (missed_fires job now rounds fire >>= λ later. ok (fire ∷ later)) (ok fires) =
            rw due at rest in
          let (later, tail, cons) = bind_ok (missed_fires job now rounds fire) _ more in
          subst (Due now cursor) (ok_injective (fire ∷ later) fires cons) (
            next_fire_later job cursor fire found,
            not_late now fire due,
            missed_fires-Due job now rounds fire later tail,
          )
    ]

-- What the loop for `skip` finds is no earlier than what it had found.
latest_due_lem :
    (job : CronJob) (now rounds cursor : ℕ) (latest found : Option ℕ)
    → latest_due job now rounds cursor latest ≡ ok found
    → (found ≡ latest) ⊎ ((fire : ℕ) × (found ≡ some fire) × (cursor < fire) × (fire ≤ now))
unfolding latest_due
latest_due_lem job now zero cursor latest found e = inl (sym (ok_injective latest found e))
latest_due_lem job now (suc rounds) cursor latest found e =
    let (fire, next, rest) = bind_ok (next_fire job cursor) _ e in
    let later = next_fire_later job cursor fire next in
    elim (Bool-cases (ltb now fire)) [
      | inl late ↦
          let stop : Path (Result CronError (Option ℕ)) (ok latest) (ok found) = rw late at rest in
          inl (sym (ok_injective latest found stop))
      | inr due ↦
          let more : Path (Result CronError (Option ℕ)) (latest_due job now rounds fire (some fire))
              (ok found) =
            rw due at rest in
          elim (latest_due_lem job now rounds fire (some fire) found more) [
            | inl same_one ↦ inr (fire, same_one, later, not_late now fire due)
            | inr (last, q, l, w) ↦ inr (last, q, omega (arith, l, later), w)
          ]
    ]

-- The fires that are due, whatever the job does about those that it missed, ascend from the last run
-- on, and none is later than now.
pub compute_due_fires-Due :
    (job : CronJob) (last now : ℕ) (fires : List ℕ)
    → compute_due_fires job last now ≡ ok fires
    → Due now last fires
unfolding due_of
compute_due_fires-Due job last now fires e = go job.missed e
  where
    go : (policy : Missed) → due_of policy job last now ≡ ok fires → Due now last fires
    go catch_up e = missed_fires-Due job now catch_up_cap last fires e
    go skip e =
        let (found, ran, one) = bind_ok (latest_due job now (now - last + 1) last none) _ e in
        let listed = ok_injective (list_of found) fires one in
        elim (latest_due_lem job now (now - last + 1) last none found ran) [
          | inl nothing ↦ subst (Due now last) (ap list_of (sym nothing) ∙ listed) tt
          | inr (fire, q, l, w) ↦ subst (Due now last) (ap list_of (sym q) ∙ listed) (l, w, tt)
        ]

-- The fuel of the loop for `skip` is enough: no boundary after the one that it finds is due.
latest_due_last :
    (job : CronJob) (now rounds cursor fire : ℕ) (latest : Option ℕ)
    → now < cursor + rounds
    → ((latest ≡ some cursor) × (cursor ≤ now)) ⊎ (latest ≡ none)
    → latest_due job now rounds cursor latest ≡ ok (some fire)
    → (next : ℕ) × (next_fire job fire ≡ ok next) × (now < next)
unfolding latest_due
latest_due_last job now zero cursor fire latest room had e = elim had [
  | inl (q, le) ↦ absurd (omega (arith, room, le))
  | inr q ↦
      let p : Path (Option ℕ) none (some fire) = sym q ∙ ok_injective latest (some fire) e in cc
]
latest_due_last job now (suc rounds) cursor fire latest room had e =
    let (next, found, rest) = bind_ok (next_fire job cursor) _ e in
    elim (Bool-cases (ltb now next)) [
      | inl late ↦
          let stop : Path (Result CronError (Option ℕ)) (ok latest) (ok (some fire)) =
            rw late at rest in
          let last = ok_injective latest (some fire) stop in
          elim had [
            | inl (q, le) ↦
                let p : Path (Option ℕ) (some cursor) (some fire) = sym q ∙ last in
                let same_one : cursor ≡ fire = cc in
                (next, subst (λ t. next_fire job t ≡ ok next) same_one found, is_late now next late)
            | inr q ↦ let p : Path (Option ℕ) none (some fire) = sym q ∙ last in cc
          ]
      | inr due ↦
          let more : Path (Result CronError (Option ℕ)) (latest_due job now rounds next (some next))
              (ok (some fire)) =
            rw due at rest in
          latest_due_last job now rounds next fire (some next)
            (omega (arith, room, next_fire_later job cursor next found))
            (inl (refl, not_late now next due)) more
    ]

-- For a job that skips what it missed, the fire that is due is the last boundary: the one after it is
-- later than now.
pub due_of-skip :
    (job : CronJob) (last now fire : ℕ)
    → due_of skip job last now ≡ ok (fire ∷ [])
    → (next : ℕ) × (next_fire job fire ≡ ok next) × (now < next)
unfolding due_of
due_of-skip job last now fire e =
    let (found, ran, one) = bind_ok (latest_due job now (now - last + 1) last none) _ e in
    latest_due_last job now (now - last + 1) last fire none (omega arith) (inr refl)
      (ran ∙ ap ok (found_one found fire (ok_injective (list_of found) (fire ∷ []) one)))
