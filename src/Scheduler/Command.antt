-- ===== src/Scheduler/Command.antt =====
-- packages/core/src/cron-scheduler.ts, `runCommandOnce`: the run of a command by events of its process
-- and of its timers, in any order.
use omp_bundler.Prelude.{
  ℕ, ◌≡◌, refl, ap, List, [], ◌∷◌, ◌++◌, Bool, true, false, Option, none, some, Text, codes, ◌==◌,
  if◌then◌else◌, inl, inr, Bool-cases, Option-cases, ◌||◌, arith,
}
use omp_bundler.StorageKey.{decimal}

pub record RunResult : Type 0 where
  pub is_ok : Bool
  pub text : Text
  pub error : Option Text

pub data Signal : Type 0 where
  sigterm sigkill : Signal

pub record CommandRun : Type 0 where
  pub text : Text
  pub timed_out : Bool
  pub result : Option RunResult
  -- The signals that were sent to the process group.
  pub signals : List Signal

pub data CommandEvent : Type 0 where
  outputs : Text → CommandEvent
  fails : Text → CommandEvent
  -- With the exit code, if there is one.
  exits : Option ℕ → CommandEvent
  -- The timeout's timer, and that of the grace period after it.
  times_out grace_ends : CommandEvent

unfoldable pub finish_run : Bool → Option Text → CommandRun → CommandRun
finish_run is_ok error s = elim s.result [
  | some r ↦ s
  | none ↦ record s { result = some (record { is_ok = is_ok; text = s.text; error = error }) }
]

abbrev pub is_settled : Option RunResult → Bool
is_settled none = false
is_settled (some r) = true

abbrev pub exit_error : Option ℕ → Text
exit_error none = codes "exit code unknown"
exit_error (some code) = codes "exit code " ++ decimal code

abbrev pub is_zero : Option ℕ → Bool
is_zero none = false
is_zero (some code) = code == 0

module _ (timeout_seconds : ℕ) where
  abbrev pub timeout_error : Text
  timeout_error = codes "command timed out after " ++ (decimal timeout_seconds ++ codes "s")

  unfoldable pub handle : CommandEvent → CommandRun → CommandRun
  unfolding decimal
  handle (outputs chunk) s = record s { text = s.text ++ chunk }
  handle (fails message) s = if s.timed_out then s else finish_run false (some message) s
  handle (exits code) s =
      if s.timed_out
      then finish_run false (some timeout_error) s
      else if is_zero code
      then finish_run true none s
      else finish_run false (some (exit_error code)) s
  handle times_out s =
      if is_settled s.result
      then s
      else record s { timed_out = true; signals = s.signals ++ sigterm ∷ [] }
  -- Its timer is started by the timeout.
  handle grace_ends s =
      if is_settled s.result
      then s
      else if s.timed_out
      then finish_run false (some timeout_error) (record s { signals = s.signals ++ sigkill ∷ [] })
      else s

  unfoldable pub handle_all : List CommandEvent → CommandRun → CommandRun
  unfolding handle
  handle_all [] s = s
  handle_all (e ∷ es) s = handle_all es (handle e s)

  abbrev has_ended : CommandRun → Bool
  has_ended s = is_settled s.result

  if_ends :
      (test : Bool) (s t : CommandRun)
      → has_ended s ≡ true
      → has_ended t ≡ true
      → has_ended (if test then s else t) ≡ true
  if_ends true s t p q = p
  if_ends false s t p q = q

  finish-has_ended :
      (is_ok : Bool) (error : Option Text) (s : CommandRun)
      → has_ended (finish_run is_ok error s) ≡ true
  unfolding finish_run
  finish-has_ended is_ok error s = elim (Option-cases s.result) [
    | inl e ↦ rw (e, finish_run) refl
    | inr (r, e) ↦ rw (e, finish_run) (ap is_settled e)
  ]

  -- The timeout is over, or the run.
  abbrev armed : CommandRun → Bool
  armed s = has_ended s || s.timed_out

  finish-armed :
      (is_ok : Bool) (error : Option Text) (s : CommandRun)
      → armed (finish_run is_ok error s) ≡ true
  finish-armed is_ok error s = rw (finish-has_ended is_ok error s) refl

  if_armed :
      (test : Bool) (s t : CommandRun)
      → armed s ≡ true
      → armed t ≡ true
      → armed (if test then s else t) ≡ true
  if_armed true s t p q = p
  if_armed false s t p q = q

  handle-has_ended :
      (e : CommandEvent) (s : CommandRun) → has_ended s ≡ true → has_ended (handle e s) ≡ true
  unfolding handle
  handle-has_ended (outputs chunk) s h = h
  handle-has_ended (fails message) s h = if_ends s.timed_out _ _ h (finish-has_ended false _ s)
  handle-has_ended (exits code) s h =
      if_ends s.timed_out _ _ (finish-has_ended false _ s)
        (if_ends (is_zero code) _ _ (finish-has_ended true none s) (finish-has_ended false _ s))
  handle-has_ended times_out s h = if_ends (has_ended s) _ _ h h
  handle-has_ended grace_ends s h =
      if_ends (has_ended s) _ _ h (if_ends s.timed_out _ _ (finish-has_ended false _ _) h)

  handle-armed : (e : CommandEvent) (s : CommandRun) → armed s ≡ true → armed (handle e s) ≡ true
  unfolding handle
  handle-armed (outputs chunk) s h = h
  handle-armed (fails message) s h = if_armed s.timed_out _ _ h (finish-armed false _ s)
  handle-armed (exits code) s h =
      if_armed s.timed_out _ _ (finish-armed false _ s)
        (if_armed (is_zero code) _ _ (finish-armed true none s) (finish-armed false _ s))
  handle-armed times_out s h = if_armed (has_ended s) _ _ h (ground arith)
  handle-armed grace_ends s h =
      if_armed (has_ended s) _ _ h (if_armed s.timed_out _ _ (finish-armed false _ _) h)

  times_out_lem : (s : CommandRun) → armed (handle times_out s) ≡ true
  unfolding handle
  times_out_lem s = elim (Bool-cases (has_ended s)) [
    | inl done ↦ rw done (rw done refl)
    | inr runs ↦ rw runs (ground arith)
  ]

  grace_ends_lem : (s : CommandRun) → armed s ≡ true → has_ended (handle grace_ends s) ≡ true
  unfolding handle
  grace_ends_lem s h = elim (Bool-cases (has_ended s)) [
    | inl done ↦ rw done done
    | inr runs ↦ elim (Bool-cases s.timed_out) [
      | inl late ↦ rw (runs, late) (finish-has_ended false _ _)
      | inr early ↦ ground arith
    ]
  ]

  settles_rest :
      (es : List CommandEvent) (s : CommandRun)
      → has_ended s ≡ true
      → has_ended (handle_all es s) ≡ true
  unfolding handle_all
  settles_rest [] s h = h
  settles_rest (e ∷ es) s h = settles_rest es (handle e s) (handle-has_ended e s h)

  settles_armed :
      (between after : List CommandEvent) (s : CommandRun)
      → armed s ≡ true
      → has_ended (handle_all (between ++ grace_ends ∷ after) s) ≡ true
  unfolding handle_all
  settles_armed [] after s h = settles_rest after (handle grace_ends s) (grace_ends_lem s h)
  settles_armed (e ∷ es) after s h = settles_armed es after (handle e s) (handle-armed e s h)

  -- A command's run has a result once its timeout and the grace period after it are over, whatever its
  -- process does before, between and after.
  pub handle_all_settles :
      (before between after : List CommandEvent) (s : CommandRun)
      → is_settled (handle_all (before ++ times_out ∷ (between ++ grace_ends ∷ after)) s).result
        ≡ true
  unfolding handle_all
  handle_all_settles [] between after s =
      settles_armed between after (handle times_out s) (times_out_lem s)
  handle_all_settles (e ∷ es) between after s = handle_all_settles es between after (handle e s)
