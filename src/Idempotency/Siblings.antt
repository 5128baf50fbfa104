-- ===== src/Idempotency/Siblings.antt =====
-- The writes to all rows of a correlation act on every one of them or on none.
use omp_bundler.Prelude.{
  ◌≡◌, ◌≢◌, ◌∙◌, inl, inr, ◌⊎◌, List, [], ◌∷◌, Bool, true, false, not, ◌&&◌, Option, none, some,
  Text, keep, All, arith, Bool-cases, Option-cases,
}
use omp_bundler.Prelude.Results.{Result, ok, err, require, Result-cases}
use omp_bundler.Prelude.Rows.{changes, updated, update}
use omp_bundler.Contracts.{OutboundEvent}
use omp_bundler.Idempotency.{
  Entry, StoreError, changed_meanwhile, is_sent, is_unsent, of_correlation, with_sent,
}
use omp_bundler.Idempotency.Correlation.{
  tally, change_counted, unsavable, unconfirmable, by_age, get_entries_by_correlation,
  mark_correlation_sent,
}
use omp_bundler.Idempotency.Counting.{
  All-keep, All-order_by, changes-keep, changes-order_by, changes_cong, counted, tally_ok,
}

-- What every row of the correlation is after the statement.
module _ (a c : Text) (P : Entry → Type 0) (bad : Entry → Option StoreError) (q : Entry → Bool)
    (f : Entry → Entry) (on : (r : Entry) → bad r ≡ none → q r ≡ true → P (f r))
    (off : (r : Entry) → bad r ≡ none → q r ≡ false → P r) where
  updated_row :
      (r : Entry)
      → (of_correlation a c r ≡ true → bad r ≡ none)
      → of_correlation a c (updated (λ r. of_correlation a c r && q r) f r) ≡ true
      → P (updated (λ r. of_correlation a c r && q r) f r)
  updated_row r good = elim (Bool-cases (of_correlation a c r)) [
    | inr miss ↦ rw miss (λ e. cc)
    | inl hit ↦ elim (Bool-cases (q r)) [
      | inl yes' ↦ rw (hit, yes') (λ e. on r (good hit) yes')
      | inr no' ↦ rw (hit, no') (λ e. off r (good hit) no')
    ]
  ]

  updated_rows :
      (rows : List Entry)
      → All (λ r. of_correlation a c r ≡ true → bad r ≡ none) rows
      → All
          (λ r. of_correlation a c r ≡ true → P r)
          (update (λ r. of_correlation a c r && q r) f rows)
  updated_rows [] h = tt
  updated_rows (r ∷ rows) h = (updated_row r h.0, updated_rows rows h.1)

module _ (collate : Text → Text → Bool) (rows : List Entry) (a c : Text) where
  -- What holds of the entries of a correlation holds of its rows.
  of_entries :
      (P : Entry → Type 0)
      → All P (get_entries_by_correlation collate rows a c)
      → All (λ r. of_correlation a c r ≡ true → P r) rows
  unfolding get_entries_by_correlation
  of_entries P h = All-keep P (of_correlation a c) rows (All-order_by collate by_age P _ h)

  count_entries :
      (test : Entry → Bool)
      → changes test (get_entries_by_correlation collate rows a c)
        ≡ changes (λ r. of_correlation a c r && test r) rows
  unfolding get_entries_by_correlation
  count_entries test =
      changes-order_by collate by_age test (keep (of_correlation a c) rows)
      ∙ changes-keep (of_correlation a c) test rows

  -- The loop of a call and its statement together: either the loop met a bad row, or the statement
  -- changed just the rows counted.
  pub swept :
      (bad : Entry → Option StoreError) (test q : Entry → Bool) (f : Entry → Entry)
      → ((r : Entry) → bad r ≡ none → test r ≡ q r)
      → let n = tally bad test (get_entries_by_correlation collate rows a c) in
        let p = λ (r : Entry). of_correlation a c r && q r in
        ((e : StoreError) × (n ≡ err e))
        ⊎ ((change_counted p f rows n ≡ ok (update p f rows))
            × All (λ r. of_correlation a c r ≡ true → bad r ≡ none) rows)
  swept bad test q f same_test =
      elim (Result-cases (tally bad test (get_entries_by_correlation collate rows a c))) [
        | inr (e, t) ↦ inl (e, t)
        | inl (n, t) ↦
            let (good, m) = tally_ok bad test _ n t in
            let good' = of_entries (λ r. bad r ≡ none) good in
            inr (
              rw t (
                  counted _ f rows n
                    (m ∙ count_entries test ∙ changes_cong _ _ rows (agree rows good'))),
              good',
            )
      ]
    where
      agree :
          (rows : List Entry)
          → All (λ r. of_correlation a c r ≡ true → bad r ≡ none) rows
          → All (λ r. (of_correlation a c r && test r) ≡ (of_correlation a c r && q r)) rows
      agree [] h = tt
      agree (r ∷ rows) h = (
        elim (Bool-cases (of_correlation a c r)) [
          | inl hit ↦ rw hit (same_test r (h.0 hit))
          | inr miss ↦ rw miss
        ],
        agree rows h.1,
      )

pub tally_error :
    (bad : Entry → Option StoreError) (test : Entry → Bool) (es : List Entry) (e : StoreError)
    → ((r : Entry) → bad r ≢ some changed_meanwhile)
    → tally bad test es ≡ err e
    → e ≢ changed_meanwhile
unfolding tally
tally_error bad test [] e h t = cc
tally_error bad test (r ∷ es) e h t = elim (Option-cases (bad r)) [
  | inr (x, b) ↦ λ q. h r (ground arith)
  | inl b ↦ elim (Result-cases (tally bad test es)) [
    | inl (k, t') ↦ absurd (ground arith)
    | inr (x, t') ↦ tally_error bad test es e h (ground arith)
  ]
]

pub unsavable_error :
    (event : OutboundEvent) (r : Entry) → unsavable event r ≢ some changed_meanwhile
unsavable_error event r = ground arith

pub unconfirmable_error :
    (event_id : Text) (r : Entry) → unconfirmable event_id r ≢ some changed_meanwhile
unconfirmable_error event_id r = ground arith

-- The outcome of a write to a correlation: it was refused with the table unread or for a bad row,
-- never half way, or every row of the correlation is as it should be.
abbrev pub Whole : Text → Text → (Entry → Type 0) → Result StoreError (List Entry) → Type 0
Whole a c P (err e) = e ≢ changed_meanwhile
Whole a c P (ok rows) = All (λ r. of_correlation a c r ≡ true → P r) rows

require-Whole :
    (a c : Text) (P : Entry → Type 0) (test : Bool) (e : StoreError)
    (rest : Result StoreError (List Entry))
    → e ≢ changed_meanwhile
    → Whole a c P rest
    → Whole a c P (require test e rest)
require-Whole a c P true e rest n h = h
require-Whole a c P false e rest n h = n

module _ (collate : Text → Text → Bool) (rows : List Entry) (a c : Text) where
  -- Confirming the delivery of a correlation's event never fails for its count of changed rows, and
  -- when it succeeds each row of the correlation is sent.
  pub mark_correlation_sent-Whole :
      (event_id ts : Text)
      → Whole a c
          (λ r. is_sent r.delivery_state ≡ true)
          (mark_correlation_sent collate rows a c event_id ts)
  unfolding mark_correlation_sent
  mark_correlation_sent-Whole event_id ts =
      elim (swept collate rows a c (unconfirmable event_id) (λ r. not (is_sent r.delivery_state))
        (λ r. is_unsent r.delivery_state) (with_sent ts) (λ r g. ground arith)) [
          | inl (e, t) ↦
              rw (t, change_counted) (tally_error _ _ _ e (unconfirmable_error event_id) t)
          | inr (done, good) ↦ rw done (
              updated_rows a c _ (unconfirmable event_id) (λ r. is_unsent r.delivery_state)
                (with_sent ts) (λ r g u. ground arith) (λ r g u. ground arith) rows good)
        ]
