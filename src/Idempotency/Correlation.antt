-- ===== src/Idempotency/Correlation.antt =====
-- packages/core/src/idempotency-store.ts: the transitions of all rows of one correlation, and the
-- reads of several rows. `collate` is SQLite's order of texts, which ORDER BY goes by. Each call
-- reads and writes the one table `rows`: no other process writes during a call.
use omp_bundler.Prelude.{
  ℕ, zero, suc, List, [], ◌∷◌, Bool, true, not, ◌&&◌, ◌||◌, Option, none, some, Text, same,
  is_empty, keep, if◌then◌else◌, ◌==◌,
}
use omp_bundler.Prelude.Results.{Result, ok, err, require}
use omp_bundler.Prelude.Rows.{changes, update}
use omp_bundler.Contracts.{OutboundEvent, is_terminal_body}
use omp_bundler.Idempotency.{
  Entry, StoreError, not_terminal, correlation_mismatch, conversation_mismatch, no_entries,
  event_mismatch, cannot_confirm, changed_meanwhile, is_pending, is_saved, is_sent, is_unsent,
  of_correlation, has_event, with_response, with_sent, with_failure,
}
use omp_bundler.Idempotency.Curate.{curate_error_text}

-- `let n = 0; for (entry of entries) { if (bad) throw error; if (test) n++; }`, where `bad` gives
-- the error.
unfoldable pub tally :
    (Entry → Option StoreError) → (Entry → Bool) → List Entry → Result StoreError ℕ
tally bad test [] = ok 0
tally bad test (r ∷ rs) = elim (bad r) [
  | some e ↦ err e
  | none ↦ elim (tally bad test rs) [ err e ↦ err e | ok n ↦ ok (if test r then suc n else n) ]
]

-- What a call does once it has counted the rows to change: nothing if there are none, and an error
-- if the statement changed another number of rows. With the error the table is the caller's: the
-- source has run the UPDATE then, but the count is right when no other process writes.
unfoldable pub change_counted :
    (Entry → Bool)
    → (Entry → Entry)
    → List Entry
    → Result StoreError ℕ
    → Result StoreError (List Entry)
change_counted p f rows (err e) = err e
change_counted p f rows (ok zero) = ok rows
change_counted p f rows (ok (suc n)) =
    if changes p rows == suc n then ok (update p f rows) else err changed_meanwhile

abbrev pub pending_of : Text → Text → Entry → Bool
pending_of a c r = of_correlation a c r && is_pending r.delivery_state

abbrev pub unsent_of : Text → Text → Entry → Bool
unsent_of a c r = of_correlation a c r && is_unsent r.delivery_state

abbrev pub saved_of : Text → Text → Entry → Bool
saved_of a c r = of_correlation a c r && is_saved r.delivery_state

-- Why a row cannot be part of a correlation that saves the event.
abbrev pub unsavable : OutboundEvent → Entry → Option StoreError
unsavable event r =
    if same r.conversation_key event.conversation_key
    then (if is_pending r.delivery_state || has_event r.response event.event_id
        then none
        else some event_mismatch)
    else some conversation_mismatch

-- Why the delivery of the event cannot be recorded on a row.
abbrev pub unconfirmable : Text → Entry → Option StoreError
unconfirmable event_id r =
    if has_event r.response event_id && not (is_pending r.delivery_state)
    then none
    else some cannot_confirm

-- `ORDER BY created_at, message_id`
abbrev pub by_age : List (Entry → Text)
by_age = (λ r. r.created_at) ∷ (λ r. r.message_id) ∷ []

module _ (collate : Text → Text → Bool) where
  -- `ORDER BY created_at, …`, by the keys of a row in order.
  abbrev pub before_by : List (Entry → Text) → Entry → Entry → Bool
  before_by [] r s = true
  before_by (k ∷ ks) r s =
      let rest = before_by ks r s in if same (k r) (k s) then rest else collate (k r) (k s)

  unfoldable pub place : List (Entry → Text) → Entry → List Entry → List Entry
  place ks r [] = r ∷ []
  place ks r (s ∷ ss) =
      let rest = place ks r ss in if before_by ks r s then r ∷ s ∷ ss else s ∷ rest

  unfoldable pub order_by : List (Entry → Text) → List Entry → List Entry
  unfolding place
  order_by ks [] = []
  order_by ks (r ∷ rs) = place ks r (order_by ks rs)

  unfoldable pub get_entries_by_correlation : List Entry → Text → Text → List Entry
  unfolding order_by
  get_entries_by_correlation rows a c = order_by by_age (keep (of_correlation a c) rows)

  unfoldable pub list_saved_responses : List Entry → List Entry
  unfolding order_by
  list_saved_responses rows =
      order_by
        ((λ r. r.created_at)
          ∷ (λ r. r.adapter_id)
          ∷ (λ r. r.correlation_id)
          ∷ (λ r. r.message_id)
          ∷ [])
        (keep (λ r. is_saved r.delivery_state) rows)

  unfoldable pub save_response_for_correlation :
      List Entry → Text → Text → OutboundEvent → Text → Result StoreError (List Entry)
  unfolding tally change_counted get_entries_by_correlation
  save_response_for_correlation rows a c event ts =
      let entries = get_entries_by_correlation rows a c in
      require (is_terminal_body event.body) not_terminal (
        require (same event.correlation_id c) correlation_mismatch (
          require (not (is_empty entries)) no_entries (
            change_counted (pending_of a c) (with_response event ts) rows
              (tally (unsavable event) (λ r. is_pending r.delivery_state) entries))))

  unfoldable pub mark_correlation_sent :
      List Entry → Text → Text → Text → Text → Result StoreError (List Entry)
  unfolding tally change_counted get_entries_by_correlation
  mark_correlation_sent rows a c event_id ts = change_counted (unsent_of a c) (with_sent ts) rows (
      tally (unconfirmable event_id) (λ r. not (is_sent r.delivery_state))
        (get_entries_by_correlation rows a c))

  unfoldable pub mark_correlation_failed :
      List Entry → Text → Text → Text → Option Text → Text → Result StoreError (List Entry)
  unfolding tally change_counted get_entries_by_correlation
  mark_correlation_failed rows a c event_id reason ts =
      change_counted (saved_of a c) (with_failure (curate_error_text reason) ts) rows (
        tally (unconfirmable event_id) (λ r. is_saved r.delivery_state)
          (get_entries_by_correlation rows a c))
