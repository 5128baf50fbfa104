-- ===== src/Idempotency/Rewritten.antt =====
-- The writes to all rows of a correlation, row by row: which rows they leave and what they write.
use omp_bundler.Prelude.{
  ◌≡◌, ◌≢◌, refl, inl, inr, List, [], ◌∷◌, Bool, true, false, not, ◌&&◌, Option, none, some, Text,
  same, is_empty, All, arith, Bool-cases,
}
use omp_bundler.Prelude.Results.{Result, ok, err, require}
use omp_bundler.Prelude.Rows.{updated, update}
use omp_bundler.Contracts.{OutboundEvent, is_terminal_body}
use omp_bundler.Idempotency.{
  Entry, StoreError, not_terminal, correlation_mismatch, no_entries, changed_meanwhile, completed,
  saved, failed, is_pending, is_saved, of_correlation, has_event, with_response, with_failure,
}
use omp_bundler.Idempotency.Curate.{curate_error_text}
use omp_bundler.Idempotency.Correlation.{
  tally, change_counted, pending_of, unsavable, unconfirmable, get_entries_by_correlation,
  save_response_for_correlation, mark_correlation_failed,
}
use omp_bundler.Idempotency.Siblings.{swept, tally_error, unsavable_error, unconfirmable_error}

-- The rows of two tables, in order and of equal number, are related.
abbrev pub Pairwise : (Entry → Entry → Type 0) → List Entry → List Entry → Type 0
Pairwise R [] [] = Unit
Pairwise R [] (s ∷ ss) = ⊥
Pairwise R (r ∷ rs) [] = ⊥
Pairwise R (r ∷ rs) (s ∷ ss) = R r s × Pairwise R rs ss

-- The outcome of a write: an error other than that of the count of changed rows, or a table whose
-- rows are each related to the row before.
abbrev pub Rewrites :
    (Entry → Entry → Type 0) → List Entry → Result StoreError (List Entry) → Type 0
Rewrites R rows (err e) = e ≢ changed_meanwhile
Rewrites R rows (ok rows') = Pairwise R rows rows'

-- The columns that no write to a correlation changes.
abbrev pub SameIdentity : Entry → Entry → Type 0
SameIdentity r r' =
    (r'.adapter_id ≡ r.adapter_id)
    × (r'.message_id ≡ r.message_id)
    × (r'.conversation_key ≡ r.conversation_key)
    × (r'.correlation_id ≡ r.correlation_id)
    × (r'.payload_hash ≡ r.payload_hash)
    × (r'.created_at ≡ r.created_at)

-- What saving an event for a correlation makes of a row: a row of another correlation stays, as does
-- one that already has an event of that id, and a pending row gets the very event, as saved.
pub data SavesRow : Text → Text → OutboundEvent → Entry → Entry → Type 0 where
  elsewhere :
      {a c : Text} {event : OutboundEvent} {r : Entry}
      → of_correlation a c r ≡ false
      → SavesRow a c event r r
  kept :
      {a c : Text} {event : OutboundEvent} {r : Entry}
      → of_correlation a c r ≡ true
      → is_pending r.delivery_state ≡ false
      → has_event r.response event.event_id ≡ true
      → SavesRow a c event r r
  written :
      {a c : Text} {event : OutboundEvent} {r r' : Entry}
      → of_correlation a c r ≡ true
      → is_pending r.delivery_state ≡ true
      → r'.response ≡ some event
      → r'.delivery_state ≡ saved
      → r'.ingest_state ≡ completed
      → r'.error_text ≡ none
      → SameIdentity r r'
      → SavesRow a c event r r'

-- What recording that the delivery of an event failed makes of a row: a saved row with that event
-- becomes failed, with the reason, and keeps its response; a row past that stays.
pub data FailsRow : Text → Text → Text → Option Text → Entry → Entry → Type 0 where
  elsewhere :
      {a c event_id : Text} {reason : Option Text} {r : Entry}
      → of_correlation a c r ≡ false
      → FailsRow a c event_id reason r r
  kept :
      {a c event_id : Text} {reason : Option Text} {r : Entry}
      → of_correlation a c r ≡ true
      → is_saved r.delivery_state ≡ false
      → is_pending r.delivery_state ≡ false
      → has_event r.response event_id ≡ true
      → FailsRow a c event_id reason r r
  written :
      {a c event_id : Text} {reason : Option Text} {r r' : Entry}
      → of_correlation a c r ≡ true
      → is_saved r.delivery_state ≡ true
      → has_event r.response event_id ≡ true
      → r'.delivery_state ≡ failed
      → r'.error_text ≡ some (curate_error_text reason)
      → r'.response ≡ r.response
      → r'.ingest_state ≡ r.ingest_state
      → SameIdentity r r'
      → FailsRow a c event_id reason r r'

require-Rewrites :
    (R : Entry → Entry → Type 0) (rows : List Entry) (test : Bool) (e : StoreError)
    (rest : Result StoreError (List Entry))
    → e ≢ changed_meanwhile
    → Rewrites R rows rest
    → Rewrites R rows (require test e rest)
require-Rewrites R rows true e rest n h = h
require-Rewrites R rows false e rest n h = n

-- An update relates each row to the row before if it does so for each row that can occur.
module _ (a c : Text) (R : Entry → Entry → Type 0) (bad : Entry → Option StoreError)
    (q : Entry → Bool) (f : Entry → Entry)
    (out : (r : Entry) → of_correlation a c r ≡ false → R r r)
    (on : (r : Entry) → of_correlation a c r ≡ true → bad r ≡ none → q r ≡ true → R r (f r))
    (off : (r : Entry) → of_correlation a c r ≡ true → bad r ≡ none → q r ≡ false → R r r) where
  related_row :
      (r : Entry)
      → (of_correlation a c r ≡ true → bad r ≡ none)
      → R r (updated (λ r. of_correlation a c r && q r) f r)
  related_row r good = elim (Bool-cases (of_correlation a c r)) [
    | inr miss ↦ rw miss (out r miss)
    | inl hit ↦ elim (Bool-cases (q r)) [
      | inl yes' ↦ rw (hit, yes') (on r hit (good hit) yes')
      | inr no' ↦ rw (hit, no') (off r hit (good hit) no')
    ]
  ]

  related_rows :
      (rows : List Entry)
      → All (λ r. of_correlation a c r ≡ true → bad r ≡ none) rows
      → Pairwise R rows (update (λ r. of_correlation a c r && q r) f rows)
  related_rows [] h = tt
  related_rows (r ∷ rows) h = (related_row r h.0, related_rows rows h.1)

savable_event :
    (event : OutboundEvent) (r : Entry)
    → unsavable event r ≡ none
    → is_pending r.delivery_state ≡ false
    → has_event r.response event.event_id ≡ true
savable_event event r g p = ground arith

confirmable_event :
    (event_id : Text) (r : Entry)
    → unconfirmable event_id r ≡ none
    → (has_event r.response event_id ≡ true) × (is_pending r.delivery_state ≡ false)
confirmable_event event_id r g = ground arith

module _ (collate : Text → Text → Bool) (rows : List Entry) (a c : Text) where
  -- Saving an event for a correlation never fails for its count of changed rows. When it succeeds,
  -- each pending row of the correlation holds that very event, saved and completed without an error
  -- text, each other row of it already had an event of that id and stays as it was, and so does each
  -- row of another correlation.
  pub save_response_for_correlation-Rewrites :
      (event : OutboundEvent) (ts : Text)
      → Rewrites (SavesRow a c event) rows (save_response_for_correlation collate rows a c event ts)
  unfolding save_response_for_correlation
  save_response_for_correlation-Rewrites event ts =
      require-Rewrites _ rows (is_terminal_body event.body) not_terminal _ (λ e. cc)
        (require-Rewrites _ rows (same event.correlation_id c) correlation_mismatch _ (λ e. cc)
          (require-Rewrites _ rows (not (is_empty (get_entries_by_correlation collate rows a c)))
            no_entries _ (λ e. cc) outcome))
    where
      outcome : Rewrites (SavesRow a c event) rows (
          change_counted (pending_of a c) (with_response event ts) rows (
            tally
              (unsavable event)
              (λ r. is_pending r.delivery_state)
              (get_entries_by_correlation collate rows a c)))
      outcome =
          elim (swept collate rows a c (unsavable event) (λ r. is_pending r.delivery_state)
            (λ r. is_pending r.delivery_state) (with_response event ts) (λ r g. refl)) [
              | inl (e, t) ↦ rw (t, change_counted) (tally_error _ _ _ e (unsavable_error event) t)
              | inr (done, good) ↦ rw done (
                  related_rows a c (SavesRow a c event) (unsavable event)
                    (λ r. is_pending r.delivery_state) (with_response event ts)
                    (λ r miss. elsewhere miss)
                    (λ r hit g u.
                      written hit u refl refl refl refl (refl, refl, refl, refl, refl, refl))
                    (λ r hit g u. kept hit u (savable_event event r g u)) rows good)
            ]

  -- Recording that the delivery of a correlation's event failed never fails for its count of changed
  -- rows. When it succeeds, each saved row of the correlation has an event of that id and is now
  -- failed, with the curated reason as its error text and its response kept, each other row of it has
  -- an event of that id and stays as it was, and so does each row of another correlation.
  pub mark_correlation_failed-Rewrites :
      (event_id : Text) (reason : Option Text) (ts : Text)
      → Rewrites
          (FailsRow a c event_id reason)
          rows
          (mark_correlation_failed collate rows a c event_id reason ts)
  unfolding mark_correlation_failed
  mark_correlation_failed-Rewrites event_id reason ts =
      elim (swept collate rows a c (unconfirmable event_id) (λ r. is_saved r.delivery_state)
        (λ r. is_saved r.delivery_state) (with_failure (curate_error_text reason) ts)
        (λ r g. refl)) [
          | inl (e, t) ↦
              rw (t, change_counted) (tally_error _ _ _ e (unconfirmable_error event_id) t)
          | inr (done, good) ↦ rw done (
              related_rows a c (FailsRow a c event_id reason) (unconfirmable event_id)
                (λ r. is_saved r.delivery_state) (with_failure (curate_error_text reason) ts)
                (λ r miss. elsewhere miss)
                (λ r hit g u.
                  written hit u (confirmable_event event_id r g).0 refl refl refl refl
                    (refl, refl, refl, refl, refl, refl))
                (λ r hit g u. let (e, p) = confirmable_event event_id r g in kept hit u p e) rows
                good)
        ]
