-- ===== src/Idempotency/Effects.antt =====
-- The effect of each write on the table, as one relation that the proofs go by.
use omp_bundler.Prelude.{
  ℕ, zero, suc, ◌≤◌, ◌≡◌, refl, inl, inr, List, [], ◌∷◌, ◌++◌, Bool, true, false, ◌&&◌, not, Option,
  none, some, Text, same, is_empty, any, length, ◌==◌, arith, Bool-cases, Option-cases,
}
use omp_bundler.Prelude.Results.{Result, ok, err, require}
use omp_bundler.Prelude.Rows.{changes, update, delete}
use omp_bundler.Contracts.{InboundMessage, OutboundEvent, is_terminal_body}
use omp_bundler.Idempotency.{
  Entry, StoreError, BeginResult, is_pending, is_saved, is_unsent, at, of_correlation,
  with_response, with_sent, with_failure,
}
use omp_bundler.Idempotency.Curate.{curate_error_text, length-curate_error_text}
use omp_bundler.Idempotency.Begin.{
  fresh_entry, is_blank, begin_unseen, or_fresh, replay, with_rows, begin_inbound, discardable,
  discard_pending_inbound, get_raw,
}
use omp_bundler.Idempotency.Transitions.{
  guarded, ingesting_at, with_ingested, mark_ingest_complete, save_response, mark_sent, mark_failed,
}
use omp_bundler.Idempotency.Correlation.{
  change_counted, pending_of, get_entries_by_correlation, save_response_for_correlation,
  mark_correlation_sent, mark_correlation_failed,
}
use omp_bundler.Idempotency.History.{
  Write, begins, discards, completes_ingest, saves, sends, fails, saves_correlation,
  sends_correlation, fails_correlation, rows_of, begun, write,
}

pub data Effect (rows : List Entry) : List Entry → Type 0 where
  nothing : Effect rows rows
  inserts :
      (a : Text) (m : InboundMessage) (correlation hash ts : Text)
      → any (at a m.message_id) rows ≡ false
      → Effect rows (rows ++ fresh_entry a m correlation hash ts ∷ [])
  deletes : (a m : Text) → Effect rows (delete (discardable a m) rows)
  ingests : (a m ts : Text) → Effect rows (update (ingesting_at a m) (with_ingested ts) rows)
  stores :
      (p : Entry → Bool) (event : OutboundEvent) (ts : Text)
      → is_terminal_body event.body ≡ true
      → ((r : Entry) → p r ≡ true → is_pending r.delivery_state ≡ true)
      → Effect rows (update p (with_response event ts) rows)
  confirms :
      (p : Entry → Bool) (ts : Text)
      → ((r : Entry) → p r ≡ true → is_unsent r.delivery_state ≡ true)
      → Effect rows (update p (with_sent ts) rows)
  rejects :
      (p : Entry → Bool) (reason ts : Text)
      → length reason ≤ 2000
      → ((r : Entry) → p r ≡ true → is_saved r.delivery_state ≡ true)
      → Effect rows (update p (with_failure reason ts) rows)

and_right : (a b : Bool) → (a && b) ≡ true → b ≡ true
and_right a b h = ground arith

guarded-Effect :
    (p : Entry → Bool) (f : Entry → Entry) (e : StoreError) (rows : List Entry)
    → Effect rows (update p f rows)
    → Effect rows (rows_of rows (guarded p f e rows))
unfolding guarded
guarded-Effect p f e rows h = elim (Bool-cases (changes p rows == 0)) [
  | inl none_changed ↦ rw none_changed nothing
  | inr some_changed ↦ rw some_changed h
]

require-Effect :
    (test : Bool) (e : StoreError) (rows : List Entry) (rest : Result StoreError (List Entry))
    → (test ≡ true → Effect rows (rows_of rows rest))
    → Effect rows (rows_of rows (require test e rest))
require-Effect true e rows rest h = h refl
require-Effect false e rows rest h = nothing

counted-Effect :
    (p : Entry → Bool) (f : Entry → Entry) (rows : List Entry) (n : Result StoreError ℕ)
    → Effect rows (update p f rows)
    → Effect rows (rows_of rows (change_counted p f rows n))
unfolding change_counted
counted-Effect p f rows (err e) h = nothing
counted-Effect p f rows (ok zero) h = nothing
counted-Effect p f rows (ok (suc n)) h = elim (Bool-cases (changes p rows == suc n)) [
  | inl agree ↦ rw agree h
  | inr disagree ↦ rw disagree nothing
]

save_response-Effect :
    (rows : List Entry) (a m : Text) (event : OutboundEvent) (ts : Text)
    → Effect rows (rows_of rows (save_response rows a m event ts))
unfolding save_response
save_response-Effect rows a m event ts =
    require-Effect (is_terminal_body event.body) _ rows _ λ terminal.
      elim (Option-cases (get_raw rows a m)) [
        | inl e ↦ rw e nothing
        | inr (r, e) ↦ rw e (
            require-Effect (same r.correlation_id event.correlation_id) _ rows _ λ _.
              require-Effect (same r.conversation_key event.conversation_key) _ rows _ λ _.
                guarded-Effect _ _ _ rows
                  (stores _ event ts terminal (λ r h. and_right (at a m r) _ h)))
      ]

begun-with_rows :
    (rows : List Entry) (result : Result StoreError BeginResult)
    → begun rows (with_rows rows result) ≡ rows
begun-with_rows rows (ok result) = refl
begun-with_rows rows (err e) = refl

require-begun :
    (test : Bool) (e : StoreError) (rows : List Entry)
    (rest : Result StoreError (List Entry × BeginResult))
    → Effect rows (begun rows rest)
    → Effect rows (begun rows (require test e rest))
require-begun true e rows rest h = h
require-begun false e rows rest h = nothing

begin_unseen-Effect :
    (rows : List Entry) (a : Text) (m : InboundMessage) (hash correlation ts : Text)
    (found : Option Entry)
    → Effect rows (begun rows (begin_unseen rows a m hash correlation ts found))
unfolding begin_unseen
begin_unseen-Effect rows a m hash correlation ts (some r) =
    rw (begun-with_rows rows (replay hash r)) nothing
begin_unseen-Effect rows a m hash correlation ts none =
    elim (Bool-cases (any (at a m.message_id) rows)) [
      | inr absent ↦ rw absent (inserts a m correlation hash ts absent)
      | inl there ↦ rw there (elim (Option-cases (get_raw rows a m.message_id)) [
        | inl e ↦ rw e nothing
        | inr (r, e) ↦ rw e (rw (begun-with_rows rows (replay hash r)) nothing)
      ])
    ]

begin_inbound-Effect :
    (payload_hash : InboundMessage → Text) (seen rows : List Entry) (a : Text) (m : InboundMessage)
    (correlation : Option Text) (fresh ts : Text)
    → Effect rows (begun rows (begin_inbound payload_hash seen rows a m correlation fresh ts))
unfolding begin_inbound
begin_inbound-Effect payload_hash seen rows a m correlation fresh ts =
    require-begun (not (is_empty a)) _ rows _ (
      require-begun (not (is_empty m.message_id)) _ rows _ (
        require-begun (not (is_blank correlation)) _ rows _ (
          begin_unseen-Effect rows a m (payload_hash m) (or_fresh correlation fresh) ts
            (get_raw seen a m.message_id))))

discard-Effect :
    (rows : List Entry) (a m : Text) → Effect rows (rows_of rows (discard_pending_inbound rows a m))
unfolding discard_pending_inbound
discard-Effect rows a m = elim (Bool-cases (changes (discardable a m) rows == 0)) [
  | inl none_changed ↦ rw none_changed nothing
  | inr some_changed ↦ rw some_changed (deletes a m)
]

mark_ingest_complete-Effect :
    (rows : List Entry) (a m ts : Text)
    → Effect rows (rows_of rows (mark_ingest_complete rows a m ts))
unfolding mark_ingest_complete
mark_ingest_complete-Effect rows a m ts = guarded-Effect _ _ _ rows (ingests a m ts)

mark_sent-Effect :
    (rows : List Entry) (a m ts : Text) → Effect rows (rows_of rows (mark_sent rows a m ts))
unfolding mark_sent
mark_sent-Effect rows a m ts =
    guarded-Effect _ _ _ rows (confirms _ ts (λ r h. and_right (at a m r) _ h))

mark_failed-Effect :
    (rows : List Entry) (a m : Text) (reason : Option Text) (ts : Text)
    → Effect rows (rows_of rows (mark_failed rows a m reason ts))
unfolding mark_failed
mark_failed-Effect rows a m reason ts = guarded-Effect _ _ _ rows (
    rejects _ (curate_error_text reason) ts (length-curate_error_text reason)
      (λ r h. and_right (at a m r) _ h))

save_response_for_correlation-Effect :
    (collate : Text → Text → Bool) (rows : List Entry) (a c : Text) (event : OutboundEvent)
    (ts : Text)
    → Effect rows (rows_of rows (save_response_for_correlation collate rows a c event ts))
unfolding save_response_for_correlation
save_response_for_correlation-Effect collate rows a c event ts =
    require-Effect (is_terminal_body event.body) _ rows _ λ terminal.
      require-Effect (same event.correlation_id c) _ rows _ λ _.
        require-Effect (not (is_empty (get_entries_by_correlation collate rows a c))) _ rows _ λ _.
          counted-Effect (pending_of a c) (with_response event ts) rows _
            (stores _ event ts terminal (λ r h. and_right (of_correlation a c r) _ h))

mark_correlation_sent-Effect :
    (collate : Text → Text → Bool) (rows : List Entry) (a c event_id ts : Text)
    → Effect rows (rows_of rows (mark_correlation_sent collate rows a c event_id ts))
unfolding mark_correlation_sent
mark_correlation_sent-Effect collate rows a c event_id ts =
    counted-Effect _ _ rows _ (confirms _ ts (λ r h. and_right (of_correlation a c r) _ h))

mark_correlation_failed-Effect :
    (collate : Text → Text → Bool) (rows : List Entry) (a c event_id : Text) (reason : Option Text)
    (ts : Text)
    → Effect rows (rows_of rows (mark_correlation_failed collate rows a c event_id reason ts))
unfolding mark_correlation_failed
mark_correlation_failed-Effect collate rows a c event_id reason ts = counted-Effect _ _ rows _ (
    rejects _ (curate_error_text reason) ts (length-curate_error_text reason)
      (λ r h. and_right (of_correlation a c r) _ h))

-- Every write has one of the effects.
pub write-Effect :
    (payload_hash : InboundMessage → Text) (collate : Text → Text → Bool) (rows : List Entry)
    (w : Write)
    → Effect rows (write payload_hash collate rows w)
unfolding write
write-Effect payload_hash collate rows (begins seen a m correlation fresh ts) =
    begin_inbound-Effect payload_hash seen rows a m correlation fresh ts
write-Effect payload_hash collate rows (discards a m) = discard-Effect rows a m
write-Effect payload_hash collate rows (completes_ingest a m ts) =
    mark_ingest_complete-Effect rows a m ts
write-Effect payload_hash collate rows (saves a m event ts) = save_response-Effect rows a m event ts
write-Effect payload_hash collate rows (sends a m ts) = mark_sent-Effect rows a m ts
write-Effect payload_hash collate rows (fails a m reason ts) = mark_failed-Effect rows a m reason ts
write-Effect payload_hash collate rows (saves_correlation a c event ts) =
    save_response_for_correlation-Effect collate rows a c event ts
write-Effect payload_hash collate rows (sends_correlation a c event_id ts) =
    mark_correlation_sent-Effect collate rows a c event_id ts
write-Effect payload_hash collate rows (fails_correlation a c event_id reason ts) =
    mark_correlation_failed-Effect collate rows a c event_id reason ts
