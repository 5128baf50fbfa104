-- ===== src/Idempotency/Transitions.antt =====
-- packages/core/src/idempotency-store.ts: the transitions of one row. Each is an UPDATE guarded by
-- the expected prior state, and an error when it changed no row.
use omp_bundler.Prelude.{List, Bool, ◌&&◌, Option, none, some, Text, same, if◌then◌else◌, ◌==◌}
use omp_bundler.Prelude.Results.{Result, ok, err, require}
use omp_bundler.Prelude.Rows.{changes, update}
use omp_bundler.Contracts.{OutboundEvent, is_terminal_body}
use omp_bundler.Idempotency.{
  completed, Entry, StoreError, no_entry, wrong_state, not_terminal, correlation_mismatch,
  conversation_mismatch, is_pending, is_saved, is_unsent, is_ingesting, at, with_response,
  with_sent, with_failure,
}
use omp_bundler.Idempotency.Curate.{curate_error_text}
use omp_bundler.Idempotency.Begin.{get_raw, row_error}

-- `UPDATE … WHERE`, and an error when it changed nothing.
unfoldable pub guarded :
    (Entry → Bool) → (Entry → Entry) → StoreError → List Entry → Result StoreError (List Entry)
guarded p f e rows = if changes p rows == 0 then err e else ok (update p f rows)

abbrev pub ingesting_at : Text → Text → Entry → Bool
ingesting_at a m r = at a m r && is_ingesting r.ingest_state

abbrev pub with_ingested : Text → Entry → Entry
with_ingested ts r = record r { ingest_state = completed; updated_at = ts }

unfoldable pub mark_ingest_complete :
    List Entry → Text → Text → Text → Result StoreError (List Entry)
unfolding guarded row_error
mark_ingest_complete rows a m ts =
    guarded (ingesting_at a m) (with_ingested ts) (row_error rows a m) rows

abbrev pub pending_at : Text → Text → Entry → Bool
pending_at a m r = at a m r && is_pending r.delivery_state

save_checked :
    List Entry → Text → Text → OutboundEvent → Text → Option Entry → Result StoreError (List Entry)
unfolding guarded
save_checked rows a m event ts none = err no_entry
save_checked rows a m event ts (some r) =
    require (same r.correlation_id event.correlation_id) correlation_mismatch (
      require (same r.conversation_key event.conversation_key) conversation_mismatch
        (guarded (pending_at a m) (with_response event ts) wrong_state rows))

unfoldable pub save_response :
    List Entry → Text → Text → OutboundEvent → Text → Result StoreError (List Entry)
unfolding save_checked get_raw
save_response rows a m event ts =
    require (is_terminal_body event.body) not_terminal
      (save_checked rows a m event ts (get_raw rows a m))

abbrev pub unsent_at : Text → Text → Entry → Bool
unsent_at a m r = at a m r && is_unsent r.delivery_state

unfoldable pub mark_sent : List Entry → Text → Text → Text → Result StoreError (List Entry)
unfolding guarded row_error
mark_sent rows a m ts = guarded (unsent_at a m) (with_sent ts) (row_error rows a m) rows

abbrev pub saved_at : Text → Text → Entry → Bool
saved_at a m r = at a m r && is_saved r.delivery_state

unfoldable pub mark_failed :
    List Entry → Text → Text → Option Text → Text → Result StoreError (List Entry)
unfolding guarded row_error
mark_failed rows a m reason ts =
    guarded (saved_at a m) (with_failure (curate_error_text reason) ts) (row_error rows a m) rows
