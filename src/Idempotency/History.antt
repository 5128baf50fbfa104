-- ===== src/Idempotency/History.antt =====
-- Histories of writes to the idempotency table. A call that throws leaves the table as it was.
use omp_bundler.Prelude.{List, [], ◌∷◌, Bool, Option, Text}
use omp_bundler.Prelude.Results.{Result, ok, err}
use omp_bundler.Contracts.{InboundMessage, OutboundEvent}
use omp_bundler.Idempotency.{Entry, StoreError, BeginResult}
use omp_bundler.Idempotency.Begin.{begin_inbound, discard_pending_inbound}
use omp_bundler.Idempotency.Transitions.{
  mark_ingest_complete, save_response, mark_sent, mark_failed,
}
use omp_bundler.Idempotency.Correlation.{
  save_response_for_correlation, mark_correlation_sent, mark_correlation_failed,
}

pub data Write : Type 0 where
  -- With the rows that the read of `beginInbound` saw.
  begins : List Entry → Text → InboundMessage → Option Text → Text → Text → Write
  discards : Text → Text → Write
  completes_ingest : Text → Text → Text → Write
  saves : Text → Text → OutboundEvent → Text → Write
  sends : Text → Text → Text → Write
  fails : Text → Text → Option Text → Text → Write
  saves_correlation : Text → Text → OutboundEvent → Text → Write
  sends_correlation : Text → Text → Text → Text → Write
  fails_correlation : Text → Text → Text → Option Text → Text → Write

abbrev pub rows_of : List Entry → Result StoreError (List Entry) → List Entry
rows_of rows (ok rows') = rows'
rows_of rows (err e) = rows

abbrev pub begun : List Entry → Result StoreError (List Entry × BeginResult) → List Entry
begun rows (ok (rows', result)) = rows'
begun rows (err e) = rows

module _ (payload_hash : InboundMessage → Text) (collate : Text → Text → Bool) where
  unfoldable pub write : List Entry → Write → List Entry
  write rows (begins seen a m correlation fresh ts) =
      begun rows (begin_inbound payload_hash seen rows a m correlation fresh ts)
  write rows (discards a m) = rows_of rows (discard_pending_inbound rows a m)
  write rows (completes_ingest a m ts) = rows_of rows (mark_ingest_complete rows a m ts)
  write rows (saves a m event ts) = rows_of rows (save_response rows a m event ts)
  write rows (sends a m ts) = rows_of rows (mark_sent rows a m ts)
  write rows (fails a m reason ts) = rows_of rows (mark_failed rows a m reason ts)
  write rows (saves_correlation a c event ts) =
      rows_of rows (save_response_for_correlation collate rows a c event ts)
  write rows (sends_correlation a c event_id ts) =
      rows_of rows (mark_correlation_sent collate rows a c event_id ts)
  write rows (fails_correlation a c event_id reason ts) =
      rows_of rows (mark_correlation_failed collate rows a c event_id reason ts)

  unfoldable pub writes : List Entry → List Write → List Entry
  writes rows [] = rows
  writes rows (w ∷ ws) = writes (write rows w) ws
