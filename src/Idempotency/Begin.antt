-- ===== src/Idempotency/Begin.antt =====
-- packages/core/src/idempotency-store.ts: `beginInbound`, `discardPendingInbound` and the reads of
-- one row. `payload_hash` is `canonicalPayloadHash`; the caller's clock and the random id are
-- arguments. `seen` is the table that the first read of `beginInbound` sees and `rows` the one at
-- its INSERT: another process may write between the two.
use omp_bundler.Prelude.{
  List, [], ◌∷◌, ◌++◌, Bool, false, ◌&&◌, Option, none, some, Text, same, is_empty, if◌then◌else◌,
  any, not, ◌==◌,
}
use omp_bundler.Prelude.Results.{Result, ok, err, require}
use omp_bundler.Prelude.Rows.{select, changes, delete}
use omp_bundler.Contracts.{InboundMessage, OutboundEvent}
use omp_bundler.Idempotency.{
  IngestState, DeliveryState, saved, sent, failed, Entry, BeginResult, created, in_flight,
  response_saved, already_sent, delivery_failed, StoreError, adapter_id_required,
  message_id_required, correlation_id_empty, conflict, constraint_violated, no_entry, wrong_state,
  is_pending, is_unsent, is_ingesting, is_null, at,
}

unfoldable pub get_raw : List Entry → Text → Text → Option Entry
get_raw rows a m = select (at a m) rows

abbrev pub or_empty : Option Text → Text
or_empty none = []
or_empty (some t) = t

unfoldable pub classify : DeliveryState → Entry → BeginResult
classify sent r = already_sent r.correlation_id
classify saved r = response_saved r.correlation_id r.response
classify failed r = delivery_failed r.correlation_id r.response (or_empty r.error_text)
classify DeliveryState.pending r = in_flight r.correlation_id

unfoldable pub classify_existing : Entry → BeginResult
unfolding classify
classify_existing r = classify r.delivery_state r

abbrev pub fresh_entry : Text → InboundMessage → Text → Text → Text → Entry
fresh_entry a m correlation_id hash ts = record {
  adapter_id = a;
  message_id = m.message_id;
  conversation_key = m.conversation_key;
  correlation_id = correlation_id;
  payload_hash = hash;
  ingest_state = IngestState.pending;
  delivery_state = DeliveryState.pending;
  response = none;
  error_text = none;
  created_at = ts;
  updated_at = ts;
}

-- INSERT, refused by the primary key.
abbrev pub insert : Entry → List Entry → Option (List Entry)
insert r rows = if any (at r.adapter_id r.message_id) rows then none else some (rows ++ r ∷ [])

-- What is answered for a row that is there.
abbrev pub replay : Text → Entry → Result StoreError BeginResult
replay hash r =
    if same r.payload_hash hash
    then ok (classify_existing r)
    else err (conflict hash r.payload_hash)

abbrev pub with_rows :
    List Entry → Result StoreError BeginResult → Result StoreError (List Entry × BeginResult)
with_rows rows (ok result) = ok (rows, result)
with_rows rows (err e) = err e

abbrev pub or_fresh : Option Text → Text → Text
or_fresh none fresh = fresh
or_fresh (some c) fresh = c

abbrev pub is_blank : Option Text → Bool
is_blank none = false
is_blank (some c) = is_empty c

-- A row was inserted between the read and the INSERT.
raced : List Entry → Text → Option Entry → Result StoreError (List Entry × BeginResult)
raced rows hash none = err constraint_violated
raced rows hash (some r) = with_rows rows (replay hash r)

inserted :
    List Entry
    → Text
    → Text
    → Text
    → Text
    → Option (List Entry)
    → Result StoreError (List Entry × BeginResult)
unfolding raced get_raw
inserted rows a m hash correlation_id (some rows') = ok (rows', created correlation_id)
inserted rows a m hash correlation_id none = raced rows hash (get_raw rows a m)

unfoldable pub begin_unseen :
    List Entry
    → Text
    → InboundMessage
    → Text
    → Text
    → Text
    → Option Entry
    → Result StoreError (List Entry × BeginResult)
unfolding inserted
begin_unseen rows a m hash correlation_id ts none =
    inserted rows a m.message_id hash correlation_id
      (insert (fresh_entry a m correlation_id hash ts) rows)
begin_unseen rows a m hash correlation_id ts (some r) = with_rows rows (replay hash r)

module _ (payload_hash : InboundMessage → Text) where
  unfoldable pub begin_inbound :
      List Entry
      → List Entry
      → Text
      → InboundMessage
      → Option Text
      → Text
      → Text
      → Result StoreError (List Entry × BeginResult)
  unfolding begin_unseen get_raw
  begin_inbound seen rows a m correlation_id fresh ts =
      require (not (is_empty a)) adapter_id_required (
        require (not (is_empty m.message_id)) message_id_required (
          require (not (is_blank correlation_id)) correlation_id_empty (
            begin_unseen rows a m (payload_hash m) (or_fresh correlation_id fresh) ts
              (get_raw seen a m.message_id))))

-- After a statement that changed no row: whether the row is absent or in another state.
unfoldable pub row_error : List Entry → Text → Text → StoreError
unfolding get_raw
row_error rows a m = if is_null (get_raw rows a m) then no_entry else wrong_state

-- The WHERE clause of `discardPendingInbound`.
abbrev pub discardable : Text → Text → Entry → Bool
discardable a m r =
    at a m r && (is_ingesting r.ingest_state && (is_pending r.delivery_state && is_null r.response))

unfoldable pub discard_pending_inbound : List Entry → Text → Text → Result StoreError (List Entry)
unfolding row_error
discard_pending_inbound rows a m =
    if changes (discardable a m) rows == 0
    then err (row_error rows a m)
    else ok (delete (discardable a m) rows)

unfoldable pub get_entry : List Entry → Text → Text → Option Entry
unfolding get_raw
get_entry rows a m = get_raw rows a m

saved_response : Option Entry → Option OutboundEvent
saved_response none = none
saved_response (some r) = if is_unsent r.delivery_state then r.response else none

unfoldable pub get_saved_response : List Entry → Text → Text → Option OutboundEvent
unfolding get_raw saved_response
get_saved_response rows a m = saved_response (get_raw rows a m)
