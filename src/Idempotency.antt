-- ===== src/Idempotency.antt =====
-- packages/core/src/idempotency-store.ts: the deduplication of inbound messages and the delivery of
-- terminal responses. The table is the list of its rows; a statement is the function of the rows
-- that its SQL text says. A response is kept as the event itself, not as its JSON text.
pub mod Curate
pub mod Begin
pub mod Transitions
pub mod Correlation
pub mod History
pub mod Effects
pub mod Invariant
pub mod Lifecycle
pub mod Replay
pub mod Counting
pub mod Siblings
pub mod Rewritten
mod Tests
use omp_bundler.Prelude.{List, Bool, true, false, ◌&&◌, ◌||◌, Option, none, some, Text, same}
use omp_bundler.Contracts.{OutboundEvent}

pub data IngestState : Type 0 where
  pending completed : IngestState

pub data DeliveryState : Type 0 where
  pending saved sent failed : DeliveryState

-- `IdempotencyEntry`, a row of the table.
pub record Entry : Type 0 where
  pub adapter_id : Text
  pub message_id : Text
  pub conversation_key : Text
  pub correlation_id : Text
  pub payload_hash : Text
  pub ingest_state : IngestState
  pub delivery_state : DeliveryState
  pub response : Option OutboundEvent
  pub error_text : Option Text
  pub created_at : Text
  pub updated_at : Text

pub data BeginResult : Type 0 where
  created : Text → BeginResult
  in_flight : Text → BeginResult
  response_saved : Text → Option OutboundEvent → BeginResult
  already_sent : Text → BeginResult
  delivery_failed : Text → Option OutboundEvent → Text → BeginResult

pub data StoreError : Type 0 where
  adapter_id_required message_id_required correlation_id_empty : StoreError
  -- `IdempotencyConflictError`, with the incoming and the existing hash.
  conflict : Text → Text → StoreError
  -- SQLite's refusal of a second row with one key, thrown on.
  constraint_violated : StoreError
  -- `InvalidStateTransitionError`, for a key without a row and for a row in another state.
  no_entry wrong_state : StoreError
  not_terminal correlation_mismatch conversation_mismatch : StoreError
  no_entries event_mismatch cannot_confirm changed_meanwhile : StoreError

abbrev pub is_pending : DeliveryState → Bool
is_pending DeliveryState.pending = true
is_pending _ = false

abbrev pub is_saved : DeliveryState → Bool
is_saved saved = true
is_saved _ = false

abbrev pub is_sent : DeliveryState → Bool
is_sent sent = true
is_sent _ = false

-- `delivery_state IN ('saved', 'failed')`
abbrev pub is_unsent : DeliveryState → Bool
is_unsent saved = true
is_unsent failed = true
is_unsent _ = false

abbrev pub is_ingesting : IngestState → Bool
is_ingesting IngestState.pending = true
is_ingesting completed = false

abbrev pub is_null {ℓ} : {A : Type ℓ} → Option A → Bool
is_null none = true
is_null (some a) = false

-- `adapter_id = ? AND message_id = ?`
abbrev pub at : Text → Text → Entry → Bool
at a m r = same r.adapter_id a && same r.message_id m

-- `adapter_id = ? AND correlation_id = ?`
abbrev pub of_correlation : Text → Text → Entry → Bool
of_correlation a c r = same r.adapter_id a && same r.correlation_id c

-- `response?.eventId === eventId`
abbrev pub has_event : Option OutboundEvent → Text → Bool
has_event none e = false
has_event (some event) e = same event.event_id e

-- The update of a row that saves a response.
abbrev pub with_response : OutboundEvent → Text → Entry → Entry
with_response event ts r = record r {
  ingest_state = completed;
  delivery_state = saved;
  response = some event;
  error_text = none;
  updated_at = ts;
}

abbrev pub with_sent : Text → Entry → Entry
with_sent ts r = record r { delivery_state = sent; error_text = none; updated_at = ts }

abbrev pub with_failure : Text → Text → Entry → Entry
with_failure reason ts r = record r {
  delivery_state = failed;
  error_text = some reason;
  updated_at = ts;
}
