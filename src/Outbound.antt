-- ===== src/Outbound.antt =====
-- packages/core/src/outbound-emitter.ts: the emitter of one correlation, its outbox and the chain of its
-- deliveries. A payload is kept as its event, and `encode` stands for JSON.stringify. The clock is read
-- once for each call.
pub mod Frames
pub mod Delivery
pub mod Machine
pub mod Covered
pub mod Recovery
pub mod Terminals
pub mod Once
pub mod Schedule
pub mod Lossless
mod Tests
use omp_bundler.Prelude.{
  ℕ, suc, ◌+◌, List, [], ◌∷◌, ◌++◌, Bool, true, false, not, ◌&&◌, ◌||◌, Option, none, some, Text,
  same, is_empty, any, ltb, leb, ◌==◌, if◌then◌else◌,
}
use omp_bundler.Prelude.Results.{Result, ok, err, require}
use omp_bundler.Prelude.Rows.{select}
use omp_bundler.Contracts.{
  OutboundEvent, EventBody, turn_started, turn_progress, turn_delta, turn_reply, presence_changed,
  turn_error, turn_cancelled, WorkspaceAttachment, TurnUsage, Presence, active, idle, offline,
  is_terminal_body,
}

pub data OutboxStatus : Type 0 where
  pending delivered permanent_failure : OutboxStatus

pub record OutboxRow : Type 0 where
  pub event_id : Text
  pub adapter_id : Text
  pub conversation_key : Text
  pub correlation_id : Text
  pub sequence : ℕ
  pub payload : OutboundEvent
  pub status : OutboxStatus
  pub attempts : ℕ
  pub last_error : Option Text
  pub created_at : Text
  pub updated_at : Text

-- The options, and what the emitter calls.
pub record Config : Type 0 where
  pub adapter_id : Text
  pub conversation_key : Text
  pub correlation_id : Text
  -- The URL of the adapter's target, if it has one.
  pub callback_url : Option Text
  pub retry_delays_ms : List ℕ
  pub progress_threshold_ms : ℕ
  -- The n-th random id, the text of a time, and that of an event.
  pub uuid : ℕ → Text
  pub iso : ℕ → Text
  pub encode : OutboundEvent → Text
  -- The hooks: whether the first returns, and what the others throw.
  pub on_durable_prepared : OutboundEvent → Bool
  pub on_durable_delivered : OutboundEvent → Option Text
  pub on_durable_failed : OutboundEvent → Option Text

-- Who waits for a delivery: nobody, a call of `resumePending` with its number, which waits for its last
-- one, or a retry of a failed event.
pub data Batch : Type 0 where
  live : Batch
  resumed : ℕ → Bool → Batch
  retried : Batch

-- An operation on the delivery chain: an event with the number of POSTs already made, a POST of an event
-- that is not kept, or a rejection.
pub data Job : Type 0 where
  delivers : OutboundEvent → ℕ → Batch → Job
  best_effort : OutboundEvent → Job
  rejects : Job

pub record Emitter : Type 0 where
  pub rows : List OutboxRow
  pub sequence : ℕ
  pub reply_text : Text
  pub reply_attachments : List WorkspaceAttachment
  pub reply_usage : Option TurnUsage
  pub terminal_emitted : Bool
  pub stay_silent : Bool
  pub started_emitted : Bool
  pub presence : Option Presence
  pub last_progress_at : ℕ
  pub pending_progress : Option Text
  pub closed : Bool
  pub chain : List Job
  -- The number of the call of `resumePending` that is under way, and how many there were.
  pub resuming : Option ℕ
  pub resumes : ℕ
  -- The failed events that are being retried.
  pub retrying : List Text
  -- How many random ids were drawn.
  pub drawn : ℕ

pub data EmitterError : Type 0 where
  conflict : Text → EmitterError
  no_failure : Text → EmitterError
  not_prepared : EmitterError
  adapter_id_required conversation_key_required correlation_id_required : EmitterError

-- A call that may throw, with the state that it leaves.
pub record Outcome : Type 0 where
  pub state : Emitter
  pub thrown : Option EmitterError

abbrev pub done : Emitter → Outcome
done s = record { state = s; thrown = none }

abbrev pub throw : EmitterError → Emitter → Outcome
throw e s = record { state = s; thrown = some e }

unfoldable pub and_then : Outcome → (Emitter → Outcome) → Outcome
and_then o f = elim o.thrown [ none ↦ f o.state | some e ↦ o ]

abbrev pub enqueue : Job → Emitter → Emitter
enqueue job s = record s { chain = s.chain ++ job ∷ [] }

abbrev pub has_id : Text → OutboxRow → Bool
has_id id r = same r.event_id id

abbrev pub zero_usage : TurnUsage
zero_usage = record { input = 0; output = 0; cache_read = 0; cache_write = 0; cost_usd = b'0' ∷ [] }

abbrev pub same_presence : Presence → Option Presence → Bool
same_presence active (some active) = true
same_presence idle (some idle) = true
same_presence offline (some offline) = true
same_presence p q = false

module _ (c : Config) where
  abbrev pub is_own : OutboxRow → Bool
  is_own r = same r.adapter_id c.adapter_id && same r.correlation_id c.correlation_id

  abbrev pub new_row : OutboundEvent → OutboxRow
  new_row e = record {
    event_id = e.event_id;
    adapter_id = c.adapter_id;
    conversation_key = c.conversation_key;
    correlation_id = c.correlation_id;
    sequence = e.sequence;
    payload = e;
    status = pending;
    attempts = 0;
    last_error = none;
    created_at = e.occurred_at;
    updated_at = e.occurred_at;
  }

  -- The payload's text has the event's type in it.
  abbrev pub is_replay : OutboundEvent → OutboxRow → Bool
  is_replay e r =
      is_own r
      && (same r.conversation_key c.conversation_key
          && (r.sequence == e.sequence
              && (same (c.encode r.payload) (c.encode e) && same r.created_at e.occurred_at)))

  unfoldable pub persist_event : OutboundEvent → Emitter → Outcome
  persist_event e s = elim (select (has_id e.event_id) s.rows) [
    | none ↦ done (enqueue (delivers e 0 live) (record s { rows = s.rows ++ new_row e ∷ [] }))
    | some r ↦ if is_replay e r then done s else throw (conflict e.event_id) s
  ]

  unfoldable pub deliver_durable : OutboundEvent → Emitter → Outcome
  deliver_durable e s =
      if c.on_durable_prepared e then persist_event e s else done (enqueue rejects s)

  -- The next event, and the emitter after it was made.
  abbrev pub next_event : ℕ → EventBody → Emitter → OutboundEvent
  next_event now body s = record {
    body = body;
    event_id = c.uuid s.drawn;
    conversation_key = c.conversation_key;
    correlation_id = c.correlation_id;
    sequence = s.sequence + 1;
    occurred_at = c.iso now;
  }

  abbrev pub take_number : Emitter → Emitter
  take_number s = record s { sequence = s.sequence + 1; drawn = s.drawn + 1 }

  unfoldable pub emit_durable : ℕ → EventBody → Emitter → Outcome
  emit_durable now body s = deliver_durable (next_event now body s) (take_number s)

  abbrev pub emit_best_effort : ℕ → EventBody → Emitter → Emitter
  emit_best_effort now body s = enqueue (best_effort (next_event now body s)) (take_number s)

  abbrev pub emit_progress : ℕ → Text → Emitter → Emitter
  emit_progress now message s =
      emit_best_effort now (turn_progress message) (record s { last_progress_at = now })

  unfoldable pub flush_progress : ℕ → Emitter → Emitter
  flush_progress now s = elim s.pending_progress [
    | none ↦ s
    | some message ↦
        if leb (s.last_progress_at + c.progress_threshold_ms) now
        then emit_progress now message (record s { pending_progress = none })
        else s
  ]

  unfoldable pub ensure_started : ℕ → Emitter → Outcome
  ensure_started now s =
      if s.started_emitted
      then done s
      else emit_durable now turn_started
          (record s { started_emitted = true; last_progress_at = now })

  -- A terminal event, after a turn.started.
  unfoldable pub finish : ℕ → EventBody → Emitter → Outcome
  finish now body s =
      and_then (ensure_started now s)
        (λ t. emit_durable now body (record t { terminal_emitted = true }))

  unfoldable pub emit_provider_error : ℕ → Text → Text → Bool → Emitter → Outcome
  emit_provider_error now code message retryable s =
      if s.closed || s.terminal_emitted
      then done s
      else finish now (turn_error code message retryable) s

  -- A terminal event without one.
  unfoldable pub end_with : ℕ → EventBody → Emitter → Outcome
  end_with now body s =
      if s.closed || s.terminal_emitted
      then done s
      else emit_durable now body (record s { terminal_emitted = true })

  abbrev pub emit_cancelled : ℕ → Emitter → Outcome
  emit_cancelled now s = end_with now turn_cancelled s

  abbrev pub emit_direct_reply : ℕ → Text → Emitter → Outcome
  emit_direct_reply now text s = end_with now (turn_reply text [] zero_usage) s

  unfoldable pub emit_presence : ℕ → Presence → Emitter → Outcome
  emit_presence now p s =
      if same_presence p s.presence
      then done s
      else emit_durable now (presence_changed p) (record s { presence = some p })

  -- The constructor, on a table.
  abbrev pub max_sequence : List OutboxRow → ℕ
  max_sequence [] = 0
  max_sequence (r ∷ rows) =
      let rest = max_sequence rows in if is_own r && ltb rest r.sequence then r.sequence else rest

  abbrev pub is_own_terminal : OutboxRow → Bool
  is_own_terminal r = is_own r && is_terminal_body r.payload.body

  abbrev pub opened : List OutboxRow → ℕ → Emitter
  opened rows drawn =
      let ended = any is_own_terminal rows in
      record {
        rows = rows;
        sequence = max_sequence rows;
        reply_text = [];
        reply_attachments = [];
        reply_usage = none;
        terminal_emitted = ended;
        stay_silent = false;
        started_emitted = ended;
        presence = none;
        last_progress_at = 0;
        pending_progress = none;
        closed = false;
        chain = [];
        resuming = none;
        resumes = 0;
        retrying = [];
        drawn = drawn;
      }

  unfoldable pub new_emitter : List OutboxRow → ℕ → Result EmitterError Emitter
  new_emitter rows drawn = require (not (is_empty c.adapter_id)) adapter_id_required (
      require (not (is_empty c.conversation_key)) conversation_key_required (
        require (not (is_empty c.correlation_id)) correlation_id_required (ok (opened rows drawn))))
