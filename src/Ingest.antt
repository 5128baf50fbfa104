-- ===== src/Ingest.antt =====
-- packages/core/src/ingest-buffer.ts: the ambient backlog and the engagement window of each
-- conversation. Times are whole milliseconds, and each call takes the reading of the injected clock
-- as its argument `now`. A backward clock makes a difference of times stop at 0 here; the code
-- only tests such a difference for being below a positive period, where both agree.
pub mod Render
pub mod History
pub mod Ownership
pub mod SweepAccount
pub mod Delivery
pub mod Engagement
pub mod Sweep
pub mod Isolation
pub mod Silence
mod Tests
use omp_bundler.Prelude.{
  ℕ, ◌+◌, ◌-◌, List, [], ◌∷◌, ◌++◌, Bool, true, false, ◌&&◌, Option, none, some, Text, map, length,
  ltb, ◌==◌, if◌then◌else◌,
}
use omp_bundler.Prelude.Maps.{get, set}
use omp_bundler.Contracts.{Speaker, WorkspaceAttachment, InboundMessage}
use omp_bundler.StorageKey.{storage_key}
use Render.{BufferedRecord, render_prompt}

pub data ActivationMode : Type 0 where
  prompt steer follow_up : ActivationMode

pub data IngestResult : Type 0 where
  buffered : BufferedRecord → ℕ → IngestResult
  activate : ActivationMode → List BufferedRecord → Text → IngestResult

pub record ConversationStatus : Type 0 where
  pub active : Bool
  pub backlog_depth : ℕ
  pub window_deadline : Option ℕ

pub record SettledActivation : Type 0 where
  pub adapter_id : Text
  pub conversation_key : Text
  pub records : List BufferedRecord
  pub text : Text

pub record ConversationState : Type 0 where
  pub backlog : List BufferedRecord
  pub window_deadline : Option ℕ
  pub last_arrival_at : ℕ

pub record IngestBuffer : Type 0 where
  pub engagement_window_ms : ℕ
  pub quiet_period_ms : ℕ
  pub states : List (Text × ConversationState)

-- The constructor. On whole numbers the only option out of range is a window of 0.
unfoldable pub new_buffer : ℕ → ℕ → Option IngestBuffer
new_buffer window quiet =
    if window == 0
    then none
    else some (record { engagement_window_ms = window; quiet_period_ms = quiet; states = [] })

abbrev pub is_open : Option ℕ → ℕ → Bool
is_open none now = false
is_open (some deadline) now = ltb now deadline

unfoldable pub is_active : ConversationState → ℕ → Bool
is_active s now = is_open s.window_deadline now

copy_attachment : WorkspaceAttachment → WorkspaceAttachment
copy_attachment a = record { path = a.path; name = a.name; media_type = a.media_type }

unfoldable pub to_record : Text → InboundMessage → ℕ → BufferedRecord
unfolding copy_attachment
to_record adapter_id m received_at = record {
  adapter_id = adapter_id;
  conversation_key = m.conversation_key;
  message_id = m.message_id;
  speaker = record { id = m.speaker.id; display_name = m.speaker.display_name };
  text = m.text;
  attachments = map copy_attachment m.attachments;
  addressed = m.addressed;
  received_at = received_at;
}

unfoldable pub state_for : Text → List (Text × ConversationState) → ConversationState
state_for key states = elim (get key states) [
  | some s ↦ s
  | none ↦ record { backlog = []; window_deadline = none; last_arrival_at = 0 }
]

-- The state and the answer of an arrival that triggers a turn.
trigger :
    IngestBuffer
    → ConversationState
    → BufferedRecord
    → ActivationMode
    → ConversationState × IngestResult
trigger b s r mode =
    let records = s.backlog ++ r ∷ [] in
    (
      record s {
        backlog = [];
        window_deadline = some (r.received_at + b.engagement_window_ms);
        last_arrival_at = r.received_at;
      },
      activate mode records (render_prompt records),
    )

-- The state and the answer of an arrival that joins the backlog.
hold : ConversationState → BufferedRecord → Option ℕ → ConversationState × IngestResult
hold s r deadline =
    let records = s.backlog ++ r ∷ [] in
    (
      record { backlog = records; window_deadline = deadline; last_arrival_at = r.received_at },
      buffered r (length records),
    )

-- The decision of `ingest` for one conversation: `s` is its state before the arrival.
unfoldable pub arrive :
    IngestBuffer → ConversationState → BufferedRecord → Bool → ConversationState × IngestResult
unfolding trigger hold is_active
arrive b s r streaming =
    let since_last_arrival = r.received_at - s.last_arrival_at in
    if r.addressed
    then trigger b s r (if streaming then steer else prompt)
    else if is_active s r.received_at
    then (if ltb 0 b.quiet_period_ms && ltb since_last_arrival b.quiet_period_ms
        then hold s r s.window_deadline
        else trigger b s r (if streaming then follow_up else prompt))
    else hold s r none

unfoldable pub ingest :
    IngestBuffer → ℕ → Text → InboundMessage → Bool → IngestBuffer × IngestResult
unfolding arrive state_for
ingest b now adapter_id message streaming =
    let key = storage_key adapter_id message.conversation_key in
    let r = to_record adapter_id message now in
    let (s, result) = arrive b (state_for key b.states) r streaming in
    (record b { states = set key s b.states }, result)

-- One round of the loop of `sweepSettled`: the new state, and the records that are due.
unfoldable pub settle :
    IngestBuffer → ℕ → ConversationState → ConversationState × List BufferedRecord
unfolding is_active
settle b now s = elim s.backlog [
  | [] ↦ (s, [])
  | r ∷ rs ↦
      if ltb (now - s.last_arrival_at) b.quiet_period_ms
      then (s, [])
      else if is_active s now
      then (
        record s { backlog = []; window_deadline = some (now + b.engagement_window_ms) },
        r ∷ rs,
      )
      else (s, [])
]

abbrev settled : List BufferedRecord → List SettledActivation → List SettledActivation
settled [] rest = rest
settled (r ∷ rs) rest =
    record {
      adapter_id = r.adapter_id;
      conversation_key = r.conversation_key;
      records = r ∷ rs;
      text = render_prompt (r ∷ rs);
    }
    ∷ rest

unfoldable pub sweep_states :
    IngestBuffer
    → ℕ
    → List (Text × ConversationState)
    → List (Text × ConversationState) × List SettledActivation
unfolding settle
sweep_states b now [] = ([], [])
sweep_states b now ((key, s) ∷ states) =
    let (s', records) = settle b now s in
    let (states', due) = sweep_states b now states in ((key, s') ∷ states', settled records due)

unfoldable pub sweep_settled : IngestBuffer → ℕ → IngestBuffer × List SettledActivation
unfolding sweep_states
sweep_settled b now =
    let (states, due) = sweep_states b now b.states in
    if b.quiet_period_ms == 0 then (b, []) else (record b { states = states }, due)

unfoldable pub close_window : Text → ConversationState → IngestBuffer → IngestBuffer
close_window key s b = record b { states = set key (record s { window_deadline = none }) b.states }

unfoldable pub dismiss : IngestBuffer → ℕ → Text → Text → IngestBuffer × Bool
unfolding close_window is_active
dismiss b now adapter_id conversation_key =
    let key = storage_key adapter_id conversation_key in
    elim (get key b.states) [
      | none ↦ (b, false)
      | some s ↦ elim s.window_deadline [
        | none ↦ (b, false)
        | some _ ↦ (close_window key s b, is_active s now)
      ]
    ]

unfoldable pub record_interaction : IngestBuffer → ℕ → Text → Text → IngestBuffer × Bool
unfolding is_active
record_interaction b now adapter_id conversation_key =
    let key = storage_key adapter_id conversation_key in
    elim (get key b.states) [
      | none ↦ (b, false)
      | some s ↦
          let s' = record s { window_deadline = some (now + b.engagement_window_ms) } in
          if is_active s now then (record b { states = set key s' b.states }, true) else (b, false)
    ]

unfoldable pub inspect : IngestBuffer → ℕ → Text → Text → IngestBuffer × ConversationStatus
unfolding close_window is_active
inspect b now adapter_id conversation_key =
    let key = storage_key adapter_id conversation_key in
    elim (get key b.states) [
      | none ↦ (b, record { active = false; backlog_depth = 0; window_deadline = none })
      | some s ↦
          let live = is_active s now in
          let pruned : IngestBuffer = elim s.window_deadline [
            | none ↦ b
            | some _ ↦ close_window key s b
          ] in
          (
            (if live then b else pruned),
            record {
              active = live;
              backlog_depth = length s.backlog;
              window_deadline = if live then s.window_deadline else none;
            },
          )
    ]
