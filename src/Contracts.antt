-- ===== src/Contracts.antt =====
-- packages/contracts/src: the payloads between the core and an adapter. Strings are lists of
-- UTF-16 code units, an optional field is an Option, and a cost in dollars, a number of the
-- program's that nothing computes with, is its text.
use omp_bundler.Prelude.{ℕ, List, Bool, true, false, Option, Text}

-- shared.ts
pub record Speaker : Type 0 where
  pub id : Text
  pub display_name : Text

pub record WorkspaceAttachment : Type 0 where
  pub path : Text
  pub name : Option Text
  pub media_type : Option Text

-- inbound.ts
pub record InboundMessage : Type 0 where
  pub message_id : Text
  pub conversation_key : Text
  pub parent_conversation_key : Option Text
  pub speaker : Speaker
  pub text : Text
  pub attachments : List WorkspaceAttachment
  pub addressed : Bool

-- outbound.ts
pub data Presence : Type 0 where
  active idle offline : Presence

pub record TurnUsage : Type 0 where
  pub input : ℕ
  pub output : ℕ
  pub cache_read : ℕ
  pub cache_write : ℕ
  pub cost_usd : Text

-- The `type` of an event with the fields that only this type has.
pub data EventBody : Type 0 where
  turn_started : EventBody
  turn_progress : Text → EventBody
  turn_delta : Text → EventBody
  turn_reply : Text → List WorkspaceAttachment → TurnUsage → EventBody
  presence_changed : Presence → EventBody
  turn_error : Text → Text → Bool → EventBody
  turn_cancelled : EventBody

pub record OutboundEvent : Type 0 where
  pub body : EventBody
  pub event_id : Text
  pub conversation_key : Text
  pub correlation_id : Text
  pub sequence : ℕ
  pub occurred_at : Text

-- idempotency-store.ts, `isTerminalEventType`: the events that close a correlation.
abbrev pub is_terminal_body : EventBody → Bool
is_terminal_body (turn_reply text attachments usage) = true
is_terminal_body (turn_error code message retryable) = true
is_terminal_body turn_cancelled = true
is_terminal_body _ = false
