-- ===== src/Outbound/Frames.antt =====
-- packages/core/src/outbound-emitter.ts, `ingest` and the handlers of frames. A frame has the shape that
-- the child declares, with what the code reads of it.
use omp_bundler.Prelude.{
  ℕ, List, [], ◌∷◌, ◌++◌, Bool, true, false, not, ◌&&◌, ◌||◌, Option, none, some, Text, same,
  is_empty, any, if◌then◌else◌, codes,
}
use omp_bundler.Contracts.{turn_reply, WorkspaceAttachment, TurnUsage}
use omp_bundler.Outbound.{
  Config, Emitter, Outcome, done, ensure_started, finish, emit_provider_error, emit_best_effort,
  flush_progress, zero_usage,
}
use omp_bundler.Contracts.{turn_delta}

pub record Message : Type 0 where
  pub is_assistant : Bool
  pub stopped_on_error : Bool
  pub usage : Option TurnUsage

pub data Subagent : Type 0 where
  subagent_lifecycle subagent_progress subagent_event : Subagent

pub data Frame : Type 0 where
  turn_start : Frame
  -- The text of a text delta.
  message_update : Option Text → Frame
  -- The tool's name, whether it failed, and the attachment that its result names.
  tool_execution_end : Text → Bool → Option WorkspaceAttachment → Frame
  turn_end : Option TurnUsage → Frame
  agent_end : List Message → Frame
  -- With the id and the name, which may be empty.
  subagent : Subagent → Text → Text → Frame
  other : Frame

abbrev delivery_attachment_tool : Text
delivery_attachment_tool = codes "deliver_attachment"

abbrev stay_silent_tool : Text
stay_silent_tool = codes "stay_silent"

-- An empty text counts for none.
abbrev nonempty : Option Text → Option Text
nonempty none = none
nonempty (some t) = if is_empty t then none else some t

abbrev pub extract_delivery_attachment :
    Text → Bool → Option WorkspaceAttachment → Option WorkspaceAttachment
extract_delivery_attachment tool is_error none = none
extract_delivery_attachment tool is_error (some a) =
    if not (same tool delivery_attachment_tool) || (is_error || is_empty a.path)
    then none
    else some (record { path = a.path; name = nonempty a.name; media_type = nonempty a.media_type })

-- `none` when no message is the assistant's.
abbrev ended_in_error : List Message → Option Bool
ended_in_error [] = none
ended_in_error (m ∷ ms) = elim (ended_in_error ms) [
  | some b ↦ some b
  | none ↦ if m.is_assistant then some m.stopped_on_error else none
]

abbrev or_false : Option Bool → Bool
or_false none = false
or_false (some b) = b

unfoldable pub agent_end_has_model_error : List Message → Bool
agent_end_has_model_error ms = or_false (ended_in_error ms)

unfoldable pub extract_usage_from_agent_end : List Message → TurnUsage
extract_usage_from_agent_end [] = zero_usage
extract_usage_from_agent_end (m ∷ ms) =
    let rest = extract_usage_from_agent_end ms in
    if m.is_assistant then elim m.usage [ some u ↦ u | none ↦ rest ] else rest

abbrev or_usage : Option TurnUsage → TurnUsage → TurnUsage
or_usage none v = v
or_usage (some u) v = u

abbrev label : Subagent → Text
label subagent_lifecycle = codes "subagent lifecycle"
label subagent_progress = codes "subagent progress"
label subagent_event = codes "subagent event"

abbrev pub describe_subagent_frame : Subagent → Text → Text → Text
describe_subagent_frame kind id name =
    let detail = if is_empty name then id else name in
    if is_empty detail then label kind else label kind ++ (codes ": " ++ detail)

abbrev pub has_path : Text → WorkspaceAttachment → Bool
has_path p a = same a.path p

abbrev keep_attachment :
    Option WorkspaceAttachment → List WorkspaceAttachment → List WorkspaceAttachment
keep_attachment none kept = kept
keep_attachment (some a) kept = if any (has_path a.path) kept then kept else kept ++ a ∷ []

module _ (c : Config) where
  unfoldable pub handle_progress_candidate : ℕ → Text → Emitter → Emitter
  handle_progress_candidate now message s =
      flush_progress c now (record s { pending_progress = some message })

  unfoldable pub handle_message_update : ℕ → Option Text → Emitter → Emitter
  handle_message_update now none s = s
  handle_message_update now (some delta) s =
      let t = record s { reply_text = s.reply_text ++ delta } in
      if is_empty delta
      then s
      else if s.closed || s.terminal_emitted
      then t
      else handle_progress_candidate now delta (emit_best_effort c now (turn_delta delta) t)

  unfoldable pub handle_tool_execution_end :
      Text → Bool → Option WorkspaceAttachment → Emitter → Emitter
  handle_tool_execution_end tool is_error marker s = record s {
    reply_attachments =
        keep_attachment (extract_delivery_attachment tool is_error marker) s.reply_attachments;
    stay_silent = s.stay_silent || (same tool stay_silent_tool && not is_error);
  }

  unfoldable pub handle_turn_end : Option TurnUsage → Emitter → Emitter
  handle_turn_end none s = s
  handle_turn_end (some u) s = record s { reply_usage = some u }

  unfoldable pub handle_agent_end : ℕ → List Message → Emitter → Outcome
  unfolding agent_end_has_model_error extract_usage_from_agent_end
  handle_agent_end now ms s =
      let usage = or_usage s.reply_usage (extract_usage_from_agent_end ms) in
      if s.closed || s.terminal_emitted
      then done s
      else if agent_end_has_model_error ms
      then emit_provider_error c now (codes "model_error") (codes "Agent model request failed") true
          s
      else if s.stay_silent
      then finish c now (turn_reply [] [] usage) s
      else if is_empty s.reply_text && is_empty s.reply_attachments
      then emit_provider_error c now (codes "empty_response")
          (codes "Agent completed without producing a reply") false s
      else finish c now (turn_reply s.reply_text s.reply_attachments usage) s

  unfoldable pub ingest_frame : ℕ → Frame → Emitter → Outcome
  ingest_frame now turn_start s = ensure_started c now s
  ingest_frame now (message_update delta) s = done (handle_message_update now delta s)
  ingest_frame now (tool_execution_end tool is_error marker) s =
      done (handle_tool_execution_end tool is_error marker s)
  ingest_frame now (turn_end usage) s = done (handle_turn_end usage s)
  ingest_frame now (agent_end ms) s = handle_agent_end now ms s
  ingest_frame now (subagent kind id name) s =
      done (handle_progress_candidate now (describe_subagent_frame kind id name) s)
  ingest_frame now other s = done s
