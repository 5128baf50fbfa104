-- ===== src/Outbound/Once.antt =====
-- The guard of terminal events, over histories of an emitter.
use omp_bundler.Prelude.{
  ℕ, ◌+◌, ◌≡◌, ◌≤◌, refl, ◌∙◌, ap, inl, inr, List, [], ◌∷◌, Bool, true, false, ◌&&◌, ◌||◌, none,
  some, Text, is_empty, any, if◌then◌else◌, arith, Bool-cases, Option-cases,
}
use omp_bundler.Contracts.{
  EventBody, turn_error, turn_cancelled, turn_reply, presence_changed, is_terminal_body,
}
use omp_bundler.Outbound.{
  OutboxRow, Config, Emitter, Outcome, done, and_then, is_own_terminal, emit_durable,
  ensure_started, finish, emit_provider_error, end_with, emit_presence, same_presence, opened,
  zero_usage,
}
use omp_bundler.Outbound.Frames.{
  Message, Frame, turn_start, message_update, tool_execution_end, turn_end, agent_end, subagent,
  other, agent_end_has_model_error, handle_progress_candidate, handle_tool_execution_end,
  handle_turn_end, handle_agent_end, ingest_frame,
}
use omp_bundler.Outbound.Delivery.{resume_pending}
use omp_bundler.Outbound.Machine.{
  Call, ingests, emits_error, emits_presence, cancels, flushes, resumes_pending, closes, replies,
  retries, redelivers, posts, restarts, respond, history,
}
use omp_bundler.Outbound.Terminals.{
  one_if, changes_of_none, terminals, Adds, emit_durable-Adds, flush_progress-Adds,
  ensure_started-Adds, message_update-Adds, resume_pending-Adds, retry-Adds, redeliver-Adds,
  post-Adds,
}

-- The calls that may put an event of the inbound store into the outbox.
abbrev pub redelivered : Call → ℕ
redelivered (redelivers e) = 1
redelivered call = 0

abbrev pub redeliveries : List (ℕ × Call) → ℕ
redeliveries [] = 0
redeliveries ((now, call) ∷ calls) = redelivered call + redeliveries calls

module _ (c : Config) where
  -- The guard is set if there is a terminal event, but for `k` of them.
  abbrev Guarded : ℕ → Emitter → Type 0
  Guarded k s = terminals c s ≤ k + one_if s.terminal_emitted

  ifs-Guarded :
      (k : ℕ) (test : Bool) (o p : Outcome)
      → Guarded k o.state
      → (test ≡ false → Guarded k p.state)
      → Guarded k (if test then o else p).state
  ifs-Guarded k true o p a b = a
  ifs-Guarded k false o p a b = b refl

  grown_within : (n k : ℕ) (s t : Emitter) → Adds c n s t → Guarded k s → Guarded (k + n) t
  grown_within n k s t a g = omega (arith, a.grown, g, ap one_if a.guarded)

  keeps-Guarded : (k : ℕ) (s t : Emitter) → Adds c 0 s t → Guarded k s → Guarded k t
  keeps-Guarded k s t a g = omega (arith, a.grown, g, ap one_if a.guarded)

  -- A terminal event where there was none.
  ends-Guarded :
      (k now : ℕ) (body : EventBody) (s : Emitter)
      → is_terminal_body body ≡ true
      → s.terminal_emitted ≡ false
      → Guarded k s
      → Guarded k (emit_durable c now body (record s { terminal_emitted = true })).state
  ends-Guarded k now body s ends unset g =
      let a = emit_durable-Adds c now body (record s { terminal_emitted = true }) in
      omega (arith, a.grown, g, ap one_if a.guarded, ap one_if ends, ap one_if unset)

  finish-Guarded :
      (k now : ℕ) (body : EventBody) (s : Emitter)
      → is_terminal_body body ≡ true
      → s.terminal_emitted ≡ false
      → Guarded k s
      → Guarded k (finish c now body s).state
  unfolding finish and_then
  finish-Guarded k now body s ends unset g =
      go (ensure_started c now s) (ensure_started-Adds c now s)
    where
      go :
          (o : Outcome)
          → Adds c 0 s o.state
          → Guarded k
              (and_then o
                (λ t. emit_durable c now body (record t { terminal_emitted = true }))).state
      go o a = elim (Option-cases o.thrown) [
        | inl e ↦
            rw (e, and_then)
              (ends-Guarded k now body o.state ends (a.guarded ∙ unset)
                (keeps-Guarded k s o.state a g))
        | inr (x, e) ↦ rw (e, and_then) (keeps-Guarded k s o.state a g)
      ]

  guard_unset :
      (s : Emitter) → (s.closed || s.terminal_emitted) ≡ false → s.terminal_emitted ≡ false
  guard_unset s e = ground arith

  provider_error-Guarded :
      (k now : ℕ) (code message : Text) (retryable : Bool) (s : Emitter)
      → Guarded k s
      → Guarded k (emit_provider_error c now code message retryable s).state
  unfolding emit_provider_error
  provider_error-Guarded k now code message retryable s g =
      ifs-Guarded k (s.closed || s.terminal_emitted) _ _ g
        (λ e. finish-Guarded k now (turn_error code message retryable) s refl (guard_unset s e) g)

  end_with-Guarded :
      (k now : ℕ) (body : EventBody) (s : Emitter)
      → is_terminal_body body ≡ true
      → Guarded k s
      → Guarded k (end_with c now body s).state
  unfolding end_with
  end_with-Guarded k now body s ends g =
      ifs-Guarded k (s.closed || s.terminal_emitted) _ _ g
        (λ e. ends-Guarded k now body s ends (guard_unset s e) g)

  agent_end-Guarded :
      (k now : ℕ) (ms : List Message) (s : Emitter)
      → Guarded k s
      → Guarded k (handle_agent_end c now ms s).state
  unfolding handle_agent_end
  agent_end-Guarded k now ms s g = ifs-Guarded k (s.closed || s.terminal_emitted) _ _ g (λ e.
      ifs-Guarded k (agent_end_has_model_error ms) _ _ (provider_error-Guarded k now _ _ true s g)
        (λ fine.
          ifs-Guarded k s.stay_silent _ _ (finish-Guarded k now _ s refl (guard_unset s e) g)
            (λ speaks.
              ifs-Guarded k (is_empty s.reply_text && is_empty s.reply_attachments) _ _
                (provider_error-Guarded k now _ _ false s g)
                (λ reply. finish-Guarded k now _ s refl (guard_unset s e) g))))

  ingest_frame-Guarded :
      (k now : ℕ) (frame : Frame) (s : Emitter)
      → Guarded k s
      → Guarded k (ingest_frame c now frame s).state
  unfolding ingest_frame handle_tool_execution_end handle_turn_end handle_progress_candidate
  ingest_frame-Guarded k now turn_start s g = keeps-Guarded k s _ (ensure_started-Adds c now s) g
  ingest_frame-Guarded k now (message_update delta) s g =
      keeps-Guarded k s _ (message_update-Adds c now delta s) g
  ingest_frame-Guarded k now (tool_execution_end tool is_error marker) s g = g
  ingest_frame-Guarded k now (turn_end none) s g = g
  ingest_frame-Guarded k now (turn_end (some u)) s g = g
  ingest_frame-Guarded k now (agent_end ms) s g = agent_end-Guarded k now ms s g
  ingest_frame-Guarded k now (subagent kind id name) s g =
      keeps-Guarded k _ _ (flush_progress-Adds c now _) g
  ingest_frame-Guarded k now other s g = g

  -- A new emitter sets the guard if the outbox has a terminal event.
  opened-Guarded :
      (k drawn : ℕ) (rows : List OutboxRow)
      → terminals c (opened c rows drawn) ≤ k + 1
      → Guarded k (resume_pending c (opened c rows drawn))
  opened-Guarded k drawn rows few =
      keeps-Guarded k (opened c rows drawn) _ (resume_pending-Adds c (opened c rows drawn))
        (elim (Bool-cases (any (is_own_terminal c) rows)) [
          | inl ended ↦ rw ended few
          | inr unset ↦ omega (arith, changes_of_none (is_own_terminal c) rows unset)
        ])

  few : (k : ℕ) (s : Emitter) → Guarded k s → terminals c s ≤ k + 1
  few k s g = ground (arith, g)

  respond-Guarded :
      (k now : ℕ) (call : Call) (s : Emitter)
      → Guarded k s
      → Guarded (k + redelivered call) (respond c now call s)
  unfolding respond emit_presence
  respond-Guarded k now (redelivers e) s g =
      grown_within 1 k s _ (redeliver-Adds c (c.iso now) e s) g
  respond-Guarded k now (ingests frame) s g = omega (arith, ingest_frame-Guarded k now frame s g)
  respond-Guarded k now (emits_error code message retryable) s g =
      omega (arith, provider_error-Guarded k now code message retryable s g)
  respond-Guarded k now (emits_presence p) s g =
      let a = emit_durable-Adds c now (presence_changed p) (record s { presence = some p }) in
      let kept =
        ifs-Guarded k (same_presence p s.presence) (done s)
          (emit_durable c now (presence_changed p) (record s { presence = some p })) g
          (λ e. keeps-Guarded k _ _ a g) in
      omega (arith, kept)
  respond-Guarded k now cancels s g = omega (arith, end_with-Guarded k now turn_cancelled s refl g)
  respond-Guarded k now flushes s g =
      omega (arith, keeps-Guarded k s _ (flush_progress-Adds c now s) g)
  respond-Guarded k now resumes_pending s g =
      omega (arith, keeps-Guarded k s _ (resume_pending-Adds c s) g)
  respond-Guarded k now closes s g = omega (arith, g)
  respond-Guarded k now (replies text) s g =
      omega (arith, end_with-Guarded k now (turn_reply text [] zero_usage) s refl g)
  respond-Guarded k now (retries id) s g =
      omega (arith, keeps-Guarded k s _ (retry-Adds c (c.iso now) id s) g)
  respond-Guarded k now (posts r) s g =
      omega (arith, keeps-Guarded k s _ (post-Adds c (c.iso now) r s) g)
  respond-Guarded k now restarts s g = omega (arith, opened-Guarded k s.drawn s.rows (few k s g))

  -- From a new emitter that resumes, over any calls, POSTs and restarts in any order, the outbox has at
  -- most one terminal event of the correlation if it had at most one at first, besides those that
  -- `redeliverDurable` was given.
  pub history-Guarded :
      (rows : List OutboxRow) (drawn : ℕ) (calls : List (ℕ × Call))
      → terminals c (opened c rows drawn) ≤ 1
      → terminals c (history c calls (resume_pending c (opened c rows drawn)))
        ≤ 1 + redeliveries calls
  unfolding history
  history-Guarded rows drawn calls one =
      let s = resume_pending c (opened c rows drawn) in
      let g = go 0 calls s (opened-Guarded 0 drawn rows (omega (arith, one))) in
      omega (arith, few (0 + redeliveries calls) (history c calls s) g)
    where
      go :
          (k : ℕ) (calls : List (ℕ × Call)) (s : Emitter)
          → Guarded k s
          → Guarded (k + redeliveries calls) (history c calls s)
      go k [] s g = omega (arith, g)
      go k ((now, call) ∷ calls) s g =
          let rest =
            go (k + redelivered call) calls (respond c now call s)
              (respond-Guarded k now call s g) in
          omega (arith, rest)
