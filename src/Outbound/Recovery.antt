-- ===== src/Outbound/Recovery.antt =====
-- The calls of an emitter lose no durable event.
use omp_bundler.Prelude.{
  ℕ, ◌+◌, ◌≡◌, refl, inl, inr, List, ◌++◌, Bool, true, false, ◌&&◌, ◌||◌, Option, none, some, Text,
  same, same_iff, is_empty, leb, if◌then◌else◌, All, arith, Option-cases,
}
use omp_bundler.Prelude.Rows.{select, select_holds, All-select}
use omp_bundler.Contracts.{OutboundEvent, EventBody, turn_started, turn_error, turn_delta}
use omp_bundler.Outbound.{
  OutboxStatus, pending, delivered, permanent_failure, Config, best_effort, rejects, Emitter,
  Outcome, and_then, has_id, is_own, is_replay, next_event, persist_event, deliver_durable,
  emit_durable, emit_best_effort, flush_progress, ensure_started, finish, emit_provider_error,
  end_with,
}
use omp_bundler.Outbound.Frames.{
  Message, Frame, turn_start, message_update, tool_execution_end, turn_end, agent_end, subagent,
  other, agent_end_has_model_error, handle_progress_candidate, handle_message_update,
  handle_tool_execution_end, handle_turn_end, handle_agent_end, ingest_frame,
}
use omp_bundler.Outbound.Delivery.{
  is_own_failure, with_retry, resume_pending, retry_permanent_failure_once, retry_permanent_failure,
  redeliver_row, redeliver_durable,
}
use omp_bundler.Outbound.Covered.{
  is_keyed, Kept, keeps_enqueue, keeps_insert, resumed-covered, retried-covered, keyed-update,
}

module _ (c : Config) where
  abbrev Safe : Emitter → Type 0
  Safe s = Kept c s

  -- What is not kept in the outbox or the chain may change.
  pub same-Safe : (s t : Emitter) → t.rows ≡ s.rows → t.chain ≡ s.chain → Safe s → Safe t
  same-Safe s t p q k = record { keyed = rw p k.keyed; covered = rw (p, q) k.covered }

  pub if-Safe : (test : Bool) (s t : Emitter) → Safe s → Safe t → Safe (if test then s else t)
  if-Safe true s t a b = a
  if-Safe false s t a b = b

  pub ifs-Safe :
      (test : Bool) (o p : Outcome)
      → Safe o.state
      → Safe p.state
      → Safe (if test then o else p).state
  ifs-Safe true o p a b = a
  ifs-Safe false o p a b = b

  then-Safe :
      (o : Outcome) (f : Emitter → Outcome)
      → Safe o.state
      → ((t : Emitter) → Safe t → Safe (f t).state)
      → Safe (and_then o f).state
  unfolding and_then
  then-Safe o f a h = elim (Option-cases o.thrown) [
    | inl e ↦ rw (e, and_then) (h o.state a)
    | inr (x, e) ↦ rw (e, and_then) a
  ]

  persist_event-Safe : (e : OutboundEvent) (s : Emitter) → Safe s → Safe (persist_event c e s).state
  unfolding persist_event
  persist_event-Safe e s k = elim (Option-cases (select (has_id e.event_id) s.rows)) [
    | inl f ↦ rw (f, persist_event) (keeps_insert c e s _ refl refl k)
    | inr (r, f) ↦ rw (f, persist_event) (ifs-Safe (is_replay c e r) _ _ k k)
  ]

  deliver_durable-Safe :
      (e : OutboundEvent) (s : Emitter) → Safe s → Safe (deliver_durable c e s).state
  unfolding deliver_durable
  deliver_durable-Safe e s k =
      ifs-Safe (c.on_durable_prepared e) _ _ (persist_event-Safe e s k)
        (keeps_enqueue c rejects s _ refl refl k)

  pub emit_durable-Safe :
      (now : ℕ) (body : EventBody) (s : Emitter) → Safe s → Safe (emit_durable c now body s).state
  unfolding emit_durable
  emit_durable-Safe now body s k =
      deliver_durable-Safe (next_event c now body s) _ (same-Safe s _ refl refl k)

  pub flush_progress-Safe : (now : ℕ) (s : Emitter) → Safe s → Safe (flush_progress c now s)
  unfolding flush_progress
  flush_progress-Safe now s k = elim (Option-cases s.pending_progress) [
    | inl e ↦ rw (e, flush_progress) k
    | inr (message, e) ↦
        rw (e, flush_progress)
          (if-Safe (leb (s.last_progress_at + c.progress_threshold_ms) now) _ _
            (keeps_enqueue c (best_effort _) s _ refl refl k) k)
  ]

  ensure_started-Safe : (now : ℕ) (s : Emitter) → Safe s → Safe (ensure_started c now s).state
  unfolding ensure_started
  ensure_started-Safe now s k =
      ifs-Safe s.started_emitted _ _ k
        (emit_durable-Safe now turn_started _ (same-Safe s _ refl refl k))

  finish-Safe :
      (now : ℕ) (body : EventBody) (s : Emitter) → Safe s → Safe (finish c now body s).state
  unfolding finish
  finish-Safe now body s k =
      then-Safe (ensure_started c now s) _ (ensure_started-Safe now s k)
        (λ t k'. emit_durable-Safe now body _ (same-Safe t _ refl refl k'))

  pub emit_provider_error-Safe :
      (now : ℕ) (code message : Text) (retryable : Bool) (s : Emitter)
      → Safe s
      → Safe (emit_provider_error c now code message retryable s).state
  unfolding emit_provider_error
  emit_provider_error-Safe now code message retryable s k =
      ifs-Safe (s.closed || s.terminal_emitted) _ _ k
        (finish-Safe now (turn_error code message retryable) s k)

  pub end_with-Safe :
      (now : ℕ) (body : EventBody) (s : Emitter) → Safe s → Safe (end_with c now body s).state
  unfolding end_with
  end_with-Safe now body s k =
      ifs-Safe (s.closed || s.terminal_emitted) _ _ k
        (emit_durable-Safe now body _ (same-Safe s _ refl refl k))

  message_update-Safe :
      (now : ℕ) (delta : Option Text) (s : Emitter)
      → Safe s
      → Safe (handle_message_update c now delta s)
  unfolding handle_message_update handle_progress_candidate
  message_update-Safe now none s k = k
  message_update-Safe now (some delta) s k =
      let t = record s { reply_text = s.reply_text ++ delta } in
      let u = emit_best_effort c now (turn_delta delta) t in
      if-Safe (is_empty delta) _ _ k (
        if-Safe (s.closed || s.terminal_emitted) _ _ (same-Safe s t refl refl k) (
          flush_progress-Safe now _
            (same-Safe u _ refl refl (keeps_enqueue c (best_effort _) s u refl refl k))))

  agent_end-Safe :
      (now : ℕ) (ms : List Message) (s : Emitter)
      → Safe s
      → Safe (handle_agent_end c now ms s).state
  unfolding handle_agent_end
  agent_end-Safe now ms s k = ifs-Safe (s.closed || s.terminal_emitted) _ _ k (
      ifs-Safe (agent_end_has_model_error ms) _ _ (emit_provider_error-Safe now _ _ true s k) (
        ifs-Safe s.stay_silent _ _ (finish-Safe now _ s k) (
          ifs-Safe (is_empty s.reply_text && is_empty s.reply_attachments) _ _
            (emit_provider_error-Safe now _ _ false s k) (finish-Safe now _ s k))))

  pub ingest_frame-Safe :
      (now : ℕ) (frame : Frame) (s : Emitter) → Safe s → Safe (ingest_frame c now frame s).state
  unfolding ingest_frame handle_tool_execution_end handle_turn_end handle_progress_candidate
  ingest_frame-Safe now turn_start s k = ensure_started-Safe now s k
  ingest_frame-Safe now (message_update delta) s k = message_update-Safe now delta s k
  ingest_frame-Safe now (tool_execution_end tool is_error marker) s k = same-Safe s _ refl refl k
  ingest_frame-Safe now (turn_end none) s k = k
  ingest_frame-Safe now (turn_end (some u)) s k = same-Safe s _ refl refl k
  ingest_frame-Safe now (agent_end ms) s k = agent_end-Safe now ms s k
  ingest_frame-Safe now (subagent kind id name) s k =
      flush_progress-Safe now _ (same-Safe s _ refl refl k)
  ingest_frame-Safe now other s k = k

  -- Of a resumption only that the rows are keyed is needed.
  pub resume_fresh-Safe :
      (s : Emitter)
      → s.resuming ≡ none
      → All (λ r. is_keyed r ≡ true) s.rows
      → Safe (resume_pending c s)
  unfolding resume_pending
  resume_fresh-Safe s e k =
      rw (e, resume_pending)
        (record { keyed = k; covered = resumed-covered c s.resumes s.chain s.rows k })

  pub resume_pending-Safe : (s : Emitter) → Safe s → Safe (resume_pending c s)
  unfolding resume_pending
  resume_pending-Safe s k = elim (Option-cases s.resuming) [
    | inl e ↦ resume_fresh-Safe s e k.keyed
    | inr (n, e) ↦ rw (e, resume_pending) k
  ]

  retry_once-Safe :
      (ts id : Text) (s : Emitter) → Safe s → Safe (retry_permanent_failure_once c ts id s).state
  unfolding retry_permanent_failure_once
  retry_once-Safe ts id s k = elim (Option-cases (select (is_own_failure c id) s.rows)) [
    | inl e ↦ rw (e, retry_permanent_failure_once) k
    | inr (r, e) ↦
        let key = All-select (λ q. is_keyed q ≡ true) (is_own_failure c id) s.rows k.keyed e in
        let hit = select_holds (is_own_failure c id) s.rows e in
        let found : same r.payload.event_id id ≡ true = ground (
          arith,
          key,
          hit,
          same_iff r.payload.event_id r.event_id,
          same_iff r.event_id id,
          same_iff r.payload.event_id id,
        ) in
        rw (e, retry_permanent_failure_once)
          (ifs-Safe (c.on_durable_prepared r.payload) _ _
            (record {
              keyed = keyed-update c _ (with_retry ts) s.rows (λ q. refl) k.keyed;
              covered = retried-covered c r.payload id ts s.chain s.rows found k.covered;
            })
            k)
  ]

  pub retry-Safe :
      (ts id : Text) (s : Emitter) → Safe s → Safe (retry_permanent_failure c ts id s).state
  unfolding retry_permanent_failure
  retry-Safe ts id s k = elim (Option-cases (select (λ j. same j id) s.retrying)) [
    | inl e ↦ rw (e, retry_permanent_failure) (retry_once-Safe ts id s k)
    | inr (j, e) ↦ rw (e, retry_permanent_failure) k
  ]

  pub redeliver-Safe :
      (ts : Text) (e : OutboundEvent) (s : Emitter)
      → Safe s
      → Safe (redeliver_durable c ts e s).state
  unfolding redeliver_durable
  redeliver-Safe ts e s k =
      elim (Option-cases (select (λ r. has_id e.event_id r && is_own c r) s.rows)) [
        | inl f ↦ rw (f, redeliver_durable) (deliver_durable-Safe e s k)
        | inr (r, f) ↦
            rw (f, redeliver_durable)
              (ifs-Safe (same (c.encode r.payload) (c.encode e)) _ _ (go r.status) k)
      ]
    where
      go : (status : OutboxStatus) → Safe (redeliver_row c ts e s status).state
      go pending = resume_pending-Safe s k
      go permanent_failure = retry-Safe ts e.event_id s k
      go delivered = k
