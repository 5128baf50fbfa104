-- ===== src/Outbound/Terminals.antt =====
-- One terminal event for a correlation, over calls, POSTs and restarts.
use omp_bundler.Prelude.{
  ℕ, ◌+◌, ◌≡◌, ◌≤◌, refl, ◌∙◌, inl, inr, List, [], ◌∷◌, ◌++◌, Bool, true, false, ◌&&◌, ◌||◌, Option,
  none, some, Text, same, is_empty, any, leb, if◌then◌else◌, arith, Option-cases,
}
use omp_bundler.Prelude.Rows.{select, update, changes}
use omp_bundler.Contracts.{OutboundEvent, EventBody, turn_started, turn_delta, is_terminal_body}
use omp_bundler.Outbound.{
  OutboxStatus, pending, delivered, permanent_failure, OutboxRow, Config, Batch, live, resumed,
  retried, Job, delivers, best_effort, rejects, Emitter, Outcome, has_id, is_own, new_row,
  is_replay, is_own_terminal, next_event, take_number, persist_event, deliver_durable, emit_durable,
  flush_progress, ensure_started, emit_best_effort,
}
use omp_bundler.Outbound.Frames.{handle_progress_candidate, handle_message_update}
use omp_bundler.Outbound.Delivery.{
  Response, is_own_failure, failed_at, mark, with_attempt, with_delivered, with_permanent_failure,
  with_retry, settle_batch, is_current, total_posts, resume_pending, retry_permanent_failure_once,
  retry_permanent_failure, redeliver_row, redeliver_durable, error_of, give_up, try_again,
  acknowledge, deliver_to, deliver_payload, work, post,
}

abbrev pub one_if : Bool → ℕ
one_if b = if b then 1 else 0

changes-append_one {ℓ} :
    {R : Type ℓ} (p : R → Bool) (rows : List R) (r : R)
    → changes p (rows ++ r ∷ []) ≡ changes p rows + one_if (p r)
changes-append_one p [] r = ground arith
changes-append_one p (q ∷ rows) r = ground (arith, changes-append_one p rows r)

changes-update {ℓ} :
    {R : Type ℓ} (p q : R → Bool) (f : R → R) (rows : List R)
    → ((r : R) → p (f r) ≡ p r)
    → changes p (update q f rows) ≡ changes p rows
changes-update p q f [] h = refl
changes-update p q f (r ∷ rows) h = ground (arith, h r, changes-update p q f rows h)

pub changes_of_none {ℓ} :
    {R : Type ℓ} (p : R → Bool) (rows : List R) → any p rows ≡ false → changes p rows ≡ 0
changes_of_none p [] e = refl
changes_of_none p (r ∷ rows) e = ground (arith, changes_of_none p rows)

module _ (c : Config) where
  -- The terminal events of the correlation in the outbox.
  abbrev pub terminals : Emitter → ℕ
  terminals s = changes (is_own_terminal c) s.rows

  -- The rows change by at most `n` more terminal events, and the guard is not touched.
  pub record Adds (n : ℕ) (s t : Emitter) : Type 0 where
    pub grown : terminals t ≤ terminals s + n
    pub guarded : t.terminal_emitted ≡ s.terminal_emitted

  if-Adds :
      (n : ℕ) (test : Bool) (s t u : Emitter)
      → Adds n s t
      → Adds n s u
      → Adds n s (if test then t else u)
  if-Adds n true s t u a b = a
  if-Adds n false s t u a b = b

  ifs-Adds :
      (n : ℕ) (test : Bool) (s : Emitter) (o p : Outcome)
      → Adds n s o.state
      → Adds n s p.state
      → Adds n s (if test then o else p).state
  ifs-Adds n true s o p a b = a
  ifs-Adds n false s o p a b = b

  -- The same rows and guard.
  pub same-Adds :
      (n : ℕ) (s t : Emitter)
      → t.rows ≡ s.rows
      → t.terminal_emitted ≡ s.terminal_emitted
      → Adds n s t
  same-Adds n s t p q = record { grown = rw p (omega arith); guarded = q }

  then-Adds : (n : ℕ) (s t u : Emitter) → Adds n s t → Adds 0 t u → Adds n s u
  then-Adds n s t u a b = record {
    grown = omega (arith, a.grown, b.grown);
    guarded = b.guarded ∙ a.guarded;
  }

  deliver_durable-Adds :
      (e : OutboundEvent) (s : Emitter)
      → Adds (one_if (is_terminal_body e.body)) s (deliver_durable c e s).state
  unfolding deliver_durable persist_event
  deliver_durable-Adds e s =
      let n = one_if (is_terminal_body e.body) in
      ifs-Adds n (c.on_durable_prepared e) s _ _
        (elim (Option-cases (select (has_id e.event_id) s.rows)) [
          | inl f ↦
              rw (f, persist_event)
                (record {
                  grown =
                      ground (arith, changes-append_one (is_own_terminal c) s.rows (new_row c e));
                  guarded = refl;
                })
          | inr (r, f) ↦
              rw (f, persist_event)
                (ifs-Adds n (is_replay c e r) s _ _ (same-Adds n s s refl refl)
                  (same-Adds n s s refl refl))
        ])
        (same-Adds n s _ refl refl)

  pub emit_durable-Adds :
      (now : ℕ) (body : EventBody) (s : Emitter)
      → Adds (one_if (is_terminal_body body)) s (emit_durable c now body s).state
  unfolding emit_durable
  emit_durable-Adds now body s =
      let a = deliver_durable-Adds (next_event c now body s) (take_number c s) in
      record { grown = a.grown; guarded = a.guarded }

  pub flush_progress-Adds : (now : ℕ) (s : Emitter) → Adds 0 s (flush_progress c now s)
  unfolding flush_progress
  flush_progress-Adds now s = elim (Option-cases s.pending_progress) [
    | inl e ↦ rw (e, flush_progress) (same-Adds 0 _ _ refl refl)
    | inr (message, e) ↦
        rw (e, flush_progress)
          (if-Adds 0 (leb (s.last_progress_at + c.progress_threshold_ms) now) _ _ _
            (same-Adds 0 _ _ refl refl) (same-Adds 0 _ _ refl refl))
  ]

  pub ensure_started-Adds : (now : ℕ) (s : Emitter) → Adds 0 s (ensure_started c now s).state
  unfolding ensure_started
  ensure_started-Adds now s =
      let t = record s { started_emitted = true; last_progress_at = now } in
      let a = emit_durable-Adds now turn_started t in
      ifs-Adds 0 s.started_emitted s _ _ (same-Adds 0 s s refl refl)
        (record { grown = a.grown; guarded = a.guarded })

  pub message_update-Adds :
      (now : ℕ) (delta : Option Text) (s : Emitter) → Adds 0 s (handle_message_update c now delta s)
  unfolding handle_message_update handle_progress_candidate
  message_update-Adds now none s = same-Adds 0 s s refl refl
  message_update-Adds now (some delta) s =
      let t = record s { reply_text = s.reply_text ++ delta } in
      let u = record (emit_best_effort c now (turn_delta delta) t) {
        pending_progress = some delta;
      } in
      if-Adds 0 (is_empty delta) s _ _ (same-Adds 0 s s refl refl) (
        if-Adds 0 (s.closed || s.terminal_emitted) s _ _ (same-Adds 0 s t refl refl)
          (then-Adds 0 s u _ (same-Adds 0 s u refl refl) (flush_progress-Adds now u)))

  mark-Adds :
      (q : OutboxRow → Bool) (f : OutboxRow → OutboxRow) (s t : Emitter)
      → ((r : OutboxRow) → is_own_terminal c (f r) ≡ is_own_terminal c r)
      → t.rows ≡ update q f s.rows
      → t.terminal_emitted ≡ s.terminal_emitted
      → Adds 0 s t
  mark-Adds q f s t h e g =
      let kept = changes-update (is_own_terminal c) q f s.rows h in
      record { grown = rw e (omega (arith, kept)); guarded = g }

  pub resume_pending-Adds : (s : Emitter) → Adds 0 s (resume_pending c s)
  unfolding resume_pending
  resume_pending-Adds s = elim (Option-cases s.resuming) [
    | inl e ↦ rw (e, resume_pending) (same-Adds 0 _ _ refl refl)
    | inr (n, e) ↦ rw (e, resume_pending) (same-Adds 0 _ _ refl refl)
  ]

  retry_once-Adds :
      (ts id : Text) (s : Emitter) → Adds 0 s (retry_permanent_failure_once c ts id s).state
  unfolding retry_permanent_failure_once
  retry_once-Adds ts id s = elim (Option-cases (select (is_own_failure c id) s.rows)) [
    | inl e ↦ rw (e, retry_permanent_failure_once) (same-Adds 0 s s refl refl)
    | inr (r, e) ↦
        rw (e, retry_permanent_failure_once)
          (ifs-Adds 0 (c.on_durable_prepared r.payload) s _ _
            (mark-Adds (failed_at c id) (with_retry ts) s _ (λ q. refl) refl refl)
            (same-Adds 0 s s refl refl))
  ]

  pub retry-Adds : (ts id : Text) (s : Emitter) → Adds 0 s (retry_permanent_failure c ts id s).state
  unfolding retry_permanent_failure
  retry-Adds ts id s = elim (Option-cases (select (λ j. same j id) s.retrying)) [
    | inl e ↦ rw (e, retry_permanent_failure) (retry_once-Adds ts id s)
    | inr (j, e) ↦ rw (e, retry_permanent_failure) (same-Adds 0 s s refl refl)
  ]

  -- The guard is not touched, and at most one event is added.
  pub redeliver-Adds :
      (ts : Text) (e : OutboundEvent) (s : Emitter) → Adds 1 s (redeliver_durable c ts e s).state
  unfolding redeliver_durable
  redeliver-Adds ts e s =
      elim (Option-cases (select (λ r. has_id e.event_id r && is_own c r) s.rows)) [
        | inl f ↦
            let a = deliver_durable-Adds e s in
            rw (f, redeliver_durable)
              (record { grown = ground (arith, a.grown); guarded = a.guarded })
        | inr (r, f) ↦
            rw (f, redeliver_durable)
              (ifs-Adds 1 (same (c.encode r.payload) (c.encode e)) s _ _ (go r.status)
                (same-Adds 1 s s refl refl))
      ]
    where
      more : (t : Emitter) → Adds 0 s t → Adds 1 s t
      more t a = record { grown = omega (arith, a.grown); guarded = a.guarded }

      go : (status : OutboxStatus) → Adds 1 s (redeliver_row c ts e s status).state
      go pending = more _ (resume_pending-Adds s)
      go permanent_failure = more _ (retry-Adds ts e.event_id s)
      go delivered = same-Adds 1 s s refl refl

  settle_batch-Adds :
      (id : Text) (failed : Bool) (b : Batch) (s : Emitter) → Adds 0 s (settle_batch id failed b s)
  unfolding settle_batch
  settle_batch-Adds id failed live s = same-Adds 0 s s refl refl
  settle_batch-Adds id failed (resumed n last) s =
      if-Adds 0 ((last || failed) && is_current s.resuming n) s _ _ (same-Adds 0 s _ refl refl)
        (same-Adds 0 s s refl refl)
  settle_batch-Adds id failed retried s = same-Adds 0 s _ refl refl

  module _ (ts : Text) (e : OutboundEvent) (attempt : ℕ) (b : Batch) (rest : List Job) where
    give_up-Adds : (error : Text) (s : Emitter) → Adds 0 s (give_up c ts e b error rest s)
    unfolding give_up
    give_up-Adds error s =
        let t = mark e.event_id (with_permanent_failure error ts) (record s { chain = rest }) in
        let a =
          mark-Adds (has_id e.event_id) (with_permanent_failure error ts) s t (λ r. refl) refl
            refl in
        elim (Option-cases (c.on_durable_failed e)) [
          | inl f ↦ rw (f, give_up) (then-Adds 0 s t _ a (settle_batch-Adds e.event_id false b t))
          | inr (x, f) ↦
              rw (f, give_up) (then-Adds 0 s t _ a (settle_batch-Adds e.event_id true b t))
        ]

    try_again-Adds :
        (error : Text) (s : Emitter) → Adds 0 s (try_again c ts e attempt b error rest s)
    unfolding try_again
    try_again-Adds error s =
        let t = mark e.event_id (with_attempt (attempt + 1) error ts) s in
        let a =
          mark-Adds (has_id e.event_id) (with_attempt (attempt + 1) error ts) s t (λ r. refl) refl
            refl in
        if-Adds 0 (leb (total_posts c) (attempt + 1)) s _ _
          (then-Adds 0 s t _ a (give_up-Adds error t))
          (then-Adds 0 s t _ a (same-Adds 0 t _ refl refl))

    acknowledge-Adds : (s : Emitter) → Adds 0 s (acknowledge c ts e attempt b rest s)
    unfolding acknowledge
    acknowledge-Adds s =
        let t = mark e.event_id (with_delivered (attempt + 1) ts) s in
        let u = record t { chain = rest } in
        let a =
          mark-Adds (has_id e.event_id) (with_delivered (attempt + 1) ts) s t (λ r. refl) refl
            refl in
        let a' =
          mark-Adds (has_id e.event_id) (with_delivered (attempt + 1) ts) s u (λ r. refl) refl
            refl in
        elim (Option-cases (c.on_durable_delivered e)) [
          | inl f ↦
              rw (f, acknowledge) (then-Adds 0 s u _ a' (settle_batch-Adds e.event_id false b u))
          | inr (message, f) ↦ rw (f, acknowledge) (then-Adds 0 s t _ a (try_again-Adds message t))
        ]

    deliver_to-Adds :
        (target : Option Text) (r : Response) (s : Emitter)
        → Adds 0 s (deliver_to c target ts e attempt b r rest s)
    unfolding deliver_to
    deliver_to-Adds none r s = give_up-Adds _ s
    deliver_to-Adds (some url) r s =
        if-Adds 0 (leb (total_posts c) attempt) s _ _ (give_up-Adds [] s)
          (elim (Option-cases (error_of c url r)) [
            | inl g ↦ rw g (acknowledge-Adds s)
            | inr (error, g) ↦ rw g (try_again-Adds error s)
          ])

  pub post-Adds : (ts : Text) (r : Response) (s : Emitter) → Adds 0 s (post c ts r s)
  unfolding post deliver_payload
  post-Adds ts r s = go s.chain
    where
      go : (chain : List Job) → Adds 0 s (work c ts r chain s)
      go [] = same-Adds 0 s s refl refl
      go (delivers e attempt b ∷ rest) = deliver_to-Adds ts e attempt b rest c.callback_url r s
      go (best_effort e ∷ rest) = same-Adds 0 s _ refl refl
      go (rejects ∷ rest) = same-Adds 0 s _ refl refl
