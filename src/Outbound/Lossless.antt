-- ===== src/Outbound/Lossless.antt =====
-- No durable event is lost, over calls, POSTs and restarts.
use mathlib.Core.Path.{subst}
use omp_bundler.Prelude.{
  ℕ, ◌+◌, ◌≡◌, ◌≤◌, refl, inl, inr, List, [], ◌∷◌, Bool, true, false, ◌&&◌, ◌||◌, Option, none,
  some, Text, length, leb, All, arith, Option-cases,
}
use omp_bundler.Contracts.{OutboundEvent}
use omp_bundler.Outbound.{
  OutboxRow, Config, Batch, live, resumed, retried, Job, delivers, best_effort, rejects, Emitter,
  has_id, emit_presence, same_presence, opened,
}
use omp_bundler.Outbound.Delivery.{
  Response, is_own_pending, mark, with_attempt, with_delivered, with_permanent_failure,
  settle_batch, is_current, total_posts, resume_pending, error_of, give_up, try_again, acknowledge,
  deliver_to, deliver_payload, work, post,
}
use omp_bundler.Outbound.Machine.{
  Call, ingests, emits_error, emits_presence, cancels, flushes, resumes_pending, closes, replies,
  retries, redelivers, posts, restarts, respond, history,
}
use omp_bundler.Outbound.Covered.{
  is_keyed, is_covered, Kept, covered-ended, covered-again, covered-rest, attempted-covered,
  keyed-update, covered-cons,
}
use omp_bundler.Outbound.Schedule.{all_posts_left, post_all, post_all_terminates}
use omp_bundler.Outbound.Recovery.{
  same-Safe, if-Safe, ifs-Safe, emit_durable-Safe, flush_progress-Safe, emit_provider_error-Safe,
  end_with-Safe, ingest_frame-Safe, resume_fresh-Safe, resume_pending-Safe, retry-Safe,
  redeliver-Safe,
}

module _ (c : Config) where
  abbrev Safe : Emitter → Type 0
  Safe s = Kept c s

  settle_batch-Safe :
      (id : Text) (failed : Bool) (b : Batch) (s : Emitter)
      → Safe s
      → Safe (settle_batch id failed b s)
  unfolding settle_batch
  settle_batch-Safe id failed live s k = k
  settle_batch-Safe id failed (resumed n last) s k =
      if-Safe c ((last || failed) && is_current s.resuming n) _ _ (same-Safe c s _ refl refl k) k
  settle_batch-Safe id failed retried s k = same-Safe c s _ refl refl k

  -- The delivery at the head of the chain, whatever the chain of the state is.
  module _ (ts : Text) (e : OutboundEvent) (attempt : ℕ) (b : Batch) (rest : List Job) where
    abbrev Heads : Emitter → Type 0
    Heads s =
        All (λ r. is_keyed r ≡ true) s.rows
        × All (λ r. is_covered c (delivers e attempt b ∷ rest) r ≡ true) s.rows

    give_up-Safe : (error : Text) (s : Emitter) → Heads s → Safe (give_up c ts e b error rest s)
    unfolding give_up
    give_up-Safe error s h =
        let t = mark e.event_id (with_permanent_failure error ts) (record s { chain = rest }) in
        let k : Safe t = record {
          keyed =
              keyed-update c (has_id e.event_id) (with_permanent_failure error ts) s.rows
                (λ r. refl) h.0;
          covered =
              covered-ended c e attempt b (with_permanent_failure error ts) rest s.rows
                (λ r. ground arith) h.1;
        } in
        elim (Option-cases (c.on_durable_failed e)) [
          | inl f ↦ rw (f, give_up) (settle_batch-Safe e.event_id false b t k)
          | inr (x, f) ↦ rw (f, give_up) (settle_batch-Safe e.event_id true b t k)
        ]

    attempted-Heads :
        (error : Text) (s : Emitter)
        → Heads s
        → Heads (mark e.event_id (with_attempt (attempt + 1) error ts) s)
    attempted-Heads error s h = (
      keyed-update c (has_id e.event_id) (with_attempt (attempt + 1) error ts) s.rows (λ r. refl)
          h.0,
      attempted-covered c e.event_id (attempt + 1) error ts (delivers e attempt b ∷ rest) s.rows
          h.1,
    )

    try_again-Safe :
        (error : Text) (s : Emitter) → Heads s → Safe (try_again c ts e attempt b error rest s)
    unfolding try_again
    try_again-Safe error s h =
        let t = mark e.event_id (with_attempt (attempt + 1) error ts) s in
        let h' = attempted-Heads error s h in
        if-Safe c (leb (total_posts c) (attempt + 1)) _ _ (give_up-Safe error t h') (record {
          keyed = h'.0;
          covered = covered-again c e attempt (attempt + 1) b rest t.rows h'.1;
        })

    acknowledge-Safe : (s : Emitter) → Heads s → Safe (acknowledge c ts e attempt b rest s)
    unfolding acknowledge
    acknowledge-Safe s h =
        let t = mark e.event_id (with_delivered (attempt + 1) ts) s in
        let keyed =
          keyed-update c (has_id e.event_id) (with_delivered (attempt + 1) ts) s.rows (λ r. refl)
            h.0 in
        let ended =
          covered-ended c e attempt b (with_delivered (attempt + 1) ts) rest s.rows
            (λ r. ground arith) h.1 in
        elim (Option-cases (c.on_durable_delivered e)) [
          | inl f ↦
              rw (f, acknowledge)
                (settle_batch-Safe e.event_id false b _ (record { keyed = keyed; covered = ended }))
          | inr (message, f) ↦
              rw (f, acknowledge)
                (try_again-Safe message t
                  (keyed, covered-cons c (delivers e attempt b) rest t.rows ended))
        ]

    deliver_to-Safe :
        (target : Option Text) (r : Response) (s : Emitter)
        → Heads s
        → Safe (deliver_to c target ts e attempt b r rest s)
    unfolding deliver_to
    deliver_to-Safe none r s h = give_up-Safe _ s h
    deliver_to-Safe (some url) r s h =
        if-Safe c (leb (total_posts c) attempt) _ _ (give_up-Safe [] s h)
          (elim (Option-cases (error_of c url r)) [
            | inl g ↦ rw g (acknowledge-Safe s h)
            | inr (error, g) ↦ rw g (try_again-Safe error s h)
          ])

  pub post-Safe : (ts : Text) (r : Response) (s : Emitter) → Safe s → Safe (post c ts r s)
  unfolding post deliver_payload
  post-Safe ts r s k = go s.chain k.covered
    where
      go :
          (chain : List Job)
          → All (λ q. is_covered c chain q ≡ true) s.rows
          → Safe (work c ts r chain s)
      go [] h = k
      go (delivers e attempt b ∷ rest) h =
          deliver_to-Safe ts e attempt b rest c.callback_url r s (k.keyed, h)
      go (best_effort e ∷ rest) h = record {
        keyed = k.keyed;
        covered = covered-rest c (best_effort e) rest s.rows (λ id. refl) h;
      }
      go (rejects ∷ rest) h = record {
        keyed = k.keyed;
        covered = covered-rest c rejects rest s.rows (λ id. refl) h;
      }

  respond-Safe : (now : ℕ) (call : Call) (s : Emitter) → Safe s → Safe (respond c now call s)
  unfolding respond emit_presence
  respond-Safe now (ingests frame) s k = ingest_frame-Safe c now frame s k
  respond-Safe now (emits_error code message retryable) s k =
      emit_provider_error-Safe c now code message retryable s k
  respond-Safe now (emits_presence p) s k =
      ifs-Safe c (same_presence p s.presence) _ _ k
        (emit_durable-Safe c now _ _ (same-Safe c s _ refl refl k))
  respond-Safe now cancels s k = end_with-Safe c now _ s k
  respond-Safe now flushes s k = flush_progress-Safe c now s k
  respond-Safe now resumes_pending s k = resume_pending-Safe c s k
  respond-Safe now closes s k = same-Safe c s _ refl refl k
  respond-Safe now (replies text) s k = end_with-Safe c now _ s k
  respond-Safe now (retries id) s k = retry-Safe c (c.iso now) id s k
  respond-Safe now (redelivers e) s k = redeliver-Safe c (c.iso now) e s k
  respond-Safe now (posts r) s k = post-Safe (c.iso now) r s k
  respond-Safe now restarts s k = resume_fresh-Safe c (opened c s.rows s.drawn) refl k.keyed

  -- From a new emitter that resumes on an outbox whose rows are kept under their events' ids, over any
  -- calls, POSTs and restarts in any order, every row of the correlation that is still to be delivered
  -- has its delivery in the chain: no durable event is lost.
  pub history-Kept :
      (rows : List OutboxRow) (drawn : ℕ) (calls : List (ℕ × Call))
      → All (λ r. is_keyed r ≡ true) rows
      → Kept c (history c calls (resume_pending c (opened c rows drawn)))
  unfolding history
  history-Kept rows drawn calls k = go calls _ (resume_fresh-Safe c (opened c rows drawn) refl k)
    where
      go : (calls : List (ℕ × Call)) (s : Emitter) → Safe s → Safe (history c calls s)
      go [] s k = k
      go ((now, call) ∷ calls) s k = go calls (respond c now call s) (respond-Safe now call s k)

  none_pending :
      (rows : List OutboxRow)
      → All (λ r. is_covered c [] r ≡ true) rows
      → All (λ r. is_own_pending c r ≡ false) rows
  none_pending [] k = tt
  none_pending (r ∷ rows) k = (ground (arith, k.0), none_pending rows k.1)

  post_all-Safe : (rs : List (Text × Response)) (s : Emitter) → Safe s → Safe (post_all c rs s)
  unfolding post_all
  post_all-Safe [] s k = k
  post_all-Safe ((ts, r) ∷ rs) s k = post_all-Safe rs (post c ts r s) (post-Safe ts r s k)

  -- Where every row that is still to be delivered has its delivery in the chain, as many POSTs as the
  -- chain has left on the schedule of retries, whatever the adapter answers, leave no row of the
  -- correlation pending: each event is delivered or retained as a permanent failure.
  pub post_all-Settles :
      (rs : List (Text × Response)) (s : Emitter)
      → Kept c s
      → all_posts_left c s.chain ≤ length rs
      → All (λ r. is_own_pending c r ≡ false) (post_all c rs s).rows
  post_all-Settles rs s k le =
      let t = post_all c rs s in
      none_pending t.rows (
        subst (λ chain. All (λ r. is_covered c chain r ≡ true) t.rows)
          (post_all_terminates c rs s le) (post_all-Safe rs s k).covered)
