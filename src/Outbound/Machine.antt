-- ===== src/Outbound/Machine.antt =====
-- packages/core/src/outbound-emitter.ts: the emitter over calls, POSTs and restarts in any order.
use omp_bundler.Prelude.{ℕ, List, [], ◌∷◌, Bool, true, Text}
use omp_bundler.Contracts.{OutboundEvent, Presence}
use omp_bundler.Outbound.{
  Config, Emitter, flush_progress, emit_provider_error, emit_cancelled, emit_direct_reply,
  emit_presence, opened,
}
use omp_bundler.Outbound.Frames.{Frame, ingest_frame}
use omp_bundler.Outbound.Delivery.{
  Response, resume_pending, retry_permanent_failure, redeliver_durable, post,
}

pub data Call : Type 0 where
  ingests : Frame → Call
  emits_error : Text → Text → Bool → Call
  emits_presence : Presence → Call
  cancels flushes resumes_pending closes : Call
  replies : Text → Call
  retries : Text → Call
  redelivers : OutboundEvent → Call
  -- The head of the delivery chain goes on to the end of one POST.
  posts : Response → Call
  -- The process ends, and another one opens the outbox and resumes.
  restarts : Call

module _ (c : Config) where
  unfoldable pub respond : ℕ → Call → Emitter → Emitter
  respond now (ingests frame) s = (ingest_frame c now frame s).state
  respond now (emits_error code message retryable) s =
      (emit_provider_error c now code message retryable s).state
  respond now (emits_presence p) s = (emit_presence c now p s).state
  respond now cancels s = (emit_cancelled c now s).state
  respond now flushes s = flush_progress c now s
  respond now resumes_pending s = resume_pending c s
  respond now closes s = record s { closed = true }
  respond now (replies text) s = (emit_direct_reply c now text s).state
  respond now (retries id) s = (retry_permanent_failure c (c.iso now) id s).state
  respond now (redelivers e) s = (redeliver_durable c (c.iso now) e s).state
  respond now (posts r) s = post c (c.iso now) r s
  respond now restarts s = resume_pending c (opened c s.rows s.drawn)

  unfoldable pub history : List (ℕ × Call) → Emitter → Emitter
  unfolding respond
  history [] s = s
  history ((now, call) ∷ calls) s = history calls (respond now call s)
