-- ===== src/Outbound/Tests.antt =====
-- Runs of an emitter, and its theorems at concrete calls.
use omp_bundler.Prelude.{
  ℕ, ◌+◌, ◌≡◌, ◌≤◌, refl, List, [], ◌∷◌, true, false, none, some, Text, same, codes, All, map,
  arith,
}
use omp_bundler.StorageKey.{decimal}
use omp_bundler.Outbound.{
  Config, Emitter, OutboxStatus, OutboxRow, delivered, permanent_failure, opened, and_then,
  persist_event, deliver_durable, emit_durable, flush_progress, ensure_started, finish,
  emit_provider_error,
}
use omp_bundler.Outbound.Frames.{
  turn_start, message_update, agent_end, agent_end_has_model_error, handle_progress_candidate,
  handle_message_update, handle_agent_end, ingest_frame,
}
use omp_bundler.Outbound.Delivery.{
  Response, responded, broke, settle_batch, order_by_sequence, jobs_of, is_own_pending,
  resume_pending, give_up, try_again, acknowledge, deliver_to, deliver_payload, post,
}
use omp_bundler.Outbound.Machine.{Call, ingests, posts, restarts, respond, history}
use omp_bundler.Outbound.Covered.{Kept}
use omp_bundler.Outbound.Lossless.{history-Kept, post_all-Settles}
use omp_bundler.Outbound.Terminals.{terminals}
use omp_bundler.Outbound.Once.{redeliveries, history-Guarded}
use omp_bundler.Outbound.Schedule.{all_posts_left, post_all, post_all_terminates}

abbrev config : Config
config = record {
  adapter_id = codes "slack";
  conversation_key = codes "room";
  correlation_id = codes "c1";
  callback_url = some (codes "http://slack");
  retry_delays_ms = 100 ∷ 200 ∷ [];
  progress_threshold_ms = 1000;
  uuid = λ n. n ∷ [];
  iso = λ n. n ∷ [];
  encode = λ e. e.event_id;
  on_durable_prepared = λ e. true;
  on_durable_delivered = λ e. none;
  on_durable_failed = λ e. none;
}

-- A turn with a reply; the first POST fails, and the process ends before the others.
abbrev turn : List (ℕ × Call)
turn =
    (1, ingests turn_start)
    ∷ (2, ingests (message_update (some (codes "hi"))))
    ∷ (3, posts (responded 500))
    ∷ (4, ingests (agent_end []))
    ∷ (5, restarts)
    ∷ []

abbrev after_turn : Emitter
after_turn = history config turn (resume_pending config (opened config [] 0))

-- A refusal, an acknowledgement, and three errors.
abbrev answers : List (Text × Response)
answers =
    ([], responded 503)
    ∷ ([], responded 200)
    ∷ ([], broke (codes "timeout"))
    ∷ ([], responded 500)
    ∷ ([], responded 500)
    ∷ []

abbrev status_of : OutboxRow → OutboxStatus
status_of r = r.status

answers_run :
    map status_of (post_all config answers after_turn).rows ≡ delivered ∷ permanent_failure ∷ []
unfolding history respond post ingest_frame ensure_started emit_durable deliver_durable
    persist_event deliver_payload deliver_to acknowledge try_again give_up settle_batch same
    resume_pending order_by_sequence jobs_of handle_message_update handle_progress_candidate
    flush_progress handle_agent_end finish and_then emit_provider_error agent_end_has_model_error
    post_all decimal
answers_run = refl

left_runs : all_posts_left config after_turn.chain ≡ 5
unfolding history respond post ingest_frame ensure_started emit_durable deliver_durable
    persist_event deliver_payload deliver_to acknowledge try_again give_up settle_batch same
    resume_pending order_by_sequence jobs_of handle_message_update handle_progress_candidate
    flush_progress handle_agent_end finish and_then emit_provider_error agent_end_has_model_error
    post_all decimal
left_runs = refl

answers_suffice : all_posts_left config after_turn.chain ≤ 5
unfolding history respond post ingest_frame ensure_started emit_durable deliver_durable
    persist_event deliver_payload deliver_to acknowledge try_again give_up settle_batch same
    resume_pending order_by_sequence jobs_of handle_message_update handle_progress_candidate
    flush_progress handle_agent_end finish and_then emit_provider_error agent_end_has_model_error
    post_all decimal
answers_suffice = omega (arith, left_runs)

history-Kept_example : Kept config after_turn
history-Kept_example = history-Kept config [] 0 turn tt

history-Guarded_example : terminals config after_turn ≤ 1 + redeliveries turn
history-Guarded_example = history-Guarded config [] 0 turn (omega arith)

post_all_terminates_example : (post_all config answers after_turn).chain ≡ []
post_all_terminates_example = post_all_terminates config answers after_turn answers_suffice

post_all-Settles_example :
    All (λ r. is_own_pending config r ≡ false) (post_all config answers after_turn).rows
post_all-Settles_example =
    post_all-Settles config answers after_turn history-Kept_example answers_suffice

-- An acknowledged event whose hook throws is sent again, and ends as a failure.
abbrev throwing : Config
throwing = record config { on_durable_delivered = λ e. some (codes "no entry") }

abbrev acknowledged : List (ℕ × Call)
acknowledged =
    (1, ingests turn_start)
    ∷ (2, posts (responded 200))
    ∷ (3, posts (responded 200))
    ∷ (4, posts (responded 200))
    ∷ []

throwing_runs :
    map status_of (history throwing acknowledged (opened throwing [] 0)).rows
    ≡ permanent_failure ∷ []
unfolding history respond post ingest_frame ensure_started emit_durable deliver_durable
    persist_event deliver_payload deliver_to acknowledge try_again give_up settle_batch same
    resume_pending order_by_sequence jobs_of handle_message_update handle_progress_candidate
    flush_progress handle_agent_end finish and_then emit_provider_error agent_end_has_model_error
    post_all decimal
throwing_runs = refl
