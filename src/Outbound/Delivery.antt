-- ===== src/Outbound/Delivery.antt =====
-- packages/core/src/outbound-emitter.ts: the delivery of durable events, their recovery and their retry.
use omp_bundler.Prelude.{
  ℕ, ◌+◌, List, [], ◌∷◌, ◌++◌, Bool, true, false, ◌&&◌, ◌||◌, Option, none, some, Text, same,
  is_empty, length, keep, ltb, leb, ◌==◌, if◌then◌else◌, codes,
}
use omp_bundler.Prelude.Rows.{select, update, delete}
use omp_bundler.StorageKey.{decimal}
use omp_bundler.Contracts.{OutboundEvent}
use omp_bundler.Outbound.{
  OutboxStatus, pending, delivered, permanent_failure, OutboxRow, Config, Batch, live, resumed,
  retried, Job, delivers, best_effort, rejects, Emitter, Outcome, conflict, no_failure,
  not_prepared, done, throw, enqueue, has_id, is_own, deliver_durable,
}

-- How one POST ended: with a status, or with the message of an error.
pub data Response : Type 0 where
  responded : ℕ → Response
  broke : Text → Response

abbrev pub is_pending : OutboxStatus → Bool
is_pending pending = true
is_pending s = false

abbrev pub is_permanent_failure : OutboxStatus → Bool
is_permanent_failure permanent_failure = true
is_permanent_failure s = false

abbrev pub with_delivered : ℕ → Text → OutboxRow → OutboxRow
with_delivered n ts r = record r {
  status = delivered;
  attempts = n;
  last_error = none;
  updated_at = ts;
}

abbrev pub with_attempt : ℕ → Text → Text → OutboxRow → OutboxRow
with_attempt n error ts r = record r { attempts = n; last_error = some error; updated_at = ts }

abbrev pub with_permanent_failure : Text → Text → OutboxRow → OutboxRow
with_permanent_failure error ts r = record r {
  status = permanent_failure;
  last_error = some error;
  updated_at = ts;
}

abbrev pub with_retry : Text → OutboxRow → OutboxRow
with_retry ts r = record r { status = pending; attempts = 0; last_error = none; updated_at = ts }

abbrev pub mark : Text → (OutboxRow → OutboxRow) → Emitter → Emitter
mark id f s = record s { rows = update (has_id id) f s.rows }

abbrev pub is_current : Option ℕ → ℕ → Bool
is_current none n = false
is_current (some m) n = m == n

-- An operation is over, and so is what waits for it; `failed` if it was rejected.
unfoldable pub settle_batch : Text → Bool → Batch → Emitter → Emitter
settle_batch id failed live s = s
settle_batch id failed (resumed n last) s =
    if (last || failed) && is_current s.resuming n then record s { resuming = none } else s
settle_batch id failed retried s = record s { retrying = delete (λ j. same j id) s.retrying }

-- The candidates of a SELECT with ORDER BY sequence.
abbrev pub place : OutboxRow → List OutboxRow → List OutboxRow
place r [] = r ∷ []
place r (q ∷ rows) =
    let rest = place r rows in if leb r.sequence q.sequence then r ∷ q ∷ rows else q ∷ rest

unfoldable pub order_by_sequence : List OutboxRow → List OutboxRow
order_by_sequence [] = []
order_by_sequence (r ∷ rows) = place r (order_by_sequence rows)

unfoldable pub jobs_of : ℕ → List OutboxRow → List Job
jobs_of n [] = []
jobs_of n (r ∷ rows) = delivers r.payload r.attempts (resumed n (is_empty rows)) ∷ jobs_of n rows

module _ (c : Config) where
  abbrev pub total_posts : ℕ
  total_posts = 1 + length c.retry_delays_ms

  abbrev pub is_own_pending : OutboxRow → Bool
  is_own_pending r = is_own c r && is_pending r.status

  unfoldable pub resume_pending : Emitter → Emitter
  resume_pending s =
      let rows = order_by_sequence (keep is_own_pending s.rows) in
      elim s.resuming [
        | some n ↦ s
        | none ↦ record s {
          chain = s.chain ++ jobs_of s.resumes rows;
          resuming = if is_empty rows then none else some s.resumes;
          resumes = s.resumes + 1;
        }
      ]

  abbrev pub is_own_failure : Text → OutboxRow → Bool
  is_own_failure id r = has_id id r && (is_own c r && is_permanent_failure r.status)

  abbrev pub failed_at : Text → OutboxRow → Bool
  failed_at id r = has_id id r && is_permanent_failure r.status

  unfoldable pub retry_permanent_failure_once : Text → Text → Emitter → Outcome
  retry_permanent_failure_once ts id s = elim (select (is_own_failure id) s.rows) [
    | none ↦ throw (no_failure id) s
    | some r ↦
        if c.on_durable_prepared r.payload
        then done (
            enqueue (delivers r.payload 0 retried) (record s {
              rows = update (failed_at id) (with_retry ts) s.rows;
              retrying = id ∷ s.retrying;
            }))
        else throw not_prepared s
  ]

  -- A retry that is under way is joined.
  unfoldable pub retry_permanent_failure : Text → Text → Emitter → Outcome
  retry_permanent_failure ts id s = elim (select (λ j. same j id) s.retrying) [
    | some j ↦ done s
    | none ↦ retry_permanent_failure_once ts id s
  ]

  abbrev pub redeliver_row : Text → OutboundEvent → Emitter → OutboxStatus → Outcome
  redeliver_row ts e s pending = done (resume_pending s)
  redeliver_row ts e s permanent_failure = retry_permanent_failure ts e.event_id s
  redeliver_row ts e s delivered = done s

  -- `redeliverDurable`; the reconciliation of a delivered event only calls a hook.
  unfoldable pub redeliver_durable : Text → OutboundEvent → Emitter → Outcome
  redeliver_durable ts e s = elim (select (λ r. has_id e.event_id r && is_own c r) s.rows) [
    | none ↦ deliver_durable c e s
    | some r ↦
        if same (c.encode r.payload) (c.encode e)
        then redeliver_row ts e s r.status
        else throw (conflict e.event_id) s
  ]

  -- The message that a POST leaves, or none for an acknowledgement.
  abbrev pub error_of : Text → Response → Option Text
  error_of url (responded status) =
      if leb 200 status && ltb status 300
      then none
      else some (codes "adapter " ++ (url ++ (codes " responded " ++ decimal status)))
  error_of url (broke message) = some message

  -- The operation at the head of the chain ends in a permanent failure.
  unfoldable pub give_up : Text → OutboundEvent → Batch → Text → List Job → Emitter → Emitter
  give_up ts e b error rest s =
      let t = mark e.event_id (with_permanent_failure error ts) (record s { chain = rest }) in
      elim (c.on_durable_failed e) [
        | none ↦ settle_batch e.event_id false b t
        | some thrown ↦ settle_batch e.event_id true b t
      ]

  -- A POST failed; another one follows while the schedule has one.
  unfoldable pub try_again : Text → OutboundEvent → ℕ → Batch → Text → List Job → Emitter → Emitter
  try_again ts e attempt b error rest s =
      let t = mark e.event_id (with_attempt (attempt + 1) error ts) s in
      if leb total_posts (attempt + 1)
      then give_up ts e b error rest t
      else record t { chain = delivers e (attempt + 1) b ∷ rest }

  unfoldable pub acknowledge : Text → OutboundEvent → ℕ → Batch → List Job → Emitter → Emitter
  acknowledge ts e attempt b rest s =
      let t = mark e.event_id (with_delivered (attempt + 1) ts) s in
      elim (c.on_durable_delivered e) [
        | none ↦ settle_batch e.event_id false b (record t { chain = rest })
        | some message ↦ try_again ts e attempt b message rest t
      ]

  -- With the adapter's target, if there is one.
  unfoldable pub deliver_to :
      Option Text → Text → OutboundEvent → ℕ → Batch → Response → List Job → Emitter → Emitter
  unfolding decimal
  deliver_to none ts e attempt b r rest s =
      give_up ts e b (codes "no adapter target registered for \"" ++ (c.adapter_id ++ codes "\""))
        rest s
  deliver_to (some url) ts e attempt b r rest s =
      if leb total_posts attempt then give_up ts e b [] rest s else elim (error_of url r) [
        | none ↦ acknowledge ts e attempt b rest s
        | some error ↦ try_again ts e attempt b error rest s
      ]

  unfoldable pub deliver_payload :
      Text → OutboundEvent → ℕ → Batch → Response → List Job → Emitter → Emitter
  deliver_payload = deliver_to c.callback_url

  -- The operation at the head of the chain goes on up to the end of one POST.
  abbrev pub work : Text → Response → List Job → Emitter → Emitter
  work ts r [] s = s
  work ts r (delivers e attempt b ∷ rest) s = deliver_payload ts e attempt b r rest s
  work ts r (best_effort e ∷ rest) s = record s { chain = rest }
  work ts r (rejects ∷ rest) s = record s { chain = rest }

  unfoldable pub post : Text → Response → Emitter → Emitter
  post ts r s = work ts r s.chain s
