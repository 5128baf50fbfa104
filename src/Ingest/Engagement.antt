-- ===== src/Ingest/Engagement.antt =====
-- When a message starts a turn: the engagement window, and what opens it.
use omp_bundler.Prelude.{
  ℕ, ◌+◌, ◌-◌, ◌≡◌, refl, sym, ap, ◌∙◌, inl, inr, List, [], Bool, true, false, not, ◌&&◌, ◌||◌,
  none, some, Text, same, same_iff, same_refl, length, ltb, arith, Bool-cases, Option-cases,
}
use omp_bundler.Prelude.Maps.{get}
use omp_bundler.Contracts.{InboundMessage}
use omp_bundler.StorageKey.{storage_key}
use omp_bundler.Ingest.Render.{BufferedRecord}
use omp_bundler.Ingest.{
  IngestBuffer, IngestResult, buffered, activate, is_active, is_open, ConversationState,
  ConversationStatus, to_record, state_for, close_window, arrive, ingest, dismiss, inspect,
}
use omp_bundler.Ingest.Ownership.{state_for-set, state_for_of_get}

abbrev pub starts_turn : IngestResult → Bool
starts_turn (buffered r depth) = false
starts_turn (activate mode records text) = true

-- Whether the window is open and no exchange is going on, `since` after the last arrival.
abbrev pub engaged : IngestBuffer → ConversationState → ℕ → Bool
engaged b s now =
    is_active s now
    && not (ltb 0 b.quiet_period_ms && ltb (now - s.last_arrival_at) b.quiet_period_ms)

arrive_starts :
    (b : IngestBuffer) (s : ConversationState) (r : BufferedRecord) (streaming : Bool)
    → starts_turn (arrive b s r streaming).1 ≡ (r.addressed || engaged b s r.received_at)
unfolding arrive
arrive_starts b s r streaming = ground arith

ingest_starts :
    (b : IngestBuffer) (t : ℕ) (a : Text) (m : InboundMessage) (streaming : Bool)
    → starts_turn (ingest b t a m streaming).1
      ≡ (m.addressed || engaged b (state_for (storage_key a m.conversation_key) b.states) t)
unfolding ingest to_record
ingest_starts b t a m streaming = arrive_starts b _ (to_record a m t) streaming

arrive_addressed :
    (b : IngestBuffer) (s : ConversationState) (r : BufferedRecord) (streaming : Bool)
    → r.addressed ≡ true
    → ((arrive b s r streaming).0.window_deadline ≡ some (r.received_at + b.engagement_window_ms))
      × ((arrive b s r streaming).0.last_arrival_at ≡ r.received_at)
unfolding arrive
arrive_addressed b s r streaming h = (ground arith, ground arith)

-- The conversation's own state after an arrival.
pub state_for-ingest :
    (b : IngestBuffer) (t : ℕ) (a k : Text) (m : InboundMessage) (streaming : Bool)
    → same (storage_key a m.conversation_key) k ≡ true
    → state_for k (ingest b t a m streaming).0.states
      ≡ (arrive b (state_for k b.states) (to_record a m t) streaming).0
unfolding ingest
state_for-ingest b t a k m streaming h =
    state_for-set (storage_key a m.conversation_key) k _ b.states
    ∙ ground (arith, same_iff (storage_key a m.conversation_key) k)

-- Another conversation's state after an arrival.
pub state_for-ingest_other :
    (b : IngestBuffer) (t : ℕ) (a k : Text) (m : InboundMessage) (streaming : Bool)
    → same (storage_key a m.conversation_key) k ≡ false
    → state_for k (ingest b t a m streaming).0.states ≡ state_for k b.states
unfolding ingest
state_for-ingest_other b t a k m streaming h =
    state_for-set (storage_key a m.conversation_key) k _ b.states ∙ rw h

engaged_lem :
    (b : IngestBuffer) (s : ConversationState) (t t' : ℕ)
    → s.window_deadline ≡ some (t + b.engagement_window_ms)
    → s.last_arrival_at ≡ t
    → engaged b s t' ≡ (
        ltb t' (t + b.engagement_window_ms)
        && not (ltb 0 b.quiet_period_ms && ltb (t' - t) b.quiet_period_ms))
unfolding is_active
engaged_lem b s t t' w l = rw (w, l, is_active)

-- After a message that addresses the agent, the next message of the conversation starts a turn if
-- it too is addressed, or else exactly if it comes before the window is over and not within the
-- quiet period.
pub ingest-ingest_addressed :
    (b : IngestBuffer) (t t' : ℕ) (a : Text) (m m' : InboundMessage) (streaming streaming' : Bool)
    → m.addressed ≡ true
    → m'.conversation_key ≡ m.conversation_key
    → starts_turn (ingest (ingest b t a m streaming).0 t' a m' streaming').1 ≡ (
        m'.addressed
        || (ltb t' (t + b.engagement_window_ms)
            && not (ltb 0 b.quiet_period_ms && ltb (t' - t) b.quiet_period_ms)))
unfolding ingest to_record
ingest-ingest_addressed b t t' a m m' streaming streaming' h e =
    let k = storage_key a m'.conversation_key in
    let b' = (ingest b t a m streaming).0 in
    let s =
      state_for-ingest b t a k m streaming (rw e (same_refl (storage_key a m.conversation_key))) in
    let (w, l) = arrive_addressed b (state_for k b.states) (to_record a m t) streaming h in
    ingest_starts b' t' a m' streaming'
    ∙ ap (λ x. m'.addressed || x)
        (rw s
          (engaged_lem b (arrive b (state_for k b.states) (to_record a m t) streaming).0 t t' w l))

closed_engaged :
    (b : IngestBuffer) (s : ConversationState) (t : ℕ)
    → s.window_deadline ≡ none
    → engaged b s t ≡ false
unfolding is_active
closed_engaged b s t e = rw (e, is_active)

state_for_of_none :
    (k : Text) (states : List (Text × ConversationState))
    → get k states ≡ none
    → state_for k states ≡ record { backlog = []; window_deadline = none; last_arrival_at = 0 }
unfolding state_for
state_for_of_none k states e = rw (e, state_for)

dismiss_closed :
    (b : IngestBuffer) (t : ℕ) (a c : Text)
    → (state_for (storage_key a c) (dismiss b t a c).0.states).window_deadline ≡ none
unfolding dismiss
dismiss_closed b t a c =
    let k = storage_key a c in
    elim (Option-cases (get (storage_key a c) b.states)) [
      | inl e ↦ rw (e, dismiss) (rw (state_for_of_none k b.states e))
      | inr (s, e) ↦ elim (Option-cases s.window_deadline) [
        | inl f ↦
            rw (e, f, dismiss)
              (ap (λ (s : ConversationState). s.window_deadline) (state_for_of_get k b.states e)
                ∙ f)
        | inr (deadline, f) ↦
            rw (e, f, dismiss, close_window)
              (rw (state_for-set k k (record s { window_deadline = none }) b.states, same_refl k))
      ]
    ]

-- After a conversation is dismissed, a next message there that does not address the agent starts no
-- turn.
pub ingest-dismiss :
    (b : IngestBuffer) (t t' : ℕ) (a : Text) (m : InboundMessage) (streaming : Bool)
    → m.addressed ≡ false
    → starts_turn (ingest (dismiss b t a m.conversation_key).0 t' a m streaming).1 ≡ false
ingest-dismiss b t t' a m streaming h =
    let b' = (dismiss b t a m.conversation_key).0 in
    ingest_starts b' t' a m streaming
    ∙ rw (
      h,
      closed_engaged b' (state_for (storage_key a m.conversation_key) b'.states) t'
          (dismiss_closed b t a m.conversation_key),
    )

-- What a status says of the state of a conversation at a time.
abbrev pub Shows : ConversationState → ConversationStatus → ℕ → Type 0
Shows s status t =
    (status.active ≡ is_open s.window_deadline t)
    × (status.window_deadline ≡ s.window_deadline)
    × (status.backlog_depth ≡ length s.backlog)
    × (status.active ≡ false → s.window_deadline ≡ none)

-- A status is that of the state which the call leaves, and neither ever has the deadline of a
-- window that is over.
pub inspect-Shows :
    (b : IngestBuffer) (t : ℕ) (a c : Text)
    → let (b', status) = inspect b t a c in Shows (state_for (storage_key a c) b'.states) status t
unfolding inspect
inspect-Shows b t a c =
    let k = storage_key a c in
    elim (Option-cases (get k b.states)) [
      | inl e ↦ rw (e, inspect) (rw (state_for_of_none k b.states e) (refl, refl, refl, λ h. refl))
      | inr (s, e) ↦ elim (Bool-cases (is_active s t)) [
        | inl on ↦
            rw (e, on, inspect) (rw (state_for_of_get k b.states e) (sym on, refl, refl, λ h. cc))
        | inr off ↦ elim (Option-cases s.window_deadline) [
          | inl f ↦
              rw (e, off, f, inspect)
                (rw (state_for_of_get k b.states e) (rw f (refl, refl, refl, λ h. refl)))
          | inr (deadline, f) ↦
              rw (e, off, f, inspect, close_window)
                (rw (state_for-set k k (record s { window_deadline = none }) b.states, same_refl k)
                  (refl, refl, refl, λ h. refl))
        ]
      ]
    ]
