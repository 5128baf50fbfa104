-- ===== src/Ingest/Silence.antt =====
-- The agent is silent in a conversation until a message there addresses it.
use mathlib.Core.Path.{subst}
use omp_bundler.Prelude.{
  ℕ, ◌≡◌, refl, sym, ap, ◌∙◌, inl, inr, List, [], ◌∷◌, ◌++◌, Bool, true, false, none, some, Text,
  same, same_iff, length, length-append, keep-append, All, ◌==◌, arith, Bool-cases, Option-cases,
}
use omp_bundler.Prelude.Maps.{get, set}
use omp_bundler.Contracts.{InboundMessage}
use omp_bundler.StorageKey.{storage_key}
use omp_bundler.Ingest.Render.{BufferedRecord}
use omp_bundler.Ingest.{
  IngestBuffer, ConversationState, new_buffer, is_active, to_record, state_for, arrive, ingest,
  settle, sweep_settled, close_window, dismiss, record_interaction, inspect,
}
use omp_bundler.Ingest.History.{
  Call, ingests, sweeps, dismisses, interacts, inspects, flushed, step, run,
}
use omp_bundler.Ingest.Ownership.{
  belongs, of_key, IsValid, backlog_of, state_for-set, state_for_of_get,
}
use omp_bundler.Ingest.Delivery.{
  ingest-Accounts, step-Accounts, new_buffer_empty, new_buffer-IsValid,
}
use omp_bundler.Ingest.Engagement.{state_for-ingest_other}
use omp_bundler.Ingest.Sweep.{state_for-sweep_states, sweep_settled_off, sweep_settled_on}

abbrev IsClosed : Text → IngestBuffer → Type 0
IsClosed k b = (state_for k b.states).window_deadline ≡ none

-- The call does not address the agent in the conversation.
abbrev pub Unaddressed : Text → Call → Type 0
Unaddressed k (ingests now a m streaming) =
    same (storage_key a m.conversation_key) k ≡ true → m.addressed ≡ false
Unaddressed k _ = Unit

arrive_closed :
    (b : IngestBuffer) (s : ConversationState) (r : BufferedRecord) (streaming : Bool)
    → s.window_deadline ≡ none
    → r.addressed ≡ false
    → ((arrive b s r streaming).0.window_deadline ≡ none)
      × (flushed (arrive b s r streaming).1 ≡ [])
unfolding arrive
arrive_closed b s r streaming c u = (ground arith, ground arith)

settle_closed :
    (b : IngestBuffer) (now : ℕ) (s : ConversationState)
    → s.window_deadline ≡ none
    → (settle b now s).0 ≡ s
unfolding settle
settle_closed b now s c = ground arith

set-IsClosed :
    (k j : Text) (s : ConversationState) (b : IngestBuffer)
    → (same j k ≡ true → s.window_deadline ≡ none)
    → IsClosed k b
    → IsClosed k (record b { states = set j s b.states })
set-IsClosed k j s b h c = elim (Bool-cases (same j k)) [
  | inl hit ↦ rw (state_for-set j k s b.states, hit) (h hit)
  | inr miss ↦ rw (state_for-set j k s b.states, miss) c
]

closed_inactive :
    (s : ConversationState) (now : ℕ) → s.window_deadline ≡ none → is_active s now ≡ true → ⊥
unfolding is_active
closed_inactive s now c on = ground arith

closed_at :
    (k j : Text) (b : IngestBuffer)
    → same j k ≡ true
    → IsClosed k b
    → (state_for j b.states).window_deadline ≡ none
closed_at k j b hit closed = subst (λ i. IsClosed i b) (sym ((same_iff j k).0 hit)) closed

interact-IsClosed :
    (b : IngestBuffer) (now : ℕ) (k a c : Text)
    → IsClosed k b
    → IsClosed k (record_interaction b now a c).0
unfolding record_interaction
interact-IsClosed b now k a c closed =
    let j = storage_key a c in
    elim (Option-cases (get j b.states)) [
      | inl e ↦ rw (e, record_interaction) closed
      | inr (s, e) ↦ elim (Bool-cases (is_active s now)) [
        | inr off ↦ rw (e, off, record_interaction) closed
        | inl on ↦
            rw (e, on, record_interaction)
              (set-IsClosed k j _ b
                (λ hit. absurd (
                  closed_inactive s now
                    (ap (λ (s : ConversationState). s.window_deadline)
                        (sym (state_for_of_get j b.states e))
                      ∙ closed_at k j b hit closed)
                    on))
                closed)
      ]
    ]

-- A call that only closes a window, or none.
dismiss-IsClosed :
    (b : IngestBuffer) (now : ℕ) (k a c : Text) → IsClosed k b → IsClosed k (dismiss b now a c).0
unfolding dismiss close_window
dismiss-IsClosed b now k a c closed =
    let j = storage_key a c in
    elim (Option-cases (get j b.states)) [
      | inl e ↦ rw (e, dismiss) closed
      | inr (s, e) ↦ elim (Option-cases s.window_deadline) [
        | inl f ↦ rw (e, f, dismiss) closed
        | inr (deadline, f) ↦ rw (e, f, dismiss) (set-IsClosed k j _ b (λ hit. refl) closed)
      ]
    ]

inspect-IsClosed :
    (b : IngestBuffer) (now : ℕ) (k a c : Text) → IsClosed k b → IsClosed k (inspect b now a c).0
unfolding inspect close_window
inspect-IsClosed b now k a c closed =
    let j = storage_key a c in
    elim (Option-cases (get j b.states)) [
      | inl e ↦ rw (e, inspect) closed
      | inr (s, e) ↦ elim (Bool-cases (is_active s now)) [
        | inl on ↦ rw (e, on, inspect) closed
        | inr off ↦ elim (Option-cases s.window_deadline) [
          | inl f ↦ rw (e, off, f, inspect) closed
          | inr (deadline, f) ↦ rw (e, off, f, inspect) (set-IsClosed k j _ b (λ hit. refl) closed)
        ]
      ]
    ]

sweep_closed :
    (b : IngestBuffer) (now : ℕ) (k : Text)
    → IsClosed k b
    → state_for k (sweep_settled b now).0.states ≡ state_for k b.states
sweep_closed b now k closed = elim (Bool-cases (b.quiet_period_ms == 0)) [
  | inl off ↦ rw (sweep_settled_off b now off)
  | inr on ↦
      rw (sweep_settled_on b now on) (
        state_for-sweep_states b now k b.states ∙ settle_closed b now (state_for k b.states) closed)
]

ingest-IsClosed :
    (b : IngestBuffer) (now : ℕ) (k a : Text) (m : InboundMessage) (streaming : Bool)
    → Unaddressed k (ingests now a m streaming)
    → IsClosed k b
    → IsClosed k (ingest b now a m streaming).0
unfolding ingest to_record
ingest-IsClosed b now k a m streaming u closed =
    let j = storage_key a m.conversation_key in
    set-IsClosed k j _ b
      (λ hit.
        (arrive_closed b (state_for j b.states) (to_record a m now) streaming
          (closed_at k j b hit closed) (u hit)).0)
      closed

step-IsClosed :
    (b : IngestBuffer) (c : Call) (k : Text)
    → Unaddressed k c
    → IsClosed k b
    → IsClosed k (step b c).0
unfolding step
step-IsClosed b (ingests now a m streaming) k u closed =
    ingest-IsClosed b now k a m streaming u closed
step-IsClosed b (sweeps now) k u closed =
    ap (λ (s : ConversationState). s.window_deadline) (sweep_closed b now k closed) ∙ closed
step-IsClosed b (dismisses now a c) k u closed = dismiss-IsClosed b now k a c closed
step-IsClosed b (interacts now a c) k u closed = interact-IsClosed b now k a c closed
step-IsClosed b (inspects now a c) k u closed = inspect-IsClosed b now k a c closed

-- What is handed over is nothing when the backlog stays and nothing came.
nil_of_account :
    (out b b' came : List BufferedRecord) → out ++ b' ≡ b ++ came → b' ≡ b → came ≡ [] → out ≡ []
nil_of_account [] b b' came e same_backlog none_came = refl
nil_of_account (x ∷ out) b b' came e same_backlog none_came = absurd (
    omega (
      arith,
      ap length e,
      length-append out b',
      length-append b came,
      ap length same_backlog,
      ap length none_came,
    ))

ingest_silent :
    (b : IngestBuffer) (now : ℕ) (k a : Text) (m : InboundMessage) (streaming : Bool)
    → IsValid b.states
    → Unaddressed k (ingests now a m streaming)
    → IsClosed k b
    → of_key k (flushed (ingest b now a m streaming).1) ≡ []
unfolding ingest to_record
ingest_silent b now k a m streaming v u closed =
    let j = storage_key a m.conversation_key in
    let r = to_record a m now in
    let s = state_for j b.states in
    elim (Bool-cases (same j k)) [
      | inl hit ↦
          ap (of_key k) (arrive_closed b s r streaming (closed_at k j b hit closed) (u hit)).1
      | inr miss ↦
          nil_of_account _ (backlog_of b k) (backlog_of (ingest b now a m streaming).0 k)
            (of_key k (r ∷ [])) ((ingest-Accounts b now a m streaming v).1 k)
            (ap (λ (s : ConversationState). s.backlog)
              (state_for-ingest_other b now a k m streaming miss))
            (rw miss)
    ]

step_silent :
    (b : IngestBuffer) (c : Call) (k : Text)
    → IsValid b.states
    → Unaddressed k c
    → IsClosed k b
    → of_key k (step b c).1 ≡ []
unfolding step
step_silent b (ingests now a m streaming) k v u closed =
    ingest_silent b now k a m streaming v u closed
step_silent b (sweeps now) k v u closed =
    nil_of_account _ (backlog_of b k) _ [] ((step-Accounts b (sweeps now) v).1 k)
      (ap (λ (s : ConversationState). s.backlog) (sweep_closed b now k closed)) refl
step_silent b (dismisses now a c) k v u closed = refl
step_silent b (interacts now a c) k v u closed = refl
step_silent b (inspects now a c) k v u closed = refl

run_silent :
    (b : IngestBuffer) (cs : List Call) (k : Text)
    → IsValid b.states
    → All (Unaddressed k) cs
    → IsClosed k b
    → of_key k (run b cs).1 ≡ []
unfolding run
run_silent b [] k v u closed = refl
run_silent b (c ∷ cs) k v u closed =
    rw (keep-append (belongs k) (step b c).1, step_silent b c k v u.0 closed)
      (run_silent (step b c).0 cs k (step-Accounts b c v).0 u.1 (step-IsClosed b c k u.0 closed))

new_buffer-IsClosed :
    (window quiet : ℕ) {b : IngestBuffer} (k : Text)
    → new_buffer window quiet ≡ some b
    → IsClosed k b
unfolding state_for get
new_buffer-IsClosed window quiet k e = rw (new_buffer_empty window quiet e) refl

-- From a new buffer, in a conversation where no message addresses the agent, no record is ever handed
-- over for a turn, whatever else is called and whatever goes on in other conversations.
pub run-Unaddressed :
    (window quiet : ℕ) {b : IngestBuffer} (cs : List Call) (a c : Text)
    → new_buffer window quiet ≡ some b
    → All (Unaddressed (storage_key a c)) cs
    → of_key (storage_key a c) (run b cs).1 ≡ []
run-Unaddressed window quiet {b} cs a c e u =
    run_silent b cs (storage_key a c) (new_buffer-IsValid window quiet e) u
      (new_buffer-IsClosed window quiet (storage_key a c) e)
