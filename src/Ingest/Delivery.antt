-- ===== src/Ingest/Delivery.antt =====
-- Every record that arrives is handed over once and in order, or still waits in its backlog.
use omp_bundler.Prelude.{
  ℕ, ◌≡◌, refl, sym, ap, ◌∙◌, inl, inr, List, [], ◌∷◌, ◌++◌, append-nil, append_assoc, Bool, none,
  some, Text, same_refl, keep-append, arith, Bool-cases, Option-cases,
}
use omp_bundler.Prelude.Maps.{get}
use omp_bundler.Contracts.{InboundMessage}
use omp_bundler.StorageKey.{storage_key}
use omp_bundler.Ingest.Render.{BufferedRecord}
use omp_bundler.Ingest.{
  IngestBuffer, new_buffer, is_active, ConversationState, to_record, state_for, arrive, ingest,
  dismiss, record_interaction, inspect,
}
use omp_bundler.Ingest.History.{
  Call, ingests, sweeps, dismisses, interacts, inspects, arrived, flushed, step, run, arrivals,
}
use omp_bundler.Ingest.Ownership.{
  belongs, of_key, IsValid, backlog_of, Accounts, put-Accounts, keep-Accounts, window-Accounts,
}
use omp_bundler.Ingest.SweepAccount.{sweep-Accounts}

-- `arrive` neither loses nor repeats a record.
arrive-conserves :
    (b : IngestBuffer) (s : ConversationState) (r : BufferedRecord) (streaming : Bool)
    → let (s', result) = arrive b s r streaming in
      flushed result ++ s'.backlog ≡ s.backlog ++ r ∷ []
unfolding arrive
arrive-conserves b s r streaming = ground (arith, append-nil (s.backlog ++ r ∷ []))

pub ingest-Accounts :
    (b : IngestBuffer) (now : ℕ) (a : Text) (m : InboundMessage) (streaming : Bool)
    → IsValid b.states
    → let (b', result) = ingest b now a m streaming in
      Accounts b (b', flushed result) (to_record a m now ∷ [])
unfolding ingest to_record
ingest-Accounts b now a m streaming v =
    let key = storage_key a m.conversation_key in
    let r = to_record a m now in
    put-Accounts b key (arrive b (state_for key b.states) r streaming).0 _ (r ∷ []) v
      (same_refl key, tt) (arrive-conserves b (state_for key b.states) r streaming)

dismiss-Accounts :
    (b : IngestBuffer) (now : ℕ) (a c : Text)
    → IsValid b.states
    → Accounts b ((dismiss b now a c).0, []) []
unfolding dismiss
dismiss-Accounts b now a c v = elim (Option-cases (get (storage_key a c) b.states)) [
  | inl e ↦ rw (e, dismiss) (keep-Accounts b v)
  | inr (s, e) ↦ elim (Option-cases s.window_deadline) [
    | inl f ↦ rw (e, f, dismiss) (keep-Accounts b v)
    | inr (deadline, f) ↦ rw (e, f, dismiss) (window-Accounts b (storage_key a c) s none v e)
  ]
]

interact-Accounts :
    (b : IngestBuffer) (now : ℕ) (a c : Text)
    → IsValid b.states
    → Accounts b ((record_interaction b now a c).0, []) []
unfolding record_interaction
interact-Accounts b now a c v = elim (Option-cases (get (storage_key a c) b.states)) [
  | inl e ↦ rw (e, record_interaction) (keep-Accounts b v)
  | inr (s, e) ↦ elim (Bool-cases (is_active s now)) [
    | inl on ↦ rw (e, on, record_interaction) (window-Accounts b (storage_key a c) s _ v e)
    | inr off ↦ rw (e, off, record_interaction) (keep-Accounts b v)
  ]
]

inspect-Accounts :
    (b : IngestBuffer) (now : ℕ) (a c : Text)
    → IsValid b.states
    → Accounts b ((inspect b now a c).0, []) []
unfolding inspect
inspect-Accounts b now a c v = elim (Option-cases (get (storage_key a c) b.states)) [
  | inl e ↦ rw (e, inspect) (keep-Accounts b v)
  | inr (s, e) ↦ elim (Bool-cases (is_active s now)) [
    | inl on ↦ rw (e, on, inspect) (keep-Accounts b v)
    | inr off ↦ elim (Option-cases s.window_deadline) [
      | inl f ↦ rw (e, off, f, inspect) (keep-Accounts b v)
      | inr (deadline, f) ↦ rw (e, off, f, inspect) (window-Accounts b (storage_key a c) s none v e)
    ]
  ]
]

-- Every call keeps each conversation's backlog its own and accounts for every record.
pub step-Accounts :
    (b : IngestBuffer) (c : Call) → IsValid b.states → Accounts b (step b c) (arrived c)
unfolding step
step-Accounts b (ingests now a m streaming) v = ingest-Accounts b now a m streaming v
step-Accounts b (sweeps now) v = sweep-Accounts b now v
step-Accounts b (dismisses now a c) v = dismiss-Accounts b now a c v
step-Accounts b (interacts now a c) v = interact-Accounts b now a c v
step-Accounts b (inspects now a c) v = inspect-Accounts b now a c v

chain :
    (o os b b' b'' came cames : List BufferedRecord)
    → o ++ b' ≡ b ++ came
    → os ++ b'' ≡ b' ++ cames
    → (o ++ os) ++ b'' ≡ b ++ (came ++ cames)
chain o os b b' b'' came cames first rest =
    append_assoc o os b''
    ∙ ap (◌++◌ o) rest
    ∙ sym (append_assoc o b' cames)
    ∙ ap (λ (t : List BufferedRecord). t ++ cames) first
    ∙ append_assoc b came cames

run-Accounts :
    (b : IngestBuffer) (cs : List Call) → IsValid b.states → Accounts b (run b cs) (arrivals cs)
unfolding run
run-Accounts b [] v = keep-Accounts b v
run-Accounts b (c ∷ cs) v =
    let first = step-Accounts b c v in
    let rest = run-Accounts (step b c).0 cs first.0 in
    (
      rest.0,
      λ k.
          rw (keep-append (belongs k) (step b c).1, keep-append (belongs k) (arrived c))
            (chain (of_key k (step b c).1) (of_key k (run (step b c).0 cs).1) (backlog_of b k)
              (backlog_of (step b c).0 k) (backlog_of (run (step b c).0 cs).0 k)
              (of_key k (arrived c)) (of_key k (arrivals cs)) (first.1 k) (rest.1 k)),
    )

pub new_buffer_empty :
    (window quiet : ℕ) {b : IngestBuffer} → new_buffer window quiet ≡ some b → b.states ≡ []
unfolding new_buffer
new_buffer_empty window quiet e = ground arith

pub new_buffer-IsValid :
    (window quiet : ℕ) {b : IngestBuffer} → new_buffer window quiet ≡ some b → IsValid b.states
new_buffer-IsValid window quiet e =
    rw (new_buffer_empty window quiet e) (record { keys_distinct = tt; owned = tt })

state_for_nil : (k : Text) (rs : List BufferedRecord) → (state_for k []).backlog ++ rs ≡ rs
unfolding state_for get
state_for_nil k rs = refl

-- Over any history of calls on a new buffer, the records handed over for a conversation, followed by
-- those still in its backlog, are exactly the records that arrived for it, each once and in the
-- order of arrival.
pub delivered-backlog :
    (window quiet : ℕ) {b : IngestBuffer} (cs : List Call) (a c : Text)
    → new_buffer window quiet ≡ some b
    → let k = storage_key a c in
      let (b', delivered) = run b cs in
      of_key k delivered ++ backlog_of b' k ≡ of_key k (arrivals cs)
unfolding new_buffer
delivered-backlog window quiet {b} cs a c e =
    (run-Accounts b cs (new_buffer-IsValid window quiet e)).1 (storage_key a c)
    ∙ ap
        (λ (states : List (Text × ConversationState)).
          (state_for (storage_key a c) states).backlog ++ of_key (storage_key a c) (arrivals cs))
        (new_buffer_empty window quiet e)
    ∙ state_for_nil (storage_key a c) _
