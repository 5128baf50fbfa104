-- ===== src/Ingest/Sweep.antt =====
-- The periodic sweep: what it hands over of each conversation and what it leaves.
use omp_bundler.Prelude.{
  suc, length, length-append, leb, ◌&&◌, not, is_empty, if◌then◌else◌, Bool, some, ℕ, ◌+◌, ◌<◌, ◌≡◌,
  refl, sym, ap, ◌∙◌, inl, inr, List, [], ◌∷◌, ◌++◌, append-nil, true, false, Text, ◌==◌, arith,
  Bool-cases,
}
use omp_bundler.Prelude.Maps.{get}
use omp_bundler.Ingest.Render.{BufferedRecord}
use omp_bundler.Ingest.{
  IngestBuffer, ConversationState, is_active, state_for, settle, sweep_states, sweep_settled,
}
use omp_bundler.Ingest.History.{released}
use omp_bundler.Ingest.Ownership.{of_key, IsValid, backlog_of}
use omp_bundler.Ingest.SweepAccount.{sweep-Accounts}

-- A sweep treats each conversation by itself.
pub state_for-sweep_states :
    (b : IngestBuffer) (now : ℕ) (k : Text) (states : List (Text × ConversationState))
    → state_for k (sweep_states b now states).0 ≡ (settle b now (state_for k states)).0
unfolding sweep_states state_for get
state_for-sweep_states b now k [] = refl
state_for-sweep_states b now k ((j, s) ∷ states) =
    ground (arith, state_for-sweep_states b now k states)

pub sweep_settled_off :
    (b : IngestBuffer) (now : ℕ) → (b.quiet_period_ms == 0) ≡ true → sweep_settled b now ≡ (b, [])
unfolding sweep_settled
sweep_settled_off b now e = rw (e, sweep_settled)

pub sweep_settled_on :
    (b : IngestBuffer) (now : ℕ)
    → (b.quiet_period_ms == 0) ≡ false
    → sweep_settled b now
      ≡ (record b { states = (sweep_states b now b.states).0 }, (sweep_states b now b.states).1)
unfolding sweep_settled
sweep_settled_on b now e = rw (e, sweep_settled)

-- Whether a conversation is engaged and has been silent for the quiet period.
abbrev pub is_due : IngestBuffer → ℕ → Text → Bool
is_due b now k =
    let s = state_for k b.states in
    leb (s.last_arrival_at + b.quiet_period_ms) now && is_active s now

settle_exact :
    (b : IngestBuffer) (now : ℕ) (s : ConversationState)
    → 0 < b.quiet_period_ms
    → let due = leb (s.last_arrival_at + b.quiet_period_ms) now && is_active s now in
      ((settle b now s).0.backlog ≡ (if due then [] else s.backlog))
      × ((settle b now s).0.window_deadline ≡ (
          if due && not (is_empty s.backlog)
          then some (now + b.engagement_window_ms)
          else s.window_deadline))
unfolding settle
settle_exact b now s q = elim (Bool-cases (is_active s now)) [
  | inl a ↦ ground arith
  | inr a ↦ ground arith
]

nil_of_append_self : (xs ys : List BufferedRecord) → xs ++ ys ≡ ys → xs ≡ []
nil_of_append_self [] ys e = refl
nil_of_append_self (x ∷ xs) ys e =
    let n : suc (length xs) + length ys ≡ length ys =
      sym (length-append (x ∷ xs) ys) ∙ ap length e in
    absurd (omega arith)

handed :
    (due : Bool) (given left all : List BufferedRecord)
    → given ++ left ≡ all
    → left ≡ (if due then [] else all)
    → given ≡ (if due then all else [])
handed true given left all e l = sym (append-nil given) ∙ ap (λ r. given ++ r) (sym l) ∙ e
handed false given left all e l = nil_of_append_self given all (ap (λ r. given ++ r) (sym l) ∙ e)

-- In a buffer with a quiet period whose backlogs are under their own keys, a sweep hands over, for
-- each conversation, its whole backlog in order if the conversation is engaged and has been silent
-- for that period, and nothing of it otherwise; it leaves an empty backlog in the first case and the
-- same backlog otherwise; and it renews the window of a conversation from now on just when it hands
-- over something of it.
pub sweep_settled_exact :
    (b : IngestBuffer) (now : ℕ) (k : Text)
    → IsValid b.states
    → 0 < b.quiet_period_ms
    → let (b', due) = sweep_settled b now in
      (of_key k (released due) ≡ (if is_due b now k then backlog_of b k else []))
      × (backlog_of b' k ≡ (if is_due b now k then [] else backlog_of b k))
      × ((state_for k b'.states).window_deadline ≡ (
          if is_due b now k && not (is_empty (backlog_of b k))
          then some (now + b.engagement_window_ms)
          else (state_for k b.states).window_deadline))
sweep_settled_exact b now k v q =
    let on : (b.quiet_period_ms == 0) ≡ false = ground arith in
    let account = (sweep-Accounts b now v).1 k in
    let after = settle_exact b now (state_for k b.states) q in
    let state : state_for k (sweep_settled b now).0.states
        ≡ (settle b now (state_for k b.states)).0 =
      rw (sweep_settled_on b now on) (state_for-sweep_states b now k b.states) in
    let left = ap (λ (s : ConversationState). s.backlog) state ∙ after.0 in
    let deadline = ap (λ (s : ConversationState). s.window_deadline) state ∙ after.1 in
    (
      handed (is_due b now k) _ _ (backlog_of b k) (account ∙ append-nil (backlog_of b k)) left,
      left,
      deadline,
    )
