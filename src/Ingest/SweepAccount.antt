-- ===== src/Ingest/SweepAccount.antt =====
-- The account of a sweep, conversation by conversation.
use mathlib.Core.Path.{subst}
use omp_bundler.Prelude.{
  ℕ, ◌≡◌, refl, sym, ◌∙◌, inl, inr, List, [], ◌∷◌, ◌++◌, append-nil, true, Text, same, same_iff,
  keep-append, if◌then◌else◌, ◌==◌, arith, Bool-cases,
}
use omp_bundler.Prelude.Maps.{get, get_of_Fresh, Fresh}
use omp_bundler.Ingest.Render.{BufferedRecord}
use omp_bundler.Ingest.{
  IngestBuffer, ConversationState, SettledActivation, state_for, settle, settled, sweep_states,
  sweep_settled,
}
use omp_bundler.Ingest.History.{released}
use omp_bundler.Ingest.Ownership.{
  belongs, of_key, Owns, IsValid, backlog_of, of_key-Owns, Owns-split, Accounts, keep-Accounts,
}

settle-conserves :
    (b : IngestBuffer) (now : ℕ) (s : ConversationState)
    → let (s', records) = settle b now s in records ++ s'.backlog ≡ s.backlog
unfolding settle
settle-conserves b now s = ground (arith, append-nil s.backlog)

Fresh-sweep_states :
    (b : IngestBuffer) (now : ℕ) (k : Text) (states : List (Text × ConversationState))
    → Fresh k states
    → Fresh k (sweep_states b now states).0
unfolding sweep_states
Fresh-sweep_states b now k [] f = tt
Fresh-sweep_states b now k ((j, s) ∷ states) f = (f.0, Fresh-sweep_states b now k states f.1)

-- The account of a sweep, one conversation after another.
abbrev Swept : IngestBuffer → ℕ → List (Text × ConversationState) → Type 0
Swept b now states =
    let (states', due) = sweep_states b now states in
    IsValid states'
    × ((k : Text)
        → of_key k (released due) ++ (state_for k states').backlog ≡ (state_for k states).backlog)

released-settled :
    (records : List BufferedRecord) (due : List SettledActivation)
    → released (settled records due) ≡ records ++ released due
released-settled [] due = refl
released-settled (r ∷ rs) due = refl

state_for-cons :
    (j k : Text) (s : ConversationState) (states : List (Text × ConversationState))
    → state_for k ((j, s) ∷ states) ≡ (if same j k then s else state_for k states)
unfolding state_for get
state_for-cons j k s states = ground arith

state_for_of_Fresh :
    (k : Text) (states : List (Text × ConversationState))
    → Fresh k states
    → (state_for k states).backlog ≡ []
unfolding state_for
state_for_of_Fresh k states f = rw (get_of_Fresh k states f, state_for)

nil_of_append-nil : (xs ys : List BufferedRecord) → xs ++ ys ≡ [] → xs ≡ []
nil_of_append-nil [] ys e = refl
nil_of_append-nil (x ∷ xs) ys e = cc

Swept-cons :
    (b : IngestBuffer) (now : ℕ) (j : Text) (s : ConversationState)
    (states : List (Text × ConversationState))
    → IsValid ((j, s) ∷ states)
    → Swept b now states
    → Swept b now ((j, s) ∷ states)
unfolding sweep_states
Swept-cons b now j s states v rest = (
  record {
    keys_distinct = (Fresh-sweep_states b now j states v.keys_distinct.0, rest.0.keys_distinct);
    owned = (parts.1, rest.0.owned);
  },
  account,
)
  where
    s' : ConversationState
    s' = (settle b now s).0

    out : List BufferedRecord
    out = (settle b now s).1

    states' : List (Text × ConversationState)
    states' = (sweep_states b now states).0

    due : List SettledActivation
    due = (sweep_states b now states).1

    parts : Owns j out × Owns j s'.backlog
    parts = Owns-split j out s'.backlog (subst (Owns j) (sym (settle-conserves b now s)) v.owned.0)

    nothing_later : (k : Text) → same j k ≡ true → of_key k (released due) ≡ []
    nothing_later k hit = nil_of_append-nil (of_key k (released due)) _ (
        rest.1 k
        ∙ state_for_of_Fresh k states
            (subst (λ i. Fresh i states) ((same_iff j k).0 hit) v.keys_distinct.0))

    account :
        (k : Text)
        → of_key k (released (settled out due)) ++ (state_for k ((j, s') ∷ states')).backlog
          ≡ (state_for k ((j, s) ∷ states)).backlog
    account k =
        rw
          (
            released-settled out due,
            keep-append (belongs k) out (released due),
            of_key-Owns j k out parts.0,
            state_for-cons j k s' states',
            state_for-cons j k s states,
          )
          (elim (Bool-cases (same j k)) [
            | inl hit ↦ rw (hit, nothing_later k hit, append-nil out) (settle-conserves b now s)
            | inr miss ↦ rw miss (rest.1 k)
          ])

sweep-Swept :
    (b : IngestBuffer) (now : ℕ) (states : List (Text × ConversationState))
    → IsValid states
    → Swept b now states
unfolding sweep_states state_for
sweep-Swept b now [] v = (record { keys_distinct = tt; owned = tt }, λ k. refl)
sweep-Swept b now ((j, s) ∷ states) v =
    Swept-cons b now j s states v
      (sweep-Swept b now states (record { keys_distinct = v.keys_distinct.1; owned = v.owned.1 }))

pub sweep-Accounts :
    (b : IngestBuffer) (now : ℕ)
    → IsValid b.states
    → let (b', due) = sweep_settled b now in Accounts b (b', released due) []
unfolding sweep_settled
sweep-Accounts b now v = elim (Bool-cases (b.quiet_period_ms == 0)) [
  | inl none_held ↦ rw (none_held, sweep_settled) (keep-Accounts b v)
  | inr holding ↦
      let (v', account) = sweep-Swept b now b.states v in
      rw (holding, sweep_settled) (v', λ k. account k ∙ sym (append-nil (backlog_of b k)))
]
