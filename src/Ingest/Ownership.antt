-- ===== src/Ingest/Ownership.antt =====
-- The backlog of one conversation: the state invariant, and the account of what a call hands over.
use mathlib.Core.Path.{subst}
use omp_bundler.Prelude.{
  ℕ, ◌≡◌, sym, ap, ◌∙◌, inl, inr, List, [], ◌∷◌, ◌++◌, append-nil, Bool, true, Option, some, Text,
  same, same_iff, keep, All, All-append, if◌then◌else◌, arith, Bool-cases, Option-cases,
}
use omp_bundler.Prelude.Maps.{
  get, set, get-set, get-Entries, set-Entries, set-Distinct, Entries, Distinct,
}
use omp_bundler.StorageKey.{storage_key}
use omp_bundler.Ingest.Render.{BufferedRecord}
use omp_bundler.Ingest.{IngestBuffer, ConversationState, state_for}

-- The record is of the conversation with this storage key.
abbrev pub belongs : Text → BufferedRecord → Bool
belongs k r = same (storage_key r.adapter_id r.conversation_key) k

abbrev pub of_key : Text → List BufferedRecord → List BufferedRecord
of_key k = keep (belongs k)

abbrev pub Owns : Text → List BufferedRecord → Type 0
Owns k = All (λ r. belongs k r ≡ true)

-- A conversation has one state, whose backlog holds records of that conversation only.
pub record IsValid (states : List (Text × ConversationState)) : Type 0 where
  pub keys_distinct : Distinct states
  pub owned : Entries (λ k s. Owns k s.backlog) states

abbrev pub backlog_of : IngestBuffer → Text → List BufferedRecord
backlog_of b k = (state_for k b.states).backlog

pub of_key-Owns :
    (j k : Text) (rs : List BufferedRecord)
    → Owns j rs
    → of_key k rs ≡ (if same j k then rs else [])
of_key-Owns j k [] h = ground arith
of_key-Owns j k (r ∷ rs) h =
    let e = (same_iff (storage_key r.adapter_id r.conversation_key) j).0 h.0 in
    rw (e, of_key-Owns j k rs h.1) (ground arith)

pub Owns-split :
    (j : Text) (xs ys : List BufferedRecord) → Owns j (xs ++ ys) → Owns j xs × Owns j ys
Owns-split j [] ys h = (tt, h)
Owns-split j (x ∷ xs) ys h = let (p, q) = Owns-split j xs ys h.1 in ((h.0, p), q)

pub state_for-Owns :
    (k : Text) (states : List (Text × ConversationState))
    → IsValid states
    → Owns k (state_for k states).backlog
unfolding state_for
state_for-Owns k states v = elim (Option-cases (get k states)) [
  | inl e ↦ rw (e, state_for) tt
  | inr (s, e) ↦ rw (e, state_for) (get-Entries (λ k s. Owns k s.backlog) k states s v.owned e)
]

pub state_for-set :
    (k j : Text) (s : ConversationState) (states : List (Text × ConversationState))
    → state_for j (set k s states) ≡ (if same k j then s else state_for j states)
unfolding state_for
state_for-set k j s states = ground (arith, get-set k j s states)

-- The account of one step: what is handed over and what stays is what was there and what came.
abbrev pub Accounts :
    IngestBuffer → IngestBuffer × List BufferedRecord → List BufferedRecord → Type 0
Accounts b (b', out) came =
    IsValid b'.states
    × ((k : Text) → of_key k out ++ backlog_of b' k ≡ backlog_of b k ++ of_key k came)

-- A call that gives one conversation a new state.
pub put-Accounts :
    (b : IngestBuffer) (j : Text) (s : ConversationState) (out came : List BufferedRecord)
    → IsValid b.states
    → Owns j came
    → out ++ s.backlog ≡ backlog_of b j ++ came
    → Accounts b (record b { states = set j s b.states }, out) came
put-Accounts b j s out came v mine e = (
  record {
    keys_distinct = set-Distinct j s b.states v.keys_distinct;
    owned = set-Entries (λ k s. Owns k s.backlog) j s b.states parts.1 v.owned;
  },
  account,
)
  where
    parts : Owns j out × Owns j s.backlog
    parts = Owns-split j out s.backlog (
        subst (Owns j) (sym e)
          (All-append _ (backlog_of b j) came (state_for-Owns j b.states v) mine))

    account :
        (k : Text)
        → of_key k out ++ (state_for k (set j s b.states)).backlog ≡ backlog_of b k ++ of_key k came
    account k =
        rw (of_key-Owns j k out parts.0, of_key-Owns j k came mine, state_for-set j k s b.states)
          (elim (Bool-cases (same j k)) [
            | inl hit ↦
                rw hit
                  (subst (λ i. out ++ s.backlog ≡ backlog_of b i ++ came) ((same_iff j k).0 hit) e)
            | inr miss ↦ rw miss (sym (append-nil (backlog_of b k)))
          ])

pub keep-Accounts : (b : IngestBuffer) → IsValid b.states → Accounts b (b, []) []
keep-Accounts b v = (v, λ k. sym (append-nil (backlog_of b k)))

-- A call that changes the window of one conversation at most.
pub state_for_of_get :
    (k : Text) (states : List (Text × ConversationState)) {s : ConversationState}
    → get k states ≡ some s
    → state_for k states ≡ s
unfolding state_for
state_for_of_get k states e = rw (e, state_for)

pub window-Accounts :
    (b : IngestBuffer) (j : Text) (s : ConversationState) (deadline : Option ℕ)
    → IsValid b.states
    → get j b.states ≡ some s
    → Accounts b
        (record b { states = set j (record s { window_deadline = deadline }) b.states }, [])
        []
window-Accounts b j s deadline v e =
    put-Accounts b j (record s { window_deadline = deadline }) [] [] v tt
      (sym (
        append-nil (backlog_of b j)
        ∙ ap (λ (t : ConversationState). t.backlog) (state_for_of_get j b.states e)))
