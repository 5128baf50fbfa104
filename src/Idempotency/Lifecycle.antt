-- ===== src/Idempotency/Lifecycle.antt =====
-- What becomes of one row: its states follow the diagram pending → saved → sent and
-- saved → failed → sent, and nothing else of it is rewritten.
use omp_bundler.Prelude.{
  ◌≡◌, refl, ◌∙◌, inl, inr, ◌⊎◌, List, [], ◌∷◌, ◌++◌, Bool, true, false, ◌&&◌, Option, some, Text,
  arith, Bool-cases,
}
use omp_bundler.Prelude.Rows.{select, updated, update, delete, select-update, All-select}
use omp_bundler.Contracts.{InboundMessage}
use omp_bundler.Idempotency.{
  DeliveryState, saved, sent, failed, Entry, is_pending, is_saved, is_unsent, is_null, at,
  with_response, with_sent, with_failure, is_ingesting,
}
use omp_bundler.Idempotency.Begin.{discardable}
use omp_bundler.Idempotency.Transitions.{ingesting_at, with_ingested}
use omp_bundler.Idempotency.History.{Write, write}
use omp_bundler.Idempotency.Effects.{
  Effect, nothing, inserts, deletes, ingests, stores, confirms, rejects, write-Effect,
}
use omp_bundler.Idempotency.Invariant.{IsSound, IsValid}

-- One write moves the delivery along an edge or leaves it.
pub data Edge : DeliveryState → DeliveryState → Type 0 where
  stay : {d : DeliveryState} → Edge d d
  save : Edge DeliveryState.pending saved
  fail : Edge saved failed
  send : Edge saved sent
  resend : Edge failed sent

-- The row keeps who sent what, its correlation and its age, and a response once it has one; its
-- ingest does not open again.
pub record Keeps (r r' : Entry) : Type 0 where
  pub adapter : r'.adapter_id ≡ r.adapter_id
  pub message : r'.message_id ≡ r.message_id
  pub conversation : r'.conversation_key ≡ r.conversation_key
  pub correlation : r'.correlation_id ≡ r.correlation_id
  pub payload : r'.payload_hash ≡ r.payload_hash
  pub age : r'.created_at ≡ r.created_at
  pub kept : (is_null r.response ≡ true) ⊎ (r'.response ≡ r.response)
  pub stays_ingested : is_ingesting r.ingest_state ≡ false → is_ingesting r'.ingest_state ≡ false

pub Keeps-refl : (r : Entry) → Keeps r r
Keeps-refl r = ground arith

pub Keeps-trans : (r s t : Entry) → Keeps r s → Keeps s t → Keeps r t
Keeps-trans r s t p q = ground arith

abbrev pub Follows : Entry → Entry → Type 0
Follows r r' = Keeps r r' × Edge r.delivery_state r'.delivery_state

Follows-refl : (r : Entry) → Follows r r
Follows-refl r = (Keeps-refl r, stay)

save-Edge : (d : DeliveryState) → is_pending d ≡ true → Edge d saved
save-Edge DeliveryState.pending h = save
save-Edge saved h = cc
save-Edge sent h = cc
save-Edge failed h = cc

send-Edge : (d : DeliveryState) → is_unsent d ≡ true → Edge d sent
send-Edge DeliveryState.pending h = cc
send-Edge saved h = send
send-Edge sent h = stay
send-Edge failed h = resend

fail-Edge : (d : DeliveryState) → is_saved d ≡ true → Edge d failed
fail-Edge DeliveryState.pending h = cc
fail-Edge saved h = fail
fail-Edge sent h = cc
fail-Edge failed h = stay

-- The row that a write leaves for a key.
abbrev pub Next : Entry → Option Entry → Type 0
Next r o = (r' : Entry) × (o ≡ some r') × Follows r r'

update-Next :
    (p : Entry → Bool) (f : Entry → Entry) (rows : List Entry) (a m : Text) (r : Entry)
    → ((s : Entry) → at a m (f s) ≡ at a m s)
    → select (at a m) rows ≡ some r
    → (p r ≡ true → Follows r (f r))
    → Next r (select (at a m) (update p f rows))
update-Next p f rows a m r k e h = (updated p f r, found, followed)
  where
    keys : (s : Entry) → at a m (updated p f s) ≡ at a m s
    keys s = elim (Bool-cases (p s)) [ inl hit ↦ rw hit (k s) | inr miss ↦ rw miss ]

    found : select (at a m) (update p f rows) ≡ some (updated p f r)
    found = select-update (at a m) p f rows keys ∙ rw e

    followed : Follows r (updated p f r)
    followed = elim (Bool-cases (p r)) [
      | inl hit ↦ rw hit (h hit)
      | inr miss ↦ rw miss (Follows-refl r)
    ]

select-append :
    (k : Entry → Bool) (rows more : List Entry) (r : Entry)
    → select k rows ≡ some r
    → select k (rows ++ more) ≡ some r
select-append k [] more r e = cc
select-append k (s ∷ rows) more r e = ground (arith, select-append k rows more r)

select-delete :
    (k p : Entry → Bool) (rows : List Entry) (r : Entry)
    → select k rows ≡ some r
    → p r ≡ false
    → select k (delete p rows) ≡ some r
select-delete k p [] r e h = cc
select-delete k p (s ∷ rows) r e h = elim (Bool-cases (k s)) [
  | inl hit ↦ let same_row : s ≡ r = ground arith in ground arith
  | inr miss ↦ ground (arith, select-delete k p rows r)
]

-- A row that may still be discarded.
abbrev pub is_unfinished : Entry → Bool
is_unfinished r = is_pending r.delivery_state && is_ingesting r.ingest_state

module _ (a m : Text) (r : Entry) (kept : is_unfinished r ≡ false) where
  Effect-Next :
      {rows rows' : List Entry}
      → Effect rows rows'
      → IsValid rows
      → select (at a m) rows ≡ some r
      → Next r (select (at a m) rows')
  Effect-Next nothing v e = (r, e, Follows-refl r)
  Effect-Next {rows} (inserts b n correlation hash ts absent) v e =
      (r, select-append (at a m) rows _ r e, Follows-refl r)
  Effect-Next {rows} (deletes b n) v e =
      (r, select-delete (at a m) (discardable b n) rows r e (ground arith), Follows-refl r)
  Effect-Next {rows} (ingests b n ts) v e =
      update-Next (ingesting_at b n) (with_ingested ts) rows a m r (λ s. refl) e
        (λ hit. (ground arith, stay))
  Effect-Next {rows} (stores p event ts t pending) v e =
      let s = All-select IsSound (at a m) rows v.sound e in
      update-Next p (with_response event ts) rows a m r (λ s. refl) e
        (λ hit. (ground (arith, pending r hit), save-Edge r.delivery_state (pending r hit)))
  Effect-Next {rows} (confirms p ts unsent) v e =
      update-Next p (with_sent ts) rows a m r (λ s. refl) e
        (λ hit. (ground arith, send-Edge r.delivery_state (unsent r hit)))
  Effect-Next {rows} (rejects p reason ts l was_saved) v e =
      update-Next p (with_failure reason ts) rows a m r (λ s. refl) e
        (λ hit. (ground arith, fail-Edge r.delivery_state (was_saved r hit)))

  -- In a valid table, a row whose message was ingested or answered is never deleted: each write leaves
  -- it with the same message, payload hash and correlation, its response if it has one, and a
  -- delivery state that is the same or the next on the diagram.
  pub write-Next :
      (payload_hash : InboundMessage → Text) (collate : Text → Text → Bool) (rows : List Entry)
      (w : Write)
      → IsValid rows
      → select (at a m) rows ≡ some r
      → Next r (select (at a m) (write payload_hash collate rows w))
  write-Next payload_hash collate rows w v e =
      Effect-Next (write-Effect payload_hash collate rows w) v e
