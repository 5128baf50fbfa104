-- ===== src/Idempotency/Invariant.antt =====
-- The invariant of the idempotency table.
use omp_bundler.Prelude.{
  ◌≤◌, ◌≡◌, refl, inl, inr, List, [], ◌∷◌, ◌++◌, Bool, true, false, not, Option, none, some, Text,
  any, length, All, All-append, arith, Bool-cases,
}
use omp_bundler.Prelude.Rows.{updated, update, delete, All-update, All-delete}
use omp_bundler.Contracts.{InboundMessage, OutboundEvent, is_terminal_body}
use omp_bundler.Idempotency.{
  DeliveryState, failed, Entry, is_pending, is_saved, is_unsent, is_ingesting, is_null, at,
  with_response, with_sent, with_failure,
}
use omp_bundler.Idempotency.Begin.{fresh_entry, discardable}
use omp_bundler.Idempotency.Transitions.{with_ingested}
use omp_bundler.Idempotency.History.{Write, write, writes}
use omp_bundler.Idempotency.Effects.{
  Effect, nothing, inserts, deletes, ingests, stores, confirms, rejects, write-Effect,
}

abbrev is_failed : DeliveryState → Bool
is_failed failed = true
is_failed _ = false

abbrev pub Bounded : Option Text → Type 0
Bounded none = Unit
Bounded (some t) = length t ≤ 2000

abbrev pub terminal : Option OutboundEvent → Bool
terminal none = true
terminal (some event) = is_terminal_body event.body

-- What holds of every row: the table's CHECKs, and that a message with a response was ingested,
-- a response is terminal and a reason is bounded.
pub record IsSound (r : Entry) : Type 0 where
  pub response_checked : is_null r.response ≡ is_pending r.delivery_state
  pub error_checked : is_null r.error_text ≡ not (is_failed r.delivery_state)
  pub ingested : is_pending r.delivery_state ≡ false → is_ingesting r.ingest_state ≡ false
  pub closing : terminal r.response ≡ true
  pub reason_bounded : Bounded r.error_text

-- The primary key.
abbrev pub Unique : List Entry → Type 0
Unique [] = Unit
Unique (r ∷ rs) = All (λ s. at s.adapter_id s.message_id r ≡ false) rs × Unique rs

pub record IsValid (rows : List Entry) : Type 0 where
  pub unique : Unique rows
  pub sound : All IsSound rows

with_ingested-IsSound : (r : Entry) (ts : Text) → IsSound r → IsSound (with_ingested ts r)
with_ingested-IsSound r ts s = ground arith

with_response-IsSound :
    (r : Entry) (event : OutboundEvent) (ts : Text)
    → is_terminal_body event.body ≡ true
    → IsSound (with_response event ts r)
with_response-IsSound r event ts t = ground arith

with_sent-IsSound :
    (r : Entry) (ts : Text)
    → is_unsent r.delivery_state ≡ true
    → IsSound r
    → IsSound (with_sent ts r)
with_sent-IsSound r ts u s = ground arith

with_failure-IsSound :
    (r : Entry) (reason ts : Text)
    → length reason ≤ 2000
    → is_saved r.delivery_state ≡ true
    → IsSound r
    → IsSound (with_failure reason ts r)
with_failure-IsSound r reason ts l u s = ground arith

-- An update that leaves the keys alone keeps them unique.
abbrev KeepsKey : (Entry → Entry) → Type 0
KeepsKey f = (r : Entry) → ((f r).adapter_id ≡ r.adapter_id) × ((f r).message_id ≡ r.message_id)

updated-KeepsKey : (p : Entry → Bool) (f : Entry → Entry) → KeepsKey f → KeepsKey (updated p f)
updated-KeepsKey p f h r = ground (arith, h r)

Unique-update :
    (p : Entry → Bool) (f : Entry → Entry) (rows : List Entry)
    → KeepsKey f
    → Unique rows
    → Unique (update p f rows)
Unique-update p f [] h u = tt
Unique-update p f (r ∷ rows) h u = (apart rows u.0, Unique-update p f rows h u.1)
  where
    apart :
        (rows : List Entry)
        → All (λ s. at s.adapter_id s.message_id r ≡ false) rows
        → All (λ s. at s.adapter_id s.message_id (updated p f r) ≡ false) (update p f rows)
    apart [] a = tt
    apart (s ∷ rows) a = (
      rw
          (
            (updated-KeepsKey p f h s).0,
            (updated-KeepsKey p f h s).1,
            (updated-KeepsKey p f h r).0,
            (updated-KeepsKey p f h r).1,
          )
          a.0,
      apart rows a.1,
    )

Unique-delete : (p : Entry → Bool) (rows : List Entry) → Unique rows → Unique (delete p rows)
Unique-delete p [] u = tt
Unique-delete p (r ∷ rows) u = elim (Bool-cases (p r)) [
  | inl hit ↦ rw hit (Unique-delete p rows u.1)
  | inr miss ↦ rw miss (All-delete _ p rows u.0, Unique-delete p rows u.1)
]

Unique-append :
    (rows : List Entry) (r : Entry)
    → any (at r.adapter_id r.message_id) rows ≡ false
    → Unique rows
    → Unique (rows ++ r ∷ [])
Unique-append [] r a u = (tt, tt)
Unique-append (s ∷ rows) r a u =
    (All-append _ rows (r ∷ []) u.0 (ground arith, tt), Unique-append rows r (ground arith) u.1)

pub Effect-IsValid : {rows rows' : List Entry} → Effect rows rows' → IsValid rows → IsValid rows'
Effect-IsValid nothing v = v
Effect-IsValid {rows} (inserts a m correlation hash ts absent) v = record {
  unique = Unique-append rows (fresh_entry a m correlation hash ts) absent v.unique;
  sound = All-append IsSound rows _ v.sound (ground arith, tt);
}
Effect-IsValid {rows} (deletes a m) v = record {
  unique = Unique-delete (discardable a m) rows v.unique;
  sound = All-delete IsSound (discardable a m) rows v.sound;
}
Effect-IsValid {rows} (ingests a m ts) v = record {
  unique = Unique-update _ _ rows (λ r. (refl, refl)) v.unique;
  sound = All-update IsSound _ _ rows (λ r s h. with_ingested-IsSound r ts s) v.sound;
}
Effect-IsValid {rows} (stores p event ts t pending) v = record {
  unique = Unique-update p _ rows (λ r. (refl, refl)) v.unique;
  sound = All-update IsSound p _ rows (λ r s h. with_response-IsSound r event ts t) v.sound;
}
Effect-IsValid {rows} (confirms p ts unsent) v = record {
  unique = Unique-update p _ rows (λ r. (refl, refl)) v.unique;
  sound = All-update IsSound p _ rows (λ r s h. with_sent-IsSound r ts (unsent r h) s) v.sound;
}
Effect-IsValid {rows} (rejects p reason ts l was_saved) v = record {
  unique = Unique-update p _ rows (λ r. (refl, refl)) v.unique;
  sound =
      All-update IsSound p _ rows (λ r s h. with_failure-IsSound r reason ts l (was_saved r h) s)
        v.sound;
}

-- From a valid table, any history of writes, those of `beginInbound` with an outdated read included, keeps the keys
-- unique and every row within the table's CHECKs, with a completed ingest, a terminal response and
-- a bounded reason.
pub writes-IsValid :
    (payload_hash : InboundMessage → Text) (collate : Text → Text → Bool) (rows : List Entry)
    (ws : List Write)
    → IsValid rows
    → IsValid (writes payload_hash collate rows ws)
unfolding writes
writes-IsValid payload_hash collate rows [] v = v
writes-IsValid payload_hash collate rows (w ∷ ws) v =
    writes-IsValid payload_hash collate (write payload_hash collate rows w) ws
      (Effect-IsValid (write-Effect payload_hash collate rows w) v)
