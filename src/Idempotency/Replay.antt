-- ===== src/Idempotency/Replay.antt =====
-- What `beginInbound` answers to a message that the store has met before.
use omp_bundler.Prelude.{
  ◌≡◌, refl, ◌∙◌, List, [], ◌∷◌, ◌++◌, Bool, true, false, Option, none, some, Text, same, same_iff,
  same_refl, is_empty, any, if◌then◌else◌, arith,
}
use omp_bundler.Prelude.Results.{ok, err}
use omp_bundler.Prelude.Rows.{select, All-select}
use omp_bundler.Contracts.{InboundMessage, OutboundEvent}
use omp_bundler.Idempotency.{
  DeliveryState, saved, sent, failed, Entry, BeginResult, created, in_flight, response_saved,
  already_sent, delivery_failed, conflict, is_pending, at,
}
use omp_bundler.Idempotency.Begin.{
  get_raw, classify, classify_existing, fresh_entry, or_fresh, is_blank, begin_unseen,
  begin_inbound,
}
use omp_bundler.Idempotency.History.{Write, write, writes}
use omp_bundler.Idempotency.Effects.{write-Effect}
use omp_bundler.Idempotency.Invariant.{IsSound, IsValid, Effect-IsValid, writes-IsValid}
use omp_bundler.Idempotency.Lifecycle.{Keeps, Keeps-refl, Keeps-trans, write-Next}

-- The arguments that `beginInbound` does not refuse.
pub record IsCall (a : Text) (m : InboundMessage) (correlation : Option Text) : Type 0 where
  pub adapter : is_empty a ≡ false
  pub message : is_empty m.message_id ≡ false
  pub correlation_given : is_blank correlation ≡ false

any_of_select : (k : Entry → Bool) (rows : List Entry) → select k rows ≡ none → any k rows ≡ false
any_of_select k [] e = refl
any_of_select k (r ∷ rows) e = ground (arith, any_of_select k rows)

select-append_none :
    (k : Entry → Bool) (rows : List Entry) (r : Entry)
    → select k rows ≡ none
    → k r ≡ true
    → select k (rows ++ r ∷ []) ≡ some r
select-append_none k [] r e h = ground arith
select-append_none k (s ∷ rows) r e h = ground (arith, select-append_none k rows r)

module _ (payload_hash : InboundMessage → Text) where
  begin_lem :
      (seen rows : List Entry) (a : Text) (m : InboundMessage) (correlation : Option Text)
      (fresh ts : Text)
      → IsCall a m correlation
      → begin_inbound payload_hash seen rows a m correlation fresh ts
        ≡ begin_unseen rows a m
            (payload_hash m)
            (or_fresh correlation fresh)
            ts
            (select (at a m.message_id) seen)
  unfolding begin_inbound get_raw
  begin_lem seen rows a m correlation fresh ts c = rw (c.adapter, c.message, c.correlation_given)

  -- A known key: the stored row answers if the payload is the same, and otherwise the call is a
  -- conflict that names both hashes. Neither writes anything.
  pub begin_known :
      (rows : List Entry) (a : Text) (m : InboundMessage) (correlation : Option Text)
      (fresh ts : Text) (r : Entry)
      → IsCall a m correlation
      → select (at a m.message_id) rows ≡ some r
      → begin_inbound payload_hash rows rows a m correlation fresh ts ≡ (
          if same r.payload_hash (payload_hash m)
          then ok (rows, classify_existing r)
          else err (conflict (payload_hash m) r.payload_hash))
  unfolding begin_unseen
  begin_known rows a m correlation fresh ts r c e =
      begin_lem rows rows a m correlation fresh ts c ∙ rw (e, begin_unseen) (ground arith)

  begin_new :
      (rows : List Entry) (a : Text) (m : InboundMessage) (correlation : Option Text)
      (fresh ts : Text)
      → IsCall a m correlation
      → select (at a m.message_id) rows ≡ none
      → begin_inbound payload_hash rows rows a m correlation fresh ts
        ≡ ok (
          rows ++ fresh_entry a m (or_fresh correlation fresh) (payload_hash m) ts ∷ [],
          created (or_fresh correlation fresh),
        )
  unfolding begin_unseen
  begin_new rows a m correlation fresh ts c e =
      begin_lem rows rows a m correlation fresh ts c
      ∙ rw (e, begin_unseen) (rw (any_of_select (at a m.message_id) rows e))

  -- For calls without an empty id, a message that is new is given its correlation, and a row. The
  -- same message again, whatever correlation it comes with, is answered by that correlation as being
  -- in flight; another payload under the same id is refused as a conflict. Neither changes the table.
  pub begin-begin :
      (rows : List Entry) (a : Text) (m m' : InboundMessage)
      (correlation correlation' : Option Text) (fresh fresh' ts ts' : Text)
      → IsCall a m correlation
      → IsCall a m' correlation'
      → m'.message_id ≡ m.message_id
      → select (at a m.message_id) rows ≡ none
      → let id = or_fresh correlation fresh in
        (rows' : List Entry) × (begin_inbound payload_hash rows rows a m correlation fresh ts
          ≡ ok (rows', created id))
        × (begin_inbound payload_hash rows' rows' a m' correlation' fresh' ts' ≡ (
            if same (payload_hash m) (payload_hash m')
            then ok (rows', in_flight id)
            else err (conflict (payload_hash m') (payload_hash m))))
  unfolding classify_existing
  begin-begin rows a m m' correlation correlation' fresh fresh' ts ts' c c' i e =
      let id = or_fresh correlation fresh in
      let r = fresh_entry a m id (payload_hash m) ts in
      let rows' = rows ++ r ∷ [] in
      (
        rows',
        begin_new rows a m correlation fresh ts c e,
        begin_known rows' a m' correlation' fresh' ts' r c' (
            rw i (
              select-append_none (at a m.message_id) rows r e
                (ground (arith, same_refl a, same_refl m.message_id)))),
      )

-- The answer hands the response out again, or says that it was delivered, under the correlation.
abbrev pub Answers : Text → OutboundEvent → BeginResult → Type 0
Answers c event (created _) = ⊥
Answers c event (in_flight _) = ⊥
Answers c event (response_saved c' response) = (c' ≡ c) × (response ≡ some event)
Answers c event (already_sent c') = c' ≡ c
Answers c event (delivery_failed c' response reason) = (c' ≡ c) × (response ≡ some event)

classify-Answers :
    (d : DeliveryState) (r : Entry) (event : OutboundEvent)
    → is_pending d ≡ false
    → r.response ≡ some event
    → Answers r.correlation_id event (classify d r)
unfolding classify
classify-Answers DeliveryState.pending r event p e = cc
classify-Answers saved r event p e = (refl, e)
classify-Answers sent r event p e = refl
classify-Answers failed r event p e = (refl, e)

answered_kept :
    (a m : Text) (payload_hash : InboundMessage → Text) (collate : Text → Text → Bool)
    (rows : List Entry) (ws : List Write) (r : Entry) (event : OutboundEvent)
    → IsValid rows
    → select (at a m) rows ≡ some r
    → r.response ≡ some event
    → (r' : Entry) × (select (at a m) (writes payload_hash collate rows ws) ≡ some r')
      × Keeps r r'
      × (r'.response ≡ some event)
unfolding writes
answered_kept a m payload_hash collate rows [] r event v e k = (r, e, Keeps-refl r, k)
answered_kept a m payload_hash collate rows (w ∷ ws) r event v e k =
    let s = All-select IsSound (at a m) rows v.sound e in
    let (r', e', (keeps, edge)) = write-Next a m r (ground arith) payload_hash collate rows w v e in
    let (r'', e'', keeps', k') =
      answered_kept a m payload_hash collate (write payload_hash collate rows w) ws r' event
        (Effect-IsValid (write-Effect payload_hash collate rows w) v) e' (ground arith) in
    (r'', e'', Keeps-trans r r' r'' keeps keeps', k')

-- In a valid table in which a message has a response, after any further writes, a call of
-- `beginInbound` with the same payload and no empty id is answered by that very response or by the
-- word that it was sent, under the correlation that the message was first given, and writes nothing.
pub begin_answered :
    (payload_hash : InboundMessage → Text) (collate : Text → Text → Bool) (rows : List Entry)
    (ws : List Write) (a : Text) (m : InboundMessage) (correlation : Option Text) (fresh ts : Text)
    (r : Entry) (event : OutboundEvent)
    → IsValid rows
    → select (at a m.message_id) rows ≡ some r
    → r.payload_hash ≡ payload_hash m
    → r.response ≡ some event
    → IsCall a m correlation
    → let rows' = writes payload_hash collate rows ws in
      (result : BeginResult) × (begin_inbound payload_hash rows' rows' a m correlation fresh ts
        ≡ ok (rows', result))
      × Answers r.correlation_id event result
unfolding classify_existing
begin_answered payload_hash collate rows ws a m correlation fresh ts r event v e h k c =
    let rows' = writes payload_hash collate rows ws in
    let (r', e', keeps, k') =
      answered_kept a m.message_id payload_hash collate rows ws r event v e k in
    let s =
      All-select IsSound (at a m.message_id) rows'
        (writes-IsValid payload_hash collate rows ws v).sound e' in
    (
      classify_existing r',
      begin_known payload_hash rows' a m correlation fresh ts r' c e'
          ∙ rw ((same_iff r'.payload_hash (payload_hash m)).1 (keeps.payload ∙ h)),
      rw (← keeps.correlation) (classify-Answers r'.delivery_state r' event (ground arith) k'),
    )
