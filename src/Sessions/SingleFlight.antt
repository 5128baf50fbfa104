-- ===== src/Sessions/SingleFlight.antt =====
-- One creation in flight for a conversation: `getOrCreate` and the map of its pending creations,
-- over the calls, ends of creations and forgettings that come in between.
use omp_bundler.Prelude.{
  is_empty, List, [], ◌++◌, Bool, not, All, ◌≡◌, refl, ap, ◌∙◌, inl, inr, ◌∷◌, true, false, ◌&&◌,
  Option, none, some, Text, same, same_iff, same_refl, any, arith, Bool-cases, Option-cases,
}
use omp_bundler.Prelude.Results.{Result, ok, err, require}
use omp_bundler.Prelude.Rows.{select, delete}
use omp_bundler.StorageKey.{storage_key}
use omp_bundler.StorageKey.Injective.{storage_key_injective}
use omp_bundler.Sessions.{
  RegistryError, StateReply, at, new_record, commit, create, session_file_of, settle_creation,
  forget, SessionRecord, Registry, Plan, switches, joins, creates, get_raw, parent_file,
  get_or_create,
}

same_key : (a k b l : Text) → same (storage_key b l) (storage_key a k) ≡ same b a && same l k
same_key a k b l = elim (Bool-cases (same b a && same l k)) [
  | inl hit ↦
      let first : b ≡ a = ground (arith, same_iff b a) in
      let second : l ≡ k = ground (arith, same_iff l k) in
      rw (first, second) (rw (same_refl a, same_refl k, same_refl (storage_key a k)) refl)
  | inr miss ↦ ground (
    arith,
    same_iff (storage_key b l) (storage_key a k),
    storage_key_injective b a l k,
    same_iff b a,
    same_iff l k,
  )
]

module _ (s : Registry) (a k : Text) (parent : Option Text) where
  pub with_row :
      (r : SessionRecord)
      → get_raw s.rows a k ≡ some r
      → get_or_create s a k parent ≡ (s, switches r)
  unfolding get_or_create
  with_row r e = rw (e, get_or_create) refl

  in_flight :
      get_raw s.rows a k ≡ none
      → any (same (storage_key a k)) s.inflight ≡ true
      → get_or_create s a k parent ≡ (s, joins)
  unfolding get_or_create
  in_flight e busy = rw (e, busy, get_or_create) refl

  idle :
      get_raw s.rows a k ≡ none
      → any (same (storage_key a k)) s.inflight ≡ false
      → get_or_create s a k parent ≡ (
        record s { inflight = storage_key a k ∷ s.inflight },
        creates (parent_file s.rows a parent),
      )
  unfolding get_or_create
  idle e free = rw (e, free, get_or_create) refl

  -- The registry that a call which starts a creation leaves, and why it started one.
  started :
      (forked : Option Text)
      → (get_or_create s a k parent).1 ≡ creates forked
      → (get_raw s.rows a k ≡ none)
        × ((get_or_create s a k parent).0 ≡ record s { inflight = storage_key a k ∷ s.inflight })
  started forked e = elim (Option-cases (get_raw s.rows a k)) [
    | inr (r, found) ↦ cc (with_row r found)
    | inl absent ↦ elim (Bool-cases (any (same (storage_key a k)) s.inflight)) [
      | inl busy ↦ cc (in_flight absent busy)
      | inr free ↦ (absent, ap (λ (t : Registry × Plan). t.0) (idle absent free))
    ]
  ]

-- What can happen to the registry while a creation is in flight.
pub data RegistryEvent : Type 0 where
  asks : Text → Text → Option Text → RegistryEvent
  settles : List SessionRecord → Text → Text → Bool → StateReply → Text → RegistryEvent
  drops : Text → Text → RegistryEvent

after_event : Registry → RegistryEvent → Registry
after_event s (asks a k parent) = (get_or_create s a k parent).0
after_event s (settles seen a k created reply ts) = (settle_creation s seen a k created reply ts).0
after_event s (drops a k) = (forget s a k).0

pub after_events : Registry → List RegistryEvent → Registry
unfolding after_event
after_events s [] = s
after_events s (e ∷ es) = after_events (after_event s e) es

-- The event does not end the creation of this conversation, nor forgets the conversation.
abbrev pub leaves : Text → Text → RegistryEvent → Bool
leaves a k (asks b l parent) = true
leaves a k (settles seen b l created reply ts) = not (same b a && same l k)
leaves a k (drops b l) = not (same b a && same l k)

-- A creation of the conversation is in flight.
abbrev InFlight : Text → Text → Registry → Type 0
InFlight a k s = (get_raw s.rows a k ≡ none) × (any (same (storage_key a k)) s.inflight ≡ true)

any-delete :
    (a k b l : Text) (keys : List Text)
    → same b a && same l k ≡ false
    → any (same (storage_key a k)) keys ≡ true
    → any (same (storage_key a k)) (delete (same (storage_key b l)) keys) ≡ true
any-delete a k b l [] miss h = h
any-delete a k b l (key ∷ keys) miss h = ground (
  arith,
  same_key a k b l,
  any-delete a k b l keys miss,
  same_iff (storage_key a k) key,
  same_iff (storage_key b l) key,
  same_iff (storage_key b l) (storage_key a k),
)

select-append_other :
    (p : SessionRecord → Bool) (rows : List SessionRecord) (r : SessionRecord)
    → p r ≡ false
    → select p (rows ++ r ∷ []) ≡ select p rows
select-append_other p [] r miss = rw miss refl
select-append_other p (s ∷ rows) r miss = ground (arith, select-append_other p rows r miss)

select-delete :
    (p q : SessionRecord → Bool) (rows : List SessionRecord)
    → select p rows ≡ none
    → select p (delete q rows) ≡ none
select-delete p q [] e = e
select-delete p q (r ∷ rows) e = ground (arith, select-delete p q rows)

module _ (a k b l : Text) (miss : same b a && same l k ≡ false) where
  -- The rows that a creation of another conversation leaves have no row of this one either.
  abbrev StillAbsent : Result RegistryError (List SessionRecord × SessionRecord) → Type 0
  StillAbsent (ok (rows, r)) = get_raw rows a k ≡ none
  StillAbsent (err e) = Unit

  require-StillAbsent :
      (test : Bool) (e : RegistryError)
      (rest : Result RegistryError (List SessionRecord × SessionRecord))
      → StillAbsent rest
      → StillAbsent (require test e rest)
  require-StillAbsent true e rest h = h
  require-StillAbsent false e rest h = tt

  commit-StillAbsent :
      (rows : List SessionRecord) (ts : Text) (file : Result RegistryError Text)
      → get_raw rows a k ≡ none
      → StillAbsent (commit rows b l ts file)
  unfolding commit get_raw
  commit-StillAbsent rows ts (err e) absent = tt
  commit-StillAbsent rows ts (ok file) absent = elim (Bool-cases (any (at b l) rows)) [
    | inl there ↦ rw there tt
    | inr free ↦ rw free (select-append_other (at a k) rows (new_record b l file ts) miss ∙ absent)
  ]

  create-StillAbsent :
      (seen rows : List SessionRecord) (created : Bool) (reply : StateReply) (ts : Text)
      → get_raw rows a k ≡ none
      → StillAbsent (create seen rows b l created reply ts)
  unfolding create
  create-StillAbsent seen rows created reply ts absent =
      require-StillAbsent (not (is_empty b)) _ _ (
        require-StillAbsent (not (is_empty l)) _ _ (elim (Option-cases (get_raw seen b l)) [
          | inr (r, e) ↦ rw e tt
          | inl e ↦ rw e (commit-StillAbsent rows ts (session_file_of created reply) absent)
        ]))

  settle_creation-InFlight :
      (s : Registry) (seen : List SessionRecord) (created : Bool) (reply : StateReply) (ts : Text)
      → InFlight a k s
      → InFlight a k (settle_creation s seen b l created reply ts).0
  unfolding settle_creation
  settle_creation-InFlight s seen created reply ts h =
      go (create seen s.rows b l created reply ts)
        (create-StillAbsent seen s.rows created reply ts h.0)
    where
      go :
          (made : Result RegistryError (List SessionRecord × SessionRecord))
          → StillAbsent made
          → InFlight a k
              (elim made as (λ m. Registry × Result RegistryError SessionRecord) [
                | ok (rows', r) ↦ (
                  record { rows = rows'; inflight = delete (same (storage_key b l)) s.inflight },
                  ok r,
                )
                | err e ↦
                    (record s { inflight = delete (same (storage_key b l)) s.inflight }, err e)
              ]).0
      go (ok (rows', r)) m = (m, any-delete a k b l s.inflight miss h.1)
      go (err e) m = (h.0, any-delete a k b l s.inflight miss h.1)

  forget-InFlight : (s : Registry) → InFlight a k s → InFlight a k (forget s b l).0
  unfolding forget get_raw
  forget-InFlight s h = elim (Option-cases (select (at b l) s.rows)) [
    | inl e ↦ rw (e, forget) h
    | inr (r, e) ↦
        rw (e, forget)
          (select-delete (at a k) (at b l) s.rows h.0, any-delete a k b l s.inflight miss h.1)
  ]

asked-InFlight :
    (s : Registry) (a k b l : Text) (parent : Option Text)
    → InFlight a k s
    → InFlight a k (get_or_create s b l parent).0
asked-InFlight s a k b l parent h = elim (Option-cases (get_raw s.rows b l)) [
  | inr (r, found) ↦ rw (with_row s b l parent r found) h
  | inl absent ↦ elim (Bool-cases (any (same (storage_key b l)) s.inflight)) [
    | inl busy ↦ rw (in_flight s b l parent absent busy) h
    | inr free ↦ rw (idle s b l parent absent free) (h.0, ground (arith, h.1))
  ]
]

event-InFlight :
    (a k : Text) (s : Registry) (e : RegistryEvent)
    → leaves a k e ≡ true
    → InFlight a k s
    → InFlight a k (after_event s e)
unfolding after_event
event-InFlight a k s (asks b l parent) u h = asked-InFlight s a k b l parent h
event-InFlight a k s (settles seen b l created reply ts) u h =
    settle_creation-InFlight a k b l (ground arith) s seen created reply ts h
event-InFlight a k s (drops b l) u h = forget-InFlight a k b l (ground arith) s h

events-InFlight :
    (a k : Text) (s : Registry) (es : List RegistryEvent)
    → All (λ e. leaves a k e ≡ true) es
    → InFlight a k s
    → InFlight a k (after_events s es)
unfolding after_events
events-InFlight a k s [] u h = h
events-InFlight a k s (e ∷ es) u h =
    events-InFlight a k (after_event s e) es u.1 (event-InFlight a k s e u.0 h)

-- Once a call has started a creation for a conversation, then over any further calls on any
-- conversations, and any ends of creations and forgettings of other ones, a call on that
-- conversation joins the creation, whatever the parent, and changes nothing.
pub get_or_create-after_events :
    (s : Registry) (a k : Text) (parent parent' forked : Option Text) (es : List RegistryEvent)
    → (get_or_create s a k parent).1 ≡ creates forked
    → All (λ e. leaves a k e ≡ true) es
    → let s' = after_events (get_or_create s a k parent).0 es in
      get_or_create s' a k parent' ≡ (s', joins)
get_or_create-after_events s a k parent parent' forked es e u =
    let (absent, after) = started s a k parent forked e in
    let begun : InFlight a k (get_or_create s a k parent).0 =
      rw after (absent, rw (same_refl (storage_key a k)) refl) in
    let still = events-InFlight a k (get_or_create s a k parent).0 es u begun in
    in_flight (after_events (get_or_create s a k parent).0 es) a k parent' still.0 still.1
