-- ===== src/Sessions/Keys.antt =====
-- The primary key of the session table: a statement on one conversation changes one row at most.
use omp_bundler.Prelude.{
  ℕ, ◌≡◌, refl, inl, inr, List, [], ◌∷◌, ◌++◌, Bool, true, false, ◌&&◌, Option, none, some, Text,
  same_iff, any, if◌then◌else◌, All, All-append, arith, Bool-cases,
}
use omp_bundler.Prelude.Rows.{select, changes, updated, update, delete, select-update, All-delete}
use omp_bundler.Sessions.{SessionRecord, at}

abbrev pub Unique : List SessionRecord → Type 0
Unique [] = Unit
Unique (r ∷ rs) = All (λ s. at s.adapter_id s.conversation_key r ≡ false) rs × Unique rs

abbrev pub matched : (SessionRecord → Bool) → Option SessionRecord → ℕ
matched q none = 0
matched q (some r) = if q r then 1 else 0

module _ (a k : Text) (q : SessionRecord → Bool) where
  later_absent :
      (r : SessionRecord) (rows : List SessionRecord)
      → at a k r ≡ true
      → All (λ s. at s.adapter_id s.conversation_key r ≡ false) rows
      → changes (λ s. at a k s && q s) rows ≡ 0
  later_absent r [] h u = refl
  later_absent r (s ∷ rows) h u = ground (
    arith,
    u.0,
    later_absent r rows h u.1,
    same_iff r.adapter_id a,
    same_iff r.conversation_key k,
    same_iff s.adapter_id a,
    same_iff s.conversation_key k,
    same_iff r.adapter_id s.adapter_id,
    same_iff r.conversation_key s.conversation_key,
  )

  -- The rows that a guarded statement on a conversation changes: its row, if that passes the guard.
  pub one_row :
      (rows : List SessionRecord)
      → Unique rows
      → changes (λ s. at a k s && q s) rows ≡ matched q (select (at a k) rows)
  one_row [] u = refl
  one_row (r ∷ rows) u = elim (Bool-cases (at a k r)) [
    | inl hit ↦ rw hit (ground (arith, later_absent r rows hit u.0))
    | inr miss ↦ rw miss (one_row rows u.1)
  ]

-- An update that leaves the keys alone.
abbrev pub KeepsKey : (SessionRecord → SessionRecord) → Type 0
KeepsKey f =
    (r : SessionRecord)
    → ((f r).adapter_id ≡ r.adapter_id) × ((f r).conversation_key ≡ r.conversation_key)

updated-KeepsKey :
    (p : SessionRecord → Bool) (f : SessionRecord → SessionRecord)
    → KeepsKey f
    → KeepsKey (updated p f)
updated-KeepsKey p f h r = ground (arith, h r)

pub Unique-update :
    (p : SessionRecord → Bool) (f : SessionRecord → SessionRecord) (rows : List SessionRecord)
    → KeepsKey f
    → Unique rows
    → Unique (update p f rows)
Unique-update p f [] h u = tt
Unique-update p f (r ∷ rows) h u = (apart rows u.0, Unique-update p f rows h u.1)
  where
    apart :
        (rows : List SessionRecord)
        → All (λ s. at s.adapter_id s.conversation_key r ≡ false) rows
        → All (λ s. at s.adapter_id s.conversation_key (updated p f r) ≡ false) (update p f rows)
    apart [] a = tt
    apart (s ∷ rows) a = (
      rw
          (
            (updated-KeepsKey p f h s).0,
            (updated-KeepsKey p f h s).1,
            (updated-KeepsKey p f h r).0,
            (updated-KeepsKey p f h r).1,
          )
          a.0,
      apart rows a.1,
    )

pub Unique-delete :
    (p : SessionRecord → Bool) (rows : List SessionRecord) → Unique rows → Unique (delete p rows)
Unique-delete p [] u = tt
Unique-delete p (r ∷ rows) u = elim (Bool-cases (p r)) [
  | inl hit ↦ rw hit (Unique-delete p rows u.1)
  | inr miss ↦ rw miss (All-delete _ p rows u.0, Unique-delete p rows u.1)
]

pub Unique-append :
    (rows : List SessionRecord) (r : SessionRecord)
    → any (at r.adapter_id r.conversation_key) rows ≡ false
    → Unique rows
    → Unique (rows ++ r ∷ [])
Unique-append [] r a u = (tt, tt)
Unique-append (s ∷ rows) r a u =
    (All-append _ rows (r ∷ []) u.0 (ground arith, tt), Unique-append rows r (ground arith) u.1)

-- What a statement leaves for a conversation.
pub select-kept :
    (p : SessionRecord → Bool) (f : SessionRecord → SessionRecord) (rows : List SessionRecord)
    (a k : Text)
    → KeepsKey f
    → select (at a k) (update p f rows)
      ≡ elim (select (at a k) rows) [ none ↦ none | some r ↦ some (updated p f r) ]
select-kept p f rows a k h =
    select-update (at a k) p f rows
      (λ r. rw ((updated-KeepsKey p f h r).0, (updated-KeepsKey p f h r).1))
