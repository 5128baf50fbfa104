-- ===== src/Pool/Slots.antt =====
-- The slots of the pool: its entries, and what is counted for creations and closings. A child without
-- an entry that neither starts nor closes has no slot.
use omp_bundler.Prelude.{
  ap, Option, none, true, false, if◌then◌else◌, ℕ, suc, ◌+◌, ◌≤◌, ◌<◌, ◌≡◌, ◌∙◌, inl, inr, List, [],
  ◌∷◌, ◌++◌, Bool, some, Text, same, length, arith, Bool-cases, Option-cases,
}
use omp_bundler.Prelude.Maps.{get, set, remove, Distinct, set-Distinct, remove-Distinct, get-remove}
use omp_bundler.Pool.{
  Purpose, Task, closes, continues, spawns, awaits, Pool, touch_lru, add_task, Waiter, Claimant,
}

-- There is a value.
abbrev pub is_here : Option ℕ → Bool
is_here none = false
is_here (some v) = true

module _ {ℓ} {V : Type ℓ} where
  pub length-remove : (k : Text) (m : List (Text × V)) → length (remove k m) ≤ length m
  unfolding remove
  length-remove k [] = omega arith
  length-remove k ((j, w) ∷ m) = ground (arith, length-remove k m)

  pub length-remove_found :
      (k : Text) (m : List (Text × V)) {v : V}
      → get k m ≡ some v
      → length (remove k m) + 1 ≡ length m
  unfolding get remove
  length-remove_found k [] e = cc
  length-remove_found k ((j, w) ∷ m) {v} e = elim (Bool-cases (same j k)) [
    | inl hit ↦ rw hit (ground (arith, length-remove k m))
    | inr miss ↦ rw miss (ground (arith, length-remove_found k m {v = v}))
  ]

-- The tasks that wait for a child to close, and those that wait for one to start.
abbrev pub closings : List Task → ℕ
closings [] = 0
closings (closes p id c rest failed ∷ ts) = suc (closings ts)
closings (continues p o ∷ ts) = closings ts
closings (spawns n a k ∷ ts) = closings ts
closings (awaits who n ∷ ts) = closings ts

abbrev pub spawnings : List Task → ℕ
spawnings [] = 0
spawnings (closes p id c rest failed ∷ ts) = spawnings ts
spawnings (continues p o ∷ ts) = spawnings ts
spawnings (spawns n a k ∷ ts) = suc (spawnings ts)
spawnings (awaits who n ∷ ts) = spawnings ts

pub closings-append : (ts us : List Task) → closings (ts ++ us) ≡ closings ts + closings us
closings-append [] us = omega arith
closings-append (closes p id c rest failed ∷ ts) us = omega (arith, closings-append ts us)
closings-append (continues p o ∷ ts) us = closings-append ts us
closings-append (spawns n a k ∷ ts) us = closings-append ts us
closings-append (awaits who n ∷ ts) us = closings-append ts us

pub spawnings-append : (ts us : List Task) → spawnings (ts ++ us) ≡ spawnings ts + spawnings us
spawnings-append [] us = omega arith
spawnings-append (closes p id c rest failed ∷ ts) us = spawnings-append ts us
spawnings-append (continues p o ∷ ts) us = spawnings-append ts us
spawnings-append (spawns n a k ∷ ts) us = omega (arith, spawnings-append ts us)
spawnings-append (awaits who n ∷ ts) us = spawnings-append ts us

pub length-set :
    (k : Text) (v : ℕ) (m : List (Text × ℕ))
    → length (set k v m) ≡ (if is_here (get k m) then length m else length m + 1)
unfolding set get
length-set k v [] = omega arith
length-set k v ((j, w) ∷ m) = ground (arith, length-set k v m)

-- How many slots there are, and how many children are alive.
pub record Limits : Type 0 where
  pub most : ℕ
  pub live : ℕ

-- Each slot that is counted for a child that closes or starts has its task, but for `dc` and `dp` whose
-- tasks have just woken, no more slots are occupied than there are, each child that is alive has an
-- entry or closes, and no conversation has two entries.
pub record Balanced (m : Limits) (dc dp : ℕ) (s : Pool) : Type 0 where
  pub limit : s.max_children ≡ m.most
  pub closing_counted : s.closing ≡ closings s.tasks + dc
  pub pending_counted : s.pending_creations ≡ spawnings s.tasks + dp
  pub bounded : length s.entries + s.pending_creations + s.closing ≤ m.most
  pub alive : m.live ≤ length s.entries + s.closing
  pub keys : Distinct s.entries

-- What is not counted may change.
pub frame :
    {m : Limits} {dc dp : ℕ} (s t : Pool)
    → t.max_children ≡ s.max_children
    → t.closing ≡ s.closing
    → t.pending_creations ≡ s.pending_creations
    → t.tasks ≡ s.tasks
    → t.entries ≡ s.entries
    → Balanced m dc dp s
    → Balanced m dc dp t
frame s t e1 e2 e3 e4 l b = record {
  limit = e1 ∙ b.limit;
  closing_counted = e2 ∙ b.closing_counted ∙ rw e4;
  pending_counted = e3 ∙ b.pending_counted ∙ rw e4;
  bounded = omega (arith, e2, e3, ap length l, b.bounded);
  alive = omega (arith, e2, ap length l, b.alive);
  keys = rw l b.keys;
}

-- A task that holds no slot.
pub add_task-Balanced :
    {m : Limits} {dc dp : ℕ} (t : Task) (s : Pool)
    → closings (t ∷ []) ≡ 0
    → spawnings (t ∷ []) ≡ 0
    → Balanced m dc dp s
    → Balanced m dc dp (add_task t s)
add_task-Balanced t s c p b = record {
  limit = b.limit;
  closing_counted = omega (arith, b.closing_counted, c, closings-append s.tasks (t ∷ []));
  pending_counted = omega (arith, b.pending_counted, p, spawnings-append s.tasks (t ∷ []));
  bounded = b.bounded;
  alive = b.alive;
  keys = b.keys;
}

-- A child that starts to close keeps its slot.
pub evict-Balanced :
    {m : Limits} {dc dp : ℕ} (p : Purpose) (id : Text) (c d : ℕ) (rest : List (Text × ℕ))
    (failed : Bool) (s : Pool)
    → get id s.entries ≡ some d
    → Balanced m dc dp s
    → Balanced m dc dp (record s {
      entries = remove id s.entries;
      closing = s.closing + 1;
      tasks = s.tasks ++ closes p id c rest failed ∷ [];
    })
evict-Balanced p id c d rest failed s e b = record {
  limit = b.limit;
  closing_counted =
      omega (arith, b.closing_counted, closings-append s.tasks (closes p id c rest failed ∷ []));
  pending_counted =
      omega (arith, b.pending_counted, spawnings-append s.tasks (closes p id c rest failed ∷ []));
  bounded = omega (arith, b.bounded, length-remove_found id s.entries e);
  alive = omega (arith, b.alive, length-remove_found id s.entries e);
  keys = remove-Distinct id s.entries b.keys;
}

-- A child that starts takes a free slot.
pub create-Balanced :
    {m : Limits} {dc dp : ℕ} (w : Waiter) (id : Text) (who : Claimant) (s : Pool)
    → length s.entries + s.pending_creations + s.closing < m.most
    → Balanced m dc dp s
    → Balanced m dc dp (record s {
      pending_creations = s.pending_creations + 1;
      inflight = set id s.fresh s.inflight;
      fresh = s.fresh + 1;
      tasks = s.tasks ++ spawns s.fresh w.adapter_id w.conversation_key ∷ awaits who s.fresh ∷ [];
    })
create-Balanced w id who s free b = record {
  limit = b.limit;
  closing_counted = omega (
    arith,
    b.closing_counted,
    closings-append s.tasks
        (spawns s.fresh w.adapter_id w.conversation_key ∷ awaits who s.fresh ∷ []),
  );
  pending_counted = omega (
    arith,
    b.pending_counted,
    spawnings-append s.tasks
        (spawns s.fresh w.adapter_id w.conversation_key ∷ awaits who s.fresh ∷ []),
  );
  bounded = omega (arith, free);
  alive = b.alive;
  keys = b.keys;
}

pub touch_lru-Balanced :
    {m : Limits} {dc dp : ℕ} (id : Text) (s : Pool)
    → Balanced m dc dp s
    → Balanced m dc dp (touch_lru id s)
unfolding touch_lru
touch_lru-Balanced id s b = elim (Option-cases (get id s.entries)) [
  | inl e ↦ rw (e, touch_lru) b
  | inr (c, e) ↦
      let there = length-remove_found id s.entries e in
      let gone = get-remove id s.entries b.keys in
      let again : length (set id c (remove id s.entries)) ≡ length s.entries =
        length-set id c (remove id s.entries) ∙ rw gone there in
      rw (e, touch_lru)
        (record {
          limit = b.limit;
          closing_counted = b.closing_counted;
          pending_counted = b.pending_counted;
          bounded = omega (arith, b.bounded, again);
          alive = omega (arith, b.alive, again);
          keys = set-Distinct id c (remove id s.entries) (remove-Distinct id s.entries b.keys);
        })
]
