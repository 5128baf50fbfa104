-- ===== src/Pool/Sparing.antt =====
-- Eviction never takes a child that is in use.
use omp_bundler.Prelude.{
  ◌≡◌, refl, sym, ◌∙◌, ap, ℕ, inl, inr, List, [], ◌∷◌, Bool, true, false, not, ◌&&◌, Option, none,
  some, Text, same, same_iff, ==_iff, arith, Bool-cases,
}
use omp_bundler.Prelude.Maps.{get, remove}
use omp_bundler.Pool.{Purpose, all_in_use, continues, Pool, is_in_use, add_task}
use omp_bundler.Pool.Sections.{
  is_at, is_evictable, detach, idle_entries, evict_next, evict_idle_for_capacity,
}

get-remove_other :
    (k j : Text) (m : List (Text × ℕ)) → same k j ≡ false → get j (remove k m) ≡ get j m
unfolding get remove
get-remove_other k j [] e = refl
get-remove_other k j ((i, v) ∷ m) e =
    ground (arith, same_iff k j, same_iff i k, same_iff i j, get-remove_other k j m e)

is_at_lem : (c : ℕ) (o : Option ℕ) → is_at c o ≡ true → o ≡ some c
is_at_lem c none h = cc
is_at_lem c (some d) h = ap some ((==_iff d c).0 h)

both : (p q : Bool) → p && not q ≡ true → (p ≡ true) × (q ≡ false)
both p q h = ground arith

module _ (s : Pool) (id : Text) (c : ℕ) (live : get id s.entries ≡ some c)
    (used : is_in_use s c ≡ true) where
  evict_next-spares :
      (p : Purpose) (failed : Bool) (idle : List (Text × ℕ))
      → get id (evict_next p s failed idle).entries ≡ some c
  unfolding evict_next detach
  evict_next-spares p failed [] = live
  evict_next-spares p failed ((j, d) ∷ rest) = elim (Bool-cases (is_evictable s j d)) [
    | inr busy ↦ rw busy (evict_next-spares p failed rest)
    | inl idle ↦ rw idle (get-remove_other j id s.entries (apart j d idle) ∙ live)
  ]
    where
      apart : (j : Text) (d : ℕ) → is_evictable s j d ≡ true → same j id ≡ false
      apart j d idle = elim (Bool-cases (same j id)) [
        | inr other ↦ other
        | inl hit ↦
            let key : j ≡ id = (same_iff j id).0 hit in
            let here : get j s.entries ≡ some c = rw key live in
            let (chosen, free) = both (is_at d (get j s.entries)) (is_in_use s d) idle in
            let child : some d ≡ some c = sym (is_at_lem d (get j s.entries) chosen) ∙ here in
            let child' : d ≡ c = cc in
            let busy : is_in_use s d ≡ true = rw child' used in ground arith
      ]

-- A live child that is in use is still live after an eviction for capacity has chosen its victim.
pub evict_idle_for_capacity_spares :
    (s : Pool) (p : Purpose) (id : Text) (c : ℕ)
    → get id s.entries ≡ some c
    → is_in_use s c ≡ true
    → get id (evict_idle_for_capacity p s).entries ≡ some c
unfolding evict_idle_for_capacity
evict_idle_for_capacity_spares s p id c live used = go (idle_entries s s.entries)
  where
    go :
        (idle : List (Text × ℕ))
        → get id
            (elim idle as (λ x. Pool) [
              | [] ↦ add_task (continues p all_in_use) s
              | e ∷ rest ↦ evict_next p s false (e ∷ rest)
            ]).entries
          ≡ some c
    go [] = live
    go (e ∷ rest) = evict_next-spares s id c live used p false (e ∷ rest)
