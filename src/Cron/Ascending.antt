-- ===== src/Cron/Ascending.antt =====
-- The lists of values that `parseField` returns: sorted, and no value twice.
use omp_bundler.Prelude.{
  ℕ, ◌<◌, ◌≡◌, inl, inr, List, [], ◌∷◌, Bool, false, leb, ◌==◌, All, arith, Bool-cases,
}
use omp_bundler.Prelude.Rows.{delete, All-delete}
use omp_bundler.Cron.{distinct, place, sorted}

abbrev pub Ascending : List ℕ → Type 0
Ascending [] = Unit
Ascending (v ∷ vs) = All (λ w. v < w) vs × Ascending vs

-- No value is twice in the list.
abbrev pub Apart : List ℕ → Type 0
Apart [] = Unit
Apart (v ∷ vs) = All (λ w. (w == v) ≡ false) vs × Apart vs

All-map : (P Q : ℕ → Type 0) (vs : List ℕ) → ((v : ℕ) → P v → Q v) → All P vs → All Q vs
All-map P Q [] f h = tt
All-map P Q (v ∷ vs) f h = (f v h.0, All-map P Q vs f h.1)

delete-All-miss : (v : ℕ) (vs : List ℕ) → All (λ w. (w == v) ≡ false) (delete (λ w. w == v) vs)
delete-All-miss v [] = tt
delete-All-miss v (w ∷ vs) = elim (Bool-cases (w == v)) [
  | inl hit ↦ rw hit (delete-All-miss v vs)
  | inr miss ↦ rw miss (miss, delete-All-miss v vs)
]

delete-Apart : (p : ℕ → Bool) (vs : List ℕ) → Apart vs → Apart (delete p vs)
delete-Apart p [] a = tt
delete-Apart p (w ∷ vs) a = elim (Bool-cases (p w)) [
  | inl hit ↦ rw hit (delete-Apart p vs a.1)
  | inr miss ↦ rw miss (All-delete _ p vs a.0, delete-Apart p vs a.1)
]

distinct-Apart : (vs : List ℕ) → Apart (distinct vs)
unfolding distinct
distinct-Apart [] = tt
distinct-Apart (v ∷ vs) =
    (delete-All-miss v (distinct vs), delete-Apart (λ w. w == v) (distinct vs) (distinct-Apart vs))

pub distinct-All : (P : ℕ → Type 0) (vs : List ℕ) → All P vs → All P (distinct vs)
unfolding distinct
distinct-All P [] h = tt
distinct-All P (v ∷ vs) h = (h.0, All-delete P _ (distinct vs) (distinct-All P vs h.1))

place-All : (P : ℕ → Type 0) (v : ℕ) (vs : List ℕ) → P v → All P vs → All P (place v vs)
unfolding place
place-All P v [] p h = (p, tt)
place-All P v (w ∷ vs) p h = elim (Bool-cases (leb v w)) [
  | inl le ↦ rw le (p, h)
  | inr gt ↦ rw gt (h.0, place-All P v vs p h.1)
]

pub sorted-All : (P : ℕ → Type 0) (vs : List ℕ) → All P vs → All P (sorted vs)
unfolding sorted
sorted-All P [] h = tt
sorted-All P (v ∷ vs) h = place-All P v (sorted vs) h.0 (sorted-All P vs h.1)

place-Ascending :
    (v : ℕ) (vs : List ℕ) → All (λ w. (w == v) ≡ false) vs → Ascending vs → Ascending (place v vs)
unfolding place
place-Ascending v [] m a = (tt, tt)
place-Ascending v (w ∷ vs) m a = elim (Bool-cases (leb v w)) [
  | inl le ↦
      let lt : v < w = ground (arith, m.0) in
      rw le ((lt, All-map (λ u. w < u) (λ u. v < u) vs (λ u h. omega (arith, h, lt)) a.0), a)
  | inr gt ↦ rw gt (place-All (λ u. w < u) v vs (ground arith) a.0, place-Ascending v vs m.1 a.1)
]

sorted-Ascending : (vs : List ℕ) → Apart vs → Ascending (sorted vs)
unfolding sorted
sorted-Ascending [] a = tt
sorted-Ascending (v ∷ vs) a =
    place-Ascending v (sorted vs) (sorted-All _ vs a.0) (sorted-Ascending vs a.1)

pub sorted-distinct-Ascending : (vs : List ℕ) → Ascending (sorted (distinct vs))
sorted-distinct-Ascending vs = sorted-Ascending (distinct vs) (distinct-Apart vs)
