-- ===== src/Prelude/Rows.antt =====
-- A database table as the list of its rows, and the statements that the stores send: SELECT,
-- UPDATE … WHERE with its count of changes, and DELETE … WHERE.
use mathlib.Core.Path.{subst}
use omp_bundler.Prelude.{
  ℕ, suc, ◌≡◌, refl, inl, inr, Bool, true, List, [], ◌∷◌, Option, none, some, if◌then◌else◌, All,
  arith, Bool-cases,
}

module _ {ℓ} {R : Type ℓ} where
  -- The first row that a WHERE clause selects.
  abbrev pub select : (R → Bool) → List R → Option R
  select p [] = none
  select p (r ∷ rows) = let rest = select p rows in if p r then some r else rest

  abbrev pub updated : (R → Bool) → (R → R) → R → R
  updated p f r = if p r then f r else r

  abbrev pub update : (R → Bool) → (R → R) → List R → List R
  update p f [] = []
  update p f (r ∷ rows) = updated p f r ∷ update p f rows

  -- The number of rows that a statement changes.
  abbrev pub changes : (R → Bool) → List R → ℕ
  changes p [] = 0
  changes p (r ∷ rows) = let rest = changes p rows in if p r then suc rest else rest

  abbrev pub delete : (R → Bool) → List R → List R
  delete p [] = []
  delete p (r ∷ rows) = let rest = delete p rows in if p r then rest else r ∷ rest

  pub update_unchanged :
      (p : R → Bool) (f : R → R) (rows : List R) → changes p rows ≡ 0 → update p f rows ≡ rows
  update_unchanged p f [] e = refl
  update_unchanged p f (r ∷ rows) e = ground (arith, update_unchanged p f rows)

  -- An update that leaves the key alone is seen through the key.
  pub select-update :
      (k p : R → Bool) (f : R → R) (rows : List R)
      → ((r : R) → k (updated p f r) ≡ k r)
      → select k (update p f rows)
        ≡ elim (select k rows) [ none ↦ none | some r ↦ some (updated p f r) ]
  select-update k p f [] h = refl
  select-update k p f (r ∷ rows) h = ground (arith, h r, select-update k p f rows h)

  pub All-update {κ} :
      (P : R → Type κ) (p : R → Bool) (f : R → R) (rows : List R)
      → ((r : R) → P r → p r ≡ true → P (f r))
      → All P rows
      → All P (update p f rows)
  All-update P p f [] h a = tt
  All-update P p f (r ∷ rows) h a = elim (Bool-cases (p r)) [
    | inl hit ↦ rw hit (h r a.0 hit, All-update P p f rows h a.1)
    | inr miss ↦ rw miss (a.0, All-update P p f rows h a.1)
  ]

  pub All-delete {κ} :
      (P : R → Type κ) (p : R → Bool) (rows : List R) → All P rows → All P (delete p rows)
  All-delete P p [] a = tt
  All-delete P p (r ∷ rows) a = elim (Bool-cases (p r)) [
    | inl hit ↦ rw hit (All-delete P p rows a.1)
    | inr miss ↦ rw miss (a.0, All-delete P p rows a.1)
  ]

  pub All-select {κ} :
      (P : R → Type κ) (p : R → Bool) (rows : List R) {r : R}
      → All P rows
      → select p rows ≡ some r
      → P r
  All-select P p [] a e = cc
  All-select P p (r ∷ rows) a e = elim (Bool-cases (p r)) [
    | inl hit ↦ subst P (ground arith) a.0
    | inr miss ↦ All-select P p rows a.1 (ground arith)
  ]

  pub select_holds : (p : R → Bool) (rows : List R) {r : R} → select p rows ≡ some r → p r ≡ true
  select_holds p [] e = cc
  select_holds p (r ∷ rows) {r = r'} e = ground (arith, select_holds p rows {r = r'})
