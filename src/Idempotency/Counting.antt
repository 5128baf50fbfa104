-- ===== src/Idempotency/Counting.antt =====
-- The sorted rows of a correlation and their counts.
use omp_bundler.Prelude.{
  ℕ, zero, suc, ◌≡◌, refl, sym, ap, ◌∙◌, inl, inr, List, [], ◌∷◌, Bool, true, ◌&&◌, Option, none,
  Text, keep, if◌then◌else◌, ==_iff, All, arith, Bool-cases, Option-cases,
}
use omp_bundler.Prelude.Results.{ok, Result-cases}
use omp_bundler.Prelude.Rows.{changes, update, update_unchanged}
use omp_bundler.Idempotency.{Entry, StoreError}
use omp_bundler.Idempotency.Correlation.{tally, change_counted, before_by, place, order_by}

-- The number of rows that pass a test does not depend on the order, nor does a test of them all.
module _ (collate : Text → Text → Bool) (ks : List (Entry → Text)) where
  changes-place :
      (p : Entry → Bool) (r : Entry) (rows : List Entry)
      → changes p (place collate ks r rows) ≡ changes p (r ∷ rows)
  unfolding place
  changes-place p r [] = refl
  changes-place p r (s ∷ rows) = ground (arith, changes-place p r rows)

  pub changes-order_by :
      (p : Entry → Bool) (rows : List Entry) → changes p (order_by collate ks rows) ≡ changes p rows
  unfolding order_by
  changes-order_by p [] = refl
  changes-order_by p (r ∷ rows) =
      changes-place p r (order_by collate ks rows)
      ∙ ap (λ (n : ℕ). if p r then suc n else n) (changes-order_by p rows)

  All-place :
      (P : Entry → Type 0) (r : Entry) (rows : List Entry)
      → All P (place collate ks r rows)
      → P r × All P rows
  unfolding place
  All-place P r [] h = h
  All-place P r (s ∷ rows) h = elim (Bool-cases (before_by collate ks r s)) [
    | inl first ↦ rw first at h
    | inr later ↦
        let h' : All P (s ∷ place collate ks r rows) = rw later at h in
        let (p, q) = All-place P r rows h'.1 in (p, (h'.0, q))
  ]

  pub All-order_by :
      (P : Entry → Type 0) (rows : List Entry) → All P (order_by collate ks rows) → All P rows
  unfolding order_by
  All-order_by P [] h = tt
  All-order_by P (r ∷ rows) h =
      let (p, q) = All-place P r (order_by collate ks rows) h in (p, All-order_by P rows q)

pub changes-keep :
    (q p : Entry → Bool) (rows : List Entry)
    → changes p (keep q rows) ≡ changes (λ r. q r && p r) rows
changes-keep q p [] = refl
changes-keep q p (r ∷ rows) = ground (arith, changes-keep q p rows)

pub All-keep :
    (P : Entry → Type 0) (q : Entry → Bool) (rows : List Entry)
    → All P (keep q rows)
    → All (λ r. q r ≡ true → P r) rows
All-keep P q [] h = tt
All-keep P q (r ∷ rows) h = elim (Bool-cases (q r)) [
  | inl hit ↦
      let h' : All P (r ∷ keep q rows) = rw hit at h in ((λ e. h'.0), All-keep P q rows h'.1)
  | inr miss ↦ let h' : All P (keep q rows) = rw miss at h in ((λ e. cc), All-keep P q rows h')
]

pub changes_cong :
    (p q : Entry → Bool) (rows : List Entry)
    → All (λ r. p r ≡ q r) rows
    → changes p rows ≡ changes q rows
changes_cong p q [] h = refl
changes_cong p q (r ∷ rows) h = rw (h.0, changes_cong p q rows h.1)

-- The count of a loop that met no bad row.
pub tally_ok :
    (bad : Entry → Option StoreError) (test : Entry → Bool) (rows : List Entry) (n : ℕ)
    → tally bad test rows ≡ ok n
    → All (λ r. bad r ≡ none) rows × (n ≡ changes test rows)
unfolding tally
tally_ok bad test [] n e = (tt, ground arith)
tally_ok bad test (r ∷ rows) n e = elim (Option-cases (bad r)) [
  | inr (x, b) ↦ ground arith
  | inl b ↦ elim (Result-cases (tally bad test rows)) [
    | inl (k, t) ↦ let (h, m) = tally_ok bad test rows k t in ((b, h), ground arith)
    | inr (x, t) ↦ ground arith
  ]
]

pub counted :
    (p : Entry → Bool) (f : Entry → Entry) (rows : List Entry) (n : ℕ)
    → n ≡ changes p rows
    → change_counted p f rows (ok n) ≡ ok (update p f rows)
unfolding change_counted
counted p f rows zero e = ap ok (sym (update_unchanged p f rows (sym e)))
counted p f rows (suc n) e = rw ((==_iff (changes p rows) (suc n)).1 (sym e))
