-- ===== src/Pool/Takeover.antt =====
-- The claim of a conversation by a new child, on the session registry's table.
use omp_bundler.Prelude.{◌≡◌, refl, ◌∙◌, List, true, false, Option, none, some, Text, same_refl}
use omp_bundler.Prelude.Results.{ok, err}
use omp_bundler.Prelude.Rows.{select, update}
use omp_bundler.Sessions.{
  SessionRecord, owner_mismatch, at, owner_is, owned_at, with_owner, get_raw, set_owner,
}
use omp_bundler.Sessions.Keys.{Unique}
use omp_bundler.Sessions.Ownership.{owner_is_iff, written, set_owner_lem}
use omp_bundler.Pool.Claim.{claim, claimed, transfer, stolen}

module _ (rows : List SessionRecord) (a k token ts : Text) (r : SessionRecord) where
  -- What a compare-and-set of the recorded owner does, and one that expects none.
  set_owner_hit :
      (o : Option Text)
      → Unique rows
      → select (at a k) rows ≡ some r
      → owner_is r.current_owner o ≡ true
      → set_owner rows a k o (some token) ts
        ≡ ok (
          update (owned_at a k o) (with_owner (some token) ts) rows,
          with_owner (some token) ts r,
        )
  set_owner_hit o u e hit = set_owner_lem rows a k u r o (some token) ts e ∙ rw hit refl

  set_owner_miss :
      Unique rows
      → select (at a k) rows ≡ some r
      → owner_is r.current_owner none ≡ false
      → set_owner rows a k none (some token) ts ≡ err (owner_mismatch none)
  set_owner_miss u e miss = set_owner_lem rows a k u r none (some token) ts e ∙ rw miss refl

  taken :
      (o : Option Text)
      → r.current_owner ≡ o
      → Unique rows
      → select (at a k) rows ≡ some r
      → claim rows a k token ts ≡ ok (update (owned_at a k o) (with_owner (some token) ts) rows)
  unfolding claim claimed transfer stolen get_raw
  taken none p u e = rw (set_owner_hit none u e (rw p refl)) refl
  taken (some x) p u e =
      rw (set_owner_miss u e (rw p refl))
        (rw (e, p) (rw (set_owner_hit (some x) u e (rw p (same_refl x))) refl))

-- In a table with unique keys, the claim of a conversation that has a row always succeeds, and makes
-- the new token its owner whoever owned it before; no other column but the activity changes.
pub claim_lem :
    (rows : List SessionRecord) (a k token ts : Text) (r : SessionRecord)
    → Unique rows
    → select (at a k) rows ≡ some r
    → (rows' : List SessionRecord) × (claim rows a k token ts ≡ ok rows')
      × (select (at a k) rows' ≡ some (with_owner (some token) ts r))
claim_lem rows a k token ts r u e =
    let o = r.current_owner in
    (
      update (owned_at a k o) (with_owner (some token) ts) rows,
      taken rows a k token ts r o refl u e,
      written rows a k u r o (with_owner (some token) ts) (λ s. (refl, refl)) e
          ((owner_is_iff o o).1 refl),
    )
