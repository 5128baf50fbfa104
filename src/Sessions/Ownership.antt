-- ===== src/Sessions/Ownership.antt =====
-- Compare-and-set ownership of a conversation.
use omp_bundler.Prelude.{
  ◌≡◌, refl, ◌∙◌, inl, inr, ◌↔◌, List, true, Option, none, some, Text, same_iff, if◌then◌else◌,
  arith, Bool-cases,
}
use omp_bundler.Prelude.Results.{ok, err}
use omp_bundler.Prelude.Rows.{select, changes, update, select_holds}
use omp_bundler.Sessions.{
  SessionRecord, owner_mismatch, at, owner_is, owned_at, with_owner, get_raw, read_back,
  release_error, set_owner, heartbeat, release,
}
use omp_bundler.Sessions.Keys.{Unique, one_row, KeepsKey, select-kept}

pub owner_is_iff : (x y : Option Text) → (owner_is x y ≡ true) ↔ (x ≡ y)
owner_is_iff none none = ground arith
owner_is_iff none (some y) = ground arith
owner_is_iff (some x) none = ground arith
owner_is_iff (some x) (some y) = ground (arith, same_iff x y)

module _ (rows : List SessionRecord) (a k : Text) (u : Unique rows) where
  count :
      (r : SessionRecord) (owner : Option Text)
      → select (at a k) rows ≡ some r
      → changes (owned_at a k owner) rows ≡ (if owner_is r.current_owner owner then 1 else 0)
  count r owner e = one_row a k (λ s. owner_is s.current_owner owner) rows u ∙ rw e

  -- The row after a write that expects its owner.
  pub written :
      (r : SessionRecord) (owner : Option Text) (f : SessionRecord → SessionRecord)
      → KeepsKey f
      → select (at a k) rows ≡ some r
      → owner_is r.current_owner owner ≡ true
      → select (at a k) (update (owned_at a k owner) f rows) ≡ some (f r)
  written r owner f h e hit =
      select-kept (owned_at a k owner) f rows a k h ∙ rw e (rw (select_holds (at a k) rows e, hit))

  -- In a table with unique keys, a claim of a conversation that has a row replaces the owner exactly if
  -- it is the one that the caller expects, and answers with the row that it wrote; otherwise it is
  -- refused as a mismatch.
  pub set_owner_lem :
      (r : SessionRecord) (current new_owner : Option Text) (ts : Text)
      → select (at a k) rows ≡ some r
      → set_owner rows a k current new_owner ts ≡ (
          if owner_is r.current_owner current
          then ok (
            update (owned_at a k current) (with_owner new_owner ts) rows,
            with_owner new_owner ts r,
          )
          else err (owner_mismatch current))
  unfolding set_owner get_raw
  set_owner_lem r current new_owner ts e = elim (Bool-cases (owner_is r.current_owner current)) [
    | inl hit ↦
        rw (count r current e, hit)
          (rw (written r current (with_owner new_owner ts) (λ s. (refl, refl)) e hit, read_back))
    | inr miss ↦ rw (count r current e, miss)
  ]

  -- In a table with unique keys, a heartbeat for a conversation that has a row reports true exactly if
  -- the caller owns it.
  pub heartbeat_lem :
      (r : SessionRecord) (owner ts : Text)
      → select (at a k) rows ≡ some r
      → (heartbeat rows a k owner ts).1 ≡ owner_is r.current_owner (some owner)
  unfolding heartbeat
  heartbeat_lem r owner ts e = rw (count r (some owner) e) (ground arith)

  -- In a table with unique keys, a release of a conversation that has a row clears the owner exactly if
  -- the caller is the owner, and answers with the row that it wrote; otherwise it is refused as a
  -- mismatch.
  pub release_lem :
      (r : SessionRecord) (owner ts : Text)
      → select (at a k) rows ≡ some r
      → release rows a k owner ts ≡ (
          if owner_is r.current_owner (some owner)
          then ok
              (update (owned_at a k (some owner)) (with_owner none ts) rows, with_owner none ts r)
          else err (owner_mismatch (some owner)))
  unfolding release get_raw
  release_lem r owner ts e = elim (Bool-cases (owner_is r.current_owner (some owner))) [
    | inl hit ↦
        rw (count r (some owner) e, hit)
          (rw (written r (some owner) (with_owner none ts) (λ s. (refl, refl)) e hit, read_back))
    | inr miss ↦ rw (count r (some owner) e, miss) (rw (e, release_error))
  ]
