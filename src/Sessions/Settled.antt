-- ===== src/Sessions/Settled.antt =====
-- The end of a creation: what the next call of `getOrCreate` finds.
use mathlib.Core.Path.{subst}
use omp_bundler.Prelude.{
  ◌≡◌, refl, ap, ◌∙◌, inl, inr, List, [], ◌∷◌, ◌++◌, Bool, true, false, not, Option, some, Text,
  same_refl, any, is_empty, arith, Bool-cases, Option-cases,
}
use omp_bundler.Prelude.Results.{Result, ok, err, require, Result-cases}
use omp_bundler.Prelude.Rows.{select}
use omp_bundler.Sessions.{
  SessionRecord, RegistryError, StateReply, Registry, Plan, switches, at, get_raw, new_record,
  commit, create, session_file_of, get_or_create, settle_creation,
}
use omp_bundler.Sessions.SingleFlight.{with_row}

select-append_last :
    (p : SessionRecord → Bool) (rows : List SessionRecord) (r : SessionRecord)
    → any p rows ≡ false
    → p r ≡ true
    → select p (rows ++ r ∷ []) ≡ some r
select-append_last p [] r absent hit = rw hit refl
select-append_last p (s ∷ rows) r absent hit = ground (arith, select-append_last p rows r)

module _ (a k : Text) where
  -- The row that a creation returns is the one that a read of its table finds.
  abbrev IsRead : Result RegistryError (List SessionRecord × SessionRecord) → Type 0
  IsRead (ok (rows, r)) = select (at a k) rows ≡ some r
  IsRead (err e) = Unit

  require-IsRead :
      (test : Bool) (e : RegistryError)
      (rest : Result RegistryError (List SessionRecord × SessionRecord))
      → IsRead rest
      → IsRead (require test e rest)
  require-IsRead true e rest h = h
  require-IsRead false e rest h = tt

  commit-IsRead :
      (rows : List SessionRecord) (ts : Text) (file : Result RegistryError Text)
      → IsRead (commit rows a k ts file)
  unfolding commit
  commit-IsRead rows ts (err e) = tt
  commit-IsRead rows ts (ok file) = elim (Bool-cases (any (at a k) rows)) [
    | inl there ↦ rw there tt
    | inr absent ↦ rw absent (
        select-append_last (at a k) rows (new_record a k file ts) absent
          (rw (same_refl a, same_refl k) refl))
  ]

  create-IsRead :
      (seen rows : List SessionRecord) (created : Bool) (reply : StateReply) (ts : Text)
      → IsRead (create seen rows a k created reply ts)
  unfolding create
  create-IsRead seen rows created reply ts = require-IsRead (not (is_empty a)) _ _ (
      require-IsRead (not (is_empty k)) _ _ (elim (Option-cases (get_raw seen a k)) [
        | inr (r, e) ↦ rw e tt
        | inl e ↦ rw e (commit-IsRead rows ts (session_file_of created reply))
      ]))

row_injective :
    {r r' : SessionRecord} → Path (Result RegistryError SessionRecord) (ok r) (ok r') → r ≡ r'
row_injective e = cc

-- When a creation succeeds, the next call of `getOrCreate` on its conversation switches to the file of
-- the very row that the creation returned, whatever the parent.
pub get_or_create-settle_creation :
    (s : Registry) (seen : List SessionRecord) (a k : Text) (created : Bool) (reply : StateReply)
    (ts : Text) (r : SessionRecord) (parent : Option Text)
    → (settle_creation s seen a k created reply ts).1 ≡ ok r
    → (get_or_create (settle_creation s seen a k created reply ts).0 a k parent).1 ≡ switches r
unfolding settle_creation get_raw
get_or_create-settle_creation s seen a k created reply ts r parent e =
    elim (Result-cases (create seen s.rows a k created reply ts)) [
      | inr (x, f) ↦
          let e' : Path (Result RegistryError SessionRecord) (err x) (ok r) =
            rw (f, settle_creation) at e in
          cc
      | inl ((rows', r'), f) ↦
          let e' : Path (Result RegistryError SessionRecord) (ok r') (ok r) =
            rw (f, settle_creation) at e in
          let read : select (at a k) rows' ≡ some r' =
            subst (IsRead a k) f (create-IsRead a k seen s.rows created reply ts) in
          rw (f, settle_creation)
            (ap (λ (t : Registry × Plan). t.1) (with_row _ a k parent r' read)
              ∙ ap switches (row_injective e'))
    ]
