-- ===== src/Sessions/History.antt =====
-- Histories of calls on the session table: who owns a conversation, and where its session is kept.
use omp_bundler.Prelude.{
  ℕ, ◌≡◌, refl, inl, inr, List, [], ◌∷◌, ◌++◌, Bool, true, false, not, Option, none, some, Text,
  any, is_empty, if◌then◌else◌, ◌==◌, Bool-cases, Option-cases,
}
use omp_bundler.Prelude.Results.{Result, ok, err, require}
use omp_bundler.Prelude.Rows.{delete}
use omp_bundler.Sessions.{
  SessionRecord, RegistryError, StateReply, at, new_record, get_raw, read_back, set_owner,
  heartbeat, touch, release, create, commit, forget, session_file_of,
}
use omp_bundler.Sessions.Keys.{Unique, Unique-update, Unique-append, Unique-delete}

-- A call on the table. `commits` is `create` with the table that it saw.
pub data Call : Type 0 where
  claims : Text → Text → Option Text → Option Text → Text → Call
  beats : Text → Text → Text → Text → Call
  touches : Text → Text → Text → Call
  releases : Text → Text → Text → Text → Call
  forgets : Text → Text → Call
  commits : List SessionRecord → Text → Text → Bool → StateReply → Text → Call

abbrev pub rows_of :
    List SessionRecord
    → Result RegistryError (List SessionRecord × SessionRecord)
    → List SessionRecord
rows_of rows (ok (rows', r)) = rows'
rows_of rows (err e) = rows

unfoldable pub call : List SessionRecord → Call → List SessionRecord
call rows (claims a k current new_owner ts) = rows_of rows (set_owner rows a k current new_owner ts)
call rows (beats a k owner ts) = (heartbeat rows a k owner ts).0
call rows (touches a k ts) = (touch rows a k ts).0
call rows (releases a k owner ts) = rows_of rows (release rows a k owner ts)
call rows (forgets a k) = (forget (record { rows = rows; inflight = [] }) a k).0.rows
call rows (commits seen a k created reply ts) = rows_of rows (create seen rows a k created reply ts)

unfoldable pub calls : List SessionRecord → List Call → List SessionRecord
calls rows [] = rows
calls rows (c ∷ cs) = calls (call rows c) cs

-- What holds of the rows before a call and after its statement holds after the call.
module _ (P : List SessionRecord → Type 0) (rows : List SessionRecord) (before : P rows) where
  pub guarded_case :
      (rows' : List SessionRecord) (n : ℕ) (e : RegistryError) (o : Option SessionRecord)
      → P rows'
      → P (rows_of rows (if n == 0 then err e else read_back rows' o))
  unfolding read_back
  guarded_case rows' n e none h = elim (Bool-cases (n == 0)) [
    | inl z ↦ rw z before
    | inr p ↦ rw p before
  ]
  guarded_case rows' n e (some r) h = elim (Bool-cases (n == 0)) [
    | inl z ↦ rw z before
    | inr p ↦ rw p h
  ]

  commit_case :
      (a k ts : Text) (file : Result RegistryError Text)
      → ((f : Text) → any (at a k) rows ≡ false → P (rows ++ new_record a k f ts ∷ []))
      → P (rows_of rows (commit rows a k ts file))
  unfolding commit
  commit_case a k ts (err e) h = before
  commit_case a k ts (ok file) h = elim (Bool-cases (any (at a k) rows)) [
    | inl there ↦ rw there before
    | inr absent ↦ rw absent (h file absent)
  ]

  require_case :
      (test : Bool) (e : RegistryError)
      (rest : Result RegistryError (List SessionRecord × SessionRecord))
      → P (rows_of rows rest)
      → P (rows_of rows (require test e rest))
  require_case true e rest h = h
  require_case false e rest h = before

  pub create_case :
      (seen : List SessionRecord) (a k : Text) (created : Bool) (reply : StateReply) (ts : Text)
      → ((f : Text) → any (at a k) rows ≡ false → P (rows ++ new_record a k f ts ∷ []))
      → P (rows_of rows (create seen rows a k created reply ts))
  unfolding create
  create_case seen a k created reply ts h = require_case (not (is_empty a)) _ _ (
      require_case (not (is_empty k)) _ _ (elim (Option-cases (get_raw seen a k)) [
        | inr (r, e) ↦ rw e before
        | inl e ↦ rw e (commit_case a k ts (session_file_of created reply) h)
      ]))

  pub forget_case :
      (a k : Text)
      → P (delete (at a k) rows)
      → P (forget (record { rows = rows; inflight = [] }) a k).0.rows
  unfolding forget
  forget_case a k h = elim (Option-cases (get_raw rows a k)) [
    | inr (r, e) ↦ rw (e, forget) h
    | inl e ↦ rw (e, forget) before
  ]

call-Unique : (rows : List SessionRecord) (c : Call) → Unique rows → Unique (call rows c)
unfolding call set_owner heartbeat touch release
call-Unique rows (claims a k current new_owner ts) u =
    guarded_case Unique rows u _ _ _ _ (Unique-update _ _ rows (λ r. (refl, refl)) u)
call-Unique rows (beats a k owner ts) u = Unique-update _ _ rows (λ r. (refl, refl)) u
call-Unique rows (touches a k ts) u = Unique-update _ _ rows (λ r. (refl, refl)) u
call-Unique rows (releases a k owner ts) u =
    guarded_case Unique rows u _ _ _ _ (Unique-update _ _ rows (λ r. (refl, refl)) u)
call-Unique rows (forgets a k) u = forget_case Unique rows u a k (Unique-delete (at a k) rows u)
call-Unique rows (commits seen a k created reply ts) u =
    create_case Unique rows u seen a k created reply ts
      (λ file absent. Unique-append rows (new_record a k file ts) absent u)

-- A table in which no conversation has two rows is still one after any calls.
pub calls-Unique :
    (rows : List SessionRecord) (cs : List Call) → Unique rows → Unique (calls rows cs)
unfolding calls
calls-Unique rows [] u = u
calls-Unique rows (c ∷ cs) u = calls-Unique (call rows c) cs (call-Unique rows c u)
