-- ===== src/Sessions/Safety.antt =====
-- An owner keeps its conversation: the calls of others neither take it away nor change its session.
use omp_bundler.Prelude.{
  ◌≡◌, refl, sym, ap, ◌∙◌, inl, inr, List, [], ◌∷◌, ◌++◌, Bool, true, false, ◌&&◌, Option, none,
  some, Text, same, same_iff, All, arith, Bool-cases, Option-cases,
}
use omp_bundler.Prelude.Rows.{select, updated, update, delete, select_holds}
use omp_bundler.Sessions.{
  SessionRecord, at, owner_is, owned_at, with_owner, new_record, set_owner, heartbeat, touch,
  release,
}
use omp_bundler.Sessions.Keys.{KeepsKey, select-kept}
use omp_bundler.Sessions.History.{
  Call, claims, beats, touches, releases, forgets, commits, call, calls, guarded_case, create_case,
  forget_case,
}

-- The calls that may end the ownership of a conversation by `x`: a claim that expects `x` to be its
-- owner, a release by `x`, and to forget the conversation.
abbrev pub evicts : Text → Text → Text → Call → Bool
evicts a k x (claims b l current new_owner ts) = same b a && same l k && owner_is (some x) current
evicts a k x (beats b l owner ts) = false
evicts a k x (touches b l ts) = false
evicts a k x (releases b l owner ts) = same b a && same l k && owner_is (some x) (some owner)
evicts a k x (forgets b l) = same b a && same l k
evicts a k x (commits seen b l created reply ts) = false

-- What a row says of its conversation: owner, session file and time of creation.
abbrev pub facts : Option SessionRecord → Option (Option Text × Text × Text)
facts none = none
facts (some r) = some (r.current_owner, r.session_file, r.created_at)

module _ (a k x file born : Text) where
  abbrev Kept : List SessionRecord → Type 0
  Kept rows = facts (select (at a k) rows) ≡ some (some x, file, born)

  update-Kept :
      (p : SessionRecord → Bool) (f : SessionRecord → SessionRecord) (rows : List SessionRecord)
      → KeepsKey f
      → ((r : SessionRecord)
          → at a k r ≡ true
          → r.current_owner ≡ some x
          → facts (some (updated p f r)) ≡ facts (some r))
      → Kept rows
      → Kept (update p f rows)
  update-Kept p f rows h same_facts kept = elim (Option-cases (select (at a k) rows)) [
    | inl e ↦ cc
    | inr (r, e) ↦
        let here : facts (some r) ≡ some (some x, file, born) = ap facts (sym e) ∙ kept in
        let after : select (at a k) (update p f rows) ≡ some (updated p f r) =
          select-kept p f rows a k h ∙ rw e refl in
        let owned : r.current_owner ≡ some x = ground arith in
        ap facts after ∙ same_facts r (select_holds (at a k) rows e) owned ∙ here
  ]

  append-Kept : (rows : List SessionRecord) (r : SessionRecord) → Kept rows → Kept (rows ++ r ∷ [])
  append-Kept [] r kept = cc
  append-Kept (s ∷ rows) r kept = elim (Bool-cases (at a k s)) [
    | inl hit ↦ ground arith
    | inr miss ↦ ground (arith, append-Kept rows r)
  ]

  delete-Kept :
      (b l : Text) (rows : List SessionRecord)
      → same b a && same l k ≡ false
      → Kept rows
      → Kept (delete (at b l) rows)
  delete-Kept b l [] e kept = cc
  delete-Kept b l (s ∷ rows) e kept = ground (
    arith,
    delete-Kept b l rows e,
    same_iff b a,
    same_iff l k,
    same_iff s.adapter_id a,
    same_iff s.conversation_key k,
    same_iff s.adapter_id b,
    same_iff s.conversation_key l,
  )

  spared :
      (b l : Text) (owner new_owner : Option Text) (ts : Text) (rows : List SessionRecord)
      → same b a && same l k && owner_is (some x) owner ≡ false
      → Kept rows
      → Kept (update (owned_at b l owner) (with_owner new_owner ts) rows)
  spared b l owner new_owner ts rows e =
      update-Kept (owned_at b l owner) (with_owner new_owner ts) rows (λ r. (refl, refl))
        λ r here own.
          let miss : owned_at b l owner r ≡ false = rw own (
            ground (
              arith,
              same_iff b a,
              same_iff l k,
              same_iff r.adapter_id a,
              same_iff r.conversation_key k,
              same_iff r.adapter_id b,
              same_iff r.conversation_key l,
            )) in
          rw miss refl

  call-Kept :
      (rows : List SessionRecord) (c : Call)
      → evicts a k x c ≡ false
      → Kept rows
      → Kept (call rows c)
  unfolding call set_owner heartbeat touch release
  call-Kept rows (claims b l current new_owner ts) e kept =
      guarded_case Kept rows kept _ _ _ _ (spared b l current new_owner ts rows e kept)
  call-Kept rows (beats b l owner ts) e kept =
      update-Kept _ _ rows (λ r. (refl, refl)) (λ r here own. ground arith) kept
  call-Kept rows (touches b l ts) e kept =
      update-Kept _ _ rows (λ r. (refl, refl)) (λ r here own. ground arith) kept
  call-Kept rows (releases b l owner ts) e kept =
      guarded_case Kept rows kept _ _ _ _ (spared b l (some owner) none ts rows e kept)
  call-Kept rows (forgets b l) e kept = forget_case Kept rows kept b l (delete-Kept b l rows e kept)
  call-Kept rows (commits seen b l created reply ts) e kept =
      create_case Kept rows kept seen b l created reply ts
        (λ f absent. append-Kept rows (new_record b l f ts) kept)

-- If the first row of a conversation says that `x` owns it, then after any calls, none of which is a
-- claim of it that expects `x`, a release of it by `x` or one that forgets it, its row says that `x`
-- owns it, with the same session file and time of creation.
pub calls_kept :
    (a k x file born : Text) (rows : List SessionRecord) (cs : List Call)
    → facts (select (at a k) rows) ≡ some (some x, file, born)
    → All (λ c. evicts a k x c ≡ false) cs
    → facts (select (at a k) (calls rows cs)) ≡ some (some x, file, born)
unfolding calls
calls_kept a k x file born rows [] kept h = kept
calls_kept a k x file born rows (c ∷ cs) kept h =
    calls_kept a k x file born (call rows c) cs (call-Kept a k x file born rows c h.0 kept) h.1
