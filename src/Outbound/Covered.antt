-- ===== src/Outbound/Covered.antt =====
-- Every event that is not yet delivered has its delivery in the chain.
use omp_bundler.Prelude.{
  ℕ, ◌≡◌, refl, ◌∙◌, inl, inr, List, [], ◌∷◌, ◌++◌, Bool, true, false, not, ◌||◌, Text, same,
  same_refl, same_iff, any, keep, if◌then◌else◌, All, All-append, arith, Bool-cases,
}
use omp_bundler.Prelude.Rows.{update, All-update}
use omp_bundler.Contracts.{OutboundEvent}
use omp_bundler.Outbound.{
  OutboxRow, Config, Batch, live, retried, Job, delivers, Emitter, has_id, new_row,
}
use omp_bundler.Outbound.Delivery.{
  is_own_pending, order_by_sequence, place, jobs_of, with_attempt, with_retry, failed_at,
}

abbrev pub is_for : Text → Job → Bool
is_for id (delivers e attempt b) = same e.event_id id
is_for id job = false

abbrev pub is_keyed : OutboxRow → Bool
is_keyed r = same r.payload.event_id r.event_id

pub any-append {ℓ} :
    {A : Type ℓ} (p : A → Bool) (xs ys : List A) → any p (xs ++ ys) ≡ (any p xs || any p ys)
any-append p [] ys = refl
any-append p (x ∷ xs) ys = ground (arith, any-append p xs ys)

module _ (c : Config) where
  -- The row waits for no POST, or there is an operation for it.
  abbrev pub is_covered : List Job → OutboxRow → Bool
  is_covered chain r = not (is_own_pending c r) || any (is_for r.event_id) chain

  pub record Kept (s : Emitter) : Type 0 where
    pub keyed : All (λ r. is_keyed r ≡ true) s.rows
    pub covered : All (λ r. is_covered s.chain r ≡ true) s.rows

  -- Operations that are added take none away.
  pub covered-append :
      (chain jobs : List Job) (rows : List OutboxRow)
      → All (λ r. is_covered chain r ≡ true) rows
      → All (λ r. is_covered (chain ++ jobs) r ≡ true) rows
  covered-append chain jobs [] h = tt
  covered-append chain jobs (r ∷ rows) h = (
    ground (arith, h.0, any-append (is_for r.event_id) chain jobs),
    covered-append chain jobs rows h.1,
  )

  pub keeps_enqueue :
      (job : Job) (s t : Emitter)
      → t.rows ≡ s.rows
      → t.chain ≡ s.chain ++ job ∷ []
      → Kept s
      → Kept t
  keeps_enqueue job s t e f k = record {
    keyed = rw e k.keyed;
    covered = rw (e, f) (covered-append s.chain (job ∷ []) s.rows k.covered);
  }

  pub keeps_insert :
      (e : OutboundEvent) (s t : Emitter)
      → t.rows ≡ s.rows ++ new_row c e ∷ []
      → t.chain ≡ s.chain ++ delivers e 0 live ∷ []
      → Kept s
      → Kept t
  keeps_insert e s t p q k = record {
    keyed = rw p (
        All-append (λ r. is_keyed r ≡ true) s.rows (new_row c e ∷ []) k.keyed
          (same_refl e.event_id, tt));
    covered =
        rw (p, q)
          (All-append (λ r. is_covered (s.chain ++ delivers e 0 live ∷ []) r ≡ true) s.rows
            (new_row c e ∷ []) (covered-append s.chain (delivers e 0 live ∷ []) s.rows k.covered)
            (
              ground (
                arith,
                same_refl e.event_id,
                any-append (is_for e.event_id) s.chain (delivers e 0 live ∷ []),
              ),
              tt,
            ));
  }

  -- The end of an event's delivery leaves its row in no need of one.
  pub covered-ended :
      (e : OutboundEvent) (attempt : ℕ) (b : Batch) (f : OutboxRow → OutboxRow) (rest : List Job)
      (rows : List OutboxRow)
      → ((r : OutboxRow) → is_own_pending c (f r) ≡ false)
      → All (λ r. is_covered (delivers e attempt b ∷ rest) r ≡ true) rows
      → All (λ r. is_covered rest r ≡ true) (update (has_id e.event_id) f rows)
  covered-ended e attempt b f rest [] ends h = tt
  covered-ended e attempt b f rest (r ∷ rows) ends h = elim (Bool-cases (has_id e.event_id r)) [
    | inl hit ↦ rw hit (rw (ends r) refl, covered-ended e attempt b f rest rows ends h.1)
    | inr miss ↦ rw miss (
      ground (arith, h.0, same_iff r.event_id e.event_id, same_iff e.event_id r.event_id),
      covered-ended e attempt b f rest rows ends h.1,
    )
  ]

  -- Where the rows are those of a SELECT, each gets an operation.
  abbrev pays : Text → OutboxRow → Bool
  pays id r = same r.payload.event_id id

  any-place :
      (p : OutboxRow → Bool) (r : OutboxRow) (rows : List OutboxRow)
      → any p (place r rows) ≡ (p r || any p rows)
  any-place p r [] = ground arith
  any-place p r (q ∷ rows) = ground (arith, any-place p r rows)

  any-order :
      (p : OutboxRow → Bool) (rows : List OutboxRow) → any p (order_by_sequence rows) ≡ any p rows
  unfolding order_by_sequence
  any-order p [] = refl
  any-order p (r ∷ rows) = ground (arith, any-place p r (order_by_sequence rows), any-order p rows)

  any-jobs_of :
      (id : Text) (n : ℕ) (rows : List OutboxRow)
      → any (is_for id) (jobs_of n rows) ≡ any (pays id) rows
  unfolding jobs_of
  any-jobs_of id n [] = refl
  any-jobs_of id n (r ∷ rows) = ground (arith, any-jobs_of id n rows)

  -- The row waits for no POST, or it is in the list.
  abbrev is_listed : List OutboxRow → OutboxRow → Bool
  is_listed found r = not (is_own_pending c r) || any (pays r.event_id) found

  listed-more :
      (q : OutboxRow) (found rows : List OutboxRow)
      → All (λ r. is_listed found r ≡ true) rows
      → All (λ r. is_listed (if is_own_pending c q then q ∷ found else found) r ≡ true) rows
  listed-more q found [] h = tt
  listed-more q found (r ∷ rows) h = (ground (arith, h.0), listed-more q found rows h.1)

  keep_finds :
      (rows : List OutboxRow)
      → All (λ r. is_keyed r ≡ true) rows
      → All (λ r. is_listed (keep (is_own_pending c) rows) r ≡ true) rows
  keep_finds [] k = tt
  keep_finds (r ∷ rows) k =
      (ground (arith, k.0), listed-more r (keep (is_own_pending c) rows) rows (keep_finds rows k.1))

  listed-covered :
      (n : ℕ) (found : List OutboxRow) (chain : List Job) (rows : List OutboxRow)
      → All (λ r. is_listed found r ≡ true) rows
      → All (λ r. is_covered (chain ++ jobs_of n (order_by_sequence found)) r ≡ true) rows
  listed-covered n found chain [] h = tt
  listed-covered n found chain (r ∷ rows) h = (
    ground (
      arith,
      h.0,
      any-append (is_for r.event_id) chain (jobs_of n (order_by_sequence found)),
      any-jobs_of r.event_id n (order_by_sequence found),
      any-order (pays r.event_id) found,
    ),
    listed-covered n found chain rows h.1,
  )

  pub resumed-covered :
      (n : ℕ) (chain : List Job) (rows : List OutboxRow)
      → All (λ r. is_keyed r ≡ true) rows
      → All
          (λ r.
            is_covered (chain ++ jobs_of n (order_by_sequence (keep (is_own_pending c) rows))) r
            ≡ true)
          rows
  resumed-covered n chain rows k =
      listed-covered n (keep (is_own_pending c) rows) chain rows (keep_finds rows k)

  -- A failed event that is retried waits for its new operation.
  pub retried-covered :
      (e : OutboundEvent) (id ts : Text) (chain : List Job) (rows : List OutboxRow)
      → same e.event_id id ≡ true
      → All (λ r. is_covered chain r ≡ true) rows
      → All
          (λ r. is_covered (chain ++ delivers e 0 retried ∷ []) r ≡ true)
          (update (failed_at c id) (with_retry ts) rows)
  retried-covered e id ts chain [] p h = tt
  retried-covered e id ts chain (r ∷ rows) p h =
      let jobs = any-append (is_for r.event_id) chain (delivers e 0 retried ∷ []) in
      (
        elim (Bool-cases (failed_at c id r)) [
          | inl hit ↦ rw hit (
              ground (
                arith,
                p,
                jobs,
                same_iff e.event_id id,
                same_iff r.event_id id,
                same_iff e.event_id r.event_id,
              ))
          | inr miss ↦ rw miss (ground (arith, h.0, jobs))
        ],
        retried-covered e id ts chain rows p h.1,
      )

  pub attempted-covered :
      (id : Text) (n : ℕ) (error ts : Text) (chain : List Job) (rows : List OutboxRow)
      → All (λ r. is_covered chain r ≡ true) rows
      → All (λ r. is_covered chain r ≡ true) (update (has_id id) (with_attempt n error ts) rows)
  attempted-covered id n error ts chain rows h =
      All-update (λ r. is_covered chain r ≡ true) (has_id id) (with_attempt n error ts) rows
        (λ r k hit. k) h

  -- An operation that goes on is the same event's.
  pub covered-again :
      (e : OutboundEvent) (m n : ℕ) (b : Batch) (rest : List Job) (rows : List OutboxRow)
      → All (λ r. is_covered (delivers e m b ∷ rest) r ≡ true) rows
      → All (λ r. is_covered (delivers e n b ∷ rest) r ≡ true) rows
  covered-again e m n b rest [] h = tt
  covered-again e m n b rest (r ∷ rows) h = (h.0, covered-again e m n b rest rows h.1)

  -- The end of an operation that is for no event.
  pub covered-rest :
      (job : Job) (rest : List Job) (rows : List OutboxRow)
      → ((id : Text) → is_for id job ≡ false)
      → All (λ r. is_covered (job ∷ rest) r ≡ true) rows
      → All (λ r. is_covered rest r ≡ true) rows
  covered-rest job rest [] none_for h = tt
  covered-rest job rest (r ∷ rows) none_for h =
      (ground (arith, h.0, none_for r.event_id), covered-rest job rest rows none_for h.1)

  pub keyed-update :
      (p : OutboxRow → Bool) (f : OutboxRow → OutboxRow) (rows : List OutboxRow)
      → ((r : OutboxRow) → is_keyed (f r) ≡ is_keyed r)
      → All (λ r. is_keyed r ≡ true) rows
      → All (λ r. is_keyed r ≡ true) (update p f rows)
  keyed-update p f rows same_key k =
      All-update (λ r. is_keyed r ≡ true) p f rows (λ r old hit. same_key r ∙ old) k

  pub covered-cons :
      (job : Job) (rest : List Job) (rows : List OutboxRow)
      → All (λ r. is_covered rest r ≡ true) rows
      → All (λ r. is_covered (job ∷ rest) r ≡ true) rows
  covered-cons job rest [] h = tt
  covered-cons job rest (r ∷ rows) h = (ground (arith, h.0), covered-cons job rest rows h.1)
