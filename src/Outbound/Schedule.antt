-- ===== src/Outbound/Schedule.antt =====
-- The schedule of retries ends: the delivery chain empties after boundedly many POSTs.
use mathlib.Core.Path.{subst}
use omp_bundler.Prelude.{
  ℕ, ◌+◌, ◌-◌, ◌≡◌, ◌≤◌, ◌<◌, refl, sym, ap, ◌⊎◌, inl, inr, List, [], ◌∷◌, Bool, true, false, ◌&&◌,
  ◌||◌, Option, none, some, Text, length, leb, if◌then◌else◌, arith, Bool-cases, Option-cases,
}
use omp_bundler.Contracts.{OutboundEvent}
use omp_bundler.Outbound.{
  Config, Batch, live, resumed, retried, Job, delivers, best_effort, rejects, Emitter,
}
use omp_bundler.Outbound.Delivery.{
  Response, mark, with_attempt, with_delivered, with_permanent_failure, settle_batch, is_current,
  total_posts, error_of, give_up, try_again, acknowledge, deliver_to, deliver_payload, work, post,
}

module _ (c : Config) where
  -- The POSTs that an operation may still need, at least one for its end.
  abbrev pub posts_left : Job → ℕ
  posts_left (delivers e attempt b) = 1 + (total_posts c - (attempt + 1))
  posts_left (best_effort e) = 1
  posts_left rejects = 1

  abbrev pub all_posts_left : List Job → ℕ
  all_posts_left [] = 0
  all_posts_left (job ∷ jobs) = posts_left job + all_posts_left jobs

  unfoldable pub post_all : List (Text × Response) → Emitter → Emitter
  post_all [] s = s
  post_all ((ts, r) ∷ rs) s = post_all rs (post c ts r s)

  settle_batch-chain :
      (id : Text) (failed : Bool) (b : Batch) (s : Emitter)
      → (settle_batch id failed b s).chain ≡ s.chain
  unfolding settle_batch
  settle_batch-chain id failed live s = refl
  settle_batch-chain id failed (resumed n last) s = go ((last || failed) && is_current s.resuming n)
    where
      go : (test : Bool) → (if test then record s { resuming = none } else s).chain ≡ s.chain
      go true = refl
      go false = refl
  settle_batch-chain id failed retried s = refl

  module _ (ts : Text) (e : OutboundEvent) (attempt : ℕ) (b : Batch) (rest : List Job) where
    give_up-chain : (error : Text) (s : Emitter) → (give_up c ts e b error rest s).chain ≡ rest
    unfolding give_up
    give_up-chain error s =
        let t = mark e.event_id (with_permanent_failure error ts) (record s { chain = rest }) in
        elim (Option-cases (c.on_durable_failed e)) [
          | inl f ↦ rw (f, give_up) (settle_batch-chain e.event_id false b t)
          | inr (x, f) ↦ rw (f, give_up) (settle_batch-chain e.event_id true b t)
        ]

    -- What is left after one POST.
    abbrev Shorter : Emitter → Type 0
    Shorter s = all_posts_left s.chain < all_posts_left (delivers e attempt b ∷ rest)

    gone-Shorter :
        (jobs : List Job)
        → jobs ≡ rest
        → all_posts_left jobs < all_posts_left (delivers e attempt b ∷ rest)
    gone-Shorter jobs p = omega (arith, ap all_posts_left p)

    try_again-Shorter :
        (error : Text) (s : Emitter) → Shorter (try_again c ts e attempt b error rest s)
    unfolding try_again
    try_again-Shorter error s =
        let t = mark e.event_id (with_attempt (attempt + 1) error ts) s in
        elim (Bool-cases (leb (total_posts c) (attempt + 1))) [
          | inl last ↦ rw last (gone-Shorter _ (give_up-chain error t))
          | inr more ↦ rw more (ground arith)
        ]

    acknowledge-Shorter : (s : Emitter) → Shorter (acknowledge c ts e attempt b rest s)
    unfolding acknowledge
    acknowledge-Shorter s =
        let t = mark e.event_id (with_delivered (attempt + 1) ts) s in
        elim (Option-cases (c.on_durable_delivered e)) [
          | inl f ↦
              rw (f, acknowledge)
                (gone-Shorter _ (settle_batch-chain e.event_id false b (record t { chain = rest })))
          | inr (message, f) ↦ rw (f, acknowledge) (try_again-Shorter message t)
        ]

    if-Shorter :
        (test : Bool) (s t : Emitter) → Shorter s → Shorter t → Shorter (if test then s else t)
    if-Shorter true s t p q = p
    if-Shorter false s t p q = q

    deliver_to-Shorter :
        (target : Option Text) (r : Response) (s : Emitter)
        → Shorter (deliver_to c target ts e attempt b r rest s)
    unfolding deliver_to
    deliver_to-Shorter none r s = gone-Shorter _ (give_up-chain _ s)
    deliver_to-Shorter (some url) r s =
        if-Shorter (leb (total_posts c) attempt) _ _ (gone-Shorter _ (give_up-chain [] s))
          (elim (Option-cases (error_of c url r)) [
            | inl g ↦ rw g (acknowledge-Shorter s)
            | inr (error, g) ↦ rw g (try_again-Shorter error s)
          ])

  post-shorter :
      (ts : Text) (r : Response) (s : Emitter)
      → (s.chain ≡ []) ⊎ (all_posts_left (post c ts r s).chain < all_posts_left s.chain)
  unfolding post deliver_payload
  post-shorter ts r s = go s.chain
    where
      go :
          (chain : List Job)
          → (chain ≡ []) ⊎ (all_posts_left (work c ts r chain s).chain < all_posts_left chain)
      go [] = inl refl
      go (delivers e attempt b ∷ rest) =
          inr (deliver_to-Shorter ts e attempt b rest c.callback_url r s)
      go (best_effort e ∷ rest) = inr (omega arith)
      go (rejects ∷ rest) = inr (omega arith)

  post_of_empty :
      (ts : Text) (r : Response) (s : Emitter) → s.chain ≡ [] → (post c ts r s).chain ≡ []
  unfolding post
  post_of_empty ts r s e = subst (λ chain. (work c ts r chain s).chain ≡ []) (sym e) e

  nothing_left : (jobs : List Job) → all_posts_left jobs ≤ 0 → jobs ≡ []
  nothing_left [] le = refl
  nothing_left (delivers e attempt b ∷ jobs) le = ground arith
  nothing_left (best_effort e ∷ jobs) le = ground arith
  nothing_left (rejects ∷ jobs) le = ground arith

  -- The chain is empty after as many POSTs as its operations have left on the schedule of retries,
  -- whatever the adapter answers.
  pub post_all_terminates :
      (rs : List (Text × Response)) (s : Emitter)
      → all_posts_left s.chain ≤ length rs
      → (post_all rs s).chain ≡ []
  unfolding post_all
  post_all_terminates [] s le = nothing_left s.chain le
  post_all_terminates ((ts, r) ∷ rs) s le = elim (post-shorter ts r s) [
    | inl empty ↦
        post_all_terminates rs (post c ts r s)
          (omega (arith, ap all_posts_left (post_of_empty ts r s empty)))
    | inr less ↦ post_all_terminates rs (post c ts r s) (omega (arith, less, le))
  ]
