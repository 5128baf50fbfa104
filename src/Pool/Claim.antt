-- ===== src/Pool/Claim.antt =====
-- packages/core/src/pool-manager.ts, `doCreate` after the child has started: the session of its
-- conversation, and the claim of its ownership by compare-and-set.
use omp_bundler.Prelude.{List, Bool, Option, none, some, Text, if◌then◌else◌}
use omp_bundler.Prelude.Results.{Result, ok, err}
use omp_bundler.Sessions.{
  SessionRecord, RegistryError, StateReply, owner_mismatch, switch_failed, get_raw, create,
  set_owner,
}
use omp_bundler.Pool.{PoolError, row_disappeared, owner_changed, session_failed, claim_failed}

-- The second compare-and-set, from the owner that was recorded.
unfoldable pub stolen :
    Result RegistryError (List SessionRecord × SessionRecord)
    → Result PoolError (List SessionRecord)
stolen (ok (rows, r)) = ok rows
stolen (err (owner_mismatch o)) = err owner_changed
stolen (err e) = err (claim_failed e)

unfoldable pub transfer :
    List SessionRecord
    → Text
    → Text
    → Text
    → Text
    → Option Text
    → Result PoolError (List SessionRecord)
transfer rows a k token ts none = err row_disappeared
transfer rows a k token ts (some owner) = stolen (set_owner rows a k (some owner) (some token) ts)

abbrev pub owner_of : Option SessionRecord → Option Text
owner_of none = none
owner_of (some r) = r.current_owner

unfoldable pub claimed :
    List SessionRecord
    → Text
    → Text
    → Text
    → Text
    → Result RegistryError (List SessionRecord × SessionRecord)
    → Result PoolError (List SessionRecord)
claimed rows a k token ts (ok (rows', r)) = ok rows'
claimed rows a k token ts (err (owner_mismatch o)) =
    transfer rows a k token ts (owner_of (get_raw rows a k))
claimed rows a k token ts (err e) = err (claim_failed e)

unfoldable pub claim :
    List SessionRecord → Text → Text → Text → Text → Result PoolError (List SessionRecord)
claim rows a k token ts = claimed rows a k token ts (set_owner rows a k none (some token) ts)

abbrev rows_after :
    Result RegistryError (List SessionRecord × SessionRecord)
    → Result PoolError (List SessionRecord)
rows_after (ok (rows, r)) = ok rows
rows_after (err e) = err (session_failed e)

-- `getOrCreate` once the child has replied: `switched` and `created` tell whether the child obeyed.
unfoldable pub session_for :
    List SessionRecord
    → Text
    → Text
    → Bool
    → Bool
    → StateReply
    → Text
    → Result PoolError (List SessionRecord)
unfolding get_raw
session_for rows a k switched created reply ts = elim (get_raw rows a k) [
  | some r ↦ if switched then ok rows else err (session_failed switch_failed)
  | none ↦ rows_after (create rows rows a k created reply ts)
]
