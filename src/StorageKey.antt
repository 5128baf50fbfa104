-- ===== src/StorageKey.antt =====
-- packages/core/src/adapter-registry.ts, `conversationStorageKey`: the key of every map and table
-- that the core holds per conversation, `${adapterId.length}:${adapterId}${conversationKey}`.
pub mod Injective
mod Tests
use omp_bundler.Prelude.{
  ℕ, zero, suc, ◌+◌, ◌/◌, ◌%◌, List, [], ◌∷◌, ◌++◌, Text, length, ltb, if◌then◌else◌,
}

-- The decimal digits of a number, put before `acc`; the fuel is a bound on the number.
digits : ℕ → ℕ → Text → Text
digits zero n acc = acc
digits (suc fuel) n acc =
    let more = digits fuel (n / 10) ((48 + n % 10) ∷ acc) in
    if ltb n 10 then (48 + n) ∷ acc else more

-- A number in a template literal.
unfoldable pub decimal : ℕ → Text
unfolding digits
decimal n = digits (suc n) n []

unfoldable pub storage_key : Text → Text → Text
unfolding decimal
storage_key adapter_id conversation_key =
    decimal (length adapter_id) ++ (b':' ∷ (adapter_id ++ conversation_key))
