-- ===== src/Ingest/Isolation.antt =====
-- Conversations do not see each other.
use omp_bundler.Prelude.{ℕ, ◌≡◌, inl, inr, Bool, Text, same, same_iff, Bool-cases}
use omp_bundler.Contracts.{InboundMessage}
use omp_bundler.StorageKey.{storage_key}
use omp_bundler.StorageKey.Injective.{storage_key_injective}
use omp_bundler.Ingest.{IngestBuffer, state_for, ingest}
use omp_bundler.Ingest.Engagement.{state_for-ingest_other}

-- A message leaves the state of every conversation alone that is another adapter's or another one of
-- its adapter's.
pub ingest-isolated :
    (b : IngestBuffer) (t : ℕ) (a c a' : Text) (m : InboundMessage) (streaming : Bool)
    → ¬ ((a' ≡ a) × (m.conversation_key ≡ c))
    → state_for (storage_key a c) (ingest b t a' m streaming).0.states
      ≡ state_for (storage_key a c) b.states
ingest-isolated b t a c a' m streaming other =
    elim (Bool-cases (same (storage_key a' m.conversation_key) (storage_key a c))) [
      | inl hit ↦
          absurd (other (storage_key_injective a' a m.conversation_key c ((same_iff _ _).0 hit)))
      | inr miss ↦ state_for-ingest_other b t a' (storage_key a c) m streaming miss
    ]
