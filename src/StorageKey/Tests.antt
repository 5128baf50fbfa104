-- ===== src/StorageKey/Tests.antt =====
-- Runs of the storage key.
use omp_bundler.Prelude.{◌≡◌, refl, codes}
use omp_bundler.StorageKey.{storage_key}
use omp_bundler.StorageKey.Injective.{storage_key_injective}

storage_key_runs : storage_key (codes "adapter-abc") (codes "x:y") ≡ codes "11:adapter-abcx:y"
unfolding storage_key
storage_key_runs = refl

storage_key_injective_example : (codes "a" ≡ codes "a") × (codes "b:1" ≡ codes "b:1")
storage_key_injective_example =
    storage_key_injective (codes "a") (codes "a") (codes "b:1") (codes "b:1") refl
