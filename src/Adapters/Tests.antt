-- ===== src/Adapters/Tests.antt =====
-- Runs of the adapter registry, and its theorem at two registrations.
use omp_bundler.Prelude.{◌≡◌, refl, [], ◌∷◌, Option, none, some, Text, codes, same, All}
use omp_bundler.Prelude.Results.{ok, err}
use omp_bundler.Prelude.Maps.{get, set}
use omp_bundler.Adapters.{AdapterRegistration, duplicate_id, is_callback_url, register, lookup}
use omp_bundler.Adapters.Registered.{IsChecked, lookup-register}

-- A stand-in for the URL parser, for which every URL is a web address.
abbrev web : Text → Option Text
web url = some (codes "https:")

abbrev slack : AdapterRegistration
slack = record {
  adapter_id = codes "slack";
  callback_url = codes "https://slack";
  shared_secret = codes "s";
  agent_id = none;
}

abbrev pumble : AdapterRegistration
pumble = record {
  adapter_id = codes "pumble";
  callback_url = codes "https://pumble";
  shared_secret = codes "p";
  agent_id = none;
}

built :
    register web [] (slack ∷ pumble ∷ [])
    ≡ ok ((codes "slack", slack) ∷ (codes "pumble", pumble) ∷ [])
unfolding register is_callback_url same get set
built = refl

twice : register web [] (slack ∷ slack ∷ []) ≡ err (duplicate_id (codes "slack"))
unfolding register is_callback_url same get set
twice = refl

lookup-register_example :
    All
      (λ r.
        IsChecked web r
        × (lookup ((codes "slack", slack) ∷ (codes "pumble", pumble) ∷ []) r.adapter_id ≡ ok r))
      (slack ∷ pumble ∷ [])
lookup-register_example = lookup-register web (slack ∷ pumble ∷ []) built
