-- ===== src/Adapters/Registered.antt =====
-- What a registry that was built answers.
use mathlib.Core.Path.{subst}
use omp_bundler.Prelude.{
  ◌≡◌, refl, inl, inr, List, [], ◌∷◌, Bool, true, false, not, Option, some, Text, same, same_iff,
  same_refl, is_empty, All, arith, Bool-cases,
}
use omp_bundler.Prelude.Results.{Result, ok, require}
use omp_bundler.Prelude.Maps.{get, set, get-set}
use omp_bundler.Adapters.{
  AdapterRegistration, AdapterError, is_free, is_callback_url, register, lookup,
}

require_ok {ℓ} :
    {A : Type ℓ} (test : Bool) (e : AdapterError) (rest : Result AdapterError A) {a : A}
    → require test e rest ≡ ok a
    → (test ≡ true) × (rest ≡ ok a)
require_ok true e rest h = (refl, h)
require_ok false e rest h = cc

-- What the constructor checked of an entry.
abbrev pub IsChecked : (Text → Option Text) → AdapterRegistration → Type 0
IsChecked protocol_of r =
    (is_empty r.adapter_id ≡ false)
    × (is_callback_url protocol_of r.callback_url ≡ true)
    × (is_empty r.shared_secret ≡ false)

map_injective :
    {m n : List (Text × AdapterRegistration)}
    → Path (Result AdapterError (List (Text × AdapterRegistration))) (ok m) (ok n)
    → m ≡ n
map_injective e = cc

found :
    (m : List (Text × AdapterRegistration)) (a : Text) (r : AdapterRegistration)
    → get a m ≡ some r
    → lookup m a ≡ ok r
unfolding lookup
found m a r e = rw (e, lookup) refl

module _ (protocol_of : Text → Option Text) where
  -- One round of the constructor's loop.
  accepted_entry :
      (map : List (Text × AdapterRegistration)) (r : AdapterRegistration)
      (rest : List AdapterRegistration) {built : List (Text × AdapterRegistration)}
      → register protocol_of map (r ∷ rest) ≡ ok built
      → IsChecked protocol_of r
        × (is_free (get r.adapter_id map) ≡ true)
        × (register protocol_of (set r.adapter_id r map) rest ≡ ok built)
  unfolding register
  accepted_entry map r rest e =
      let (p, e1) = require_ok (not (is_empty r.adapter_id)) _ _ e in
      let (q, e2) = require_ok (is_callback_url protocol_of r.callback_url) _ _ e1 in
      let (s, e3) = require_ok (not (is_empty r.shared_secret)) _ _ e2 in
      let (u, e4) = require_ok (is_free (get r.adapter_id map)) _ _ e3 in
      ((ground arith, q, ground arith), u, e4)

  register_keeps :
      (map : List (Text × AdapterRegistration)) (rs : List AdapterRegistration)
      {built : List (Text × AdapterRegistration)} (a : Text) (r : AdapterRegistration)
      → register protocol_of map rs ≡ ok built
      → get a map ≡ some r
      → get a built ≡ some r
  unfolding register
  register_keeps map [] {built} a r e h =
      let same_map : map ≡ built = map_injective e in
      subst (λ (m : List (Text × AdapterRegistration)). get a m ≡ some r) same_map h
  register_keeps map (s ∷ rs) a r e h =
      let (checked, free, e') = accepted_entry map s rs e in
      register_keeps (set s.adapter_id s map) rs a r e' (elim (Bool-cases (same s.adapter_id a)) [
        | inr other ↦ rw (get-set s.adapter_id a s map, other) h
        | inl hit ↦
            let key : s.adapter_id ≡ a = (same_iff s.adapter_id a).0 hit in
            let taken : is_free (get a map) ≡ true =
              subst (λ (b : Text). is_free (get b map) ≡ true) key free in
            let clash : false ≡ true =
              subst (λ (o : Option AdapterRegistration). is_free o ≡ true) h taken in
            cc
      ])

  register-All :
      (map : List (Text × AdapterRegistration)) (rs : List AdapterRegistration)
      {built : List (Text × AdapterRegistration)}
      → register protocol_of map rs ≡ ok built
      → All (λ r. IsChecked protocol_of r × (lookup built r.adapter_id ≡ ok r)) rs
  register-All map [] e = tt
  register-All map (r ∷ rs) {built} e =
      let (checked, free, e') = accepted_entry map r rs e in
      (
        (
          checked,
          found built r.adapter_id r (
              register_keeps (set r.adapter_id r map) rs r.adapter_id r e'
                (rw (get-set r.adapter_id r.adapter_id r map, same_refl r.adapter_id) refl)),
        ),
        register-All (set r.adapter_id r map) rs e',
      )

-- If a registry is built, each registration was complete and its id answers with that very
-- registration: none is shadowed by another under its id.
pub lookup-register :
    (protocol_of : Text → Option Text) (rs : List AdapterRegistration)
    {built : List (Text × AdapterRegistration)}
    → register protocol_of [] rs ≡ ok built
    → All (λ r. IsChecked protocol_of r × (lookup built r.adapter_id ≡ ok r)) rs
lookup-register protocol_of rs e = register-All protocol_of [] rs e
