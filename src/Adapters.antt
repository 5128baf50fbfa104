-- ===== src/Adapters.antt =====
-- packages/core/src/adapter-registry.ts: the registered adapters and their shared secrets. The URL
-- parser, the UTF-8 encoder and the constant-time comparison are parameters. A registration is of the
-- declared type: what the constructor refuses for being no object or no string is not one.
pub mod Registered
mod Tests
use omp_bundler.Prelude.{
  ℕ, List, [], ◌∷◌, Bool, true, false, ◌||◌, ◌++◌, not, Option, none, some, Text, codes, same,
  is_empty, length, ◌==◌, if◌then◌else◌,
}
use omp_bundler.Prelude.Results.{Result, ok, err, require, ◌>>=◌}
use omp_bundler.Prelude.Maps.{get, set}

pub record AdapterRegistration : Type 0 where
  pub adapter_id : Text
  pub callback_url : Text
  pub shared_secret : Text
  pub agent_id : Option Text

pub record AdapterDescriptor : Type 0 where
  pub adapter_id : Text
  pub callback_url : Text

pub data AdapterError : Type 0 where
  empty_id : AdapterError
  -- With the id of the offending entry.
  bad_callback no_secret duplicate_id : Text → AdapterError
  unknown_adapter : Text → AdapterError

abbrev pub is_free : Option AdapterRegistration → Bool
is_free none = true
is_free (some r) = false

abbrev is_http : Option Text → Bool
is_http none = false
is_http (some protocol) = same protocol (codes "http:") || same protocol (codes "https:")

-- `protocol_of` is the protocol of a URL that parses.
module _ (protocol_of : Text → Option Text) where
  -- Whether `parseCallbackUrl` accepts.
  unfoldable pub is_callback_url : Text → Bool
  is_callback_url url = if is_empty url then false else is_http (protocol_of url)

  -- The loop of the constructor; `map` has the entries before.
  unfoldable pub register :
      List (Text × AdapterRegistration)
      → List AdapterRegistration
      → Result AdapterError (List (Text × AdapterRegistration))
  register map [] = ok map
  register map (r ∷ rest) =
      let more = register (set r.adapter_id r map) rest in
      require (not (is_empty r.adapter_id)) empty_id (
        require (is_callback_url r.callback_url) (bad_callback r.adapter_id) (
          require (not (is_empty r.shared_secret)) (no_secret r.adapter_id)
            (require (is_free (get r.adapter_id map)) (duplicate_id r.adapter_id) more)))

unfoldable pub has : List (Text × AdapterRegistration) → Text → Bool
has map a = not (is_free (get a map))

unfoldable pub lookup :
    List (Text × AdapterRegistration) → Text → Result AdapterError AdapterRegistration
lookup map a = elim (get a map) [ none ↦ err (unknown_adapter a) | some r ↦ ok r ]

unfoldable pub get_callback_url :
    List (Text × AdapterRegistration) → Text → Result AdapterError Text
unfolding lookup
get_callback_url map a = lookup map a >>= λ r. ok r.callback_url

-- `encode` is the encoder, and `equal` the comparison of two buffers of one length.
module _ (encode : Text → List ℕ) (equal : List ℕ → List ℕ → Bool) where
  unfoldable pub secret_equals : Text → Text → Bool
  secret_equals candidate registered =
      let a = encode candidate in
      let b = encode registered in if length a == length b then equal a b else false

  unfoldable pub authenticate_inbound :
      List (Text × AdapterRegistration) → Text → Text → Result AdapterError Bool
  authenticate_inbound map a presented =
      lookup map a >>= λ r. ok (secret_equals presented r.shared_secret)

unfoldable pub list_adapters : List (Text × AdapterRegistration) → List AdapterDescriptor
list_adapters [] = []
list_adapters ((a, r) ∷ map) =
    record { adapter_id = r.adapter_id; callback_url = r.callback_url } ∷ list_adapters map

pub data Body : Type 0 where
  text : Text → Body
  bytes : List ℕ → Body

-- `encode` is the encoder, and `hmac` the hexadecimal HMAC-SHA256 under a key.
module _ (encode : Text → List ℕ) (hmac : Text → List ℕ → Text) where
  abbrev pub bytes_of : Body → List ℕ
  bytes_of (text s) = encode s
  bytes_of (bytes bs) = bs

  unfoldable pub sign_outbound :
      List (Text × AdapterRegistration) → Text → Body → Result AdapterError Text
  unfolding lookup
  sign_outbound map a body =
      lookup map a >>= λ r. ok (codes "sha256=" ++ hmac r.shared_secret (bytes_of body))
