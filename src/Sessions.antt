-- ===== src/Sessions.antt =====
-- packages/core/src/session-registry.ts: the table that maps a conversation to its session file and
-- to the owner of its live child. A statement is the function of the rows that its SQL text says;
-- the clock is an argument, and so are the replies of the child process, which other code sends.
pub mod Keys
pub mod Ownership
pub mod History
pub mod SingleFlight
pub mod Settled
pub mod Safety
mod Tests
use omp_bundler.Prelude.{
  List, [], ◌∷◌, ◌++◌, Bool, true, false, not, ◌&&◌, Option, none, some, Text, same, is_empty, any,
  if◌then◌else◌, ◌==◌,
}
use omp_bundler.Prelude.Results.{Result, ok, err, require}
use omp_bundler.Prelude.Rows.{select, changes, update, delete}
use omp_bundler.StorageKey.{storage_key}

pub record SessionRecord : Type 0 where
  pub adapter_id : Text
  pub conversation_key : Text
  pub session_file : Text
  pub created_at : Text
  pub last_active : Text
  pub current_owner : Option Text

pub data RegistryError : Type 0 where
  adapter_id_required conversation_key_required : RegistryError
  already_exists already_exists_race : RegistryError
  new_session_failed get_state_failed no_state no_session_file : RegistryError
  switch_failed no_mapping disappeared : RegistryError
  -- `OwnerMismatchError`, with the expected owner.
  owner_mismatch : Option Text → RegistryError

-- The reply to `get_state`: whether it succeeded, and the data with its optional session file.
pub record StateReply : Type 0 where
  pub success : Bool
  pub state : Option (Option Text)

pub record Registry : Type 0 where
  pub rows : List SessionRecord
  -- The keys of the in-flight creations.
  pub inflight : List Text

abbrev pub at : Text → Text → SessionRecord → Bool
at a k r = same r.adapter_id a && same r.conversation_key k

-- `current_owner IS ?`
abbrev pub owner_is : Option Text → Option Text → Bool
owner_is none none = true
owner_is none (some x) = false
owner_is (some x) none = false
owner_is (some x) (some y) = same x y

unfoldable pub get_raw : List SessionRecord → Text → Text → Option SessionRecord
get_raw rows a k = select (at a k) rows

abbrev pub new_record : Text → Text → Text → Text → SessionRecord
new_record a k file ts = record {
  adapter_id = a;
  conversation_key = k;
  session_file = file;
  created_at = ts;
  last_active = ts;
  current_owner = none;
}

-- The session file that a reply names; an empty name counts as none.
named_file : Option Text → Result RegistryError Text
named_file none = err no_session_file
named_file (some file) = require (not (is_empty file)) no_session_file (ok file)

replied_file : Option (Option Text) → Result RegistryError Text
unfolding named_file
replied_file none = err no_state
replied_file (some file) = named_file file

unfoldable pub session_file_of : Bool → StateReply → Result RegistryError Text
unfolding replied_file
session_file_of created reply =
    require created new_session_failed
      (require reply.success get_state_failed (replied_file reply.state))

commit :
    List SessionRecord
    → Text
    → Text
    → Text
    → Result RegistryError Text
    → Result RegistryError (List SessionRecord × SessionRecord)
commit rows a k ts (err e) = err e
commit rows a k ts (ok file) =
    let r = new_record a k file ts in
    if any (at a k) rows then err already_exists_race else ok (rows ++ r ∷ [], r)

-- `create`: `seen` is the table when it is called, `rows` the one when the child has replied.
unfoldable pub create :
    List SessionRecord
    → List SessionRecord
    → Text
    → Text
    → Bool
    → StateReply
    → Text
    → Result RegistryError (List SessionRecord × SessionRecord)
unfolding commit session_file_of get_raw
create seen rows a k created reply ts =
    let outcome = commit rows a k ts (session_file_of created reply) in
    require (not (is_empty a)) adapter_id_required (
      require (not (is_empty k)) conversation_key_required
        (elim (get_raw seen a k) [ some r ↦ err already_exists | none ↦ outcome ]))

-- What `getOrCreate` does when it is called: switch the child to the file of the row that is there,
-- join the creation in flight, or start one, which forks the file of the parent if there is one.
pub data Plan : Type 0 where
  switches : SessionRecord → Plan
  joins : Plan
  creates : Option Text → Plan

abbrev file_of : Option SessionRecord → Option Text
file_of none = none
file_of (some r) = some r.session_file

unfoldable pub parent_file : List SessionRecord → Text → Option Text → Option Text
unfolding get_raw
parent_file rows a none = none
parent_file rows a (some parent) = if is_empty parent then none else file_of (get_raw rows a parent)

unfoldable pub get_or_create : Registry → Text → Text → Option Text → Registry × Plan
unfolding get_raw parent_file
get_or_create s a k parent =
    let key = storage_key a k in
    elim (get_raw s.rows a k) [
      | some r ↦ (s, switches r)
      | none ↦
          if any (same key) s.inflight
          then (s, joins)
          else (record s { inflight = key ∷ s.inflight }, creates (parent_file s.rows a parent))
    ]

-- The end of a creation that `getOrCreate` started: the row, or an error, and the key leaves the map.
unfoldable pub settle_creation :
    Registry
    → List SessionRecord
    → Text
    → Text
    → Bool
    → StateReply
    → Text
    → Registry × Result RegistryError SessionRecord
unfolding create
settle_creation s seen a k created reply ts =
    let left = delete (same (storage_key a k)) s.inflight in
    elim (create seen s.rows a k created reply ts) [
      | ok (rows', r) ↦ (record { rows = rows'; inflight = left }, ok r)
      | err e ↦ (record s { inflight = left }, err e)
    ]

unfoldable pub forget : Registry → Text → Text → Registry × Bool
unfolding get_raw
forget s a k = elim (get_raw s.rows a k) [
  | none ↦ (s, false)
  | some r ↦ (
    record { rows = delete (at a k) s.rows; inflight = delete (same (storage_key a k)) s.inflight },
    true,
  )
]

-- `resolve`, with whether the child switched its session.
unfoldable pub resolve :
    List SessionRecord → Text → Text → Bool → Result RegistryError SessionRecord
unfolding get_raw
resolve rows a k switched = elim (get_raw rows a k) [
  | none ↦ err no_mapping
  | some r ↦ require switched switch_failed (ok r)
]

abbrev pub owned_at : Text → Text → Option Text → SessionRecord → Bool
owned_at a k owner r = at a k r && owner_is r.current_owner owner

abbrev pub with_owner : Option Text → Text → SessionRecord → SessionRecord
with_owner owner ts r = record r { current_owner = owner; last_active = ts }

abbrev pub with_activity : Text → SessionRecord → SessionRecord
with_activity ts r = record r { last_active = ts }

pub read_back :
    List SessionRecord
    → Option SessionRecord
    → Result RegistryError (List SessionRecord × SessionRecord)
read_back rows none = err disappeared
read_back rows (some r) = ok (rows, r)

-- `setOwner`. That the caller acquired the conversation is that `new_owner` is not null.
unfoldable pub set_owner :
    List SessionRecord
    → Text
    → Text
    → Option Text
    → Option Text
    → Text
    → Result RegistryError (List SessionRecord × SessionRecord)
unfolding get_raw read_back
set_owner rows a k current new_owner ts =
    let rows' = update (owned_at a k current) (with_owner new_owner ts) rows in
    if changes (owned_at a k current) rows == 0
    then err (owner_mismatch current)
    else read_back rows' (get_raw rows' a k)

unfoldable pub heartbeat :
    List SessionRecord → Text → Text → Text → Text → List SessionRecord × Bool
heartbeat rows a k owner ts = (
  update (owned_at a k (some owner)) (with_activity ts) rows,
  not (changes (owned_at a k (some owner)) rows == 0),
)

unfoldable pub touch : List SessionRecord → Text → Text → Text → List SessionRecord × Bool
touch rows a k ts = (update (at a k) (with_activity ts) rows, not (changes (at a k) rows == 0))

release_error : Option SessionRecord → Text → RegistryError
release_error none owner = no_mapping
release_error (some r) owner = owner_mismatch (some owner)

unfoldable pub release :
    List SessionRecord
    → Text
    → Text
    → Text
    → Text
    → Result RegistryError (List SessionRecord × SessionRecord)
unfolding get_raw read_back release_error
release rows a k owner ts =
    let rows' = update (owned_at a k (some owner)) (with_owner none ts) rows in
    if changes (owned_at a k (some owner)) rows == 0
    then err (release_error (get_raw rows a k) owner)
    else read_back rows' (get_raw rows' a k)
