-- ===== src/Sessions/Tests.antt =====
-- Runs of the session table, and its theorems at concrete rows.
use omp_bundler.Prelude.{
  ◌≡◌, refl, List, [], ◌∷◌, true, none, some, Text, same, codes, if◌then◌else◌,
}
use omp_bundler.Prelude.Results.{ok, err}
use omp_bundler.Prelude.Rows.{select, update}
use omp_bundler.Sessions.{
  SessionRecord, StateReply, Registry, owner_mismatch, joins, at, owner_is, owned_at, with_owner,
  set_owner, heartbeat, release, get_or_create, settle_creation, new_record, switches,
}
use omp_bundler.StorageKey.{storage_key}
use omp_bundler.Sessions.Keys.{Unique}
use omp_bundler.Sessions.Ownership.{set_owner_lem, heartbeat_lem, release_lem}
use omp_bundler.Sessions.History.{Call, claims, beats, releases, commits, calls, calls-Unique}
use omp_bundler.Sessions.Safety.{facts, calls_kept}
use omp_bundler.Sessions.SingleFlight.{asks, drops, after_events, get_or_create-after_events}
use omp_bundler.Sessions.Settled.{get_or_create-settle_creation}

abbrev slack : Text
slack = codes "slack"

abbrev room : Text
room = codes "room"

abbrev owned : SessionRecord
owned = record {
  adapter_id = slack;
  conversation_key = room;
  session_file = codes "a.jsonl";
  created_at = codes "t1";
  last_active = codes "t1";
  current_owner = some (codes "child-1");
}

abbrev table : List SessionRecord
table = owned ∷ []

abbrev good_reply : StateReply
good_reply = record { success = true; state = some (some (codes "b.jsonl")) }

-- A claim of a free conversation, a stranger's release, a second creation and a heartbeat.
abbrev traffic : List Call
traffic =
    claims slack room none (some (codes "child-2")) (codes "t2")
    ∷ releases slack room (codes "child-2") (codes "t3")
    ∷ commits [] slack room true good_reply (codes "t4")
    ∷ beats slack room (codes "child-1") (codes "t5")
    ∷ []

set_owner_lem_example : set_owner table slack room (some (codes "child-1")) none (codes "t2") ≡ (
    if owner_is (some (codes "child-1")) (some (codes "child-1"))
    then ok (
      update (owned_at slack room (some (codes "child-1"))) (with_owner none (codes "t2")) table,
      with_owner none (codes "t2") owned,
    )
    else err (owner_mismatch (some (codes "child-1"))))
unfolding same
set_owner_lem_example =
    set_owner_lem table slack room (tt, tt) owned (some (codes "child-1")) none (codes "t2") refl

heartbeat_lem_example :
    (heartbeat table slack room (codes "child-1") (codes "t2")).1
    ≡ owner_is (some (codes "child-1")) (some (codes "child-1"))
unfolding same
heartbeat_lem_example =
    heartbeat_lem table slack room (tt, tt) owned (codes "child-1") (codes "t2") refl

release_lem_example : release table slack room (codes "child-1") (codes "t2") ≡ (
    if owner_is (some (codes "child-1")) (some (codes "child-1"))
    then ok (
      update (owned_at slack room (some (codes "child-1"))) (with_owner none (codes "t2")) table,
      with_owner none (codes "t2") owned,
    )
    else err (owner_mismatch (some (codes "child-1"))))
unfolding same
release_lem_example =
    release_lem table slack room (tt, tt) owned (codes "child-1") (codes "t2") refl

calls-Unique_example : Unique (calls table traffic)
calls-Unique_example = calls-Unique table traffic (tt, tt)

calls_kept_example :
    facts (select (at slack room) (calls table traffic))
    ≡ some (some (codes "child-1"), codes "a.jsonl", codes "t1")
unfolding same
calls_kept_example =
    calls_kept slack room (codes "child-1") (codes "a.jsonl") (codes "t1") table traffic refl
      (refl, (refl, (refl, (refl, tt))))

get_or_create-after_events_example :
    let s' =
      after_events
        (get_or_create (record { rows = []; inflight = [] }) slack room none).0
        (asks slack (codes "lobby") none ∷ drops slack (codes "hall") ∷ []) in
    get_or_create s' slack room (some (codes "lobby")) ≡ (s', joins)
unfolding same get_or_create
get_or_create-after_events_example =
    get_or_create-after_events (record { rows = []; inflight = [] }) slack room none
      (some (codes "lobby")) none
      (asks slack (codes "lobby") none ∷ drops slack (codes "hall") ∷ []) refl (refl, (refl, tt))

-- A creation in flight, and the row that it ends with.
abbrev creating : Registry
creating = record { rows = []; inflight = storage_key slack room ∷ [] }

abbrev born : SessionRecord
born = new_record slack room (codes "b.jsonl") (codes "t2")

settled_runs : (settle_creation creating [] slack room true good_reply (codes "t2")).1 ≡ ok born
unfolding settle_creation
settled_runs = refl

get_or_create-settle_creation_example :
    (get_or_create
      (settle_creation creating [] slack room true good_reply (codes "t2")).0
      slack
      room
      none).1
    ≡ switches born
get_or_create-settle_creation_example =
    get_or_create-settle_creation creating [] slack room true good_reply (codes "t2") born none
      settled_runs
