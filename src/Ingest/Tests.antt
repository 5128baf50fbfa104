-- ===== src/Ingest/Tests.antt =====
-- Runs of the ingest buffer, and its theorems at concrete calls.
use omp_bundler.Prelude.{
  ◌+◌, is_empty, if◌then◌else◌, ◌≡◌, refl, List, [], ◌∷◌, ◌++◌, ◌&&◌, ◌||◌, not, ltb, Bool, true,
  false, none, some, Text, same, same_iff, codes, arith,
}
use omp_bundler.Contracts.{InboundMessage}
use omp_bundler.StorageKey.{storage_key}
use omp_bundler.Ingest.{
  IngestBuffer, new_buffer, state_for, to_record, ingest, sweep_settled, dismiss, inspect,
}
use omp_bundler.Ingest.Render.{render_prompt}
use omp_bundler.Ingest.History.{Call, ingests, sweeps, released, run, arrivals}
use omp_bundler.Ingest.Ownership.{of_key, IsValid, backlog_of}
use omp_bundler.Ingest.Delivery.{delivered-backlog}
use omp_bundler.Ingest.Engagement.{
  starts_turn, Shows, inspect-Shows, ingest-ingest_addressed, ingest-dismiss,
}
use omp_bundler.Ingest.Sweep.{is_due, sweep_settled_exact}
use omp_bundler.Ingest.Isolation.{ingest-isolated}
use omp_bundler.Ingest.Silence.{run-Unaddressed}

abbrev slack : Text
slack = codes "slack"

abbrev room : Text
room = codes "room:1"

abbrev say : Text → Bool → InboundMessage
say text addressed = record {
  message_id = codes "m";
  conversation_key = room;
  parent_conversation_key = none;
  speaker = record { id = codes "u"; display_name = codes "Ann" };
  text = text;
  attachments = [];
  addressed = addressed;
}

abbrev buffer : IngestBuffer
buffer = record { engagement_window_ms = 100; quiet_period_ms = 10; states = [] }

-- A message that waits, one that starts a turn with both, one that waits for silence, and the sweep.
abbrev chat : List Call
chat =
    ingests 1 slack (say (codes "hi") false) false
    ∷ ingests 5 slack (say (codes "bot?") true) false
    ∷ ingests 8 slack (say (codes "and") false) false
    ∷ sweeps 20
    ∷ []

rendered :
    render_prompt (to_record slack (say (codes "hi") false) 1 ∷ [])
    ≡ codes "Ann (id: u)" ++ 10 ∷ codes "hi"
unfolding render_prompt to_record
rendered = refl

delivered-backlog_example :
    let (b', delivered) = run buffer chat in
    of_key (storage_key slack room) delivered ++ backlog_of b' (storage_key slack room)
    ≡ of_key (storage_key slack room) (arrivals chat)
unfolding new_buffer
delivered-backlog_example = delivered-backlog 100 10 chat slack room refl

ingest-ingest_addressed_example :
    starts_turn
      (ingest
        (ingest buffer 5 slack (say (codes "bot?") true) false).0
        60
        slack
        (say (codes "and") false)
        true).1
    ≡ (false || (ltb 60 105 && not (true && false)))
ingest-ingest_addressed_example =
    ingest-ingest_addressed buffer 5 60 slack (say (codes "bot?") true) (say (codes "and") false)
      false true refl refl

ingest-dismiss_example :
    starts_turn
      (ingest
        (dismiss (ingest buffer 5 slack (say (codes "bot?") true) false).0 50 slack room).0
        60
        slack
        (say (codes "and") false)
        true).1
    ≡ false
ingest-dismiss_example =
    ingest-dismiss (ingest buffer 5 slack (say (codes "bot?") true) false).0 50 60 slack
      (say (codes "and") false) true refl

inspect-Shows_example :
    let (b', status) =
      inspect (ingest buffer 5 slack (say (codes "bot?") true) false).0 200 slack room in
    Shows (state_for (storage_key slack room) b'.states) status 200
inspect-Shows_example =
    inspect-Shows (ingest buffer 5 slack (say (codes "bot?") true) false).0 200 slack room

-- The buffer after the first three messages of the chat, the last of which waits.
abbrev waiting : IngestBuffer
waiting = record {
  engagement_window_ms = 100;
  quiet_period_ms = 10;
  states =
      (
        storage_key slack room,
        record {
          backlog = to_record slack (say (codes "and") false) 8 ∷ [];
          window_deadline = some 105;
          last_arrival_at = 8;
        },
      )
      ∷ [];
}

waiting-IsValid : IsValid waiting.states
unfolding to_record storage_key same
waiting-IsValid = record { keys_distinct = (tt, tt); owned = ((refl, tt), tt) }

sweep_settled_exact_example :
    let key = storage_key slack room in
    let (b', due) = sweep_settled waiting 20 in
    (of_key key (released due) ≡ (if is_due waiting 20 key then backlog_of waiting key else []))
    × (backlog_of b' key ≡ (if is_due waiting 20 key then [] else backlog_of waiting key))
    × ((state_for key b'.states).window_deadline ≡ (
        if is_due waiting 20 key && not (is_empty (backlog_of waiting key))
        then some (20 + waiting.engagement_window_ms)
        else (state_for key waiting.states).window_deadline))
sweep_settled_exact_example =
    sweep_settled_exact waiting 20 (storage_key slack room) waiting-IsValid (omega arith)

apart : ¬ ((slack ≡ slack) × (room ≡ codes "room:2"))
unfolding same
apart p = let t : false ≡ true = (same_iff room (codes "room:2")).1 p.1 in absurd (cc)

ingest-isolated_example :
    state_for
      (storage_key slack (codes "room:2"))
      (ingest waiting 30 slack (say (codes "hi") true) false).0.states
    ≡ state_for (storage_key slack (codes "room:2")) waiting.states
ingest-isolated_example =
    ingest-isolated waiting 30 slack (codes "room:2") slack (say (codes "hi") true) false apart

run-Unaddressed_example :
    of_key
      (storage_key slack room)
      (run buffer (ingests 1 slack (say (codes "hi") false) false ∷ sweeps 20 ∷ [])).1
    ≡ []
unfolding new_buffer
run-Unaddressed_example =
    run-Unaddressed 100 10 (ingests 1 slack (say (codes "hi") false) false ∷ sweeps 20 ∷ []) slack
      room refl ((λ e. refl), (tt, tt))
