-- ===== src/Idempotency/Tests.antt =====
-- Runs of the idempotency table, and its theorems at concrete rows.
use omp_bundler.Prelude.{
  ◌≤◌, ◌≡◌, refl, length, List, [], ◌∷◌, Bool, true, false, none, some, Text, same, codes,
  if◌then◌else◌,
}
use omp_bundler.Prelude.Results.{ok, err}
use omp_bundler.Prelude.Rows.{select}
use omp_bundler.Contracts.{InboundMessage, OutboundEvent, turn_reply}
use omp_bundler.Idempotency.{
  completed, Entry, BeginResult, created, in_flight, conflict, saved, at, is_sent,
}
use omp_bundler.Idempotency.Curate.{curate_error_text, max_error_text_len}
use omp_bundler.Idempotency.Begin.{begin_inbound, fresh_entry}
use omp_bundler.Idempotency.Correlation.{
  save_response_for_correlation, mark_correlation_sent, mark_correlation_failed,
}
use omp_bundler.Idempotency.History.{Write, begins, sends, fails, write, writes}
use omp_bundler.Idempotency.Invariant.{IsValid, writes-IsValid}
use omp_bundler.Idempotency.Lifecycle.{Next, write-Next}
use omp_bundler.Idempotency.Replay.{IsCall, Answers, begin-begin, begin_answered}
use omp_bundler.Idempotency.Rewritten.{
  Rewrites, SavesRow, FailsRow, save_response_for_correlation-Rewrites,
  mark_correlation_failed-Rewrites,
}
use omp_bundler.Idempotency.Siblings.{Whole, mark_correlation_sent-Whole}
use omp_bundler.Idempotency.Curate.{length-curate_error_text}

abbrev slack : Text
slack = codes "slack"

abbrev turn : Text
turn = codes "turn-1"

-- A stand-in for the digest of a message: its text.
abbrev text_of : InboundMessage → Text
text_of m = m.text

-- An order that puts nothing before anything.
abbrev unordered : Text → Text → Bool
unordered s t = false

abbrev say : Text → InboundMessage
say text = record {
  message_id = codes "m1";
  conversation_key = codes "room";
  parent_conversation_key = none;
  speaker = record { id = codes "u"; display_name = codes "Ann" };
  text = text;
  attachments = [];
  addressed = true;
}

abbrev reply : OutboundEvent
reply = record {
  body =
      turn_reply (codes "hello") []
        (record { input = 1; output = 1; cache_read = 0; cache_write = 0; cost_usd = codes "0" });
  event_id = codes "e1";
  conversation_key = codes "room";
  correlation_id = turn;
  sequence = 0;
  occurred_at = codes "t2";
}

-- A row whose response is saved.
abbrev answered : Entry
answered = record {
  adapter_id = slack;
  message_id = codes "m1";
  conversation_key = codes "room";
  correlation_id = turn;
  payload_hash = codes "hi";
  ingest_state = completed;
  delivery_state = saved;
  response = some reply;
  error_text = none;
  created_at = codes "t1";
  updated_at = codes "t2";
}

answered-IsValid : IsValid (answered ∷ [])
answered-IsValid = record {
  unique = (tt, tt);
  sound = (
    record {
      response_checked = refl;
      error_checked = refl;
      ingested = λ e. refl;
      closing = refl;
      reason_bounded = tt;
    },
    tt,
  );
}

-- A late failure, a delivery that succeeds, and the message once more.
abbrev later : List Write
later =
    fails slack (codes "m1") (some (codes "timeout")) (codes "t3")
    ∷ sends slack (codes "m1") (codes "t4")
    ∷ begins (answered ∷ []) slack (say (codes "hi")) none (codes "turn-2") (codes "t5")
    ∷ []

curated : curate_error_text (some (codes "  a \n b ")) ≡ codes "a b"
unfolding curate_error_text
curated = refl

length-curate_error_text_example :
    length (curate_error_text (some (codes "connection refused"))) ≤ max_error_text_len
length-curate_error_text_example = length-curate_error_text (some (codes "connection refused"))

writes-IsValid_example : IsValid (writes text_of unordered (answered ∷ []) later)
writes-IsValid_example = writes-IsValid text_of unordered (answered ∷ []) later answered-IsValid

write-Next_example : Next answered (
    select
      (at slack (codes "m1"))
      (write text_of unordered (answered ∷ []) (sends slack (codes "m1") (codes "t4"))))
unfolding same
write-Next_example =
    write-Next slack (codes "m1") answered refl text_of unordered (answered ∷ [])
      (sends slack (codes "m1") (codes "t4")) answered-IsValid refl

IsCall-at_slack : (text : Text) → IsCall slack (say text) none
IsCall-at_slack text = record { adapter = refl; message = refl; correlation_given = refl }

begin-begin_example :
    (rows' : List Entry) × (begin_inbound text_of [] [] slack
        (say (codes "hi"))
        none
        turn
        (codes "t1")
      ≡ ok (rows', created turn))
    × (begin_inbound text_of rows' rows' slack (say (codes "ho")) none (codes "turn-2") (codes "t2")
        ≡ (if same (codes "hi") (codes "ho")
            then ok (rows', in_flight turn)
            else err (conflict (codes "ho") (codes "hi"))))
begin-begin_example =
    begin-begin text_of [] slack (say (codes "hi")) (say (codes "ho")) none none turn
      (codes "turn-2") (codes "t1") (codes "t2") (IsCall-at_slack (codes "hi"))
      (IsCall-at_slack (codes "ho")) refl refl

begin_answered_example :
    let rows' = writes text_of unordered (answered ∷ []) later in
    (result : BeginResult) × (begin_inbound text_of rows' rows' slack
        (say (codes "hi"))
        none
        (codes "turn-3")
        (codes "t6")
      ≡ ok (rows', result))
    × Answers turn reply result
unfolding same
begin_answered_example =
    begin_answered text_of unordered (answered ∷ []) later slack (say (codes "hi")) none
      (codes "turn-3") (codes "t6") answered reply answered-IsValid refl refl refl
      (IsCall-at_slack (codes "hi"))

abbrev asked : Entry
asked = fresh_entry slack (say (codes "hi")) turn (codes "hi") (codes "t1")

save_response_for_correlation-Rewrites_example :
    Rewrites
      (SavesRow slack turn reply)
      (asked ∷ [])
      (save_response_for_correlation unordered (asked ∷ []) slack turn reply (codes "t2"))
save_response_for_correlation-Rewrites_example =
    save_response_for_correlation-Rewrites unordered (asked ∷ []) slack turn reply (codes "t2")

mark_correlation_sent-Whole_example :
    Whole slack turn
      (λ r. is_sent r.delivery_state ≡ true)
      (mark_correlation_sent unordered (answered ∷ []) slack turn (codes "e1") (codes "t3"))
mark_correlation_sent-Whole_example =
    mark_correlation_sent-Whole unordered (answered ∷ []) slack turn (codes "e1") (codes "t3")

mark_correlation_failed-Rewrites_example :
    Rewrites
      (FailsRow slack turn (codes "e1") none)
      (answered ∷ [])
      (mark_correlation_failed unordered (answered ∷ []) slack turn (codes "e1") none (codes "t3"))
mark_correlation_failed-Rewrites_example =
    mark_correlation_failed-Rewrites unordered (answered ∷ []) slack turn (codes "e1") none
      (codes "t3")
