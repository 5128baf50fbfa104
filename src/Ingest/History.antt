-- ===== src/Ingest/History.antt =====
-- Histories of calls on one ingest buffer, with the records that arrived and those delivered.
use omp_bundler.Prelude.{ℕ, List, [], ◌∷◌, ◌++◌, Bool, Text}
use omp_bundler.Contracts.{InboundMessage}
use omp_bundler.Ingest.{
  IngestBuffer, IngestResult, buffered, activate, SettledActivation, to_record, ingest,
  sweep_settled, dismiss, record_interaction, inspect,
}
use omp_bundler.Ingest.Render.{BufferedRecord}

-- A call with the clock's reading.
pub data Call : Type 0 where
  ingests : ℕ → Text → InboundMessage → Bool → Call
  sweeps : ℕ → Call
  dismisses : ℕ → Text → Text → Call
  interacts : ℕ → Text → Text → Call
  inspects : ℕ → Text → Text → Call

-- The record that a call brings in.
abbrev pub arrived : Call → List BufferedRecord
arrived (ingests now a m streaming) = to_record a m now ∷ []
arrived _ = []

-- The records that the caller of the buffer is handed for a turn.
abbrev pub flushed : IngestResult → List BufferedRecord
flushed (buffered r depth) = []
flushed (activate mode records text) = records

abbrev pub released : List SettledActivation → List BufferedRecord
released [] = []
released (a ∷ rest) = a.records ++ released rest

unfoldable pub step : IngestBuffer → Call → IngestBuffer × List BufferedRecord
unfolding ingest sweep_settled dismiss record_interaction inspect
step b (ingests now a m streaming) =
    let (b', result) = ingest b now a m streaming in (b', flushed result)
step b (sweeps now) = let (b', due) = sweep_settled b now in (b', released due)
step b (dismisses now a c) = ((dismiss b now a c).0, [])
step b (interacts now a c) = ((record_interaction b now a c).0, [])
step b (inspects now a c) = ((inspect b now a c).0, [])

unfoldable pub run : IngestBuffer → List Call → IngestBuffer × List BufferedRecord
unfolding step
run b [] = (b, [])
run b (c ∷ cs) = let (b', out) = step b c in let (b'', outs) = run b' cs in (b'', out ++ outs)

abbrev pub arrivals : List Call → List BufferedRecord
arrivals [] = []
arrivals (c ∷ cs) = arrived c ++ arrivals cs
