-- ===== src/Pipeline/Tests.antt =====
-- The witnesses on the pipeline: a command that is written, one that is cut off, and one that finds
-- the queue full.
use match_x.Base.{
  ℕ, ◌+◌, ◌≡◌, refl, List, [], ◌∷◌, ◌++◌, false, Exec, ok, panic, out_of_fuel, arith, add64,
}
use match_x.Types.{MatchEvent, InstrumentConfig, cancel_order, cancel_oldest}
use match_x.Book
use match_x.Book.State.{lookup}
use match_x.Book.AssocMap.{AssocMap, assoc_map, find}
use match_x.Arena
use match_x.Arena.{free_links}
use match_x.Book.Fenwick
use match_x.Book.SparseIndex
use match_x.Engine
use match_x.Engine.State.{MatchingEngine, emit, emit_rejected}
use match_x.Engine.Orders.{process_cancel}
use match_x.Engine.Stops.{drain_bids, drain_asks, drain_loop, drain_stop_triggers}
use match_x.Engine.Process.{dispatch}
use match_x.Journal.Outcome
use match_x.Journal.Outcome.{JournalError, io, queue_full, err}
use match_x.Journal.Reader.{JournalEntry, read_file, recover_file}
use match_x.Journal.Scan.{AllFit, last_sequence, log_of}
use match_x.Journal.Writer.{fails, single, append_raw, append_raw_batch, flush}
use match_x.Journal.AsyncJournal.{
  receiving, open_journal, check_open, try_send, receive, collect, finish_batch, worker_step, Reach,
}
use match_x.Journal.AsyncJournal.Append.{append_entry, enqueue, run_steps}
use match_x.Journal.Tests.{checksum, checksum_lt}
use match_x.Pipeline.{EndToEndPipeline, new, process, opened, called}
use match_x.Pipeline.Replay.{replay, replay-recover_file, replay-read_file}
use match_x.Pipeline.Refused.{process-err}

abbrev config : InstrumentConfig
config = record {
  id = 1;
  tick_size = 1;
  lot_size = 1;
  base_price = 100;
  max_ticks = 8;
  stp_mode = cancel_oldest;
}

abbrev empty : EndToEndPipeline AssocMap
empty = new config 4 1 2 []

-- the one command of these runs, under the number that the pipeline has counted
abbrev entry_of : EndToEndPipeline AssocMap → JournalEntry
entry_of p = record { sequence = p.input_seq; command = cancel_order 77 }

abbrev or_empty :
    Exec (EndToEndPipeline AssocMap × Outcome.Result (List MatchEvent))
    → EndToEndPipeline AssocMap × Outcome.Result (List MatchEvent)
or_empty (ok r) = r
or_empty panic = (empty, err io)
or_empty out_of_fuel = (empty, err io)

abbrev events_of : Outcome.Result (List MatchEvent) → List MatchEvent
events_of (Outcome.ok events) = events
events_of (err x) = []
events_of Outcome.out_of_fuel = []

-- the worker takes the record, writes it and waits again
written : EndToEndPipeline AssocMap × Outcome.Result (List MatchEvent)
written = or_empty (process checksum [] ([] ∷ [] ∷ [] ∷ []) empty (cancel_order 77))

-- the write stops after seven bytes
cut_off : EndToEndPipeline AssocMap × Outcome.Result (List MatchEvent)
cut_off = or_empty (process checksum [] ([] ∷ [] ∷ (fails 7 ∷ []) ∷ []) empty (cancel_order 77))

-- the worker does nothing: the record stays in the queue, and there is no room for another
waiting : EndToEndPipeline AssocMap × Outcome.Result (List MatchEvent)
waiting = or_empty (process checksum [] [] empty (cancel_order 77))

refused : EndToEndPipeline AssocMap × Outcome.Result (List MatchEvent)
unfolding waiting
refused = or_empty (process checksum [] [] waiting.0 (cancel_order 78))

runs :
    ((process checksum [] ([] ∷ [] ∷ [] ∷ []) empty (cancel_order 77)
        ≡ ok (written.0, Outcome.ok (events_of written.1)))
      × (written.0.input_seq ≡ 1)
      × (written.0.journal.degraded ≡ false)
      × (written.0.journal.worker ≡ receiving)
      × (written.0.journal.queue ≡ []))
    × ((process checksum [] ([] ∷ [] ∷ (fails 7 ∷ []) ∷ []) empty (cancel_order 77)
          ≡ ok (cut_off.0, Outcome.ok (events_of cut_off.1)))
        × (cut_off.0.input_seq ≡ 1))
    × ((process checksum [] [] empty (cancel_order 77)
          ≡ ok (waiting.0, Outcome.ok (events_of waiting.1)))
        × (waiting.0.input_seq ≡ 1)
        × (process checksum [] [] waiting.0 (cancel_order 78) ≡ ok (refused.0, err queue_full)))
unfolding written cut_off waiting refused new process Engine.Process.process dispatch process_cancel
    emit_rejected emit add64 lookup find drain_bids drain_asks drain_loop drain_stop_triggers
    Engine.State.new Book.State.new Arena.new free_links Fenwick.new SparseIndex.new open_journal
    check_open try_send receive collect finish_batch worker_step append_entry enqueue run_steps
    append_raw append_raw_batch flush
runs = ((refl, refl, refl, refl, refl), (refl, refl), (refl, refl, refl))

entry_of-fits : (p : EndToEndPipeline AssocMap) → p.input_seq ≡ 1 → AllFit (entry_of p ∷ [])
entry_of-fits p h = (omega arith, omega arith, tt)

replay-recover_file_example :
    (kept : List JournalEntry) × (lost : List JournalEntry) × (file : List ℕ) × (n : ℕ)
    × (k : MatchingEngine AssocMap) × (kept ++ lost ≡ entry_of cut_off.0 ∷ [])
    × (cut_off.0.journal.writer ≡ single file)
    × (recover_file checksum file
        ≡ Outcome.ok (
          record { last_valid_sequence = last_sequence 0 kept; truncated_bytes = n },
          log_of checksum kept,
        ))
    × (read_file checksum (log_of checksum kept) ≡ Outcome.ok kept)
    × (replay (Engine.State.new config 4) kept ≡ ok k)
    × (replay k lost ≡ ok cut_off.0.engine)
replay-recover_file_example =
    replay-recover_file checksum checksum_lt config 4 1 2 (entry_of cut_off.0 ∷ []) cut_off.0
      (called [] ([] ∷ [] ∷ (fails 7 ∷ []) ∷ []) (cancel_order 77) cut_off.0 (events_of cut_off.1)
        opened runs.1.0)
      (entry_of-fits cut_off.0 runs.1.1)

replay-read_file_example :
    (file : List ℕ) × (written.0.journal.writer ≡ single file)
    × (read_file checksum file ≡ Outcome.ok (entry_of written.0 ∷ []))
    × (replay (Engine.State.new config 4) (entry_of written.0 ∷ []) ≡ ok written.0.engine)
replay-read_file_example =
    replay-read_file checksum checksum_lt config 4 1 2 (entry_of written.0 ∷ []) written.0
      (called [] ([] ∷ [] ∷ [] ∷ []) (cancel_order 77) written.0 (events_of written.1) opened
        runs.0.0)
      (entry_of-fits written.0 runs.0.1) runs.0.2 runs.0.3 runs.0.4

process-err_example :
    (events : List MatchEvent) × (Engine.Process.process waiting.0.engine (cancel_order 78)
      ≡ ok (refused.0.engine, events))
    × (refused.0.input_seq ≡ waiting.0.input_seq + 1)
    × (replay (Engine.State.new config 4) (entry_of waiting.0 ∷ []) ≡ ok waiting.0.engine)
    × Reach checksum (open_journal 1 2 []) (entry_of waiting.0 ∷ []) refused.0.journal
process-err_example =
    process-err checksum config 4 1 2 (entry_of waiting.0 ∷ []) waiting.0 refused.0 [] []
      (cancel_order 78) queue_full
      (called [] [] (cancel_order 77) waiting.0 (events_of waiting.1) opened runs.2.0) runs.2.2
