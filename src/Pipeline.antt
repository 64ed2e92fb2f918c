-- ===== src/Pipeline.antt =====
-- crates/matchx-bench/src/pipeline.rs: `EndToEndPipeline`, an engine whose commands go into an
-- asynchronous journal.
pub mod Replay
pub mod Refused
pub mod Tests
use match_x.Base.{ℕ, ◌≡◌, List, [], ◌∷◌, ◌++◌, some, Exec, ok, ◌>>=◌, add64}
use match_x.Types.{Command, MatchEvent, InstrumentConfig}
use match_x.Book.State.{IndexMap}
use match_x.Engine.State
use match_x.Engine.State.{MatchingEngine}
use match_x.Engine.Process
use match_x.Journal.Outcome
use match_x.Journal.Outcome.{JournalError, Result, err, out_of_fuel}
use match_x.Journal.Reader.{JournalEntry}
use match_x.Journal.Writer.{Answer}
use match_x.Journal.AsyncJournal.{AsyncJournal, open_journal, worker_step}
use match_x.Journal.AsyncJournal.Append.{append_entry}

pub record EndToEndPipeline (M : Type 0) : Type 0 where
  pub engine : MatchingEngine M
  pub journal : AsyncJournal
  pub input_seq : ℕ

module _ {M : Type 0} ⦃map : IndexMap M⦄ where
  -- on a journal file that holds these bytes
  unfoldable pub new :
      InstrumentConfig → ℕ → (queue_capacity batch_size : ℕ) → List ℕ → EndToEndPipeline M
  new config arena_capacity queue_capacity batch_size file = record {
    engine = State.new config arena_capacity;
    journal = open_journal queue_capacity batch_size file;
    input_seq = 0;
  }

-- The error of the journal is passed on by `?`, when the engine has done its part.
abbrev pub events_or_error : List MatchEvent → Result (Unit {0}) → Result (List MatchEvent)
events_or_error events (Outcome.ok _) = Outcome.ok events
events_or_error events (err x) = err x
events_or_error events out_of_fuel = out_of_fuel

module _ {M : Type 0} ⦃map : IndexMap M⦄ (crc : List ℕ → ℕ) where
  -- The lists are the steps that the worker takes during the call of `append`.
  unfoldable pub process :
      (steps later_steps : List (List Answer))
      → EndToEndPipeline M
      → Command
      → Exec (EndToEndPipeline M × Result (List MatchEvent))
  unfolding append_entry
  process steps later_steps p cmd = do
    seq ← add64 p.input_seq 1
    (engine, events) ← Process.process p.engine cmd
    let (journal, result) =
        append_entry crc steps later_steps p.journal (record { sequence = seq; command = cmd })
    ok (
      record { engine = engine; journal = journal; input_seq = seq },
      events_or_error events result,
    )

  -- Calls that return events, the worker running in between; the index is the history of commands,
  -- under their numbers.
  pub data Runs (p : EndToEndPipeline M) : List JournalEntry → EndToEndPipeline M → Type 0 where
    opened : Runs p [] p
    called :
        {done : List JournalEntry} {q : EndToEndPipeline M} (steps later_steps : List (List Answer))
        (cmd : Command) (r : EndToEndPipeline M) (events : List MatchEvent)
        → Runs p done q
        → process steps later_steps q cmd ≡ ok (r, Outcome.ok events)
        → Runs p (done ++ record { sequence = r.input_seq; command = cmd } ∷ []) r
    worked :
        {done : List JournalEntry} {q : EndToEndPipeline M} (os : List Answer)
        (journal : AsyncJournal)
        → Runs p done q
        → worker_step os q.journal ≡ some journal
        → Runs p done (record q { journal = journal })
