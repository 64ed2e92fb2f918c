-- ===== src/Pipeline/Refused.antt =====
-- A command that the engine has processed and the journal refuses.
use match_x.Base.{ℕ, ◌+◌, ◌≡◌, ap, subst, List, [], Exec, ok, bind_ok, add64, add64_sum}
use match_x.Types.{Command, MatchEvent, InstrumentConfig}
use match_x.Book.State.{IndexMap}
use match_x.Engine.State
use match_x.Engine.State.{MatchingEngine}
use match_x.Engine.Process
use match_x.Journal.Outcome
use match_x.Journal.Outcome.{JournalError, err}
use match_x.Journal.Reader.{JournalEntry}
use match_x.Journal.Writer.{Answer}
use match_x.Journal.AsyncJournal.{open_journal, Reach}
use match_x.Journal.AsyncJournal.Append.{append_entry, Reach-append_entry_refused}
use match_x.Pipeline.{EndToEndPipeline, new, events_or_error, process, Runs}
use match_x.Pipeline.Replay.{replay, Runs-Reach}

error_parts :
    {M : Type 0} (p q : EndToEndPipeline M) (events : List MatchEvent)
    (r : Outcome.Result (Unit {0})) (x : JournalError)
    → ◌≡◌ {A = Exec (EndToEndPipeline M × Outcome.Result (List MatchEvent))}
        (ok (p, events_or_error events r))
        (ok (q, err x))
    → (p ≡ q) × (r ≡ err x)
error_parts p q events (Outcome.ok _) x h = cc
error_parts p q events (err y) x h = (cc, cc)
error_parts p q events Outcome.out_of_fuel x h = cc

module _ {M : Type 0} ⦃map : IndexMap M⦄ (crc : List ℕ → ℕ) (config : InstrumentConfig)
    (arena_capacity queue_capacity batch_size : ℕ) where
  -- When a call of `process` returns an error after any calls that returned events, the engine has
  -- processed the command and the input sequence has moved on by one, while the journal is in a
  -- state that it reaches with the commands before this one only, whose replay gives the engine as
  -- it was before the call.
  pub process-err :
      (done : List JournalEntry) (p q : EndToEndPipeline M) (steps later_steps : List (List Answer))
      (cmd : Command) (x : JournalError)
      → Runs crc (new config arena_capacity queue_capacity batch_size []) done p
      → process crc steps later_steps p cmd ≡ ok (q, err x)
      → (events : List MatchEvent) × (Process.process p.engine cmd ≡ ok (q.engine, events))
        × (q.input_seq ≡ p.input_seq + 1)
        × (replay (State.new config arena_capacity) done ≡ ok p.engine)
        × Reach crc (open_journal queue_capacity batch_size []) done q.journal
  unfolding process
  process-err done p q steps later_steps cmd x runs h =
      let (reach, replayed) =
        Runs-Reach crc config arena_capacity queue_capacity batch_size done p runs in
      let (seq, counted, h1) = bind_ok (add64 p.input_seq 1) _ h in
      let (r, ran, h2) = bind_ok (Process.process p.engine cmd) _ h1 in
      let e : JournalEntry = record { sequence = seq; command = cmd } in
      let a = append_entry crc steps later_steps p.journal e in
      let k : EndToEndPipeline M = record { engine = r.0; journal = a.0; input_seq = seq } in
      let (same, refused) = error_parts k q r.1 a.1 x h2 in
      subst
        (λ (q : EndToEndPipeline M).
          (events : List MatchEvent) × (Process.process p.engine cmd ≡ ok (q.engine, events))
          × (q.input_seq ≡ p.input_seq + 1)
          × (replay (State.new config arena_capacity) done ≡ ok p.engine)
          × Reach crc (open_journal queue_capacity batch_size []) done q.journal)
        same
        (
          r.1,
          ran,
          add64_sum p.input_seq 1 seq counted,
          replayed,
          Reach-append_entry_refused crc (open_journal queue_capacity batch_size []) steps
              later_steps p.journal a.0 e x reach
              (ap (λ (y : Outcome.Result (Unit {0})). (a.0, y)) refused),
        )
