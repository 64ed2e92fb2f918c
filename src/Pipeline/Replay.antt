-- ===== src/Pipeline/Replay.antt =====
-- The recovered journal, replayed by a new engine.
use mathlib.Core.List.{append-nil, append_assoc}
use match_x.Base.{
  ℕ, ◌<◌, ◌^◌, ◌≡◌, refl, ap, sym, ◌∙◌, subst, List, [], ◌∷◌, ◌++◌, false, Exec, ok, panic,
  out_of_fuel, ◌>>=◌, bind_ok, add64,
}
use match_x.Types.{Command, MatchEvent, InstrumentConfig}
use match_x.Book.State.{IndexMap}
use match_x.Engine.State
use match_x.Engine.State.{MatchingEngine}
use match_x.Engine.Process
use match_x.Journal.Outcome
use match_x.Journal.Reader.{JournalEntry, read_file, recover_file}
use match_x.Journal.Scan.{AllFit, last_sequence, log_of, read_file-log_of}
use match_x.Journal.Logs.{AllFit-front}
use match_x.Journal.Writer.{Answer, single}
use match_x.Journal.AsyncJournal.{open_journal, receiving, work, Reach, start, later}
use match_x.Journal.AsyncJournal.Append.{append_entry, Reach-append_entry}
use match_x.Journal.AsyncJournal.Recovery.{recover_file-Reach, synced-Reach}
use match_x.Pipeline.{EndToEndPipeline, new, events_or_error, process, Runs, opened, called, worked}

-- two ways to go on after a run
bind_later :
    {A B : Type 0} (m : Exec (A × B)) (f g h : A → Exec A)
    → ((a : A) → f a ≡ (g a >>= h))
    → (m >>= λ r. f r.0) ≡ ((m >>= λ r. g r.0) >>= h)
bind_later (ok r) f g h same = same r.0
bind_later panic f g h same = refl
bind_later out_of_fuel f g h same = refl

ok_parts :
    {M : Type 0} (p q : EndToEndPipeline M) (before events : List MatchEvent)
    (r : Outcome.Result (Unit {0}))
    → ◌≡◌ {A = Exec (EndToEndPipeline M × Outcome.Result (List MatchEvent))}
        (ok (p, events_or_error before r))
        (ok (q, Outcome.ok events))
    → (p ≡ q) × (before ≡ events) × (r ≡ Outcome.ok tt)
ok_parts p q before events (Outcome.ok _) h = (cc, cc, refl)
ok_parts p q before events (Outcome.err x) h = cc
ok_parts p q before events Outcome.out_of_fuel h = cc

module _ {M : Type 0} ⦃map : IndexMap M⦄ where
  -- the commands of these entries, one after the other
  unfoldable pub replay : MatchingEngine M → List JournalEntry → Exec (MatchingEngine M)
  replay e [] = ok e
  replay e (x ∷ xs) = do (e, _) ← Process.process e x.command; replay e xs

  replay-append :
      (e : MatchingEngine M) (xs ys : List JournalEntry)
      → replay e (xs ++ ys) ≡ (replay e xs >>= λ k. replay k ys)
  unfolding replay
  replay-append e [] ys = refl
  replay-append e (x ∷ xs) ys =
      bind_later (Process.process e x.command) (λ k. replay k (xs ++ ys)) (λ k. replay k xs)
        (λ k. replay k ys) (λ k. replay-append k xs ys)

  replay_split :
      (e l : MatchingEngine M) (xs ys : List JournalEntry)
      → replay e (xs ++ ys) ≡ ok l
      → (k : MatchingEngine M) × (replay e xs ≡ ok k) × (replay k ys ≡ ok l)
  unfolding replay
  replay_split e l [] ys h = (e, refl, h)
  replay_split e l (x ∷ xs) ys h =
      let (r, first, rest) = bind_ok (Process.process e x.command) _ h in
      let (k, run, after) = replay_split r.0 l xs ys rest in
      (k, ap (λ m. m >>= λ s. replay s.0 xs) first ∙ run, after)

  module _ (crc : List ℕ → ℕ) where
    process_parts :
        (steps later_steps : List (List Answer)) (p q : EndToEndPipeline M) (cmd : Command)
        (events : List MatchEvent)
        → process crc steps later_steps p cmd ≡ ok (q, Outcome.ok events)
        → (Process.process p.engine cmd ≡ ok (q.engine, events))
          × (append_entry crc steps later_steps p.journal
                (record { sequence = q.input_seq; command = cmd })
              ≡ (q.journal, Outcome.ok tt))
    unfolding process
    process_parts steps later_steps p q cmd events h =
        let (seq, counted, h1) = bind_ok (add64 p.input_seq 1) _ h in
        let (r, ran, h2) = bind_ok (Process.process p.engine cmd) _ h1 in
        let a =
          append_entry crc steps later_steps p.journal (record { sequence = seq; command = cmd }) in
        let k : EndToEndPipeline M = record { engine = r.0; journal = a.0; input_seq = seq } in
        let (same, same_events, fine) = ok_parts k q r.1 events a.1 h2 in
        subst
          (λ (q : EndToEndPipeline M).
            (Process.process p.engine cmd ≡ ok (q.engine, events))
            × (append_entry crc steps later_steps p.journal
                  (record { sequence = q.input_seq; command = cmd })
                ≡ (q.journal, Outcome.ok tt)))
          same
          (
            ran ∙ ap (λ (es : List MatchEvent). ok (r.0, es)) same_events,
            ap (λ (x : Outcome.Result (Unit {0})). (a.0, x)) fine,
          )

    module _ (config : InstrumentConfig) (arena_capacity queue_capacity batch_size : ℕ) where
      pub Runs-Reach :
          (done : List JournalEntry) (p : EndToEndPipeline M)
          → Runs crc (new config arena_capacity queue_capacity batch_size []) done p
          → Reach crc (open_journal queue_capacity batch_size []) done p.journal
            × (replay (State.new config arena_capacity) done ≡ ok p.engine)
      unfolding new replay
      Runs-Reach _ _ opened = (start, refl)
      Runs-Reach _ r (called {done} {q} steps later_steps cmd _ events before run) =
          let (reach, replayed) = Runs-Reach done q before in
          let (ran, appended) = process_parts steps later_steps q r cmd events run in
          let e : JournalEntry = record { sequence = r.input_seq; command = cmd } in
          (
            Reach-append_entry crc (open_journal queue_capacity batch_size []) steps later_steps
                q.journal r.journal e reach appended,
            replay-append (State.new config arena_capacity) done (e ∷ [])
                ∙ ap (λ m. m >>= λ k. replay k (e ∷ [])) replayed
                ∙ ap (λ m. m >>= λ x. ok x.0) ran,
          )
      Runs-Reach _ _ (worked {done} {q} os journal before run) =
          let (reach, replayed) = Runs-Reach done q before in
          (
            subst (λ es. Reach crc (open_journal queue_capacity batch_size []) es journal)
                (append-nil done) (later [] journal reach (work os journal run)),
            replayed,
          )

module _ {M : Type 0} ⦃map : IndexMap M⦄ (crc : List ℕ → ℕ)
    (crc_lt : (bs : List ℕ) → crc bs < 256 ^ 4) (config : InstrumentConfig)
    (arena_capacity queue_capacity batch_size : ℕ) (done : List JournalEntry)
    (p : EndToEndPipeline M)
    (runs : Runs crc (new config arena_capacity queue_capacity batch_size []) done p)
    (fit : AllFit done) where
  -- For a checksum of four bytes and a new pipeline on an empty file: after any calls of `process`
  -- that returned events, whose commands and numbers are in range, with the worker running in
  -- between and the operating system answering anything, the history of numbered commands is
  -- `kept` followed by `lost`; recovery of the file keeps exactly the records of `kept`, reports
  -- their last number (0 without), what it keeps reads back as `kept`, a new engine that replays
  -- `kept` reaches a state, and from this state `lost` leads to the engine of the pipeline.
  pub replay-recover_file :
      (kept : List JournalEntry) × (lost : List JournalEntry) × (file : List ℕ) × (n : ℕ)
      × (k : MatchingEngine M) × (kept ++ lost ≡ done)
      × (p.journal.writer ≡ single file)
      × (recover_file crc file
          ≡ Outcome.ok (
            record { last_valid_sequence = last_sequence 0 kept; truncated_bytes = n },
            log_of crc kept,
          ))
      × (read_file crc (log_of crc kept) ≡ Outcome.ok kept)
      × (replay (State.new config arena_capacity) kept ≡ ok k)
      × (replay k lost ≡ ok p.engine)
  unfolding log_of
  replay-recover_file =
      let (reach, replayed) =
        Runs-Reach crc config arena_capacity queue_capacity batch_size done p runs in
      let (synced, kept, lost, file, n, split, mark, at, recovered, whole) =
        recover_file-Reach crc crc_lt [] done queue_capacity batch_size p.journal reach tt fit in
      let cut = append_assoc synced kept lost ∙ split in
      let (k, first, rest) =
        replay_split (State.new config arena_capacity) p.engine (synced ++ kept) lost
          (ap (replay (State.new config arena_capacity)) cut ∙ replayed) in
      (
        synced ++ kept,
        lost,
        file,
        n,
        k,
        cut,
        at,
        recovered,
        read_file-log_of crc crc_lt (synced ++ kept)
            (AllFit-front (synced ++ kept) lost (subst AllFit (sym cut) fit)),
        first,
        rest,
      )

  -- For a checksum of four bytes and a new pipeline on an empty file: after any calls of `process`
  -- that returned events, whose commands and numbers are in range, when the journal is not
  -- degraded, the worker waits for a message and the queue is empty, the file reads as the whole
  -- history of numbered commands, and a new engine that replays it is in the state of the
  -- pipeline's engine.
  pub replay-read_file :
      p.journal.degraded ≡ false
      → p.journal.worker ≡ receiving
      → p.journal.queue ≡ []
      → (file : List ℕ) × (p.journal.writer ≡ single file)
        × (read_file crc file ≡ Outcome.ok done)
        × (replay (State.new config arena_capacity) done ≡ ok p.engine)
  unfolding log_of
  replay-read_file good idle empty =
      let (reach, replayed) =
        Runs-Reach crc config arena_capacity queue_capacity batch_size done p runs in
      let (at, mark) =
        synced-Reach crc [] done queue_capacity batch_size p.journal reach good idle empty in
      (log_of crc done, at, read_file-log_of crc crc_lt done fit, replayed)
