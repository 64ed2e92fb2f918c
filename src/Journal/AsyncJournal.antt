-- ===== src/Journal/AsyncJournal.antt =====
-- crates/matchx-journal/src/async_journal.rs: `AsyncJournal`, its callers and its worker thread as
-- interleaved steps, one access to shared state at a time. `InjectFailure` is a test's. The channel
-- has a positive capacity; its sender lives until the worker has been joined, so that the receiver
-- never finds it disconnected.
pub mod History
pub mod Invariant
pub mod Durability
pub mod Recovery
pub mod Progress
pub mod Running
pub mod Append
pub mod Races
pub mod Tests
use match_x.Base.{
  ℕ, ◌≡◌, List, [], ◌∷◌, ◌++◌, Option, none, some, Bool, true, false, ltb, leb, ◌==◌, if◌then◌else◌,
  length,
}
use match_x.Types.{Command}
use match_x.Journal.Outcome.{
  JournalError, Result, ok, err, queue_full, writer_stopped, writer_degraded, require, ◌>>=◌, ◌>>◌,
}
use match_x.Journal.Codec.{encode_record}
use match_x.Journal.Reader.{JournalEntry}
use match_x.Journal.Writer.{Answer, WriterMode, single, append_raw_batch}

pub record AppendRecord : Type 0 where
  pub sequence : ℕ
  pub bytes : List ℕ

pub data WorkerMessage : Type 0 where
  append : AppendRecord → WorkerMessage
  shutdown : WorkerMessage

-- Where `worker_loop` stands, with the locals that are live there.
pub data Worker : Type 0 where
  receiving : Worker  -- `rx.recv()`
  collecting : (batch : List (List ℕ)) (last_sequence : ℕ) → Worker  -- head of the inner loop
  writing : (batch : List (List ℕ)) (last_sequence : ℕ) (should_exit : Bool) → Worker
  exited : Worker

-- Where a call of `append` or `close` stands.
pub data Call : Type 0 where
  checked : JournalEntry → Call  -- both flags were clear
  queued : (sequence : ℕ) → Call  -- before `accepted.store`
  closing : Call  -- before `tx.send(Shutdown)`

pub record AsyncJournal : Type 0 where
  pub queue_capacity : ℕ
  pub batch_size : ℕ
  pub queue : List WorkerMessage
  pub worker : Worker
  pub writer : WriterMode
  pub accepted : ℕ
  pub durable : ℕ
  pub degraded : Bool
  pub closed : Bool
  pub calls : List Call

-- `open`, on a file that holds these bytes
unfoldable pub open_journal : ℕ → ℕ → List ℕ → AsyncJournal
open_journal queue_capacity batch_size file = record {
  queue_capacity = queue_capacity;
  batch_size = if batch_size == 0 then 1 else batch_size;
  queue = [];
  worker = receiving;
  writer = single file;
  accepted = 0;
  durable = 0;
  degraded = false;
  closed = false;
  calls = [];
}

-- the two tests at the start of `append`, in one step: `closed` is never cleared
unfoldable pub check_open : AsyncJournal → Result (Unit {0})
check_open j =
    if j.degraded then err writer_degraded else if j.closed then err writer_stopped else ok tt

-- `try_send`: the receiver is gone when the worker has ended.
unfoldable pub try_send : AsyncJournal → WorkerMessage → Result AsyncJournal
try_send j m = elim j.worker [
  | exited ↦ err writer_stopped
  | _ ↦
      if ltb (length j.queue) j.queue_capacity
      then ok (record j { queue = j.queue ++ m ∷ [] })
      else err queue_full
]

-- the first message of a batch
unfoldable pub receive : AsyncJournal → List WorkerMessage → Option AsyncJournal
receive j [] = none
receive j (append r ∷ queue) =
    some (record j { queue = queue; worker = collecting (r.bytes ∷ []) r.sequence })
receive j (shutdown ∷ queue) = some (record j { queue = queue; worker = exited })

-- a round of the inner loop
unfoldable pub collect : AsyncJournal → List (List ℕ) → ℕ → List WorkerMessage → AsyncJournal
collect j batch last [] = record j { worker = writing batch last false }
collect j batch last (append r ∷ queue) = record j {
  queue = queue;
  worker = collecting (batch ++ r.bytes ∷ []) r.sequence;
}
collect j batch last (shutdown ∷ queue) = record j {
  queue = queue;
  worker = writing batch last true;
}

-- what follows the write of the batch, which is never empty
unfoldable pub finish_batch :
    AsyncJournal → ℕ → Bool → WriterMode → Option JournalError → AsyncJournal
finish_batch j last should_exit writer (some e) = record j {
  writer = writer;
  degraded = true;
  worker = exited;
}
finish_batch j last should_exit writer none = record j {
  writer = writer;
  durable = last;
  worker = if should_exit then exited else receiving;
}

-- A step of `worker_loop`, with the answers that the write of a batch gets; `none` while it
-- waits for a message, and once it has ended.
unfoldable pub worker_step : List Answer → AsyncJournal → Option AsyncJournal
unfolding receive collect finish_batch
worker_step os j = elim j.worker [
  | receiving ↦ receive j j.queue
  | collecting batch last ↦ some (
      if ltb (length batch) j.batch_size
      then collect j batch last j.queue
      else record j { worker = writing batch last false })
  | writing batch last should_exit ↦
      let (writer, _, error) = append_raw_batch os j.writer batch in
      some (finish_batch j last should_exit writer error)
  | exited ↦ none
]

module _ (crc : List ℕ → ℕ) where
  abbrev pub record_of : JournalEntry → AppendRecord
  record_of e = record { sequence = e.sequence; bytes = encode_record crc e.sequence e.command }

  -- A step of a caller or of the worker, and the entries that it puts into the queue.
  pub data Step (j : AsyncJournal) : List JournalEntry → AsyncJournal → Type 0 where
    begin :
        (e : JournalEntry)
        → check_open j ≡ ok tt
        → Step j [] (record j { calls = checked e ∷ j.calls })
    send :
        (front back : List Call) (e : JournalEntry) (j' : AsyncJournal)
        → j.calls ≡ front ++ checked e ∷ back
        → try_send j (append (record_of e)) ≡ ok j'
        → Step j (e ∷ []) (record j' { calls = front ++ queued e.sequence ∷ back })
    refuse :
        (front back : List Call) (e : JournalEntry) (x : JournalError)
        → j.calls ≡ front ++ checked e ∷ back
        → try_send j (append (record_of e)) ≡ err x
        → Step j [] (record j { calls = front ++ back })
    store :
        (front back : List Call) (sequence : ℕ)
        → j.calls ≡ front ++ queued sequence ∷ back
        → Step j [] (record j { accepted = sequence; calls = front ++ back })
    begin_close :
        j.closed ≡ false → Step j [] (record j { closed = true; calls = closing ∷ j.calls })
    send_shutdown :
        (front back : List Call) (j' : AsyncJournal)
        → j.calls ≡ front ++ closing ∷ back
        → try_send j shutdown ≡ ok j'
        → Step j [] (record j' { calls = front ++ back })
    skip_shutdown :
        (front back : List Call)
        → j.calls ≡ front ++ closing ∷ back
        → try_send j shutdown ≡ err writer_stopped
        → Step j [] (record j { calls = front ++ back })
    work : (os : List Answer) (j' : AsyncJournal) → worker_step os j ≡ some j' → Step j [] j'

  -- The states reached from `j`, with the entries queued so far.
  pub data Reach (j : AsyncJournal) : List JournalEntry → AsyncJournal → Type 0 where
    start : Reach j [] j
    later :
        {sent : List JournalEntry} {k : AsyncJournal} (new : List JournalEntry) (l : AsyncJournal)
        → Reach j sent k
        → Step k new l
        → Reach j (sent ++ new) l
