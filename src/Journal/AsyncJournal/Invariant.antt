-- ===== src/Journal/AsyncJournal/Invariant.antt =====
-- What every step of the journal keeps.
pub mod Batch
use mathlib.Core.List.{append_assoc, append-nil, map, map-append}
use match_x.Base.{
  ℕ, ◌≡◌, refl, ap, sym, ◌∙◌, List, [], ◌∷◌, ◌++◌, none, Bool, true, false, if◌then◌else◌, arith,
}
use match_x.Journal.Reader.{JournalEntry}
use match_x.Journal.Scan.{last_sequence, log_of}
use match_x.Journal.Writer.{Answer, WriterMode, single, append_raw_batch}
use match_x.Journal.AsyncJournal.{
  AppendRecord, WorkerMessage, append, shutdown, Worker, receiving, collecting, writing, exited,
  record_of,
}
use match_x.Journal.Logs.{bytes_of, log_of-append}
use match_x.Journal.AsyncJournal.History.{
  records, records-append, last_sequence-append, append_raw_batch-log_of,
}

module _ (crc : List ℕ → ℕ) (old : List JournalEntry) where
  -- The worker's locals stand for the entries of its batch, behind those in the file.
  abbrev pub Holds : Bool → Worker → List JournalEntry → List JournalEntry → Type 0
  Holds degraded receiving synced batch = (degraded ≡ false) × (batch ≡ [])
  Holds degraded (collecting bytes last) synced batch =
      (degraded ≡ false)
      × (bytes ≡ map (bytes_of crc) batch)
      × (last ≡ last_sequence 0 (synced ++ batch))
  Holds degraded (writing bytes last should_exit) synced batch =
      (degraded ≡ false)
      × (bytes ≡ map (bytes_of crc) batch)
      × (last ≡ last_sequence 0 (synced ++ batch))
  Holds degraded exited synced batch = degraded ≡ false → batch ≡ []

  -- The entries queued so far are those in the file, `synced`, those of the batch and those in the
  -- queue. After a failed write a part of the batch is in the file too.
  pub record Inv (sent : List JournalEntry) (messages : List WorkerMessage) (worker : Worker)
      (writer : WriterMode) (durable : ℕ) (degraded : Bool) : Type 0 where
    pub synced : List JournalEntry
    pub batch : List JournalEntry
    pub waiting : List JournalEntry
    pub part : List ℕ
    pub rest : List ℕ
    pub split : synced ++ (batch ++ waiting) ≡ sent
    pub queue : records messages ≡ map (record_of crc) waiting
    pub mark : durable ≡ last_sequence 0 synced
    pub held : Holds degraded worker synced batch
    pub partial : part ++ rest ≡ log_of crc batch
    pub clean : degraded ≡ false → part ≡ []
    pub file : writer ≡ single (log_of crc (old ++ synced) ++ part)

  pub open_journal-Inv : Inv [] [] receiving (single (log_of crc old)) 0 false
  unfolding log_of
  open_journal-Inv = record {
    synced = [];
    batch = [];
    waiting = [];
    part = [];
    rest = [];
    split = refl;
    queue = refl;
    mark = refl;
    held = (refl, refl);
    partial = refl;
    clean = λ h. refl;
    file = ap single (sym (append-nil (log_of crc (old ++ [])) ∙ ap (log_of crc) (append-nil old)));
  }

  module _ {sent : List JournalEntry} {writer : WriterMode} {durable : ℕ} {degraded : Bool}
      (messages : List WorkerMessage) where
    pub Inv-send :
        (worker : Worker) (e : JournalEntry)
        → Inv sent messages worker writer durable degraded
        → Inv
            (sent ++ e ∷ [])
            (messages ++ append (record_of crc e) ∷ [])
            worker
            writer
            durable
            degraded
    Inv-send worker e v = record {
      synced = v.synced;
      batch = v.batch;
      waiting = v.waiting ++ e ∷ [];
      part = v.part;
      rest = v.rest;
      split =
          ap (◌++◌ v.synced) (sym (append_assoc v.batch v.waiting (e ∷ [])))
          ∙ sym (append_assoc v.synced (v.batch ++ v.waiting) (e ∷ []))
          ∙ ap (λ es. es ++ e ∷ []) v.split;
      queue =
          records-append messages (append (record_of crc e) ∷ [])
          ∙ ap (λ rs. rs ++ record_of crc e ∷ []) v.queue
          ∙ sym (map-append (record_of crc) v.waiting (e ∷ []));
      mark = v.mark;
      held = v.held;
      partial = v.partial;
      clean = v.clean;
      file = v.file;
    }

    -- the same entries, with another queue of the same records and another worker
    pub Inv-same :
        {worker worker' : Worker} (messages' : List WorkerMessage)
        → records messages' ≡ records messages
        → (v : Inv sent messages worker writer durable degraded)
        → Holds degraded worker' v.synced v.batch
        → Inv sent messages' worker' writer durable degraded
    Inv-same messages' same v held = record {
      synced = v.synced;
      batch = v.batch;
      waiting = v.waiting;
      part = v.part;
      rest = v.rest;
      split = v.split;
      queue = same ∙ v.queue;
      mark = v.mark;
      held = held;
      partial = v.partial;
      clean = v.clean;
      file = v.file;
    }

    pub Inv-send_shutdown :
        {worker : Worker}
        → Inv sent messages worker writer durable degraded
        → Inv sent (messages ++ shutdown ∷ []) worker writer durable degraded
    Inv-send_shutdown v =
        Inv-same (messages ++ shutdown ∷ [])
          (records-append messages (shutdown ∷ []) ∙ append-nil (records messages)) v v.held
