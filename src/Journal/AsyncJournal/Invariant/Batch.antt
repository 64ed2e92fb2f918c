-- ===== src/Journal/AsyncJournal/Invariant/Batch.antt =====
-- The steps of the worker that take records from the queue and write them keep the invariant.
use mathlib.Core.List.{append_assoc, append-nil, map, map-append}
use match_x.Base.{
  ℕ, ◌≡◌, refl, ap, sym, ◌∙◌, List, [], ◌∷◌, ◌++◌, none, Bool, true, false, if◌then◌else◌, arith,
}
use match_x.Journal.Reader.{JournalEntry}
use match_x.Journal.Scan.{last_sequence, log_of}
use match_x.Journal.Writer.{Answer, WriterMode, single, append_raw_batch}
use match_x.Journal.AsyncJournal.{
  AppendRecord, WorkerMessage, append, Worker, receiving, collecting, writing, exited, record_of,
}
use match_x.Journal.Logs.{bytes_of, log_of-append}
use match_x.Journal.AsyncJournal.History.{records, last_sequence-append, append_raw_batch-log_of}
use match_x.Journal.AsyncJournal.Invariant.{Holds, Inv}

module _ (crc : List ℕ → ℕ) (old : List JournalEntry) where
  -- the first waiting entry is that of the first record
  waiting_cons :
      (r : AppendRecord) (rs : List AppendRecord) (es : List JournalEntry)
      → r ∷ rs ≡ map (record_of crc) es
      → (e : JournalEntry) × (es' : List JournalEntry) × (es ≡ e ∷ es')
        × (r ≡ record_of crc e)
        × (rs ≡ map (record_of crc) es')
  waiting_cons r rs [] h = cc
  waiting_cons r rs (e ∷ es) h = (e, es, refl, ground arith, ground arith)

  module _ {sent : List JournalEntry} {writer : WriterMode} {durable : ℕ} {degraded : Bool}
      (messages : List WorkerMessage) where
    -- A record moves from the queue to the batch.
    Inv-take :
        (r : AppendRecord) (bytes : List (List ℕ)) (worker : Worker)
        → (v : Inv crc old sent (append r ∷ messages) worker writer durable degraded)
        → degraded ≡ false
        → bytes ≡ map (bytes_of crc) v.batch
        → Inv crc old sent messages
            (collecting (bytes ++ r.bytes ∷ []) r.sequence)
            writer
            durable
            degraded
    Inv-take r bytes worker v good same =
        let (e, es, waiting, head, tail) = waiting_cons r (records messages) v.waiting v.queue in
        record {
          synced = v.synced;
          batch = v.batch ++ e ∷ [];
          waiting = es;
          part = [];
          rest = log_of crc (v.batch ++ e ∷ []);
          split =
              ap (◌++◌ v.synced)
                (append_assoc v.batch (e ∷ []) es ∙ ap (◌++◌ v.batch) (sym waiting))
              ∙ v.split;
          queue = tail;
          mark = v.mark;
          held = (
            good,
            ap (λ bs. bs ++ r.bytes ∷ []) same
                ∙ ap (λ (x : AppendRecord). map (bytes_of crc) v.batch ++ x.bytes ∷ []) head
                ∙ sym (map-append (bytes_of crc) v.batch (e ∷ [])),
            ap (λ (x : AppendRecord). x.sequence) head
                ∙ sym (last_sequence-append 0 (v.synced ++ v.batch) e)
                ∙ ap (last_sequence 0) (append_assoc v.synced v.batch (e ∷ [])),
          );
          partial = refl;
          clean = λ h. refl;
          file = v.file ∙ ap (λ part. single (log_of crc (old ++ v.synced) ++ part)) (v.clean good);
        }

    pub Inv-receive :
        (r : AppendRecord)
        → Inv crc old sent (append r ∷ messages) receiving writer durable degraded
        → Inv crc old sent messages (collecting (r.bytes ∷ []) r.sequence) writer durable degraded
    Inv-receive r v = Inv-take r [] receiving v v.held.0 (ap (map (bytes_of crc)) (sym v.held.1))

    pub Inv-collect :
        (r : AppendRecord) (bytes : List (List ℕ)) (last : ℕ)
        → Inv crc old sent (append r ∷ messages) (collecting bytes last) writer durable degraded
        → Inv crc old sent messages
            (collecting (bytes ++ r.bytes ∷ []) r.sequence)
            writer
            durable
            degraded
    Inv-collect r bytes last v = Inv-take r bytes (collecting bytes last) v v.held.0 v.held.1

    -- What the write of a batch leaves.
    batch_write :
        (bytes : List (List ℕ)) (last : ℕ) (should_exit : Bool) (os : List Answer)
        → (v : Inv crc old sent messages (writing bytes last should_exit) writer durable degraded)
        → let r = append_raw_batch os writer bytes in
          (part : List ℕ) × (rest : List ℕ) × (part ++ rest ≡ log_of crc v.batch)
          × (r.0 ≡ single (log_of crc (old ++ v.synced) ++ part))
          × (r.2 ≡ none → rest ≡ [])
    batch_write bytes last should_exit os v =
        let before : writer ≡ single (log_of crc (old ++ v.synced)) =
          v.file
          ∙ ap (λ part. single (log_of crc (old ++ v.synced) ++ part)) (v.clean v.held.0)
          ∙ ap single (append-nil (log_of crc (old ++ v.synced))) in
        rw (before, v.held.1)
          (append_raw_batch-log_of crc v.batch os (log_of crc (old ++ v.synced)))

    pub Inv-finish :
        (bytes : List (List ℕ)) (last : ℕ) (should_exit : Bool) (os : List Answer)
        → Inv crc old sent messages (writing bytes last should_exit) writer durable degraded
        → (append_raw_batch os writer bytes).2 ≡ none
        → Inv crc old sent messages
            (if should_exit then exited else receiving)
            (append_raw_batch os writer bytes).0
            last
            degraded
    unfolding log_of
    Inv-finish bytes last should_exit os v good =
        let (part, rest, split, run, all) = batch_write bytes last should_exit os v in
        let whole : part ≡ log_of crc v.batch =
          sym (append-nil part) ∙ ap (◌++◌ part) (sym (all good)) ∙ split in
        record {
          synced = v.synced ++ v.batch;
          batch = [];
          waiting = v.waiting;
          part = [];
          rest = [];
          split = append_assoc v.synced v.batch v.waiting ∙ v.split;
          queue = v.queue;
          mark = v.held.2;
          held = idle should_exit v.held.0;
          partial = refl;
          clean = λ h. refl;
          file =
              run
              ∙ ap (λ part. single (log_of crc (old ++ v.synced) ++ part)) whole
              ∙ ap single (
                  sym (log_of-append crc (old ++ v.synced) v.batch)
                  ∙ ap (log_of crc) (append_assoc old v.synced v.batch)
                  ∙ sym (append-nil (log_of crc (old ++ (v.synced ++ v.batch)))));
        }
      where
        idle :
            (x : Bool)
            → degraded ≡ false
            → Holds crc old degraded (if x then exited else receiving) (v.synced ++ v.batch) []
        idle true h = λ d. refl
        idle false h = (h, refl)

    pub Inv-degrade :
        (bytes : List (List ℕ)) (last : ℕ) (should_exit : Bool) (os : List Answer)
        → Inv crc old sent messages (writing bytes last should_exit) writer durable degraded
        → Inv crc old sent messages exited (append_raw_batch os writer bytes).0 durable true
    Inv-degrade bytes last should_exit os v =
        let (part, rest, split, run, all) = batch_write bytes last should_exit os v in
        record {
          synced = v.synced;
          batch = v.batch;
          waiting = v.waiting;
          part = part;
          rest = rest;
          split = v.split;
          queue = v.queue;
          mark = v.mark;
          held = λ h. cc;
          partial = split;
          clean = λ h. cc;
          file = run;
        }
