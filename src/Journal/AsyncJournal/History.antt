-- ===== src/Journal/AsyncJournal/History.antt =====
-- Where the entries are that were put into the queue: in the file, in the batch, or in the queue.
use mathlib.Core.List.{append_assoc, append-nil, map}
use match_x.Base.{
  ℕ, ◌≡◌, refl, ap, sym, ◌∙◌, List, [], ◌∷◌, ◌++◌, none, take, drop, zero, suc, arith,
}
use match_x.Journal.Outcome.{ok}
use match_x.Journal.Reader.{JournalEntry}
use match_x.Journal.Scan.{last_sequence, log_of}
use match_x.Journal.Logs.{bytes_of}
use match_x.Journal.Writer.{Answer, done, fails, single, append_raw, append_raw_batch, flush}
use match_x.Journal.AsyncJournal.{
  AppendRecord, WorkerMessage, append, shutdown, AsyncJournal, try_send,
}

-- the records among the messages
abbrev pub records : List WorkerMessage → List AppendRecord
records [] = []
records (append r ∷ queue) = r ∷ records queue
records (shutdown ∷ queue) = records queue

pub records-append : (p q : List WorkerMessage) → records (p ++ q) ≡ records p ++ records q
records-append [] q = refl
records-append (append r ∷ p) q = ap (◌∷◌ r) (records-append p q)
records-append (shutdown ∷ p) q = records-append p q

pub take-drop_append : {A : Type 0} (n : ℕ) (xs : List A) → take n xs ++ drop n xs ≡ xs
take-drop_append zero xs = refl
take-drop_append (suc n) [] = refl
take-drop_append (suc n) (x ∷ xs) = ap (◌∷◌ x) (take-drop_append n xs)

pub last_sequence-append :
    (n : ℕ) (es : List JournalEntry) (e : JournalEntry)
    → last_sequence n (es ++ e ∷ []) ≡ e.sequence
last_sequence-append n [] e = refl
last_sequence-append n (x ∷ es) e = last_sequence-append x.sequence es e

pub try_send_ok :
    (j k : AsyncJournal) (m : WorkerMessage)
    → try_send j m ≡ ok k
    → k ≡ record j { queue = j.queue ++ m ∷ [] }
unfolding try_send
try_send_ok j k m h = ground arith

module _ (crc : List ℕ → ℕ) where
  -- A batch leaves its bytes in the file up to the point where a write fails.
  pub append_raw_batch-log_of :
      (es : List JournalEntry) (os : List Answer) (file : List ℕ)
      → let r = append_raw_batch os (single file) (map (bytes_of crc) es) in
        (part : List ℕ) × (rest : List ℕ) × (part ++ rest ≡ log_of crc es)
        × (r.0 ≡ single (file ++ part))
        × (r.2 ≡ none → rest ≡ [])
  unfolding append_raw_batch append_raw flush log_of
  append_raw_batch-log_of [] os file = ([], [], refl, ap single (sym (append-nil file)), λ h. refl)
  append_raw_batch-log_of (e ∷ es) [] file =
      let (part, rest, split, run, all) = append_raw_batch-log_of es [] (file ++ bytes_of crc e) in
      (
        bytes_of crc e ++ part,
        rest,
        append_assoc (bytes_of crc e) part rest ∙ ap (◌++◌ (bytes_of crc e)) split,
        run ∙ ap single (append_assoc file (bytes_of crc e) part),
        all,
      )
  append_raw_batch-log_of (e ∷ es) (done ∷ os) file =
      let (part, rest, split, run, all) = append_raw_batch-log_of es os (file ++ bytes_of crc e) in
      (
        bytes_of crc e ++ part,
        rest,
        append_assoc (bytes_of crc e) part rest ∙ ap (◌++◌ (bytes_of crc e)) split,
        run ∙ ap single (append_assoc file (bytes_of crc e) part),
        all,
      )
  append_raw_batch-log_of (e ∷ es) (fails n ∷ os) file = (
    take n (bytes_of crc e),
    drop n (bytes_of crc e) ++ log_of crc es,
    sym (append_assoc (take n (bytes_of crc e)) (drop n (bytes_of crc e)) (log_of crc es))
        ∙ ap (λ xs. xs ++ log_of crc es) (take-drop_append n (bytes_of crc e)),
    refl,
    λ h. cc,
  )
