-- ===== src/Journal/AsyncJournal/Races.antt =====
-- `append` against `close`: a record may go into the queue behind the shutdown.
use match_x.Base.{ℕ, ◌≤◌, ◌≡◌, refl, List, [], ◌∷◌, ◌++◌, true, false, ltb, length, arith, lt→ltb}
use match_x.Journal.Outcome.{ok}
use match_x.Journal.Reader.{JournalEntry}
use match_x.Journal.Writer.{single}
use match_x.Journal.AsyncJournal.{
  WorkerMessage, append, shutdown, receiving, exited, checked, queued, closing, AsyncJournal,
  open_journal, check_open, try_send, receive, worker_step, record_of, begin, send, store,
  begin_close, send_shutdown, work, Reach, start, later,
}

-- a message finds room as long as the worker waits
try_send_room :
    (j : AsyncJournal) (m : WorkerMessage)
    → j.worker ≡ receiving
    → ltb (length j.queue) j.queue_capacity ≡ true
    → try_send j m ≡ ok (record j { queue = j.queue ++ m ∷ [] })
unfolding try_send
try_send_room j m idle room = ground arith

module _ (crc : List ℕ → ℕ) where
  -- For every file, entry, queue capacity of at least 2 and batch size there is a reachable state
  -- in which the entry was accepted, the worker has ended, the journal is not degraded and the
  -- file is as it was opened.
  pub lost_after_close :
      (file : List ℕ) (e : JournalEntry) (capacity batch_size : ℕ)
      → 2 ≤ capacity
      → (j : AsyncJournal) × Reach crc (open_journal capacity batch_size file) (e ∷ []) j
        × (j.accepted ≡ e.sequence)
        × (j.worker ≡ exited)
        × (j.degraded ≡ false)
        × (j.writer ≡ single file)
  unfolding open_journal check_open worker_step receive
  lost_after_close file e capacity batch_size h =
      let room0 = lt→ltb 0 capacity (omega arith) in
      let room1 = lt→ltb 1 capacity (omega arith) in
      let j0 = open_journal capacity batch_size file in
      let j1 : AsyncJournal = record j0 { calls = checked e ∷ [] } in
      let j2 : AsyncJournal = record j1 { closed = true; calls = closing ∷ checked e ∷ [] } in
      let j3 : AsyncJournal = record j2 { queue = shutdown ∷ []; calls = checked e ∷ [] } in
      let j4 : AsyncJournal = record j3 {
        queue = shutdown ∷ append (record_of crc e) ∷ [];
        calls = queued e.sequence ∷ [];
      } in
      let j5 : AsyncJournal = record j4 { accepted = e.sequence; calls = [] } in
      let j6 : AsyncJournal = record j5 {
        queue = append (record_of crc e) ∷ [];
        worker = exited;
      } in
      let r1 = later [] j1 start (begin e refl) in
      let r2 = later [] j2 r1 (begin_close refl) in
      let r3 = later [] j3 r2 (
        send_shutdown [] (checked e ∷ []) (record j2 { queue = shutdown ∷ [] }) refl
          (try_send_room j2 shutdown refl room0)) in
      let r4 = later (e ∷ []) j4 r3 (
        send [] [] e (record j3 { queue = shutdown ∷ append (record_of crc e) ∷ [] }) refl
          (try_send_room j3 (append (record_of crc e)) refl room1)) in
      let r5 = later [] j5 r4 (store [] [] e.sequence refl) in
      (j6, later [] j6 r5 (work [] j6 refl), refl, refl, refl, refl)
