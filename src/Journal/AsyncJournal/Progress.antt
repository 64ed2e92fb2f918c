-- ===== src/Journal/AsyncJournal/Progress.antt =====
-- The worker catches up with its queue.
use mathlib.Core.List.{append-nil}
use match_x.Base.{
  ℕ, zero, suc, ◌+◌, ◌*◌, ◌<◌, ◌≡◌, refl, sym, subst, ◌⊎◌, inl, inr, List, [], ◌∷◌, ◌++◌, none,
  some, Option-cases, true, false, length, arith,
}
use match_x.Journal.Reader.{JournalEntry}
use match_x.Journal.Scan.{last_sequence, log_of}
use match_x.Journal.Writer.{
  Answer, WriterMode, single, segmented, append_raw, append_segmented, rotate_segment,
  write_segment, append_raw_batch, flush,
}
use match_x.Journal.AsyncJournal.{
  WorkerMessage, append, shutdown, Worker, receiving, collecting, writing, exited, AsyncJournal,
  open_journal, receive, collect, finish_batch, worker_step, work, Reach, later,
}
use match_x.Journal.AsyncJournal.Recovery.{synced-Reach}

-- The steps that the worker has before it, at most, if nothing is sent any more.
abbrev pub steps_left : Worker → ℕ → ℕ
steps_left receiving n = 3 * n
steps_left (collecting batch last) n = 3 * n + 2
steps_left (writing batch last should_exit) n = 3 * n + 1
steps_left exited n = 0

steps_left-worker_step :
    (os : List Answer) (j k : AsyncJournal) (w : Worker) (q : List WorkerMessage)
    → j.worker ≡ w
    → j.queue ≡ q
    → worker_step os j ≡ some k
    → steps_left k.worker (length k.queue) < steps_left w (length q)
unfolding worker_step receive collect finish_batch
steps_left-worker_step os j k receiving [] ew eq h = absurd (ground arith)
steps_left-worker_step os j k receiving (append r ∷ q) ew eq h = ground arith
steps_left-worker_step os j k receiving (shutdown ∷ q) ew eq h = ground arith
steps_left-worker_step os j k (collecting b last) [] ew eq h = ground arith
steps_left-worker_step os j k (collecting b last) (append r ∷ q) ew eq h = ground arith
steps_left-worker_step os j k (collecting b last) (shutdown ∷ q) ew eq h = ground arith
steps_left-worker_step os j k (writing b last true) q ew eq h = ground arith
steps_left-worker_step os j k (writing b last false) q ew eq h = ground arith
steps_left-worker_step os j k exited q ew eq h = absurd (ground arith)

-- The worker stops only with nothing to do.
worker_step-none :
    (os : List Answer) (j : AsyncJournal) (w : Worker) (q : List WorkerMessage)
    → j.worker ≡ w
    → j.queue ≡ q
    → worker_step os j ≡ none
    → ((w ≡ receiving) × (q ≡ [])) ⊎ (w ≡ exited)
unfolding worker_step receive
worker_step-none os j receiving [] ew eq h = inl (refl, refl)
worker_step-none os j receiving (append r ∷ q) ew eq h = absurd (ground arith)
worker_step-none os j receiving (shutdown ∷ q) ew eq h = absurd (ground arith)
worker_step-none os j (collecting b last) q ew eq h = absurd (ground arith)
worker_step-none os j (writing b last x) q ew eq h = absurd (ground arith)
worker_step-none os j exited q ew eq h = inr refl

-- no failing answer, no error
append_raw_done :
    (w : WriterMode) (bytes : List ℕ)
    → ((append_raw [] w bytes).2 ≡ none) × ((append_raw [] w bytes).1 ≡ [])
unfolding append_raw append_segmented rotate_segment write_segment
append_raw_done (single file) bytes = (refl, refl)
append_raw_done (segmented s) bytes = ground arith

append_raw_batch_done :
    (w : WriterMode) (batch : List (List ℕ)) → (append_raw_batch [] w batch).2 ≡ none
unfolding append_raw_batch flush
append_raw_batch_done w [] = refl
append_raw_batch_done w (bytes ∷ batch) =
    grind (arith, append_raw_done w bytes, append_raw_batch_done (append_raw [] w bytes).0 batch)

degraded-worker_step :
    (j k : AsyncJournal) (w : Worker) (q : List WorkerMessage)
    → j.worker ≡ w
    → j.queue ≡ q
    → j.degraded ≡ false
    → worker_step [] j ≡ some k
    → k.degraded ≡ false
unfolding worker_step receive collect finish_batch
degraded-worker_step j k receiving [] ew eq good h = absurd (ground arith)
degraded-worker_step j k receiving (append r ∷ q) ew eq good h = ground arith
degraded-worker_step j k receiving (shutdown ∷ q) ew eq good h = ground arith
degraded-worker_step j k (collecting b last) [] ew eq good h = ground arith
degraded-worker_step j k (collecting b last) (append r ∷ q) ew eq good h = ground arith
degraded-worker_step j k (collecting b last) (shutdown ∷ q) ew eq good h = ground arith
degraded-worker_step j k (writing b last x) q ew eq good h =
    let e = append_raw_batch_done j.writer b in ground arith
degraded-worker_step j k exited q ew eq good h = absurd (ground arith)

-- Rounds of the worker, with no failing call, until it has to wait.
abbrev pub run_worker : ℕ → AsyncJournal → AsyncJournal
run_worker zero j = j
run_worker (suc n) j = elim (worker_step [] j) [ none ↦ j | some k ↦ run_worker n k ]

pub run_worker_waits :
    (n : ℕ) (j : AsyncJournal) → worker_step [] j ≡ none → run_worker (suc n) j ≡ j
run_worker_waits n j h = rw (h, run_worker) refl

pub run_worker_works :
    (n : ℕ) (j k : AsyncJournal) → worker_step [] j ≡ some k → run_worker (suc n) j ≡ run_worker n k
run_worker_works n j k h = rw (h, run_worker) refl

module _ (crc : List ℕ → ℕ) (old : List JournalEntry) (capacity batch_size : ℕ) where
  -- A reachable state in which the worker has ended or everything is in the file.
  pub record CaughtUp (sent : List JournalEntry) (k : AsyncJournal) : Type 0 where
    pub reach : Reach crc (open_journal capacity batch_size (log_of crc old)) sent k
    pub good : k.degraded ≡ false
    pub written :
        (k.worker ≡ exited)
        ⊎ ((k.writer ≡ single (log_of crc (old ++ sent))) × (k.durable ≡ last_sequence 0 sent))

  pub CaughtUp-run_worker :
      (sent : List JournalEntry) (n : ℕ) (j : AsyncJournal)
      → Reach crc (open_journal capacity batch_size (log_of crc old)) sent j
      → j.degraded ≡ false
      → steps_left j.worker (length j.queue) < n
      → CaughtUp sent (run_worker n j)
  CaughtUp-run_worker sent zero j reach good h = absurd (omega arith)
  CaughtUp-run_worker sent (suc n) j reach good h = elim (Option-cases (worker_step [] j)) [
    | inl waits ↦ subst (CaughtUp sent) (sym (run_worker_waits n j waits)) (record {
      reach = reach;
      good = good;
      written = elim (worker_step-none [] j j.worker j.queue refl refl waits) [
        | inl (idle, empty) ↦
            inr (synced-Reach crc old sent capacity batch_size j reach good idle empty)
        | inr ended ↦ inl ended
      ];
    })
    | inr (k, run) ↦ subst (CaughtUp sent) (sym (run_worker_works n j k run)) (
        CaughtUp-run_worker sent n k
          (subst (λ es. Reach crc (open_journal capacity batch_size (log_of crc old)) es k)
            (append-nil sent) (later [] k reach (work [] k run)))
          (degraded-worker_step j k j.worker j.queue refl refl good run)
          (omega (arith, steps_left-worker_step [] j k j.worker j.queue refl refl run)))
  ]
