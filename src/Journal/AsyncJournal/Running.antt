-- ===== src/Journal/AsyncJournal/Running.antt =====
-- An asynchronous journal that nobody closes: no message ends its worker.
use match_x.Base.{
  ℕ, zero, suc, ◌+◌, ◌*◌, ◌≤◌, ◌<◌, ◌≡◌, refl, ap, sym, ◌∙◌, subst, inl, inr, List, [], ◌∷◌, ◌++◌,
  some, Option-cases, Bool, true, false, ltb, length, Bool-cases, arith,
}
use match_x.Journal.Reader.{JournalEntry}
use match_x.Journal.Scan.{last_sequence, log_of}
use match_x.Journal.Writer.{Answer, single, append_raw_batch}
use match_x.Journal.AsyncJournal.{
  WorkerMessage, append, shutdown, Worker, receiving, collecting, writing, exited, Call, checked,
  queued, closing, AsyncJournal, open_journal, receive, collect, finish_batch, worker_step,
  record_of, Step, begin, send, refuse, store, begin_close, send_shutdown, skip_shutdown, work,
  Reach, start, later,
}
use match_x.Journal.AsyncJournal.History.{try_send_ok}
use match_x.Journal.AsyncJournal.Progress.{
  steps_left, run_worker, run_worker_waits, run_worker_works, CaughtUp-run_worker,
}

abbrev closings : List Call → ℕ
closings [] = 0
closings (checked e ∷ calls) = closings calls
closings (queued n ∷ calls) = closings calls
closings (closing ∷ calls) = suc (closings calls)

closings-append : (xs ys : List Call) → closings (xs ++ ys) ≡ closings xs + closings ys
closings-append [] ys = omega arith
closings-append (checked e ∷ xs) ys = closings-append xs ys
closings-append (queued n ∷ xs) ys = closings-append xs ys
closings-append (closing ∷ xs) ys = omega (arith, closings-append xs ys)

abbrev shutdowns : List WorkerMessage → ℕ
shutdowns [] = 0
shutdowns (append r ∷ queue) = shutdowns queue
shutdowns (shutdown ∷ queue) = suc (shutdowns queue)

shutdowns-append : (xs ys : List WorkerMessage) → shutdowns (xs ++ ys) ≡ shutdowns xs + shutdowns ys
shutdowns-append [] ys = omega arith
shutdowns-append (append r ∷ xs) ys = shutdowns-append xs ys
shutdowns-append (shutdown ∷ xs) ys = omega (arith, shutdowns-append xs ys)

-- The worker ends only after a failed write.
abbrev Runs : Bool → Worker → Type 0
Runs degraded receiving = Unit {0}
Runs degraded (collecting batch last) = Unit {0}
Runs degraded (writing batch last should_exit) = should_exit ≡ false
Runs degraded exited = degraded ≡ true

-- What holds as long as `close` is not called.
record Unclosed (calls : List Call) (queue : List WorkerMessage) (degraded : Bool) (worker : Worker)
    : Type 0 where
  no_call : closings calls ≡ 0
  no_message : shutdowns queue ≡ 0
  runs : Runs degraded worker

abbrev UnclosedOf : AsyncJournal → Type 0
UnclosedOf j = j.closed ≡ false → Unclosed j.calls j.queue j.degraded j.worker

with_calls :
    {calls : List Call} (calls' : List Call) {queue : List WorkerMessage} {degraded : Bool}
    {worker : Worker}
    → closings calls' ≡ closings calls
    → Unclosed calls queue degraded worker
    → Unclosed calls' queue degraded worker
with_calls calls' h v = record { no_call = h ∙ v.no_call; no_message = v.no_message; runs = v.runs }

pub closed-worker_step :
    (os : List Answer) (j k : AsyncJournal) (w : Worker) (q : List WorkerMessage)
    → j.worker ≡ w
    → j.queue ≡ q
    → worker_step os j ≡ some k
    → (k.closed ≡ j.closed) × (k.calls ≡ j.calls)
unfolding worker_step receive collect finish_batch
closed-worker_step os j k receiving [] ew eq h = absurd (ground arith)
closed-worker_step os j k receiving (append r ∷ q) ew eq h = ground arith
closed-worker_step os j k receiving (shutdown ∷ q) ew eq h = ground arith
closed-worker_step os j k (collecting b last) [] ew eq h = ground arith
closed-worker_step os j k (collecting b last) (append r ∷ q) ew eq h = ground arith
closed-worker_step os j k (collecting b last) (shutdown ∷ q) ew eq h = ground arith
closed-worker_step os j k (writing b last x) q ew eq h = ground arith
closed-worker_step os j k exited q ew eq h = absurd (ground arith)

Unclosed-worker_step :
    (os : List Answer) (j k : AsyncJournal) (w : Worker) (q : List WorkerMessage)
    → j.worker ≡ w
    → j.queue ≡ q
    → shutdowns q ≡ 0
    → Runs j.degraded w
    → worker_step os j ≡ some k
    → (shutdowns k.queue ≡ 0) × Runs k.degraded k.worker
unfolding worker_step receive collect finish_batch
Unclosed-worker_step os j k receiving [] ew eq n r h = absurd (ground arith)
Unclosed-worker_step os j k receiving (append m ∷ q) ew eq n r h =
    let e : k ≡ record j { queue = q; worker = collecting (m.bytes ∷ []) m.sequence } =
      ground arith in
    subst (λ (k : AsyncJournal). (shutdowns k.queue ≡ 0) × Runs k.degraded k.worker) (sym e) (n, tt)
Unclosed-worker_step os j k receiving (shutdown ∷ q) ew eq n r h = absurd (omega arith)
Unclosed-worker_step os j k (collecting b last) [] ew eq n r h =
    let e : k ≡ record j { worker = writing b last false } = ground arith in
    subst (λ (k : AsyncJournal). (shutdowns k.queue ≡ 0) × Runs k.degraded k.worker) (sym e)
      (ap shutdowns eq, refl)
Unclosed-worker_step os j k (collecting b last) (append m ∷ q) ew eq n r h =
    elim (Bool-cases (ltb (length b) j.batch_size)) [
      | inl room ↦
          let e : k ≡ record j { queue = q; worker = collecting (b ++ m.bytes ∷ []) m.sequence } =
            ground arith in
          subst (λ (k : AsyncJournal). (shutdowns k.queue ≡ 0) × Runs k.degraded k.worker) (sym e)
            (n, tt)
      | inr full ↦
          let e : k ≡ record j { worker = writing b last false } = ground arith in
          subst (λ (k : AsyncJournal). (shutdowns k.queue ≡ 0) × Runs k.degraded k.worker) (sym e)
            (ap shutdowns eq ∙ n, refl)
    ]
Unclosed-worker_step os j k (collecting b last) (shutdown ∷ q) ew eq n r h = absurd (omega arith)
Unclosed-worker_step os j k (writing b last x) q ew eq n r h =
    elim (Option-cases (append_raw_batch os j.writer b).2) [
      | inl good ↦
          let e : k ≡ record j {
            writer = (append_raw_batch os j.writer b).0;
            durable = last;
            worker = receiving;
          } =
            ground arith in
          subst (λ (k : AsyncJournal). (shutdowns k.queue ≡ 0) × Runs k.degraded k.worker) (sym e)
            (ap shutdowns eq ∙ n, tt)
      | inr (err, bad) ↦
          let e : k ≡ record j {
            writer = (append_raw_batch os j.writer b).0;
            degraded = true;
            worker = exited;
          } =
            ground arith in
          subst (λ (k : AsyncJournal). (shutdowns k.queue ≡ 0) × Runs k.degraded k.worker) (sym e)
            (ap shutdowns eq ∙ n, refl)
    ]
Unclosed-worker_step os j k exited q ew eq n r h = absurd (ground arith)

module _ (crc : List ℕ → ℕ) where
  UnclosedOf-Step :
      (new : List JournalEntry) (j k : AsyncJournal)
      → Step crc j new k
      → UnclosedOf j
      → UnclosedOf k
  UnclosedOf-Step _ j _ (begin e checks) v h = with_calls (checked e ∷ j.calls) refl (v h)
  UnclosedOf-Step _ j _ (send front back e k calls run) v h =
      let e' = try_send_ok j k (append (record_of crc e)) run in
      let u = v (sym (ap (λ (k : AsyncJournal). k.closed) e') ∙ h) in
      record {
        no_call = omega (
          arith,
          u.no_call,
          ap closings calls,
          closings-append front (checked e ∷ back),
          closings-append front (queued e.sequence ∷ back),
        );
        no_message = omega (
          arith,
          u.no_message,
          ap (λ (k : AsyncJournal). shutdowns k.queue) e',
          shutdowns-append j.queue (append (record_of crc e) ∷ []),
        );
        runs = subst (λ (k : AsyncJournal). Runs k.degraded k.worker) (sym e') u.runs;
      }
  UnclosedOf-Step _ j _ (refuse front back e x calls run) v h =
      with_calls (front ++ back)
        (omega (
          arith,
          ap closings calls,
          closings-append front (checked e ∷ back),
          closings-append front back,
        ))
        (v h)
  UnclosedOf-Step _ j _ (store front back sequence calls) v h =
      with_calls (front ++ back)
        (omega (
          arith,
          ap closings calls,
          closings-append front (queued sequence ∷ back),
          closings-append front back,
        ))
        (v h)
  UnclosedOf-Step _ j _ (begin_close first) v h = cc
  UnclosedOf-Step _ j _ (send_shutdown front back k calls run) v h =
      let u = v (sym (ap (λ (k : AsyncJournal). k.closed) (try_send_ok j k shutdown run)) ∙ h) in
      absurd (omega (arith, u.no_call, ap closings calls, closings-append front (closing ∷ back)))
  UnclosedOf-Step _ j _ (skip_shutdown front back calls run) v h =
      absurd
        (omega (arith, (v h).no_call, ap closings calls, closings-append front (closing ∷ back)))
  UnclosedOf-Step _ j k (work os _ run) v h =
      let (same, calls) = closed-worker_step os j k j.worker j.queue refl refl run in
      let u = v (sym same ∙ h) in
      let (messages, runs) =
        Unclosed-worker_step os j k j.worker j.queue refl refl u.no_message u.runs run in
      record { no_call = ap closings calls ∙ u.no_call; no_message = messages; runs = runs }

  UnclosedOf-Reach :
      (capacity batch_size : ℕ) (file : List ℕ) (sent : List JournalEntry) (j : AsyncJournal)
      → Reach crc (open_journal capacity batch_size file) sent j
      → UnclosedOf j
  unfolding open_journal
  UnclosedOf-Reach capacity batch_size file _ _ start =
      λ h. record { no_call = refl; no_message = refl; runs = tt }
  UnclosedOf-Reach capacity batch_size file _ _ (later {sent} {k} new l r step) =
      UnclosedOf-Step new k l step (UnclosedOf-Reach capacity batch_size file sent k r)

closed-run_worker : (n : ℕ) (j : AsyncJournal) → (run_worker n j).closed ≡ j.closed
closed-run_worker zero j = refl
closed-run_worker (suc n) j = elim (Option-cases (worker_step [] j)) [
  | inl waits ↦ ap (λ (k : AsyncJournal). k.closed) (run_worker_waits n j waits)
  | inr (k, run) ↦
      ap (λ (k : AsyncJournal). k.closed) (run_worker_works n j k run)
      ∙ closed-run_worker n k
      ∙ (closed-worker_step [] j k j.worker j.queue refl refl run).0
]

steps_left_le : (w : Worker) (n : ℕ) → steps_left w n ≤ 3 * n + 2
steps_left_le receiving n = omega arith
steps_left_le (collecting b last) n = omega arith
steps_left_le (writing b last x) n = omega arith
steps_left_le exited n = omega arith

module _ (crc : List ℕ → ℕ) where
  -- From every reachable state that is neither degraded nor closed, when nothing more is sent and
  -- no call of the operating system fails, more than 3 * (length of the queue) + 2 rounds of the
  -- worker leave in the file all entries put into the queue, behind those it was opened on, and
  -- the durable sequence number is the last of them (0 without).
  pub run_worker_writes :
      (old sent : List JournalEntry) (capacity batch_size n : ℕ) (j : AsyncJournal)
      → Reach crc (open_journal capacity batch_size (log_of crc old)) sent j
      → j.degraded ≡ false
      → j.closed ≡ false
      → 3 * length j.queue + 2 < n
      → ((run_worker n j).writer ≡ single (log_of crc (old ++ sent)))
        × ((run_worker n j).durable ≡ last_sequence 0 sent)
  run_worker_writes old sent capacity batch_size n j reach good unclosed enough =
      let k =
        CaughtUp-run_worker crc old capacity batch_size sent n j reach good
          (omega (arith, steps_left_le j.worker (length j.queue))) in
      let still = closed-run_worker n j ∙ unclosed in
      elim k.written [
        | inl ended ↦
            let runs =
              (UnclosedOf-Reach crc capacity batch_size (log_of crc old) sent (run_worker n j)
                k.reach still).runs in
            let failed : (run_worker n j).degraded ≡ true =
              subst (Runs (run_worker n j).degraded) ended runs in
            absurd (ground (arith, k.good, failed))
        | inr written ↦ written
      ]
