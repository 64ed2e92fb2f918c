-- ===== src/Journal/AsyncJournal/Durability.antt =====
-- What the file holds in every state that callers and worker can reach.
use mathlib.Core.List.{append-nil}
use match_x.Base.{
  ℕ, ◌≡◌, refl, sym, subst, List, [], ◌∷◌, ◌++◌, some, true, false, inl, inr, ltb, length,
  if◌then◌else◌, Bool-cases, Option-cases, arith,
}
use match_x.Journal.Reader.{JournalEntry}
use match_x.Journal.Scan.{log_of}
use match_x.Journal.Writer.{Answer, append_raw_batch}
use match_x.Journal.AsyncJournal.{
  WorkerMessage, append, shutdown, Worker, receiving, collecting, writing, exited, AsyncJournal,
  open_journal, receive, collect, finish_batch, worker_step, record_of, Step, begin, send, refuse,
  store, begin_close, send_shutdown, skip_shutdown, work, Reach, start, later,
}
use match_x.Journal.AsyncJournal.History.{try_send_ok}
use match_x.Journal.AsyncJournal.Invariant.{
  Inv, open_journal-Inv, Inv-send, Inv-send_shutdown, Inv-same,
}
use match_x.Journal.AsyncJournal.Invariant.Batch.{Inv-receive, Inv-collect, Inv-finish, Inv-degrade}

module _ (crc : List ℕ → ℕ) (old : List JournalEntry) where
  abbrev pub InvOf : List JournalEntry → AsyncJournal → Type 0
  InvOf sent j = Inv crc old sent j.queue j.worker j.writer j.durable j.degraded

  InvOf-worker_step :
      (sent : List JournalEntry) (os : List Answer) (j k : AsyncJournal) (w : Worker)
      (q : List WorkerMessage)
      → j.worker ≡ w
      → j.queue ≡ q
      → Inv crc old sent q w j.writer j.durable j.degraded
      → worker_step os j ≡ some k
      → InvOf sent k
  unfolding worker_step receive collect finish_batch
  InvOf-worker_step sent os j k receiving [] ew eq v h = absurd (ground arith)
  InvOf-worker_step sent os j k receiving (append r ∷ q) ew eq v h =
      let e : k ≡ record j { queue = q; worker = collecting (r.bytes ∷ []) r.sequence } =
        ground arith in
      subst (InvOf sent) (sym e) (Inv-receive crc old q r v)
  InvOf-worker_step sent os j k receiving (shutdown ∷ q) ew eq v h =
      let e : k ≡ record j { queue = q; worker = exited } = ground arith in
      subst (InvOf sent) (sym e) (Inv-same crc old (shutdown ∷ q) q refl v (λ d. v.held.1))
  InvOf-worker_step sent os j k (collecting b last) [] ew eq v h =
      let e : k ≡ record j { queue = []; worker = writing b last false } = ground arith in
      subst (InvOf sent) (sym e) (Inv-same crc old [] [] refl v v.held)
  InvOf-worker_step sent os j k (collecting b last) (append r ∷ q) ew eq v h =
      elim (Bool-cases (ltb (length b) j.batch_size)) [
        | inl room ↦
            let e : k ≡ record j { queue = q; worker = collecting (b ++ r.bytes ∷ []) r.sequence } =
              ground arith in
            subst (InvOf sent) (sym e) (Inv-collect crc old q r b last v)
        | inr full ↦
            let e : k ≡ record j { queue = append r ∷ q; worker = writing b last false } =
              ground arith in
            subst (InvOf sent) (sym e)
              (Inv-same crc old (append r ∷ q) (append r ∷ q) refl v v.held)
      ]
  InvOf-worker_step sent os j k (collecting b last) (shutdown ∷ q) ew eq v h =
      elim (Bool-cases (ltb (length b) j.batch_size)) [
        | inl room ↦
            let e : k ≡ record j { queue = q; worker = writing b last true } = ground arith in
            subst (InvOf sent) (sym e) (Inv-same crc old (shutdown ∷ q) q refl v v.held)
        | inr full ↦
            let e : k ≡ record j { queue = shutdown ∷ q; worker = writing b last false } =
              ground arith in
            subst (InvOf sent) (sym e)
              (Inv-same crc old (shutdown ∷ q) (shutdown ∷ q) refl v v.held)
      ]
  InvOf-worker_step sent os j k (writing b last x) q ew eq v h =
      elim (Option-cases (append_raw_batch os j.writer b).2) [
        | inl good ↦
            let e : k ≡ record j {
              queue = q;
              writer = (append_raw_batch os j.writer b).0;
              durable = last;
              worker = if x then exited else receiving;
            } =
              ground arith in
            subst (InvOf sent) (sym e) (Inv-finish crc old q b last x os v good)
        | inr (err, bad) ↦
            let e : k ≡ record j {
              queue = q;
              writer = (append_raw_batch os j.writer b).0;
              degraded = true;
              worker = exited;
            } =
              ground arith in
            subst (InvOf sent) (sym e) (Inv-degrade crc old q b last x os v)
      ]
  InvOf-worker_step sent os j k exited q ew eq v h = absurd (ground arith)

  InvOf-Step :
      (sent new : List JournalEntry) (j k : AsyncJournal)
      → Step crc j new k
      → InvOf sent j
      → InvOf (sent ++ new) k
  InvOf-Step sent _ j _ (begin e checks) v = rw (append-nil sent) v
  InvOf-Step sent _ j _ (send front back e k calls run) v =
      subst (λ (k : AsyncJournal). InvOf (sent ++ e ∷ []) k)
        (sym (try_send_ok j k (append (record_of crc e)) run))
        (Inv-send crc old j.queue j.worker e v)
  InvOf-Step sent _ j _ (refuse front back e x calls run) v = rw (append-nil sent) v
  InvOf-Step sent _ j _ (store front back sequence calls) v = rw (append-nil sent) v
  InvOf-Step sent _ j _ (begin_close first) v = rw (append-nil sent) v
  InvOf-Step sent _ j _ (send_shutdown front back k calls run) v = rw (append-nil sent) (
      subst (λ (k : AsyncJournal). InvOf sent k) (sym (try_send_ok j k shutdown run))
        (Inv-send_shutdown crc old j.queue v))
  InvOf-Step sent _ j _ (skip_shutdown front back calls run) v = rw (append-nil sent) v
  InvOf-Step sent _ j k (work os _ run) v =
      rw (append-nil sent) (InvOf-worker_step sent os j k j.worker j.queue refl refl v run)

  pub InvOf-Reach :
      (capacity batch_size : ℕ) (sent : List JournalEntry) (j : AsyncJournal)
      → Reach crc (open_journal capacity batch_size (log_of crc old)) sent j
      → InvOf sent j
  unfolding open_journal
  InvOf-Reach capacity batch_size _ _ start = open_journal-Inv crc old
  InvOf-Reach capacity batch_size _ _ (later {sent} {k} new l r step) =
      InvOf-Step sent new k l step (InvOf-Reach capacity batch_size sent k r)
