-- ===== src/Journal/AsyncJournal/Append.antt =====
-- crates/matchx-journal/src/async_journal.rs: `append` called by one thread, with the steps that the
-- worker takes between its accesses to what they share.
use mathlib.Core.List.{append-nil}
use match_x.Base.{
  ℕ, ◌≡◌, refl, sym, ◌∙◌, subst, List, [], ◌∷◌, ◌++◌, Option, none, some, inl, inr, arith,
}
use match_x.Journal.Outcome.{JournalError, Result, ok, err, out_of_fuel, Result-cases}
use match_x.Journal.Reader.{JournalEntry}
use match_x.Journal.Writer.{Answer}
use match_x.Journal.AsyncJournal.{
  append, Call, checked, queued, AsyncJournal, check_open, try_send, worker_step, record_of, Step,
  begin, send, refuse, store, work, Reach, later,
}
use match_x.Journal.AsyncJournal.Running.{closed-worker_step}

-- Where the worker has to wait, nothing changes.
abbrev after_step : AsyncJournal → Option AsyncJournal → AsyncJournal
after_step j none = j
after_step j (some k) = k

-- A step of the worker for each list of answers.
unfoldable pub run_steps : List (List Answer) → AsyncJournal → AsyncJournal
run_steps [] j = j
run_steps (os ∷ steps) j = run_steps steps (after_step j (worker_step os j))

module _ (crc : List ℕ → ℕ) where
  -- what follows the two tests; `calls` are the other calls
  unfoldable pub enqueue :
      List (List Answer)
      → AsyncJournal
      → List Call
      → JournalEntry
      → AsyncJournal × Result (Unit {0})
  unfolding run_steps
  enqueue later_steps j calls e = elim (try_send j (append (record_of crc e))) [
    | ok k ↦
        let l = run_steps later_steps (record k { calls = queued e.sequence ∷ calls }) in
        (record l { accepted = e.sequence; calls = calls }, ok tt)
    | err x ↦ (record j { calls = calls }, err x)
    | out_of_fuel ↦ (j, out_of_fuel)
  ]

  unfoldable pub append_entry :
      (steps later_steps : List (List Answer))
      → AsyncJournal
      → JournalEntry
      → AsyncJournal × Result (Unit {0})
  unfolding enqueue run_steps
  append_entry steps later_steps j e = elim (check_open j) [
    | ok _ ↦
        enqueue later_steps (run_steps steps (record j { calls = checked e ∷ j.calls })) j.calls e
    | err x ↦ (j, err x)
    | out_of_fuel ↦ (j, out_of_fuel)
  ]

  calls-after_step :
      (os : List Answer) (j : AsyncJournal) (o : Option AsyncJournal)
      → worker_step os j ≡ o
      → (after_step j o).calls ≡ j.calls
  calls-after_step os j none h = refl
  calls-after_step os j (some k) h = (closed-worker_step os j k j.worker j.queue refl refl h).1

  calls-run_steps :
      (steps : List (List Answer)) (j : AsyncJournal) → (run_steps steps j).calls ≡ j.calls
  unfolding run_steps
  calls-run_steps [] j = refl
  calls-run_steps (os ∷ steps) j =
      calls-run_steps steps (after_step j (worker_step os j))
      ∙ calls-after_step os j (worker_step os j) refl

  module _ (j0 : AsyncJournal) where
    still :
        {sent : List JournalEntry} {j k : AsyncJournal}
        → Reach crc j0 sent j
        → Step crc j [] k
        → Reach crc j0 sent k
    still {sent} {j} {k} r step =
        subst (λ es. Reach crc j0 es k) (append-nil sent) (later [] k r step)

    Reach-after_step :
        {sent : List JournalEntry} (os : List Answer) (j : AsyncJournal) (o : Option AsyncJournal)
        → Reach crc j0 sent j
        → worker_step os j ≡ o
        → Reach crc j0 sent (after_step j o)
    Reach-after_step os j none r h = r
    Reach-after_step os j (some k) r h = still r (work os k h)

    Reach-run_steps :
        {sent : List JournalEntry} (steps : List (List Answer)) (j : AsyncJournal)
        → Reach crc j0 sent j
        → Reach crc j0 sent (run_steps steps j)
    unfolding run_steps
    Reach-run_steps [] j r = r
    Reach-run_steps (os ∷ steps) j r =
        Reach-run_steps steps (after_step j (worker_step os j))
          (Reach-after_step os j (worker_step os j) r refl)

    Reach-enqueue :
        {sent : List JournalEntry} (steps : List (List Answer)) (j k : AsyncJournal)
        (calls : List Call) (e : JournalEntry)
        → Reach crc j0 sent j
        → j.calls ≡ checked e ∷ calls
        → enqueue steps j calls e ≡ (k, ok tt)
        → Reach crc j0 (sent ++ e ∷ []) k
    unfolding enqueue
    Reach-enqueue {sent} steps j k calls e r at run =
        elim (Result-cases (try_send j (append (record_of crc e)))) [
          | inl (l, sends) ↦
              let m : AsyncJournal = record l { calls = queued e.sequence ∷ calls } in
              let done : k ≡ record (run_steps steps m) { accepted = e.sequence; calls = calls } =
                ground arith in
              let queued_once = later (e ∷ []) m r (send [] calls e l at sends) in
              subst (λ k. Reach crc j0 (sent ++ e ∷ []) k) (sym done)
                (still (Reach-run_steps steps m queued_once)
                  (store [] calls e.sequence (calls-run_steps steps m)))
          | inr (inl (x, full)) ↦ absurd (ground arith)
          | inr (inr out) ↦ absurd (ground arith)
        ]

    pub Reach-append_entry :
        {sent : List JournalEntry} (steps later_steps : List (List Answer)) (j k : AsyncJournal)
        (e : JournalEntry)
        → Reach crc j0 sent j
        → append_entry steps later_steps j e ≡ (k, ok tt)
        → Reach crc j0 (sent ++ e ∷ []) k
    unfolding append_entry
    Reach-append_entry steps later_steps j k e r run = elim (Result-cases (check_open j)) [
      | inl (_, clear) ↦
          let m : AsyncJournal = record j { calls = checked e ∷ j.calls } in
          Reach-enqueue later_steps (run_steps steps m) k j.calls e
            (Reach-run_steps steps m (still r (begin e clear))) (calls-run_steps steps m)
            (ground arith)
      | inr (inl (x, shut)) ↦ absurd (ground arith)
      | inr (inr out) ↦ absurd (ground arith)
    ]

    refused_enqueue :
        {sent : List JournalEntry} (steps : List (List Answer)) (j k : AsyncJournal)
        (calls : List Call) (e : JournalEntry) (x : JournalError)
        → Reach crc j0 sent j
        → j.calls ≡ checked e ∷ calls
        → enqueue steps j calls e ≡ (k, err x)
        → Reach crc j0 sent k
    unfolding enqueue
    refused_enqueue {sent} steps j k calls e x r at run =
        elim (Result-cases (try_send j (append (record_of crc e)))) [
          | inl (l, sends) ↦ absurd (ground arith)
          | inr (inl (y, full)) ↦
              let done : k ≡ record j { calls = calls } = ground arith in
              subst (λ k. Reach crc j0 sent k) (sym done) (still r (refuse [] calls e y at full))
          | inr (inr out) ↦ absurd (ground arith)
        ]

    pub Reach-append_entry_refused :
        {sent : List JournalEntry} (steps later_steps : List (List Answer)) (j k : AsyncJournal)
        (e : JournalEntry) (x : JournalError)
        → Reach crc j0 sent j
        → append_entry steps later_steps j e ≡ (k, err x)
        → Reach crc j0 sent k
    unfolding append_entry
    Reach-append_entry_refused {sent} steps later_steps j k e x r run =
        elim (Result-cases (check_open j)) [
          | inl (_, clear) ↦
              let m : AsyncJournal = record j { calls = checked e ∷ j.calls } in
              refused_enqueue later_steps (run_steps steps m) k j.calls e x
                (Reach-run_steps steps m (still r (begin e clear))) (calls-run_steps steps m)
                (ground arith)
          | inr (inl (y, shut)) ↦
              let done : k ≡ j = ground arith in subst (λ k. Reach crc j0 sent k) (sym done) r
          | inr (inr out) ↦ absurd (ground arith)
        ]
