-- ===== src/Engine/Stops/Sorted.antt =====
-- The queues of stop orders stay in the order of their triggers.
use match_x.Base.{
  ℕ, zero, suc, ◌≤◌, ◌≡◌, refl, ltb, leb, if◌then◌else◌, Bool, true, false, List, [], ◌∷◌, ok,
  arith,
}
use match_x.Types.{MatchEvent, Command, new_order, cancel_order, modify_order}
use match_x.Book.State.{IndexMap}
use match_x.Book.SparseIndex.{partition_point, insert_at}
use match_x.Engine.State.{MatchingEngine, StopEntry}
use match_x.Engine.Request.{Request, queue_stop, process_stop_limit}
use match_x.Engine.Orders.{process_post_only, process_new_order, process_cancel, process_modify}
use match_x.Engine.Stops.{drain_bids, drain_asks, drain_loop, drain_stop_triggers}
use match_x.Engine.Stops.Kept.{
  emit-StopsKept, emit_level-StopsKept, emit_rejected-StopsKept, accept-StopsKept,
  rest_order-StopsKept, process_limit-StopsKept,
}
use match_x.Engine.Stops.Drain.{fire_stop-StopsKept, drain_asks-keeps_bids, drain_bids-keeps_asks}
use match_x.Engine.Process.{dispatch, process}

-- the triggers ascend from `lo` on
unfoldable pub ascends : ℕ → List (ℕ × StopEntry) → Bool
ascends lo [] = true
ascends lo ((px, s) ∷ rest) = if leb lo px then ascends px rest else false

-- the triggers descend from `hi` on
unfoldable pub descends : ℕ → List (ℕ × StopEntry) → Bool
descends hi [] = true
descends hi ((px, s) ∷ rest) = if leb px hi then descends px rest else false

-- the queue of sell stops, whose first trigger is the highest
unfoldable pub descending : List (ℕ × StopEntry) → Bool
descending [] = true
descending ((px, s) ∷ rest) = descends px rest

ascends_weaken :
    (lo px : ℕ) (xs : List (ℕ × StopEntry)) → lo ≤ px → ascends px xs ≡ true → ascends lo xs ≡ true
unfolding ascends
ascends_weaken lo px [] h a = refl
ascends_weaken lo px (x ∷ xs) h a = ground arith

ascends-insert_at :
    (lo px : ℕ) (s : StopEntry) (xs : List (ℕ × StopEntry))
    → lo ≤ px
    → ascends lo xs ≡ true
    → ascends lo (insert_at (partition_point (λ t. ltb t.0 px) xs) (px, s) xs) ≡ true
unfolding ascends
ascends-insert_at lo px s [] h a = ground arith
ascends-insert_at lo px s ((q, t) ∷ xs) h a = ground (arith, ascends-insert_at q px s xs)

descends-insert_at :
    (hi px : ℕ) (s : StopEntry) (xs : List (ℕ × StopEntry))
    → px ≤ hi
    → descends hi xs ≡ true
    → descends hi (insert_at (partition_point (λ t. ltb px t.0) xs) (px, s) xs) ≡ true
unfolding descends
descends-insert_at hi px s [] h a = ground arith
descends-insert_at hi px s ((q, t) ∷ xs) h a = ground (arith, descends-insert_at q px s xs)

descending-insert_at :
    (px : ℕ) (s : StopEntry) (xs : List (ℕ × StopEntry))
    → descending xs ≡ true
    → descending (insert_at (partition_point (λ t. ltb px t.0) xs) (px, s) xs) ≡ true
unfolding descending descends
descending-insert_at px s [] a = refl
descending-insert_at px s ((q, t) ∷ xs) a = ground (arith, descends-insert_at q px s xs)

descends-descending :
    (hi : ℕ) (xs : List (ℕ × StopEntry)) → descends hi xs ≡ true → descending xs ≡ true
unfolding descending descends
descends-descending hi [] a = refl
descends-descending hi (x ∷ xs) a = ground arith

module _ {M : Type 0} ⦃map : IndexMap M⦄ where
  ascends-process_new_order :
      (e e' : MatchingEngine M) (r : Request)
      → process_new_order e r ≡ ok e'
      → ascends 0 e.stop_bids ≡ true
      → ascends 0 e'.stop_bids ≡ true
  unfolding process_new_order process_post_only process_stop_limit queue_stop
  ascends-process_new_order e e' r h a = grind (
    arith,
    rest_order-StopsKept,
    accept-StopsKept,
    emit_rejected-StopsKept,
    process_limit-StopsKept,
    ascends-insert_at 0,
  )

  ascends-drain_bids :
      (fuel : ℕ) (e e' : MatchingEngine M) (p : ℕ)
      → drain_bids fuel e p ≡ ok e'
      → ascends 0 e.stop_bids ≡ true
      → ascends 0 e'.stop_bids ≡ true
  unfolding drain_bids ascends
  ascends-drain_bids zero e e' p h a = absurd (ground arith)
  ascends-drain_bids (suc fuel) e e' p h a =
      grind (arith, fire_stop-StopsKept, ascends_weaken 0, ascends-drain_bids fuel)

  ascends-drain_loop :
      (fuel : ℕ) (e e' : MatchingEngine M)
      → drain_loop fuel e ≡ ok e'
      → ascends 0 e.stop_bids ≡ true
      → ascends 0 e'.stop_bids ≡ true
  unfolding drain_loop
  ascends-drain_loop zero e e' h a = absurd (ground arith)
  ascends-drain_loop (suc fuel) e e' h a =
      grind (arith, ascends-drain_bids, drain_asks-keeps_bids, ascends-drain_loop fuel)

  ascends-dispatch :
      (e e' : MatchingEngine M) (cmd : Command)
      → dispatch e cmd ≡ ok e'
      → ascends 0 e.stop_bids ≡ true
      → ascends 0 e'.stop_bids ≡ true
  unfolding dispatch process_cancel process_modify
  ascends-dispatch e e' (new_order id instrument side price qty type tif visible stop stp) h a =
      ascends-process_new_order e e' _ h a
  ascends-dispatch e e' (cancel_order id) h a =
      grind (arith, emit-StopsKept, emit_level-StopsKept, emit_rejected-StopsKept)
  ascends-dispatch e e' (modify_order id price qty) h a = grind (
    arith, emit-StopsKept, emit_level-StopsKept, emit_rejected-StopsKept, ascends-process_new_order,
  )

  descending-process_new_order :
      (e e' : MatchingEngine M) (r : Request)
      → process_new_order e r ≡ ok e'
      → descending e.stop_asks ≡ true
      → descending e'.stop_asks ≡ true
  unfolding process_new_order process_post_only process_stop_limit queue_stop
  descending-process_new_order e e' r h a = grind (
    arith, rest_order-StopsKept, accept-StopsKept, emit_rejected-StopsKept, process_limit-StopsKept,
    descending-insert_at,
  )

  descending-drain_asks :
      (fuel : ℕ) (e e' : MatchingEngine M) (p : ℕ)
      → drain_asks fuel e p ≡ ok e'
      → descending e.stop_asks ≡ true
      → descending e'.stop_asks ≡ true
  unfolding drain_asks descending
  descending-drain_asks zero e e' p h a = absurd (ground arith)
  descending-drain_asks (suc fuel) e e' p h a =
      grind (arith, fire_stop-StopsKept, descends-descending, descending-drain_asks fuel)

  descending-drain_loop :
      (fuel : ℕ) (e e' : MatchingEngine M)
      → drain_loop fuel e ≡ ok e'
      → descending e.stop_asks ≡ true
      → descending e'.stop_asks ≡ true
  unfolding drain_loop
  descending-drain_loop zero e e' h a = absurd (ground arith)
  descending-drain_loop (suc fuel) e e' h a =
      grind (arith, descending-drain_asks, drain_bids-keeps_asks, descending-drain_loop fuel)

  descending-dispatch :
      (e e' : MatchingEngine M) (cmd : Command)
      → dispatch e cmd ≡ ok e'
      → descending e.stop_asks ≡ true
      → descending e'.stop_asks ≡ true
  unfolding dispatch process_cancel process_modify
  descending-dispatch e e' (new_order id instrument side price qty type tif visible stop stp) h a =
      descending-process_new_order e e' _ h a
  descending-dispatch e e' (cancel_order id) h a =
      grind (arith, emit-StopsKept, emit_level-StopsKept, emit_rejected-StopsKept)
  descending-dispatch e e' (modify_order id price qty) h a = grind (
    arith, emit-StopsKept, emit_level-StopsKept, emit_rejected-StopsKept,
    descending-process_new_order,
  )

  -- Both queues of stop orders are in the order of their triggers.
  abbrev pub StopsSorted : MatchingEngine M → Type 0
  StopsSorted e = (ascends 0 e.stop_bids ≡ true) × (descending e.stop_asks ≡ true)

  -- When `process` returns, the stop queues are sorted if they were before: the buy stops ascend
  -- and the sell stops descend by trigger.
  pub process-StopsSorted :
      (e : MatchingEngine M) (cmd : Command) (r : MatchingEngine M × List MatchEvent)
      → process e cmd ≡ ok r
      → StopsSorted e
      → StopsSorted r.0
  unfolding process drain_stop_triggers
  process-StopsSorted e cmd r h sorted =
      grind
        (arith, ascends-dispatch, ascends-drain_loop, descending-dispatch, descending-drain_loop)
