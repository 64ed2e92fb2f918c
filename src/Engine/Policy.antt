-- ===== src/Engine/Policy.antt =====
-- crates/matchx-engine/src/policy.rs: price-time priority.
use match_x.Base.{
  ℕ, zero, suc, ◌-◌, min, ◌==◌, leb, if◌then◌else◌, Bool, Option, none, some, List, [], ◌∷◌, Exec,
  ok, out_of_fuel, ◌>>=◌,
}
use match_x.Types.{OrderId, ArenaIndex, Side, bid, ask, remaining}
use match_x.Arena
use match_x.Arena.{Arena}
use match_x.Book.Remove.{link}

pub record Fill : Type 0 where
  pub maker_idx : ArenaIndex
  pub maker_id : OrderId
  pub taker_id : OrderId
  pub price : ℕ
  pub qty : ℕ

unfoldable pub is_price_acceptable : Side → ℕ → ℕ → Bool
is_price_acceptable bid incoming_price resting_price = leb resting_price incoming_price
is_price_acceptable ask incoming_price resting_price = leb incoming_price resting_price

-- `match_order`: the fills in the order in which the sink receives them, and what remains. The walk
-- follows the `next` links of the arena, which it does not change.
unfoldable pub match_order : ℕ → OrderId → ℕ → ℕ → Option ArenaIndex → Arena → Exec (List Fill × ℕ)
match_order zero taker_id left price cursor arena = out_of_fuel
match_order (suc fuel) taker_id left price none arena = ok ([], left)
match_order (suc fuel) taker_id left price (some maker_idx) arena =
    if left == 0 then ok ([], left) else (do
      maker ← Arena.get arena maker_idx
      let qty = min left (remaining maker)
      (fills, rest) ← match_order fuel taker_id (left - qty) price (link maker.next) arena
      ok (
        record {
          maker_idx = maker_idx;
          maker_id = maker.id;
          taker_id = taker_id;
          price = price;
          qty = qty;
        }
            ∷ fills,
        rest,
      ))
