-- ===== src/Snapshot.antt =====
-- src/snapshot.rs: a view of the best levels of a book. The averages in floating point are left out.
pub mod Ranking
pub mod Views
use rustbook.Prelude.{ℕ, ◌^◌, ◌-◌, List, [], ◌∷◌, map, Option, none, some, ℤ, ◌-ℤ◌, take}
use rustbook.Types.{Price, Quantity, Timestamp, wrapping_add, wrap_i64}
use rustbook.Level
use rustbook.Level.{Level}
use rustbook.PriceLevels.{PriceLevels, iter_best_to_worst}
use rustbook.Book.{OrderBook, peek_next_order_id}

pub record LevelSnapshot : Type 0 where
  pub price : Price
  pub quantity : Quantity
  pub order_count : ℕ

pub record BookSnapshot : Type 0 where
  pub bids : List LevelSnapshot
  pub asks : List LevelSnapshot
  pub timestamp : Timestamp

unfoldable pub first_price : List LevelSnapshot → Option Price
first_price [] = none
first_price (l ∷ ls) = some l.price

-- `BookSnapshot::best_bid` and `BookSnapshot::best_ask`.
unfoldable pub best_bid : BookSnapshot → Option Price
unfolding first_price
best_bid s = first_price s.bids

unfoldable pub best_ask : BookSnapshot → Option Price
unfolding first_price
best_ask s = first_price s.asks

unfoldable pub gap : Option Price → Option Price → Option ℤ
gap none ask = none
gap (some bid) none = none
gap (some bid) (some ask) = some (wrap_i64 (ask -ℤ bid))

unfoldable pub spread : BookSnapshot → Option ℤ
unfolding best_bid best_ask gap
spread s = gap (best_bid s) (best_ask s)

unfoldable pub sum_quantity : List LevelSnapshot → Quantity
sum_quantity [] = 0
sum_quantity (l ∷ ls) = wrapping_add l.quantity (sum_quantity ls)

unfoldable pub total_bid_quantity : BookSnapshot → Quantity
unfolding sum_quantity
total_bid_quantity s = sum_quantity s.bids

unfoldable pub total_ask_quantity : BookSnapshot → Quantity
unfolding sum_quantity
total_ask_quantity s = sum_quantity s.asks

unfoldable pub level_snapshot : Price × Level → LevelSnapshot
level_snapshot (price, level) = record {
  price = price;
  quantity = level.total_quantity;
  order_count = Level.order_count level;
}

unfoldable pub snapshot_levels : PriceLevels → ℕ → List LevelSnapshot
unfolding iter_best_to_worst level_snapshot
snapshot_levels levels depth = map level_snapshot (take depth (iter_best_to_worst levels))

unfoldable pub snapshot : OrderBook → ℕ → BookSnapshot
unfolding snapshot_levels peek_next_order_id
snapshot b depth = record {
  bids = snapshot_levels b.bids depth;
  asks = snapshot_levels b.asks depth;
  timestamp = peek_next_order_id b;
}

-- `full_snapshot`, with `usize::MAX` levels.
unfoldable pub full_snapshot : OrderBook → BookSnapshot
unfolding snapshot
full_snapshot b = snapshot b (2 ^ 64 - 1)
