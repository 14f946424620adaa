-- ===== src/PriceLevels.antt =====
-- src/price_levels.rs: one side of the book, a map from prices to levels with the best price cached.
pub mod Best
pub mod Changes
use rustbook.Prelude.{
  ℕ, Bool, true, false, if◌then◌else◌, List, [], ◌∷◌, Option, none, some, Run, done, panicked,
  ◌>>=◌, length, ltb_ℤ, eqb_ℤ,
}
use mathlib.Core.List.{reverse}
use rustbook.Prelude.BTreeMap
use rustbook.Prelude.BTreeMap.{BTreeMap}
use rustbook.Types.{Price, Quantity, OrderId, Side, buy, sell, wrapping_add}
use rustbook.Level
use rustbook.Level.{Level, new_level}

pub record PriceLevels : Type 0 where
  pub levels : BTreeMap Level
  pub best_price : Option Price
  pub side : Side

-- `PriceLevels::new`.
unfoldable pub new_levels : Side → PriceLevels
new_levels side = record { levels = []; best_price = none; side = side }

-- `recompute_best_price`: the largest key of the bids, the smallest of the asks.
unfoldable pub best_key : Side → BTreeMap Level → Option Price
best_key buy levels = BTreeMap.last_key levels
best_key sell levels = BTreeMap.first_key levels

unfoldable pub recompute_best_price : PriceLevels → PriceLevels
unfolding best_key
recompute_best_price ps = record ps { best_price = best_key ps.side ps.levels }

-- Whether a new price beats the current best one.
unfoldable pub is_better : Side → Price → Price → Bool
is_better buy new_price current_best = ltb_ℤ current_best new_price
is_better sell new_price current_best = ltb_ℤ new_price current_best

unfoldable pub best_after_insert : Side → Price → Option Price → Option Price
unfolding is_better
best_after_insert side new_price none = some new_price
best_after_insert side new_price (some current_best) =
    if is_better side new_price current_best then some new_price else some current_best

unfoldable pub update_best_price_after_insert : PriceLevels → Price → PriceLevels
unfolding best_after_insert
update_best_price_after_insert ps new_price = record ps {
  best_price = best_after_insert ps.side new_price ps.best_price;
}

-- The level at the price, made if there is none, and the levels that hold it.
unfoldable pub get_or_create_level : PriceLevels → Price → PriceLevels × Level
unfolding update_best_price_after_insert new_level
get_or_create_level ps price = elim (BTreeMap.get ps.levels price) [
  | some level ↦ (ps, level)
  | none ↦ (
    record (update_best_price_after_insert ps price) {
      levels = BTreeMap.insert ps.levels price (new_level price);
    },
    new_level price,
  )
]

-- A write through the reference that `get_level_mut` gives.
unfoldable pub put_level : PriceLevels → Price → Level → PriceLevels
put_level ps price level = record ps { levels = BTreeMap.insert ps.levels price level }

-- `insert_order`: the levels with the order at the back of its queue, and its place there.
unfoldable pub insert_order : PriceLevels → Price → OrderId → Quantity → Run (PriceLevels × ℕ)
unfolding get_or_create_level put_level
insert_order ps price order_id quantity =
    let (ps', level) = get_or_create_level ps price in
    Level.push_back level order_id quantity >>= λ level'.
    done (put_level ps' price level', length level.orders)

unfoldable pub remove_level : PriceLevels → Price → PriceLevels
unfolding recompute_best_price
remove_level ps price = elim (BTreeMap.get ps.levels price) [
  | none ↦ ps
  | some level ↦
      let rest = record ps { levels = BTreeMap.remove ps.levels price } in
      elim ps.best_price [
        | none ↦ rest
        | some best ↦ if eqb_ℤ best price then recompute_best_price rest else rest
      ]
]

-- A level that was written, removed if nothing is left in it.
unfoldable pub settle_level : PriceLevels → Price → Level → PriceLevels
unfolding put_level remove_level
settle_level ps price level =
    if Level.is_empty level
    then remove_level (put_level ps price level) price
    else put_level ps price level

unfoldable pub mark_tombstone : PriceLevels → Price → ℕ → Quantity → PriceLevels
unfolding settle_level
mark_tombstone ps price index quantity = elim (BTreeMap.get ps.levels price) [
  | none ↦ ps
  | some level ↦ settle_level ps price (Level.mark_tombstone level index quantity)
]

unfoldable pub compact_levels : BTreeMap Level → BTreeMap Level
compact_levels [] = []
compact_levels ((price, level) ∷ rest) = (price, Level.compact level) ∷ compact_levels rest

unfoldable pub compact : PriceLevels → PriceLevels
unfolding compact_levels
compact ps = record ps { levels = compact_levels ps.levels }

unfoldable pub remove_order : PriceLevels → Price → OrderId → Quantity → PriceLevels × Bool
unfolding settle_level
remove_order ps price order_id quantity = elim (BTreeMap.get ps.levels price) [
  | none ↦ (ps, false)
  | some level ↦
      let (level', found) = Level.remove level order_id quantity in
      if found then (settle_level ps price level', true) else (ps, false)
]

unfoldable pub pop_best_level : PriceLevels → PriceLevels × Option Level
unfolding recompute_best_price
pop_best_level ps = elim ps.best_price [
  | none ↦ (ps, none)
  | some price ↦ (
    recompute_best_price (record ps { levels = BTreeMap.remove ps.levels price }),
    BTreeMap.get ps.levels price,
  )
]

-- The quantities of some levels, added as `u64` numbers.
unfoldable pub sum_quantities : BTreeMap Level → Quantity
sum_quantities [] = 0
sum_quantities ((price, level) ∷ rest) = wrapping_add level.total_quantity (sum_quantities rest)

unfoldable pub total_quantity : PriceLevels → Quantity
unfolding sum_quantities
total_quantity ps = sum_quantities ps.levels

-- The levels at the price or a better one.
unfoldable pub at_or_better : Side → BTreeMap Level → Price → BTreeMap Level
at_or_better buy levels price = BTreeMap.range_from levels price
at_or_better sell levels price = BTreeMap.range_to levels price

unfoldable pub quantity_at_or_better : PriceLevels → Price → Quantity
unfolding at_or_better sum_quantities
quantity_at_or_better ps price = sum_quantities (at_or_better ps.side ps.levels price)

-- `iter_best_to_worst`: the levels in the order in which an opposite order meets them.
unfoldable pub best_to_worst : Side → BTreeMap Level → List (Price × Level)
best_to_worst buy levels = reverse levels
best_to_worst sell levels = levels

unfoldable pub iter_best_to_worst : PriceLevels → List (Price × Level)
unfolding best_to_worst
iter_best_to_worst ps = best_to_worst ps.side ps.levels
