-- ===== src/Trade.antt =====
-- src/trade.rs: a completed trade, and the average price of a series of trades.
pub mod Average
use rustbook.Prelude.{
  ℕ, ℤ, pos, ◌+ℤ◌, ◌*ℤ◌, ◌==◌, if◌then◌else◌, List, [], ◌∷◌, Option, none, some, Run, done, ◌>>=◌,
}
use rustbook.Types.{
  Price, Quantity, Timestamp, OrderId, TradeId, Side, opposite, as_i64, wrap_i64, wrapping_add,
  div_i64,
}

pub record Trade : Type 0 where
  pub id : TradeId
  pub price : Price
  pub quantity : Quantity
  pub aggressor_order_id : OrderId
  pub passive_order_id : OrderId
  pub aggressor_side : Side
  pub timestamp : Timestamp

unfoldable pub passive_side : Trade → Side
unfolding opposite
passive_side t = opposite t.aggressor_side

unfoldable pub notional : Trade → ℤ
notional t = wrap_i64 (t.price *ℤ as_i64 t.quantity)

-- The two sums.
unfoldable pub total_quantity : List Trade → ℕ
total_quantity [] = 0
total_quantity (t ∷ ts) = wrapping_add t.quantity (total_quantity ts)

unfoldable pub total_notional : List Trade → ℤ
unfolding notional
total_notional [] = pos 0
total_notional (t ∷ ts) = wrap_i64 (notional t +ℤ total_notional ts)

-- The mean of trades that are not none.
unfoldable pub mean_price : List Trade → Run (Option Price)
unfolding total_quantity total_notional div_i64
mean_price ts =
    if total_quantity ts == 0
    then done none
    else (div_i64 (total_notional ts) (as_i64 (total_quantity ts)) >>= λ p. done (some p))

unfoldable pub vwap : List Trade → Run (Option Price)
unfolding mean_price
vwap [] = done none
vwap (t ∷ ts) = mean_price (t ∷ ts)
