-- ===== src/Matching.antt =====
-- src/matching.rs: an incoming order is matched against the opposite side of the book. The two
-- loops run on fuel, of which `rounds` is the amount.
pub mod Fills
pub mod Levels
pub mod Slots
pub mod Rounds
pub mod Progress
pub mod Kept
pub mod Termination
pub mod Total
pub mod Accounts
use rustbook.Prelude.{
  ℕ, zero, suc, ◌+◌, min, ◌==◌, leb, leb_ℤ, Bool, true, false, if◌then◌else◌, List, [], ◌∷◌, ◌++◌,
  Option, none, some, Run, done, out_of_fuel, ◌>>=◌, length,
}
use rustbook.Prelude.HashMap
use rustbook.Prelude.BTreeMap
use rustbook.Prelude.BTreeMap.{BTreeMap}
use rustbook.Types.{Price, Quantity, OrderId, Side, buy, sell, opposite, wrapping_add}
use rustbook.Order.{Order, fill}
use rustbook.Trade.{Trade}
use rustbook.Level
use rustbook.Level.{Level}
use rustbook.PriceLevels.{PriceLevels, put_level, settle_level, quantity_at_or_better}
use rustbook.Book.{OrderBook, opposite_side, put_side, next_trade_id, next_timestamp, get_order}

pub record MatchResult : Type 0 where
  pub trades : List Trade
  pub remaining_quantity : Quantity

-- The quantities of some trades, added as `u64` numbers.
unfoldable pub sum_trades : List Trade → Quantity
sum_trades [] = 0
sum_trades (t ∷ ts) = wrapping_add t.quantity (sum_trades ts)

-- `MatchResult::filled_quantity`.
unfoldable pub filled_quantity : MatchResult → Quantity
unfolding sum_trades
filled_quantity r = sum_trades r.trades

unfoldable pub prices_cross : Side → Price → Price → Bool
prices_cross buy incoming_price resting_price = leb_ℤ resting_price incoming_price
prices_cross sell incoming_price resting_price = leb_ℤ incoming_price resting_price

-- The book with the opposite side's level at the price changed, if it is there.
unfoldable pub edit_level :
    OrderBook → Side → Price → (PriceLevels → Level → PriceLevels) → OrderBook
unfolding opposite_side put_side
edit_level b side price edit = elim (BTreeMap.get (opposite_side b side).levels price) [
  | none ↦ b
  | some level ↦ put_side b (opposite side) (edit (opposite_side b side) level)
]

-- `get_level_mut(price).and_then(|l| l.front())`.
unfoldable pub front_at : OrderBook → Side → Price → OrderBook × Option OrderId
unfolding edit_level
front_at b side price = elim (BTreeMap.get (opposite_side b side).levels price) [
  | none ↦ (b, none)
  | some level ↦ (
    edit_level b side price (λ ps l. put_level ps price (Level.front l).0),
    (Level.front level).1,
  )
]

-- The level once the order at its front has been filled, wholly or in part.
unfoldable pub after_trade : OrderBook → Side → Price → Quantity → Bool → OrderBook
unfolding edit_level
after_trade b side price quantity true =
    edit_level b side price (λ ps l. settle_level ps price (Level.pop_front l quantity).0)
after_trade b side price quantity false =
    edit_level b side price (λ ps l. put_level ps price (Level.decrease_quantity l quantity))

-- How a round of the inner loop ends: it leaves the loop, or goes on.
pub data Round : Type 0 where
  leaves : OrderBook → Round
  goes_on : OrderBook → Order → List Trade → Round

unfoldable pub make_trade : OrderBook → Order → Price → OrderId → Quantity → OrderBook × Trade
unfolding next_trade_id next_timestamp
make_trade b incoming price resting_id quantity =
    let (b', id) = next_trade_id b in
    let (b'', timestamp) = next_timestamp b' in
    (
      b'',
      record {
        id = id;
        price = price;
        quantity = quantity;
        aggressor_order_id = incoming.id;
        passive_order_id = resting_id;
        aggressor_side = incoming.side;
        timestamp = timestamp;
      },
    )

-- A round that has found the resting order.
unfoldable pub trade_round : OrderBook → Order → Price → List Trade → OrderId → Order → Run Round
unfolding make_trade after_trade
trade_round b incoming price trades resting_id resting =
    let quantity = min incoming.remaining_quantity resting.remaining_quantity in
    let (b', trade) = make_trade b incoming price resting_id quantity in
    fill incoming quantity >>= λ incoming'. fill resting quantity >>= λ resting'. done (
      goes_on
        (after_trade (record b' { orders = HashMap.insert b'.orders resting_id resting' })
          incoming.side price quantity (resting'.remaining_quantity == 0))
        incoming' (trades ++ trade ∷ []))

-- A round once the front of the level has been read: it leaves the loop if there is no order, drops
-- an id without an order, and trades with any other.
unfoldable pub after_front : Order → Price → List Trade → OrderBook × Option OrderId → Run Round
unfolding edit_level get_order trade_round
after_front incoming price trades (b, none) = done (leaves b)
after_front incoming price trades (b, some resting_id) = elim (get_order b resting_id) [
  | none ↦ done (
      goes_on
        (edit_level b incoming.side price (λ ps l. put_level ps price (Level.pop_front l 0).0))
        incoming trades)
  | some resting ↦ trade_round b incoming price trades resting_id resting
]

-- A round of `match_at_price`, after its test.
unfoldable pub match_round : OrderBook → Order → Price → List Trade → Run Round
unfolding front_at after_front
match_round b incoming price trades =
    after_front incoming price trades (front_at b incoming.side price)

unfoldable pub match_at_price :
    ℕ → OrderBook → Order → Price → List Trade → Run (OrderBook × Order × List Trade)
match_at_price zero b incoming price trades = out_of_fuel
match_at_price (suc fuel) b incoming price trades =
    if incoming.remaining_quantity == 0
    then done (b, incoming, trades)
    else (match_round b incoming price trades >>= elim [
      | leaves b' ↦ done (b', incoming, trades)
      | goes_on b' incoming' trades' ↦ match_at_price fuel b' incoming' price trades'
    ])

-- The loop of `match_order`, with the fuel of each inner loop.
unfoldable pub match_loop :
    ℕ → ℕ → OrderBook → Order → List Trade → Run (OrderBook × Order × List Trade)
match_loop inner zero b incoming trades = out_of_fuel
match_loop inner (suc fuel) b incoming trades =
    if incoming.remaining_quantity == 0
    then done (b, incoming, trades)
    else elim (opposite_side b incoming.side).best_price [
      | none ↦ done (b, incoming, trades)
      | some best_price ↦
          if prices_cross incoming.side incoming.price best_price
          then (match_at_price inner b incoming best_price trades >>= λ r.
              match_loop inner fuel r.0 r.1 r.2)
          else done (b, incoming, trades)
    ]

-- The slots of some levels.
unfoldable pub slots : BTreeMap Level → ℕ
slots [] = 0
slots ((price, level) ∷ rest) = length level.orders + slots rest

unfoldable pub rounds : PriceLevels → ℕ
unfolding slots
rounds ps = slots ps.levels + 2

-- `match_order`: the book, the incoming order and the result.
unfoldable pub match_order : OrderBook → Order → Run (OrderBook × Order × MatchResult)
unfolding match_loop rounds
match_order b incoming =
    let fuel = rounds (opposite_side b incoming.side) in
    match_loop fuel fuel b incoming [] >>= λ r.
    done (r.0, r.1, record { trades = r.2; remaining_quantity = r.1.remaining_quantity })

unfoldable pub available_to_fill : OrderBook → Side → Price → Quantity
available_to_fill b side price = quantity_at_or_better (opposite_side b side) price

unfoldable pub can_fully_fill : OrderBook → Side → Price → Quantity → Bool
unfolding available_to_fill
can_fully_fill b side price quantity = leb quantity (available_to_fill b side price)
