-- ===== src/Rebalancer/Diff.antt =====
-- rebalancer/src/diff.rs: the orders that lead from current positions to target weights. Positions and
-- prices are `i64`; the fixed texts of an order are a data type; a weight is of a type `W` that is
-- left open, and `target_value` stands for `(equity_cents as f64 * weight) as i64`.
pub mod Directions
pub mod Limits
pub mod Tracking
pub mod Orders
use rustbook.Prelude.{
  ℕ, ◌+◌, ◌/◌, ℤ, pos, negsuc, ◌+ℤ◌, ◌-ℤ◌, ◌*ℤ◌, ltb_ℤ, leb_ℤ, eqb_ℤ, sub_ℕ, ◌&&◌, Bool, true,
  false, if◌then◌else◌, List, [], ◌∷◌, ◌++◌, Option, none, some, map, not, pos_part,
}
use rustbook.Types.{wrap_i64, div_trunc}
use rustbook.Symbol.{Symbol, eqb_symbol}
use rustbook.Stop.Trailing.{abs_i64}

pub data Action : Type 0 where
  buy sell sell_short buy_cover : Action

-- The descriptions: "open" (`open_long`), "open short", "increase", "decrease", "flip to short",
-- "decrease short", "flip to long", "increase short", "rebalance", "close long" and "close short".
pub data Description : Type 0 where
  open_long open_short increase decrease flip_to_short decrease_short flip_to_long increase_short :
      Description
  rebalance close_long close_short : Description

-- The arms of the match, in their order.
unfoldable pub classify_trade : ℤ → ℤ → Action × Description
classify_trade c d =
    if eqb_ℤ c (pos 0) && ltb_ℤ (pos 0) d
    then (buy, open_long)
    else if eqb_ℤ c (pos 0) && ltb_ℤ d (pos 0)
    then (sell_short, open_short)
    else if ltb_ℤ (pos 0) c && ltb_ℤ (pos 0) d
    then (buy, increase)
    else if ltb_ℤ (pos 0) c && ltb_ℤ d (pos 0) && leb_ℤ (abs_i64 d) c
    then (sell, decrease)
    else if ltb_ℤ (pos 0) c && ltb_ℤ d (pos 0) && ltb_ℤ c (abs_i64 d)
    then (sell, flip_to_short)
    else if ltb_ℤ c (pos 0) && ltb_ℤ (pos 0) d && leb_ℤ d (abs_i64 c)
    then (buy_cover, decrease_short)
    else if ltb_ℤ c (pos 0) && ltb_ℤ (pos 0) d && ltb_ℤ (abs_i64 c) d
    then (buy_cover, flip_to_long)
    else if ltb_ℤ c (pos 0) && ltb_ℤ d (pos 0)
    then (sell_short, increase_short)
    else (buy, rebalance)

unfoldable pub compute_limit_price : ℤ → Bool → ℕ → ℤ
unfolding ◌*ℤ◌ ◌+ℤ◌ ◌-ℤ◌
compute_limit_price mid_cents is_sell offset_bps =
    let offset = div_trunc (wrap_i64 (mid_cents *ℤ pos offset_bps)) 10000 in
    if is_sell then wrap_i64 (mid_cents -ℤ offset) else wrap_i64 (mid_cents +ℤ offset)

pub record RebalanceOrder : Type 0 where
  pub symbol : Symbol
  pub action : Action
  pub shares : ℤ
  pub limit_price_cents : ℤ
  pub notional_cents : ℤ
  pub description : Description

pub record CurrentPosition : Type 0 where
  pub symbol : Symbol
  pub quantity : ℤ
  pub avg_cost_cents : ℤ

-- The value of a key in the map that is collected from a list: the last one.
abbrev pub map_get : {V : Type 0} → List (Symbol × V) → Symbol → Option V
map_get [] s = none
map_get ((t, v) ∷ m) s = elim (map_get m s) [
  | some w ↦ some w
  | none ↦ if eqb_symbol t s then some v else none
]

abbrev pub quantity_or_zero : Option ℤ → ℤ
quantity_or_zero none = pos 0
quantity_or_zero (some q) = q

-- The order that closes a position at a price.
unfoldable pub closing_order : ℕ → CurrentPosition → ℤ → RebalanceOrder
unfolding compute_limit_price
closing_order limit_offset_bps p price =
    let shares = abs_i64 p.quantity in
    let way : Action × Description =
      if ltb_ℤ (pos 0) p.quantity then (sell, close_long) else (buy_cover, close_short) in
    record {
      symbol = p.symbol;
      action = way.0;
      shares = shares;
      limit_price_cents = compute_limit_price price (ltb_ℤ p.quantity (pos 0)) limit_offset_bps;
      notional_cents = wrap_i64 (shares *ℤ price);
      description = way.1;
    }

-- The order for a difference in shares, and its notional value.
unfoldable pub target_order : ℕ → Symbol → ℤ → ℤ → ℤ → ℤ → RebalanceOrder
unfolding compute_limit_price classify_trade
target_order limit_offset_bps s price current_qty diff_qty notional =
    let (action, description) = classify_trade current_qty diff_qty in
    record {
      symbol = s;
      action = action;
      shares = abs_i64 diff_qty;
      limit_price_cents = compute_limit_price price (not (ltb_ℤ (pos 0) diff_qty)) limit_offset_bps;
      notional_cents = notional;
      description = description;
    }

-- The second loop's body from the difference on.
unfoldable pub order_diff : ℕ → ℤ → Symbol → ℤ → ℤ → ℤ → List RebalanceOrder
unfolding target_order
order_diff limit_offset_bps min_trade_cents s price current_qty diff_qty =
    if eqb_ℤ diff_qty (pos 0)
    then []
    else (let notional = wrap_i64 (abs_i64 diff_qty *ℤ price) in
        if ltb_ℤ notional min_trade_cents
        then []
        else target_order limit_offset_bps s price current_qty diff_qty notional ∷ [])

module _ {W : Type 0} where
  -- A round of the first loop.
  unfoldable pub close_position :
      List (Symbol × W) → List (Symbol × ℤ) → ℕ → CurrentPosition → List RebalanceOrder
  unfolding closing_order
  close_position targets prices limit_offset_bps p =
      if eqb_ℤ p.quantity (pos 0) then [] else (elim (map_get targets p.symbol) [
        | some w ↦ []
        | none ↦ elim (map_get prices p.symbol) [
          | none ↦ []
          | some price ↦ closing_order limit_offset_bps p price ∷ []
        ]
      ])

  -- The first loop.
  unfoldable pub close_all :
      List (Symbol × W) → List (Symbol × ℤ) → ℕ → List CurrentPosition → List RebalanceOrder
  unfolding close_position
  close_all targets prices limit_offset_bps [] = []
  close_all targets prices limit_offset_bps (p ∷ ps) =
      close_position targets prices limit_offset_bps p
      ++ close_all targets prices limit_offset_bps ps

module _ {W : Type 0} (target_value : ℤ → W → ℤ) where
  -- A round of the second loop.
  unfoldable pub rebalance_target :
      ℤ → List CurrentPosition → List (Symbol × ℤ) → ℕ → ℤ → Symbol × W → List RebalanceOrder
  unfolding order_diff
  rebalance_target equity_cents positions prices limit_offset_bps min_trade_cents (s, weight) =
      elim (map_get prices s) [
        | none ↦ []
        | some price ↦
            if ltb_ℤ (pos 0) price
            then (let held = map (λ (p : CurrentPosition). (p.symbol, p.quantity)) positions in
                let current_qty = quantity_or_zero (map_get held s) in
                let diff_value =
                  wrap_i64 (target_value equity_cents weight -ℤ wrap_i64 (current_qty *ℤ price)) in
                order_diff limit_offset_bps min_trade_cents s price current_qty
                  (div_trunc diff_value (pos_part price)))
            else []
      ]

  -- The second loop.
  unfoldable pub rebalance_all :
      ℤ → List CurrentPosition → List (Symbol × ℤ) → ℕ → ℤ → List (Symbol × W) → List RebalanceOrder
  unfolding rebalance_target
  rebalance_all equity_cents positions prices limit_offset_bps min_trade_cents [] = []
  rebalance_all equity_cents positions prices limit_offset_bps min_trade_cents (t ∷ ts) =
      rebalance_target equity_cents positions prices limit_offset_bps min_trade_cents t
      ++ rebalance_all equity_cents positions prices limit_offset_bps min_trade_cents ts

  unfoldable pub compute_diff :
      ℤ → List CurrentPosition → List (Symbol × W) → List (Symbol × ℤ) → ℕ → ℤ → List RebalanceOrder
  unfolding close_all rebalance_all
  compute_diff equity_cents positions targets prices limit_offset_bps min_trade_cents =
      close_all targets prices limit_offset_bps positions
      ++ rebalance_all equity_cents positions prices limit_offset_bps min_trade_cents targets
