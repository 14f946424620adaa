-- ===== src/Examples/Books.antt =====
-- Runs of the book, its snapshots and the cost of a trade at concrete inputs.
use rustbook.Prelude.{
  ◌+ℤ◌, ◌*ℤ◌, ℕ, some, ◌≡◌, refl, arith, pos, negsuc, Returns, ◌≤ℤ◌, ◌∷◌, [], done, ◌≤◌,
}
use rustbook.Prelude.HashMap
use rustbook.Prelude.BTreeMap
use rustbook.Trade.{Trade, vwap}
use rustbook.Trade.Average.{vwap-Between}
use rustbook.Types.{buy, sell}
use rustbook.Order.{is_active}
use rustbook.Book
use rustbook.Book.{side_of, cancel_order}
use rustbook.Book.Cancelling.{Cancelled, cancel_order-Cancelled}
use rustbook.Snapshot.{snapshot, snapshot_levels, best_bid, best_ask}
use rustbook.Snapshot.Views.{IsView, snapshot_levels-IsView, snapshot-best}
use rustbook.Portfolio.CostModel.{CostModel, compute_cost}
use rustbook.Portfolio.CostModel.Bounds.{IsCost, compute_cost-IsCost, compute_cost-IsMonotone}
use rustbook.Examples.{asked, level, book, book-IsWellFormed}

-- The order 1, alone at its price, is cancelled.
cancel_order-Cancelled_example : Returns (λ r. Cancelled book 1 asked r.0 r.1) (cancel_order book 1)
cancel_order-Cancelled_example =
    cancel_order-Cancelled book 1 asked level book-IsWellFormed (unfold HashMap.get in refl)
      (unfold is_active in refl) (omega arith) (unfold side_of BTreeMap.get in refl) refl

snapshot_levels-IsView_example : IsView book sell 5 (snapshot_levels (side_of book sell) 5)
snapshot_levels-IsView_example = snapshot_levels-IsView book sell book-IsWellFormed 5

snapshot-best_example :
    (best_bid (snapshot book 5) ≡ Book.best_bid book)
    × (best_ask (snapshot book 5) ≡ Book.best_ask book)
snapshot-best_example = snapshot-best book 5 book-IsWellFormed (omega arith)

-- Ten basis points of commission, five of slippage and a fee of a hundred cents.
abbrev model : CostModel
model = record { commission_bps = 10; slippage_bps = 5; min_trade_fee = pos 100 }

compute_cost-IsCost_example : IsCost model (negsuc 999999) (compute_cost model (negsuc 999999))
compute_cost-IsCost_example =
    compute_cost-IsCost model (negsuc 999999) (omega arith, omega arith, omega arith)
      (omega arith, omega arith)

compute_cost-IsMonotone_example :
    compute_cost model (negsuc 999999) ≤ℤ compute_cost model (pos 2000000)
compute_cost-IsMonotone_example =
    compute_cost-IsMonotone model (negsuc 999999) (pos 2000000)
      (omega arith, omega arith, omega arith) (omega arith, omega arith) (omega arith, omega arith)
      (omega arith)

-- Fifty at 10000 and a hundred and fifty at 10200.
abbrev first : Trade
first = record {
  id = 1;
  price = pos 10000;
  quantity = 50;
  aggressor_order_id = 1;
  passive_order_id = 2;
  aggressor_side = buy;
  timestamp = 1;
}

abbrev second : Trade
second = record first { id = 2; price = pos 10200; quantity = 150; timestamp = 2 }

vwap-Between_example :
    (p : ℕ) × (vwap (first ∷ second ∷ []) ≡ done (some (pos p))) × (10000 ≤ p) × (p ≤ 10200)
vwap-Between_example =
    vwap-Between 10000 10200 first (second ∷ [])
      ((10000, refl, omega arith, omega arith), ((10200, refl, omega arith, omega arith), tt))
      (omega arith) (omega arith) (omega arith)

-- The average that the documentation gives.
vwap_run : vwap (first ∷ second ∷ []) ≡ done (some (pos 10150))
unfolding vwap ◌+ℤ◌ ◌*ℤ◌
vwap_run = refl
