-- ===== src/Examples/Weights.antt =====
-- Runs of the rebalancer at concrete inputs.
use rustbook.Prelude.{
  ℤ, pos, negsuc, ◌≡◌, ◌⊎◌, true, false, ◌≤ℤ◌, ◌+◌, ◌-◌, ◌*◌, ◌/◌, All, List, [], ◌∷◌, arith,
}
use rustbook.Symbol.{Symbol}
use rustbook.Rebalancer.Diff.{CurrentPosition, classify_trade, compute_limit_price, compute_diff}
use rustbook.Rebalancer.Diff.Directions.{Classified, classify_trade-Classified}
use rustbook.Rebalancer.Diff.Limits.{compute_limit_price_lem}
use rustbook.Rebalancer.Diff.Orders.{IsClosing, IsRebalancing, compute_diff-Origin}
use rustbook.Examples.Symbols.{aapl, msft}

-- A sale of 150 from a position of 100.
classify_trade-Classified_example :
    Classified (pos 100) (negsuc 149) (classify_trade (pos 100) (negsuc 149))
classify_trade-Classified_example =
    classify_trade-Classified (pos 100) (negsuc 149) (omega arith) (omega arith) (omega arith)
      (omega arith) (λ e. absurd cc)

compute_limit_price_lem_example :
    (compute_limit_price (pos 15000) false 10 ≡ pos (15000 + 15000 * 10 / 10000))
    × (compute_limit_price (pos 15000) true 10 ≡ pos (15000 - 15000 * 10 / 10000))
    × (pos 15000 ≤ℤ compute_limit_price (pos 15000) false 10)
    × (compute_limit_price (pos 15000) true 10 ≤ℤ pos 15000)
    × (pos 0 ≤ℤ compute_limit_price (pos 15000) true 10)
compute_limit_price_lem_example = compute_limit_price_lem 15000 10 (omega arith) (omega arith)

-- A long position in one symbol, and the other as the only target. A weight is the value it asks for.
abbrev held : CurrentPosition
held = record { symbol = aapl; quantity = pos 100; avg_cost_cents = pos 14000 }

abbrev positions : List CurrentPosition
positions = held ∷ []

abbrev targets : List (Symbol × ℤ)
targets = (msft, pos 900000) ∷ []

abbrev prices : List (Symbol × ℤ)
prices = (aapl, pos 15000) ∷ (msft, pos 30000) ∷ []

abbrev by_weight : ℤ → ℤ → ℤ
by_weight equity w = w

compute_diff-Origin_example :
    All
      (λ o.
        IsClosing positions targets prices o
        ⊎ IsRebalancing by_weight (pos 1500000) positions targets prices 10 (pos 5000) o)
      (compute_diff by_weight (pos 1500000) positions targets prices 10 (pos 5000))
compute_diff-Origin_example =
    compute_diff-Origin positions targets prices 10 (pos 5000) by_weight (pos 1500000)
