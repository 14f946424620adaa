-- ===== src/Examples/Positions.antt =====
-- Runs of a position at concrete inputs.
use rustbook.Prelude.{◌≡◌, refl, pos, negsuc, done, Returns, arith, ◌+ℤ◌, ◌-ℤ◌, ◌*ℤ◌, min_ℤ}
use rustbook.Types.{price_min, div_i64}
use rustbook.Portfolio.Position.{Position, apply_fill, added_cost, remaining_cost}
use rustbook.Portfolio.Position.Filling.{Filled, differs, apply_fill-Filled}
use rustbook.Examples.Symbols.{aapl}

-- A short position of 100 at 5000.
abbrev short : Position
short = record {
  symbol = aapl;
  quantity = negsuc 99;
  avg_entry_price = pos 5000;
  realized_pnl = pos 0;
  total_cost = negsuc 499999;
}

apply_fill-Filled_example : Returns (Filled short (pos 50)) (apply_fill short (pos 50) (pos 4000))
apply_fill-Filled_example =
    apply_fill-Filled short (pos 50) (pos 4000) (unfold ◌+ℤ◌ in (omega arith, omega arith))
      (differs (added_cost short (pos 50) (pos 4000)) price_min
        (unfold added_cost ◌+ℤ◌ ◌*ℤ◌ in refl))
      (differs (remaining_cost short (pos 50)) price_min
        (unfold remaining_cost ◌-ℤ◌ ◌*ℤ◌ min_ℤ in refl))

-- The purchase of a half of it leaves an average entry price of 15000.
half_covered :
    apply_fill short (pos 50) (pos 4000)
    ≡ done (record short {
      quantity = negsuc 49;
      avg_entry_price = pos 15000;
      realized_pnl = pos 50000;
      total_cost = negsuc 749999;
    })
unfolding apply_fill ◌+ℤ◌ ◌-ℤ◌ ◌*ℤ◌ div_i64 min_ℤ
half_covered = refl
