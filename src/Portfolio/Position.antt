-- ===== src/Portfolio/Position.antt =====
-- src/portfolio/position.rs: the position in one symbol. Every field is an `i64`, whose arithmetic
-- wraps, and a division may panic.
pub mod Filling
use rustbook.Prelude.{
  ℤ, pos, ◌+ℤ◌, ◌-ℤ◌, ◌*ℤ◌, ltb_ℤ, leb_ℤ, eqb_ℤ, min_ℤ, ◌&&◌, ◌||◌, Bool, true, false,
  if◌then◌else◌, Run, done, ◌>>=◌,
}
use rustbook.Types.{wrap_i64, div_i64}
use rustbook.Symbol.{Symbol}
use rustbook.Stop.Trailing.{abs_i64}

pub record Position : Type 0 where
  pub symbol : Symbol
  pub quantity : ℤ
  pub avg_entry_price : ℤ
  pub realized_pnl : ℤ
  pub total_cost : ℤ

-- `Position::new`.
unfoldable pub new_position : Symbol → Position
new_position symbol = record {
  symbol = symbol;
  quantity = pos 0;
  avg_entry_price = pos 0;
  realized_pnl = pos 0;
  total_cost = pos 0;
}

unfoldable pub same_direction : ℤ → ℤ → Bool
same_direction quantity qty =
    (leb_ℤ (pos 0) quantity && ltb_ℤ (pos 0) qty) || (leb_ℤ quantity (pos 0) && ltb_ℤ qty (pos 0))

-- The total cost with the cost of a fill in the same direction.
unfoldable pub added_cost : Position → ℤ → ℤ → ℤ
added_cost p qty price = wrap_i64 (p.total_cost +ℤ wrap_i64 (qty *ℤ price))

unfoldable pub close_qty : Position → ℤ → ℤ
close_qty p qty = min_ℤ (abs_i64 qty) (abs_i64 p.quantity)

-- The total cost without the cost of the part that is closed.
unfoldable pub remaining_cost : Position → ℤ → ℤ
unfolding close_qty
remaining_cost p qty = wrap_i64 (p.total_cost -ℤ wrap_i64 (close_qty p qty *ℤ p.avg_entry_price))

unfoldable pub pnl_per_unit : Position → ℤ → ℤ
pnl_per_unit p price =
    if ltb_ℤ (pos 0) p.quantity
    then wrap_i64 (price -ℤ p.avg_entry_price)
    else wrap_i64 (p.avg_entry_price -ℤ price)

-- A position with a total cost and a quantity, at their average price.
unfoldable pub averaged : Position → ℤ → ℤ → Run Position
averaged p total quantity = div_i64 total quantity >>= λ avg.
    done (record p { quantity = quantity; avg_entry_price = avg; total_cost = total })

-- A fill that reduces or flips the position.
unfoldable pub reduce : Position → ℤ → ℤ → Run Position
unfolding close_qty remaining_cost pnl_per_unit averaged
reduce p qty price =
    let realized =
      wrap_i64 (p.realized_pnl +ℤ wrap_i64 (pnl_per_unit p price *ℤ close_qty p qty)) in
    let p' = record p { realized_pnl = realized } in
    let net = wrap_i64 (p.quantity +ℤ qty) in
    if eqb_ℤ net (pos 0)
    then done (record p' { quantity = pos 0; avg_entry_price = pos 0; total_cost = pos 0 })
    else (if (if ltb_ℤ (pos 0) net then ltb_ℤ (pos 0) p.quantity else leb_ℤ p.quantity (pos 0))
        then averaged p' (remaining_cost p qty) net
        else done (record p' {
          quantity = net;
          avg_entry_price = price;
          total_cost = wrap_i64 (net *ℤ price);
        }))

unfoldable pub apply_fill : Position → ℤ → ℤ → Run Position
unfolding same_direction added_cost averaged reduce
apply_fill p qty price =
    if eqb_ℤ qty (pos 0)
    then done p
    else (if eqb_ℤ p.quantity (pos 0)
        then done (record p {
          quantity = qty;
          avg_entry_price = price;
          total_cost = wrap_i64 (qty *ℤ price);
        })
        else (if same_direction p.quantity qty
            then averaged p (added_cost p qty price) (wrap_i64 (p.quantity +ℤ qty))
            else reduce p qty price))

unfoldable pub market_value : Position → ℤ → ℤ
market_value p price = wrap_i64 (p.quantity *ℤ price)

unfoldable pub unrealized_pnl : Position → ℤ → ℤ
unrealized_pnl p price =
    if eqb_ℤ p.quantity (pos 0)
    then pos 0
    else wrap_i64 (wrap_i64 (price -ℤ p.avg_entry_price) *ℤ p.quantity)

unfoldable pub is_flat : Position → Bool
is_flat p = eqb_ℤ p.quantity (pos 0)
