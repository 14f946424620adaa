-- ===== src/Matching/Accounts.antt =====
-- src/matching.rs: the quantities and prices of a match.
use rustbook.Prelude.{
  ℕ, ◌+◌, ◌<◌, ◌^◌, ◌≡◌, sym, ◌∙◌, true, List, [], ◌∷◌, ◌++◌, Ensures, Ensures-imp, arith, All,
  All-append,
}
use rustbook.Types.{wrapping_add}
use rustbook.Order.{Order, after_fill}
use rustbook.Trade.{Trade}
use rustbook.Book.{OrderBook}
use rustbook.Matching.{prices_cross, match_order, sum_trades, filled_quantity}
use rustbook.Matching.Fills.{Fills, here, next, Fills-fixed, match_order-Fills}

sum_trades-append :
    (ts : List Trade) (t : Trade)
    → sum_trades (ts ++ t ∷ []) ≡ wrapping_add (sum_trades ts) t.quantity
unfolding sum_trades
sum_trades-append [] t = omega arith
sum_trades-append (u ∷ ts) t = omega (arith, sum_trades-append ts t)

-- The account of an incoming order against its trades.
pub record IsAccounted (original : ℕ) (o : Order) (ts : List Trade) : Type 0 where
  pub traded : sum_trades ts ≡ o.filled_quantity
  pub complete : o.filled_quantity + o.remaining_quantity ≡ original

Fills-IsAccounted :
    {o : Order} {ts : List Trade} {o' : Order} {ts' : List Trade} (n : ℕ)
    → n < 2 ^ 64
    → IsAccounted n o ts
    → Fills o ts o' ts'
    → IsAccounted n o' ts'
unfolding after_fill sum_trades
Fills-IsAccounted n h v here = v
Fills-IsAccounted n h v (next {o'} {ts'} f t le c a s) =
    let ih = Fills-IsAccounted n h v f in
    record {
      traded = omega (arith, sum_trades-append ts' t, ih.traded, ih.complete);
      complete = omega (arith, ih.complete);
    }

-- What a trade owes to the incoming order: a price that crosses its limit, its id and its side.
pub record IsOwnTrade (o : Order) (t : Trade) : Type 0 where
  pub crosses : prices_cross o.side o.price t.price ≡ true
  pub named : t.aggressor_order_id ≡ o.id
  pub sided : t.aggressor_side ≡ o.side

Fills-IsOwnTrade :
    {o : Order} {ts : List Trade} {o' : Order} {ts' : List Trade}
    → All (IsOwnTrade o) ts
    → Fills o ts o' ts'
    → All (IsOwnTrade o) ts'
Fills-IsOwnTrade v here = v
Fills-IsOwnTrade {o} v (next {o'} {ts'} f t le c a s) =
    All-append (IsOwnTrade o) ts' (t ∷ []) (Fills-IsOwnTrade v f) (owned, tt)
  where
    owned : IsOwnTrade o t
    owned =
        let (named, sided, priced, _) = Fills-fixed f in
        record { crosses = rw (← sided, ← priced) c; named = a ∙ named; sided = s ∙ sided }

-- Matching a fresh order never panics, and what it returns balances: the trades add up to the
-- order's filled quantity, and this and the quantity that remains add up to the original one.
pub match_order-IsAccounted :
    (b : OrderBook) (o : Order)
    → o.filled_quantity ≡ 0
    → o.remaining_quantity < 2 ^ 64
    → Ensures
        (λ r.
          (filled_quantity r.2 ≡ r.1.filled_quantity)
          × (r.1.filled_quantity + r.2.remaining_quantity ≡ o.remaining_quantity))
        (match_order b o)
unfolding filled_quantity sum_trades
match_order-IsAccounted b o fresh small =
    Ensures-imp _ _ (match_order b o)
      (λ r f.
        let v = Fills-IsAccounted o.remaining_quantity small start f.0 in
        (v.traded, omega (arith, v.complete, f.1)))
      (match_order-Fills b o)
  where
    start : IsAccounted o.remaining_quantity o []
    start = record { traded = sym fresh; complete = omega arith }

-- Matching never panics, and every trade that it returns is at a price no worse than the incoming
-- order's limit (not above it for a buy, not below it for a sell), and carries its id and side.
pub match_order-IsOwnTrade :
    (b : OrderBook) (o : Order) → Ensures (λ r. All (IsOwnTrade o) r.2.trades) (match_order b o)
match_order-IsOwnTrade b o =
    Ensures-imp _ _ (match_order b o) (λ r f. Fills-IsOwnTrade tt f.0) (match_order-Fills b o)
