-- ===== src/Matching/Total.antt =====
-- src/matching.rs: the quantities and prices of a match in a well-formed book.
use rustbook.Prelude.{◌+◌, ◌<◌, ◌^◌, ◌≡◌, arith, All, Returns, Returns-and-Ensures, Returns-imp}
use rustbook.Order.{Order}
use rustbook.Book.{OrderBook}
use rustbook.Book.WellFormed.{IsWellFormed}
use rustbook.Matching.{MatchResult, match_order, filled_quantity}
use rustbook.Matching.Fills.{Fills-fixed, match_order-Fills}
use rustbook.Matching.Accounts.{IsOwnTrade, match_order-IsAccounted, match_order-IsOwnTrade}
use rustbook.Matching.Termination.{match_order-MatchDone}

-- The account of a match: its trades add up to the order's filled quantity, this and what remains
-- add up to the quantity before, and every trade is the order's own at a price within its limit.
pub record IsBalanced (o o' : Order) (m : MatchResult) : Type 0 where
  pub traded : filled_quantity m ≡ o'.filled_quantity
  pub complete : o'.filled_quantity + o'.remaining_quantity ≡ o.remaining_quantity
  pub reported : m.remaining_quantity ≡ o'.remaining_quantity
  pub named : o'.id ≡ o.id
  pub owned : All (IsOwnTrade o) m.trades

-- Matching an order of which nothing is filled yet, and whose quantity fits 64 bits, in a
-- well-formed book returns. The trades add up to the order's filled quantity; this and what remains
-- add up to the quantity that remained before; the answer reports what remains; the order keeps its
-- id; and every trade carries the order's id and side at a price no worse than its limit.
pub match_order-IsBalanced :
    (b : OrderBook) (o : Order)
    → IsWellFormed b
    → o.filled_quantity ≡ 0
    → o.remaining_quantity < 2 ^ 64
    → Returns (λ r. IsBalanced o r.1 r.2) (match_order b o)
match_order-IsBalanced b o wf fresh small =
    let run = match_order b o in
    Returns-imp _ (λ r. IsBalanced o r.1 r.2) run
      (λ r h.
        let (((d, v), f), own) = h in
        record {
          traded = v.0;
          complete = omega (arith, v.1, f.1);
          reported = f.1;
          named = (Fills-fixed f.0).0;
          owned = own;
        })
      (Returns-and-Ensures _ _ run
        (Returns-and-Ensures _ _ run
          (Returns-and-Ensures _ _ run (match_order-MatchDone b o wf)
            (match_order-IsAccounted b o fresh small))
          (match_order-Fills b o))
        (match_order-IsOwnTrade b o))
