-- ===== src/Exchange/Entering.antt =====
-- src/exchange.rs: a new order that is matched and then settled.
use rustbook.Prelude.{
  ◌+◌, ◌<◌, ◌^◌, ◌≡◌, refl, Bool, true, false, not, ◌&&◌, none, arith, Returns, Returns-and,
}
use rustbook.Prelude.HashMap
use rustbook.Types.{Quantity, Price, Side, TimeInForce, gtc, ioc, fok, buy, sell}
use rustbook.Order.{Order}
use rustbook.Book.{OrderBook, side_of, create_order}
use rustbook.Book.WellFormed.{IsWellFormed}
use rustbook.Book.Pushing.{HasRoom}
use rustbook.Matching.{MatchResult, match_order}
use rustbook.Matching.Total.{IsBalanced, match_order-IsBalanced}
use rustbook.Matching.Termination.{MatchDone, match_order-MatchDone}
use rustbook.Exchange.{settle_order, is_fok}
use rustbook.Exchange.Settling.{Settled, settle_order-Settled}

-- What matching makes of a fresh order whose quantity fits 64 bits, all of it together.
abbrev pub Matched : OrderBook → Order → OrderBook → Order → MatchResult → Type 0
Matched b o b' o' m = MatchDone b o b' o' × IsBalanced o o' m

pub match_order-Matched :
    (b : OrderBook) (o : Order)
    → IsWellFormed b
    → o.filled_quantity ≡ 0
    → o.remaining_quantity < 2 ^ 64
    → Returns (λ r. Matched b o r.0 r.1 r.2) (match_order b o)
match_order-Matched b o wf fresh small =
    Returns-and (λ r. MatchDone b o r.0 r.1) (λ r. IsBalanced o r.1 r.2) (match_order b o)
      (match_order-MatchDone b o wf) (match_order-IsBalanced b o wf fresh small)

-- The book that the creation of an order leaves.
pub create_order-IsWellFormed :
    (b : OrderBook) (side : Side) (price : Price) (quantity : Quantity) (tif : TimeInForce)
    → IsWellFormed b
    → b.next_order_id + 1 < 2 ^ 64
    → IsWellFormed (create_order b side price quantity tif).0
unfolding create_order side_of
create_order-IsWellFormed b side price quantity tif wf h = record {
  sides = elim [ buy ↦ wf.sides buy | sell ↦ wf.sides sell ];
  fresh = λ j o e. omega (arith, h, wf.fresh j o e);
  started = omega (arith, h);
}

-- The order that is created.
unfoldable pub created : OrderBook → Side → Price → Quantity → TimeInForce → Order
unfolding create_order
created b side price quantity tif = (create_order b side price quantity tif).1

pub is_fok_lem : (t : TimeInForce) (c : Bool) → (is_fok t && c) ≡ true → t ≡ fok
is_fok_lem gtc c e = cc
is_fok_lem ioc c e = cc
is_fok_lem fok c e = refl

pub unfillable : (t : TimeInForce) (c : Bool) → (is_fok t && not c) ≡ true → c ≡ false
unfillable gtc true e = absurd cc
unfillable ioc true e = absurd cc
unfillable fok true e = absurd cc
unfillable t false e = refl

-- A matched order is settled in a book that the match left.
pub Matched-Settled :
    (b : OrderBook) (o : Order) (b' : OrderBook) (o' : Order) (m : MatchResult) (tif : TimeInForce)
    → IsWellFormed b
    → HashMap.get b.orders o.id ≡ none
    → o.id < b.next_order_id
    → 0 < o.id
    → o.remaining_quantity < 2 ^ 64
    → HasRoom (side_of b o.side) o.price o.remaining_quantity
    → Matched b o b' o' m
    → Returns (λ s. Settled b' o' tif s.0 s.1 s.2 s.3) (settle_order b' o' tif)
Matched-Settled b o b' o' m tif wf unknown old numbered small room k =
    let d = k.0 in
    settle_order-Settled b' o' d.progress.well_formed
      (rw k.1.named (d.progress.no_new_ids o.id unknown)) (rw (k.1.named, d.progress.next_id) old)
      (rw k.1.named numbered) (omega (arith, k.1.complete, small))
      (rw (d.sided, d.priced, d.progress.own_side) (λ l h. omega (arith, room l h, k.1.complete)))
      tif
