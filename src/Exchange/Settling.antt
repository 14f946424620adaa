-- ===== src/Exchange/Settling.antt =====
-- src/exchange.rs: what becomes of a matched order: it is done, rests in the book or is dropped.
use rustbook.Prelude.{
  ◌+◌, ◌<◌, ◌^◌, ◌≡◌, ◌⊎◌, inl, inr, refl, true, false, if◌then◌else◌, ◌==◌, none, some, arith,
  Bool-cases, done, ◌>>=◌, Returns, >>=-Returns,
}
use rustbook.Prelude.HashMap
use rustbook.Prelude.HashMap.{get-insert, get-insert_self}
use rustbook.PriceLevels.{PriceLevels}
use rustbook.Types.{Quantity, Price, OrderId, Side, TimeInForce, gtc, ioc, fok, buy, sell, opposite}
use rustbook.Order.{Order, OrderStatus, filled, is_active}
use rustbook.Book.{OrderBook, side_of, opposite_side, add_order}
use rustbook.Book.WellFormed.{IsWellFormed}
use rustbook.Book.Placement.{SideFits-insert_new}
use rustbook.Book.Queues.{Joined}
use rustbook.Book.Pushing.{HasRoom}
use rustbook.Book.Adding.{Added, add_order-Added}
use rustbook.Matching.Termination.{Apart}
use rustbook.Exchange.{settle_order, index_order, rest_status, drop_status}
use rustbook.Exchange.Crossing.{Uncrossed, Added-Uncrossed}

-- An order of which nothing is left to rest or to drop, or that rests under GTC or is dropped.
abbrev pub Policy : TimeInForce → Quantity → Quantity → Type 0
Policy gtc resting cancelled = cancelled ≡ 0
Policy ioc resting cancelled = resting ≡ 0
Policy fok resting cancelled = resting ≡ 0

-- The index has an order with the id, the side, the price and the quantities of `o` and the status.
pub record Stored (b : OrderBook) (o : Order) (status : OrderStatus) : Type 0 where
  pub order : Order
  pub found : HashMap.get b.orders o.id ≡ some order
  pub sided : order.side ≡ o.side
  pub priced : order.price ≡ o.price
  pub remaining : order.remaining_quantity ≡ o.remaining_quantity
  pub filled : order.filled_quantity ≡ o.filled_quantity
  pub with_status : order.status ≡ status

-- A side of a book as it was, when nothing rests, or joined by the order of which something rests.
abbrev pub Rested : Quantity → PriceLevels → Price → OrderId → PriceLevels → Type 0
Rested resting ps p id ps' = ((resting ≡ 0) × (ps' ≡ ps)) ⊎ ((0 < resting) × Joined ps p id ps')

-- What settling makes of a book and of the remainder of a matched order. The book's own side stays
-- as it was unless something rests, and is joined by the order at the back of its queue then; the
-- other side stays; and the index has the order.
pub record Settled (b : OrderBook) (o : Order) (tif : TimeInForce) (b' : OrderBook)
    (status : OrderStatus) (resting cancelled : Quantity) : Type 0 where
  pub well_formed : IsWellFormed b'
  pub remainder : resting + cancelled ≡ o.remaining_quantity
  pub policy : Policy tif resting cancelled
  pub uncrossed :
      (o.remaining_quantity ≡ 0) ⊎ Apart o.side o.price (opposite_side b o.side).best_price
      → Uncrossed o.side b
      → Uncrossed o.side b'
  pub other_side : side_of b' (opposite o.side) ≡ side_of b (opposite o.side)
  pub own_side : Rested resting (side_of b o.side) o.price o.id (side_of b' o.side)
  pub stored : Stored b' o status

index_order-IsWellFormed :
    (b : OrderBook) (o : Order)
    → IsWellFormed b
    → HashMap.get b.orders o.id ≡ none
    → o.id < b.next_order_id
    → IsWellFormed (index_order b o)
unfolding index_order side_of
index_order-IsWellFormed b o wf unknown old = record {
  sides = elim [
    | buy ↦ SideFits-insert_new b.orders o.id o unknown buy b.bids (wf.sides buy)
    | sell ↦ SideFits-insert_new b.orders o.id o unknown sell b.asks (wf.sides sell)
  ];
  fresh = λ j x h. ground (arith, get-insert b.orders o.id j o, wf.fresh j x);
  started = wf.started;
}

index_order-Uncrossed :
    (b : OrderBook) (o : Order) (s : Side) → Uncrossed s b → Uncrossed s (index_order b o)
unfolding index_order side_of opposite_side opposite
index_order-Uncrossed b o buy h = h
index_order-Uncrossed b o sell h = h

index_order-side_of :
    (b : OrderBook) (o : Order) (s : Side) → side_of (index_order b o) s ≡ side_of b s
unfolding index_order side_of
index_order-side_of b o buy = refl
index_order-side_of b o sell = refl

Policy-none : (tif : TimeInForce) → Policy tif 0 0
Policy-none gtc = refl
Policy-none ioc = refl
Policy-none fok = refl

rest_status_live : (q : Quantity) → is_active (rest_status q) ≡ true
unfolding rest_status is_active
rest_status_live q = ground arith

module _ (b : OrderBook) (o : Order) (wf : IsWellFormed b)
    (unknown : HashMap.get b.orders o.id ≡ none) (old : o.id < b.next_order_id)
    (numbered : 0 < o.id) (small : o.remaining_quantity < 2 ^ 64)
    (room : HasRoom (side_of b o.side) o.price o.remaining_quantity) where
  with_status : OrderStatus → Order
  with_status status = record o { status = status }

  indexed :
      (status : OrderStatus) (tif : TimeInForce) (cancelled : Quantity)
      → cancelled ≡ o.remaining_quantity
      → Policy tif 0 cancelled
      → Settled b o tif (index_order b (with_status status)) status 0 cancelled
  unfolding with_status
  indexed status tif cancelled e p = record {
    well_formed = index_order-IsWellFormed b (with_status status) wf unknown old;
    remainder = omega (arith, e);
    policy = p;
    uncrossed = λ _ u. index_order-Uncrossed b (with_status status) o.side u;
    other_side = index_order-side_of b (with_status status) (opposite o.side);
    own_side = inl (refl, index_order-side_of b (with_status status) o.side);
    stored = record {
      order = with_status status;
      found = unfold index_order in get-insert_self b.orders o.id (with_status status);
      sided = refl;
      priced = refl;
      remaining = refl;
      filled = refl;
      with_status = refl;
    };
  }

  added :
      (o.remaining_quantity == 0) ≡ false
      → Returns
          (Added b (with_status (rest_status o.filled_quantity)))
          (add_order b (with_status (rest_status o.filled_quantity)))
  unfolding with_status
  added n =
      add_order-Added b (with_status (rest_status o.filled_quantity)) wf unknown old numbered
        (rest_status_live o.filled_quantity) (ground arith) small room

  rested :
      (b' : OrderBook)
      → (o.remaining_quantity == 0) ≡ false
      → Added b (with_status (rest_status o.filled_quantity)) b'
      → Settled b o gtc b' (rest_status o.filled_quantity) o.remaining_quantity 0
  unfolding with_status
  rested b' n k = record {
    other_side = k.other_side;
    own_side = inr (ground arith, k.joined);
    stored = record {
      order = record (with_status (rest_status o.filled_quantity)) {
        position_in_level = k.stored.0;
      };
      found = k.stored.1;
      sided = refl;
      priced = refl;
      remaining = refl;
      filled = refl;
      with_status = refl;
    };
    well_formed = k.well_formed;
    remainder = omega arith;
    policy = refl;
    uncrossed = elim [
      | inl e ↦ λ u. absurd (ground arith)
      | inr apart ↦
          λ u. Added-Uncrossed b (with_status (rest_status o.filled_quantity)) b' k apart u
    ];
  }

  pub settle_order-Settled :
      (tif : TimeInForce) → Returns (λ s. Settled b o tif s.0 s.1 s.2 s.3) (settle_order b o tif)
  unfolding settle_order with_status
  settle_order-Settled tif = elim (Bool-cases (o.remaining_quantity == 0)) [
    | inl e ↦ rw e (indexed OrderStatus.filled tif 0 (ground arith) (Policy-none tif))
    | inr e ↦ rw e (left tif e)
  ]
    where
      dropped : OrderStatus
      dropped = drop_status o.filled_quantity

      left :
          (t : TimeInForce)
          → (o.remaining_quantity == 0) ≡ false
          → Returns {A = OrderBook × OrderStatus × Quantity × Quantity}
              (λ s. Settled b o t s.0 s.1 s.2 s.3)
              (if false then done (index_order b (with_status filled), filled, 0, 0) else elim t [
                | gtc ↦ add_order b (with_status (rest_status o.filled_quantity)) >>= λ b'.
                    done (b', rest_status o.filled_quantity, o.remaining_quantity, 0)
                | _ ↦ done (index_order b (with_status dropped), dropped, 0, o.remaining_quantity)
              ])
      left gtc e =
          >>=-Returns (Added b (with_status (rest_status o.filled_quantity)))
            (λ s. Settled b o gtc s.0 s.1 s.2 s.3)
            (add_order b (with_status (rest_status o.filled_quantity))) _ (added e)
            (λ b' k. rested b' e k)
      left ioc e = indexed dropped ioc o.remaining_quantity refl refl
      left fok e = indexed dropped fok o.remaining_quantity refl refl
