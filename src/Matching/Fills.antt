-- ===== src/Matching/Fills.antt =====
-- src/matching.rs: what a run of the matching loops does to the incoming order and the trades.
use rustbook.Prelude.{
  ℕ, zero, suc, ◌≤◌, ◌≡◌, refl, min, ◌==◌, true, List, [], ◌∷◌, ◌++◌, Option, none, some, done,
  Returns, Ensures, Ensures-imp, Returns->>=-Ensures, >>=-Ensures, arith, inl, inr, Option-cases,
  Bool-cases,
}
use rustbook.Prelude.HashMap
use rustbook.Types.{OrderId, Price}
use rustbook.Order.{Order, fill, after_fill}
use rustbook.Trade.{Trade}
use rustbook.Book.{OrderBook, opposite_side, get_order}
use rustbook.Matching.{
  Round, leaves, goes_on, make_trade, trade_round, match_round, after_front, match_at_price,
  match_loop, front_at, prices_cross, match_order, after_trade, rounds,
}

-- A run of fills: from an incoming order and some trades to those after any number of trades, each
-- of at most what remained, at a price that crosses the order's own.
pub data Fills (o : Order) (ts : List Trade) : Order → List Trade → Type 0 where
  here : Fills o ts o ts
  next :
      {o' : Order} {ts' : List Trade}
      → Fills o ts o' ts'
      → (t : Trade) → t.quantity ≤ o'.remaining_quantity
      → prices_cross o'.side o'.price t.price ≡ true
      → t.aggressor_order_id ≡ o'.id
      → t.aggressor_side ≡ o'.side
      → Fills o ts (after_fill o' t.quantity) (ts' ++ t ∷ [])

Fills-trans :
    {o p : Order} {ts us : List Trade} {q : Order} {vs : List Trade}
    → Fills o ts p us
    → Fills p us q vs
    → Fills o ts q vs
Fills-trans f here = f
Fills-trans f (next g t a b c d) = next (Fills-trans f g) t a b c d

pub fill_lem : (o : Order) (q : ℕ) → q ≤ o.remaining_quantity → fill o q ≡ done (after_fill o q)
unfolding fill
fill_lem o q h = ground arith

-- What a round of the inner loop does to the incoming order and the trades.
RoundFills : Order → List Trade → Round → Type 0
RoundFills o ts (leaves b) = Unit
RoundFills o ts (goes_on b o' ts') = Fills o ts o' ts'

-- The trade of a round that has found the resting order, and how the round ends.
pub trade_round_lem :
    (b : OrderBook) (o : Order) (p : Price) (ts : List Trade) (id : ℕ) (resting : Order)
    → let q = min o.remaining_quantity resting.remaining_quantity in
      let (b', t) = make_trade b o p id q in
      trade_round b o p ts id resting
      ≡ done (
          goes_on
            (after_trade
              (record b' { orders = HashMap.insert b'.orders id (after_fill resting q) })
              o.side
              p
              q
              ((after_fill resting q).remaining_quantity == 0))
            (after_fill o q)
            (ts ++ t ∷ []))
unfolding trade_round
trade_round_lem b o p ts id resting =
    rw (fill_lem o (min o.remaining_quantity resting.remaining_quantity) (omega arith))
      (rw (fill_lem resting (min o.remaining_quantity resting.remaining_quantity) (omega arith)))

after_front-Fills :
    (o : Order) (p : Price) (ts : List Trade) (r : OrderBook × Option OrderId)
    → prices_cross o.side o.price p ≡ true
    → Returns (RoundFills o ts) (after_front o p ts r)
unfolding after_front RoundFills make_trade
after_front-Fills o p ts (b, none) cross = tt
after_front-Fills o p ts (b, some id) cross = elim (Option-cases (get_order b id)) [
  | inl g ↦ rw (g, after_front) here
  | inr (resting, g) ↦
      let q = min o.remaining_quantity resting.remaining_quantity in
      rw (g, after_front, trade_round_lem b o p ts id resting)
        (next here (make_trade b o p id q).1 (omega arith) cross refl refl)
]

match_round-Fills :
    (b : OrderBook) (o : Order) (p : Price) (ts : List Trade)
    → prices_cross o.side o.price p ≡ true
    → Returns (RoundFills o ts) (match_round b o p ts)
unfolding match_round
match_round-Fills b o p ts cross = after_front-Fills o p ts (front_at b o.side p) cross

-- Fills change neither whose order it is nor its side, limit and original quantity.
pub Fills-fixed :
    {o : Order} {ts : List Trade} {o' : Order} {ts' : List Trade}
    → Fills o ts o' ts'
    → (o'.id ≡ o.id)
      × (o'.side ≡ o.side)
      × (o'.price ≡ o.price)
      × (o'.original_quantity ≡ o.original_quantity)
unfolding after_fill
Fills-fixed here = (refl, refl, refl, refl)
Fills-fixed (next f t a b c d) = Fills-fixed f

still_crosses :
    {o o' : Order} {ts ts' : List Trade} (p : Price)
    → Fills o ts o' ts'
    → prices_cross o.side o.price p ≡ true
    → prices_cross o'.side o'.price p ≡ true
still_crosses p f cross = rw ((Fills-fixed f).1, (Fills-fixed f).2) cross

match_at_price-Fills :
    (fuel : ℕ) (b : OrderBook) (o : Order) (p : Price) (ts : List Trade)
    → prices_cross o.side o.price p ≡ true
    → Ensures (λ r. Fills o ts r.1 r.2) (match_at_price fuel b o p ts)
unfolding match_at_price RoundFills
match_at_price-Fills zero b o p ts cross = tt
match_at_price-Fills (suc fuel) b o p ts cross = elim (Bool-cases (o.remaining_quantity == 0)) [
  | inl e ↦ rw e here
  | inr e ↦ rw e (
      Returns->>=-Ensures (RoundFills o ts) (λ r. Fills o ts r.1 r.2) (match_round b o p ts) _
        (match_round-Fills b o p ts cross)
        (elim [
          | leaves b' ↦ λ h. here
          | goes_on b' o' ts' ↦ λ h.
              Ensures-imp (λ r. Fills o' ts' r.1 r.2) (λ r. Fills o ts r.1 r.2)
                (match_at_price fuel b' o' p ts') (λ r. Fills-trans h)
                (match_at_price-Fills fuel b' o' p ts' (still_crosses p h cross))
        ]))
]

match_loop-Fills :
    (inner fuel : ℕ) (b : OrderBook) (o : Order) (ts : List Trade)
    → Ensures (λ r. Fills o ts r.1 r.2) (match_loop inner fuel b o ts)
unfolding match_loop
match_loop-Fills inner zero b o ts = tt
match_loop-Fills inner (suc fuel) b o ts = elim (Bool-cases (o.remaining_quantity == 0)) [
  | inl e ↦ rw e here
  | inr e ↦ elim (Option-cases (opposite_side b o.side).best_price) [
    | inl n ↦ rw (e, n) here
    | inr (p, best) ↦ elim (Bool-cases (prices_cross o.side o.price p)) [
      | inl cross ↦
          rw (e, best, cross)
            (>>=-Ensures (λ r. Fills o ts r.1 r.2) (λ r. Fills o ts r.1 r.2)
              (match_at_price inner b o p ts) _ (match_at_price-Fills inner b o p ts cross)
              (λ r h.
                Ensures-imp (λ s. Fills r.1 r.2 s.1 s.2) (λ s. Fills o ts s.1 s.2)
                  (match_loop inner fuel r.0 r.1 r.2) (λ s. Fills-trans h)
                  (match_loop-Fills inner fuel r.0 r.1 r.2)))
      | inr apart ↦ rw (e, best, apart) here
    ]
  ]
]

-- Matching never panics, and if its loops end it has made a run of fills: every trade is at a price
-- that crosses the incoming order's limit, for at most what remained of it, in its name and on its
-- side, and the order is what those fills leave of it.
pub match_order-Fills :
    (b : OrderBook) (o : Order)
    → Ensures
        (λ r. Fills o [] r.1 r.2.trades × (r.2.remaining_quantity ≡ r.1.remaining_quantity))
        (match_order b o)
unfolding match_order
match_order-Fills b o =
    let fuel = rounds (opposite_side b o.side) in
    >>=-Ensures (λ r. Fills o [] r.1 r.2)
      (λ r. Fills o [] r.1 r.2.trades × (r.2.remaining_quantity ≡ r.1.remaining_quantity))
      (match_loop fuel fuel b o []) _ (match_loop-Fills fuel fuel b o []) (λ r h. (h, refl))
