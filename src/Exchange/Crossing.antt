-- ===== src/Exchange/Crossing.antt =====
-- src/exchange.rs, src/matching.rs, src/book.rs: crossed books, seen from one side.
use rustbook.Prelude.{
  ◌≡◌, inl, inr, refl, sym, ap, ◌∙◌, subst, false, none, some, arith, Option-cases,
}
use rustbook.Prelude.BTreeMap
use rustbook.Types.{Price, Side, buy, sell, opposite}
use rustbook.Order.{Order}
use rustbook.PriceLevels.{PriceLevels}
use rustbook.PriceLevels.Best.{IsValid, AsGood, best_price-IsBest, best_key-none}
use rustbook.Book.{OrderBook, side_of, opposite_side, is_crossed, crosses, best_bid, best_ask}
use rustbook.Book.WellFormed.{IsWellFormed}
use rustbook.Book.Adding.{Added}
use rustbook.Matching.{prices_cross}
use rustbook.Matching.Progress.{Progress}
use rustbook.Matching.Termination.{Apart}

-- Seen from a side: its best price, if there is one, crosses none of the opposite side.
abbrev pub Uncrossed : Side → OrderBook → Type 0
Uncrossed s b =
    (own : Price) → (side_of b s).best_price ≡ some own → Apart s own (opposite_side b s).best_price

pub Uncrossed-from : (s : Side) (b : OrderBook) → is_crossed b ≡ false → Uncrossed s b
unfolding is_crossed crosses best_bid best_ask side_of opposite_side prices_cross opposite
Uncrossed-from buy b h own e = elim (Option-cases b.asks.best_price) [
  | inl n ↦ rw n tt
  | inr (p, k) ↦
      rw k (ap (λ x. crosses x (some p)) (sym e) ∙ ap (crosses b.bids.best_price) (sym k) ∙ h)
]
Uncrossed-from sell b h own e = elim (Option-cases b.bids.best_price) [
  | inl n ↦ rw n tt
  | inr (p, k) ↦
      rw k (ap (λ x. crosses x (some own)) (sym k) ∙ ap (crosses b.bids.best_price) (sym e) ∙ h)
]

pub Uncrossed-to : (s : Side) (b : OrderBook) → Uncrossed s b → is_crossed b ≡ false
unfolding is_crossed crosses best_bid best_ask side_of opposite_side prices_cross opposite
Uncrossed-to s b h = elim (Option-cases b.bids.best_price) [
  | inl n ↦ rw n refl
  | inr (bid, k) ↦ elim (Option-cases b.asks.best_price) [
    | inl n ↦ rw (k, n) refl
    | inr (ask, m) ↦
        ap (λ x. crosses x b.asks.best_price) k ∙ ap (crosses (some bid)) m ∙ apart s h bid ask k m
  ]
]
  where
    apart :
        (t : Side)
        → Uncrossed t b
        → (bid ask : Price) → b.bids.best_price ≡ some bid
        → b.asks.best_price ≡ some ask
        → crosses (some bid) (some ask) ≡ false
    apart buy u bid ask k m = subst (λ x. Apart buy bid x) m (u bid k)
    apart sell u bid ask k m = subst (λ x. Apart sell ask x) k (u ask m)

-- What is apart from a price is apart from every price that is no better.
apart_worse :
    (s : Side) (own a p : Price)
    → AsGood (opposite s) a p
    → prices_cross s own a ≡ false
    → prices_cross s own p ≡ false
unfolding prices_cross opposite
apart_worse buy own a p h e = ground arith
apart_worse sell own a p h e = ground arith

-- No price of a valid side that once crossed none does when levels have gone.
Apart-fewer :
    (s : Side) (own : Price) (before after : PriceLevels)
    → IsValid before
    → IsValid after
    → before.side ≡ opposite s
    → ((k : Price) → BTreeMap.get before.levels k ≡ none → BTreeMap.get after.levels k ≡ none)
    → Apart s own before.best_price
    → Apart s own after.best_price
Apart-fewer s own before after v w side fewer h = elim (Option-cases after.best_price) [
  | inl n ↦ rw n tt
  | inr (p, e) ↦ rw e (still p e)
]
  where
    there : (p : Price) → after.best_price ≡ some p → BTreeMap.get before.levels p ≡ none → ⊥
    there p e n = let ((l, k), _) = best_price-IsBest after p w e in cc (sym k ∙ fewer p n)

    still : (p : Price) → after.best_price ≡ some p → prices_cross s own p ≡ false
    still p e = elim (Option-cases (BTreeMap.get before.levels p)) [
      | inl n ↦ absurd (there p e n)
      | inr (l, k) ↦ elim (Option-cases before.best_price) [
        | inl n ↦ absurd (
            let gone = best_key-none before.side before.levels p (sym v.cached ∙ n) in
            cc (sym k ∙ gone))
        | inr (a, m) ↦
            apart_worse s own a p
              (subst (λ t. AsGood t a p) side ((best_price-IsBest before a v m).1 p l k))
              (subst (λ x. Apart s own x) m h)
      ]
    ]

pub Progress-Uncrossed :
    (s : Side) (b b' : OrderBook)
    → IsWellFormed b
    → Progress s b b'
    → Uncrossed s b
    → Uncrossed s b'
unfolding opposite_side
Progress-Uncrossed s b b' wf k h own e =
    Apart-fewer s own (side_of b (opposite s)) (side_of b' (opposite s))
      (wf.sides (opposite s)).valid (k.well_formed.sides (opposite s)).valid
      (wf.sides (opposite s)).sided k.no_new_levels
      (h own (ap (λ (ps : PriceLevels). ps.best_price) (sym k.own_side) ∙ e))

pub Added-Uncrossed :
    (b : OrderBook) (o : Order) (b' : OrderBook)
    → Added b o b'
    → Apart o.side o.price (opposite_side b o.side).best_price
    → Uncrossed o.side b
    → Uncrossed o.side b'
unfolding opposite_side
Added-Uncrossed b o b' k apart h own e =
    subst (λ ps. Apart o.side own ps.best_price) (sym k.other_side)
      (elim k.best [
        | inl new ↦
            (let same : o.price ≡ own = cc (sym new ∙ e) in
              subst (λ x. Apart o.side x (side_of b (opposite o.side)).best_price) same apart)
        | inr old ↦ h own (sym old ∙ e)
      ])
