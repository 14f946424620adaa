-- ===== src/Matching/Rounds.antt =====
-- src/matching.rs: a round of matching in a well-formed book.
use rustbook.Prelude.{◌<◌, ◌≡◌, refl, sym, ◌∙◌, subst, List, ◌∷◌, some, arith}
use rustbook.Prelude.HashMap
use rustbook.Prelude.HashMap.{HashMap, get-insert}
use rustbook.Prelude.BTreeMap
use rustbook.Prelude.BTreeMap.{BTreeMap}
use rustbook.Types.{Price, Quantity, OrderId, Side, buy, sell, wrapping_add}
use rustbook.Order.{Order, after_fill}
use rustbook.Level.{Level, pop_front, decrease_quantity}
use rustbook.Level.Queue.{active}
use rustbook.PriceLevels.{PriceLevels, put_level, settle_level}
use rustbook.Book.{OrderBook, side_of, put_side}
use rustbook.Book.Sides.{put_side-IsWellFormed}
use rustbook.Book.WellFormed.{LevelFits, SideFits, IsWellFormed, Rests}
use rustbook.Book.Edits.{
  put_level-SideFits, settle_level-SideFits, FitsBut, FitsBut-insert, SideFits-insert_other,
}
use rustbook.Matching.Levels.{
  pop_front-LevelFits, decrease_quantity-LevelFits, decrease_quantity_positive, Rests-here,
}

-- The book after a trade: one order changed, and two counters moved on.
abbrev pub traded : OrderBook → OrderId → Order → OrderBook
traded b id o = record b {
  orders = HashMap.insert b.orders id o;
  next_trade_id = wrapping_add b.next_trade_id 1;
  next_timestamp = wrapping_add b.next_timestamp 1;
}

pub side_of_traded :
    (b : OrderBook) (id : OrderId) (o : Order) (s : Side) → side_of (traded b id o) s ≡ side_of b s
unfolding side_of
side_of_traded b id o buy = refl
side_of_traded b id o sell = refl

module _ (b : OrderBook) (t : Side) (p : Price) (l : Level) (id : OrderId) (rest : List OrderId)
    (o : Order) (wf : IsWellFormed b) (there : BTreeMap.get (side_of b t).levels p ≡ some l)
    (queue : active l ≡ id ∷ rest) (held : HashMap.get b.orders id ≡ some o) where
  level_here : LevelFits b.orders t p l
  level_here = ((wf.sides t).fits p l there).0

  rests : Rests t p id o
  rests = Rests-here b.orders t p l id rest o level_here queue held

  others : (o' : Order) → FitsBut (HashMap.insert b.orders id o') t (side_of b t) p
  others o' =
      subst (FitsBut (HashMap.insert b.orders id o') t (side_of b t)) rests.placed
        (FitsBut-insert b.orders id o o' held t (side_of b t) (wf.sides t))

  pub fresh_traded :
      (o' : Order) (j : OrderId) (x : Order)
      → HashMap.get (HashMap.insert b.orders id o') j ≡ some x
      → j < b.next_order_id
  fresh_traded o' j x h =
      ground (arith, get-insert b.orders id j o', wf.fresh id o held, wf.fresh j x)

  -- Any change of the level at which `o` rests that agrees with the new order makes a well-formed book.
  write-IsWellFormed :
      (o' : Order) (ps : PriceLevels)
      → SideFits (HashMap.insert b.orders id o') t ps
      → IsWellFormed (put_side (traded b id o') t ps)
  write-IsWellFormed o' ps h =
      put_side-IsWellFormed (traded b id o') t ps h
        (λ s n.
          subst (SideFits (HashMap.insert b.orders id o') s) (sym (side_of_traded b id o' s)) (
            SideFits-insert_other b.orders id o o' held s (side_of b s)
              (λ e. n (sym e ∙ rests.sided)) (wf.sides s)))
        (fresh_traded o') wf.started

  pub fully_filled-IsWellFormed :
      (o' : Order)
      → IsWellFormed (
          put_side
            (traded b id o')
            t
            (settle_level (side_of b t) p (pop_front l o.remaining_quantity).0))
  fully_filled-IsWellFormed o' = write-IsWellFormed o' _ (
      settle_level-SideFits (HashMap.insert b.orders id o') t (side_of b t) p l (wf.sides t).valid
        (wf.sides t).sided there (others o') (pop_front l o.remaining_quantity).0
        (pop_front-LevelFits b.orders t p l id rest o level_here queue held o'))

  pub partly_filled-IsWellFormed :
      (q : Quantity)
      → q < o.remaining_quantity
      → IsWellFormed (
          put_side
            (traded b id (after_fill o q))
            t
            (put_level (side_of b t) p (decrease_quantity l q)))
  partly_filled-IsWellFormed q less =
      let fits =
        decrease_quantity-LevelFits b.orders t p l id rest o level_here queue held q less in
      write-IsWellFormed (after_fill o q) _ (
        put_level-SideFits (HashMap.insert b.orders id (after_fill o q)) t (side_of b t) p l
          (wf.sides t).valid (wf.sides t).sided there (others (after_fill o q))
          (decrease_quantity l q) fits
          (decrease_quantity_positive b.orders t p l id rest o level_here queue held q less))
