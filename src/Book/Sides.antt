-- ===== src/Book/Sides.antt =====
-- src/book.rs: a well-formed book of which one side was written.
use rustbook.Prelude.{◌<◌, ◌≡◌, ◌≢◌, refl, sym, ap, ◌∙◌, some}
use rustbook.Prelude.HashMap
use rustbook.Prelude.HashMap.{HashMap}
use rustbook.Types.{OrderId, Side, buy, sell}
use rustbook.Order.{Order}
use rustbook.PriceLevels.{PriceLevels}
use rustbook.Book.{OrderBook, side_of, put_side}
use rustbook.Book.WellFormed.{SideFits, IsWellFormed}

-- A side that is put into a book, beside another that agrees with the index.
put_side-sides :
    (b : OrderBook) (t : Side) (ps : PriceLevels)
    → SideFits b.orders t ps
    → ((s : Side) → s ≢ t → SideFits b.orders s (side_of b s))
    → (s : Side) → SideFits (put_side b t ps).orders s (side_of (put_side b t ps) s)
unfolding put_side side_of
put_side-sides b buy ps h k buy = h
put_side-sides b buy ps h k sell = k sell (λ e. cc)
put_side-sides b sell ps h k buy = k buy (λ e. cc)
put_side-sides b sell ps h k sell = h

pub side_of-put_side :
    (b : OrderBook) (t : Side) (ps : PriceLevels) → side_of (put_side b t ps) t ≡ ps
unfolding put_side side_of
side_of-put_side b buy ps = refl
side_of-put_side b sell ps = refl

-- The counters and the index that an edit of a level leaves.
pub put_side_keeps :
    (b : OrderBook) (t : Side) (ps : PriceLevels)
    → ((put_side b t ps).orders ≡ b.orders) × ((put_side b t ps).next_order_id ≡ b.next_order_id)
unfolding put_side
put_side_keeps b buy ps = (refl, refl)
put_side_keeps b sell ps = (refl, refl)

pub put_side-IsWellFormed :
    (b : OrderBook) (t : Side) (ps : PriceLevels)
    → SideFits b.orders t ps
    → ((s : Side) → s ≢ t → SideFits b.orders s (side_of b s))
    → ((id : OrderId) (o : Order) → HashMap.get b.orders id ≡ some o → id < b.next_order_id)
    → 0 < b.next_order_id
    → IsWellFormed (put_side b t ps)
put_side-IsWellFormed b t ps h k fresh started =
    let (orders, next) = put_side_keeps b t ps in
    record {
      sides = put_side-sides b t ps h k;
      fresh = λ id o e. rw next (fresh id o (ap (λ m. HashMap.get m id) (sym orders) ∙ e));
      started = rw next started;
    }

-- The book with its index of orders replaced.
abbrev pub with_orders : OrderBook → HashMap Order → OrderBook
with_orders b m = record b { orders = m }

pub side_of_orders :
    (b : OrderBook) (m : HashMap Order) (s : Side) → side_of (with_orders b m) s ≡ side_of b s
unfolding side_of
side_of_orders b m buy = refl
side_of_orders b m sell = refl
