-- ===== src/Book/Adding.antt =====
-- src/book.rs: `add_order` on a well-formed book.
use rustbook.Prelude.{
  ℕ, ◌+◌, ◌<◌, ◌^◌, ◌≡◌, ◌⊎◌, refl, sym, ap, ◌∙◌, subst, true, none, some, arith, length, done,
  Returns,
}
use rustbook.Prelude.HashMap
use rustbook.Prelude.HashMap.{HashMap, get-insert, get-insert_self}
use rustbook.Types.{OrderId, Side, opposite, buy, sell}
use rustbook.Order.{Order, is_active}
use rustbook.Level.{Level, after_push}
use rustbook.PriceLevels.{PriceLevels, put_level, get_or_create_level}
use rustbook.PriceLevels.Changes.{get_or_create_level-IsValid}
use rustbook.Book.{OrderBook, side_of, put_side, add_order, store_order}
use rustbook.Book.WellFormed.{SideFits, Rests, IsWellFormed}
use rustbook.Book.Edits.{put_level-SideFits}
use rustbook.Book.Sides.{
  with_orders, side_of_orders, put_side-IsWellFormed, side_of-put_side, put_side_keeps,
}
use rustbook.Book.Pushing.{
  HasRoom, get_or_create_level-fits, insert_order_done, side_of-put_side_other,
}
use rustbook.Book.Queues.{Joined, put_level-Joined}
use rustbook.Book.Placement.{LevelFits-insert_new, after_push-LevelFits, SideFits-insert_new}

-- What `add_order` makes of a book: the order's id joins its side behind all others at its price,
-- the index has the order, but for its slot, under its id, the other side is the same, and the best
-- price of the order's side is its price or the one before.
pub record Added (b : OrderBook) (o : Order) (b' : OrderBook) : Type 0 where
  pub well_formed : IsWellFormed b'
  pub other_side : side_of b' (opposite o.side) ≡ side_of b (opposite o.side)
  pub best :
      ((side_of b' o.side).best_price ≡ some o.price)
      ⊎ ((side_of b' o.side).best_price ≡ (side_of b o.side).best_price)
  pub next_id : b'.next_order_id ≡ b.next_order_id
  pub joined : Joined (side_of b o.side) o.price o.id (side_of b' o.side)
  pub stored : (i : ℕ) × (HashMap.get b'.orders o.id ≡ some (record o { position_in_level = i }))

module _ (b : OrderBook) (o : Order) (wf : IsWellFormed b)
    (unknown : HashMap.get b.orders o.id ≡ none) (old : o.id < b.next_order_id)
    (numbered : 0 < o.id) (live : is_active o.status ≡ true) (positive : 0 < o.remaining_quantity)
    (small : o.remaining_quantity < 2 ^ 64)
    (room : HasRoom (side_of b o.side) o.price o.remaining_quantity) where
  side_fits : SideFits b.orders o.side (side_of b o.side)
  side_fits = wf.sides o.side

  placed_side : PriceLevels
  placed_side =
      put_level (get_or_create_level (side_of b o.side) o.price).0 o.price
        (after_push (get_or_create_level (side_of b o.side) o.price).1 o.id o.remaining_quantity)

  placed_at : (i : ℕ) → Order
  placed_at i = record o { position_in_level = i }

  rests : (i : ℕ) → Rests o.side o.price o.id (placed_at i)
  unfolding placed_at
  rests i = record { placed = refl; sided = refl; named = refl; live = live; positive = positive }

  more_left :
      (l : Level)
      → l.total_quantity + o.remaining_quantity < 2 ^ 64
      → 0 < (after_push l o.id o.remaining_quantity).total_quantity
  unfolding after_push
  more_left l h = omega (arith, positive, h)

  placed_side-SideFits :
      (i : ℕ) → SideFits (HashMap.insert b.orders o.id (placed_at i)) o.side placed_side
  unfolding placed_side placed_at
  placed_side-SideFits i =
      let f =
        get_or_create_level-fits b.orders o.side (side_of b o.side) o.price o.remaining_quantity
          side_fits room small in
      let made = get_or_create_level-IsValid (side_of b o.side) o.price side_fits.valid in
      let (ps, level) = get_or_create_level (side_of b o.side) o.price in
      let m = HashMap.insert b.orders o.id (placed_at i) in
      put_level-SideFits m o.side ps o.price level made.0 f.3 made.1
        (λ k w n h.
          let (fits, more) = f.2 k w n h in
          (LevelFits-insert_new b.orders o.id (placed_at i) unknown o.side k w fits, more))
        (after_push level o.id o.remaining_quantity)
        (after_push-LevelFits b.orders o.id (placed_at i) unknown o.side o.price level f.0 (rests i)
          (omega arith) f.1)
        (more_left level f.1)

  placed_book : ℕ → OrderBook
  placed_book i =
      put_side (with_orders b (HashMap.insert b.orders o.id (placed_at i))) o.side placed_side

  fresh_placed :
      (i : ℕ) (j : OrderId) (x : Order)
      → HashMap.get (HashMap.insert b.orders o.id (placed_at i)) j ≡ some x
      → j < b.next_order_id
  fresh_placed i j x h = ground (arith, get-insert b.orders o.id j (placed_at i), wf.fresh j x)

  abbrev BestOf : PriceLevels → Type 0
  BestOf ps = (ps.best_price ≡ some o.price) ⊎ (ps.best_price ≡ (side_of b o.side).best_price)

  placed_best : BestOf placed_side
  unfolding placed_side put_level
  placed_best =
      (get_or_create_level-fits b.orders o.side (side_of b o.side) o.price o.remaining_quantity
        side_fits room small).4

  placed-Joined : Joined (side_of b o.side) o.price o.id placed_side
  unfolding placed_side
  placed-Joined =
      put_level-Joined (side_of b o.side) o.price o.id o.remaining_quantity
        (λ e. omega (arith, numbered, e))

  placed_book-Added : (i : ℕ) → Added b o (placed_book i)
  unfolding placed_book placed_at
  placed_book-Added i =
      let m = HashMap.insert b.orders o.id (placed_at i) in
      let c = with_orders b m in
      record {
        well_formed =
            put_side-IsWellFormed c o.side placed_side (placed_side-SideFits i)
              (λ s n. subst (SideFits m s) (sym (side_of_orders b m s)) (
                SideFits-insert_new b.orders o.id (placed_at i) unknown s (side_of b s)
                  (wf.sides s)))
              (fresh_placed i) wf.started;
        other_side =
            side_of-put_side_other c o.side placed_side ∙ side_of_orders b m (opposite o.side);
        best = subst BestOf (sym (side_of-put_side c o.side placed_side)) placed_best;
        next_id = (put_side_keeps c o.side placed_side).1;
        joined =
            subst (Joined (side_of b o.side) o.price o.id)
              (sym (side_of-put_side c o.side placed_side)) placed-Joined;
        stored = (
          i,
          ap (λ s. HashMap.get s o.id) (put_side_keeps c o.side placed_side).0
              ∙ get-insert_self b.orders o.id (placed_at i),
        );
      }

  place : ℕ
  place = length (get_or_create_level (side_of b o.side) o.price).1.orders

  store_order-placed_book : store_order b o placed_side place ≡ placed_book place
  unfolding store_order placed_book placed_at put_side
  store_order-placed_book = stored_as o.side
    where
      stored_as :
          (s : Side)
          → (record (put_side b s placed_side) {
            orders = HashMap.insert b.orders o.id (placed_at place);
          })
            ≡ put_side
                (with_orders b (HashMap.insert b.orders o.id (placed_at place)))
                s
                placed_side
      stored_as buy = refl
      stored_as sell = refl

  add_order_done : add_order b o ≡ done (store_order b o placed_side place)
  unfolding add_order HashMap.contains_key placed_side place
  add_order_done =
      rw
        (
          HashMap.contains_key,
          unknown,
          insert_order_done (side_of b o.side) o.price o.id o.remaining_quantity
              (λ e. omega (arith, numbered, e)),
        )
        refl

  -- Adding an active order with something left to a well-formed book that does not know its id
  -- returns, when the id is positive and below the next one, what remains fits 64 bits and the
  -- level has room for it. The book stays well formed, the other side and the next id are the same,
  -- and the best price of the order's side is the order's price or what it was; the order's id is
  -- behind all others in the queue at its price, the levels at the other prices of its side are as
  -- they were, and the index has the order, but for its slot.
  pub add_order-Added : Returns (Added b o) (add_order b o)
  add_order-Added =
      rw add_order_done (subst (Added b o) (sym store_order-placed_book) (placed_book-Added place))
