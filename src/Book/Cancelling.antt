-- ===== src/Book/Cancelling.antt =====
-- src/book.rs: `cancel_order` on a well-formed book, where the order's slot is the right one.
use rustbook.Prelude.{
  ℕ, zero, suc, ◌+◌, ◌-◌, ◌<◌, ◌≡◌, ◌≢◌, refl, sym, ap, ◌∙◌, subst, true, List, [], ◌∷◌, ◌++◌,
  Option, some, arith, All, length, get_elem?, done, Returns,
}
use mathlib.Core.Option.{some-injective}
use rustbook.Prelude.HashMap
use rustbook.Prelude.HashMap.{HashMap, get-insert, get-insert_self}
use rustbook.Prelude.BTreeMap
use rustbook.Types.{Price, Quantity, OrderId, Side, opposite}
use rustbook.Order
use rustbook.Order.{Order, cancelled, is_active}
use rustbook.Level
use rustbook.Level.{Level}
use rustbook.Level.Queue.{active, mark_tombstone_lem}
use rustbook.PriceLevels
use rustbook.PriceLevels.{PriceLevels, settle_level}
use rustbook.Book.{OrderBook, side_of, put_side, cancel_order, unlink_order, get_order}
use rustbook.Book.WellFormed.{
  LevelFits, SideFits, Queued, Rests, total, remaining_in, Queued-insert_absent,
  total-insert_absent, IsWellFormed,
}
use rustbook.Book.Edits.{settle_level-SideFits, FitsBut-insert, SideFits-insert_other}
use rustbook.Book.Sides.{put_side-IsWellFormed, put_side_keeps, with_orders, side_of_orders}

-- What is at an index splits the list.
split_at {ℓ} :
    {A : Type ℓ} (xs : List A) (i : ℕ) (x : A)
    → get_elem? xs i ≡ some x
    → (before : List A) × (after : List A) × (xs ≡ before ++ x ∷ after) × (length before ≡ i)
split_at [] i x h = absurd cc
split_at (y ∷ ys) zero x h = ([], ys, ap (λ z. z ∷ ys) (some-injective _ _ h), refl)
split_at (y ∷ ys) (suc i) x h =
    let (before, after, e, n) = split_at ys i x h in (y ∷ before, after, ap (◌∷◌ y) e, ap suc n)

All-drop {ℓ κ} :
    {A : Type ℓ} (P : A → Type κ) (xs ys : List A) (x : A)
    → All P (xs ++ x ∷ ys)
    → All P (xs ++ ys) × P x
All-drop P [] ys x h = (h.1, h.0)
All-drop P (y ∷ xs) ys x h = let (rest, p) = All-drop P xs ys x h.1 in ((h.0, rest), p)

-- A queue without one of its ids: the others, none of which is the id, and what remains.
Queued-drop :
    (orders : HashMap Order) (side : Side) (price : Price) (xs ys : List OrderId) (id : OrderId)
    → Queued orders side price (xs ++ id ∷ ys)
    → Queued orders side price (xs ++ ys)
      × All (λ j. j ≢ id) (xs ++ ys)
      × ((o : Order) × (HashMap.get orders id ≡ some o) × Rests side price id o)
      × (total orders (xs ++ id ∷ ys)
          ≡ remaining_in (HashMap.get orders id) + total orders (xs ++ ys))
unfolding total
Queued-drop orders side price [] ys id (entry, apart, rest) = (rest, apart, entry, refl)
Queued-drop orders side price (x ∷ xs) ys id (entry, apart, rest) =
    let (queued, others, found, sum) = Queued-drop orders side price xs ys id rest in
    let (apart', n) = All-drop (λ j. j ≢ x) xs ys id apart in
    ((entry, apart', queued), ((λ e. n (sym e)), others), found, omega (arith, sum))

mark_total :
    (l : Level) (i : ℕ) (id : OrderId) (q : Quantity)
    → get_elem? l.orders i ≡ some id
    → id ≢ 0
    → (Level.mark_tombstone l i q).total_quantity ≡ l.total_quantity - q
unfolding Level.mark_tombstone Level.mark_slot
mark_total l i id q h n = ground arith

-- The level at which an order rests, once the slot that holds it is marked.
module _ (orders : HashMap Order) (side : Side) (p : Price) (l : Level) (id : OrderId)
    (o o' : Order) (f : LevelFits orders side p l) (held : HashMap.get orders id ≡ some o) (i : ℕ)
    (slot : get_elem? l.orders i ≡ some id) (numbered : id ≢ 0) where
  marked : Level
  marked = Level.mark_tombstone l i o.remaining_quantity

  mark-LevelFits :
      (before after : List OrderId)
      → l.orders ≡ before ++ id ∷ after
      → length before ≡ i
      → LevelFits (HashMap.insert orders id o') side p marked × Rests side p id o
  unfolding marked total remaining_in
  mark-LevelFits before after e n =
      let (counted, was, left) =
        mark_tombstone_lem l before after id o.remaining_quantity f.counted e numbered in
      let (queued, apart, found, sum) =
        Queued-drop orders side p (Level.iter before) (Level.iter after) id
          (subst (Queued orders side p) was f.queued) in
      let left' = ap (λ j. active (Level.mark_tombstone l j o.remaining_quantity)) (sym n) ∙ left in
      let rest = Level.iter before ++ Level.iter after in
      (
        (record {
          counted =
              subst (λ j. Level.Queue.IsCounted (Level.mark_tombstone l j o.remaining_quantity)) n
                counted;
          queued =
              subst (Queued (HashMap.insert orders id o') side p) (sym left')
                (Queued-insert_absent orders side p id o' rest apart queued);
          totalled = omega (
            arith,
            mark_total l i id o.remaining_quantity slot numbered,
            f.totalled,
            ap (total orders) was,
            sum,
            ap remaining_in held,
            total-insert_absent orders side p id o' rest apart,
            ap (total (HashMap.insert orders id o')) left',
          );
          in_range =
              omega (arith, mark_total l i id o.remaining_quantity slot numbered, f.in_range);
        }),
        subst (Rests side p id) (some-injective _ _ (sym found.1 ∙ held)) found.2,
      )

-- A cancelled order: nothing is left of it.
abbrev pub closed : Order → Order
closed o = record o { remaining_quantity = 0; status = cancelled }

-- What the cancellation of an order makes of a book, and its answer.
pub record Cancelled (b : OrderBook) (id : OrderId) (o : Order) (b' : OrderBook)
    (q : Option Quantity) : Type 0 where
  pub well_formed : IsWellFormed b'
  pub amount : q ≡ some o.remaining_quantity
  pub gone : HashMap.get b'.orders id ≡ some (closed o)
  pub others : (j : OrderId) → j ≢ id → HashMap.get b'.orders j ≡ HashMap.get b.orders j
  pub other_side : side_of b' (opposite o.side) ≡ side_of b (opposite o.side)

mark_tombstone_there :
    (ps : PriceLevels) (p : Price) (l : Level) (i : ℕ) (q : Quantity)
    → BTreeMap.get ps.levels p ≡ some l
    → PriceLevels.mark_tombstone ps p i q ≡ settle_level ps p (Level.mark_tombstone l i q)
unfolding PriceLevels.mark_tombstone
mark_tombstone_there ps p l i q e = rw (PriceLevels.mark_tombstone, e) refl

cancel_order_done :
    (b : OrderBook) (id : OrderId) (o : Order)
    → HashMap.get b.orders id ≡ some o
    → is_active o.status ≡ true
    → cancel_order b id ≡ done (unlink_order b id o (closed o), some o.remaining_quantity)
unfolding cancel_order get_order Order.cancel
cancel_order_done b id o e live = rw (cancel_order, e, live) refl

put_side_other :
    (b : OrderBook) (t : Side) (ps : PriceLevels)
    → side_of (put_side b t ps) (opposite t) ≡ side_of b (opposite t)
unfolding side_of put_side opposite
put_side_other b Side.buy ps = refl
put_side_other b Side.sell ps = refl

module _ (b : OrderBook) (id : OrderId) (o : Order) (l : Level) (wf : IsWellFormed b)
    (held : HashMap.get b.orders id ≡ some o) (live : is_active o.status ≡ true) (numbered : 0 < id)
    (there : BTreeMap.get (side_of b o.side).levels o.price ≡ some l)
    (slot : get_elem? l.orders o.position_in_level ≡ some id) where
  indexed : HashMap Order
  indexed = HashMap.insert b.orders id (closed o)

  not_zero : id ≢ 0
  not_zero e = omega (arith, numbered, e)

  fits : LevelFits b.orders o.side o.price l
  fits = ((wf.sides o.side).fits o.price l there).0

  marked_fits :
      LevelFits indexed o.side o.price (
        marked b.orders o.side o.price l id o
          (closed o)
          fits
          held
          o.position_in_level
          slot
          not_zero)
      × Rests o.side o.price id o
  unfolding indexed
  marked_fits =
      let (before, after, e, n) = split_at l.orders o.position_in_level id slot in
      mark-LevelFits b.orders o.side o.price l id o (closed o) fits held o.position_in_level slot
        not_zero before after e n

  written : PriceLevels
  written =
      settle_level (side_of b o.side) o.price
        (Level.mark_tombstone l o.position_in_level o.remaining_quantity)

  unlink_order_lem :
      unlink_order b id o (closed o) ≡ put_side (with_orders b indexed) o.side written
  unfolding unlink_order indexed written
  unlink_order_lem = rw (side_of_orders b (HashMap.insert b.orders id (closed o)) o.side) (
      ap (put_side (with_orders b (HashMap.insert b.orders id (closed o))) o.side) (
        mark_tombstone_there (side_of b o.side) o.price l o.position_in_level o.remaining_quantity
          there))

  cancelled-IsWellFormed : IsWellFormed (put_side (with_orders b indexed) o.side written)
  unfolding indexed written marked
  cancelled-IsWellFormed =
      put_side-IsWellFormed (with_orders b indexed) o.side written
        (settle_level-SideFits indexed o.side (side_of b o.side) o.price l (wf.sides o.side).valid
          (wf.sides o.side).sided there
          (FitsBut-insert b.orders id o (closed o) held o.side (side_of b o.side) (wf.sides o.side))
          _ marked_fits.0)
        (λ s n. subst (SideFits indexed s) (sym (side_of_orders b indexed s)) (
          SideFits-insert_other b.orders id o (closed o) held s (side_of b s) (λ e. n (sym e))
            (wf.sides s)))
        (λ j x h.
          ground (arith, get-insert b.orders id j (closed o), wf.fresh id o held, wf.fresh j x))
        wf.started

  unlinked_book :
      Cancelled b id o (put_side (with_orders b indexed) o.side written) (some o.remaining_quantity)
  unfolding indexed
  unlinked_book = record {
    well_formed = cancelled-IsWellFormed;
    amount = refl;
    gone =
        ap (λ m. HashMap.get m id) (put_side_keeps (with_orders b indexed) o.side written).0
        ∙ get-insert_self b.orders id (closed o);
    others = λ j n.
        ap (λ m. HashMap.get m j) (put_side_keeps (with_orders b indexed) o.side written).0
        ∙ ground (arith, get-insert b.orders id j (closed o), n);
    other_side =
        put_side_other (with_orders b indexed) o.side written
        ∙ side_of_orders b indexed (opposite o.side);
  }

  -- Cancelling, in a well-formed book, an active order with a positive id whose slot in its level's
  -- queue holds that id, returns: the answer is what remained of the order, the order is stored as
  -- cancelled with nothing left, no other order of the index and nothing of the other side is
  -- changed, and the book stays well formed.
  pub cancel_order-Cancelled : Returns (λ r. Cancelled b id o r.0 r.1) (cancel_order b id)
  cancel_order-Cancelled = rw (cancel_order_done b id o held live) (
      subst (λ c. Cancelled b id o c (some o.remaining_quantity)) (sym unlink_order_lem)
        unlinked_book)
