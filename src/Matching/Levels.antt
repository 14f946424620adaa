-- ===== src/Matching/Levels.antt =====
-- src/matching.rs: the level at which orders trade, and the index of orders.
use rustbook.Prelude.{◌+◌, ◌-◌, ◌<◌, ◌≡◌, sym, ap, ◌∙◌, subst, List, ◌∷◌, some, arith}
use rustbook.Prelude.HashMap
use mathlib.Core.Option.{some-injective}
use rustbook.Prelude.HashMap.{HashMap, get-insert_self}
use rustbook.Types.{Price, Quantity, OrderId, Side}
use rustbook.Order.{Order, after_fill, is_active}
use rustbook.Level
use rustbook.Level.{Level, skip_pop, take_total, pop_front, decrease_quantity, front, skip_front}
use rustbook.Level.Queue.{active, front_lem, pop_front_lem}
use rustbook.Book.WellFormed.{
  LevelFits, Queued, total, remaining_in, Queued-insert_absent, total-insert_absent, Rests,
}

pub front-LevelFits :
    (orders : HashMap Order) (side : Side) (p : Price) (l : Level)
    → LevelFits orders side p l
    → LevelFits orders side p (front l).0
front-LevelFits orders side p l f =
    let (counted, same, _, kept) = front_lem l f.counted in
    record {
      counted = counted;
      queued = subst (Queued orders side p) (sym same) f.queued;
      totalled = kept ∙ f.totalled ∙ ap (total orders) (sym same);
      in_range = omega (arith, kept, f.in_range);
    }

-- What `pop_front` takes off the total.
pop_front_total :
    (l : Level) (q : Quantity) (id : OrderId)
    → (pop_front l q).1 ≡ some id
    → (pop_front l q).0.total_quantity ≡ l.total_quantity - q
unfolding pop_front take_total
pop_front_total l q id e = ground arith

module _ (orders : HashMap Order) (side : Side) (p : Price) (l : Level) (id : OrderId)
    (rest : List OrderId) (o : Order) (f : LevelFits orders side p l) (e : active l ≡ id ∷ rest)
    (held : HashMap.get orders id ≡ some o) where
  queue_here : Queued orders side p (id ∷ rest)
  queue_here = subst (Queued orders side p) e f.queued

  total_here : l.total_quantity ≡ o.remaining_quantity + total orders rest
  unfolding total remaining_in
  total_here = f.totalled ∙ ap (total orders) e ∙ ap (λ r. remaining_in r + total orders rest) held

  pub Rests-here : Rests side p id o
  Rests-here =
      let (o2, found, rests) = queue_here.0 in
      subst (Rests side p id) (some-injective _ _ (sym found ∙ held)) rests

  after_fill-Rests : (q : Quantity) → q < o.remaining_quantity → Rests side p id (after_fill o q)
  unfolding after_fill is_active
  after_fill-Rests q less = ground (arith, Rests-here)

  -- The order at the front is filled wholly and leaves.
  pub pop_front-LevelFits :
      (o' : Order)
      → LevelFits (HashMap.insert orders id o') side p (pop_front l o.remaining_quantity).0
  pop_front-LevelFits o' =
      let (counted, left, found) = pop_front_lem l o.remaining_quantity f.counted in
      let tail_is = left ∙ ap Level.Queue.tail e in
      let taken = pop_front_total l o.remaining_quantity id (found ∙ ap Level.Queue.head e) in
      let sum = total-insert_absent orders side p id o' rest queue_here.1 in
      record {
        counted = counted;
        queued =
            subst (Queued (HashMap.insert orders id o') side p) (sym tail_is)
              (Queued-insert_absent orders side p id o' rest queue_here.1 queue_here.2);
        totalled =
            omega (arith, taken, total_here, sum, ap (total (HashMap.insert orders id o')) tail_is);
        in_range = omega (arith, taken, f.in_range);
      }

  -- The order at the front is filled in part and stays.
  pub decrease_quantity-LevelFits :
      (q : Quantity)
      → q < o.remaining_quantity
      → LevelFits (HashMap.insert orders id (after_fill o q)) side p (decrease_quantity l q)
  unfolding decrease_quantity total remaining_in after_fill
  decrease_quantity-LevelFits q less =
      let new_here = get-insert_self orders id (after_fill o q) in
      record {
        counted = ground (arith, f.counted.counted);
        queued = subst (Queued (HashMap.insert orders id (after_fill o q)) side p) (sym e) (
          (after_fill o q, new_here, after_fill-Rests q less),
          queue_here.1,
          Queued-insert_absent orders side p id (after_fill o q) rest queue_here.1 queue_here.2,
        );
        totalled = omega (
          arith,
          total_here,
          ap (total (HashMap.insert orders id (after_fill o q))) e,
          ap remaining_in new_here,
          total-insert_absent orders side p id (after_fill o q) rest queue_here.1,
        );
        in_range = omega (arith, f.in_range);
      }

  pub decrease_quantity_positive :
      (q : Quantity) → q < o.remaining_quantity → 0 < (decrease_quantity l q).total_quantity
  unfolding decrease_quantity
  decrease_quantity_positive q less = omega (arith, total_here)
