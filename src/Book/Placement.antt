-- ===== src/Book/Placement.antt =====
-- src/book.rs: a new order in the index and at the back of its level.
use rustbook.Prelude.{
  ◌+◌, ◌<◌, ◌^◌, ◌≡◌, ◌≢◌, sym, ap, ◌∙◌, subst, List, [], ◌∷◌, ◌++◌, none, some, arith, All,
  All-append,
}
use rustbook.Prelude.HashMap
use rustbook.Prelude.HashMap.{HashMap, get-insert, get-insert_self}
use rustbook.Types.{Price, OrderId, Side}
use rustbook.Order.{Order}
use rustbook.Level
use rustbook.Level.{Level, after_push, new_level}
use rustbook.Level.Queue.{active, IsCounted, tombstones}
use rustbook.PriceLevels.{PriceLevels}
use rustbook.Book.WellFormed.{
  LevelFits, SideFits, Queued, Rests, total, remaining_in, Queued-insert_absent,
  total-insert_absent,
}

-- An id that the index does not know is in no queue.
pub Queued-unknown :
    (orders : HashMap Order) (side : Side) (price : Price) (id : OrderId) (ids : List OrderId)
    → HashMap.get orders id ≡ none
    → Queued orders side price ids
    → All (λ j. j ≢ id) ids
Queued-unknown orders side price id [] h q = tt
Queued-unknown orders side price id (j ∷ ids) h (entry, apart, rest) = (
  λ same. clash (sym entry.1 ∙ ap (HashMap.get orders) same ∙ h),
  Queued-unknown orders side price id ids h rest,
)
  where
    clash : some entry.0 ≡ none → ⊥
    clash e = cc

-- An order at the back of a queue that does not hold its id.
Queued-append :
    (orders : HashMap Order) (side : Side) (price : Price) (id : OrderId) (o : Order)
    (ids : List OrderId)
    → HashMap.get orders id ≡ some o
    → Rests side price id o
    → All (λ j. j ≢ id) ids
    → Queued orders side price ids
    → Queued orders side price (ids ++ id ∷ [])
Queued-append orders side price id o [] h r a q = ((o, h, r), tt, tt)
Queued-append orders side price id o (j ∷ ids) h r a (entry, apart, rest) = (
  entry,
  All-append (λ k. k ≢ j) ids (id ∷ []) apart ((λ e. a.0 (sym e)), tt),
  Queued-append orders side price id o ids h r a.1 rest,
)

total-append :
    (orders : HashMap Order) (ids js : List OrderId)
    → total orders (ids ++ js) ≡ total orders ids + total orders js
unfolding total
total-append orders [] js = omega arith
total-append orders (j ∷ ids) js = omega (arith, total-append orders ids js)

pub iter_last :
    (ids : List OrderId) (id : OrderId)
    → id ≢ 0
    → Level.iter (ids ++ id ∷ []) ≡ Level.iter ids ++ id ∷ []
unfolding Level.iter
iter_last ids id n = ground (arith, Level.Queue.iter-append ids (id ∷ []))

module _ (orders : HashMap Order) (id : OrderId) (x : Order)
    (unknown : HashMap.get orders id ≡ none) where
  pub LevelFits-insert_new :
      (side : Side) (k : Price) (l : Level)
      → LevelFits orders side k l
      → LevelFits (HashMap.insert orders id x) side k l
  LevelFits-insert_new side k l f =
      let absent = Queued-unknown orders side k id (active l) unknown f.queued in
      record {
        counted = f.counted;
        queued = Queued-insert_absent orders side k id x (active l) absent f.queued;
        totalled = f.totalled ∙ sym (total-insert_absent orders side k id x (active l) absent);
        in_range = f.in_range;
      }

  pub SideFits-insert_new :
      (side : Side) (ps : PriceLevels)
      → SideFits orders side ps
      → SideFits (HashMap.insert orders id x) side ps
  SideFits-insert_new side ps f = record {
    valid = f.valid;
    sided = f.sided;
    fits = λ k l h. let (fits, more) = f.fits k l h in (LevelFits-insert_new side k l fits, more);
  }

  -- The level with the new order at its back.
  pub after_push-LevelFits :
      (side : Side) (p : Price) (l : Level)
      → LevelFits orders side p l
      → Rests side p id x
      → id ≢ 0
      → l.total_quantity + x.remaining_quantity < 2 ^ 64
      → LevelFits (HashMap.insert orders id x) side p (after_push l id x.remaining_quantity)
  unfolding after_push Level.iter total remaining_in tombstones
  after_push-LevelFits side p l f r n room =
      let f' = LevelFits-insert_new side p l f in
      let here = get-insert_self orders id x in
      let absent = Queued-unknown orders side p id (active l) unknown f.queued in
      let back = iter_last l.orders id n in
      record {
        counted =
            ground (arith, Level.Queue.tombstones-append l.orders (id ∷ []), f.counted.counted);
        queued = subst (Queued (HashMap.insert orders id x) side p) (sym back) (
            Queued-append (HashMap.insert orders id x) side p id x (active l) here r absent
              f'.queued);
        totalled = omega (
          arith,
          f'.totalled,
          ap (total (HashMap.insert orders id x)) back,
          total-append (HashMap.insert orders id x) (active l) (id ∷ []),
          ap remaining_in here,
          room,
        );
        in_range = omega (arith, room);
      }
