-- ===== src/Matching/Progress.antt =====
-- src/matching.rs: progress of a book under matching, and what reading a front makes of it.
use rustbook.Prelude.{◌≤◌, ◌<◌, ◌≡◌, refl, ap, ◌∙◌, List, [], ◌∷◌, Option, none, some, arith, done}
use rustbook.Prelude.HashMap
use rustbook.Prelude.HashMap.{get-insert}
use rustbook.Prelude.BTreeMap
use rustbook.Prelude.BTreeMap.{BTreeMap}
use rustbook.Prelude.BTreeMap.Laws
use rustbook.Types.{Price, OrderId, Side, buy, sell, opposite}
use rustbook.Order.{Order}
use rustbook.Trade.{Trade}
use rustbook.Level.{Level, front}
use rustbook.Level.Queue.{active, front_lem, head}
use rustbook.PriceLevels.{PriceLevels, put_level}
use rustbook.Book.{OrderBook, side_of, put_side, opposite_side}
use rustbook.Book.Sides.{put_side-IsWellFormed, put_side_keeps}
use rustbook.Book.WellFormed.{LevelFits, SideFits, IsWellFormed, total}
use rustbook.Book.Edits.{put_level-SideFits, put_level_no_new}
use rustbook.Matching.{leaves, match_round, after_front, front_at, edit_level, slots}
use rustbook.Matching.Levels.{front-LevelFits}
use rustbook.Matching.Slots.{slots-put_level, length-front}

-- A book that matching against the side opposite to `s` may make of a book: it is well formed, its
-- index holds no new id, the own side and the next order id are the same, and the opposite side has
-- no more slots and no new level.
pub record Progress (s : Side) (b b' : OrderBook) : Type 0 where
  pub well_formed : IsWellFormed b'
  pub no_new_ids : (j : OrderId) → HashMap.get b.orders j ≡ none → HashMap.get b'.orders j ≡ none
  pub own_side : side_of b' s ≡ side_of b s
  pub next_id : b'.next_order_id ≡ b.next_order_id
  pub fewer : slots (opposite_side b' s).levels ≤ slots (opposite_side b s).levels
  pub no_new_levels :
      (k : Price)
      → BTreeMap.get (opposite_side b s).levels k ≡ none
      → BTreeMap.get (opposite_side b' s).levels k ≡ none

pub Progress-refl : (s : Side) (b : OrderBook) → IsWellFormed b → Progress s b b
Progress-refl s b wf = record {
  well_formed = wf;
  no_new_ids = λ j e. e;
  own_side = refl;
  next_id = refl;
  fewer = omega arith;
  no_new_levels = λ k e. e;
}

pub Progress-trans :
    (s : Side) (b c d : OrderBook) → Progress s b c → Progress s c d → Progress s b d
Progress-trans s b c d h k = record {
  well_formed = k.well_formed;
  no_new_ids = λ j e. k.no_new_ids j (h.no_new_ids j e);
  own_side = k.own_side ∙ h.own_side;
  next_id = k.next_id ∙ h.next_id;
  fewer = omega (arith, h.fewer, k.fewer);
  no_new_levels = λ p e. k.no_new_levels p (h.no_new_levels p e);
}

-- A side that is put into a book is the opposite one, and the own side stays.
pub opposite_side-put_side :
    (b : OrderBook) (s : Side) (ps : PriceLevels)
    → (opposite_side (put_side b (opposite s) ps) s ≡ ps)
      × (side_of (put_side b (opposite s) ps) s ≡ side_of b s)
unfolding opposite_side side_of put_side opposite
opposite_side-put_side b buy ps = (refl, refl)
opposite_side-put_side b sell ps = (refl, refl)

-- A level with something left has an order at its front.
pub active-some :
    (b : OrderBook) (t : Side) (p : Price) (l : Level)
    → IsWellFormed b
    → BTreeMap.get (side_of b t).levels p ≡ some l
    → (id : OrderId) × (rest : List OrderId) × (active l ≡ id ∷ rest)
unfolding total
active-some b t p l wf there = go (active l) refl
  where
    fits_here : LevelFits b.orders t p l × (0 < l.total_quantity)
    fits_here = (wf.sides t).fits p l there

    go :
        (ids : List OrderId)
        → active l ≡ ids
        → (id : OrderId) × (rest : List OrderId) × (active l ≡ id ∷ rest)
    go [] e = absurd (omega (arith, ap (total b.orders) e, fits_here.0.totalled, fits_here.1))
    go (id ∷ rest) e = (id, rest, e)

-- A change of a level that is there is a write of the opposite side.
pub edit_level_lem :
    (b : OrderBook) (s : Side) (p : Price) (l : Level) (f : PriceLevels → Level → PriceLevels)
    → BTreeMap.get (opposite_side b s).levels p ≡ some l
    → edit_level b s p f ≡ put_side b (opposite s) (f (opposite_side b s) l)
unfolding edit_level
edit_level_lem b s p l f e = rw (e, edit_level)

front_at_absent :
    (b : OrderBook) (s : Side) (p : Price)
    → BTreeMap.get (opposite_side b s).levels p ≡ none
    → front_at b s p ≡ (b, none)
unfolding front_at
front_at_absent b s p e = rw (e, front_at)

-- Without a level at the price the inner loop ends at once.
pub match_round_absent :
    (b : OrderBook) (o : Order) (p : Price) (ts : List Trade)
    → BTreeMap.get (opposite_side b o.side).levels p ≡ none
    → match_round b o p ts ≡ done (leaves b)
unfolding match_round after_front
match_round_absent b o p ts e = ap (after_front o p ts) (front_at_absent b o.side p e)

-- A write of the opposite side of a book `c` that `b` became is progress, if the result is well
-- formed and the side that is written has no more slots.
pub write-Progress :
    (s : Side) (b c : OrderBook) (ps : PriceLevels)
    → IsWellFormed (put_side c (opposite s) ps)
    → ((j : OrderId) → HashMap.get b.orders j ≡ none → HashMap.get c.orders j ≡ none)
    → side_of c s ≡ side_of b s
    → c.next_order_id ≡ b.next_order_id
    → slots ps.levels ≤ slots (opposite_side b s).levels
    → ((k : Price)
        → BTreeMap.get (opposite_side b s).levels k ≡ none
        → BTreeMap.get ps.levels k ≡ none)
    → Progress s b (put_side c (opposite s) ps)
write-Progress s b c ps wf old same next fewer none_new =
    let (orders, kept) = put_side_keeps c (opposite s) ps in
    let (there, own) = opposite_side-put_side c s ps in
    record {
      well_formed = wf;
      no_new_ids = λ j e. ap (λ m. HashMap.get m j) orders ∙ old j e;
      own_side = own ∙ same;
      next_id = kept ∙ next;
      fewer = omega (arith, ap (λ (q : PriceLevels). slots q.levels) there, fewer);
      no_new_levels = λ k e. ap (λ (q : PriceLevels). BTreeMap.get q.levels k) there ∙ none_new k e;
    }

module _ (b : OrderBook) (s : Side) (p : Price) (l : Level) (wf : IsWellFormed b)
    (there : BTreeMap.get (opposite_side b s).levels p ≡ some l) where
  pub fits_opposite : SideFits b.orders (opposite s) (opposite_side b s)
  unfolding opposite_side
  fits_opposite = wf.sides (opposite s)

  -- The side once `front` has dropped tombstones.
  pub fronted_side : PriceLevels
  fronted_side = put_level (opposite_side b s) p (front l).0

  unfoldable pub fronted : OrderBook
  unfolding fronted_side
  fronted = put_side b (opposite s) fronted_side

  pub front_at_lem : front_at b s p ≡ (fronted, head (active l))
  unfolding front_at fronted
  front_at_lem =
      let found = (front_lem l (fits_opposite.fits p l there).0.counted).2 in
      rw (there, front_at, edit_level_lem b s p l _ there)
        (ap (λ (x : Option OrderId). (put_side b (opposite s) fronted_side, x)) found)

  fronted_side-SideFits : SideFits b.orders (opposite s) fronted_side
  unfolding fronted_side
  fronted_side-SideFits =
      let (fits, more) = fits_opposite.fits p l there in
      let kept = (front_lem l fits.counted).3 in
      put_level-SideFits b.orders (opposite s) (opposite_side b s) p l fits_opposite.valid
        fits_opposite.sided there (λ k w n e. fits_opposite.fits k w e) (front l).0
        (front-LevelFits b.orders (opposite s) p l fits) (omega (arith, kept, more))

  pub fronted-Progress : Progress s b fronted
  unfolding fronted fronted_side
  fronted-Progress =
      write-Progress s b b fronted_side
        (put_side-IsWellFormed b (opposite s) fronted_side fronted_side-SideFits (λ t n. wf.sides t)
          wf.fresh wf.started)
        (λ j e. e) refl refl
        (omega (
          arith,
          slots-put_level (opposite_side b s) p l (front l).0 fits_opposite.valid.sorted there,
          length-front l,
        ))
        (λ k e. put_level_no_new (opposite_side b s) p k l (front l).0 there e)

  pub fronted_there : BTreeMap.get (opposite_side fronted s).levels p ≡ some (front l).0
  unfolding fronted fronted_side put_level
  fronted_there =
      let (written, _) = opposite_side-put_side b s fronted_side in
      ap (λ (q : PriceLevels). BTreeMap.get q.levels p) written
      ∙ Laws.get-insert_self (opposite_side b s).levels p (front l).0
