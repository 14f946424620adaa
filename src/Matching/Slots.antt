-- ===== src/Matching/Slots.antt =====
-- src/matching.rs: the slots of a side, by which the loops are bounded.
use rustbook.Prelude.{ℕ, ◌+◌, ◌≤◌, ◌<◌, ◌≡◌, List, [], ◌∷◌, some, arith, length}
use rustbook.Prelude.BTreeMap
use rustbook.Prelude.BTreeMap.{BTreeMap, IsSorted}
use rustbook.Prelude.BTreeMap.Laws.{get-Above}
use rustbook.Types.{Price, OrderId, Quantity, wrapping_sub}
use rustbook.Level.{Level, front, pop_front, skip_front, skip_pop}
use rustbook.PriceLevels.{PriceLevels, put_level, settle_level, remove_level, recompute_best_price}
use rustbook.Matching.{slots}

-- How many slots a change of one level adds to a side.
pub slots-insert :
    (m : BTreeMap Level) (p : Price) (l l' : Level)
    → IsSorted m
    → BTreeMap.get m p ≡ some l
    → slots (BTreeMap.insert m p l') + length l.orders ≡ slots m + length l'.orders
unfolding slots BTreeMap.get BTreeMap.insert
slots-insert [] p l l' s h = cc
slots-insert ((j, w) ∷ m) p l l' s h =
    ground (arith, slots-insert m p l l' s.1, get-Above m j p s.0)

pub slots-remove : (m : BTreeMap Level) (p : Price) → slots (BTreeMap.remove m p) ≤ slots m
unfolding slots BTreeMap.remove
slots-remove [] p = omega arith
slots-remove ((j, w) ∷ m) p = ground (arith, slots-remove m p)

slots-remove_level :
    (ps : PriceLevels) (p : Price) → slots (remove_level ps p).levels ≤ slots ps.levels
unfolding remove_level recompute_best_price
slots-remove_level ps p = ground (arith, slots-remove ps.levels p)

pub slots-put_level :
    (ps : PriceLevels) (p : Price) (l l' : Level)
    → IsSorted ps.levels
    → BTreeMap.get ps.levels p ≡ some l
    → slots (put_level ps p l').levels + length l.orders ≡ slots ps.levels + length l'.orders
unfolding put_level
slots-put_level ps p l l' s h = slots-insert ps.levels p l l' s h

pub slots-settle_level :
    (ps : PriceLevels) (p : Price) (l l' : Level)
    → IsSorted ps.levels
    → BTreeMap.get ps.levels p ≡ some l
    → slots (settle_level ps p l').levels + length l.orders ≤ slots ps.levels + length l'.orders
unfolding settle_level
slots-settle_level ps p l l' s h =
    ground (arith, slots-put_level ps p l l' s h, slots-remove_level (put_level ps p l') p)

skip_front_le : (ids : List OrderId) (n : ℕ) → length (skip_front ids n).0 ≤ length ids
unfolding skip_front
skip_front_le [] n = omega arith
skip_front_le (id ∷ ids) n = ground (arith, skip_front_le ids (wrapping_sub n 1))

-- `front` adds no slot, and a `pop_front` that finds an order takes at least its slot.
pub length-front : (l : Level) → length (front l).0.orders ≤ length l.orders
unfolding front
length-front l = skip_front_le l.orders l.tombstone_count

skip_pop_lt :
    (ids : List OrderId) (n : ℕ) (id : OrderId)
    → (skip_pop ids n).2 ≡ some id
    → length (skip_pop ids n).0 < length ids
unfolding skip_pop
skip_pop_lt [] n id h = cc
skip_pop_lt (j ∷ ids) n id h = ground (arith, skip_pop_lt ids (wrapping_sub n 1) id)

pub length-pop_front :
    (l : Level) (q : Quantity) (id : OrderId)
    → (pop_front l q).1 ≡ some id
    → length (pop_front l q).0.orders < length l.orders
unfolding pop_front
length-pop_front l q id h = skip_pop_lt l.orders l.tombstone_count id h
