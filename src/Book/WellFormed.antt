-- ===== src/Book/WellFormed.antt =====
-- src/book.rs: when the levels of a book agree with its index of orders.
use rustbook.Prelude.{
  ◌+◌, ◌<◌, ◌^◌, ◌≡◌, ◌≢◌, ◌⊎◌, inl, inr, refl, sym, ap, ◌∙◌, true, List, [], ◌∷◌, Option, none,
  some, arith, All,
}
use rustbook.Prelude.HashMap
use rustbook.Prelude.HashMap.{HashMap, get-insert}
use rustbook.Prelude.BTreeMap
use rustbook.Types.{Price, Quantity, OrderId, Side, buy, sell}
use rustbook.Order.{Order, is_active}
use rustbook.Level.{Level}
use rustbook.Level.Queue.{active, IsCounted}
use rustbook.PriceLevels.{PriceLevels, new_levels, best_key}
use rustbook.PriceLevels.Best.{IsValid}
use rustbook.Book.{OrderBook, new_book, side_of}

-- The order that an id in the queue at `price` of `side` stands for rests there.
pub record Rests (side : Side) (price : Price) (id : OrderId) (o : Order) : Type 0 where
  pub placed : o.price ≡ price
  pub sided : o.side ≡ side
  pub named : o.id ≡ id
  pub live : is_active o.status ≡ true
  pub positive : 0 < o.remaining_quantity

-- Each id of a queue stands for an order that rests there, and no id stands there twice.
abbrev pub Queued : HashMap Order → Side → Price → List OrderId → Type 0
Queued orders side price [] = Unit
Queued orders side price (id ∷ ids) =
    ((o : Order) × (HashMap.get orders id ≡ some o) × Rests side price id o)
    × All (λ j. j ≢ id) ids
    × Queued orders side price ids

unfoldable pub remaining_in : Option Order → Quantity
remaining_in none = 0
remaining_in (some o) = o.remaining_quantity

-- What remains of the orders of a queue, taken together.
unfoldable pub total : HashMap Order → List OrderId → Quantity
unfolding remaining_in
total orders [] = 0
total orders (id ∷ ids) = remaining_in (HashMap.get orders id) + total orders ids

-- A level agrees with the index of orders.
pub record LevelFits (orders : HashMap Order) (side : Side) (price : Price) (l : Level)
    : Type 0 where
  pub counted : IsCounted l
  pub queued : Queued orders side price (active l)
  pub totalled : l.total_quantity ≡ total orders (active l)
  pub in_range : l.total_quantity < 2 ^ 64

-- A side of the book agrees with the index of orders: each of its levels does, and has something
-- left.
pub record SideFits (orders : HashMap Order) (side : Side) (ps : PriceLevels) : Type 0 where
  pub valid : IsValid ps
  pub sided : ps.side ≡ side
  pub fits :
      (k : Price) (l : Level)
      → BTreeMap.get ps.levels k ≡ some l
      → LevelFits orders side k l × (0 < l.total_quantity)

-- A book is well formed: both sides agree with the index of orders, and the next order id is new.
pub record IsWellFormed (b : OrderBook) : Type 0 where
  pub sides : (s : Side) → SideFits b.orders s (side_of b s)
  pub fresh : (id : OrderId) (o : Order) → HashMap.get b.orders id ≡ some o → id < b.next_order_id
  pub started : 0 < b.next_order_id

-- A change of the order of one id is not seen by a queue that does not hold the id.
module _ (orders : HashMap Order) (side : Side) (price : Price) (id : OrderId) (o' : Order) where
  pub Queued-insert_absent :
      (ids : List OrderId)
      → All (λ j. j ≢ id) ids
      → Queued orders side price ids
      → Queued (HashMap.insert orders id o') side price ids
  Queued-insert_absent [] a q = tt
  Queued-insert_absent (j ∷ ids) a (entry, apart, rest) =
      let (o, found, rests) = entry in
      (
        (o, ground (arith, get-insert orders id j o', a.0), rests),
        apart,
        Queued-insert_absent ids a.1 rest,
      )

  pub total-insert_absent :
      (ids : List OrderId)
      → All (λ j. j ≢ id) ids
      → total (HashMap.insert orders id o') ids ≡ total orders ids
  unfolding total
  total-insert_absent [] a = refl
  total-insert_absent (j ∷ ids) a =
      ground (arith, get-insert orders id j o', total-insert_absent ids a.1, a.0)

-- An id whose order rests elsewhere is not in the queue.
pub Queued-absent :
    (orders : HashMap Order) (side : Side) (price : Price) (id : OrderId) (o : Order)
    (ids : List OrderId)
    → HashMap.get orders id ≡ some o
    → (o.price ≢ price) ⊎ (o.side ≢ side)
    → Queued orders side price ids
    → All (λ j. j ≢ id) ids
Queued-absent orders side price id o [] h e q = tt
Queued-absent orders side price id o (j ∷ ids) h e (entry, apart, rest) =
    (λ same. elsewhere same e, Queued-absent orders side price id o ids h e rest)
  where
    held : j ≡ id → entry.0 ≡ o
    held same = ground (arith, entry.1, h, ap (HashMap.get orders) same)

    elsewhere : j ≡ id → (o.price ≢ price) ⊎ (o.side ≢ side) → ⊥
    elsewhere same (inl n) = n (ap (λ (p : Order). p.price) (sym (held same)) ∙ entry.2.placed)
    elsewhere same (inr n) = n (ap (λ (p : Order). p.side) (sym (held same)) ∙ entry.2.sided)

-- Nothing is left in a queue only if it is empty.
pub total_positive :
    (orders : HashMap Order) (side : Side) (price : Price) (id : OrderId) (ids : List OrderId)
    → Queued orders side price (id ∷ ids)
    → 0 < total orders (id ∷ ids)
unfolding total remaining_in
total_positive orders side price id ids q = ground (arith, q.0.1, q.0.2.positive)

-- A new book has no level and no order.
pub new_book-IsWellFormed : IsWellFormed new_book
unfolding new_book new_levels best_key side_of BTreeMap.get BTreeMap.first_key BTreeMap.last_key
    HashMap.get
new_book-IsWellFormed = record {
  sides = elim [
    | buy ↦ record {
      valid = record { sorted = tt; cached = refl };
      sided = refl;
      fits = λ k l h. absurd cc;
    }
    | sell ↦ record {
      valid = record { sorted = tt; cached = refl };
      sided = refl;
      fits = λ k l h. absurd cc;
    }
  ];
  fresh = λ id o h. absurd cc;
  started = omega arith;
}
