-- ===== src/Level.antt =====
-- src/level.rs: the queue of the orders at one price. A slot of the queue holds an order id, or 0
-- for a tombstone.
pub mod Queue
use rustbook.Prelude.{
  ℕ, zero, suc, ◌+◌, ◌-◌, ◌==◌, if◌then◌else◌, Bool, true, false, List, [], ◌∷◌, ◌++◌, Option, none,
  some, Run, done, panicked, get_elem?, set, length,
}
use rustbook.Types.{Price, Quantity, OrderId, saturating_add, saturating_sub, wrapping_sub}

pub record Level : Type 0 where
  pub price : Price
  pub orders : List OrderId
  pub total_quantity : Quantity
  pub tombstone_count : ℕ

-- `Level::new`.
unfoldable pub new_level : Price → Level
new_level price = record { price = price; orders = []; total_quantity = 0; tombstone_count = 0 }

unfoldable pub is_empty : Level → Bool
is_empty l = l.total_quantity == 0

unfoldable pub order_count : Level → ℕ
order_count l = wrapping_sub (length l.orders) l.tombstone_count

-- The loop of `front`: drops tombstones at the head. The queue and the tombstone count that are
-- left, and the first order.
unfoldable pub skip_front : List OrderId → ℕ → List OrderId × ℕ × Option OrderId
skip_front [] count = ([], count, none)
skip_front (id ∷ rest) count =
    if id == 0 then skip_front rest (wrapping_sub count 1) else (id ∷ rest, count, some id)

unfoldable pub front : Level → Level × Option OrderId
unfolding skip_front
front l =
    let (orders, count, found) = skip_front l.orders l.tombstone_count in
    (record l { orders = orders; tombstone_count = count }, found)

-- The level that a push which passes its assertion leaves.
unfoldable pub after_push : Level → OrderId → Quantity → Level
after_push l order_id quantity = record l {
  orders = l.orders ++ order_id ∷ [];
  total_quantity = saturating_add l.total_quantity quantity;
}

-- `push_back`, with its `assert!`.
unfoldable pub push_back : Level → OrderId → Quantity → Run Level
unfolding after_push
push_back l order_id quantity =
    if order_id == 0 then panicked else done (after_push l order_id quantity)

-- The loop of `pop_front`, which takes the order that it finds off the queue.
unfoldable pub skip_pop : List OrderId → ℕ → List OrderId × ℕ × Option OrderId
skip_pop [] count = ([], count, none)
skip_pop (id ∷ rest) count =
    if id == 0 then skip_pop rest (wrapping_sub count 1) else (rest, count, some id)

unfoldable pub take_total : Option OrderId → Quantity → Quantity → Quantity
take_total none quantity total = total
take_total (some id) quantity total = saturating_sub total quantity

unfoldable pub pop_front : Level → Quantity → Level × Option OrderId
unfolding skip_pop take_total
pop_front l quantity =
    let (orders, count, found) = skip_pop l.orders l.tombstone_count in
    (
      record l {
        orders = orders;
        tombstone_count = count;
        total_quantity = take_total found quantity l.total_quantity;
      },
      found,
    )

-- The write at the slot's content `found`, if there is one and it is no tombstone.
unfoldable pub mark_slot : Level → ℕ → Quantity → Option OrderId → Level
mark_slot l index quantity none = l
mark_slot l index quantity (some id) = if id == 0 then l else record l {
  orders = set l.orders index 0;
  total_quantity = saturating_sub l.total_quantity quantity;
  tombstone_count = l.tombstone_count + 1;
}

unfoldable pub mark_tombstone : Level → ℕ → Quantity → Level
unfolding mark_slot
mark_tombstone l index quantity = mark_slot l index quantity (get_elem? l.orders index)

-- `iter().position(..)` and the removal there: the queue without the first slot that holds the id.
unfoldable pub remove_first : List OrderId → OrderId → Option (List OrderId)
remove_first [] order_id = none
remove_first (id ∷ rest) order_id = elim (id == order_id) [
  | true ↦ some rest
  | false ↦ elim (remove_first rest order_id) [ none ↦ none | some ids ↦ some (id ∷ ids) ]
]

-- `Level::remove`.
unfoldable pub remove : Level → OrderId → Quantity → Level × Bool
unfolding remove_first
remove l order_id quantity = elim (remove_first l.orders order_id) [
  | none ↦ (l, false)
  | some ids ↦
      (record l { orders = ids; total_quantity = saturating_sub l.total_quantity quantity }, true)
]

-- `iter`: the active orders, first in first out.
unfoldable pub iter : List OrderId → List OrderId
iter [] = []
iter (id ∷ rest) = if id == 0 then iter rest else id ∷ iter rest

unfoldable pub compact : Level → Level
unfolding iter
compact l =
    if l.tombstone_count == 0 then l else record l { orders = iter l.orders; tombstone_count = 0 }

unfoldable pub decrease_quantity : Level → Quantity → Level
decrease_quantity l amount = record l { total_quantity = saturating_sub l.total_quantity amount }
