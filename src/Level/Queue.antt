-- ===== src/Level/Queue.antt =====
-- src/level.rs: the level as a first-in first-out queue of active orders, with its tombstones
-- counted.
use rustbook.Prelude.{
  ℕ, ◌+◌, ◌≡◌, ◌≢◌, ◌==◌, if◌then◌else◌, refl, ap, ◌∙◌, List, [], ◌∷◌, ◌++◌, Option, none, some,
  done, arith, get_elem?, set, length,
}
use rustbook.Types.{OrderId, Quantity, wrapping_sub}
use rustbook.Level.{
  Level, order_count, skip_front, front, after_push, push_back, skip_pop, pop_front, mark_tombstone,
  iter,
}

-- The tombstones of a queue.
unfoldable pub tombstones : List OrderId → ℕ
tombstones [] = 0
tombstones (id ∷ rest) = (if id == 0 then 1 else 0) + tombstones rest

-- The count of tombstones is the right one.
pub record IsCounted (l : Level) : Type 0 where
  pub counted : l.tombstone_count ≡ tombstones l.orders

abbrev pub active : Level → List OrderId
active l = iter l.orders

-- What `front` and `pop_front` find on an abstract queue.
abbrev pub head : List OrderId → Option OrderId
head [] = none
head (id ∷ rest) = some id

abbrev pub tail : List OrderId → List OrderId
tail [] = []
tail (id ∷ rest) = rest

skip_front_lem :
    (ids : List OrderId) (count : ℕ)
    → count ≡ tombstones ids
    → let (rest, n, found) = skip_front ids count in
      (n ≡ tombstones rest) × (iter rest ≡ iter ids) × (found ≡ head (iter ids))
unfolding skip_front tombstones iter
skip_front_lem [] count h = (h, refl, refl)
skip_front_lem (id ∷ rest) count h = ground (arith, skip_front_lem rest (wrapping_sub count 1))

skip_pop_lem :
    (ids : List OrderId) (count : ℕ)
    → count ≡ tombstones ids
    → let (rest, n, found) = skip_pop ids count in
      (n ≡ tombstones rest) × (iter rest ≡ tail (iter ids)) × (found ≡ head (iter ids))
unfolding skip_pop tombstones iter
skip_pop_lem [] count h = (h, refl, refl)
skip_pop_lem (id ∷ rest) count h = ground (arith, skip_pop_lem rest (wrapping_sub count 1))

-- `front` finds the oldest active order and changes neither the active orders nor the count's truth.
pub front_lem :
    (l : Level)
    → IsCounted l
    → IsCounted (front l).0
      × (active (front l).0 ≡ active l)
      × ((front l).1 ≡ head (active l))
      × ((front l).0.total_quantity ≡ l.total_quantity)
unfolding front
front_lem l h = ground (arith, skip_front_lem l.orders l.tombstone_count)

-- Popping the front of a level whose tombstone count is right gives the oldest active order, or
-- none if there is none, and leaves the other active orders in their order and the count right.
pub pop_front_lem :
    (l : Level) (quantity : Quantity)
    → IsCounted l
    → IsCounted (pop_front l quantity).0
      × (active (pop_front l quantity).0 ≡ tail (active l))
      × ((pop_front l quantity).1 ≡ head (active l))
unfolding pop_front
pop_front_lem l quantity h = ground (arith, skip_pop_lem l.orders l.tombstone_count)

pub iter-append : (xs ys : List OrderId) → iter (xs ++ ys) ≡ iter xs ++ iter ys
unfolding iter
iter-append [] ys = refl
iter-append (x ∷ xs) ys = ground (arith, iter-append xs ys)

pub tombstones-append :
    (xs ys : List OrderId) → tombstones (xs ++ ys) ≡ tombstones xs + tombstones ys
unfolding tombstones
tombstones-append [] ys = omega arith
tombstones-append (x ∷ xs) ys = ground (arith, tombstones-append xs ys)

-- Pushing an order id other than 0 on a level whose tombstone count is right returns, puts the
-- order behind all other active orders, and leaves the count right.
pub push_back_lem :
    (l : Level) (id : OrderId) (quantity : Quantity)
    → IsCounted l
    → id ≢ 0
    → (l' : Level) × (push_back l id quantity ≡ done l')
      × IsCounted l'
      × (active l' ≡ active l ++ id ∷ [])
unfolding push_back iter tombstones
push_back_lem l id quantity h n = (
  after_push l id quantity,
  ground arith,
  ground (arith, tombstones-append l.orders (id ∷ [])),
  ground (arith, iter-append l.orders (id ∷ [])),
)

-- The slots of a queue are its active orders and its tombstones.
pub length-iter : (ids : List OrderId) → length (iter ids) + tombstones ids ≡ length ids
unfolding iter tombstones
length-iter [] = omega arith
length-iter (id ∷ rest) = ground (arith, length-iter rest)

-- The order count of a level whose tombstone count is right is the number of its active orders.
pub order_count_lem : (l : Level) → IsCounted l → order_count l ≡ length (active l)
unfolding order_count
order_count_lem l h = ground (arith, length-iter l.orders, h.counted)

get_elem?-middle :
    (xs ys : List OrderId) (id : OrderId) → get_elem? (xs ++ id ∷ ys) (length xs) ≡ some id
get_elem?-middle [] ys id = refl
get_elem?-middle (x ∷ xs) ys id = get_elem?-middle xs ys id

set-middle :
    (xs ys : List OrderId) (id new : OrderId) → set (xs ++ id ∷ ys) (length xs) new ≡ xs ++ new ∷ ys
set-middle [] ys id new = refl
set-middle (x ∷ xs) ys id new = ap (◌∷◌ x) (set-middle xs ys id new)

-- Marking the slot of an active order in a level whose tombstone count is right takes this order
-- off and leaves the active orders before and after it, in their order, and the count right.
pub mark_tombstone_lem :
    (l : Level) (before after : List OrderId) (id : OrderId) (quantity : Quantity)
    → IsCounted l
    → l.orders ≡ before ++ id ∷ after
    → id ≢ 0
    → let l' = mark_tombstone l (length before) quantity in
      IsCounted l'
      × (active l ≡ iter before ++ id ∷ iter after)
      × (active l' ≡ iter before ++ iter after)
unfolding mark_tombstone iter tombstones
mark_tombstone_lem l before after id quantity h e n =
    let slot = ap (λ ids. get_elem? ids (length before)) e ∙ get_elem?-middle before after id in
    let written = ap (λ ids. set ids (length before) 0) e ∙ set-middle before after id 0 in
    ground (
      arith,
      slot,
      written,
      ap iter e,
      ap tombstones e,
      ap iter written,
      ap tombstones written,
      iter-append before (id ∷ after),
      iter-append before (0 ∷ after),
      tombstones-append before (id ∷ after),
      tombstones-append before (0 ∷ after),
    )
