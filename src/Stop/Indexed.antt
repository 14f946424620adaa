-- ===== src/Stop/Indexed.antt =====
-- src/stop.rs: the entries by stop price as an index of the pending orders, in both directions.
use rustbook.Prelude.{◌≡◌, true, List, some}
use rustbook.Prelude.HashMap
use rustbook.Prelude.HashMap.{HashMap, get-insert}
use rustbook.Prelude.BTreeMap
use rustbook.Prelude.BTreeMap.{BTreeMap, IsSorted}
use rustbook.Types.{Price, OrderId, Side}
use rustbook.Stop.{StopOrder, StopBook, stops_of, is_pending}
use rustbook.Stop.Triggering.{Has}

-- An id stands at a price of the entries.
abbrev pub Stands : BTreeMap (List OrderId) → Price → OrderId → Type 0
Stands m p id = (ids : List OrderId) × (BTreeMap.get m p ≡ some ids) × Has ids id

module _ {F : Type 0} where
  -- The id is of a pending order of that side and stop price.
  abbrev pub Placed : HashMap (StopOrder F) → Side → Price → OrderId → Type 0
  Placed m s p id =
      (o : StopOrder F) × (HashMap.get m id ≡ some o)
      × (is_pending o.status ≡ true)
      × (o.side ≡ s)
      × (o.stop_price ≡ p)

  -- The stop prices of a book agree with its index of orders: every pending order stands at its side
  -- and stop price, and an id stands only at the place of its pending order.
  pub record IsIndexed (b : StopBook F) : Type 0 where
    pub sorted : (s : Side) → IsSorted (stops_of b s)
    pub listed :
        (id : OrderId) (o : StopOrder F)
        → HashMap.get b.orders id ≡ some o
        → is_pending o.status ≡ true
        → Stands (stops_of b o.side) o.stop_price id
    pub placed :
        (s : Side) (p : Price) (ids : List OrderId) (id : OrderId)
        → BTreeMap.get (stops_of b s) p ≡ some ids
        → Has ids id
        → Placed b.orders s p id
