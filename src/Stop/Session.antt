-- ===== src/Stop/Session.antt =====
-- src/stop.rs: the stop books that the calls of the exchange reach.
use rustbook.Prelude.{◌≡◌, true, none}
use rustbook.Prelude.HashMap
use rustbook.Types.{Price, OrderId}
use rustbook.Stop.{FloatOps, StopOrder, StopBook, is_pending, new_stop_book, insert, cancel}
use rustbook.Stop.Trigger.{collect_triggered}
use rustbook.Stop.Trailing.{update_trailing_stops}
use rustbook.Stop.Indexed.{IsIndexed}
use rustbook.Stop.Indexing.{new_stop_book-IsIndexed, insert-IsIndexed, cancel-IsIndexed}
use rustbook.Stop.Following.{update_trailing_stops-IsIndexed}
use rustbook.Stop.Collecting.{Collected, collect_triggered-Collected}

module _ {F : Type 0} (fp : FloatOps F) where
  -- A call on a stop book: a pending order under a new id, a cancellation, and what the exchange
  -- does at a trade price.
  pub data Call : StopBook F → StopBook F → Type 0 where
    inserting :
        {b : StopBook F} (o : StopOrder F)
        → HashMap.get b.orders o.id ≡ none
        → is_pending o.status ≡ true
        → Call b (insert b o)
    cancelling : {b : StopBook F} (id : OrderId) → Call b (cancel b id).0
    collecting : {b : StopBook F} (price : Price) → Call b (collect_triggered b price).0
    trailing : {b : StopBook F} (price : Price) → Call b (update_trailing_stops fp b price)

  -- The books that calls reach from the new one.
  pub data Reached : StopBook F → Type 0 where
    started : Reached new_stop_book
    called : {b b' : StopBook F} → Reached b → Call b b' → Reached b'

  Call-IsIndexed : {b b' : StopBook F} → Call b b' → IsIndexed b → IsIndexed b'
  Call-IsIndexed (inserting o fresh live) ok = insert-IsIndexed _ o ok fresh live
  Call-IsIndexed (cancelling id) ok = cancel-IsIndexed _ id ok
  Call-IsIndexed (collecting price) ok = (collect_triggered-Collected _ price ok).indexed
  Call-IsIndexed (trailing price) ok = update_trailing_stops-IsIndexed fp _ price ok

  -- In every stop book that is reached from the new one by insertions of pending orders under new
  -- ids, cancellations, collections at a trade price and updates of the trailing stops, in any
  -- order, the entries index the pending orders: they are sorted by stop price, every pending order
  -- stands at its side and stop price, and every id stands only at the place of its pending order.
  pub Reached-IsIndexed : {b : StopBook F} → Reached b → IsIndexed b
  Reached-IsIndexed started = new_stop_book-IsIndexed
  Reached-IsIndexed (called r c) = Call-IsIndexed c (Reached-IsIndexed r)

  pub Reached-Collected :
      {b : StopBook F} (price : Price)
      → Reached b
      → Collected b price (collect_triggered b price).0 (collect_triggered b price).1
  Reached-Collected price r = collect_triggered-Collected _ price (Reached-IsIndexed r)
