-- ===== src/Event.antt =====
-- src/event.rs: the inputs to the exchange, as they are logged.
use rustbook.Types.{Price, Quantity, OrderId, Side, TimeInForce}
use rustbook.Stop.{TrailMethod}

pub data Event (F : Type 0) : Type 0 where
  submit_limit : Side → Price → Quantity → TimeInForce → Event F
  submit_market : Side → Quantity → Event F
  cancel : OrderId → Event F
  modify : OrderId → Price → Quantity → Event F
  submit_stop_market : Side → Price → Quantity → Event F
  submit_stop_limit : Side → Price → Price → Quantity → TimeInForce → Event F
  submit_trailing_stop_market : Side → Price → Quantity → TrailMethod F → Event F
  submit_trailing_stop_limit :
      Side → Price → Price → Quantity → TimeInForce → TrailMethod F → Event F
