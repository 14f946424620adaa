-- ===== src/Results.antt =====
-- src/result.rs and src/error.rs: what the calls on the exchange return.
use rustbook.Prelude.{Bool, true, false, Option, none, some, List, []}
use rustbook.Types.{OrderId, Quantity}
use rustbook.Order.{OrderStatus}
use rustbook.Trade.{Trade}
use rustbook.Stop.{StopStatus}

pub record SubmitResult : Type 0 where
  pub order_id : OrderId
  pub status : OrderStatus
  pub trades : List Trade
  pub filled_quantity : Quantity
  pub resting_quantity : Quantity
  pub cancelled_quantity : Quantity

pub data CancelError : Type 0 where
  order_not_found order_not_active : CancelError

pub record CancelResult : Type 0 where
  pub is_success : Bool
  pub cancelled_quantity : Quantity
  pub error : Option CancelError

-- `CancelResult::success` and `CancelResult::failure`.
unfoldable pub cancel_success : Quantity → CancelResult
cancel_success quantity = record { is_success = true; cancelled_quantity = quantity; error = none }

unfoldable pub cancel_failure : CancelError → CancelResult
cancel_failure e = record { is_success = false; cancelled_quantity = 0; error = some e }

pub data ModifyError : Type 0 where
  order_not_found order_not_active invalid_quantity : ModifyError

pub record ModifyResult : Type 0 where
  pub is_success : Bool
  pub old_order_id : OrderId
  pub new_order_id : Option OrderId
  pub cancelled_quantity : Quantity
  pub trades : List Trade
  pub error : Option ModifyError

-- `ModifyResult::success` and `ModifyResult::failure`.
unfoldable pub modify_success : OrderId → OrderId → Quantity → List Trade → ModifyResult
modify_success old_order_id new_order_id quantity trades = record {
  is_success = true;
  old_order_id = old_order_id;
  new_order_id = some new_order_id;
  cancelled_quantity = quantity;
  trades = trades;
  error = none;
}

unfoldable pub modify_failure : OrderId → ModifyError → ModifyResult
modify_failure old_order_id e = record {
  is_success = false;
  old_order_id = old_order_id;
  new_order_id = none;
  cancelled_quantity = 0;
  trades = [];
  error = some e;
}

pub record StopSubmitResult : Type 0 where
  pub order_id : OrderId
  pub status : StopStatus

-- `ValidationError` (src/error.rs), and the result of a validated call.
pub data ValidationError : Type 0 where
  zero_quantity zero_price : ValidationError

pub data Result {ℓ} (A : Type ℓ) : Type ℓ where
  ok : A → Result A
  err : ValidationError → Result A
