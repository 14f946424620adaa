-- ===== src/Exchange/Api.antt =====
-- src/exchange.rs: the public calls. Each that is an input records its event first.
use rustbook.Prelude.{
  ℕ, ◌==◌, leb_ℤ, pos, if◌then◌else◌, [], ◌∷◌, ◌++◌, none, some, Run, done, ◌>>=◌,
}
use rustbook.Types.{Price, Quantity, OrderId, Side, TimeInForce, gtc, ioc}
use rustbook.Book
use rustbook.Stop
use rustbook.Stop.{FloatOps, TrailMethod}
use rustbook.Event.{Event}
use rustbook.Results.{
  SubmitResult, CancelResult, ModifyResult, StopSubmitResult, zero_quantity, zero_price, Result, ok,
  err,
}
use rustbook.Exchange.{Exchange, submit_limit_internal, cancel_internal, modify_internal}
use rustbook.Exchange.Triggers.{
  process_trade_triggers, submit_stop_internal, submit_trailing_stop_internal, last_price_or,
  market_price,
}

module _ {F : Type 0} where
  -- `events.push(..)`.
  unfoldable pub log : Exchange F → Event F → Exchange F
  log x e = record x { events = x.events ++ e ∷ [] }

  -- The triggers that a submission with trades sets off.
  unfoldable pub after_submit :
      FloatOps F → Exchange F × SubmitResult → Run (Exchange F × SubmitResult)
  unfolding last_price_or
  after_submit fp (x, result) = elim result.trades [
    | [] ↦ done (x, result)
    | t ∷ ts ↦
        process_trade_triggers fp (record x { last_trade_price = last_price_or none (t ∷ ts) })
        >>= λ x'. done (x', result)
  ]

  unfoldable pub submit_limit :
      FloatOps F
      → Exchange F
      → Side
      → Price
      → Quantity
      → TimeInForce
      → Run (Exchange F × SubmitResult)
  unfolding log after_submit
  submit_limit fp x side price quantity tif =
      submit_limit_internal (log x (Event.submit_limit side price quantity tif)) side price quantity
        tif
      >>= after_submit fp

  unfoldable pub submit_market :
      FloatOps F → Exchange F → Side → Quantity → Run (Exchange F × SubmitResult)
  unfolding log after_submit
  submit_market fp x side quantity =
      submit_limit_internal (log x (Event.submit_market side quantity)) side (market_price side)
        quantity ioc
      >>= after_submit fp

  unfoldable pub try_submit_limit :
      FloatOps F
      → Exchange F
      → Side
      → Price
      → Quantity
      → TimeInForce
      → Run (Exchange F × Result SubmitResult)
  try_submit_limit fp x side price quantity tif =
      if quantity == 0
      then done (x, err zero_quantity)
      else (if leb_ℤ price (pos 0)
          then done (x, err zero_price)
          else (submit_limit fp x side price quantity tif >>= λ r. done (r.0, ok r.1)))

  unfoldable pub try_submit_market :
      FloatOps F → Exchange F → Side → Quantity → Run (Exchange F × Result SubmitResult)
  try_submit_market fp x side quantity =
      if quantity == 0
      then done (x, err zero_quantity)
      else (submit_market fp x side quantity >>= λ r. done (r.0, ok r.1))

  unfoldable pub cancel : Exchange F → OrderId → Run (Exchange F × CancelResult)
  unfolding log
  cancel x order_id = cancel_internal (log x (Event.cancel order_id)) order_id

  unfoldable pub modify : Exchange F → OrderId → Price → Quantity → Run (Exchange F × ModifyResult)
  unfolding log
  modify x order_id new_price new_quantity =
      modify_internal (log x (Event.modify order_id new_price new_quantity)) order_id new_price
        new_quantity

  unfoldable pub submit_stop_market :
      FloatOps F → Exchange F → Side → Price → Quantity → Run (Exchange F × StopSubmitResult)
  unfolding log
  submit_stop_market fp x side stop_price quantity =
      submit_stop_internal fp (log x (Event.submit_stop_market side stop_price quantity)) side
        stop_price none quantity gtc

  unfoldable pub submit_stop_limit :
      FloatOps F
      → Exchange F
      → Side
      → Price
      → Price
      → Quantity
      → TimeInForce
      → Run (Exchange F × StopSubmitResult)
  unfolding log
  submit_stop_limit fp x side stop_price limit_price quantity tif =
      submit_stop_internal fp
        (log x (Event.submit_stop_limit side stop_price limit_price quantity tif)) side stop_price
        (some limit_price) quantity tif

  unfoldable pub submit_trailing_stop_market :
      FloatOps F
      → Exchange F
      → Side
      → Price
      → Quantity
      → TrailMethod F
      → Run (Exchange F × StopSubmitResult)
  unfolding log
  submit_trailing_stop_market fp x side stop_price quantity method =
      submit_trailing_stop_internal fp
        (log x (Event.submit_trailing_stop_market side stop_price quantity method)) side stop_price
        none quantity gtc method

  unfoldable pub submit_trailing_stop_limit :
      FloatOps F
      → Exchange F
      → Side
      → Price
      → Price
      → Quantity
      → TimeInForce
      → TrailMethod F
      → Run (Exchange F × StopSubmitResult)
  unfolding log
  submit_trailing_stop_limit fp x side stop_price limit_price quantity tif method =
      submit_trailing_stop_internal fp
        (log x (Event.submit_trailing_stop_limit side stop_price limit_price quantity tif method))
        side stop_price (some limit_price) quantity tif method

  unfoldable pub clear_trades : Exchange F → Exchange F
  clear_trades x = record x { trades = [] }

  unfoldable pub clear_order_history : Exchange F → Exchange F × ℕ
  clear_order_history x =
      let (b, removed) = Book.clear_history x.book in
      (record x { stop_book = Stop.clear_history x.stop_book; book = b }, removed)

  unfoldable pub compact : Exchange F → Exchange F
  compact x = record x { book = Book.compact x.book }
