-- ===== src/Exchange/Replay.antt =====
-- src/event.rs: events applied one by one, and a log replayed.
pub mod Session
pub mod Logs
pub mod Faithful
use rustbook.Prelude.{
  ◌≡◌, refl, Bool, true, false, List, [], ◌∷◌, ◌++◌, none, some, Run, done, ◌>>=◌,
}
use rustbook.Types.{gtc, ioc}
use rustbook.Trade.{Trade}
use rustbook.Stop.{FloatOps}
use rustbook.Event.{
  Event, submit_limit, submit_market, cancel, modify, submit_stop_market, submit_stop_limit,
  submit_trailing_stop_market, submit_trailing_stop_limit,
}
use rustbook.Results.{SubmitResult}
use rustbook.Exchange.{
  Exchange, new_exchange, submit_limit_internal, cancel_internal, modify_internal,
}
use rustbook.Exchange.Triggers.{
  process_trade_triggers, submit_stop_internal, submit_trailing_stop_internal, last_price_or,
  market_price,
}
use rustbook.Exchange.Api
use rustbook.Exchange.Api.{log}

pub record ApplyResult : Type 0 where
  pub trades : List Trade

module _ {F : Type 0} (fp : FloatOps F) where
  -- What `apply` does after a submission or a modification, by its trades.
  unfoldable pub after_trades : Exchange F → List Trade → Run (Exchange F × ApplyResult)
  unfolding last_price_or
  after_trades x [] = done (x, record { trades = [] })
  after_trades x (t ∷ ts) =
      process_trade_triggers fp (record x { last_trade_price = last_price_or none (t ∷ ts) })
      >>= λ x'. done (x', record { trades = t ∷ ts })

  unfoldable pub apply_logged : Exchange F → Event F → Run (Exchange F × ApplyResult)
  unfolding after_trades
  apply_logged x (submit_limit side price quantity tif) =
      submit_limit_internal x side price quantity tif >>= λ r. after_trades r.0 r.1.trades
  apply_logged x (submit_market side quantity) =
      submit_limit_internal x side (market_price side) quantity ioc >>= λ r.
      after_trades r.0 r.1.trades
  apply_logged x (cancel order_id) =
      cancel_internal x order_id >>= λ r. done (r.0, record { trades = [] })
  apply_logged x (modify order_id new_price new_quantity) =
      modify_internal x order_id new_price new_quantity >>= λ r. after_trades r.0 r.1.trades
  apply_logged x (submit_stop_market side stop_price quantity) =
      submit_stop_internal fp x side stop_price none quantity gtc >>= λ r.
      done (r.0, record { trades = [] })
  apply_logged x (submit_stop_limit side stop_price limit_price quantity tif) =
      submit_stop_internal fp x side stop_price (some limit_price) quantity tif >>= λ r.
      done (r.0, record { trades = [] })
  apply_logged x (submit_trailing_stop_market side stop_price quantity method) =
      submit_trailing_stop_internal fp x side stop_price none quantity gtc method >>= λ r.
      done (r.0, record { trades = [] })
  apply_logged x (submit_trailing_stop_limit side stop_price limit_price quantity tif method) =
      submit_trailing_stop_internal fp x side stop_price (some limit_price) quantity tif method
      >>= λ r. done (r.0, record { trades = [] })

  unfoldable pub apply : Exchange F → Event F → Run (Exchange F × ApplyResult)
  unfolding log apply_logged
  apply x e = apply_logged (log x e) e

  unfoldable pub apply_all : Exchange F → List (Event F) → Run (Exchange F × List Trade)
  unfolding apply
  apply_all x [] = done (x, [])
  apply_all x (e ∷ es) = apply x e >>= λ r. apply_all r.0 es >>= λ s. done (s.0, r.1.trades ++ s.1)

  -- The loop of `replay`.
  unfoldable pub replay_from : Exchange F → List (Event F) → Run (Exchange F)
  unfolding apply
  replay_from x [] = done x
  replay_from x (e ∷ es) = apply x e >>= λ r. replay_from r.0 es

  unfoldable pub replay : List (Event F) → Run (Exchange F)
  unfolding new_exchange replay_from
  replay es = replay_from new_exchange es

  -- The exchange after the public call that records an event.
  unfoldable pub call : Exchange F → Event F → Run (Exchange F)
  call x (submit_limit side price quantity tif) =
      Api.submit_limit fp x side price quantity tif >>= λ r. done r.0
  call x (submit_market side quantity) = Api.submit_market fp x side quantity >>= λ r. done r.0
  call x (cancel order_id) = Api.cancel x order_id >>= λ r. done r.0
  call x (modify order_id new_price new_quantity) =
      Api.modify x order_id new_price new_quantity >>= λ r. done r.0
  call x (submit_stop_market side stop_price quantity) =
      Api.submit_stop_market fp x side stop_price quantity >>= λ r. done r.0
  call x (submit_stop_limit side stop_price limit_price quantity tif) =
      Api.submit_stop_limit fp x side stop_price limit_price quantity tif >>= λ r. done r.0
  call x (submit_trailing_stop_market side stop_price quantity method) =
      Api.submit_trailing_stop_market fp x side stop_price quantity method >>= λ r. done r.0
  call x (submit_trailing_stop_limit side stop_price limit_price quantity tif method) =
      Api.submit_trailing_stop_limit fp x side stop_price limit_price quantity tif method >>= λ r.
      done r.0

  unfoldable pub call_all : Exchange F → List (Event F) → Run (Exchange F)
  unfolding call
  call_all x [] = done x
  call_all x (e ∷ es) = call x e >>= λ x'. call_all x' es

abbrev pub is_modify : {F : Type 0} → Event F → Bool
is_modify (modify order_id new_price new_quantity) = true
is_modify _ = false
