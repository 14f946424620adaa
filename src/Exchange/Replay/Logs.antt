-- ===== src/Exchange/Replay/Logs.antt =====
-- src/exchange.rs, src/event.rs: what the calls do to the log.
use rustbook.Prelude.{
  ℕ, zero, suc, ◌≡◌, inl, inr, not, ◌&&◌, true, false, if◌then◌else◌, Bool-cases, Option,
  Option-cases, List, [], ◌∷◌, none, some, done, ◌>>=◌, Keeps, >>=-Keeps, Keeps-any,
}
use rustbook.Types.{Price, Quantity, OrderId, Side, TimeInForce, ioc}
use rustbook.Order.{Order, is_active}
use rustbook.Book.{OrderBook, get_order, cancel_order}
use rustbook.Matching.{can_fully_fill, match_order}
use rustbook.Stop
use rustbook.Stop.{FloatOps, StopStatus, pending, StopOrder, StopBook, TrailMethod}
use rustbook.Stop.Trigger.{collect_triggered}
use rustbook.Stop.Trailing.{update_trailing_stops}
use rustbook.Event.{Event}
use rustbook.Results.{StopSubmitResult, CancelError, cancel_failure, cancel_success}
use rustbook.Exchange.{
  Exchange, settle_order, execute, submit_limit_internal, is_fok, cancel_resting, cancel_internal,
}
use rustbook.Exchange.Triggers.{
  submit_triggered, submit_all, cascade_round, cascade, process_trade_triggers, trigger_now,
  place_stop, insert_stop_order, market_price, status_of, should_trigger, max_cascade_depth,
}

module _ {F : Type 0} (es : List (Event F)) where
  -- The log of an exchange is the given one.
  abbrev pub Logged {ℓ} : {A : Type ℓ} → Exchange F × A → Type 0
  Logged r = r.0.events ≡ es

  execute-Logged :
      (x : Exchange F) (b : OrderBook) (o : Order) (tif : TimeInForce)
      → x.events ≡ es
      → Keeps Logged (execute x b o tif)
  unfolding execute
  execute-Logged x b o tif h =
      Keeps-any Logged (match_order b o) _
        (λ m. Keeps-any Logged (settle_order m.0 m.1 tif) _ (λ s. h))

  pub submit_limit_internal-Logged :
      (x : Exchange F) (side : Side) (price : Price) (quantity : Quantity) (tif : TimeInForce)
      → x.events ≡ es
      → Keeps Logged (submit_limit_internal x side price quantity tif)
  unfolding submit_limit_internal
  submit_limit_internal-Logged x side price quantity tif h =
      elim (Bool-cases (is_fok tif && not (can_fully_fill x.book side price quantity))) [
        | inl e ↦ rw e h
        | inr e ↦ rw e (execute-Logged x _ _ tif h)
      ]

  submit_triggered-Logged :
      (x : Exchange F) (stop : StopOrder F) → x.events ≡ es → Keeps Logged (submit_triggered x stop)
  unfolding submit_triggered
  submit_triggered-Logged x stop h =
      elim stop.limit_price
        as (λ p. Keeps Logged (elim p [
          | some limit ↦ submit_limit_internal x stop.side limit stop.quantity stop.time_in_force
          | none ↦ submit_limit_internal x stop.side (market_price stop.side) stop.quantity ioc
        ])) [
          | none ↦
              submit_limit_internal-Logged x stop.side (market_price stop.side) stop.quantity ioc h
          | some limit ↦
              submit_limit_internal-Logged x stop.side limit stop.quantity stop.time_in_force h
        ]

  submit_all-Logged :
      (x : Exchange F) (stops : List (StopOrder F)) (last : Option Price)
      → x.events ≡ es
      → Keeps Logged (submit_all x stops last)
  unfolding submit_all
  submit_all-Logged x [] last h = h
  submit_all-Logged x (stop ∷ stops) last h =
      >>=-Keeps Logged Logged (submit_triggered x stop) _ (submit_triggered-Logged x stop h)
        (λ r k. submit_all-Logged r.0 stops _ k)

  cascade_round-Logged :
      (fp : FloatOps F) (x : Exchange F) (price : Price)
      → x.events ≡ es
      → Keeps Logged (cascade_round fp x price)
  unfolding cascade_round
  cascade_round-Logged fp x price h =
      let c = collect_triggered (update_trailing_stops fp x.stop_book price) price in
      let y = record x { stop_book = c.0 } in
      elim c.1
        as (λ found. Keeps Logged (elim found [
          | [] ↦ done (y, false)
          | stop ∷ stops ↦ submit_all y (stop ∷ stops) none >>= λ r. elim r.1 [
            | none ↦ done (r.0, false)
            | some price ↦ done (record r.0 { last_trade_price = some price }, true)
          ]
        ])) [
          | [] ↦ h
          | stop ∷ stops ↦
              >>=-Keeps Logged Logged (submit_all y (stop ∷ stops) none) _
                (submit_all-Logged y (stop ∷ stops) none h) (λ r k. after_stops r.0 k r.1)
        ]
    where
      after_stops :
          (y : Exchange F)
          → y.events ≡ es
          → (p : Option Price)
          → Keeps Logged (elim p [
            | none ↦ done (y, false)
            | some price ↦ done (record y { last_trade_price = some price }, true)
          ])
      after_stops y k none = k
      after_stops y k (some p) = k

  cascade-Logged :
      (fp : FloatOps F) (depth : ℕ) (x : Exchange F)
      → x.events ≡ es
      → Keeps (λ (y : Exchange F). y.events ≡ es) (cascade fp depth x)
  unfolding cascade
  cascade-Logged fp zero x h = h
  cascade-Logged fp (suc depth) x h =
      elim x.last_trade_price
        as (λ p. Keeps same (elim p [
          | none ↦ done x
          | some price ↦ cascade_round fp x price >>= λ r. elim r.1 [
            | true ↦ cascade fp depth r.0
            | false ↦ done r.0
          ]
        ])) [
          | none ↦ h
          | some price ↦
              >>=-Keeps Logged same (cascade_round fp x price) _ (cascade_round-Logged fp x price h)
                (λ r k.
                  elim r.1
                    as (λ again.
                      Keeps same (elim again [ true ↦ cascade fp depth r.0 | false ↦ done r.0 ])) [
                        | true ↦ cascade-Logged fp depth r.0 k
                        | false ↦ k
                      ])
        ]
    where
      same : Exchange F → Type 0
      same y = y.events ≡ es

  pub process_trade_triggers-Logged :
      (fp : FloatOps F) (x : Exchange F)
      → x.events ≡ es
      → Keeps (λ (y : Exchange F). y.events ≡ es) (process_trade_triggers fp x)
  unfolding process_trade_triggers
  process_trade_triggers-Logged fp x h = cascade-Logged fp max_cascade_depth x h

  trigger_now-Logged :
      (fp : FloatOps F) (x : Exchange F) (o : StopOrder F)
      → x.events ≡ es
      → Keeps Logged (trigger_now fp x o)
  unfolding trigger_now
  trigger_now-Logged fp x o h =
      elim x.last_trade_price
        as (λ p. Keeps (Logged {A = StopSubmitResult}) (elim p [
          | none ↦ done (x, record { order_id = o.id; status = pending })
          | some last_price ↦
              if should_trigger o.side last_price o.stop_price
              then (process_trade_triggers fp x >>= λ x'.
                  done (x', record { order_id = o.id; status = status_of x' o.id }))
              else done (x, record { order_id = o.id; status = pending })
        ])) [
          | none ↦ h
          | some price ↦ elim (Bool-cases (should_trigger o.side price o.stop_price)) [
            | inr e ↦ rw e h
            | inl e ↦ rw e (
                >>=-Keeps (λ (y : Exchange F). y.events ≡ es) Logged (process_trade_triggers fp x) _
                  (process_trade_triggers-Logged fp x h) (λ y k. k))
          ]
        ]

  pub insert_stop_order-Logged :
      (fp : FloatOps F) (x : Exchange F) (side : Side) (stop_price : Price)
      (limit_price : Option Price) (quantity : Quantity) (tif : TimeInForce)
      (method : Option (TrailMethod F))
      → x.events ≡ es
      → Keeps Logged (insert_stop_order fp x side stop_price limit_price quantity tif method)
  unfolding insert_stop_order place_stop
  insert_stop_order-Logged fp x side stop_price limit_price quantity tif none h =
      trigger_now-Logged fp (place_stop x side stop_price limit_price quantity tif none).0
        (place_stop x side stop_price limit_price quantity tif none).1 h
  insert_stop_order-Logged fp x side stop_price limit_price quantity tif (some method) h = h

  cancelled-Logged :
      (x : Exchange F) (b : OrderBook) (q : Option Quantity)
      → x.events ≡ es
      → Keeps Logged (elim q [
        | none ↦ done (record x { book = b }, cancel_failure CancelError.order_not_active)
        | some quantity ↦ done (record x { book = b }, cancel_success quantity)
      ])
  cancelled-Logged x b none h = h
  cancelled-Logged x b (some q) h = h

  cancel_resting-Logged :
      (x : Exchange F) (id : OrderId) → x.events ≡ es → Keeps Logged (cancel_resting x id)
  unfolding cancel_resting
  cancel_resting-Logged x id h =
      elim (get_order x.book id)
        as (λ found. Keeps Logged (elim found [
          | none ↦ done (x, cancel_failure CancelError.order_not_found)
          | some o ↦
              if is_active o.status
              then (cancel_order x.book id >>= λ r. elim r.1 [
                | none ↦ done (record x { book = r.0 }, cancel_failure CancelError.order_not_active)
                | some quantity ↦ done (record x { book = r.0 }, cancel_success quantity)
              ])
              else done (x, cancel_failure CancelError.order_not_active)
        ])) [
          | none ↦ h
          | some o ↦ elim (Bool-cases (is_active o.status)) [
            | inr e ↦ rw e h
            | inl e ↦
                rw e
                  (Keeps-any Logged (cancel_order x.book id) _ (λ r. cancelled-Logged x r.0 r.1 h))
          ]
        ]

  pub cancel_internal-Logged :
      (x : Exchange F) (id : OrderId) → x.events ≡ es → Keeps Logged (cancel_internal x id)
  unfolding cancel_internal
  cancel_internal-Logged x id h = elim (Bool-cases (Stop.contains_pending x.stop_book id)) [
    | inr e ↦ rw e (cancel_resting-Logged x id h)
    | inl e ↦ elim (Option-cases (Stop.get x.stop_book id)) [
      | inl n ↦ rw (e, n) (cancel_resting-Logged x id h)
      | inr (stop, k) ↦ rw (e, k) h
    ]
  ]
