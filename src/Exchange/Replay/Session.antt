-- ===== src/Exchange/Replay/Session.antt =====
-- src/event.rs: the log of a session and its replay.
use rustbook.Prelude.{
  ◌≡◌, refl, sym, ap, ◌∙◌, false, subst, List, [], ◌∷◌, ◌++◌, All, none, some, Run, done, ◌>>=◌,
  Keeps, >>=-Keeps,
}
use mathlib.Core.List.{append-nil, append_assoc}
use rustbook.Types.{gtc, ioc}
use rustbook.Stop.{FloatOps}
use rustbook.Event.{
  Event, submit_limit, submit_market, cancel, modify, submit_stop_market, submit_stop_limit,
  submit_trailing_stop_market, submit_trailing_stop_limit,
}
use rustbook.Results.{SubmitResult}
use rustbook.Exchange.{Exchange, new_exchange, cancel_internal}
use rustbook.Exchange.Triggers.{
  process_trade_triggers, submit_stop_internal, submit_trailing_stop_internal, last_price_or,
  market_price,
}
use rustbook.Exchange.Api
use rustbook.Exchange.Api.{log, after_submit}
use rustbook.Exchange.Replay.{call, call_all, replay, is_modify}
use rustbook.Exchange.Replay.Faithful.{replay-call_all}
use rustbook.Exchange.Replay.Logs.{
  Logged, submit_limit_internal-Logged, process_trade_triggers-Logged, insert_stop_order-Logged,
  cancel_internal-Logged,
}

module _ {F : Type 0} (fp : FloatOps F) where
  abbrev HasLog : List (Event F) → Exchange F → Type 0
  HasLog es x = x.events ≡ es

  after_submit-Logged :
      (es : List (Event F)) (r : Exchange F × SubmitResult)
      → r.0.events ≡ es
      → Keeps (Logged es) (after_submit fp r)
  unfolding after_submit
  after_submit-Logged es (x, r) h =
      elim r.trades
        as (λ ts. Keeps (Logged es {A = SubmitResult}) (elim ts [
          | [] ↦ done (x, r)
          | t ∷ ts ↦
              process_trade_triggers fp
                (record x { last_trade_price = last_price_or none (t ∷ ts) })
              >>= λ x'. done (x', r)
        ])) [
          | [] ↦ h
          | t ∷ ts ↦
              >>=-Keeps (HasLog es) (Logged es)
                (process_trade_triggers fp
                  (record x { last_trade_price = last_price_or none (t ∷ ts) }))
                _ (process_trade_triggers-Logged es fp _ h) (λ y k. k)
        ]

  -- A call leaves the log that its result has.
  left {κ} :
      {A : Type κ} (es : List (Event F)) (m : Run (Exchange F × A))
      → Keeps (Logged es) m
      → Keeps (HasLog es) (m >>= λ r. done r.0)
  left es m h = >>=-Keeps (Logged es) (HasLog es) m _ h (λ r k. k)

  call-HasLog :
      (x : Exchange F) (e : Event F)
      → is_modify e ≡ false
      → Keeps (HasLog (x.events ++ e ∷ [])) (call fp x e)
  unfolding call log Api.submit_limit Api.submit_market Api.cancel Api.submit_stop_market
      Api.submit_stop_limit Api.submit_trailing_stop_market Api.submit_trailing_stop_limit
      submit_stop_internal submit_trailing_stop_internal
  call-HasLog x (submit_limit side price quantity tif) n =
      let es = x.events ++ submit_limit side price quantity tif ∷ [] in
      left es _ (
        >>=-Keeps (Logged es) (Logged es) _ _
          (submit_limit_internal-Logged es (log x (submit_limit side price quantity tif)) side price
            quantity tif refl)
          (after_submit-Logged es))
  call-HasLog x (submit_market side quantity) n =
      let es = x.events ++ submit_market side quantity ∷ [] in
      left es _ (
        >>=-Keeps (Logged es) (Logged es) _ _
          (submit_limit_internal-Logged es (log x (submit_market side quantity)) side
            (market_price side) quantity ioc refl)
          (after_submit-Logged es))
  call-HasLog x (cancel order_id) n =
      let e = cancel order_id in
      left (x.events ++ e ∷ []) (cancel_internal (log x e) order_id)
        (cancel_internal-Logged (x.events ++ e ∷ []) (log x e) order_id refl)
  call-HasLog x (modify order_id new_price new_quantity) n = absurd cc
  call-HasLog x (submit_stop_market side stop_price quantity) n =
      let e = submit_stop_market side stop_price quantity in
      left (x.events ++ e ∷ []) _ (
        insert_stop_order-Logged (x.events ++ e ∷ []) fp (log x e) side stop_price none quantity gtc
          none refl)
  call-HasLog x (submit_stop_limit side stop_price limit_price quantity tif) n =
      let e = submit_stop_limit side stop_price limit_price quantity tif in
      left (x.events ++ e ∷ []) _ (
        insert_stop_order-Logged (x.events ++ e ∷ []) fp (log x e) side stop_price
          (some limit_price) quantity tif none refl)
  call-HasLog x (submit_trailing_stop_market side stop_price quantity method) n =
      let e = submit_trailing_stop_market side stop_price quantity method in
      left (x.events ++ e ∷ []) _ (
        insert_stop_order-Logged (x.events ++ e ∷ []) fp (log x e) side stop_price none quantity gtc
          (some method) refl)
  call-HasLog x (submit_trailing_stop_limit side stop_price limit_price quantity tif method) n =
      let e = submit_trailing_stop_limit side stop_price limit_price quantity tif method in
      left (x.events ++ e ∷ []) _ (
        insert_stop_order-Logged (x.events ++ e ∷ []) fp (log x e) side stop_price
          (some limit_price) quantity tif (some method) refl)

  call_all-HasLog :
      (x : Exchange F) (es : List (Event F))
      → All (λ e. is_modify e ≡ false) es
      → Keeps (HasLog (x.events ++ es)) (call_all fp x es)
  unfolding call_all
  call_all-HasLog x [] n = sym (append-nil x.events)
  call_all-HasLog x (e ∷ es) n =
      >>=-Keeps (HasLog (x.events ++ e ∷ [])) (HasLog (x.events ++ e ∷ es)) (call fp x e) _
        (call-HasLog x e n.0)
        (λ y k.
          subst (λ l. Keeps (HasLog l) (call_all fp y es))
            (ap (λ l. l ++ es) k ∙ append_assoc x.events (e ∷ []) es) (call_all-HasLog y es n.1))

  -- If the public calls for a list of events none of which modifies an order, made one after the
  -- other from a new exchange, all return, then replaying the log of the exchange that they leave
  -- returns this exchange.
  pub replay-events :
      (es : List (Event F)) (x : Exchange F)
      → All (λ e. is_modify e ≡ false) es
      → call_all fp new_exchange es ≡ done x
      → replay fp x.events ≡ done x
  replay-events es x n h =
      let logged : x.events ≡ es =
        unfold new_exchange in subst (Keeps (HasLog es)) h (call_all-HasLog new_exchange es n) in
      ap (replay fp) logged ∙ replay-call_all fp es n ∙ h
