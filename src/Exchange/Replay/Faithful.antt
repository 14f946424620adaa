-- ===== src/Exchange/Replay/Faithful.antt =====
-- src/event.rs: the application of an event beside the public call that records it.
use rustbook.Prelude.{
  ◌≡◌, refl, ap, ◌∙◌, false, List, [], ◌∷◌, All, Run, done, panicked, out_of_fuel, ◌>>=◌,
}
use rustbook.Trade.{Trade}
use rustbook.Stop.{FloatOps}
use rustbook.Event.{
  Event, submit_limit, submit_market, cancel, modify, submit_stop_market, submit_stop_limit,
  submit_trailing_stop_market, submit_trailing_stop_limit,
}
use rustbook.Results.{SubmitResult}
use rustbook.Exchange.{Exchange, new_exchange}
use rustbook.Exchange.Api
use rustbook.Exchange.Api.{log, after_submit}
use rustbook.Exchange.Replay.{
  after_trades, apply_logged, apply, call, is_modify, replay_from, replay, call_all, ApplyResult,
}

-- The state that a call leaves.
abbrev pub state {ℓ κ} : {A : Type ℓ} {B : Type κ} → Run (A × B) → Run A
state m = m >>= λ r. done r.0

state-bind {ℓ κ} :
    {A : Type ℓ} {B : Type κ} {C : Type κ} (m : Run (A × B)) (c : C)
    → state (m >>= λ r. done (r.0, c)) ≡ state m
state-bind (done a) c = refl
state-bind panicked c = refl
state-bind out_of_fuel c = refl

module _ {F : Type 0} (fp : FloatOps F) where
  after_some :
      (m : Run (Exchange F)) (a : ApplyResult) (r : SubmitResult)
      → state (m >>= λ x'. done (x', a)) ≡ state (m >>= λ x'. done (x', r))
  after_some (done x) a r = refl
  after_some panicked a r = refl
  after_some out_of_fuel a r = refl

  after_trades-after_submit :
      (x : Exchange F) (r : SubmitResult) (ts : List Trade)
      → r.trades ≡ ts
      → state (after_trades fp x r.trades) ≡ state (after_submit fp (x, r))
  unfolding after_trades after_submit
  after_trades-after_submit x r [] e = rw e refl
  after_trades-after_submit x r (t ∷ ts) e = rw e (after_some _ _ r)

  submitted :
      (m : Run (Exchange F × SubmitResult))
      → state (m >>= λ r. after_trades fp r.0 r.1.trades) ≡ state (m >>= after_submit fp)
  submitted (done (x, r)) = after_trades-after_submit x r r.trades refl
  submitted panicked = refl
  submitted out_of_fuel = refl

  pub apply-call :
      (x : Exchange F) (e : Event F) → is_modify e ≡ false → state (apply fp x e) ≡ call fp x e
  unfolding apply apply_logged call Api.submit_limit Api.submit_market Api.cancel
      Api.submit_stop_market Api.submit_stop_limit Api.submit_trailing_stop_market
      Api.submit_trailing_stop_limit
  apply-call x (submit_limit side price quantity tif) n = submitted _
  apply-call x (submit_market side quantity) n = submitted _
  apply-call x (cancel order_id) n = state-bind _ _
  apply-call x (modify order_id new_price new_quantity) n = cc
  apply-call x (submit_stop_market side stop_price quantity) n = state-bind _ _
  apply-call x (submit_stop_limit side stop_price limit_price quantity tif) n = state-bind _ _
  apply-call x (submit_trailing_stop_market side stop_price quantity method) n = state-bind _ _
  apply-call x (submit_trailing_stop_limit side stop_price limit_price quantity tif method) n =
      state-bind _ _

  state->>= :
      (m : Run (Exchange F × ApplyResult)) (f : Exchange F → Run (Exchange F))
      → (m >>= λ r. f r.0) ≡ (state m >>= f)
  state->>= (done r) f = refl
  state->>= panicked f = refl
  state->>= out_of_fuel f = refl

  >>=-pointwise :
      (m : Run (Exchange F)) (f g : Exchange F → Run (Exchange F))
      → ((x : Exchange F) → f x ≡ g x)
      → (m >>= f) ≡ (m >>= g)
  >>=-pointwise (done x) f g h = h x
  >>=-pointwise panicked f g h = refl
  >>=-pointwise out_of_fuel f g h = refl

  pub replay_from-call_all :
      (x : Exchange F) (es : List (Event F))
      → All (λ e. is_modify e ≡ false) es
      → replay_from fp x es ≡ call_all fp x es
  unfolding replay_from call_all
  replay_from-call_all x [] n = refl
  replay_from-call_all x (e ∷ es) n =
      state->>= (apply fp x e) (λ y. replay_from fp y es)
      ∙ ap (λ m. m >>= λ y. replay_from fp y es) (apply-call x e n.0)
      ∙ >>=-pointwise (call fp x e) _ _ (λ y. replay_from-call_all y es n.1)

  -- Replaying a list of events none of which modifies an order gives the exchange, the panic or the
  -- unfinished loop that the public calls for these events give, one after the other, from a new
  -- exchange: a limit or market submission with its stop triggers, a cancellation, and every kind
  -- of stop order.
  pub replay-call_all :
      (es : List (Event F))
      → All (λ e. is_modify e ≡ false) es
      → replay fp es ≡ call_all fp new_exchange es
  unfolding replay
  replay-call_all es n = replay_from-call_all new_exchange es n
