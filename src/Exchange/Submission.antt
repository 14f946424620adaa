-- ===== src/Exchange/Submission.antt =====
-- src/exchange.rs: `submit_limit_internal` on a well-formed book.
use rustbook.Prelude.{
  ◌+◌, ◌<◌, ◌^◌, ◌≡◌, inl, inr, refl, sym, ◌∙◌, subst, true, false, not, ◌&&◌, ◌++◌, none, arith,
  All, All-imp, Option-cases, Bool-cases, Returns, >>=-Returns,
}
use mathlib.Core.List.{append-nil}
use rustbook.Prelude.HashMap
use rustbook.Types.{Quantity, Price, Side, TimeInForce, buy, sell, opposite}
use rustbook.Order.{Order, OrderStatus, new_order}
use rustbook.Book.{OrderBook, side_of, opposite_side, create_order, is_crossed}
use rustbook.Book.WellFormed.{IsWellFormed}
use rustbook.Book.Pushing.{HasRoom}
use rustbook.Matching.{MatchResult, can_fully_fill, match_order, sum_trades, filled_quantity}
use rustbook.Matching.Accounts.{IsOwnTrade}
use rustbook.Exchange.{Exchange, settle_order, execute, submit_limit_internal, rejection, is_fok}
use rustbook.Exchange.Crossing.{Uncrossed, Uncrossed-from, Uncrossed-to, Progress-Uncrossed}
use rustbook.Exchange.Entering.{
  match_order-Matched, create_order-IsWellFormed, created, is_fok_lem, unfillable, Matched-Settled,
  Matched,
}
use rustbook.Exchange.Answers.{IsTradeOf, Submitted}
use rustbook.Exchange.Settling.{Settled, Rested}

module _ {F : Type 0} (x : Exchange F) (side : Side) (price : Price) (quantity : Quantity)
    (tif : TimeInForce) (wf : IsWellFormed x.book) (ids : x.book.next_order_id + 1 < 2 ^ 64)
    (small : quantity < 2 ^ 64) (room : HasRoom (side_of x.book side) price quantity) where
  start : OrderBook
  start = (create_order x.book side price quantity tif).0

  order : Order
  order = created x.book side price quantity tif

  start-IsWellFormed : IsWellFormed start
  unfolding start
  start-IsWellFormed = create_order-IsWellFormed x.book side price quantity tif wf ids

  new_id : HashMap.get start.orders order.id ≡ none
  unfolding start order created create_order new_order
  new_id = elim (Option-cases (HashMap.get x.book.orders x.book.next_order_id)) [
    | inl n ↦ n
    | inr (o, e) ↦ absurd (let old = wf.fresh x.book.next_order_id o e in omega (arith, old))
  ]

  own_side : (s : Side) → side_of start s ≡ side_of x.book s
  unfolding start create_order side_of
  own_side buy = refl
  own_side sell = refl

  numbered : order.id ≡ x.book.next_order_id
  unfolding order created create_order new_order
  numbered = refl

  Uncrossed-start : (s : Side) → Uncrossed s x.book → Uncrossed s start
  unfolding start create_order side_of opposite_side opposite
  Uncrossed-start buy u = u
  Uncrossed-start sell u = u

  settled :
      (b' : OrderBook) (o' : Order) (m : MatchResult)
      → Matched start order b' o' m
      → Returns (λ s. Settled b' o' tif s.0 s.1 s.2 s.3) (settle_order b' o' tif)
  unfolding order start created create_order new_order
  settled b' o' m k =
      Matched-Settled start order b' o' m tif start-IsWellFormed new_id (omega (arith, ids))
        (wf.started) small (subst (λ ps. HasRoom ps price quantity) (sym (own_side side)) room) k

  still_uncrossed :
      (b' : OrderBook) (o' : Order) (m : MatchResult) (c : OrderBook) (status : OrderStatus)
      (resting cancelled : Quantity)
      → Matched start order b' o' m
      → Settled b' o' tif c status resting cancelled
      → is_crossed x.book ≡ false
      → is_crossed c ≡ false
  still_uncrossed b' o' m c status resting cancelled k s h = Uncrossed-to o'.side c (
      s.uncrossed (elim k.0.ended [ inl e ↦ inl e | inr a ↦ inr (rw (k.0.sided, k.0.priced) a) ])
        (rw k.0.sided (
          Progress-Uncrossed order.side start b' start-IsWellFormed k.0.progress
            (Uncrossed-start order.side (Uncrossed-from order.side x.book h)))))

  Matched-names :
      (b' : OrderBook) (o' : Order) (m : MatchResult)
      → Matched start order b' o' m
      → (o'.side ≡ side)
        × (o'.price ≡ price)
        × (o'.id ≡ order.id)
        × (side_of b' side ≡ side_of x.book side)
  unfolding order created create_order new_order
  Matched-names b' o' m k =
      (k.0.sided, k.0.priced, k.1.named, k.0.progress.own_side ∙ own_side side)

  Matched-IsTradeOf :
      (b' : OrderBook) (o' : Order) (m : MatchResult)
      → Matched start order b' o' m
      → All (IsTradeOf order.id side price) m.trades
  unfolding order created create_order new_order
  Matched-IsTradeOf b' o' m k =
      All-imp (IsOwnTrade order) (IsTradeOf order.id side price) m.trades
        (λ t w. (w.named, w.sided, w.crosses)) k.1.owned

  Rested-side :
      (b' : OrderBook) (o' : Order) (m : MatchResult) (c : OrderBook) (resting : Quantity)
      → Matched start order b' o' m
      → Rested resting (side_of b' o'.side) o'.price o'.id (side_of c o'.side)
      → Rested resting (side_of x.book side) price order.id (side_of c side)
  Rested-side b' o' m c resting k j =
      let (sided, priced, named, own) = Matched-names b' o' m k in
      subst (λ ps. Rested resting ps price order.id (side_of c side)) own
        (subst (λ id. Rested resting (side_of b' side) price id (side_of c side)) named
          (subst (λ p. Rested resting (side_of b' side) p o'.id (side_of c side)) priced
            (subst (λ s. Rested resting (side_of b' s) o'.price o'.id (side_of c s)) sided j)))

  answered :
      (b' : OrderBook) (o' : Order) (m : MatchResult) (c : OrderBook) (status : OrderStatus)
      (resting cancelled : Quantity)
      → Matched start order b' o' m
      → Settled b' o' tif c status resting cancelled
      → Submitted x side price quantity tif
          (record x { book = c; trades = x.trades ++ m.trades })
          (record {
            order_id = order.id;
            status = status;
            trades = m.trades;
            filled_quantity = o'.filled_quantity;
            resting_quantity = resting;
            cancelled_quantity = cancelled;
          })
  unfolding order created create_order new_order filled_quantity
  answered b' o' m c status resting cancelled k s = record {
    well_formed = s.well_formed;
    balanced = omega (arith, k.1.complete, s.remainder);
    traded = k.1.traded;
    owned = Matched-IsTradeOf b' o' m k;
    policy = s.policy;
    recorded = refl;
    numbered = refl;
    own_side = Rested-side b' o' m c resting k s.own_side;
    known =
        let (sided, priced, named, _) = Matched-names b' o' m k in
        inl (record {
          order = s.stored.order;
          found = rw (sym named) s.stored.found;
          sided = s.stored.sided ∙ sided;
          priced = s.stored.priced ∙ priced;
          filled = s.stored.filled;
          remaining = s.stored.remaining ∙ sym s.remainder;
          with_status = s.stored.with_status;
        });
  }

  untouched : order.filled_quantity ≡ 0
  unfolding order created create_order new_order
  untouched = refl

  small_order : order.remaining_quantity < 2 ^ 64
  unfolding order created create_order new_order
  small_order = small

  matched : Returns (λ r. Matched start order r.0 r.1 r.2) (match_order start order)
  matched = match_order-Matched start order start-IsWellFormed untouched small_order

  execute-Submitted :
      Returns (λ r. Submitted x side price quantity tif r.0 r.1) (execute x start order tif)
  unfolding execute
  execute-Submitted =
      >>=-Returns (λ r. Matched start order r.0 r.1 r.2)
        (λ r. Submitted x side price quantity tif r.0 r.1) (match_order start order) _ matched
        (λ m k.
          >>=-Returns (λ s. Settled m.0 m.1 tif s.0 s.1 s.2 s.3)
            (λ r. Submitted x side price quantity tif r.0 r.1) (settle_order m.0 m.1 tif) _
            (settled m.0 m.1 m.2 k) (λ s h. answered m.0 m.1 m.2 s.0 s.1 s.2 s.3 k h))

  rejected :
      (is_fok tif && not (can_fully_fill x.book side price quantity)) ≡ true
      → Submitted x side price quantity tif
          (record x { book = start })
          (rejection order.id quantity)
  unfolding rejection sum_trades
  rejected h =
      let e = is_fok_lem tif _ h in
      record {
        well_formed = start-IsWellFormed;
        balanced = omega arith;
        traded = refl;
        policy = rw e refl;
        recorded = sym (append-nil x.trades);
        owned = tt;
        numbered = numbered;
        own_side = inl (refl, own_side side);
        known = inr (record {
          fill_or_kill = e;
          short = unfillable tif _ h;
          no_trades = refl;
          same = own_side;
          absent = new_id;
        });
      }

  pub submit_limit_internal-Submitted :
      Returns
        (λ r. Submitted x side price quantity tif r.0 r.1)
        (submit_limit_internal x side price quantity tif)
  unfolding submit_limit_internal
  submit_limit_internal-Submitted =
      elim (Bool-cases (is_fok tif && not (can_fully_fill x.book side price quantity))) [
        | inl e ↦ rw e (unfold start order created in rejected e)
        | inr e ↦ rw e (unfold start order created in execute-Submitted)
      ]

  execute_uncrossed :
      is_crossed x.book ≡ false
      → Returns (λ r. is_crossed r.0.book ≡ false) (execute x start order tif)
  unfolding execute
  execute_uncrossed h =
      >>=-Returns (λ r. Matched start order r.0 r.1 r.2) (λ r. is_crossed r.0.book ≡ false)
        (match_order start order) _ matched
        (λ m k.
          >>=-Returns (λ s. Settled m.0 m.1 tif s.0 s.1 s.2 s.3) (λ r. is_crossed r.0.book ≡ false)
            (settle_order m.0 m.1 tif) _ (settled m.0 m.1 m.2 k)
            (λ s d. still_uncrossed m.0 m.1 m.2 s.0 s.1 s.2 s.3 k d h))

  -- Submitting a limit order of a quantity that fits 64 bits to a well-formed book that is not
  -- crossed, when the next order id plus one fits 64 bits and the level at the order's price on its
  -- own side has room for the quantity, returns and leaves a book that is not crossed.
  pub submit_limit_internal-is_crossed :
      is_crossed x.book ≡ false
      → Returns (λ r. is_crossed r.0.book ≡ false) (submit_limit_internal x side price quantity tif)
  unfolding submit_limit_internal
  submit_limit_internal-is_crossed h =
      elim (Bool-cases (is_fok tif && not (can_fully_fill x.book side price quantity))) [
        | inl e ↦ rw e (
            unfold start in
            Uncrossed-to side start (Uncrossed-start side (Uncrossed-from side x.book h)))
        | inr e ↦ rw e (unfold start order created in execute_uncrossed h)
      ]
