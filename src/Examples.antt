-- ===== src/Examples.antt =====
-- Runs of the model at concrete inputs, by which the theorems are applied.
pub mod Books
pub mod Stops
pub mod Feeds
pub mod Symbols
pub mod Weights
pub mod Positions
use rustbook.Prelude.{
  ℕ, List, ◌≡◌, refl, subst, [], ◌∷◌, ◌++◌, none, some, arith, pos, done, panicked, Returns, length,
  false,
}
use rustbook.Prelude.HashMap
use rustbook.Prelude.BTreeMap
use rustbook.Types.{Price, Quantity, buy, sell, gtc, Side}
use rustbook.Order.{Order, new, filled, new_order, fill, cancel, after_fill, is_active, is_terminal}
use rustbook.Order.Lifecycle
use rustbook.Order.Lifecycle.{Reach, Reach-new_order-IsValid, filling, terminal_refuses}
use rustbook.Level
use rustbook.Level.{Level}
use rustbook.Level.Queue.{
  active, head, tail, IsCounted, pop_front_lem, push_back_lem, mark_tombstone_lem, tombstones,
}
use rustbook.PriceLevels
use rustbook.PriceLevels.{PriceLevels, new_levels, best_key}
use rustbook.PriceLevels.Best
use rustbook.PriceLevels.Best.{AsGood, best_price-IsBest}
use rustbook.PriceLevels.Changes.{marks, Change-IsValid}
use rustbook.Book.{
  OrderBook, new_book, add_order, create_order, side_of, opposite_side, is_crossed, best_bid,
  best_ask, crosses,
}
use rustbook.Book.WellFormed.{IsWellFormed, new_book-IsWellFormed}
use rustbook.Book.Pushing.{HasRoom}
use rustbook.Book.Adding.{Added, add_order-Added}
use rustbook.Matching.{match_order}
use rustbook.Matching.Termination.{MatchDone, match_order-MatchDone}
use rustbook.Matching.Total.{IsBalanced, match_order-IsBalanced}
use rustbook.Results.{SubmitResult}
use rustbook.Exchange.{Exchange, new_exchange, submit_limit_internal}
use rustbook.Event.{Event}
use rustbook.Stop.{FloatOps}
use rustbook.Exchange.Replay.{replay, call_all}
use rustbook.Exchange.Replay.Faithful.{replay-call_all}
use rustbook.Exchange.Replay.Session.{replay-events}
use rustbook.Exchange.Api
use rustbook.Exchange.Answers.{Submitted}
use rustbook.Exchange.Submission.{submit_limit_internal-Submitted, submit_limit_internal-is_crossed}

-- An exchange that nothing was sent to.
abbrev pub fresh : Exchange ℕ
fresh = new_exchange

fresh-IsWellFormed : IsWellFormed fresh.book
unfolding new_exchange
fresh-IsWellFormed = new_book-IsWellFormed

fresh-HasRoom : (s : Side) (p : Price) (q : Quantity) → HasRoom (side_of fresh.book s) p q
unfolding new_exchange new_book new_levels side_of BTreeMap.get
fresh-HasRoom buy p q l h = absurd cc
fresh-HasRoom sell p q l h = absurd cc

submit_limit_internal-Submitted_example :
    Returns
      (λ r. Submitted fresh sell (pos 100) 10 gtc r.0 r.1)
      (submit_limit_internal fresh sell (pos 100) 10 gtc)
submit_limit_internal-Submitted_example =
    submit_limit_internal-Submitted fresh sell (pos 100) 10 gtc fresh-IsWellFormed
      (unfold new_exchange new_book in omega arith) (omega arith) (fresh-HasRoom sell (pos 100) 10)

-- The exchange with an order that asks for 100, by which 10 rest.
abbrev pub asked : Order
asked = record {
  id = 1;
  side = sell;
  price = pos 100;
  original_quantity = 10;
  remaining_quantity = 10;
  filled_quantity = 0;
  timestamp = 1;
  time_in_force = gtc;
  status = new;
  position_in_level = 0;
}

abbrev pub level : Level
level = record { price = pos 100; orders = 1 ∷ []; total_quantity = 10; tombstone_count = 0 }

abbrev asks : PriceLevels
asks = record { levels = (pos 100, level) ∷ []; best_price = some (pos 100); side = sell }

abbrev pub book : OrderBook
book = record {
  bids = record { levels = []; best_price = none; side = buy };
  asks = asks;
  orders = (1, asked) ∷ [];
  next_order_id = 2;
  next_trade_id = 1;
  next_timestamp = 2;
}

abbrev opened : Exchange ℕ
opened = record fresh { book = book }

abbrev opening : SubmitResult
opening = record {
  order_id = 1;
  status = new;
  trades = [];
  filled_quantity = 0;
  resting_quantity = 10;
  cancelled_quantity = 0;
}

opening_run : submit_limit_internal fresh sell (pos 100) 10 gtc ≡ done (opened, opening)
unfolding submit_limit_internal new_exchange new_book new_levels match_order opposite_side
    create_order add_order HashMap.contains_key PriceLevels.insert_order Level.push_back
    BTreeMap.insert BTreeMap.get HashMap.insert
opening_run = refl

pub book-IsWellFormed : IsWellFormed book
book-IsWellFormed =
    (subst (Returns (λ r. Submitted fresh sell (pos 100) 10 gtc r.0 r.1)) opening_run
      submit_limit_internal-Submitted_example).well_formed

opened-HasRoom : HasRoom (side_of opened.book buy) (pos 101) 4
unfolding side_of BTreeMap.get
opened-HasRoom l h = absurd cc

-- An order that trades with the first one leaves a book that is not crossed.
submit_limit_internal-is_crossed_example :
    Returns (λ r. is_crossed r.0.book ≡ false) (submit_limit_internal opened buy (pos 101) 4 gtc)
submit_limit_internal-is_crossed_example =
    submit_limit_internal-is_crossed opened buy (pos 101) 4 gtc book-IsWellFormed (omega arith)
      (omega arith) opened-HasRoom (unfold is_crossed best_bid best_ask crosses in refl)

-- An order that buys 4 of the 10.
abbrev bid : Order
bid = record asked {
  id = 2;
  side = buy;
  price = pos 101;
  original_quantity = 4;
  remaining_quantity = 4;
}

match_order-MatchDone_example : Returns (λ r. MatchDone book bid r.0 r.1) (match_order book bid)
match_order-MatchDone_example = match_order-MatchDone book bid book-IsWellFormed

match_order-IsBalanced_example : Returns (λ r. IsBalanced bid r.1 r.2) (match_order book bid)
match_order-IsBalanced_example =
    match_order-IsBalanced book bid book-IsWellFormed refl (omega arith)

-- Another order for the book, at another price.
abbrev later : Order
later = record asked { id = 2; price = pos 105 }

abbrev numbered : OrderBook
numbered = record book { next_order_id = 3 }

numbered-IsWellFormed : IsWellFormed numbered
unfolding side_of HashMap.get
numbered-IsWellFormed = record {
  sides = elim [ buy ↦ book-IsWellFormed.sides buy | sell ↦ book-IsWellFormed.sides sell ];
  fresh = λ id o h. omega (arith, book-IsWellFormed.fresh id o h);
  started = omega arith;
}

numbered-HasRoom : HasRoom (side_of numbered sell) (pos 105) 10
unfolding side_of BTreeMap.get
numbered-HasRoom l h = absurd cc

add_order-Added_example : Returns (Added numbered later) (add_order numbered later)
add_order-Added_example =
    add_order-Added numbered later numbered-IsWellFormed (unfold HashMap.get in refl) (omega arith)
      (omega arith) (unfold is_active in refl) (omega arith) (omega arith) numbered-HasRoom

asks-IsValid : Best.IsValid asks
unfolding side_of
asks-IsValid = (book-IsWellFormed.sides sell).valid

best_price-IsBest_example :
    ((l : Level) × (BTreeMap.get asks.levels (pos 100) ≡ some l))
    × ((k : Price) (l : Level) → BTreeMap.get asks.levels k ≡ some l → AsGood asks.side (pos 100) k)
best_price-IsBest_example = best_price-IsBest asks (pos 100) asks-IsValid refl

Change-IsValid_example : Best.IsValid (PriceLevels.mark_tombstone asks (pos 100) 0 10)
Change-IsValid_example = Change-IsValid (marks (pos 100) 0 10) asks-IsValid

-- A level with the orders 1 and 3, and a slot between them whose order is gone.
abbrev queue : Level
queue = record { price = pos 100; orders = 1 ∷ 0 ∷ 3 ∷ []; total_quantity = 9; tombstone_count = 1 }

queue-IsCounted : IsCounted queue
unfolding tombstones
queue-IsCounted = record { counted = refl }

pop_front_lem_example :
    IsCounted (Level.pop_front queue 4).0
    × (active (Level.pop_front queue 4).0 ≡ tail (active queue))
    × ((Level.pop_front queue 4).1 ≡ head (active queue))
pop_front_lem_example = pop_front_lem queue 4 queue-IsCounted

push_back_lem_example :
    (l' : Level) × (Level.push_back queue 7 5 ≡ done l')
    × IsCounted l'
    × (active l' ≡ active queue ++ 7 ∷ [])
push_back_lem_example = push_back_lem queue 7 5 queue-IsCounted (λ e. omega (arith, e))

mark_tombstone_lem_example :
    IsCounted (Level.mark_tombstone queue 2 5)
    × (active queue ≡ Level.iter (1 ∷ 0 ∷ []) ++ 3 ∷ Level.iter [])
    × (active (Level.mark_tombstone queue 2 5) ≡ Level.iter (1 ∷ 0 ∷ []) ++ Level.iter [])
mark_tombstone_lem_example =
    mark_tombstone_lem queue (1 ∷ 0 ∷ []) [] 3 5 queue-IsCounted refl (λ e. omega (arith, e))

-- The new order of 10 after 4 of it are filled.
begun :
    Reach (new_order 1 sell (pos 100) 10 1 gtc) (after_fill (new_order 1 sell (pos 100) 10 1 gtc) 4)
unfolding new_order after_fill fill is_active
begun = Lifecycle.next Lifecycle.here (filling 4 refl refl)

Reach-new_order-IsValid_example :
    Lifecycle.IsValid (after_fill (new_order 1 sell (pos 100) 10 1 gtc) 4)
Reach-new_order-IsValid_example =
    Reach-new_order-IsValid 1 sell (pos 100) 10 1 gtc (omega arith) begun

-- An order that is filled.
abbrev whole : Order
whole = record asked { remaining_quantity = 0; filled_quantity = 10; status = filled }

whole-IsValid : Lifecycle.IsValid whole
whole-IsValid = record {
  within = omega arith;
  in_range = omega arith;
  complete = λ _. omega arith;
  untouched = λ e. absurd cc;
  exhausted = λ _. refl;
}

terminal_refuses_example : (fill whole 3 ≡ panicked) × (cancel whole ≡ panicked)
terminal_refuses_example =
    terminal_refuses whole 3 whole-IsValid (unfold is_terminal in refl) (omega arith)

-- Offsets without floating-point numbers: a price or a sum as it is.
abbrev pub plain : FloatOps ℕ
plain = record { scale = λ price pct. price; scaled_mean = λ sum count multiplier. sum }

-- Two orders that trade, a stop order that the trade triggers, and a cancellation.
abbrev session : List (Event ℕ)
session =
    Event.submit_limit sell (pos 100) 10 gtc
    ∷ Event.submit_stop_market sell (pos 100) 3
    ∷ Event.submit_limit buy (pos 101) 4 gtc
    ∷ Event.cancel 1
    ∷ []

replay-call_all_example : replay plain session ≡ call_all plain fresh session
replay-call_all_example = replay-call_all plain session (refl, (refl, (refl, (refl, tt))))

-- The exchange that the first order of the session leaves, with its log.
abbrev pub logged : Exchange ℕ
logged = record opened { events = Event.submit_limit sell (pos 100) 10 gtc ∷ [] }

pub logged_run : call_all plain fresh (Event.submit_limit sell (pos 100) 10 gtc ∷ []) ≡ done logged
unfolding call_all Api.submit_limit new_exchange submit_limit_internal match_order opposite_side
    create_order add_order HashMap.contains_key PriceLevels.insert_order Level.push_back
    BTreeMap.insert BTreeMap.get HashMap.insert
logged_run = refl

replay-events_example : replay plain logged.events ≡ done logged
replay-events_example =
    replay-events plain (Event.submit_limit sell (pos 100) 10 gtc ∷ []) logged (refl, tt) logged_run
