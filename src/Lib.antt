-- ===== src/Lib.antt =====
-- A verification library for nanobook, a limit order book and matching engine in Rust.
--
-- The program. An exchange (src/exchange.rs) takes orders, matches them in price-time order against
-- a book (src/book.rs, src/matching.rs) and keeps the trades, the stop orders (src/stop.rs) and a log
-- of its inputs (src/event.rs). A book has two sides (src/price_levels.rs), each a sorted map from
-- prices to queues of order ids (src/level.rs) with a cached best price, and an index from ids to
-- orders (src/order.rs). A cancelled order's slot in its queue becomes a tombstone, the id 0.
--
-- The model. State is passed on explicitly: a method that takes `&mut self` is a function from the
-- record of the struct to the new record and what the method returns. A method that may panic
-- returns a `Run`, which is a result, a panic or a loop that has used up its fuel. Which file models
-- which part:
--   Types                 src/types.rs, src/side.rs, src/tif.rs
--   Order                 src/order.rs
--   Level                 src/level.rs: `skip_front` and `skip_pop` are the loops of `front` and
--                         `pop_front`; `take_total` their subtraction from the total
--   PriceLevels           src/price_levels.rs: a write through `&mut Level` is `put_level`, and
--                         `settle_level` removes a level on which nothing is left
--   Trade                 src/trade.rs
--   Book                  src/book.rs: `put_side` is a write through `side_mut`
--   Matching              src/matching.rs: `match_loop` is the loop of `match_order`, `match_round`
--                         a round of the loop of `match_at_price`
--   Stop                  src/stop.rs: Stop.Trigger has `collect_triggered`, Stop.Trailing has
--                         `update_trailing_stops`
--   Symbol, MultiExchange src/types.rs (symbols), src/multi_exchange.rs: `on` is a call through the
--                         reference that `get_or_create` gives
--   Snapshot              src/snapshot.rs: the views of a book, without the averages on `f64`
--   Itch                  src/itch.rs: `parse` is the match on the message type, `read_length` and
--                         `read_body` are the two reads of `next_message`
--   Portfolio             src/portfolio/cost_model.rs, src/portfolio/position.rs: `reduce` and
--                         `averaged` are branches of `apply_fill`
--   Results, Event        src/result.rs, src/error.rs, src/event.rs
--   Exchange              src/exchange.rs: the internal calls; Exchange.Triggers has the stop cascade
--                         and Exchange.Api the public calls, each of which records its event first
--                         Exchange.Answers says what an answer to a limit order promises
--   Exchange.Replay       src/event.rs: `apply`, `apply_all` and `replay`; `call` is the public call
--                         of an event, with which they are compared
--   Rebalancer.Diff       rebalancer/src/diff.rs: `close_position` and `rebalance_target` are the
--                         rounds of the two loops of `compute_diff`
--   Examples              runs at concrete inputs
-- The other modules below these hold the statements and proofs about them; Prelude holds the shared
-- helpers, among them the maps: HashMap is an association list from ids, BTreeMap a sorted one from
-- prices.
--
-- A book is well formed (Book.WellFormed) if on each side the prices are sorted, the cached best
-- price is right, the tombstones of a level are counted, each id in a queue stands once, for an
-- active order of that side and price with something left, the total of a level is what its orders
-- have left, is positive and fits 64 bits, and every id in the index is below the next one.
--
-- A stop book is indexed (Stop.Indexed) if the entries of each side are sorted by stop price, every
-- pending order stands at its side and stop price, and every id stands only at the place of its
-- pending order.
--
-- Machine arithmetic. A `u64` is a natural number, a price an integer; sums on `u64` and subtractions
-- from a tombstone count (`wrapping_sub`) wrap around, as in a release build; a sum or difference that
-- the code saturates saturates, and `i64` results wrap.
--
-- Loops. The two loops of a match run on fuel, as many rounds as the opposite side has slots, and two
-- more: every round fills the order, leaves the loop or removes a slot. The stop cascade has the
-- code's own bound of 100 rounds.
--
-- Features. The feature event-log is on: every public call that changes the exchange logs its event.
--
-- Parameters. The computations on `f64` (the offsets of trailing stops, the value of a target weight)
-- are functions that the definitions take as arguments. The source of the bytes of messages is a
-- `Reader`, whose `read_exact` gives as many bytes as it is asked for or fails, and the decoding of
-- their symbols is a function.
--
-- Not modelled: text, serialisation and files (src/persistence.rs), the command line, the numerical
-- code on `f64` (src/stats.rs, src/indicators.rs, src/optimize.rs, src/garch.rs and most of
-- src/portfolio), queries of the exchange that only read, the rest of the crate rebalancer, and the
-- crates broker, risk and python.
pub mod Prelude
pub mod Types
pub mod Order
pub mod Level
pub mod PriceLevels
pub mod Trade
pub mod Book
pub mod Matching
pub mod Stop
pub mod Snapshot
pub mod Results
pub mod Event
pub mod Itch
pub mod Portfolio
pub mod Rebalancer
pub mod Symbol
pub mod Exchange
pub mod MultiExchange
pub mod Examples
