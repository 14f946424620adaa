-- ===== src/Stop.antt =====
-- src/stop.rs: stop orders. Trailing offsets by percentage and by average true range are computed
-- in floating point: a multiplier is of a type `F` that is left open, and the two computations are
-- operations of `FloatOps`.
pub mod Trigger
pub mod Trailing
pub mod Tightening
pub mod Triggering
pub mod Sweeping
pub mod Reporting
pub mod Ranges
pub mod Indexed
pub mod Entries
pub mod Indexing
pub mod Collecting
pub mod Following
pub mod Session
use rustbook.Prelude.{
  ℕ, zero, suc, ◌+◌, ◌-◌, ◌==◌, leb, ltb, ltb_ℤ, leb_ℤ, ℤ, pos, ◌+ℤ◌, ◌-ℤ◌, max_ℤ, min_ℤ, not, ◌&&◌,
  Bool, true, false, if◌then◌else◌, List, [], ◌∷◌, ◌++◌, map, Option, none, some, length, drop,
}
use mathlib.Core.Option
use rustbook.Prelude.HashMap
use rustbook.Prelude.HashMap.{HashMap}
use rustbook.Prelude.BTreeMap
use rustbook.Prelude.BTreeMap.{BTreeMap}
use rustbook.Types.{Price, Quantity, Timestamp, OrderId, Side, buy, sell, TimeInForce, wrap_i64}

-- `(price as f64 * pct) as i64`, and `((sum as f64 / len as f64) * multiplier) as i64`.
pub record FloatOps (F : Type 0) : Type 0 where
  pub scale : ℤ → F → ℤ
  pub scaled_mean : ℤ → ℕ → F → ℤ

pub data TrailMethod (F : Type 0) : Type 0 where
  fixed : ℤ → TrailMethod F
  percentage : F → TrailMethod F
  atr : F → ℕ → TrailMethod F

pub data StopStatus : Type 0 where
  pending triggered cancelled : StopStatus

pub record StopOrder (F : Type 0) : Type 0 where
  pub id : OrderId
  pub side : Side
  pub stop_price : Price
  pub limit_price : Option Price
  pub quantity : Quantity
  pub time_in_force : TimeInForce
  pub timestamp : Timestamp
  pub status : StopStatus
  pub trail_method : Option (TrailMethod F)
  pub watermark : Option Price

pub record StopBook (F : Type 0) : Type 0 where
  pub buy_stops : BTreeMap (List OrderId)
  pub sell_stops : BTreeMap (List OrderId)
  pub orders : HashMap (StopOrder F)
  pub trailing_ids : List OrderId
  pub price_changes : List ℤ
  pub last_price : Option Price

abbrev pub is_pending : StopStatus → Bool
is_pending pending = true
is_pending triggered = false
is_pending cancelled = false

-- `retain(|id| *id != order_id)`.
unfoldable pub drop_id : List OrderId → OrderId → List OrderId
drop_id [] order_id = []
drop_id (id ∷ ids) order_id =
    if id == order_id then drop_id ids order_id else id ∷ drop_id ids order_id

-- `map.entry(price).or_default().push(id)`.
unfoldable pub push_entry : BTreeMap (List OrderId) → Price → OrderId → BTreeMap (List OrderId)
push_entry m price id = BTreeMap.insert m price (Option.get_or (BTreeMap.get m price) [] ++ id ∷ [])

-- The id taken off the entry at the price, and the entry too if that was all.
unfoldable pub drop_entry : BTreeMap (List OrderId) → Price → OrderId → BTreeMap (List OrderId)
unfolding drop_id
drop_entry m price id = elim (BTreeMap.get m price) [
  | none ↦ m
  | some ids ↦ elim (drop_id ids id) [
    | [] ↦ BTreeMap.remove m price
    | j ∷ js ↦ BTreeMap.insert m price (j ∷ js)
  ]
]

unfoldable pub count_ids : BTreeMap (List OrderId) → ℕ
count_ids [] = 0
count_ids ((price, ids) ∷ rest) = length ids + count_ids rest

unfoldable pub keep_ids : (OrderId → Bool) → List OrderId → List OrderId
keep_ids keep [] = []
keep_ids keep (id ∷ ids) = if keep id then id ∷ keep_ids keep ids else keep_ids keep ids

module _ {F : Type 0} where
  -- `StopBook::new`.
  unfoldable pub new_stop_book : StopBook F
  new_stop_book = record {
    buy_stops = [];
    sell_stops = [];
    orders = [];
    trailing_ids = [];
    price_changes = [];
    last_price = none;
  }

  unfoldable pub stops_of : StopBook F → Side → BTreeMap (List OrderId)
  stops_of b buy = b.buy_stops
  stops_of b sell = b.sell_stops

  unfoldable pub put_stops : StopBook F → Side → BTreeMap (List OrderId) → StopBook F
  put_stops b buy m = record b { buy_stops = m }
  put_stops b sell m = record b { sell_stops = m }

  unfoldable pub is_trailing : StopOrder F → Bool
  is_trailing o = elim o.trail_method [ none ↦ false | some t ↦ true ]

  unfoldable pub insert : StopBook F → StopOrder F → StopBook F
  unfolding stops_of put_stops push_entry is_trailing
  insert b o =
      let b' = put_stops b o.side (push_entry (stops_of b o.side) o.stop_price o.id) in
      record b' {
        orders = HashMap.insert b.orders o.id o;
        trailing_ids = if is_trailing o then b.trailing_ids ++ o.id ∷ [] else b.trailing_ids;
      }

  -- The book with the pending order `o` of the id cancelled.
  unfoldable pub unlink_stop : StopBook F → OrderId → StopOrder F → StopBook F
  unfolding stops_of put_stops drop_entry drop_id
  unlink_stop b order_id o =
      let b' = put_stops b o.side (drop_entry (stops_of b o.side) o.stop_price order_id) in
      record b' {
        orders = HashMap.insert b.orders order_id (record o { status = cancelled });
        trailing_ids = drop_id b.trailing_ids order_id;
      }

  unfoldable pub cancel : StopBook F → OrderId → StopBook F × Bool
  unfolding unlink_stop
  cancel b order_id = elim (HashMap.get b.orders order_id) [
    | none ↦ (b, false)
    | some o ↦ if is_pending o.status then (unlink_stop b order_id o, true) else (b, false)
  ]

  unfoldable pub get : StopBook F → OrderId → Option (StopOrder F)
  get b order_id = HashMap.get b.orders order_id

  unfoldable pub pending_in : HashMap (StopOrder F) → OrderId → Bool
  pending_in orders id = elim (HashMap.get orders id) [
    | none ↦ false
    | some o ↦ is_pending o.status
  ]

  unfoldable pub contains_pending : StopBook F → OrderId → Bool
  unfolding pending_in
  contains_pending b order_id = pending_in b.orders order_id

  unfoldable pub pending_count : StopBook F → ℕ
  unfolding count_ids
  pending_count b = count_ids b.buy_stops + count_ids b.sell_stops

  unfoldable pub clear_history : StopBook F → StopBook F
  unfolding keep_ids
  clear_history b =
      let kept = HashMap.retain (λ o. is_pending o.status) b.orders in
      record b {
        orders = kept;
        trailing_ids = keep_ids (λ id. HashMap.contains_key kept id) b.trailing_ids;
      }
