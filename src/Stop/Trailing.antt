-- ===== src/Stop/Trailing.antt =====
-- src/stop.rs: `update_trailing_stops`, which moves the trailing stops after a trade price.
use rustbook.Prelude.{
  ℕ, ◌-◌, ◌==◌, ltb_ℤ, leb_ℤ, ℤ, pos, ◌+ℤ◌, ◌-ℤ◌, max_ℤ, min_ℤ, Bool, if◌then◌else◌, List, [], ◌∷◌,
  ◌++◌, Option, none, some, length, drop,
}
use mathlib.Core.Option
use rustbook.Prelude.HashMap
use rustbook.Types.{Price, OrderId, Side, buy, sell, wrap_i64}
use rustbook.Stop.{
  FloatOps, TrailMethod, fixed, percentage, atr, StopOrder, StopBook, is_pending, stops_of,
  put_stops, push_entry, drop_entry,
}

-- `StopBook::MAX_PRICE_HISTORY`.
abbrev pub max_price_history : ℕ
max_price_history = 10_000

abbrev pub abs_i64 : ℤ → ℤ
abs_i64 z = if ltb_ℤ z (pos 0) then wrap_i64 (pos 0 -ℤ z) else z

-- `iter().sum::<i64>()`.
unfoldable pub sum_changes : List ℤ → ℤ
sum_changes [] = pos 0
sum_changes (z ∷ zs) = wrap_i64 (z +ℤ sum_changes zs)

-- The price changes with the newest one, and no more than the history holds.
unfoldable pub push_change : List ℤ → ℤ → List ℤ
push_change changes change =
    let longer = changes ++ change ∷ [] in drop (length longer - max_price_history) longer

unfoldable pub record_price : List ℤ → Option Price → Price → List ℤ
unfolding push_change
record_price changes none trade_price = changes
record_price changes (some prev) trade_price =
    push_change changes (abs_i64 (wrap_i64 (trade_price -ℤ prev)))

unfoldable pub new_watermark : Side → Price → Price → Price
new_watermark sell old_watermark trade_price = max_ℤ old_watermark trade_price
new_watermark buy old_watermark trade_price = min_ℤ old_watermark trade_price

unfoldable pub new_stop : Side → Price → ℤ → Price
new_stop sell watermark offset = wrap_i64 (watermark -ℤ offset)
new_stop buy watermark offset = wrap_i64 (watermark +ℤ offset)

-- Whether the new stop price is the tighter protection.
unfoldable pub should_update : Side → Price → Price → Bool
should_update sell stop old_stop = ltb_ℤ old_stop stop
should_update buy stop old_stop = ltb_ℤ stop old_stop

module _ {F : Type 0} where
  unfoldable pub compute_atr_offset : FloatOps F → List ℤ → F → ℕ → ℤ
  unfolding sum_changes
  compute_atr_offset fp [] multiplier period = pos 0
  compute_atr_offset fp (z ∷ zs) multiplier period =
      if period == 0
      then pos 0
      else let window = drop (length (z ∷ zs) - period) (z ∷ zs) in
        fp.scaled_mean (sum_changes window) (length window) multiplier

  unfoldable pub trail_offset : FloatOps F → List ℤ → Price → TrailMethod F → ℤ
  unfolding compute_atr_offset
  trail_offset fp changes watermark (fixed cents) = cents
  trail_offset fp changes watermark (percentage pct) = fp.scale watermark pct
  trail_offset fp changes watermark (atr multiplier period) =
      compute_atr_offset fp changes multiplier period

  -- The stop order moved to its new price, and its entry with it.
  unfoldable pub move_stop : StopBook F → OrderId → StopOrder F → Price → Price → StopBook F
  unfolding put_stops stops_of push_entry drop_entry
  move_stop b id o stop watermark =
      let m = push_entry (drop_entry (stops_of b o.side) o.stop_price id) stop id in
      record (put_stops b o.side m) {
        orders =
            HashMap.insert b.orders id (record o { stop_price = stop; watermark = some watermark });
      }

  -- The watermark of the order set.
  unfoldable pub mark_water : StopBook F → OrderId → StopOrder F → Price → StopBook F
  mark_water b id o watermark = record b {
    orders = HashMap.insert b.orders id (record o { watermark = some watermark });
  }

  -- The update of one pending trailing order.
  unfoldable pub trail_one :
      FloatOps F → StopBook F → Price → OrderId → StopOrder F → TrailMethod F → StopBook F
  unfolding new_watermark new_stop should_update trail_offset move_stop mark_water
  trail_one fp b trade_price id o method =
      let watermark = new_watermark o.side (Option.get_or o.watermark trade_price) trade_price in
      let offset = trail_offset fp b.price_changes watermark method in
      let stop = new_stop o.side watermark offset in
      if leb_ℤ offset (pos 0)
      then mark_water b id o watermark
      else (if should_update o.side stop o.stop_price
          then move_stop b id o stop watermark
          else mark_water b id o watermark)

  -- A round of the loop over the trailing ids.
  unfoldable pub trail_id : FloatOps F → StopBook F → Price → OrderId → StopBook F
  unfolding trail_one
  trail_id fp b trade_price id = elim (HashMap.get b.orders id) [
    | none ↦ b
    | some o ↦ elim o.trail_method [
      | none ↦ b
      | some method ↦ if is_pending o.status then trail_one fp b trade_price id o method else b
    ]
  ]

  unfoldable pub trail_ids : FloatOps F → StopBook F → Price → List OrderId → StopBook F
  unfolding trail_id
  trail_ids fp b trade_price [] = b
  trail_ids fp b trade_price (id ∷ ids) =
      trail_ids fp (trail_id fp b trade_price id) trade_price ids

  unfoldable pub update_trailing_stops : FloatOps F → StopBook F → Price → StopBook F
  unfolding record_price trail_ids
  update_trailing_stops fp b trade_price =
      let b' = record b {
        price_changes = record_price b.price_changes b.last_price trade_price;
        last_price = some trade_price;
      } in
      trail_ids fp b' trade_price b'.trailing_ids
