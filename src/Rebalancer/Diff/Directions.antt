-- ===== src/Rebalancer/Diff/Directions.antt =====
-- rebalancer/src/diff.rs: what `classify_trade` says of a trade.
use rustbook.Prelude.{
  ◌+◌, ◌≡◌, ◌≢◌, ℤ, pos, pos_part, neg_part, ltb_ℤ, eqb_ℤ, ◌+ℤ◌, ◌-ℤ◌, ◌<◌, ◌^◌, Bool, true, false,
  arith, if◌then◌else◌,
}
use rustbook.Stop.Trailing.{abs_i64}
use rustbook.Rebalancer.Diff.{
  Action, buy, sell, sell_short, buy_cover, Description, open_long, open_short, flip_to_short,
  flip_to_long, rebalance, classify_trade,
}

-- The action takes shares in.
abbrev pub buys : Action → Bool
buys buy = true
buys sell = false
buys sell_short = false
buys buy_cover = true

-- The trade leaves a position on the other side.
abbrev pub flips : Description → Bool
flips flip_to_short = true
flips flip_to_long = true
flips _ = false

-- The trade starts from no position.
abbrev pub opens : Description → Bool
opens open_long = true
opens open_short = true
opens _ = false

-- The size of a quantity, which is no overflow but for the smallest `i64`.
abs_i64-size :
    (z : ℤ) → pos_part z < 2 ^ 63 → neg_part z < 2 ^ 63 → abs_i64 z ≡ pos (pos_part z + neg_part z)
unfolding ◌-ℤ◌
abs_i64-size z h k = ground arith

-- The position that the trade leaves is on the other side of zero.
abbrev pub crosses_zero : ℤ → ℤ → Bool
crosses_zero c d =
    if ltb_ℤ (pos 0) c
    then ltb_ℤ (c +ℤ d) (pos 0)
    else (if ltb_ℤ c (pos 0) then ltb_ℤ (pos 0) (c +ℤ d) else false)

pub record Classified (c d : ℤ) (r : Action × Description) : Type 0 where
  pub direction : buys r.0 ≡ ltb_ℤ (pos 0) d
  pub flipped : flips r.1 ≡ crosses_zero c d
  pub opened : opens r.1 ≡ eqb_ℤ c (pos 0)
  pub named : r.1 ≢ rebalance

-- The four parts, which the code's tests decide.
abbrev Parts : ℤ → ℤ → Action × Description → Type 0
Parts c d r =
    (buys r.0 ≡ ltb_ℤ (pos 0) d)
    × (flips r.1 ≡ crosses_zero c d)
    × (opens r.1 ≡ eqb_ℤ c (pos 0))
    × (r.1 ≢ rebalance)

parts :
    (c d : ℤ)
    → pos_part c < 2 ^ 63
    → neg_part c < 2 ^ 63
    → pos_part d < 2 ^ 63
    → neg_part d < 2 ^ 63
    → d ≢ pos 0
    → Parts c d (classify_trade c d)
unfolding classify_trade ◌+ℤ◌
parts c d hc hc' hd hd' n =
    let size_c = abs_i64-size c hc hc' in
    let size_d = abs_i64-size d hd hd' in rw (classify_trade, size_c, size_d) (ground (arith, n))

-- For quantities above the smallest i64 and a change that is not zero, a trade is classified by
-- what it does: its action takes shares in exactly if the change is positive, its description says
-- that it flips the position exactly if the position and what the change leaves stand on different
-- sides of zero, that it opens one exactly if there was none, and it is never the fallback.
pub classify_trade-Classified :
    (c d : ℤ)
    → pos_part c < 2 ^ 63
    → neg_part c < 2 ^ 63
    → pos_part d < 2 ^ 63
    → neg_part d < 2 ^ 63
    → d ≢ pos 0
    → Classified c d (classify_trade c d)
classify_trade-Classified c d hc hc' hd hd' n =
    let (direction, flipped, opened, named) = parts c d hc hc' hd hd' n in
    record { direction = direction; flipped = flipped; opened = opened; named = named }
