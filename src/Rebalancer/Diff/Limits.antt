-- ===== src/Rebalancer/Diff/Limits.antt =====
-- rebalancer/src/diff.rs: the bounds of a limit price.
use rustbook.Prelude.{
  ℕ, ◌+◌, ◌-◌, ◌*◌, ◌/◌, ◌≡◌, pos, ◌*ℤ◌, ◌≤ℤ◌, ◌<◌, ◌≤◌, ◌^◌, true, false, ap, ◌∙◌, arith,
}
use native.Mathlib.Nat.{mul-le-mul_left}
use rustbook.Types.{wrap_i64}
use rustbook.Types.Wrapping.{pos_mul, pos_add, pos_sub, wrap_i64_pos}
use rustbook.Rebalancer.Diff.{compute_limit_price}

module _ (mid bps : ℕ) (rate : bps ≤ 10000) (fits : mid * 10000 < 2 ^ 63) where
  product_le : mid * bps ≤ mid * 10000
  product_le = mul-le-mul_left mid rate

  wrapped : wrap_i64 (pos mid *ℤ pos bps) ≡ pos (mid * bps)
  wrapped =
      ap wrap_i64 (pos_mul mid bps) ∙ wrap_i64_pos (mid * bps) (omega (arith, fits, product_le))

  offset_le : mid * bps / 10000 ≤ mid
  offset_le = omega (arith, product_le)

  buy_limit : compute_limit_price (pos mid) false bps ≡ pos (mid + mid * bps / 10000)
  unfolding compute_limit_price
  buy_limit =
      rw (compute_limit_price, wrapped, pos_add mid (mid * bps / 10000))
        (wrap_i64_pos (mid + mid * bps / 10000) (omega (arith, fits, offset_le)))

  sell_limit : compute_limit_price (pos mid) true bps ≡ pos (mid - mid * bps / 10000)
  unfolding compute_limit_price
  sell_limit =
      rw (compute_limit_price, wrapped, pos_sub mid (mid * bps / 10000) offset_le)
        (wrap_i64_pos (mid - mid * bps / 10000) (omega (arith, fits)))

  -- For a mid price that is not negative and whose 10000-fold fits an i64, and an offset of at most
  -- 10000 basis points, nothing overflows: a buy's limit price is the mid price plus the offset
  -- rounded down and a sell's is the mid price minus it, so that a buy's is at least the mid price,
  -- a sell's at most, and none is negative.
  pub compute_limit_price_lem :
      (compute_limit_price (pos mid) false bps ≡ pos (mid + mid * bps / 10000))
      × (compute_limit_price (pos mid) true bps ≡ pos (mid - mid * bps / 10000))
      × (pos mid ≤ℤ compute_limit_price (pos mid) false bps)
      × (compute_limit_price (pos mid) true bps ≤ℤ pos mid)
      × (pos 0 ≤ℤ compute_limit_price (pos mid) true bps)
  compute_limit_price_lem = (
    buy_limit,
    sell_limit,
    rw buy_limit (omega arith),
    rw sell_limit (omega arith),
    rw sell_limit (omega arith),
  )
