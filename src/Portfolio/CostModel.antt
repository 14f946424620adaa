-- ===== src/Portfolio/CostModel.antt =====
-- src/portfolio/cost_model.rs: the cost of a trade. Rates are `u32`, the fee is an `i64`, and the
-- product is taken in 128 bits.
pub mod Bounds
use rustbook.Prelude.{
  ℕ, ◌+◌, ◌*◌, ◌/◌, ◌-◌, ◌^◌, ◌%◌, ℤ, pos, pos_part, neg_part, max_ℤ, ltb, if◌then◌else◌,
}

pub record CostModel : Type 0 where
  pub commission_bps : ℕ
  pub slippage_bps : ℕ
  pub min_trade_fee : ℤ

-- `CostModel::zero`.
abbrev pub zero_cost : CostModel
zero_cost = record { commission_bps = 0; slippage_bps = 0; min_trade_fee = pos 0 }

-- `unsigned_abs`.
abbrev pub unsigned_abs : ℤ → ℕ
unsigned_abs z = pos_part z + neg_part z

-- `i64::try_from(raw).unwrap_or(i64::MAX)`.
unfoldable pub clamp_i64 : ℕ → ℤ
clamp_i64 raw = if ltb raw (2 ^ 63) then pos raw else pos (2 ^ 63 - 1)

-- The cost in basis points of the notional, in 128 bits.
unfoldable pub raw_cost : CostModel → ℕ → ℕ
raw_cost m notional = notional * ((m.commission_bps + m.slippage_bps) % 2 ^ 128) % 2 ^ 128 / 10000

unfoldable pub compute_cost : CostModel → ℤ → ℤ
unfolding clamp_i64 raw_cost max_ℤ
compute_cost m notional = max_ℤ (clamp_i64 (raw_cost m (unsigned_abs notional))) m.min_trade_fee
