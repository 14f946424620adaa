-- ===== src/Portfolio/CostModel/Bounds.antt =====
-- src/portfolio/cost_model.rs: the bounds of a cost, and that it grows with the notional.
use rustbook.Prelude.{
  ℕ, ◌+◌, ◌*◌, ◌/◌, ◌-◌, ◌^◌, ◌%◌, ℤ, pos, negsuc, pos_part, neg_part, max_ℤ, ◌≤ℤ◌, ◌≤◌, ◌<◌, ◌≡◌,
  ap, arith,
}
use native.Mathlib.Nat.{mul-le-mul_right}
use rustbook.Portfolio.CostModel.{CostModel, unsigned_abs, clamp_i64, raw_cost, compute_cost}

-- The rates of the model are `u32` values, and its fee is an `i64`.
abbrev pub IsCostModel : CostModel → Type 0
IsCostModel m =
    (m.commission_bps < 2 ^ 32) × (m.slippage_bps < 2 ^ 32) × (m.min_trade_fee ≤ℤ pos (2 ^ 63 - 1))

-- The integer is an `i64`.
abbrev pub IsI64 : ℤ → Type 0
IsI64 z = (pos_part z < 2 ^ 63) × (neg_part z ≤ 2 ^ 63)

abs_le : (z : ℤ) → IsI64 z → unsigned_abs z ≤ 2 ^ 63
abs_le (pos n) h = omega (arith, h.0)
abs_le (negsuc n) h = omega (arith, h.1)

mul_le : (a b c : ℕ) → a ≤ b → a * c ≤ b * c
mul_le a b c h = mul-le-mul_right c h

-- The product does not overflow in 128 bits.
raw_cost-exact :
    (m : CostModel) (n : ℕ)
    → IsCostModel m
    → n ≤ 2 ^ 63
    → raw_cost m n ≡ n * (m.commission_bps + m.slippage_bps) / 10000
unfolding raw_cost
raw_cost-exact m n (hc, hs, hf) h =
    let bps = m.commission_bps + m.slippage_bps in
    let small : bps ≤ 2 ^ 33 = omega (arith, hc, hs) in
    let one : n * bps ≤ 2 ^ 63 * bps = mul_le n (2 ^ 63) bps h in
    let fits : n * bps < 2 ^ 128 = omega (arith, one, small) in
    let same : bps % 2 ^ 128 ≡ bps = omega (arith, small) in rw same (omega (arith, fits))

clamp_i64-mono : (a b : ℕ) → a ≤ b → clamp_i64 a ≤ℤ clamp_i64 b
unfolding clamp_i64
clamp_i64-mono a b h = ground arith

max_ℤ-mono : (a b c : ℤ) → a ≤ℤ b → max_ℤ a c ≤ℤ max_ℤ b c
unfolding max_ℤ
max_ℤ-mono a b c h = ground arith

-- A cost: the rates' share of the notional, exact up to the largest `i64`, or the fee if that is
-- more; it is not negative and in range.
pub record IsCost (m : CostModel) (notional cost : ℤ) : Type 0 where
  pub rated :
      cost
      ≡ max_ℤ
          (clamp_i64 (unsigned_abs notional * (m.commission_bps + m.slippage_bps) / 10000))
          m.min_trade_fee
  pub non_negative : pos 0 ≤ℤ cost
  pub charges_fee : m.min_trade_fee ≤ℤ cost
  pub fits : cost ≤ℤ pos (2 ^ 63 - 1)

-- With rates below 2^32, a fee in the range of an i64 and a notional that is an i64, the cost of a
-- trade is the exact share of the absolute notional that the sum of the rates gives, in
-- ten-thousandths rounded down and capped at the largest i64, or the fee if that is more: nothing
-- overflows, and the cost is not negative, not below the fee and in range.
pub compute_cost-IsCost :
    (m : CostModel) (notional : ℤ)
    → IsCostModel m
    → IsI64 notional
    → IsCost m notional (compute_cost m notional)
unfolding compute_cost clamp_i64 max_ℤ
compute_cost-IsCost m notional (hc, hs, hf) range =
    let raw = raw_cost m (unsigned_abs notional) in
    record {
      rated =
          ap (λ r. max_ℤ (clamp_i64 r) m.min_trade_fee)
            (raw_cost-exact m (unsigned_abs notional) (hc, hs, hf) (abs_le notional range));
      non_negative = low raw;
      charges_fee = fee raw;
      fits = high raw;
    }
  where
    low : (raw : ℕ) → pos 0 ≤ℤ max_ℤ (clamp_i64 raw) m.min_trade_fee
    low raw = ground arith

    fee : (raw : ℕ) → m.min_trade_fee ≤ℤ max_ℤ (clamp_i64 raw) m.min_trade_fee
    fee raw = ground arith

    high : (raw : ℕ) → max_ℤ (clamp_i64 raw) m.min_trade_fee ≤ℤ pos (2 ^ 63 - 1)
    high raw = ground arith

-- With rates below 2^32 and a fee in the range of an i64, the cost does not fall when the absolute
-- notional of an i64 grows, whatever the signs.
pub compute_cost-IsMonotone :
    (m : CostModel) (a b : ℤ)
    → IsCostModel m
    → IsI64 a
    → IsI64 b
    → unsigned_abs a ≤ unsigned_abs b
    → compute_cost m a ≤ℤ compute_cost m b
unfolding compute_cost
compute_cost-IsMonotone m a b ok ha hb le =
    let bps = m.commission_bps + m.slippage_bps in
    let product = mul_le (unsigned_abs a) (unsigned_abs b) bps le in
    let raw : raw_cost m (unsigned_abs a) ≤ raw_cost m (unsigned_abs b) = omega (
      arith,
      raw_cost-exact m (unsigned_abs a) ok (abs_le a ha),
      raw_cost-exact m (unsigned_abs b) ok (abs_le b hb),
      product,
    ) in
    max_ℤ-mono (clamp_i64 (raw_cost m (unsigned_abs a))) (clamp_i64 (raw_cost m (unsigned_abs b)))
      m.min_trade_fee (clamp_i64-mono _ _ raw)
