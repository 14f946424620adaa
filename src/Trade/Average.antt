-- ===== src/Trade/Average.antt =====
-- src/trade.rs: the average price lies between the lowest and the highest price.
use rustbook.Prelude.{
  ℕ, ◌+◌, ◌*◌, ◌/◌, ◌%◌, ◌^◌, ◌≤◌, ◌<◌, ◌≡◌, refl, ap, ◌∙◌, pos, ◌==◌, List, [], ◌∷◌, some, done,
  All, arith, false,
}
use native.Mathlib.Nat.{le-div_iff_mul-le, div-le_of_le-mul, mul-le-mul_right, mul-add, mul_comm}
use rustbook.Types.Wrapping.{pos_mul, pos_add, wrap_i64_pos, as_i64_pos, div_i64_pos}
use rustbook.Trade.{Trade, notional, total_quantity, total_notional, mean_price, vwap}

-- A trade at a price that is not negative, between two bounds.
abbrev pub Between : ℕ → ℕ → Trade → Type 0
Between lo hi t = (p : ℕ) × (t.price ≡ pos p) × (lo ≤ p) × (p ≤ hi)

-- The quantity and the worth of the trades, which nothing bounds.
abbrev pub quantity_of : List Trade → ℕ
quantity_of [] = 0
quantity_of (t ∷ ts) = t.quantity + quantity_of ts

module _ (lo hi : ℕ) where
  -- The worth of the trades.
  abbrev worth : (ts : List Trade) → All (Between lo hi) ts → ℕ
  worth [] a = 0
  worth (t ∷ ts) ((p, e, l, h), a) = p * t.quantity + worth ts a

  worth_ge : (ts : List Trade) (a : All (Between lo hi) ts) → lo * quantity_of ts ≤ worth ts a
  worth_ge [] a = omega arith
  worth_ge (t ∷ ts) ((p, e, l, h), a) =
      omega (
        arith,
        mul-le-mul_right t.quantity l,
        worth_ge ts a,
        mul-add lo t.quantity (quantity_of ts),
      )

  worth_le : (ts : List Trade) (a : All (Between lo hi) ts) → worth ts a ≤ hi * quantity_of ts
  worth_le [] a = omega arith
  worth_le (t ∷ ts) ((p, e, l, h), a) =
      omega (
        arith,
        mul-le-mul_right t.quantity h,
        worth_le ts a,
        mul-add hi t.quantity (quantity_of ts),
      )

  total_quantity-exact :
      (ts : List Trade) → quantity_of ts < 2 ^ 63 → total_quantity ts ≡ quantity_of ts
  unfolding total_quantity
  total_quantity-exact [] h = refl
  total_quantity-exact (t ∷ ts) h =
      ap (λ n. (t.quantity + n) % 2 ^ 64) (total_quantity-exact ts (omega (arith, h)))
      ∙ omega (arith, h)

  total_notional-exact :
      (ts : List Trade) (a : All (Between lo hi) ts)
      → quantity_of ts < 2 ^ 63
      → worth ts a < 2 ^ 63
      → total_notional ts ≡ pos (worth ts a)
  unfolding total_notional notional
  total_notional-exact [] a small fits = refl
  total_notional-exact (t ∷ ts) ((p, e, l, h), a) small fits =
      let rest = total_notional-exact ts a (omega (arith, small)) (omega (arith, fits)) in
      rw
        (
          e,
          as_i64_pos t.quantity (omega (arith, small)),
          pos_mul p t.quantity,
          wrap_i64_pos (p * t.quantity) (omega (arith, fits)),
          rest,
          pos_add (p * t.quantity) (worth ts a),
        )
        (wrap_i64_pos (p * t.quantity + worth ts a) fits)

  -- The average price of trades of which one at least is given, whose quantities add up to a
  -- positive number below 2^63, and whose prices lie between two bounds, none negative, such that
  -- the upper bound times that sum is below 2^63, is defined and computed without a panic, and lies
  -- between the same bounds.
  pub vwap-Between :
      (t : Trade) (ts : List Trade)
      → All (Between lo hi) (t ∷ ts)
      → 0 < quantity_of (t ∷ ts)
      → quantity_of (t ∷ ts) < 2 ^ 63
      → hi * quantity_of (t ∷ ts) < 2 ^ 63
      → (p : ℕ) × (vwap (t ∷ ts) ≡ done (some (pos p))) × (lo ≤ p) × (p ≤ hi)
  unfolding vwap mean_price
  vwap-Between t ts a some_left small fits =
      let q = quantity_of (t ∷ ts) in
      let w = worth (t ∷ ts) a in
      let in_range : w < 2 ^ 63 = omega (arith, worth_le (t ∷ ts) a, fits) in
      let some_quantity : (q == 0) ≡ false = ground (arith, some_left) in
      (
        w / q,
        rw
            (
              mean_price,
              total_quantity-exact (t ∷ ts) small,
              some_quantity,
              total_notional-exact (t ∷ ts) a small in_range,
              as_i64_pos q small,
              div_i64_pos w q some_left,
            )
            refl,
        (le-div_iff_mul-le some_left).1 (worth_ge (t ∷ ts) a),
        div-le_of_le-mul q (omega (arith, worth_le (t ∷ ts) a, mul_comm hi q)),
      )
