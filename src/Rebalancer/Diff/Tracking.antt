-- ===== src/Rebalancer/Diff/Tracking.antt =====
-- rebalancer/src/diff.rs: the whole shares that lead from a holding to a target value.
use rustbook.Prelude.{
  ℕ, ◌+◌, ◌*◌, ◌/◌, ◌<◌, ◌≡◌, ℤ, pos, negsuc, pos_part, neg_part, sub_ℕ, ◌+ℤ◌, ◌-ℤ◌, ◌*ℤ◌, ◌<ℤ◌, ap,
  sym, ◌∙◌, subst, arith, ◌≢◌, ◌⊎◌, inl, inr, Bool, true, false, Bool-cases, eqb_ℤ, eqb_ℤ_iff,
  ltb_ℤ,
}
use rustbook.Types.{div_trunc, wrap_i64}

sub_ℕ_parts : (a b : ℕ) → pos_part (sub_ℕ a b) + b ≡ neg_part (sub_ℕ a b) + a
sub_ℕ_parts a b = ground arith

times : (a b c d n : ℕ) → a + b ≡ c + d → a * n + b * n ≡ c * n + d * n
times a b c d n e = omega (arith, ap (λ x. x * n) e)

scaled :
    (a : ℤ) (n : ℕ)
    → pos_part (a *ℤ pos n) + neg_part a * n ≡ neg_part (a *ℤ pos n) + pos_part a * n
unfolding ◌*ℤ◌
scaled a n =
    omega (arith, sub_ℕ_parts (pos_part a * n + neg_part a * 0) (pos_part a * 0 + neg_part a * n))

quotient_below : (m n : ℕ) → 0 < n → m < m / n * n + n
quotient_below m n h = omega arith

quotient_above : (m n : ℕ) → m / n * n < m + 1
quotient_above m n = omega arith

-- The integers differ by less than `n`.
abbrev pub IsWithin : ℕ → ℤ → ℤ → Type 0
IsWithin n a b = ((a -ℤ b) <ℤ pos n) × ((b -ℤ a) <ℤ pos n)

quotient_parts :
    (e : ℤ) (n : ℕ)
    → 0 < n
    → let d = div_trunc e n in
      (pos_part e + neg_part d * n < neg_part e + pos_part d * n + n)
      × (neg_part e + pos_part d * n < pos_part e + neg_part d * n + n)
quotient_parts (pos m) n h =
    (omega (arith, quotient_below m n h), omega (arith, quotient_above m n, h))
quotient_parts (negsuc m) n h =
    let q = (m + 1) / n in
    let parts = sub_ℕ_parts 0 q in
    (
      omega (
        arith,
        quotient_above (m + 1) n,
        h,
        times (pos_part (sub_ℕ 0 q)) q (neg_part (sub_ℕ 0 q)) 0 n parts,
      ),
      omega (
        arith,
        quotient_below (m + 1) n h,
        times (pos_part (sub_ℕ 0 q)) q (neg_part (sub_ℕ 0 q)) 0 n parts,
      ),
    )

difference_parts :
    (a b : ℤ)
    → pos_part (a -ℤ b) + (neg_part a + pos_part b) ≡ neg_part (a -ℤ b) + (pos_part a + neg_part b)
unfolding ◌-ℤ◌
difference_parts a b = sub_ℕ_parts (pos_part a + neg_part b) (neg_part a + pos_part b)

sum_parts :
    (a b : ℤ)
    → pos_part (a +ℤ b) + (neg_part a + neg_part b) ≡ neg_part (a +ℤ b) + (pos_part a + pos_part b)
unfolding ◌+ℤ◌
sum_parts a b = sub_ℕ_parts (pos_part a + pos_part b) (neg_part a + neg_part b)

sum_scaled :
    (a b : ℤ) (n : ℕ)
    → pos_part (a +ℤ b) * n + (neg_part a * n + neg_part b * n)
      ≡ neg_part (a +ℤ b) * n + (pos_part a * n + pos_part b * n)
sum_scaled a b n = omega (arith, ap (λ x. x * n) (sum_parts a b))

-- The quotient of what a value exceeds that of a holding by, added to the holding, gives a holding
-- whose value is within one price of the value.
pub div_trunc-IsWithin :
    (value current : ℤ) (n : ℕ)
    → 0 < n
    → IsWithin n value ((current +ℤ div_trunc (value -ℤ current *ℤ pos n) n) *ℤ pos n)
div_trunc-IsWithin value current n h =
    let e = value -ℤ current *ℤ pos n in
    let d = div_trunc e n in
    let s = current +ℤ d in
    let q = quotient_parts e n h in
    let a = difference_parts value (current *ℤ pos n) in
    let b = scaled current n in
    let c = scaled s n in
    let f = sum_scaled current d n in
    (
      omega (arith, q.0, a, b, c, f, difference_parts value (s *ℤ pos n)),
      omega (arith, q.1, a, b, c, f, difference_parts (s *ℤ pos n) value),
    )

-- The shares that lead from a held quantity to a target value at a price: what the value of the
-- target exceeds that of the holding by, in whole shares towards zero.
abbrev pub shares_to : ℤ → ℤ → ℤ → ℤ
shares_to value current price =
    div_trunc (wrap_i64 (value -ℤ wrap_i64 (current *ℤ price))) (pos_part price)

-- The value of a holding, or what a target's value exceeds it by, leaves the range of an `i64`.
abbrev pub Wraps : ℤ → ℤ → ℤ → Type 0
Wraps value current price =
    (wrap_i64 (current *ℤ price) ≢ current *ℤ price)
    ⊎ (wrap_i64 (value -ℤ current *ℤ price) ≢ value -ℤ current *ℤ price)

-- The shares bring the holding to within one price of the value, unless something wraps.
abbrev pub Reaches : ℤ → ℤ → ℤ → ℤ → Type 0
Reaches value current price diff =
    Wraps value current price ⊎ IsWithin (pos_part price) value ((current +ℤ diff) *ℤ price)

exact_or_not : (z : ℤ) → (wrap_i64 z ≢ z) ⊎ (wrap_i64 z ≡ z)
exact_or_not z = elim (Bool-cases (eqb_ℤ (wrap_i64 z) z)) [
  | inl e ↦ inr ((eqb_ℤ_iff (wrap_i64 z) z).0 e)
  | inr e ↦ inl (λ same. differ e ((eqb_ℤ_iff (wrap_i64 z) z).1 same))
]
  where
    differ : {b : Bool} → b ≡ false → b ≡ true → ⊥
    differ e f = cc

pub shares_to-Reaches :
    (value current price : ℤ)
    → ltb_ℤ (pos 0) price ≡ true
    → Reaches value current price (shares_to value current price)
shares_to-Reaches value current (pos n) h =
    let worth = current *ℤ pos n in
    elim (exact_or_not worth) [
      | inl wraps ↦ inl (inl wraps)
      | inr exact ↦ elim (exact_or_not (value -ℤ worth)) [
        | inl wraps ↦ inl (inr wraps)
        | inr fits ↦ inr (
            subst (λ e. IsWithin n value ((current +ℤ div_trunc e n) *ℤ pos n))
              (sym (ap (λ w. wrap_i64 (value -ℤ w)) exact ∙ fits))
              (div_trunc-IsWithin value current n (ground (arith, h))))
      ]
    ]
shares_to-Reaches value current (negsuc n) h = absurd (ground (arith, h))
