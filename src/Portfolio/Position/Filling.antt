-- ===== src/Portfolio/Position/Filling.antt =====
-- src/portfolio/position.rs: what a fill makes of a position.
use rustbook.Prelude.{
  zero, suc, ◌<◌, ◌^◌, ◌≡◌, ◌≢◌, refl, sym, ap, ◌∙◌, ℤ, pos, negsuc, pos_part, neg_part, ◌+ℤ◌, ◌*ℤ◌,
  ltb_ℤ, leb_ℤ, eqb_ℤ, eqb_ℤ_iff, true, false, if◌then◌else◌, Returns, >>=-Returns, Bool-cases, inl,
  inr, arith,
}
use rustbook.Types.{wrap_i64, div_i64, price_min}
use rustbook.Portfolio.Position.{
  Position, same_direction, added_cost, close_qty, remaining_cost, pnl_per_unit, averaged, reduce,
  apply_fill,
}

-- A quantity of an `i64` other than the smallest.
abbrev pub IsQuantity : ℤ → Type 0
IsQuantity z = (pos_part z < 2 ^ 63) × (neg_part z < 2 ^ 63)

wrap_i64_id : (z : ℤ) → IsQuantity z → wrap_i64 z ≡ z
wrap_i64_id z h = ground (arith, h)

-- What the position is after a fill.
pub record Filled (p : Position) (qty : ℤ) (p' : Position) : Type 0 where
  pub symbol : p'.symbol ≡ p.symbol
  pub quantity : p'.quantity ≡ p.quantity +ℤ qty
  pub realized : same_direction p.quantity qty ≡ true → p'.realized_pnl ≡ p.realized_pnl
  pub cleared :
      p.quantity ≢ pos 0
      → p'.quantity ≡ pos 0
      → (p'.avg_entry_price ≡ pos 0) × (p'.total_cost ≡ pos 0)

div_i64-Returns : (a b : ℤ) → a ≢ price_min → b ≢ pos 0 → Returns (λ q. Unit {0}) (div_i64 a b)
unfolding div_i64
div_i64-Returns a (pos zero) h n = absurd (n refl)
div_i64-Returns a (pos (suc b)) h n = tt
div_i64-Returns a (negsuc b) h n =
    let test : eqb_ℤ a price_min ≡ false = elim (Bool-cases (eqb_ℤ a price_min)) [
      | inl e ↦ absurd (h ((eqb_ℤ_iff a price_min).0 e))
      | inr e ↦ e
    ] in
    rw (div_i64, test) tt

pub differs : (a b : ℤ) → eqb_ℤ a b ≡ false → a ≢ b
differs a b e h = clash (sym e ∙ (eqb_ℤ_iff a b).1 h)
  where
    clash : false ≡ true → ⊥
    clash e = cc

sum_nonzero : (a b : ℤ) → a ≢ pos 0 → same_direction a b ≡ true → a +ℤ b ≢ pos 0
unfolding same_direction ◌+ℤ◌
sum_nonzero a b n e h = ground (arith, n, e, h)

add_zero : (a : ℤ) → a +ℤ pos 0 ≡ a
unfolding ◌+ℤ◌
add_zero a = ground arith

zero_add : (a : ℤ) → pos 0 +ℤ a ≡ a
unfolding ◌+ℤ◌
zero_add a = ground arith

module _ (p : Position) (qty price : ℤ) (in_range : IsQuantity (p.quantity +ℤ qty)) where
  sum : wrap_i64 (p.quantity +ℤ qty) ≡ p.quantity +ℤ qty
  sum = wrap_i64_id (p.quantity +ℤ qty) in_range

  -- A new average of a quantity that is not zero.
  averaged-Returns :
      (p' : Position) (total : ℤ)
      → total ≢ price_min
      → wrap_i64 (p.quantity +ℤ qty) ≢ pos 0
      → p'.symbol ≡ p.symbol
      → (same_direction p.quantity qty ≡ true → p'.realized_pnl ≡ p.realized_pnl)
      → Returns (Filled p qty) (averaged p' total (wrap_i64 (p.quantity +ℤ qty)))
  unfolding averaged
  averaged-Returns p' total low n symbol realized =
      >>=-Returns _ (Filled p qty) (div_i64 total (wrap_i64 (p.quantity +ℤ qty))) _
        (div_i64-Returns total _ low n)
        (λ avg u. record {
          symbol = symbol;
          quantity = sum;
          realized = realized;
          cleared = λ held zero_now. absurd (n zero_now);
        })

  opposite_of : same_direction p.quantity qty ≡ false → same_direction p.quantity qty ≡ true → ⊥
  opposite_of e f = cc

  reduce-Returns :
      remaining_cost p qty ≢ price_min
      → same_direction p.quantity qty ≡ false
      → Returns (Filled p qty) (reduce p qty price)
  unfolding reduce
  reduce-Returns low opposite =
      let net = wrap_i64 (p.quantity +ℤ qty) in
      elim (Bool-cases (eqb_ℤ net (pos 0))) [
        | inl e ↦
            rw (reduce, e)
              (record {
                symbol = refl;
                quantity = sym ((eqb_ℤ_iff net (pos 0)).0 e) ∙ sum;
                realized = λ same. absurd (opposite_of opposite same);
                cleared = λ held zero_now. (refl, refl);
              })
        | inr e ↦
            let n = differs net (pos 0) e in
            elim (Bool-cases
              (if ltb_ℤ (pos 0) net then ltb_ℤ (pos 0) p.quantity else leb_ℤ p.quantity (pos 0))) [
                | inl same_side ↦
                    rw (reduce, e, same_side)
                      (averaged-Returns
                        (record p {
                          realized_pnl = wrap_i64 (
                              p.realized_pnl +ℤ wrap_i64 (pnl_per_unit p price *ℤ close_qty p qty));
                        })
                        (remaining_cost p qty) low n refl
                        (λ same. absurd (opposite_of opposite same)))
                | inr other_side ↦
                    rw (reduce, e, other_side)
                      (record {
                        symbol = refl;
                        quantity = sum;
                        realized = λ same. absurd (opposite_of opposite same);
                        cleared = λ held zero_now. absurd (n zero_now);
                      })
              ]
      ]

  same_nonzero :
      p.quantity ≢ pos 0
      → same_direction p.quantity qty ≡ true
      → wrap_i64 (p.quantity +ℤ qty) ≢ pos 0
  same_nonzero n e h = sum_nonzero p.quantity qty n e (sym sum ∙ h)

  -- When the sum of a position's quantity and a fill is above the smallest i64 and at most the
  -- largest, and neither of the two total costs that the fill may divide is the smallest i64,
  -- applying the fill returns a position of the same symbol whose quantity is exactly that sum; a
  -- fill in the same direction leaves the realised profit, and a fill that closes the position
  -- clears its average price and its total cost.
  pub apply_fill-Filled :
      added_cost p qty price ≢ price_min
      → remaining_cost p qty ≢ price_min
      → Returns (Filled p qty) (apply_fill p qty price)
  unfolding apply_fill
  apply_fill-Filled low low' = elim (Bool-cases (eqb_ℤ qty (pos 0))) [
    | inl e ↦
        rw (apply_fill, e)
          (record {
            symbol = refl;
            quantity =
                sym (ap (λ z. p.quantity +ℤ z) ((eqb_ℤ_iff qty (pos 0)).0 e) ∙ add_zero p.quantity);
            realized = λ same. refl;
            cleared = λ held zero_now. absurd (held zero_now);
          })
    | inr e ↦ elim (Bool-cases (eqb_ℤ p.quantity (pos 0))) [
      | inl flat ↦
          let at_zero = (eqb_ℤ_iff p.quantity (pos 0)).0 flat in
          rw (apply_fill, e, flat)
            (record {
              symbol = refl;
              quantity = sym (ap (λ z. z +ℤ qty) at_zero ∙ zero_add qty);
              realized = λ same. refl;
              cleared = λ held zero_now. absurd (held at_zero);
            })
      | inr held ↦ elim (Bool-cases (same_direction p.quantity qty)) [
        | inl same ↦
            rw (apply_fill, e, held, same)
              (averaged-Returns p (added_cost p qty price) low
                (same_nonzero (differs p.quantity (pos 0) held) same) refl (λ s. refl))
        | inr opposite ↦ rw (apply_fill, e, held, opposite) (reduce-Returns low' opposite)
      ]
    ]
  ]
