-- ===== src/Rebalancer/Diff/Orders.antt =====
-- rebalancer/src/diff.rs: where the orders of `compute_diff` come from.
use rustbook.Prelude.{
  ℕ, ◌≡◌, ◌≢◌, ℤ, pos, ltb_ℤ, eqb_ℤ, eqb_ℤ_iff, ◌≤ℤ◌, not, true, false, refl, sym, ap, ◌∙◌, subst,
  arith, All, All-append, All-imp, List, [], ◌∷◌, map, none, some, Bool-cases, Option-cases, inl,
  inr, ◌⊎◌, ◌*ℤ◌, ◌-ℤ◌, pos_part,
}
use rustbook.Types.{wrap_i64, div_trunc}
use rustbook.Symbol.{Symbol}
use rustbook.Stop.Trailing.{abs_i64}
use rustbook.Stop.Triggering.{Has}
use rustbook.Rebalancer.Diff.{
  classify_trade, compute_limit_price, RebalanceOrder, CurrentPosition, map_get, quantity_or_zero,
  div_trunc, closing_order, close_position, target_order, order_diff, rebalance_target, close_all,
  rebalance_all, compute_diff,
}
use rustbook.Rebalancer.Diff.Tracking.{shares_to, Reaches, shares_to-Reaches}
use rustbook.Rebalancer.Diff.Directions.{buys}

classify_trade-buys : (c d : ℤ) → d ≢ pos 0 → buys (classify_trade c d).0 ≡ ltb_ℤ (pos 0) d
unfolding classify_trade
classify_trade-buys c d n = ground (arith, n)

-- A closing order: of a position that no target names, for all its shares and in the direction that
-- closes it.
pub record IsClosing {W : Type 0} (positions : List CurrentPosition) (targets : List (Symbol × W))
    (prices : List (Symbol × ℤ)) (o : RebalanceOrder) : Type 0 where
  pub position : CurrentPosition
  pub price : ℤ
  pub held : Has positions position
  pub named : o.symbol ≡ position.symbol
  pub not_flat : position.quantity ≢ pos 0
  pub untargeted : map_get targets position.symbol ≡ none
  pub priced : map_get prices position.symbol ≡ some price
  pub whole : o.shares ≡ abs_i64 position.quantity
  pub direction : buys o.action ≡ ltb_ℤ position.quantity (pos 0)
  pub worth : o.notional_cents ≡ wrap_i64 (o.shares *ℤ price)

-- The held quantity of a symbol: that of its last position, and 0 if there is none.
abbrev pub held_quantity : List CurrentPosition → Symbol → ℤ
held_quantity positions s =
    quantity_or_zero (map_get (map (λ (p : CurrentPosition). (p.symbol, p.quantity)) positions) s)

-- An order for a target that has a positive price: of the shares that lead from what is held to the
-- target's value, if there are any, classified by what is held and by them, at the limit price of
-- their direction and of at least the least notional value. Where no product or difference wraps,
-- they make a holding whose value is within one price of the target's.
pub record IsRebalancing {W : Type 0} (target_value : ℤ → W → ℤ) (equity : ℤ)
    (positions : List CurrentPosition) (targets : List (Symbol × W)) (prices : List (Symbol × ℤ))
    (bps : ℕ) (least : ℤ) (o : RebalanceOrder) : Type 0 where
  pub weight : W
  pub price : ℤ
  pub diff : ℤ
  pub targeted : Has targets (o.symbol, weight)
  pub priced : map_get prices o.symbol ≡ some price
  pub positive : ltb_ℤ (pos 0) price ≡ true
  pub needed :
      diff ≡ shares_to (target_value equity weight) (held_quantity positions o.symbol) price
  pub reaches : Reaches (target_value equity weight) (held_quantity positions o.symbol) price diff
  pub not_zero : diff ≢ pos 0
  pub sized : o.shares ≡ abs_i64 diff
  pub classified :
      (o.action, o.description) ≡ classify_trade (held_quantity positions o.symbol) diff
  pub direction : buys o.action ≡ ltb_ℤ (pos 0) diff
  pub limit : o.limit_price_cents ≡ compute_limit_price price (not (buys o.action)) bps
  pub valued : o.notional_cents ≡ wrap_i64 (o.shares *ℤ price)
  pub worth : least ≤ℤ o.notional_cents

not_below : (a b : ℤ) → ltb_ℤ a b ≡ false → b ≤ℤ a
not_below a b h = ground (arith, h)

not_zero_of : (z : ℤ) → eqb_ℤ z (pos 0) ≡ false → z ≢ pos 0
not_zero_of z e h = clash (sym e ∙ (eqb_ℤ_iff z (pos 0)).1 h)
  where
    clash : false ≡ true → ⊥
    clash e = cc

closing-buys :
    (bps : ℕ) (p : CurrentPosition) (price : ℤ)
    → p.quantity ≢ pos 0
    → buys (closing_order bps p price).action ≡ ltb_ℤ p.quantity (pos 0)
unfolding closing_order
closing-buys bps p price n = ground (arith, n)

module _ {W : Type 0} (positions : List CurrentPosition) (targets : List (Symbol × W))
    (prices : List (Symbol × ℤ)) (bps : ℕ) (least : ℤ) where
  abbrev Closing : RebalanceOrder → Type 0
  Closing o = IsClosing positions targets prices o

  close_position-All :
      (p : CurrentPosition) → Has positions p → All Closing (close_position targets prices bps p)
  unfolding close_position
  close_position-All p h = elim (Bool-cases (eqb_ℤ p.quantity (pos 0))) [
    | inl e ↦ rw (close_position, e) tt
    | inr e ↦ elim (Option-cases (map_get targets p.symbol)) [
      | inr (w, f) ↦ rw (close_position, e, f) tt
      | inl f ↦ elim (Option-cases (map_get prices p.symbol)) [
        | inl g ↦ rw (close_position, e, f, g) tt
        | inr (price, g) ↦
            let n = not_zero_of p.quantity e in
            let side = closing-buys bps p price n in
            rw (close_position, e, f, g)
              (
                record {
                  position = p;
                  price = price;
                  held = h;
                  named = unfold closing_order in refl;
                  not_flat = n;
                  untargeted = f;
                  priced = g;
                  whole = unfold closing_order in refl;
                  direction = side;
                  worth = unfold closing_order in refl;
                },
                tt,
              )
      ]
    ]
  ]

  close_all-All :
      (ps : List CurrentPosition)
      → ((p : CurrentPosition) → Has ps p → Has positions p)
      → All Closing (close_all targets prices bps ps)
  unfolding close_all
  close_all-All [] sub = tt
  close_all-All (p ∷ ps) sub =
      All-append Closing (close_position targets prices bps p) _
        (close_position-All p (sub p (inl refl))) (close_all-All ps (λ q h. sub q (inr h)))

  module _ (target_value : ℤ → W → ℤ) (equity : ℤ) where
    abbrev Rebalancing : RebalanceOrder → Type 0
    Rebalancing o = IsRebalancing target_value equity positions targets prices bps least o

    order_diff-All :
        (s : Symbol) (w : W) (price current diff : ℤ)
        → Has targets (s, w)
        → map_get prices s ≡ some price
        → ltb_ℤ (pos 0) price ≡ true
        → current ≡ held_quantity positions s
        → diff ≡ shares_to (target_value equity w) (held_quantity positions s) price
        → All Rebalancing (order_diff bps least s price current diff)
    unfolding order_diff
    order_diff-All s w price current diff h e positive holds needed =
        elim (Bool-cases (eqb_ℤ diff (pos 0))) [
          | inl z ↦ rw (order_diff, z) tt
          | inr z ↦
              let notional = wrap_i64 (abs_i64 diff *ℤ price) in
              elim (Bool-cases (ltb_ℤ notional least)) [
                | inl small ↦ rw (order_diff, z, small) tt
                | inr large ↦
                    let n = not_zero_of diff z in
                    let side = classify_trade-buys current diff n in
                    rw (order_diff, z, large)
                      (
                        record {
                          weight = w;
                          price = price;
                          diff = diff;
                          targeted = unfold target_order in h;
                          priced = unfold target_order in e;
                          positive = positive;
                          needed = unfold target_order in needed;
                          reaches =
                              unfold target_order in
                              subst
                                (Reaches (target_value equity w) (held_quantity positions s) price)
                                (sym needed)
                                (shares_to-Reaches (target_value equity w)
                                  (held_quantity positions s) price positive);
                          not_zero = n;
                          sized = unfold target_order in refl;
                          classified = unfold target_order in ap (λ c. classify_trade c diff) holds;
                          direction = unfold target_order in side;
                          limit =
                              unfold target_order in
                              ap (λ c. compute_limit_price price (not c) bps) (sym side);
                          valued = unfold target_order in refl;
                          worth = unfold target_order in not_below notional least large;
                        },
                        tt,
                      )
              ]
        ]

    rebalance_target-All :
        (s : Symbol) (w : W)
        → Has targets (s, w)
        → All Rebalancing (rebalance_target target_value equity positions prices bps least (s, w))
    unfolding rebalance_target
    rebalance_target-All s w h =
        let held = map (λ (p : CurrentPosition). (p.symbol, p.quantity)) positions in
        let current = quantity_or_zero (map_get held s) in
        elim (Option-cases (map_get prices s)) [
          | inl e ↦ rw (rebalance_target, e) tt
          | inr (price, e) ↦ elim (Bool-cases (ltb_ℤ (pos 0) price)) [
            | inl positive ↦
                rw (rebalance_target, e, positive)
                  (order_diff-All s w price current
                    (div_trunc (wrap_i64 (target_value equity w -ℤ wrap_i64 (current *ℤ price)))
                      (pos_part price))
                    h e positive refl refl)
            | inr not_positive ↦ rw (rebalance_target, e, not_positive) tt
          ]
        ]

    rebalance_all-All :
        (ts : List (Symbol × W))
        → ((t : Symbol × W) → Has ts t → Has targets t)
        → All Rebalancing (rebalance_all target_value equity positions prices bps least ts)
    unfolding rebalance_all
    rebalance_all-All [] sub = tt
    rebalance_all-All (t ∷ ts) sub =
        All-append Rebalancing (rebalance_target target_value equity positions prices bps least t) _
          (rebalance_target-All t.0 t.1 (sub t (inl refl)))
          (rebalance_all-All ts (λ u h. sub u (inr h)))

    -- Every order that the difference of positions and weights gives, whatever the conversion of a
    -- weight to a value gives, either closes a held position that is not flat, has a price and that
    -- no target names, for its whole size and in the direction that closes it; or is for a target
    -- that has a positive price, for the whole shares, which are not zero, by whose worth the
    -- target's value exceeds or falls short of that of the quantity held, in their direction,
    -- classified by the quantity held and by them, at the limit price of this direction, and its
    -- notional value is not below the least one. The notional value is that of the shares at the
    -- price; and unless the value of what is held, or its difference from the target's value,
    -- leaves the range of an i64, the shares bring what is held to within one price of the target's
    -- value.
    pub compute_diff-Origin :
        All
          (λ o. Closing o ⊎ Rebalancing o)
          (compute_diff target_value equity positions targets prices bps least)
    unfolding compute_diff
    compute_diff-Origin =
        All-append _ (close_all targets prices bps positions) _
          (All-imp Closing _ _ (λ o c. inl c) (close_all-All positions (λ p h. h)))
          (All-imp Rebalancing _ _ (λ o r. inr r) (rebalance_all-All targets (λ t h. h)))
