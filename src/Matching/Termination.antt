-- ===== src/Matching/Termination.antt =====
-- src/matching.rs: the end of the matching loops in a well-formed book.
use rustbook.Prelude.{
  ℕ, zero, suc, ◌+◌, ◌≤◌, ◌<◌, ◌≡◌, ◌⊎◌, inl, inr, refl, sym, ◌∙◌, subst, false, ◌==◌, List, [],
  Option, none, some, arith, Bool-cases, Option-cases, done, Returns, Returns-imp, >>=-Returns,
}
use rustbook.Prelude.BTreeMap
use rustbook.Types.{Price, Side, opposite}
use rustbook.Order.{Order}
use rustbook.Trade.{Trade}
use rustbook.Level.{Level}
use rustbook.PriceLevels.Best.{best_price-IsBest}
use rustbook.Book.{OrderBook, side_of, opposite_side}
use rustbook.Book.WellFormed.{IsWellFormed}
use rustbook.Matching.{
  leaves, goes_on, match_round, match_at_price, match_loop, match_order, slots, rounds,
  prices_cross,
}
use rustbook.Matching.Progress.{Progress, Progress-refl, Progress-trans, match_round_absent}
use rustbook.Matching.Kept.{RoundKeeps, match_round-RoundKeeps}

-- What the inner loop at the price `p` makes of a book and an order: progress, and either the order
-- is filled or the level is gone. If it was there before, a slot is gone too.
pub record LevelDone (b : OrderBook) (o : Order) (p : Price) (b' : OrderBook) (o' : Order)
    : Type 0 where
  pub progress : Progress o.side b b'
  pub sided : o'.side ≡ o.side
  pub priced : o'.price ≡ o.price
  pub ended :
      (o'.remaining_quantity ≡ 0)
      ⊎ (BTreeMap.get (opposite_side b o.side).levels p ≡ none)
      ⊎ (slots (opposite_side b' o.side).levels < slots (opposite_side b o.side).levels)

match_at_price_filled :
    (fuel : ℕ) (b : OrderBook) (o : Order) (p : Price) (ts : List Trade)
    → 0 < fuel
    → o.remaining_quantity ≡ 0
    → match_at_price fuel b o p ts ≡ done (b, o, ts)
unfolding match_at_price
match_at_price_filled zero b o p ts h e = absurd (omega arith)
match_at_price_filled (suc fuel) b o p ts h e = ground arith

slots_along :
    (b : OrderBook) (o o' : Order)
    → o.side ≡ o'.side
    → (n : ℕ) → slots (opposite_side b o'.side).levels < n
    → slots (opposite_side b o.side).levels < n
slots_along b o o' e n h = subst (λ s. slots (opposite_side b s).levels < n) (sym e) h

-- What the loop does after a round that took a slot is what the loop does.
LevelDone-after :
    (b : OrderBook) (o : Order) (p : Price) (b' : OrderBook) (o' : Order)
    → Progress o.side b b'
    → o'.side ≡ o.side
    → o'.price ≡ o.price
    → slots (opposite_side b' o.side).levels < slots (opposite_side b o.side).levels
    → (c : OrderBook) (q : Order) → LevelDone b' o' p c q
    → LevelDone b o p c q
LevelDone-after b o p b' o' k side price less c q d =
    let onward = subst (λ s. Progress s b' c) side d.progress in
    record {
      progress = Progress-trans o.side b b' c k onward;
      sided = d.sided ∙ side;
      priced = d.priced ∙ price;
      ended = inr (inr (omega (arith, onward.fewer, less)));
    }

pub match_at_price-LevelDone :
    (fuel : ℕ) (b : OrderBook) (o : Order) (p : Price) (ts : List Trade)
    → IsWellFormed b
    → slots (opposite_side b o.side).levels + 2 ≤ fuel
    → Returns (λ r. LevelDone b o p r.0 r.1) (match_at_price fuel b o p ts)
unfolding match_at_price
match_at_price-LevelDone zero b o p ts wf h = absurd (omega arith)
match_at_price-LevelDone (suc fuel) b o p ts wf h = elim (Bool-cases (o.remaining_quantity == 0)) [
  | inl e ↦ rw e (record {
    progress = Progress-refl o.side b wf;
    sided = refl;
    priced = refl;
    ended = inl (ground arith);
  })
  | inr e ↦ elim (Option-cases (BTreeMap.get (opposite_side b o.side).levels p)) [
    | inl absent ↦
        rw (e, match_round_absent b o p ts absent)
          (record {
            progress = Progress-refl o.side b wf;
            sided = refl;
            priced = refl;
            ended = inr (inl absent);
          })
    | inr (l, there) ↦ rw e (
        >>=-Returns (RoundKeeps b o) (λ r. LevelDone b o p r.0 r.1) (match_round b o p ts) _
          (match_round-RoundKeeps b o p ts l wf there)
          (elim [
            | leaves b' ↦ λ k. absurd k
            | goes_on b' o' ts' ↦ λ k. elim k.3 [
              | inl filled ↦
                  rw (match_at_price_filled fuel b' o' p ts' (omega arith) filled)
                    (record { progress = k.0; sided = k.1; priced = k.2; ended = inl filled })
              | inr less ↦
                  let fuel_left =
                    slots_along b' o' o k.1 (slots (opposite_side b o.side).levels) less in
                  Returns-imp (λ r. LevelDone b' o' p r.0 r.1) (λ r. LevelDone b o p r.0 r.1)
                    (match_at_price fuel b' o' p ts')
                    (λ r d. LevelDone-after b o p b' o' k.0 k.1 k.2 less r.0 r.1 d)
                    (match_at_price-LevelDone fuel b' o' p ts' k.0.well_formed
                      (omega (arith, fuel_left)))
            ]
          ]))
  ]
]

-- No price of the opposite side, whose best one is given, crosses the limit.
abbrev pub Apart : Side → Price → Option Price → Type 0
Apart side price none = Unit
Apart side price (some best) = prices_cross side price best ≡ false

-- What matching makes of a book and an order: progress, and either the order is filled or no price
-- of the opposite side crosses its limit.
pub record MatchDone (b : OrderBook) (o : Order) (b' : OrderBook) (o' : Order) : Type 0 where
  pub progress : Progress o.side b b'
  pub sided : o'.side ≡ o.side
  pub priced : o'.price ≡ o.price
  pub ended :
      (o'.remaining_quantity ≡ 0) ⊎ Apart o.side o.price (opposite_side b' o.side).best_price

match_loop_filled :
    (inner fuel : ℕ) (b : OrderBook) (o : Order) (ts : List Trade)
    → 0 < fuel
    → o.remaining_quantity ≡ 0
    → match_loop inner fuel b o ts ≡ done (b, o, ts)
unfolding match_loop
match_loop_filled inner zero b o ts h e = absurd (omega arith)
match_loop_filled inner (suc fuel) b o ts h e = ground arith

-- A level of a well-formed book stands at the best price.
best_level :
    (b : OrderBook) (s : Side) (p : Price)
    → IsWellFormed b
    → (opposite_side b s).best_price ≡ some p
    → (l : Level) × (BTreeMap.get (opposite_side b s).levels p ≡ some l)
unfolding opposite_side
best_level b s p wf e =
    (best_price-IsBest (side_of b (opposite s)) p (wf.sides (opposite s)).valid e).0

MatchDone-after :
    (b : OrderBook) (o : Order) (p : Price) (b' : OrderBook) (o' : Order)
    → LevelDone b o p b' o'
    → (c : OrderBook) (q : Order) → MatchDone b' o' c q
    → MatchDone b o c q
MatchDone-after b o p b' o' k c q d = record {
  progress =
      Progress-trans o.side b b' c k.progress (subst (λ s. Progress s b' c) k.sided d.progress);
  sided = d.sided ∙ k.sided;
  priced = d.priced ∙ k.priced;
  ended = elim d.ended [ inl e ↦ inl e | inr e ↦ inr (rw (← k.sided, ← k.priced) e) ];
}

pub match_loop-MatchDone :
    (inner fuel : ℕ) (b : OrderBook) (o : Order) (ts : List Trade)
    → IsWellFormed b
    → slots (opposite_side b o.side).levels + 2 ≤ inner
    → slots (opposite_side b o.side).levels + 2 ≤ fuel
    → Returns (λ r. MatchDone b o r.0 r.1) (match_loop inner fuel b o ts)
unfolding match_loop
match_loop-MatchDone inner zero b o ts wf hi h = absurd (omega arith)
match_loop-MatchDone inner (suc fuel) b o ts wf hi h =
    elim (Bool-cases (o.remaining_quantity == 0)) [
      | inl e ↦ rw e (stays (inl (ground arith)))
      | inr e ↦ elim (Option-cases (opposite_side b o.side).best_price) [
        | inl n ↦ rw (e, n) (stays (inr (rw n tt)))
        | inr (p, best) ↦ elim (Bool-cases (prices_cross o.side o.price p)) [
          | inr apart ↦ rw (e, best, apart) (stays (inr (rw best apart)))
          | inl cross ↦
              rw (e, best, cross)
                (>>=-Returns (λ r. LevelDone b o p r.0 r.1) (λ r. MatchDone b o r.0 r.1)
                  (match_at_price inner b o p ts) _ (match_at_price-LevelDone inner b o p ts wf hi)
                  (λ r k. elim k.ended [
                    | inl filled ↦
                        rw (match_loop_filled inner fuel r.0 r.1 r.2 (omega arith) filled) (record {
                          progress = k.progress;
                          sided = k.sided;
                          priced = k.priced;
                          ended = inl filled;
                        })
                    | inr (inl absent) ↦ absurd (present p best absent)
                    | inr (inr less) ↦
                        let left =
                          slots_along r.0 r.1 o k.sided (slots (opposite_side b o.side).levels)
                            less in
                        Returns-imp (λ q. MatchDone r.0 r.1 q.0 q.1) (λ q. MatchDone b o q.0 q.1)
                          (match_loop inner fuel r.0 r.1 r.2)
                          (λ q. MatchDone-after b o p r.0 r.1 k q.0 q.1)
                          (match_loop-MatchDone inner fuel r.0 r.1 r.2 k.progress.well_formed
                            (omega (arith, left)) (omega (arith, left)))
                  ]))
        ]
      ]
    ]
  where
    stays :
        (o.remaining_quantity ≡ 0) ⊎ Apart o.side o.price (opposite_side b o.side).best_price
        → MatchDone b o b o
    stays e = record {
      progress = Progress-refl o.side b wf;
      sided = refl;
      priced = refl;
      ended = e;
    }

    present :
        (p : Price)
        → (opposite_side b o.side).best_price ≡ some p
        → BTreeMap.get (opposite_side b o.side).levels p ≡ none
        → ⊥
    present p best absent =
        let (l, there) = best_level b o.side p wf best in cc (sym there ∙ absent)

-- Matching any order against a well-formed book ends: it neither panics nor loops, the book that it
-- leaves is well formed, has no new order ids, the same own side and no new level on the opposite
-- one, the order keeps its side and price, and either nothing remains of it or no price of the
-- opposite side crosses its limit.
pub match_order-MatchDone :
    (b : OrderBook) (o : Order)
    → IsWellFormed b
    → Returns (λ r. MatchDone b o r.0 r.1) (match_order b o)
unfolding match_order rounds
match_order-MatchDone b o wf =
    let fuel = rounds (opposite_side b o.side) in
    >>=-Returns (λ r. MatchDone b o r.0 r.1) (λ r. MatchDone b o r.0 r.1)
      (match_loop fuel fuel b o []) _
      (match_loop-MatchDone fuel fuel b o [] wf (omega arith) (omega arith)) (λ r d. d)
