-- ===== src/Matching/Kept.antt =====
-- src/matching.rs: a round of matching at a price, as progress in a well-formed book.
use rustbook.Prelude.{
  ◌≤◌, ◌<◌, ◌≡◌, ◌⊎◌, inl, inr, refl, sym, ap, ◌∙◌, subst, true, false, ◌==◌, List, ◌∷◌, Option,
  none, some, arith, Bool-cases, min, Returns, Returns-imp,
}
use rustbook.Prelude.HashMap
use rustbook.Prelude.HashMap.{get-insert}
use rustbook.Prelude.BTreeMap
use rustbook.Prelude.BTreeMap.{BTreeMap}
use rustbook.Types.{Price, Quantity, OrderId, opposite}
use rustbook.Order.{Order, after_fill}
use rustbook.Trade.{Trade}
use rustbook.Level.{Level, pop_front, decrease_quantity, front}
use rustbook.Level.Queue.{active, front_lem, pop_front_lem, head}
use rustbook.PriceLevels.{PriceLevels, put_level, settle_level}
use rustbook.Book.{OrderBook, put_side, opposite_side, get_order, next_trade_id, next_timestamp}
use rustbook.Book.Sides.{put_side_keeps}
use rustbook.Book.WellFormed.{LevelFits, IsWellFormed, Queued}
use rustbook.Book.Edits.{put_level_no_new, settle_level_no_new}
use rustbook.Matching.{
  Round, leaves, goes_on, make_trade, trade_round, match_round, after_front, front_at, after_trade,
  slots,
}
use rustbook.Matching.Rounds.{
  traded, side_of_traded, fully_filled-IsWellFormed, partly_filled-IsWellFormed,
}
use rustbook.Matching.Slots.{slots-put_level, slots-settle_level, length-pop_front}
use rustbook.Matching.Fills.{trade_round_lem}
use rustbook.Matching.Progress.{
  opposite_side-put_side, active-some, edit_level_lem, write-Progress, fits_opposite, fronted_side,
  fronted, front_at_lem, fronted-Progress, fronted_there, Progress-trans, Progress,
}

-- What a round that goes on keeps: it makes progress, and either fills the incoming order or takes a
-- slot off the opposite side.
abbrev pub RoundKeeps : OrderBook → Order → Round → Type 0
RoundKeeps b o (leaves b') = ⊥
RoundKeeps b o (goes_on b' o' ts) =
    Progress o.side b b'
    × (o'.side ≡ o.side)
    × (o'.price ≡ o.price)
    × ((o'.remaining_quantity ≡ 0)
        ⊎ (slots (opposite_side b' o.side).levels < slots (opposite_side b o.side).levels))

emptied :
    (o : Order) (q : Quantity)
    → ((after_fill o q).remaining_quantity == 0) ≡ true
    → q ≤ o.remaining_quantity
    → q ≡ o.remaining_quantity
unfolding after_fill
emptied o q e le = ground arith

kept :
    (o : Order) (q : Quantity)
    → ((after_fill o q).remaining_quantity == 0) ≡ false
    → q < o.remaining_quantity
unfolding after_fill
kept o q e = ground arith

module _ (b : OrderBook) (o : Order) (p : Price) (ts : List Trade) (l : Level) (wf : IsWellFormed b)
    (there : BTreeMap.get (opposite_side b o.side).levels p ≡ some l) (id : OrderId)
    (rest : List OrderId) (queue : active l ≡ id ∷ rest) (resting : Order)
    (held : HashMap.get b.orders id ≡ some resting) where
  opposite_traded : (o' : Order) → opposite_side (traded b id o') o.side ≡ opposite_side b o.side
  unfolding opposite_side
  opposite_traded o' = side_of_traded b id o' (opposite o.side)

  there_traded :
      (o' : Order) → BTreeMap.get (opposite_side (traded b id o') o.side).levels p ≡ some l
  there_traded o' = ap (λ (q : PriceLevels). BTreeMap.get q.levels p) (opposite_traded o') ∙ there

  old_traded :
      (o' : Order) (j : OrderId)
      → HashMap.get b.orders j ≡ none
      → HashMap.get (HashMap.insert b.orders id o') j ≡ none
  old_traded o' j e = ground (arith, get-insert b.orders id j o', held, e)

  -- The book after a trade, where the level has been written to give the side `ps`.
  keeps_of :
      (o' : Order) (q : Quantity) (ps : PriceLevels)
      → IsWellFormed (put_side (traded b id o') (opposite o.side) ps)
      → slots ps.levels ≤ slots (opposite_side b o.side).levels
      → ((k : Price)
          → BTreeMap.get (opposite_side b o.side).levels k ≡ none
          → BTreeMap.get ps.levels k ≡ none)
      → (o.remaining_quantity ≤ q) ⊎ (slots ps.levels < slots (opposite_side b o.side).levels)
      → RoundKeeps b o
          (goes_on (put_side (traded b id o') (opposite o.side) ps) (after_fill o q) ts)
  unfolding after_fill
  keeps_of o' q ps wf' le none_new less =
      let written = (opposite_side-put_side (traded b id o') o.side ps).0 in
      (
        write-Progress o.side b (traded b id o') ps wf' (old_traded o')
            (side_of_traded b id o' o.side) refl le none_new,
        refl,
        refl,
        elim less [
          | inl done_with ↦ inl (omega arith)
          | inr fewer ↦ inr (omega (arith, ap (λ (r : PriceLevels). slots r.levels) written))
        ],
      )

  IsSorted-here : BTreeMap.IsSorted (opposite_side b o.side).levels
  unfolding opposite_side
  IsSorted-here = (wf.sides (opposite o.side)).valid.sorted

  fits_here : LevelFits b.orders (opposite o.side) p l
  unfolding opposite_side
  fits_here = ((wf.sides (opposite o.side)).fits p l there).0

  -- The front order is filled wholly.
  trade_fully :
      (q : Quantity)
      → q ≡ resting.remaining_quantity
      → RoundKeeps b o (
          goes_on
            (after_trade (traded b id (after_fill resting q)) o.side p q true)
            (after_fill o q)
            ts)
  unfolding after_trade opposite_side
  trade_fully q e =
      let o' = after_fill resting q in
      let popped = (pop_front l resting.remaining_quantity).0 in
      let ps = settle_level (opposite_side b o.side) p popped in
      let slot = slots-settle_level (opposite_side b o.side) p l popped IsSorted-here there in
      let found =
        (pop_front_lem l resting.remaining_quantity fits_here.counted).2 ∙ ap head queue in
      let shorter = length-pop_front l resting.remaining_quantity id found in
      let book : PriceLevels → Quantity → OrderBook =
        λ x k. put_side (traded b id o') (opposite o.side) (settle_level x p (pop_front l k).0) in
      let edited =
        edit_level_lem (traded b id o') o.side p l (λ x w. settle_level x p (pop_front w q).0)
          (there_traded o')
        ∙ ap (λ x. book x q) (opposite_traded o')
        ∙ ap (book (opposite_side b o.side)) e in
      subst (λ x. RoundKeeps b o (goes_on x (after_fill o q) ts)) (sym edited)
        (keeps_of o' q ps
          (fully_filled-IsWellFormed b (opposite o.side) p l id rest resting wf there queue held o')
          (omega (arith, slot, shorter))
          (λ k.
            settle_level_no_new (opposite_side b o.side) p k l popped
              (wf.sides (opposite o.side)).valid there)
          (inr (omega (arith, slot, shorter))))

  -- The front order is filled in part, and the incoming order wholly.
  trade_partly :
      (q : Quantity)
      → o.remaining_quantity ≤ q
      → q < resting.remaining_quantity
      → RoundKeeps b o (
          goes_on
            (after_trade (traded b id (after_fill resting q)) o.side p q false)
            (after_fill o q)
            ts)
  unfolding after_trade opposite_side decrease_quantity
  trade_partly q le less =
      let o' = after_fill resting q in
      let l' = decrease_quantity l q in
      let ps = put_level (opposite_side b o.side) p l' in
      let slot = slots-put_level (opposite_side b o.side) p l l' IsSorted-here there in
      let edited =
        edit_level_lem (traded b id o') o.side p l (λ x w. put_level x p (decrease_quantity w q))
          (there_traded o')
        ∙ ap (λ x. put_side (traded b id o') (opposite o.side) (put_level x p l'))
            (opposite_traded o') in
      subst (λ x. RoundKeeps b o (goes_on x (after_fill o q) ts)) (sym edited)
        (keeps_of o' q ps
          (partly_filled-IsWellFormed b (opposite o.side) p l id rest resting wf there queue held q
            less)
          (omega (arith, slot)) (λ k. put_level_no_new (opposite_side b o.side) p k l l' there)
          (inl le))

  -- A round that has found the resting order.
  trade_round-RoundKeeps : Returns (RoundKeeps b o) (trade_round b o p ts id resting)
  unfolding make_trade next_trade_id next_timestamp
  trade_round-RoundKeeps =
      let q = min o.remaining_quantity resting.remaining_quantity in
      rw (trade_round_lem b o p ts id resting)
        (elim (Bool-cases ((after_fill resting q).remaining_quantity == 0)) [
          | inl full ↦ rw full (trade_fully q (emptied resting q full (omega arith)))
          | inr part ↦ let less = kept resting q part in rw part (trade_partly q (omega arith) less)
        ])

RoundKeeps-after :
    (b c : OrderBook) (o : Order)
    → Progress o.side b c
    → (r : Round) → RoundKeeps c o r
    → RoundKeeps b o r
RoundKeeps-after b c o h (leaves b') k = k
RoundKeeps-after b c o h (goes_on b' o' ts) (k, side, price, less) = (
  Progress-trans o.side b c b' h k,
  side,
  price,
  elim less [ inl e ↦ inl e | inr e ↦ inr (omega (arith, e, h.fewer)) ],
)

module _ (b : OrderBook) (o : Order) (p : Price) (ts : List Trade) (l : Level) (wf : IsWellFormed b)
    (there : BTreeMap.get (opposite_side b o.side).levels p ≡ some l) (id : OrderId)
    (rest : List OrderId) (queue : active l ≡ id ∷ rest) where
  front_found : front_at b o.side p ≡ (fronted b o.side p l wf there, some id)
  front_found =
      front_at_lem b o.side p l wf there
      ∙ ap (λ (x : Option OrderId). (fronted b o.side p l wf there, x)) (ap head queue)

  front_fits : LevelFits b.orders (opposite o.side) p l
  front_fits = ((fits_opposite b o.side p l wf there).fits p l there).0

  resting_found : (resting : Order) × (HashMap.get b.orders id ≡ some resting)
  resting_found =
      let q = subst (Queued b.orders (opposite o.side) p) queue front_fits.queued in (q.0.0, q.0.1)

  front_round :
      Returns (RoundKeeps b o) (after_front o p ts (fronted b o.side p l wf there, some id))
  unfolding after_front get_order fronted
  front_round =
      let c = fronted b o.side p l wf there in
      let step = fronted-Progress b o.side p l wf there in
      let (resting, held) = resting_found in
      let held' : HashMap.get c.orders id ≡ some resting =
        ap (λ m. HashMap.get m id)
          (put_side_keeps b (opposite o.side) (fronted_side b o.side p l wf there)).0
        ∙ held in
      let same = (front_lem l front_fits.counted).1 ∙ queue in
      rw (held', after_front)
        (Returns-imp (RoundKeeps c o) (RoundKeeps b o) (trade_round c o p ts id resting)
          (RoundKeeps-after b c o step)
          (trade_round-RoundKeeps c o p ts (front l).0 step.well_formed
            (fronted_there b o.side p l wf there) id rest same resting held'))

-- In a well-formed book, a round at a price that has a level returns, goes on, and makes progress.
pub match_round-RoundKeeps :
    (b : OrderBook) (o : Order) (p : Price) (ts : List Trade) (l : Level)
    → IsWellFormed b
    → BTreeMap.get (opposite_side b o.side).levels p ≡ some l
    → Returns (RoundKeeps b o) (match_round b o p ts)
unfolding match_round opposite_side
match_round-RoundKeeps b o p ts l wf there =
    let (id, rest, queue) = active-some b (opposite o.side) p l wf there in
    subst (λ r. Returns (RoundKeeps b o) (after_front o p ts r))
      (sym (front_found b o p ts l wf there id rest queue))
      (front_round b o p ts l wf there id rest queue)
