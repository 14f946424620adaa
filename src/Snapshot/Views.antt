-- ===== src/Snapshot/Views.antt =====
-- src/snapshot.rs: a snapshot beside the book that it shows.
use rustbook.Prelude.{
  ℕ, zero, suc, ◌<◌, ◌≡◌, ◌⊎◌, min, refl, sym, ap, ◌∙◌, subst, List, [], ◌∷◌, map, Option, none,
  some, inl, inr, Option-cases, arith, All, All-imp, length, length-take, length-map, take,
}
use mathlib.Core.List.{reverse_aux}
use rustbook.Prelude.BTreeMap
use rustbook.Prelude.BTreeMap.{BTreeMap, IsSorted, Above}
use rustbook.Prelude.BTreeMap.Laws
use rustbook.Types.{Price, Side, buy, sell}
use rustbook.Level.{Level}
use rustbook.Level.Queue.{active, order_count_lem}
use rustbook.PriceLevels.{PriceLevels, iter_best_to_worst, best_to_worst, best_key}
use rustbook.PriceLevels.Best.{IsValid}
use rustbook.Book
use rustbook.Book.{OrderBook, side_of}
use rustbook.Book.WellFormed.{IsWellFormed}
use rustbook.Snapshot.Ranking.{
  Better, Ranked, HasKey, HasKey-take, HasKey-best_to_worst, Ranked-best_to_worst, Ranked-take,
  All-take, All-reverse_aux, length-reverse_aux,
}
use rustbook.Snapshot.{
  LevelSnapshot, snapshot_levels, level_snapshot, first_price, snapshot, best_bid, best_ask,
}

-- The entries of a sorted map are what it holds at their keys.
abbrev Holds : BTreeMap Level → Price × Level → Type 0
Holds m e = BTreeMap.get m e.0 ≡ some e.1

Holds-more :
    (j : Price) (w : Level) (m : BTreeMap Level) (e : Price × Level)
    → Above j m
    → Holds m e
    → Holds ((j, w) ∷ m) e
unfolding BTreeMap.get
Holds-more j w m (k, v) a h = ground (arith, Laws.get-above m j k v a h, h)

entries-Holds : (m : BTreeMap Level) → IsSorted m → All (Holds m) m
entries-Holds [] s = tt
entries-Holds ((j, w) ∷ m) s = (
  here,
  All-imp (Holds m) (Holds ((j, w) ∷ m)) m (λ e h. Holds-more j w m e s.0 h) (entries-Holds m s.1),
)
  where
    here : BTreeMap.get ((j, w) ∷ m) j ≡ some w
    here = unfold BTreeMap.get in ground arith

-- A level of a snapshot shows the level of the book at its price.
abbrev pub Shows : OrderBook → Side → LevelSnapshot → Type 0
Shows b s x =
    (l : Level) × (BTreeMap.get (side_of b s).levels x.price ≡ some l)
    × (x.quantity ≡ l.total_quantity)
    × (x.order_count ≡ length (active l))

-- Each level of a snapshot has a strictly better price than all that follow.
abbrev pub IsRanked : Side → List LevelSnapshot → Type 0
IsRanked side [] = Unit
IsRanked side (x ∷ xs) =
    All (λ (y : LevelSnapshot). Better side x.price y.price) xs × IsRanked side xs

-- The price is that of a level of a snapshot.
abbrev pub HasPrice : List LevelSnapshot → Price → Type 0
HasPrice [] p = ⊥
HasPrice (x ∷ xs) p = (x.price ≡ p) ⊎ HasPrice xs p

-- The levels of a snapshot of one side of a book. A price of the side that is not shown is worse
-- than all that are.
pub record IsView (b : OrderBook) (s : Side) (depth : ℕ) (xs : List LevelSnapshot) : Type 0 where
  pub ranked : IsRanked s xs
  pub shown : All (Shows b s) xs
  pub best :
      (p : Price) (l : Level)
      → BTreeMap.get (side_of b s).levels p ≡ some l
      → HasPrice xs p ⊎ All (λ (x : LevelSnapshot). Better s x.price p) xs
  pub size : length xs ≡ min depth (length (side_of b s).levels)

map-Better :
    (side : Side) (p : Price) (es : List (Price × Level))
    → All (λ (d : Price × Level). Better side p d.0) es
    → All (λ (y : LevelSnapshot). Better side p y.price) (map level_snapshot es)
unfolding level_snapshot
map-Better side p [] h = tt
map-Better side p (e ∷ es) h = (h.0, map-Better side p es h.1)

map-IsRanked :
    (side : Side) (es : List (Price × Level))
    → Ranked side es
    → IsRanked side (map level_snapshot es)
unfolding level_snapshot
map-IsRanked side [] h = tt
map-IsRanked side (e ∷ es) h = (map-Better side e.0 es h.0, map-IsRanked side es h.1)

map-HasPrice :
    (es : List (Price × Level)) (p : Price) → HasKey es p → HasPrice (map level_snapshot es) p
unfolding level_snapshot
map-HasPrice [] p h = h
map-HasPrice (e ∷ es) p (inl same) = inl same
map-HasPrice (e ∷ es) p (inr h) = inr (map-HasPrice es p h)

map-worse :
    (side : Side) (p : Price) (es : List (Price × Level))
    → All (λ (d : Price × Level). Better side d.0 p) es
    → All (λ (x : LevelSnapshot). Better side x.price p) (map level_snapshot es)
unfolding level_snapshot
map-worse side p [] h = tt
map-worse side p (e ∷ es) h = (h.0, map-worse side p es h.1)

module _ (b : OrderBook) (s : Side) (wf : IsWellFormed b) where
  levels : BTreeMap Level
  levels = (side_of b s).levels

  Holds-Shows : (e : Price × Level) → Holds levels e → Shows b s (level_snapshot e)
  unfolding levels level_snapshot
  Holds-Shows (p, l) h =
      let (fits, _) = (wf.sides s).fits p l h in (l, h, refl, order_count_lem l fits.counted)

  map-Shows :
      (es : List (Price × Level)) → All (Holds levels) es → All (Shows b s) (map level_snapshot es)
  map-Shows [] h = tt
  map-Shows (e ∷ es) h = (Holds-Shows e h.0, map-Shows es h.1)

  best_to_worst-Holds : (t : Side) → All (Holds levels) (best_to_worst t levels)
  unfolding best_to_worst levels
  best_to_worst-Holds buy =
      All-reverse_aux (Holds (side_of b s).levels) (side_of b s).levels []
        (entries-Holds (side_of b s).levels (wf.sides s).valid.sorted) tt
  best_to_worst-Holds sell = entries-Holds (side_of b s).levels (wf.sides s).valid.sorted

  length-best_to_worst : (t : Side) → length (best_to_worst t levels) ≡ length levels
  unfolding best_to_worst
  length-best_to_worst buy = omega (arith, length-reverse_aux levels [])
  length-best_to_worst sell = refl

  same_side : iter_best_to_worst (side_of b s) ≡ best_to_worst s levels
  unfolding iter_best_to_worst levels
  same_side = ap (λ t. best_to_worst t (side_of b s).levels) (wf.sides s).sided

  view : (depth : ℕ) → IsView b s depth (map level_snapshot (take depth (best_to_worst s levels)))
  view depth = record {
    ranked = map-IsRanked s _ (Ranked-take s depth _ ranked);
    shown = map-Shows _ (All-take (Holds levels) depth _ (best_to_worst-Holds s));
    best = λ p l h.
        elim (HasKey-take s depth _ p ranked
          (HasKey-best_to_worst s levels p l (unfold levels in h))) [
            | inl shown ↦ inl (map-HasPrice _ p shown)
            | inr worse ↦ inr (map-worse s p _ worse)
          ];
    size =
        length-map (take depth (best_to_worst s levels)) level_snapshot
        ∙ length-take depth (best_to_worst s levels)
        ∙ unfold levels in ap (min depth) (length-best_to_worst s);
  }
    where
      ranked : Ranked s (best_to_worst s levels)
      ranked =
          unfold levels in Ranked-best_to_worst s (side_of b s).levels (wf.sides s).valid.sorted

  -- A snapshot of one side of a well-formed book to some depth lists levels from the best price on:
  -- they are strictly worse one after the other, and a price of the side that is not listed is
  -- worse than all that are; each level shows a price of the side with its level's total quantity
  -- and its number of active orders; and there are as many as the depth or the number of levels,
  -- whichever is less.
  pub snapshot_levels-IsView : (depth : ℕ) → IsView b s depth (snapshot_levels (side_of b s) depth)
  unfolding snapshot_levels
  snapshot_levels-IsView depth =
      subst (λ es. IsView b s depth (map level_snapshot (take depth es))) (sym same_side)
        (view depth)

first_of : List (Price × Level) → Option Price
first_of [] = none
first_of (e ∷ es) = some e.0

or_else : Option Price → Option Price → Option Price
or_else none p = p
or_else (some q) p = some q

first_price_lem :
    (es : List (Price × Level)) (depth : ℕ)
    → 0 < depth
    → first_price (map level_snapshot (take depth es)) ≡ first_of es
unfolding first_price first_of level_snapshot
first_price_lem es zero h = absurd (omega arith)
first_price_lem [] (suc depth) h = refl
first_price_lem (e ∷ es) (suc depth) h = refl

first_of-reverse_aux :
    (m : BTreeMap Level) (acc : List (Price × Level))
    → first_of (reverse_aux m acc) ≡ or_else (BTreeMap.last_key m) (first_of acc)
unfolding first_of or_else BTreeMap.last_key
first_of-reverse_aux [] acc = refl
first_of-reverse_aux ((j, w) ∷ m) acc =
    first_of-reverse_aux m ((j, w) ∷ acc)
    ∙ elim (Option-cases (BTreeMap.last_key m)) [ inl e ↦ rw e refl | inr (k, e) ↦ rw e refl ]

or_else-none : (p : Option Price) → or_else p none ≡ p
unfolding or_else
or_else-none none = refl
or_else-none (some p) = refl

first_of-best_to_worst :
    (t : Side) (m : BTreeMap Level) → first_of (best_to_worst t m) ≡ best_key t m
unfolding best_to_worst best_key first_of BTreeMap.first_key
first_of-best_to_worst buy m = first_of-reverse_aux m [] ∙ or_else-none (BTreeMap.last_key m)
first_of-best_to_worst sell [] = refl
first_of-best_to_worst sell ((j, w) ∷ m) = refl

snapshot_levels-best :
    (ps : PriceLevels) (depth : ℕ)
    → IsValid ps
    → 0 < depth
    → first_price (snapshot_levels ps depth) ≡ ps.best_price
unfolding snapshot_levels iter_best_to_worst
snapshot_levels-best ps depth v h =
    first_price_lem (best_to_worst ps.side ps.levels) depth h
    ∙ first_of-best_to_worst ps.side ps.levels
    ∙ sym v.cached

-- The best bid and ask of a snapshot of a well-formed book, to a positive depth, are the cached
-- best bid and ask of the book.
pub snapshot-best :
    (b : OrderBook) (depth : ℕ)
    → IsWellFormed b
    → 0 < depth
    → (best_bid (snapshot b depth) ≡ Book.best_bid b)
      × (best_ask (snapshot b depth) ≡ Book.best_ask b)
unfolding best_bid best_ask snapshot Book.best_bid Book.best_ask side_of
snapshot-best b depth wf h = (
  snapshot_levels-best b.bids depth (wf.sides buy).valid h,
  snapshot_levels-best b.asks depth (wf.sides sell).valid h,
)
