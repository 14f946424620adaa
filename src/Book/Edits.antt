-- ===== src/Book/Edits.antt =====
-- src/book.rs and src/price_levels.rs: a change at one level, and the index of orders.
use rustbook.Prelude.{
  ◌<◌, ◌≡◌, ◌≢◌, ◌⊎◌, inl, inr, refl, sym, ap, ◌∙◌, subst, none, some, arith, Bool-cases,
  Option-cases,
}
use rustbook.Prelude.HashMap
use rustbook.Prelude.HashMap.{HashMap, get-insert}
use rustbook.Prelude.BTreeMap
use rustbook.Prelude.BTreeMap.Laws
use rustbook.Types.{Price, OrderId, Side}
use rustbook.Order.{Order}
use rustbook.Level
use rustbook.Level.{Level}
use rustbook.Level.Queue.{active}
use rustbook.PriceLevels.{PriceLevels, put_level, remove_level, settle_level, recompute_best_price}
use rustbook.PriceLevels.Best.{IsValid}
use rustbook.PriceLevels.Changes.{put_level-IsValid, remove_level-IsValid}
use rustbook.Book.WellFormed.{
  LevelFits, SideFits, Queued-absent, Queued-insert_absent, total-insert_absent,
}

-- The levels that a removal leaves are others.
remove_level_cases :
    (ps : PriceLevels) (p k : Price) (w : Level)
    → IsValid ps
    → BTreeMap.get (remove_level ps p).levels k ≡ some w
    → (k ≢ p) × (BTreeMap.get ps.levels k ≡ some w)
unfolding remove_level recompute_best_price
remove_level_cases ps p k w v h = elim (Option-cases (BTreeMap.get ps.levels p)) [
  | inl e ↦ (λ same. absurd (gone same e), ground arith)
  | inr (l, e) ↦ Laws.get-remove_cases ps.levels p k w v.sorted (ground arith)
]
  where
    gone : k ≡ p → BTreeMap.get ps.levels p ≡ none → ⊥
    gone same e = ground (arith, ap (BTreeMap.get ps.levels) same)

pub remove_level-side : (ps : PriceLevels) (p : Price) → (remove_level ps p).side ≡ ps.side
unfolding remove_level recompute_best_price
remove_level-side ps p = ground arith

put_level-side : (ps : PriceLevels) (p : Price) (l : Level) → (put_level ps p l).side ≡ ps.side
unfolding put_level
put_level-side ps p l = refl

-- Every level of a side but the one at `p` agrees with the index.
abbrev pub FitsBut : HashMap Order → Side → PriceLevels → Price → Type 0
FitsBut orders side ps p =
    (k : Price) (l : Level)
    → k ≢ p
    → BTreeMap.get ps.levels k ≡ some l
    → LevelFits orders side k l × (0 < l.total_quantity)

remove_level-SideFits :
    (orders : HashMap Order) (side : Side) (ps : PriceLevels) (p : Price)
    → IsValid ps
    → ps.side ≡ side
    → FitsBut orders side ps p
    → SideFits orders side (remove_level ps p)
remove_level-SideFits orders side ps p valid sided others = record {
  valid = remove_level-IsValid ps p valid;
  sided = remove_level-side ps p ∙ sided;
  fits = λ k w h. let (n, e) = remove_level_cases ps p k w valid h in others k w n e;
}

put_level-FitsBut :
    (orders : HashMap Order) (side : Side) (ps : PriceLevels) (p : Price) (l : Level)
    → FitsBut orders side ps p
    → FitsBut orders side (put_level ps p l) p
unfolding put_level
put_level-FitsBut orders side ps p l others k w n h =
    elim (Laws.get-insert_cases ps.levels p k l w h) [
      | inl (same, new) ↦ absurd (n (sym same))
      | inr (_, e) ↦ others k w n e
    ]

module _ (orders : HashMap Order) (side : Side) (ps : PriceLevels) (p : Price) (old : Level)
    (valid : IsValid ps) (sided : ps.side ≡ side) (there : BTreeMap.get ps.levels p ≡ some old)
    (others : FitsBut orders side ps p) where
  pub put_level-SideFits :
      (l : Level)
      → LevelFits orders side p l
      → 0 < l.total_quantity
      → SideFits orders side (put_level ps p l)
  unfolding put_level
  put_level-SideFits l fits more = record {
    valid = put_level-IsValid ps p l old valid there;
    sided = sided;
    fits = λ k w h. elim (Laws.get-insert_cases ps.levels p k l w h) [
      | inl (same, new) ↦
          subst (λ j. LevelFits orders side j w × (0 < w.total_quantity)) same
            (subst (λ x. LevelFits orders side p x × (0 < x.total_quantity)) new (fits, more))
      | inr (n, e) ↦ others k w n e
    ];
  }

  -- A level that was written is removed if nothing is left in it.
  pub settle_level-SideFits :
      (l : Level) → LevelFits orders side p l → SideFits orders side (settle_level ps p l)
  unfolding settle_level Level.is_empty
  settle_level-SideFits l fits = elim (Bool-cases (Level.is_empty l)) [
    | inl e ↦ rw e (
        remove_level-SideFits orders side (put_level ps p l) p
          (put_level-IsValid ps p l old valid there) (put_level-side ps p l ∙ sided)
          (put_level-FitsBut orders side ps p l others))
    | inr e ↦ rw e (put_level-SideFits l fits (ground arith))
  ]

-- A change of an order that rests at `p` of `side` is not seen at other prices of that side, nor on
-- the other side.
module _ (orders : HashMap Order) (id : OrderId) (o o' : Order)
    (held : HashMap.get orders id ≡ some o) where
  LevelFits-insert :
      (side : Side) (k : Price) (l : Level)
      → (o.price ≢ k) ⊎ (o.side ≢ side)
      → LevelFits orders side k l
      → LevelFits (HashMap.insert orders id o') side k l
  LevelFits-insert side k l e f =
      let absent = Queued-absent orders side k id o (active l) held e f.queued in
      record {
        counted = f.counted;
        queued = Queued-insert_absent orders side k id o' (active l) absent f.queued;
        totalled = f.totalled ∙ sym (total-insert_absent orders side k id o' (active l) absent);
        in_range = f.in_range;
      }

  pub FitsBut-insert :
      (side : Side) (ps : PriceLevels)
      → SideFits orders side ps
      → FitsBut (HashMap.insert orders id o') side ps o.price
  FitsBut-insert side ps f k l n h =
      let (fits, more) = f.fits k l h in
      (LevelFits-insert side k l (inl (λ e. n (sym e))) fits, more)

  pub SideFits-insert_other :
      (side : Side) (ps : PriceLevels)
      → o.side ≢ side
      → SideFits orders side ps
      → SideFits (HashMap.insert orders id o') side ps
  SideFits-insert_other side ps n f = record {
    valid = f.valid;
    sided = f.sided;
    fits =
        λ k l h. let (fits, more) = f.fits k l h in (LevelFits-insert side k l (inr n) fits, more);
  }

-- Writing or settling a level that is there makes no level anew.
pub put_level_no_new :
    (ps : PriceLevels) (p k : Price) (l l' : Level)
    → BTreeMap.get ps.levels p ≡ some l
    → BTreeMap.get ps.levels k ≡ none
    → BTreeMap.get (put_level ps p l').levels k ≡ none
unfolding put_level
put_level_no_new ps p k l l' there e =
    Laws.get-insert_ne ps.levels p k l' (λ same. clash (ap (BTreeMap.get ps.levels) same)) ∙ e
  where
    clash : BTreeMap.get ps.levels k ≡ BTreeMap.get ps.levels p → ⊥
    clash same = cc

remove_level_no_new :
    (ps : PriceLevels) (p k : Price)
    → IsValid ps
    → BTreeMap.get ps.levels k ≡ none
    → BTreeMap.get (remove_level ps p).levels k ≡ none
remove_level_no_new ps p k v e = elim (Option-cases (BTreeMap.get (remove_level ps p).levels k)) [
  | inl gone ↦ gone
  | inr (w, there) ↦ absurd (clash w (remove_level_cases ps p k w v there).1)
]
  where
    clash : (w : Level) → BTreeMap.get ps.levels k ≡ some w → ⊥
    clash w there = cc

pub settle_level_no_new :
    (ps : PriceLevels) (p k : Price) (l l' : Level)
    → IsValid ps
    → BTreeMap.get ps.levels p ≡ some l
    → BTreeMap.get ps.levels k ≡ none
    → BTreeMap.get (settle_level ps p l').levels k ≡ none
unfolding settle_level
settle_level_no_new ps p k l l' v there e = elim (Bool-cases (Level.is_empty l')) [
  | inl empty ↦ rw empty (
      remove_level_no_new (put_level ps p l') p k (put_level-IsValid ps p l' l v there)
        (put_level_no_new ps p k l l' there e))
  | inr full ↦ rw full (put_level_no_new ps p k l l' there e)
]
