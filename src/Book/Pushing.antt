-- ===== src/Book/Pushing.antt =====
-- src/book.rs, src/price_levels.rs: the level that an order is pushed to, made if there is none.
use rustbook.Prelude.{
  ◌+◌, ◌<◌, ◌^◌, ◌≡◌, ◌≢◌, ◌⊎◌, inl, inr, refl, sym, Option, none, some, arith, Bool-cases,
  Option-cases, length, done,
}
use rustbook.Prelude.HashMap.{HashMap}
use rustbook.Prelude.BTreeMap
use rustbook.Prelude.BTreeMap.Laws
use rustbook.Types.{Price, Quantity, OrderId, Side, opposite, buy, sell}
use rustbook.Order.{Order}
use rustbook.Level
use rustbook.Level.{Level, after_push, new_level}
use rustbook.Level.Queue.{tombstones}
use rustbook.PriceLevels.{
  PriceLevels, put_level, get_or_create_level, insert_order, best_after_insert, is_better,
}
use rustbook.Book.{OrderBook, side_of, put_side}
use rustbook.Book.WellFormed.{LevelFits, SideFits, total}
use rustbook.Book.Edits.{FitsBut}

-- There is room for a quantity at a price: its level, if there is one, stays below 2^64.
abbrev pub HasRoom : PriceLevels → Price → Quantity → Type 0
HasRoom ps p q = (l : Level) → BTreeMap.get ps.levels p ≡ some l → l.total_quantity + q < 2 ^ 64

best_cases :
    (side : Side) (p : Price) (best : Option Price)
    → (best_after_insert side p best ≡ some p) ⊎ (best_after_insert side p best ≡ best)
unfolding best_after_insert
best_cases side p none = inl refl
best_cases side p (some b) = elim (Bool-cases (is_better side p b)) [
  | inl e ↦ inl (rw e)
  | inr e ↦ inr (rw e)
]

new_level-LevelFits :
    (orders : HashMap Order) (side : Side) (p : Price) → LevelFits orders side p (new_level p)
unfolding new_level tombstones Level.iter total
new_level-LevelFits orders side p = record {
  counted = record { counted = refl };
  queued = tt;
  totalled = refl;
  in_range = omega arith;
}

-- The level that an order goes to, and the other levels, once the level is there.
pub get_or_create_level-fits :
    (orders : HashMap Order) (side : Side) (ps : PriceLevels) (p : Price) (q : Quantity)
    → SideFits orders side ps
    → HasRoom ps p q
    → q < 2 ^ 64
    → let (made, level) = get_or_create_level ps p in
      LevelFits orders side p level
      × (level.total_quantity + q < 2 ^ 64)
      × FitsBut orders side made p
      × (made.side ≡ side)
      × ((made.best_price ≡ some p) ⊎ (made.best_price ≡ ps.best_price))
unfolding get_or_create_level
get_or_create_level-fits orders side ps p q f room small =
    elim (Option-cases (BTreeMap.get ps.levels p)) [
      | inl e ↦
          rw (e, get_or_create_level)
            (
              new_level-LevelFits orders side p,
              small_new,
              λ k l n h. elim (Laws.get-insert_cases ps.levels p k (new_level p) l h) [
                | inl (same, _) ↦ absurd (n (sym same))
                | inr (_, there) ↦ f.fits k l there
              ],
              f.sided,
              best_cases ps.side p ps.best_price,
            )
      | inr (l, e) ↦
          rw (e, get_or_create_level)
            ((f.fits p l e).0, room l e, λ k w n h. f.fits k w h, f.sided, inr refl)
    ]
  where
    small_new : (new_level p).total_quantity + q < 2 ^ 64
    small_new = unfold new_level in omega (arith, small)

-- A push of an id other than 0 returns.
pub insert_order_done :
    (ps : PriceLevels) (p : Price) (id : OrderId) (q : Quantity)
    → id ≢ 0
    → let (made, level) = get_or_create_level ps p in
      insert_order ps p id q ≡ done (put_level made p (after_push level id q), length level.orders)
unfolding insert_order Level.push_back
insert_order_done ps p id q n = ground arith

pub side_of-put_side_other :
    (b : OrderBook) (t : Side) (ps : PriceLevels)
    → side_of (put_side b t ps) (opposite t) ≡ side_of b (opposite t)
unfolding side_of put_side opposite
side_of-put_side_other b buy ps = refl
side_of-put_side_other b sell ps = refl
