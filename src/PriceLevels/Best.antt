-- ===== src/PriceLevels/Best.antt =====
-- src/price_levels.rs: when the cached best price of a side is right, and the best price of its map.
use rustbook.Prelude.{
  ◌≡◌, sym, ◌∙◌, ◌≤ℤ◌, eqb_ℤ, false, none, some, arith, inl, inr, Option-cases, min_ℤ, max_ℤ,
}
use rustbook.Prelude.BTreeMap.{BTreeMap, IsSorted, get, insert, remove, first_key, last_key}
use rustbook.Prelude.BTreeMap.Laws.{
  first_key-insert, last_key-insert, first_key-insert_old, last_key-insert_old, first_key-remove_ne,
  last_key-remove_ne, first_key_le, first_key-none, last_key-none, le_last_key, get-first_key,
  get-last_key,
}
use rustbook.Types.{Price, Side, buy, sell}
use rustbook.Level.{Level}
use rustbook.PriceLevels.{PriceLevels, best_key, best_after_insert, is_better}

pub record IsValid (ps : PriceLevels) : Type 0 where
  pub sorted : IsSorted ps.levels
  pub cached : ps.best_price ≡ best_key ps.side ps.levels

-- `a` is at least as good a price as `b` on the side.
abbrev pub AsGood : Side → Price → Price → Type 0
AsGood buy a b = b ≤ℤ a
AsGood sell a b = a ≤ℤ b

pub best_key-AsGood :
    (side : Side) (m : BTreeMap Level) (b k : Price) (l : Level)
    → IsSorted m
    → best_key side m ≡ some b
    → get m k ≡ some l
    → AsGood side b k
unfolding best_key
best_key-AsGood buy m b k l s e h = le_last_key m k b l s h e
best_key-AsGood sell m b k l s e h = first_key_le m k b l s h e

best_key-get :
    (side : Side) (m : BTreeMap Level) (b : Price)
    → IsSorted m
    → best_key side m ≡ some b
    → (l : Level) × (get m b ≡ some l)
unfolding best_key
best_key-get buy m b s e = get-last_key m b s e
best_key-get sell m b s e = get-first_key m b e

pub best_key-none :
    (side : Side) (m : BTreeMap Level) (k : Price) → best_key side m ≡ none → get m k ≡ none
unfolding best_key
best_key-none buy m k e = last_key-none m k e
best_key-none sell m k e = first_key-none m k e

pub best_key-insert_new :
    (side : Side) (m : BTreeMap Level) (k : Price) (l : Level)
    → IsSorted m
    → best_key side (insert m k l) ≡ best_after_insert side k (best_key side m)
unfolding best_key best_after_insert is_better min_ℤ max_ℤ
best_key-insert_new buy m k l s = elim (Option-cases (last_key m)) [
  | inl e ↦ ground (arith, last_key-insert m k l s)
  | inr (b, e) ↦ ground (arith, last_key-insert m k l s)
]
best_key-insert_new sell m k l s = elim (Option-cases (first_key m)) [
  | inl e ↦ ground (arith, first_key-insert m k l)
  | inr (b, e) ↦ ground (arith, first_key-insert m k l)
]

pub best_key-insert_old :
    (side : Side) (m : BTreeMap Level) (k : Price) (l w : Level)
    → IsSorted m
    → get m k ≡ some w
    → best_key side (insert m k l) ≡ best_key side m
unfolding best_key
best_key-insert_old buy m k l w s h = last_key-insert_old m k l w s h
best_key-insert_old sell m k l w s h = first_key-insert_old m k l w s h

pub best_key-remove_ne :
    (side : Side) (m : BTreeMap Level) (k b : Price)
    → best_key side m ≡ some b
    → eqb_ℤ b k ≡ false
    → best_key side (remove m k) ≡ some b
unfolding best_key
best_key-remove_ne buy m k b e n = last_key-remove_ne m k b e n
best_key-remove_ne sell m k b e n = first_key-remove_ne m k b e n

-- The cached best price of a side whose prices are sorted and whose cache is right is the price of
-- one of its levels, and the price of every level is at most as good.
pub best_price-IsBest :
    (ps : PriceLevels) (b : Price)
    → IsValid ps
    → ps.best_price ≡ some b
    → ((l : Level) × (get ps.levels b ≡ some l))
      × ((k : Price) (l : Level) → get ps.levels k ≡ some l → AsGood ps.side b k)
best_price-IsBest ps b v e =
    let best = sym v.cached ∙ e in
    (
      best_key-get ps.side ps.levels b v.sorted best,
      λ k l h. best_key-AsGood ps.side ps.levels b k l v.sorted best h,
    )
