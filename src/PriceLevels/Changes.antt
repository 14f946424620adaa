-- ===== src/PriceLevels/Changes.antt =====
-- src/price_levels.rs: the calls that change a side of the book, and its validity.
use rustbook.Prelude.{
  subst, ◌≡◌, refl, sym, ap, ◌∙◌, eqb_ℤ, [], ◌∷◌, none, some, done, arith, ℕ, inl, inr,
  Option-cases, Bool-cases, ◌≢◌, length,
}
use rustbook.Prelude.BTreeMap.{BTreeMap, IsSorted, get, remove, first_key, last_key, Above}
use rustbook.Prelude.BTreeMap.Laws.{insert-IsSorted, remove-IsSorted, get-insert}
use rustbook.Types.{Price, Quantity, OrderId, Side, buy, sell}
use rustbook.Level
use rustbook.Level.{Level, new_level}
use rustbook.PriceLevels.{
  PriceLevels, best_key, recompute_best_price, best_after_insert, get_or_create_level, put_level,
  insert_order, remove_level, settle_level, mark_tombstone, compact, compact_levels, remove_order,
  pop_best_level, new_levels,
}
use rustbook.PriceLevels.Best.{
  IsValid, best_key-none, best_key-insert_new, best_key-insert_old, best_key-remove_ne,
}

pub new_levels-IsValid : (side : Side) → IsValid (new_levels side)
unfolding new_levels best_key first_key last_key
new_levels-IsValid buy = record { sorted = tt; cached = refl }
new_levels-IsValid sell = record { sorted = tt; cached = refl }

pub recompute_best_price-IsValid :
    (ps : PriceLevels) → IsSorted ps.levels → IsValid (recompute_best_price ps)
unfolding recompute_best_price
recompute_best_price-IsValid ps s = record { sorted = s; cached = refl }

pub put_level-IsValid :
    (ps : PriceLevels) (k : Price) (l w : Level)
    → IsValid ps
    → get ps.levels k ≡ some w
    → IsValid (put_level ps k l)
unfolding put_level
put_level-IsValid ps k l w v h = record {
  sorted = insert-IsSorted ps.levels k l v.sorted;
  cached = v.cached ∙ sym (best_key-insert_old ps.side ps.levels k l w v.sorted h);
}

pub get_or_create_level-IsValid :
    (ps : PriceLevels) (k : Price)
    → IsValid ps
    → IsValid (get_or_create_level ps k).0
      × (get (get_or_create_level ps k).0.levels k ≡ some (get_or_create_level ps k).1)
unfolding get_or_create_level
get_or_create_level-IsValid ps k v = elim (Option-cases (get ps.levels k)) [
  | inl e ↦
      rw (e, get_or_create_level)
        (
          record {
            sorted = insert-IsSorted ps.levels k (new_level k) v.sorted;
            cached =
                ap (best_after_insert ps.side k) v.cached
                ∙ sym (best_key-insert_new ps.side ps.levels k (new_level k) v.sorted);
          },
          ground (arith, get-insert ps.levels k k (new_level k)),
        )
  | inr (l, e) ↦ rw (e, get_or_create_level) (v, e)
]

pub remove_level-IsValid : (ps : PriceLevels) (k : Price) → IsValid ps → IsValid (remove_level ps k)
unfolding remove_level
remove_level-IsValid ps k v = elim (Option-cases (get ps.levels k)) [
  | inl e ↦ rw (e, remove_level) v
  | inr (l, e) ↦ elim (Option-cases ps.best_price) [
    | inl n ↦ absurd (gone l e (best_key-none ps.side ps.levels k (sym v.cached ∙ n)))
    | inr (b, best) ↦ elim (Bool-cases (eqb_ℤ b k)) [
      | inl same ↦
          rw (e, remove_level, best, same)
            (recompute_best_price-IsValid (record ps { levels = remove ps.levels k })
              (remove-IsSorted ps.levels k v.sorted))
      | inr other ↦
          rw (e, remove_level, best, other)
            (record {
              sorted = remove-IsSorted ps.levels k v.sorted;
              cached =
                  best ∙ sym (best_key-remove_ne ps.side ps.levels k b (sym v.cached ∙ best) other);
            })
    ]
  ]
]
  where
    gone : (l : Level) → get ps.levels k ≡ some l → get ps.levels k ≡ none → ⊥
    gone l e n = cc

settle_level-IsValid :
    (ps : PriceLevels) (k : Price) (l w : Level)
    → IsValid ps
    → get ps.levels k ≡ some w
    → IsValid (settle_level ps k l)
unfolding settle_level
settle_level-IsValid ps k l w v h = elim (Bool-cases (Level.is_empty l)) [
  | inl e ↦ rw e (remove_level-IsValid (put_level ps k l) k (put_level-IsValid ps k l w v h))
  | inr e ↦ rw e (put_level-IsValid ps k l w v h)
]

mark_tombstone-IsValid :
    (ps : PriceLevels) (k : Price) (i : ℕ) (q : Quantity)
    → IsValid ps
    → IsValid (mark_tombstone ps k i q)
unfolding mark_tombstone
mark_tombstone-IsValid ps k i q v = elim (Option-cases (get ps.levels k)) [
  | inl e ↦ rw (e, mark_tombstone) v
  | inr (l, e) ↦
      rw (e, mark_tombstone) (settle_level-IsValid ps k (Level.mark_tombstone l i q) l v e)
]

remove_order-IsValid :
    (ps : PriceLevels) (k : Price) (id : OrderId) (q : Quantity)
    → IsValid ps
    → IsValid (remove_order ps k id q).0
unfolding remove_order
remove_order-IsValid ps k id q v = elim (Option-cases (get ps.levels k)) [
  | inl e ↦ rw (e, remove_order) v
  | inr (l, e) ↦ elim (Bool-cases (Level.remove l id q).1) [
    | inl found ↦
        rw (e, remove_order, found) (settle_level-IsValid ps k (Level.remove l id q).0 l v e)
    | inr missing ↦ rw (e, remove_order, missing) v
  ]
]

pop_best_level-IsValid : (ps : PriceLevels) → IsValid ps → IsValid (pop_best_level ps).0
unfolding pop_best_level
pop_best_level-IsValid ps v = elim (Option-cases ps.best_price) [
  | inl e ↦ rw (e, pop_best_level) v
  | inr (b, e) ↦
      rw (e, pop_best_level)
        (recompute_best_price-IsValid (record ps { levels = remove ps.levels b })
          (remove-IsSorted ps.levels b v.sorted))
]

first_key-compact : (m : BTreeMap Level) → first_key (compact_levels m) ≡ first_key m
unfolding first_key compact_levels
first_key-compact [] = refl
first_key-compact ((j, l) ∷ m) = refl

last_key-compact : (m : BTreeMap Level) → last_key (compact_levels m) ≡ last_key m
unfolding last_key compact_levels
last_key-compact [] = refl
last_key-compact ((j, l) ∷ m) = rw (last_key-compact m)

best_key-compact :
    (side : Side) (m : BTreeMap Level) → best_key side (compact_levels m) ≡ best_key side m
unfolding best_key
best_key-compact buy m = last_key-compact m
best_key-compact sell m = first_key-compact m

compact_levels-Above : (k : Price) (m : BTreeMap Level) → Above k m → Above k (compact_levels m)
unfolding compact_levels
compact_levels-Above k [] a = tt
compact_levels-Above k ((j, l) ∷ m) a = (a.0, compact_levels-Above k m a.1)

compact_levels-IsSorted : (m : BTreeMap Level) → IsSorted m → IsSorted (compact_levels m)
unfolding compact_levels
compact_levels-IsSorted [] s = tt
compact_levels-IsSorted ((j, l) ∷ m) s =
    (compact_levels-Above j m s.0, compact_levels-IsSorted m s.1)

compact-IsValid : (ps : PriceLevels) → IsValid ps → IsValid (compact ps)
unfolding compact
compact-IsValid ps v = record {
  sorted = compact_levels-IsSorted ps.levels v.sorted;
  cached = v.cached ∙ sym (best_key-compact ps.side ps.levels);
}

-- What an insertion that returns has made of the levels.
pub insert_order_lem :
    (ps ps' : PriceLevels) (k : Price) (id : OrderId) (q : Quantity) (i : ℕ)
    → insert_order ps k id q ≡ done (ps', i)
    → let (made, level) = get_or_create_level ps k in
      (ps' ≡ put_level made k (Level.after_push level id q)) × (i ≡ length level.orders) × (id ≢ 0)
unfolding insert_order Level.push_back
insert_order_lem ps ps' k id q i e = ground arith

insert_order-IsValid :
    (ps ps' : PriceLevels) (k : Price) (id : OrderId) (q : Quantity) (i : ℕ)
    → IsValid ps
    → insert_order ps k id q ≡ done (ps', i)
    → IsValid ps'
unfolding insert_order
insert_order-IsValid ps ps' k id q i v e =
    let (made, there) = get_or_create_level-IsValid ps k v in
    let pushed = Level.after_push (get_or_create_level ps k).1 id q in
    subst IsValid (sym (insert_order_lem ps ps' k id q i e).0) (
      put_level-IsValid (get_or_create_level ps k).0 k pushed (get_or_create_level ps k).1 made
        there)

-- The calls that change a side of the book, each to what it returns, and the writes through
-- `get_level_mut`.
pub data Change (ps : PriceLevels) : PriceLevels → Type 0 where
  creates : (k : Price) → Change ps (get_or_create_level ps k).0
  inserts :
      {ps' : PriceLevels} (k : Price) (id : OrderId) (q : Quantity) (i : ℕ)
      → insert_order ps k id q ≡ done (ps', i)
      → Change ps ps'
  marks : (k : Price) (i : ℕ) (q : Quantity) → Change ps (mark_tombstone ps k i q)
  compacts : Change ps (compact ps)
  removes_order : (k : Price) (id : OrderId) (q : Quantity) → Change ps (remove_order ps k id q).0
  removes_level : (k : Price) → Change ps (remove_level ps k)
  writes : (k : Price) (l w : Level) → get ps.levels k ≡ some w → Change ps (put_level ps k l)
  pops : Change ps (pop_best_level ps).0

-- Every call that changes a side of the book (creating a level, inserting or removing an order,
-- marking a tombstone, compacting, removing or writing a level, popping the best one) keeps the
-- prices sorted and the cached best price the highest bid or the lowest ask.
pub Change-IsValid : {ps ps' : PriceLevels} → Change ps ps' → IsValid ps → IsValid ps'
Change-IsValid {ps} (creates k) v = (get_or_create_level-IsValid ps k v).0
Change-IsValid {ps} {ps'} (inserts k id q i e) v = insert_order-IsValid ps ps' k id q i v e
Change-IsValid {ps} (marks k i q) v = mark_tombstone-IsValid ps k i q v
Change-IsValid {ps} compacts v = compact-IsValid ps v
Change-IsValid {ps} (removes_order k id q) v = remove_order-IsValid ps k id q v
Change-IsValid {ps} (removes_level k) v = remove_level-IsValid ps k v
Change-IsValid {ps} (writes k l w h) v = put_level-IsValid ps k l w v h
Change-IsValid {ps} pops v = pop_best_level-IsValid ps v
