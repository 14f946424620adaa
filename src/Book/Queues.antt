-- ===== src/Book/Queues.antt =====
-- src/book.rs, src/price_levels.rs: the queue at a price, and the side that an order joined.
use rustbook.Prelude.{
  ◌≡◌, ◌≢◌, refl, sym, ap, ◌∙◌, List, [], ◌∷◌, ◌++◌, Option, none, some, inl, inr, Option-cases,
}
use rustbook.Prelude.BTreeMap
use rustbook.Prelude.BTreeMap.{BTreeMap}
use rustbook.Prelude.BTreeMap.Laws
use rustbook.Types.{Price, Quantity, OrderId}
use rustbook.Level
use rustbook.Level.{Level, after_push, new_level}
use rustbook.Level.Queue.{active}
use rustbook.PriceLevels.{PriceLevels, put_level, get_or_create_level}
use rustbook.Book.Placement.{iter_last}

-- The ids of the active orders of a level that may be missing, and those at a price of a side.
unfoldable pub queue_of : Option Level → List OrderId
queue_of none = []
queue_of (some l) = active l

abbrev pub queue_at : PriceLevels → Price → List OrderId
queue_at ps p = queue_of (BTreeMap.get ps.levels p)

-- A side that an order joined: its id is behind all others at its price, and the levels at the
-- other prices are what they were.
pub record Joined (ps : PriceLevels) (p : Price) (id : OrderId) (ps' : PriceLevels) : Type 0 where
  pub queued : queue_at ps' p ≡ queue_at ps p ++ id ∷ []
  pub other_prices : (k : Price) → k ≢ p → BTreeMap.get ps'.levels k ≡ BTreeMap.get ps.levels k

queue_of-after_push :
    (l : Level) (id : OrderId) (q : Quantity)
    → id ≢ 0
    → queue_of (some (after_push l id q)) ≡ active l ++ id ∷ []
unfolding queue_of after_push
queue_of-after_push l id q n = iter_last l.orders id n

queue_of-new_level : (p : Price) → active (new_level p) ≡ queue_of none
unfolding queue_of new_level Level.iter
queue_of-new_level p = refl

queue_of-some : (l : Level) → active l ≡ queue_of (some l)
unfolding queue_of
queue_of-some l = refl

-- The queue of a pushed level, where a level with the same queue stood before.
pushed :
    (m : BTreeMap Level) (p : Price) (l : Level) (id : OrderId) (q : Quantity)
    (before : Option Level)
    → id ≢ 0
    → active l ≡ queue_of before
    → queue_of (BTreeMap.get (BTreeMap.insert m p (after_push l id q)) p)
      ≡ queue_of before ++ id ∷ []
pushed m p l id q before n e =
    ap queue_of (Laws.get-insert_self m p (after_push l id q))
    ∙ queue_of-after_push l id q n
    ∙ ap (λ ids. ids ++ id ∷ []) e

-- A push to the level at a price, made if there is none, is a joining.
pub put_level-Joined :
    (ps : PriceLevels) (p : Price) (id : OrderId) (q : Quantity)
    → id ≢ 0
    → let (made, level) = get_or_create_level ps p in
      Joined ps p id (put_level made p (after_push level id q))
unfolding get_or_create_level put_level
put_level-Joined ps p id q n = elim (Option-cases (BTreeMap.get ps.levels p)) [
  | inl e ↦
      let m = BTreeMap.insert ps.levels p (new_level p) in
      let l = after_push (new_level p) id q in
      rw (e, get_or_create_level)
        (record {
          queued = pushed m p (new_level p) id q _ n (queue_of-new_level p ∙ ap queue_of (sym e));
          other_prices = λ k d.
              Laws.get-insert_ne m p k l d ∙ Laws.get-insert_ne ps.levels p k (new_level p) d;
        })
  | inr (l, e) ↦
      rw (e, get_or_create_level)
        (record {
          queued = pushed ps.levels p l id q _ n (queue_of-some l ∙ ap queue_of (sym e));
          other_prices = λ k d. Laws.get-insert_ne ps.levels p k (after_push l id q) d;
        })
]
