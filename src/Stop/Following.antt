-- ===== src/Stop/Following.antt =====
-- src/stop.rs: the update of the trailing stops keeps the index of the pending orders.
use rustbook.Prelude.{
  ◌≡◌, ◌≢◌, ◌⊎◌, inl, inr, ◌==◌, true, refl, sym, ap, ◌∙◌, subst, Bool-cases, Option, Option-cases,
  List, [], ◌∷◌, some, arith, ℤ, pos, leb_ℤ,
}
use mathlib.Core.Option
use mathlib.Core.Option.{some-injective}
use rustbook.Prelude.HashMap
use rustbook.Prelude.HashMap.{HashMap, get-insert}
use rustbook.Prelude.BTreeMap
use rustbook.Prelude.BTreeMap.{BTreeMap, IsSorted}
use rustbook.Types.{Price, OrderId, Side, buy, sell}
use rustbook.Stop.{
  FloatOps, TrailMethod, StopOrder, StopBook, is_pending, stops_of, put_stops, push_entry,
  drop_entry,
}
use rustbook.Stop.Trailing.{
  new_watermark, new_stop, should_update, trail_offset, move_stop, mark_water, trail_one, trail_id,
  trail_ids, update_trailing_stops,
}
use rustbook.Stop.Indexed.{Stands, Placed, IsIndexed}
use rustbook.Stop.Entries.{
  Stands-push_here, Stands-push, push_entry-IsSorted, pushed-Stands, drop_entry-IsSorted,
  Stands-drop, drop-Stands,
}
use rustbook.Stop.Indexing.{changed, changed-IsIndexed}

module _ {F : Type 0} where
  -- A pending order replaced by another one of its side, with the entries that agree.
  module _ (b : StopBook F) (id : OrderId) (o x : StopOrder F) (ok : IsIndexed b)
      (held : HashMap.get b.orders id ≡ some o) (live : is_pending o.status ≡ true)
      (side : x.side ≡ o.side) (status : x.status ≡ o.status) where
    abbrev orders' : HashMap (StopOrder F)
    orders' = HashMap.insert b.orders id x

    alive : is_pending x.status ≡ true
    alive = ap is_pending status ∙ live

    replaced_cases :
        (j : OrderId) (y : StopOrder F)
        → HashMap.get orders' j ≡ some y
        → ((id ≡ j) × (x ≡ y)) ⊎ ((id ≢ j) × (HashMap.get b.orders j ≡ some y))
    replaced_cases j y h = elim (Bool-cases (id == j)) [
      | inl e ↦
          let now = rw (get-insert b.orders id j x, e) at h in
          inl (ground (arith, e), some-injective _ _ now)
      | inr e ↦
          let now = rw (get-insert b.orders id j x, e) at h in
          inr (λ same. ground (arith, e, same), now)
    ]

    other-Placed :
        (t : Side) (p : Price) (j : OrderId) → id ≢ j → Placed b.orders t p j → Placed orders' t p j
    other-Placed t p j n (y, h, l, s, at) = elim (Bool-cases (id == j)) [
      | inl e ↦ absurd (n (ground (arith, e)))
      | inr e ↦ (y, get-insert b.orders id j x ∙ rw e h, l, s, at)
    ]

    here-Placed : Placed orders' o.side x.stop_price id
    here-Placed = (x, HashMap.get-insert_self b.orders id x, alive, side, refl)

    -- The id stands at its order's place alone.
    only_place : (t : Side) (p : Price) → Placed b.orders t p id → (o.side ≡ t) × (o.stop_price ≡ p)
    only_place t p (y, h, l, s, at) =
        let same = some-injective _ _ (sym held ∙ h) in
        (
          ap (λ (z : StopOrder F). z.side) same ∙ s,
          ap (λ (z : StopOrder F). z.stop_price) same ∙ at,
        )

    module _ (m : BTreeMap (List OrderId)) (ids : List OrderId) (sorted : IsSorted m)
        (here : Stands m x.stop_price id)
        (keeps : (q : Price) (j : OrderId) → id ≢ j → Stands (stops_of b o.side) q j → Stands m q j)
        (old : (q : Price) (j : OrderId)
          → Stands m q j
          → ((id ≡ j) × (x.stop_price ≡ q)) ⊎ ((id ≢ j) × Stands (stops_of b o.side) q j)) where
      replaced-IsIndexed : IsIndexed (changed b o.side m orders' ids)
      replaced-IsIndexed =
          changed-IsIndexed b o.side m orders' ids ok sorted
            (λ j y h l s. elim (replaced_cases j y h) [
              | inl (same, eq) ↦
                  subst (λ (z : StopOrder F). Stands m z.stop_price j) eq
                    (subst (Stands m x.stop_price) same here)
              | inr (n, there) ↦ keeps y.stop_price j n (
                  subst (λ t. Stands (stops_of b t) y.stop_price j) (sym s) (ok.listed j y there l))
            ])
            (λ p j st. elim (old p j st) [
              | inl (same, at) ↦
                  subst (Placed orders' o.side p) same
                    (subst (λ q. Placed orders' o.side q id) at here-Placed)
              | inr (n, (js, e, i)) ↦ other-Placed o.side p j n (ok.placed o.side p js j e i)
            ])
            (λ j y h l n. elim (replaced_cases j y h) [
              | inl (same, eq) ↦ absurd (n (sym side ∙ ap (λ (z : StopOrder F). z.side) eq))
              | inr (m, there) ↦ there
            ])
            (λ t p j n pl.
              other-Placed t p j
                (λ same. n (only_place t p (subst (Placed b.orders t p) (sym same) pl)).0) pl)

  -- Nothing of the entries is written.
  same_entries :
      (b : StopBook F) (s : Side) (orders : HashMap (StopOrder F))
      → changed b s (stops_of b s) orders b.trailing_ids ≡ record b { orders = orders }
  unfolding put_stops stops_of
  same_entries b buy orders = refl
  same_entries b sell orders = refl

  mark_water-IsIndexed :
      (b : StopBook F) (id : OrderId) (o : StopOrder F) (watermark : Price)
      → IsIndexed b
      → HashMap.get b.orders id ≡ some o
      → is_pending o.status ≡ true
      → IsIndexed (mark_water b id o watermark)
  unfolding mark_water
  mark_water-IsIndexed b id o watermark ok held live =
      let x = record o { watermark = some watermark } in
      subst IsIndexed (same_entries b o.side (HashMap.insert b.orders id x)) (
        replaced-IsIndexed b id o x ok held live refl refl (stops_of b o.side) b.trailing_ids
          (ok.sorted o.side) (ok.listed id o held live) (λ q j n st. st)
          (λ q j st. elim (Bool-cases (id == j)) [
            | inl e ↦
                let (js, h, i) = st in
                let same : id ≡ j = ground (arith, e) in
                inl (
                  same,
                  (only_place b id o x ok held live refl refl o.side q (
                      subst (Placed b.orders o.side q) (sym same) (ok.placed o.side q js j h i))).1,
                )
            | inr e ↦ inr (λ same. ground (arith, e, same), st)
          ]))

  move_stop-IsIndexed :
      (b : StopBook F) (id : OrderId) (o : StopOrder F) (stop watermark : Price)
      → IsIndexed b
      → HashMap.get b.orders id ≡ some o
      → is_pending o.status ≡ true
      → IsIndexed (move_stop b id o stop watermark)
  unfolding move_stop
  move_stop-IsIndexed b id o stop watermark ok held live =
      let x = record o { stop_price = stop; watermark = some watermark } in
      let s = ok.sorted o.side in
      let d = drop_entry (stops_of b o.side) o.stop_price id in
      let m = push_entry d stop id in
      replaced-IsIndexed b id o x ok held live refl refl m (put_stops b o.side m).trailing_ids
        (push_entry-IsSorted d stop id (drop_entry-IsSorted (stops_of b o.side) o.stop_price id s))
        (Stands-push_here d stop id)
        (λ q j n st.
          Stands-push d stop q id j (Stands-drop (stops_of b o.side) o.stop_price id s q j st n))
        (λ q j st. elim (pushed-Stands d stop q id j st) [
          | inl (at, same) ↦ inl (same, at)
          | inr there ↦
              let (before, n) = drop-Stands (stops_of b o.side) o.stop_price id s q j there in
              let (js, h, i) = before in
              inr (
                λ same.
                    n
                      (only_place b id o x ok held live refl refl o.side q (
                        subst (Placed b.orders o.side q) (sym same)
                          (ok.placed o.side q js j h i))).1
                      same,
                before,
              )
        ])

  trail_one-IsIndexed :
      (fp : FloatOps F) (b : StopBook F) (price : Price) (id : OrderId) (o : StopOrder F)
      (method : TrailMethod F)
      → IsIndexed b
      → HashMap.get b.orders id ≡ some o
      → is_pending o.status ≡ true
      → IsIndexed (trail_one fp b price id o method)
  unfolding trail_one
  trail_one-IsIndexed fp b price id o method ok held live =
      let watermark = new_watermark o.side (Option.get_or o.watermark price) price in
      let offset = trail_offset fp b.price_changes watermark method in
      let stop = new_stop o.side watermark offset in
      let marked = mark_water-IsIndexed b id o watermark ok held live in
      elim (Bool-cases (leb_ℤ offset (pos 0))) [
        | inl e ↦ rw (trail_one, e) marked
        | inr e ↦ elim (Bool-cases (should_update o.side stop o.stop_price)) [
          | inl u ↦ rw (trail_one, e, u) (move_stop-IsIndexed b id o stop watermark ok held live)
          | inr u ↦ rw (trail_one, e, u) marked
        ]
      ]

  trail_id-IsIndexed :
      (fp : FloatOps F) (b : StopBook F) (price : Price) (id : OrderId)
      → IsIndexed b
      → IsIndexed (trail_id fp b price id)
  unfolding trail_id
  trail_id-IsIndexed fp b price id ok = elim (Option-cases (HashMap.get b.orders id)) [
    | inl e ↦ rw (trail_id, e) ok
    | inr (o, e) ↦ elim (Option-cases o.trail_method) [
      | inl f ↦ rw (trail_id, e, f) ok
      | inr (method, f) ↦ elim (Bool-cases (is_pending o.status)) [
        | inl live ↦
            rw (trail_id, e, f, live) (trail_one-IsIndexed fp b price id o method ok e live)
        | inr dead ↦ rw (trail_id, e, f, dead) ok
      ]
    ]
  ]

  trail_ids-IsIndexed :
      (fp : FloatOps F) (b : StopBook F) (price : Price) (ids : List OrderId)
      → IsIndexed b
      → IsIndexed (trail_ids fp b price ids)
  unfolding trail_ids
  trail_ids-IsIndexed fp b price [] ok = ok
  trail_ids-IsIndexed fp b price (id ∷ ids) ok =
      trail_ids-IsIndexed fp (trail_id fp b price id) price ids
        (trail_id-IsIndexed fp b price id ok)

  -- The invariant reads the entries and the orders alone.
  same_stops :
      (b : StopBook F) (changes : List ℤ) (last : Option Price) (s : Side)
      → stops_of (record b { price_changes = changes; last_price = last }) s ≡ stops_of b s
  unfolding stops_of
  same_stops b changes last buy = refl
  same_stops b changes last sell = refl

  repriced-IsIndexed :
      (b : StopBook F) (changes : List ℤ) (last : Option Price)
      → IsIndexed b
      → IsIndexed (record b { price_changes = changes; last_price = last })
  repriced-IsIndexed b changes last ok = record {
    sorted = λ s. rw (same_stops b changes last s) (ok.sorted s);
    listed = λ id o h live. rw (same_stops b changes last o.side) (ok.listed id o h live);
    placed = λ s p ids id e i.
        ok.placed s p ids id (sym (ap (λ m. BTreeMap.get m p) (same_stops b changes last s)) ∙ e) i;
  }

  pub update_trailing_stops-IsIndexed :
      (fp : FloatOps F) (b : StopBook F) (price : Price)
      → IsIndexed b
      → IsIndexed (update_trailing_stops fp b price)
  unfolding update_trailing_stops
  update_trailing_stops-IsIndexed fp b price ok =
      trail_ids-IsIndexed fp _ price b.trailing_ids (repriced-IsIndexed b _ _ ok)
