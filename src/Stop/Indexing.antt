-- ===== src/Stop/Indexing.antt =====
-- src/stop.rs: `insert` and `cancel` keep the index of the pending orders.
use rustbook.Prelude.{
  ◌≡◌, ◌≢◌, ◌⊎◌, inl, inr, ◌==◌, true, false, refl, sym, ap, ◌∙◌, subst, Bool-cases, Option-cases,
  List, [], none, some, arith,
}
use mathlib.Core.Option.{some-injective}
use rustbook.Prelude.HashMap
use rustbook.Prelude.HashMap.{HashMap, get-insert}
use rustbook.Prelude.BTreeMap
use rustbook.Prelude.BTreeMap.{BTreeMap, IsSorted}
use rustbook.Types.{Price, OrderId, Side, buy, sell}
use rustbook.Stop.{
  StopOrder, StopBook, cancelled, stops_of, put_stops, is_pending, new_stop_book, insert, cancel,
  push_entry, drop_entry, unlink_stop,
}
use rustbook.Stop.Triggering.{Has}
use rustbook.Stop.Indexed.{Stands, Placed, IsIndexed}
use rustbook.Stop.Entries.{
  Stands-push_here, Stands-push, push_entry-IsSorted, pushed-Stands, drop_entry-IsSorted,
  Stands-drop, drop-Stands,
}

side_cases : (s t : Side) → (s ≡ t) ⊎ (s ≢ t)
side_cases buy buy = inl refl
side_cases buy sell = inr (λ e. absurd cc)
side_cases sell buy = inr (λ e. absurd cc)
side_cases sell sell = inl refl

module _ {F : Type 0} where
  pub new_stop_book-IsIndexed : IsIndexed (new_stop_book {F = F})
  unfolding new_stop_book stops_of BTreeMap.get HashMap.get
  new_stop_book-IsIndexed = record {
    sorted = none_sorted;
    listed = λ id o h live. absurd (none_found o h);
    placed = none_placed;
  }
    where
      none_found : {A : Type 0} (x : A) → none ≡ some x → ⊥
      none_found x h = cc

      none_sorted : (s : Side) → IsSorted (stops_of (new_stop_book {F = F}) s)
      none_sorted buy = tt
      none_sorted sell = tt

      none_placed :
          (s : Side) (p : Price) (ids : List OrderId) (id : OrderId)
          → BTreeMap.get (stops_of (new_stop_book {F = F}) s) p ≡ some ids
          → Has ids id
          → Placed {F = F} [] s p id
      none_placed buy p ids id e i = absurd (none_found ids e)
      none_placed sell p ids id e i = absurd (none_found ids e)

  -- A book whose entries of one side, and whose orders, are changed.
  abbrev pub changed :
      StopBook F
      → Side
      → BTreeMap (List OrderId)
      → HashMap (StopOrder F)
      → List OrderId
      → StopBook F
  changed b s m orders ids = record (put_stops b s m) { orders = orders; trailing_ids = ids }

  stops_of-changed_same :
      (b : StopBook F) (s : Side) (m : BTreeMap (List OrderId)) (orders : HashMap (StopOrder F))
      (ids : List OrderId)
      → stops_of (changed b s m orders ids) s ≡ m
  unfolding stops_of put_stops
  stops_of-changed_same b buy m orders ids = refl
  stops_of-changed_same b sell m orders ids = refl

  stops_of-changed_other :
      (b : StopBook F) (s t : Side) (m : BTreeMap (List OrderId)) (orders : HashMap (StopOrder F))
      (ids : List OrderId)
      → s ≢ t
      → stops_of (changed b s m orders ids) t ≡ stops_of b t
  unfolding stops_of put_stops
  stops_of-changed_other b buy buy m orders ids n = absurd (n refl)
  stops_of-changed_other b buy sell m orders ids n = refl
  stops_of-changed_other b sell buy m orders ids n = refl
  stops_of-changed_other b sell sell m orders ids n = absurd (n refl)

  -- An indexed book whose entries of a side and whose orders are replaced by ones that agree.
  module _ (b : StopBook F) (s : Side) (m : BTreeMap (List OrderId))
      (orders : HashMap (StopOrder F)) (ids : List OrderId) (ok : IsIndexed b) (sorted : IsSorted m)
      (listed_here : (id : OrderId) (o : StopOrder F)
        → HashMap.get orders id ≡ some o
        → is_pending o.status ≡ true
        → s ≡ o.side
        → Stands m o.stop_price id)
      (placed_here : (p : Price) (id : OrderId) → Stands m p id → Placed orders s p id)
      (old : (id : OrderId) (o : StopOrder F)
        → HashMap.get orders id ≡ some o
        → is_pending o.status ≡ true
        → s ≢ o.side
        → HashMap.get b.orders id ≡ some o)
      (kept : (t : Side) (p : Price) (id : OrderId)
        → s ≢ t
        → Placed b.orders t p id
        → Placed orders t p id) where
    pub changed-IsIndexed : IsIndexed (changed b s m orders ids)
    changed-IsIndexed = record {
      sorted = λ t. elim (side_cases s t) [
        | inl e ↦
            subst (λ u. IsSorted (stops_of (changed b s m orders ids) u)) e
              (rw (stops_of-changed_same b s m orders ids) sorted)
        | inr n ↦ rw (stops_of-changed_other b s t m orders ids n) (ok.sorted t)
      ];
      listed = λ id o h live. elim (side_cases s o.side) [
        | inl e ↦
            subst (λ u. Stands (stops_of (changed b s m orders ids) u) o.stop_price id) e
              (rw (stops_of-changed_same b s m orders ids) (listed_here id o h live e))
        | inr n ↦
            rw (stops_of-changed_other b s o.side m orders ids n)
              (ok.listed id o (old id o h live n) live)
      ];
      placed = λ t p js id e i. elim (side_cases s t) [
        | inl same ↦
            let here : Stands (stops_of (changed b s m orders ids) s) p id =
              (js, ap (λ u. BTreeMap.get (stops_of (changed b s m orders ids) u) p) same ∙ e, i) in
            subst (λ u. Placed orders u p id) same
              (placed_here p id
                (subst (λ n. Stands n p id) (stops_of-changed_same b s m orders ids) here))
        | inr n ↦ kept t p id n (
            ok.placed t p js id
              (sym (ap (λ x. BTreeMap.get x p) (stops_of-changed_other b s t m orders ids n)) ∙ e)
              i)
      ];
    }

  -- An order with a fresh id.
  module _ (b : StopBook F) (o : StopOrder F) (ok : IsIndexed b)
      (fresh : HashMap.get b.orders o.id ≡ none) (live : is_pending o.status ≡ true) where
    found_cases :
        (id : OrderId) (x : StopOrder F)
        → HashMap.get (HashMap.insert b.orders o.id o) id ≡ some x
        → ((o.id ≡ id) × (o ≡ x)) ⊎ (HashMap.get b.orders id ≡ some x)
    found_cases id x h = elim (Bool-cases (o.id == id)) [
      | inl e ↦ inl (
        ground (arith, e),
        some-injective _ _ (sym (get-insert b.orders o.id id o ∙ rw e refl) ∙ h),
      )
      | inr e ↦ inr (sym (get-insert b.orders o.id id o ∙ rw e refl) ∙ h)
    ]

    insert-Placed :
        (t : Side) (p : Price) (id : OrderId)
        → Placed b.orders t p id
        → Placed (HashMap.insert b.orders o.id o) t p id
    insert-Placed t p id (x, h, alive, side, at) = elim (Bool-cases (o.id == id)) [
      | inl e ↦ absurd (clash (sym fresh ∙ ap (HashMap.get b.orders) (same e) ∙ h))
      | inr e ↦ (x, get-insert b.orders o.id id o ∙ rw e h, alive, side, at)
    ]
      where
        same : (o.id == id) ≡ true → o.id ≡ id
        same e = ground arith

        clash : none ≡ some x → ⊥
        clash e = cc

    -- Inserting a pending order with a new id into a stop book whose entries index its pending
    -- orders keeps it so: the entries are sorted, every pending order stands at its side and stop
    -- price, and every id stands only at the place of its pending order.
    pub insert-IsIndexed : IsIndexed (insert b o)
    unfolding insert
    insert-IsIndexed =
        let m = stops_of b o.side in
        changed-IsIndexed b o.side (push_entry m o.stop_price o.id) _ _ ok
          (push_entry-IsSorted m o.stop_price o.id (ok.sorted o.side))
          (λ id x h alive side. elim (found_cases id x h) [
            | inl (same, eq) ↦
                subst (λ (y : StopOrder F). Stands (push_entry m o.stop_price o.id) y.stop_price id)
                  eq
                  (subst (Stands (push_entry m o.stop_price o.id) o.stop_price) same
                    (Stands-push_here m o.stop_price o.id))
            | inr there ↦ Stands-push m o.stop_price x.stop_price o.id id (
                subst (λ t. Stands (stops_of b t) x.stop_price id) (sym side)
                  (ok.listed id x there alive))
          ])
          (λ p id st. elim (pushed-Stands m o.stop_price p o.id id st) [
            | inl (at, same) ↦
                subst (Placed (HashMap.insert b.orders o.id o) o.side p) same
                  (o, HashMap.get-insert_self b.orders o.id o, live, refl, at)
            | inr (js, e, i) ↦ insert-Placed o.side p id (ok.placed o.side p js id e i)
          ])
          (λ id x h alive n. elim (found_cases id x h) [
            | inl (same, eq) ↦ absurd (n (ap (λ (y : StopOrder F). y.side) eq))
            | inr there ↦ there
          ])
          (λ t p id n. insert-Placed t p id)

  module _ (b : StopBook F) (id : OrderId) (o : StopOrder F) (ok : IsIndexed b)
      (held : HashMap.get b.orders id ≡ some o) (live : is_pending o.status ≡ true) where
    abbrev orders' : HashMap (StopOrder F)
    orders' = HashMap.insert b.orders id (record o { status = cancelled })

    kept_cases :
        (j : OrderId) (x : StopOrder F)
        → HashMap.get orders' j ≡ some x
        → is_pending x.status ≡ true
        → (HashMap.get b.orders j ≡ some x) × (id ≢ j)
    kept_cases j x h alive = elim (Bool-cases (id == j)) [
      | inl e ↦
          let now = rw (get-insert b.orders id j (record o { status = cancelled }), e) at h in
          let eq = some-injective _ _ now in
          absurd (clash (ap (λ (y : StopOrder F). is_pending y.status) eq ∙ alive))
      | inr e ↦ (
        sym (get-insert b.orders id j (record o { status = cancelled }) ∙ rw e refl) ∙ h,
        λ same. ground (arith, e, same),
      )
    ]
      where
        clash : false ≡ true → ⊥
        clash e = cc

    cancel-Placed :
        (t : Side) (p : Price) (j : OrderId) → id ≢ j → Placed b.orders t p j → Placed orders' t p j
    cancel-Placed t p j n (x, h, alive, side, at) = elim (Bool-cases (id == j)) [
      | inl e ↦ absurd (n (ground (arith, e)))
      | inr e ↦
          (x, get-insert b.orders id j (record o { status = cancelled }) ∙ rw e h, alive, side, at)
    ]

    same_order : (j : OrderId) (x : StopOrder F) → id ≡ j → HashMap.get b.orders j ≡ some x → o ≡ x
    same_order j x same h = some-injective _ _ (sym held ∙ ap (HashMap.get b.orders) same ∙ h)

    unlink_stop-IsIndexed : IsIndexed (unlink_stop b id o)
    unfolding unlink_stop
    unlink_stop-IsIndexed =
        let m = stops_of b o.side in
        let s = ok.sorted o.side in
        changed-IsIndexed b o.side (drop_entry m o.stop_price id) _ _ ok
          (drop_entry-IsSorted m o.stop_price id s)
          (λ j x h alive side.
            let (there, n) = kept_cases j x h alive in
            Stands-drop m o.stop_price id s x.stop_price j
              (subst (λ t. Stands (stops_of b t) x.stop_price j) (sym side)
                (ok.listed j x there alive))
              n)
          (λ p j st.
            let ((js, e, i), n) = drop-Stands m o.stop_price id s p j st in
            let (x, h, alive, side, at) = ok.placed o.side p js j e i in
            cancel-Placed o.side p j
              (λ same. n (ap (λ (y : StopOrder F). y.stop_price) (same_order j x same h) ∙ at) same)
              (x, h, alive, side, at))
          (λ j x h alive n. (kept_cases j x h alive).0)
          (λ t p j n pl.
            let (x, h, alive, side, at) = pl in
            cancel-Placed t p j
              (λ same. n (ap (λ (y : StopOrder F). y.side) (same_order j x same h) ∙ side)) pl)

  -- Cancelling any id in a stop book whose entries index its pending orders keeps it so, whether
  -- the id is unknown, no longer pending or taken off its entry.
  pub cancel-IsIndexed : (b : StopBook F) (id : OrderId) → IsIndexed b → IsIndexed (cancel b id).0
  unfolding cancel
  cancel-IsIndexed b id ok = elim (Option-cases (HashMap.get b.orders id)) [
    | inl e ↦ rw (cancel, e) ok
    | inr (o, e) ↦ elim (Bool-cases (is_pending o.status)) [
      | inl live ↦ rw (cancel, e, live) (unlink_stop-IsIndexed b id o ok e live)
      | inr dead ↦ rw (cancel, e, dead) ok
    ]
  ]
