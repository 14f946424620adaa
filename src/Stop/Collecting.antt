-- ===== src/Stop/Collecting.antt =====
-- src/stop.rs: what `collect_triggered` takes from a stop book and leaves in it.
use rustbook.Prelude.{
  ◌≡◌, ◌⊎◌, inl, inr, true, false, sym, ap, ◌∙◌, subst, List, [], none, some, All,
}
use mathlib.Core.Option.{some-injective}
use rustbook.Prelude.HashMap
use rustbook.Prelude.HashMap.{HashMap}
use rustbook.Prelude.BTreeMap
use rustbook.Prelude.BTreeMap.{BTreeMap, IsSorted}
use rustbook.Types.{Price, OrderId, Side, buy, sell}
use rustbook.Stop.{StopOrder, StopBook, stops_of, is_pending}
use rustbook.Stop.Trigger.{keys, trigger_keys, collect_triggered}
use rustbook.Stop.Triggering.{
  Has, Reached, Fires, Fires-pending, Fires-refl, Fires-trans, Dead, Fires-Dead, Fired, fire,
}
use rustbook.Stop.Ranges.{Has-range_to, Has-range_from, range_to_le, range_from_le, All-Has}
use rustbook.Stop.Indexed.{Placed, IsIndexed}
use rustbook.Stop.Sweeping.{State, Sweep, trigger_keys-Sweep}
use rustbook.Stop.Reporting.{
  Reports, Reports-trans, trigger_keys-Reported, InOrder, sort-InOrder, All-sort, Has-sort,
}

module _ {F : Type 0} where
  -- What a collection at a trade price makes of a book, and what it reports.
  pub record Collected (b : StopBook F) (price : Price) (b' : StopBook F)
      (found : List (StopOrder F)) : Type 0 where
    pub sound : All (Fired b.orders price) found
    pub complete :
        (id : OrderId) (o : StopOrder F)
        → HashMap.get b.orders id ≡ some o
        → is_pending o.status ≡ true
        → Reached o.side o.stop_price price
        → Has found (fire o) × (HashMap.get b'.orders id ≡ some (fire o))
    pub untouched :
        (id : OrderId) (o : StopOrder F)
        → HashMap.get b.orders id ≡ some o
        → (is_pending o.status ≡ false) ⊎ (Reached o.side o.stop_price price → ⊥)
        → HashMap.get b'.orders id ≡ some o
    pub in_order : InOrder found
    pub indexed : IsIndexed b'

  module _ (b : StopBook F) (price : Price) (ok : IsIndexed b) where
    -- The two loops.
    abbrev buys : State b.orders price
    buys = trigger_keys (keys (BTreeMap.range_to b.buy_stops price)) b.buy_stops b.orders []

    abbrev sells : State b.orders price
    sells = trigger_keys (keys (BTreeMap.range_from b.sell_stops price)) b.sell_stops buys.1 buys.2

    Placed-Reached :
        (s : Side) (p : Price) (id : OrderId) (o : StopOrder F)
        → Placed b.orders s p id
        → HashMap.get b.orders id ≡ some o
        → Reached s p price
        → Reached o.side o.stop_price price
    Placed-Reached s p id o (x, held, live, side, at) h r =
        subst (λ (y : StopOrder F). Reached y.side y.stop_price price)
          (some-injective _ _ (sym held ∙ h))
          (subst (λ t. Reached t x.stop_price price) (sym side)
            (subst (λ q. Reached s q price) (sym at) r))

    buys-Sweep :
        Sweep b.orders price (keys (BTreeMap.range_to b.buy_stops price)) b.buy_stops b.orders buys
    unfolding stops_of
    buys-Sweep =
        trigger_keys-Sweep b.orders price _ b.buy_stops b.orders [] (ok.sorted buy)
          (Fires-refl b.orders)
          (λ p ids there e id o i h live.
            Placed-Reached buy p id o (ok.placed buy p ids id e i) h
              (range_to_le b.buy_stops price p there))
          tt

    sells-Sweep :
        Sweep b.orders price
          (keys (BTreeMap.range_from b.sell_stops price))
          b.sell_stops
          buys.1
          sells
    unfolding stops_of
    sells-Sweep =
        trigger_keys-Sweep b.orders price _ b.sell_stops buys.1 buys.2 (ok.sorted sell)
          buys-Sweep.fires
          (λ p ids there e id o i h live.
            Placed-Reached sell p id o (ok.placed sell p ids id e i) h
              (range_from_le b.sell_stops price p there))
          buys-Sweep.found

    fires : Fires b.orders sells.1
    fires = Fires-trans b.orders buys.1 sells.1 buys-Sweep.fires sells-Sweep.fires

    reports : Reports b.orders [] sells.1 sells.2
    reports =
        Reports-trans b.orders buys.1 sells.1 [] buys.2 sells.2 (trigger_keys-Reported _ _ _ _)
          (trigger_keys-Reported _ _ _ _)

    -- A listed id whose stop price is reached is dealt with.
    swept :
        (s : Side) (p : Price) (ids : List OrderId) (id : OrderId)
        → BTreeMap.get (stops_of b s) p ≡ some ids
        → Has ids id
        → Reached s p price
        → Dead sells.1 id
    unfolding stops_of
    swept buy p ids id e i r =
        Fires-Dead buys.1 sells.1 id sells-Sweep.fires
          (buys-Sweep.dead p ids id (Has-range_to b.buy_stops price p ids e r) e i)
    swept sell p ids id e i r =
        sells-Sweep.dead p ids id (Has-range_from b.sell_stops price p ids e r) e i

    listed-Dead :
        (id : OrderId) (o : StopOrder F)
        → HashMap.get b.orders id ≡ some o
        → is_pending o.status ≡ true
        → Reached o.side o.stop_price price
        → Dead sells.1 id
    listed-Dead id o h live r =
        let (ids, e, i) = ok.listed id o h live in swept o.side o.stop_price ids id e i r

    caught :
        (id : OrderId) (o : StopOrder F)
        → HashMap.get b.orders id ≡ some o
        → is_pending o.status ≡ true
        → Reached o.side o.stop_price price
        → HashMap.get sells.1 id ≡ some (fire o)
    caught id o h live r = elim (fires id) [
      | inl same ↦ absurd (clash (sym (listed-Dead id o h live r o (same ∙ h)) ∙ live))
      | inr (p, there, alive, fired) ↦
          fired ∙ ap (λ x. some (fire x)) (some-injective _ _ (sym there ∙ h))
    ]
      where
        clash : false ≡ true → ⊥
        clash e = cc

    reached : (o : StopOrder F) → Fired b.orders price (fire o) → Reached o.side o.stop_price price
    reached o (id, p, h, live, r, e) =
        subst (λ (x : StopOrder F). Reached x.side x.stop_price price) (sym e) r

    passed_over :
        (id : OrderId) (o : StopOrder F)
        → HashMap.get b.orders id ≡ some o
        → (is_pending o.status ≡ false) ⊎ (Reached o.side o.stop_price price → ⊥)
        → HashMap.get sells.1 id ≡ some o
    passed_over id o h n = elim (fires id) [
      | inl same ↦ same ∙ h
      | inr (p, there, alive, fired) ↦
          let same = some-injective _ _ (sym there ∙ h) in
          let live : is_pending o.status ≡ true =
            subst (λ (x : StopOrder F). is_pending x.status ≡ true) same alive in
          let e = fired ∙ ap (λ x. some (fire x)) same in
          elim n [
            | inl dead ↦ absurd (clash (sym dead ∙ live))
            | inr far ↦ absurd (
                far (
                  reached o (
                    All-Has (Fired b.orders price) sells.2 (fire o) sells-Sweep.found
                      (reports.told id o h live e))))
          ]
    ]
      where
        clash : false ≡ true → ⊥
        clash e = cc

    abbrev after : StopBook F
    after = (collect_triggered b price).0

    stays :
        (s : Side) (p : Price) (ids : List OrderId)
        → BTreeMap.get (stops_of b s) p ≡ some ids
        → (Reached s p price → ⊥)
        → BTreeMap.get (stops_of after s) p ≡ some ids
    unfolding stops_of collect_triggered
    stays buy p ids e n = buys-Sweep.kept p (λ h. n (range_to_le b.buy_stops price p h)) ∙ e
    stays sell p ids e n = sells-Sweep.kept p (λ h. n (range_from_le b.sell_stops price p h)) ∙ e

    was_there :
        (s : Side) (p : Price) (ids : List OrderId)
        → BTreeMap.get (stops_of after s) p ≡ some ids
        → BTreeMap.get (stops_of b s) p ≡ some ids
    unfolding stops_of collect_triggered
    was_there buy p ids e = buys-Sweep.shrinks p ids e
    was_there sell p ids e = sells-Sweep.shrinks p ids e

    after-IsSorted : (s : Side) → IsSorted (stops_of after s)
    unfolding stops_of collect_triggered
    after-IsSorted buy = buys-Sweep.sorted
    after-IsSorted sell = sells-Sweep.sorted

    pending_before :
        (id : OrderId) (o : StopOrder F)
        → HashMap.get after.orders id ≡ some o
        → is_pending o.status ≡ true
        → HashMap.get b.orders id ≡ some o
    unfolding collect_triggered
    pending_before id o h live = Fires-pending b.orders sells.1 id o fires h live

    unreached :
        (id : OrderId) (o : StopOrder F)
        → HashMap.get after.orders id ≡ some o
        → is_pending o.status ≡ true
        → Reached o.side o.stop_price price
        → ⊥
    unfolding collect_triggered
    unreached id o h live r =
        clash (sym (listed-Dead id o (pending_before id o h live) live r o h) ∙ live)
      where
        clash : false ≡ true → ⊥
        clash e = cc

    far :
        (s : Side) (p : Price) (ids : List OrderId)
        → BTreeMap.get (stops_of after s) p ≡ some ids
        → Reached s p price
        → ⊥
    unfolding stops_of collect_triggered
    far buy p ids e r = clash (
        sym (buys-Sweep.gone p (Has-range_to b.buy_stops price p ids (was_there buy p ids e) r))
        ∙ e)
      where
        clash : none ≡ some ids → ⊥
        clash e = cc
    far sell p ids e r = clash (
        sym
          (sells-Sweep.gone p (Has-range_from b.sell_stops price p ids (was_there sell p ids e) r))
        ∙ e)
      where
        clash : none ≡ some ids → ⊥
        clash e = cc

    after-Placed :
        (s : Side) (p : Price) (ids : List OrderId) (id : OrderId)
        → BTreeMap.get (stops_of after s) p ≡ some ids
        → Has ids id
        → Placed after.orders s p id
    unfolding collect_triggered
    after-Placed s p ids id e i =
        let (o, h, live, side, at) = ok.placed s p ids id (was_there s p ids e) i in
        let n : Reached o.side o.stop_price price → ⊥ = λ r.
          far s p ids e
            (subst (λ t. Reached t p price) side (subst (λ q. Reached o.side q price) at r)) in
        (o, passed_over id o h (inr n), live, side, at)

    after-IsIndexed : IsIndexed after
    after-IsIndexed = record {
      sorted = after-IsSorted;
      listed = λ id o h live.
          let (ids, e, i) = ok.listed id o (pending_before id o h live) live in
          (ids, stays o.side o.stop_price ids e (unreached id o h live), i);
      placed = λ s p ids id e i. after-Placed s p ids id e i;
    }

    -- Collecting the stops of a trade price from a book whose entries index its pending orders:
    -- every order reported was pending in the book, its stop price is reached (from below for a
    -- buy, from above for a sell), and it is reported as triggered; every pending order whose stop
    -- price is reached is reported and stands in the book as triggered; every other order is left
    -- as it was; the reported orders are in the order of their timestamps; and the entries of the
    -- new book index its pending orders.
    pub collect_triggered-Collected :
        Collected b price (collect_triggered b price).0 (collect_triggered b price).1
    unfolding collect_triggered
    collect_triggered-Collected = record {
      sound = All-sort (Fired b.orders price) sells.2 sells-Sweep.found;
      complete = λ id o h live r. (
        Has-sort sells.2 (fire o) (reports.told id o h live (caught id o h live r)),
        caught id o h live r,
      );
      untouched = passed_over;
      in_order = sort-InOrder sells.2;
      indexed = after-IsIndexed;
    }
