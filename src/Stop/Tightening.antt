-- ===== src/Stop/Tightening.antt =====
-- src/stop.rs: what `update_trailing_stops` does to a stop order.
use rustbook.Prelude.{
  ◌≡◌, ◌==◌, true, refl, sym, ap, ◌∙◌, Bool-cases, Option, Option-cases, List, [], ◌∷◌, some, inl,
  inr, arith, ◌≤ℤ◌, leb_ℤ, pos, subst,
}
use mathlib.Core.Option
use mathlib.Core.Option.{some-injective}
use rustbook.Prelude.HashMap
use rustbook.Prelude.HashMap.{HashMap, get-insert}
use rustbook.Prelude.BTreeMap.{BTreeMap}
use rustbook.Types.{Price, OrderId, Side, buy, sell}
use rustbook.Stop.{FloatOps, TrailMethod, StopBook, StopOrder, is_pending, put_stops}
use rustbook.Stop.Trailing.{
  trail_one, trail_id, trail_ids, update_trailing_stops, move_stop, mark_water, should_update,
  new_stop, new_watermark, trail_offset,
}

-- A stop price that protects at least as tightly: not below it for a sell, not above it for a buy.
abbrev pub AsTight : Side → Price → Price → Type 0
AsTight sell new old = old ≤ℤ new
AsTight buy new old = new ≤ℤ old

AsTight-refl : (s : Side) (p : Price) → AsTight s p p
AsTight-refl buy p = omega arith
AsTight-refl sell p = omega arith

AsTight-trans : (s : Side) (p q r : Price) → AsTight s p q → AsTight s q r → AsTight s p r
AsTight-trans buy p q r h k = omega (arith, h, k)
AsTight-trans sell p q r h k = omega (arith, h, k)

should_update-AsTight :
    (s : Side) (new old : Price) → should_update s new old ≡ true → AsTight s new old
unfolding should_update
should_update-AsTight buy new old h = ground arith
should_update-AsTight sell new old h = ground arith

module _ {F : Type 0} where
  -- An order moved to a stop price and a watermark.
  abbrev moved : StopOrder F → Price → Option Price → StopOrder F
  moved o p w = record o { stop_price = p; watermark = w }

  -- The first order is the second one but for its stop price, which is as tight, and its watermark.
  abbrev pub IsTighter : StopOrder F → StopOrder F → Type 0
  IsTighter new old =
      (p : Price) × (w : Option Price) × (new ≡ moved old p w) × AsTight old.side p old.stop_price

  IsTighter-refl : (o : StopOrder F) → IsTighter o o
  IsTighter-refl o = (o.stop_price, o.watermark, refl, AsTight-refl o.side o.stop_price)

  IsTighter-trans : (a b c : StopOrder F) → IsTighter a b → IsTighter b c → IsTighter a c
  IsTighter-trans a b c (p, w, e, h) (q, v, f, k) = (
    p,
    w,
    e ∙ ap (λ x. moved x p w) f,
    AsTight-trans c.side p q c.stop_price
        (subst (λ (x : StopOrder F). AsTight x.side p x.stop_price) f h) k,
  )

  -- Every order of the first book is in the second, as tight at least.
  abbrev pub Tightens : HashMap (StopOrder F) → HashMap (StopOrder F) → Type 0
  Tightens m m' =
      (id : OrderId) (o : StopOrder F)
      → HashMap.get m id ≡ some o
      → (o' : StopOrder F) × (HashMap.get m' id ≡ some o') × IsTighter o' o

  Tightens-refl : (m : HashMap (StopOrder F)) → Tightens m m
  Tightens-refl m id o h = (o, h, IsTighter-refl o)

  Tightens-trans : (m n k : HashMap (StopOrder F)) → Tightens m n → Tightens n k → Tightens m k
  Tightens-trans m n k f g id o h =
      let (o', h', t) = f id o h in
      let (o'', h'', t') = g id o' h' in (o'', h'', IsTighter-trans o'' o' o t' t)

  Tightens-insert :
      (m : HashMap (StopOrder F)) (id : OrderId) (o o' : StopOrder F)
      → HashMap.get m id ≡ some o
      → IsTighter o' o
      → Tightens m (HashMap.insert m id o')
  Tightens-insert m id o o' h t j x k = elim (Bool-cases (id == j)) [
    | inl e ↦ (
      o',
      get-insert m id j o' ∙ rw e refl,
      subst (IsTighter o') (some-injective _ _ (sym h ∙ found e ∙ k)) t,
    )
    | inr e ↦ (x, get-insert m id j o' ∙ rw e k, IsTighter-refl x)
  ]
    where
      found : (id == j) ≡ true → HashMap.get m id ≡ HashMap.get m j
      found e = ap (HashMap.get m) (ground (arith, e))

  put_stops_orders :
      (b : StopBook F) (s : Side) (m : BTreeMap (List OrderId))
      → (put_stops b s m).orders ≡ b.orders
  unfolding put_stops
  put_stops_orders b buy m = refl
  put_stops_orders b sell m = refl

  mark_water-Tightens :
      (b : StopBook F) (id : OrderId) (o : StopOrder F) (w : Price)
      → HashMap.get b.orders id ≡ some o
      → Tightens b.orders (mark_water b id o w).orders
  unfolding mark_water
  mark_water-Tightens b id o w h =
      Tightens-insert b.orders id o (moved o o.stop_price (some w)) h
        (o.stop_price, some w, refl, AsTight-refl o.side o.stop_price)

  trail_one-Tightens :
      (fp : FloatOps F) (b : StopBook F) (price : Price) (id : OrderId) (o : StopOrder F)
      (method : TrailMethod F)
      → HashMap.get b.orders id ≡ some o
      → Tightens b.orders (trail_one fp b price id o method).orders
  unfolding trail_one move_stop
  trail_one-Tightens fp b price id o method h =
      let water = new_watermark o.side (Option.get_or o.watermark price) price in
      let offset = trail_offset fp b.price_changes water method in
      let stop = new_stop o.side water offset in
      elim (Bool-cases (leb_ℤ offset (pos 0))) [
        | inl e ↦ rw e (mark_water-Tightens b id o water h)
        | inr e ↦ elim (Bool-cases (should_update o.side stop o.stop_price)) [
          | inl u ↦
              rw (e, u)
                (Tightens-insert b.orders id o (moved o stop (some water)) h
                  (stop, some water, refl, should_update-AsTight o.side stop o.stop_price u))
          | inr u ↦ rw (e, u) (mark_water-Tightens b id o water h)
        ]
      ]

  trail_id-Tightens :
      (fp : FloatOps F) (b : StopBook F) (price : Price) (id : OrderId)
      → Tightens b.orders (trail_id fp b price id).orders
  unfolding trail_id
  trail_id-Tightens fp b price id = elim (Option-cases (HashMap.get b.orders id)) [
    | inl e ↦ rw (trail_id, e) (Tightens-refl b.orders)
    | inr (o, e) ↦ elim (Option-cases o.trail_method) [
      | inl n ↦ rw (trail_id, e, n) (Tightens-refl b.orders)
      | inr (method, k) ↦ elim (Bool-cases (is_pending o.status)) [
        | inl live ↦ rw (trail_id, e, k, live) (trail_one-Tightens fp b price id o method e)
        | inr dead ↦ rw (trail_id, e, k, dead) (Tightens-refl b.orders)
      ]
    ]
  ]

  trail_ids-Tightens :
      (fp : FloatOps F) (b : StopBook F) (price : Price) (ids : List OrderId)
      → Tightens b.orders (trail_ids fp b price ids).orders
  unfolding trail_ids
  trail_ids-Tightens fp b price [] = Tightens-refl b.orders
  trail_ids-Tightens fp b price (id ∷ ids) =
      Tightens-trans b.orders (trail_id fp b price id).orders _ (trail_id-Tightens fp b price id)
        (trail_ids-Tightens fp (trail_id fp b price id) price ids)

  -- Updating the trailing stops after a trade price, whatever the floating-point operations give,
  -- keeps every order of the stop book under its id, and changes nothing of it but its watermark
  -- and its stop price, which never moves away from the market: not down for a sell, not up for a
  -- buy.
  pub update_trailing_stops-IsTighter :
      (fp : FloatOps F) (b : StopBook F) (price : Price) (id : OrderId) (o : StopOrder F)
      → HashMap.get b.orders id ≡ some o
      → (o' : StopOrder F) × (HashMap.get (update_trailing_stops fp b price).orders id ≡ some o')
        × IsTighter o' o
  unfolding update_trailing_stops
  update_trailing_stops-IsTighter fp b price id o h =
      trail_ids-Tightens fp _ price b.trailing_ids id o h
