-- ===== src/Stop/Triggering.antt =====
-- src/stop.rs: the loops of `collect_triggered` over the ids of an entry and over the entries.
use rustbook.Prelude.{
  ◌≡◌, ◌⊎◌, inl, inr, ◌==◌, true, false, refl, sym, ap, ◌∙◌, subst, Bool-cases, Option-cases, List,
  [], ◌∷◌, ◌++◌, none, some, arith, ◌≤ℤ◌, All, All-append,
}
use mathlib.Core.Option.{some-injective}
use rustbook.Prelude.HashMap
use rustbook.Prelude.HashMap.{HashMap, get-insert}
use rustbook.Types.{Price, OrderId, Side, buy, sell}
use rustbook.Stop.{StopOrder, triggered, is_pending}
use rustbook.Stop.Trigger.{trigger_ids}

-- An id stands in a list.
abbrev pub Has : {A : Type 0} → List A → A → Type 0
Has [] id = ⊥
Has (j ∷ js) id = (j ≡ id) ⊎ Has js id

-- A trade price reaches a stop price: from below for a buy, from above for a sell.
abbrev pub Reached : Side → Price → Price → Type 0
Reached buy stop price = stop ≤ℤ price
Reached sell stop price = price ≤ℤ stop

module _ {F : Type 0} where
  abbrev pub fire : StopOrder F → StopOrder F
  fire o = record o { status = triggered }

  -- The second index is the first one with some pending orders triggered.
  abbrev pub Fires : HashMap (StopOrder F) → HashMap (StopOrder F) → Type 0
  Fires m m' =
      (id : OrderId)
      → (HashMap.get m' id ≡ HashMap.get m id)
        ⊎ ((o : StopOrder F) × (HashMap.get m id ≡ some o)
            × (is_pending o.status ≡ true)
            × (HashMap.get m' id ≡ some (fire o)))

  -- The order of the id, if there is one, is not pending.
  abbrev pub Dead : HashMap (StopOrder F) → OrderId → Type 0
  Dead m id = (o : StopOrder F) → HashMap.get m id ≡ some o → is_pending o.status ≡ false

  pub Fires-refl : (m : HashMap (StopOrder F)) → Fires m m
  Fires-refl m id = inl refl

  -- A pending order of the second index is in the first one.
  pub Fires-pending :
      (m m' : HashMap (StopOrder F)) (id : OrderId) (o : StopOrder F)
      → Fires m m'
      → HashMap.get m' id ≡ some o
      → is_pending o.status ≡ true
      → HashMap.get m id ≡ some o
  Fires-pending m m' id o f h live = elim (f id) [
    | inl e ↦ sym e ∙ h
    | inr (p, found, alive, e) ↦ absurd (
        clash
          (ap (λ (x : StopOrder F). is_pending x.status) (some-injective _ _ (sym e ∙ h)) ∙ live))
  ]
    where
      clash : false ≡ true → ⊥
      clash e = cc

  pub Fires-Dead :
      (m m' : HashMap (StopOrder F)) (id : OrderId) → Fires m m' → Dead m id → Dead m' id
  Fires-Dead m m' id f d o h = elim (Bool-cases (is_pending o.status)) [
    | inr e ↦ e
    | inl live ↦ d o (Fires-pending m m' id o f h live)
  ]

  pub Fires-trans : (m n k : HashMap (StopOrder F)) → Fires m n → Fires n k → Fires m k
  Fires-trans m n k f g id = elim (g id) [
    | inl e ↦ elim (f id) [
      | inl d ↦ inl (e ∙ d)
      | inr (o, h, live, fired) ↦ inr (o, h, live, e ∙ fired)
    ]
    | inr (o, h, live, fired) ↦ inr (o, Fires-pending m n id o f h live, live, fired)
  ]

  pub Fires-insert :
      (m : HashMap (StopOrder F)) (id : OrderId) (o : StopOrder F)
      → HashMap.get m id ≡ some o
      → is_pending o.status ≡ true
      → Fires m (HashMap.insert m id (fire o)) × Dead (HashMap.insert m id (fire o)) id
  Fires-insert m id o h live = (
    λ j. elim (Bool-cases (id == j)) [
      | inl e ↦
          inr (o, ap (HashMap.get m) (same j e) ∙ h, live, get-insert m id j (fire o) ∙ rw e refl)
      | inr e ↦ inl (get-insert m id j (fire o) ∙ rw e refl)
    ],
    λ x k. dead x (sym (HashMap.get-insert_self m id (fire o)) ∙ k),
  )
    where
      same : (j : OrderId) → (id == j) ≡ true → j ≡ id
      same j e = ground arith

      dead : (x : StopOrder F) → some (fire o) ≡ some x → is_pending x.status ≡ false
      dead x e = ap (λ (y : StopOrder F). is_pending y.status) (some-injective _ _ (sym e))

  module _ (base : HashMap (StopOrder F)) (price : Price) where
    -- An order that was pending in the index, which the price reaches, triggered.
    abbrev pub Fired : StopOrder F → Type 0
    Fired o' =
        (id : OrderId) × (o : StopOrder F) × (HashMap.get base id ≡ some o)
        × (is_pending o.status ≡ true)
        × Reached o.side o.stop_price price
        × (o' ≡ fire o)

    -- The price reaches every pending order of the ids.
    abbrev pub AllReached : List OrderId → Type 0
    AllReached ids =
        (id : OrderId) (o : StopOrder F)
        → Has ids id
        → HashMap.get base id ≡ some o
        → is_pending o.status ≡ true
        → Reached o.side o.stop_price price

    -- What triggering ids makes of an index and of the orders found so far.
    pub record Batch (ids : List OrderId) (m : HashMap (StopOrder F))
        (r : HashMap (StopOrder F) × List (StopOrder F)) : Type 0 where
      pub fires : Fires m r.0
      pub dead : (id : OrderId) → Has ids id → Dead r.0 id
      pub found : All Fired r.1

    -- A batch of an id and others, whose first step is done.
    Batch-cons :
        (id : OrderId) (ids : List OrderId) (m n : HashMap (StopOrder F))
        (r : HashMap (StopOrder F) × List (StopOrder F))
        → Fires m n
        → Dead n id
        → Batch ids n r
        → Batch (id ∷ ids) m r
    Batch-cons id ids m n r f d k = record {
      fires = Fires-trans m n r.0 f k.fires;
      dead = λ j. elim [
        | inl e ↦ subst (Dead r.0) e (Fires-Dead n r.0 id k.fires d)
        | inr h ↦ k.dead j h
      ];
      found = k.found;
    }

    absent-Dead : (m : HashMap (StopOrder F)) (id : OrderId) → HashMap.get m id ≡ none → Dead m id
    absent-Dead m id e o h = absurd cc

    held-Dead :
        (m : HashMap (StopOrder F)) (id : OrderId) (o : StopOrder F)
        → HashMap.get m id ≡ some o
        → is_pending o.status ≡ false
        → Dead m id
    held-Dead m id o e dead x h =
        subst (λ (y : StopOrder F). is_pending y.status ≡ false) (some-injective _ _ (sym e ∙ h))
          dead

    pub trigger_ids-Batch :
        (ids : List OrderId) (m : HashMap (StopOrder F)) (found : List (StopOrder F))
        → Fires base m
        → AllReached ids
        → All Fired found
        → Batch ids m (trigger_ids ids m found)
    unfolding trigger_ids
    trigger_ids-Batch [] m found t ok a = record {
      fires = Fires-refl m;
      dead = λ id h. absurd h;
      found = a;
    }
    trigger_ids-Batch (id ∷ ids) m found t ok a = elim (Option-cases (HashMap.get m id)) [
      | inl e ↦
          rw (trigger_ids, e)
            (Batch-cons id ids m m _ (Fires-refl m) (absent-Dead m id e)
              (trigger_ids-Batch ids m found t ok' a))
      | inr (o, e) ↦ elim (Bool-cases (is_pending o.status)) [
        | inr dead ↦
            rw (trigger_ids, e, dead)
              (Batch-cons id ids m m _ (Fires-refl m) (held-Dead m id o e dead)
                (trigger_ids-Batch ids m found t ok' a))
        | inl live ↦
            let (fires, dead) = Fires-insert m id o e live in
            let there = Fires-pending base m id o t e live in
            rw (trigger_ids, e, live)
              (Batch-cons id ids m (HashMap.insert m id (fire o)) _ fires dead (
                trigger_ids-Batch ids (HashMap.insert m id (fire o)) (found ++ fire o ∷ [])
                  (Fires-trans base m _ t fires) ok'
                  (All-append Fired found (fire o ∷ []) a
                    ((id, o, there, live, ok id o (inl refl) there live, refl), tt))))
      ]
    ]
      where
        ok' : AllReached ids
        ok' j o h = ok j o (inr h)
