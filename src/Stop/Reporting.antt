-- ===== src/Stop/Reporting.antt =====
-- src/stop.rs: the orders that `collect_triggered` reports, and their order.
use rustbook.Prelude.{
  ◌≡◌, ◌==◌, inl, inr, true, false, refl, sym, ap, ◌∙◌, subst, Bool-cases, Option-cases, List, [],
  ◌∷◌, ◌++◌, some, arith, ◌≤◌, leb, All,
}
use mathlib.Core.Option.{some-injective}
use rustbook.Prelude.HashMap
use rustbook.Prelude.HashMap.{HashMap, get-insert}
use rustbook.Prelude.BTreeMap
use rustbook.Prelude.BTreeMap.{BTreeMap}
use rustbook.Types.{Price, OrderId, Timestamp}
use rustbook.Stop.{StopOrder, is_pending}
use rustbook.Stop.Trigger.{trigger_ids, trigger_keys, insert_sorted, sort_by_timestamp}
use rustbook.Stop.Triggering.{Has, Fires, Fires-insert, Fires-refl, Fires-trans, fire}

pub Has-append_left : {A : Type 0} (xs ys : List A) (x : A) → Has xs x → Has (xs ++ ys) x
Has-append_left [] ys x h = absurd h
Has-append_left (y ∷ xs) ys x (inl e) = inl e
Has-append_left (y ∷ xs) ys x (inr h) = inr (Has-append_left xs ys x h)

pub Has-append_last : {A : Type 0} (xs : List A) (x : A) → Has (xs ++ x ∷ []) x
Has-append_last [] x = inl refl
Has-append_last (y ∷ xs) x = inr (Has-append_last xs x)

module _ {F : Type 0} where
  -- Every order that was triggered on the way from one index to another is reported.
  abbrev pub Told : HashMap (StopOrder F) → HashMap (StopOrder F) → List (StopOrder F) → Type 0
  Told m m' found =
      (id : OrderId) (o : StopOrder F)
      → HashMap.get m id ≡ some o
      → is_pending o.status ≡ true
      → HashMap.get m' id ≡ some (fire o)
      → Has found (fire o)

  -- What a loop reports: what happens on the way, and what was reported before.
  pub record Reports (m : HashMap (StopOrder F)) (found : List (StopOrder F))
      (m' : HashMap (StopOrder F)) (found' : List (StopOrder F)) : Type 0 where
    pub fires : Fires m m'
    pub told : Told m m' found'
    pub grows : (x : StopOrder F) → Has found x → Has found' x

  Reports-refl : (m : HashMap (StopOrder F)) (found : List (StopOrder F)) → Reports m found m found
  Reports-refl m found = record {
    fires = Fires-refl m;
    told = λ id o h live e. absurd (
        clash
          (ap (λ (x : StopOrder F). is_pending x.status) (some-injective _ _ (sym e ∙ h)) ∙ live));
    grows = λ x h. h;
  }
    where
      clash : false ≡ true → ⊥
      clash e = cc

  pub Reports-trans :
      (m n k : HashMap (StopOrder F)) (f g h : List (StopOrder F))
      → Reports m f n g
      → Reports n g k h
      → Reports m f k h
  Reports-trans m n k f g h r s = record {
    fires = Fires-trans m n k r.fires s.fires;
    told = λ id o there live e. elim (r.fires id) [
      | inl same ↦ s.told id o (same ∙ there) live e
      | inr (p, found, alive, fired) ↦
          let eq = some-injective _ _ (sym found ∙ there) in
          s.grows (fire o) (r.told id o there live (fired ∙ ap (λ x. some (fire x)) eq))
    ];
    grows = λ x i. s.grows x (r.grows x i);
  }

  Reports-insert :
      (m : HashMap (StopOrder F)) (found : List (StopOrder F)) (id : OrderId) (o : StopOrder F)
      → HashMap.get m id ≡ some o
      → is_pending o.status ≡ true
      → Reports m found (HashMap.insert m id (fire o)) (found ++ fire o ∷ [])
  Reports-insert m found id o h live = record {
    fires = (Fires-insert m id o h live).0;
    told = λ j p there alive e. elim (Bool-cases (id == j)) [
      | inl same ↦
          let fired : some (fire p) ≡ some (fire o) =
            sym e ∙ get-insert m id j (fire o) ∙ rw same refl in
          subst (Has (found ++ fire o ∷ [])) (some-injective _ _ (sym fired))
            (Has-append_last found (fire o))
      | inr other ↦
          let kept : HashMap.get (HashMap.insert m id (fire o)) j ≡ some p =
            get-insert m id j (fire o) ∙ rw other there in
          absurd (
            clash (
              ap (λ (x : StopOrder F). is_pending x.status) (some-injective _ _ (sym e ∙ kept))
              ∙ alive))
    ];
    grows = λ x i. Has-append_left found (fire o ∷ []) x i;
  }
    where
      clash : false ≡ true → ⊥
      clash e = cc

  abbrev Reported :
      HashMap (StopOrder F)
      → List (StopOrder F)
      → HashMap (StopOrder F) × List (StopOrder F)
      → Type 0
  Reported m found r = Reports m found r.0 r.1

  trigger_ids-Reported :
      (ids : List OrderId) (m : HashMap (StopOrder F)) (found : List (StopOrder F))
      → Reported m found (trigger_ids ids m found)
  unfolding trigger_ids
  trigger_ids-Reported [] m found = Reports-refl m found
  trigger_ids-Reported (id ∷ ids) m found = elim (Option-cases (HashMap.get m id)) [
    | inl e ↦ rw (trigger_ids, e) (trigger_ids-Reported ids m found)
    | inr (o, e) ↦ elim (Bool-cases (is_pending o.status)) [
      | inr dead ↦ rw (trigger_ids, e, dead) (trigger_ids-Reported ids m found)
      | inl live ↦
          rw (trigger_ids, e, live)
            (Reports-trans m (HashMap.insert m id (fire o)) _ found (found ++ fire o ∷ []) _
              (Reports-insert m found id o e live)
              (trigger_ids-Reported ids (HashMap.insert m id (fire o)) (found ++ fire o ∷ [])))
    ]
  ]

  abbrev pub SweepReported :
      HashMap (StopOrder F)
      → List (StopOrder F)
      → BTreeMap (List OrderId) × HashMap (StopOrder F) × List (StopOrder F)
      → Type 0
  SweepReported m found r = Reports m found r.1 r.2

  pub trigger_keys-Reported :
      (ks : List Price) (entries : BTreeMap (List OrderId)) (m : HashMap (StopOrder F))
      (found : List (StopOrder F))
      → SweepReported m found (trigger_keys ks entries m found)
  unfolding trigger_keys
  trigger_keys-Reported [] entries m found = Reports-refl m found
  trigger_keys-Reported (k ∷ ks) entries m found = elim (Option-cases (BTreeMap.get entries k)) [
    | inl e ↦ rw (trigger_keys, e) (trigger_keys-Reported ks entries m found)
    | inr (ids, e) ↦
        let b = trigger_ids ids m found in
        rw (trigger_keys, e)
          (Reports-trans m b.0 _ found b.1 _ (trigger_ids-Reported ids m found)
            (trigger_keys-Reported ks (BTreeMap.remove entries k) b.0 b.1))
  ]

  -- The timestamps ascend.
  abbrev pub InOrder : List (StopOrder F) → Type 0
  InOrder [] = Unit
  InOrder (o ∷ os) = All (λ (p : StopOrder F). o.timestamp ≤ p.timestamp) os × InOrder os

  All-insert_sorted :
      (P : StopOrder F → Type 0) (o : StopOrder F) (os : List (StopOrder F))
      → P o
      → All P os
      → All P (insert_sorted o os)
  unfolding insert_sorted
  All-insert_sorted P o [] h a = (h, tt)
  All-insert_sorted P o (p ∷ ps) h a = elim (Bool-cases (leb o.timestamp p.timestamp)) [
    | inl e ↦ rw (insert_sorted, e) (h, a)
    | inr e ↦ rw (insert_sorted, e) (a.0, All-insert_sorted P o ps h a.1)
  ]

  pub All-sort :
      (P : StopOrder F → Type 0) (os : List (StopOrder F)) → All P os → All P (sort_by_timestamp os)
  unfolding sort_by_timestamp
  All-sort P [] a = tt
  All-sort P (o ∷ os) a = All-insert_sorted P o (sort_by_timestamp os) a.0 (All-sort P os a.1)

  All-later :
      (t u : Timestamp) (os : List (StopOrder F))
      → t ≤ u
      → All (λ (p : StopOrder F). u ≤ p.timestamp) os
      → All (λ (p : StopOrder F). t ≤ p.timestamp) os
  All-later t u [] h a = tt
  All-later t u (p ∷ ps) h a = (omega (arith, h, a.0), All-later t u ps h a.1)

  insert_sorted-InOrder :
      (o : StopOrder F) (os : List (StopOrder F)) → InOrder os → InOrder (insert_sorted o os)
  unfolding insert_sorted
  insert_sorted-InOrder o [] a = (tt, tt)
  insert_sorted-InOrder o (p ∷ ps) a = elim (Bool-cases (leb o.timestamp p.timestamp)) [
    | inl e ↦
        let le : o.timestamp ≤ p.timestamp = ground (arith, e) in
        rw (insert_sorted, e) ((le, All-later o.timestamp p.timestamp ps le a.0), a)
    | inr e ↦
        rw (insert_sorted, e)
          (
            All-insert_sorted (λ (q : StopOrder F). p.timestamp ≤ q.timestamp) o ps
                (ground (arith, e)) a.0,
            insert_sorted-InOrder o ps a.1,
          )
  ]

  pub sort-InOrder : (os : List (StopOrder F)) → InOrder (sort_by_timestamp os)
  unfolding sort_by_timestamp
  sort-InOrder [] = tt
  sort-InOrder (o ∷ os) = insert_sorted-InOrder o (sort_by_timestamp os) (sort-InOrder os)

  Has-insert_sorted :
      (o : StopOrder F) (os : List (StopOrder F)) (x : StopOrder F)
      → Has (o ∷ os) x
      → Has (insert_sorted o os) x
  unfolding insert_sorted
  Has-insert_sorted o [] x h = h
  Has-insert_sorted o (p ∷ ps) x h = elim (Bool-cases (leb o.timestamp p.timestamp)) [
    | inl e ↦ rw (insert_sorted, e) h
    | inr e ↦
        rw (insert_sorted, e)
          (elim h [
            | inl same ↦ inr (Has-insert_sorted o ps x (inl same))
            | inr (inl same) ↦ inl same
            | inr (inr there) ↦ inr (Has-insert_sorted o ps x (inr there))
          ])
  ]

  pub Has-sort :
      (os : List (StopOrder F)) (x : StopOrder F) → Has os x → Has (sort_by_timestamp os) x
  unfolding sort_by_timestamp
  Has-sort [] x h = h
  Has-sort (o ∷ os) x (inl e) = Has-insert_sorted o (sort_by_timestamp os) x (inl e)
  Has-sort (o ∷ os) x (inr h) = Has-insert_sorted o (sort_by_timestamp os) x (inr (Has-sort os x h))
