-- ===== src/Stop/Sweeping.antt =====
-- src/stop.rs: the loop of `collect_triggered` over the entries of one side.
use rustbook.Prelude.{
  ◌≡◌, inl, inr, refl, sym, ap, ◌∙◌, subst, Bool-cases, Option-cases, List, [], ◌∷◌, none, some,
  eqb_ℤ, eqb_ℤ_iff, All,
}
use mathlib.Core.Option.{some-injective}
use rustbook.Prelude.HashMap.{HashMap}
use rustbook.Prelude.BTreeMap
use rustbook.Prelude.BTreeMap.{BTreeMap, IsSorted}
use rustbook.Prelude.BTreeMap.Laws
use rustbook.Types.{Price, OrderId}
use rustbook.Stop.{StopOrder}
use rustbook.Stop.Trigger.{trigger_ids, trigger_keys}
use rustbook.Stop.Triggering.{
  Has, Fires, Fires-refl, Fires-trans, Fires-Dead, Dead, Fired, AllReached, Batch,
  trigger_ids-Batch,
}

module _ {F : Type 0} (base : HashMap (StopOrder F)) (price : Price) where
  -- The state of the loop: the entries, the index of orders and the orders found.
  abbrev pub State : Type 0
  State = BTreeMap (List OrderId) × HashMap (StopOrder F) × List (StopOrder F)

  -- What a run of the loop over some keys makes of the entries and the index.
  pub record Sweep (ks : List Price) (entries : BTreeMap (List OrderId)) (m : HashMap (StopOrder F))
      (r : State) : Type 0 where
    pub fires : Fires m r.1
    pub dead :
        (p : Price) (ids : List OrderId) (id : OrderId)
        → Has ks p
        → BTreeMap.get entries p ≡ some ids
        → Has ids id
        → Dead r.1 id
    pub found : All (Fired base price) r.2
    pub sorted : IsSorted r.0
    pub shrinks :
        (p : Price) (ids : List OrderId)
        → BTreeMap.get r.0 p ≡ some ids
        → BTreeMap.get entries p ≡ some ids
    pub kept : (p : Price) → (Has ks p → ⊥) → BTreeMap.get r.0 p ≡ BTreeMap.get entries p
    pub gone : (p : Price) → Has ks p → BTreeMap.get r.0 p ≡ none

  none_of :
      (entries : BTreeMap (List OrderId)) (p : Price)
      → ((ids : List OrderId) → BTreeMap.get entries p ≡ some ids → ⊥)
      → BTreeMap.get entries p ≡ none
  none_of entries p n = elim (Option-cases (BTreeMap.get entries p)) [
    | inl e ↦ e
    | inr (ids, e) ↦ absurd (n ids e)
  ]

  absent_at :
      (entries : BTreeMap (List OrderId)) (k p : Price) (ids : List OrderId)
      → BTreeMap.get entries k ≡ none
      → k ≡ p
      → BTreeMap.get entries p ≡ some ids
      → ⊥
  absent_at entries k p ids e same h = clash (sym e ∙ ap (BTreeMap.get entries) same ∙ h)
    where
      clash : none ≡ some ids → ⊥
      clash e = cc

  -- A key without an entry is passed over.
  Sweep-absent :
      (k : Price) (ks : List Price) (entries : BTreeMap (List OrderId)) (m : HashMap (StopOrder F))
      (r : State)
      → BTreeMap.get entries k ≡ none
      → Sweep ks entries m r
      → Sweep (k ∷ ks) entries m r
  Sweep-absent k ks entries m r e s = record {
    fires = s.fires;
    dead = λ p ids id. elim [
      | inl same ↦ λ h i. absurd (absent_at entries k p ids e same h)
      | inr there ↦ s.dead p ids id there
    ];
    found = s.found;
    sorted = s.sorted;
    shrinks = s.shrinks;
    kept = λ p n. s.kept p (λ h. n (inr h));
    gone = λ p. elim [
      | inl same ↦ none_of r.0 p (λ ids h. absent_at entries k p ids e same (s.shrinks p ids h))
      | inr there ↦ s.gone p there
    ];
  }

  -- A key whose entry is removed and whose ids are triggered.
  module _ (k : Price) (ks : List Price) (entries : BTreeMap (List OrderId))
      (m : HashMap (StopOrder F)) (r : State) (ids : List OrderId)
      (b : HashMap (StopOrder F) × List (StopOrder F)) (sorted : IsSorted entries)
      (e : BTreeMap.get entries k ≡ some ids) (batch : Batch base price ids m b)
      (s : Sweep ks (BTreeMap.remove entries k) b.0 r) where
    here-Dead :
        (p : Price) (js : List OrderId) (id : OrderId)
        → k ≡ p
        → BTreeMap.get entries p ≡ some js
        → Has js id
        → Dead r.1 id
    here-Dead p js id same h i =
        let eq = some-injective _ _ (sym h ∙ ap (BTreeMap.get entries) (sym same) ∙ e) in
        Fires-Dead b.0 r.1 id s.fires (batch.dead id (subst (λ xs. Has xs id) eq i))

    there-Dead :
        (p : Price) (js : List OrderId) (id : OrderId)
        → Has ks p
        → BTreeMap.get entries p ≡ some js
        → Has js id
        → Dead r.1 id
    there-Dead p js id there h i = elim (Bool-cases (eqb_ℤ k p)) [
      | inl same ↦ here-Dead p js id ((eqb_ℤ_iff k p).0 same) h i
      | inr n ↦ s.dead p js id there (Laws.get-remove entries k p sorted ∙ rw n h) i
    ]

    shrinks_entry :
        (p : Price) (js : List OrderId)
        → BTreeMap.get r.0 p ≡ some js
        → BTreeMap.get entries p ≡ some js
    shrinks_entry p js h = (Laws.get-remove_cases entries k p js sorted (s.shrinks p js h)).1

    gone_entry : (p : Price) → k ≡ p → (js : List OrderId) → BTreeMap.get r.0 p ≡ some js → ⊥
    gone_entry p same js h =
        (Laws.get-remove_cases entries k p js sorted (s.shrinks p js h)).0 (sym same)

    kept_entry : (p : Price) → (Has (k ∷ ks) p → ⊥) → BTreeMap.get r.0 p ≡ BTreeMap.get entries p
    kept_entry p n = s.kept p (λ h. n (inr h)) ∙ elim (Bool-cases (eqb_ℤ k p)) [
      | inl same ↦ absurd (n (inl ((eqb_ℤ_iff k p).0 same)))
      | inr other ↦ Laws.get-remove entries k p sorted ∙ rw other refl
    ]

    Sweep-entry : Sweep (k ∷ ks) entries m r
    Sweep-entry = record {
      fires = Fires-trans m b.0 r.1 batch.fires s.fires;
      dead = λ p js id. elim [
        | inl same ↦ here-Dead p js id same
        | inr there ↦ there-Dead p js id there
      ];
      found = s.found;
      sorted = s.sorted;
      shrinks = shrinks_entry;
      kept = kept_entry;
      gone =
          λ p. elim [ inl same ↦ none_of r.0 p (gone_entry p same) | inr there ↦ s.gone p there ];
    }

  pub trigger_keys-Sweep :
      (ks : List Price) (entries : BTreeMap (List OrderId)) (m : HashMap (StopOrder F))
      (found : List (StopOrder F))
      → IsSorted entries
      → Fires base m
      → ((p : Price) (ids : List OrderId)
          → Has ks p
          → BTreeMap.get entries p ≡ some ids
          → AllReached base price ids)
      → All (Fired base price) found
      → Sweep ks entries m (trigger_keys ks entries m found)
  unfolding trigger_keys
  trigger_keys-Sweep [] entries m found sorted t ok a = record {
    fires = Fires-refl m;
    dead = λ p ids id h. absurd h;
    found = a;
    sorted = sorted;
    shrinks = λ p ids h. h;
    kept = λ p n. refl;
    gone = λ p h. absurd h;
  }
  trigger_keys-Sweep (k ∷ ks) entries m found sorted t ok a =
      elim (Option-cases (BTreeMap.get entries k)) [
        | inl e ↦
            rw (trigger_keys, e)
              (Sweep-absent k ks entries m _ e
                (trigger_keys-Sweep ks entries m found sorted t (λ p ids h. ok p ids (inr h)) a))
        | inr (ids, e) ↦
            let batch = trigger_ids-Batch base price ids m found t (ok k ids (inl refl) e) a in
            let b = trigger_ids ids m found in
            rw (trigger_keys, e)
              (Sweep-entry k ks entries m (trigger_keys ks (BTreeMap.remove entries k) b.0 b.1) ids
                b sorted e batch
                (trigger_keys-Sweep ks (BTreeMap.remove entries k) b.0 b.1
                  (Laws.remove-IsSorted entries k sorted) (Fires-trans base m b.0 t batch.fires)
                  (λ p js h i. ok p js (inr h) (Laws.get-remove_cases entries k p js sorted i).1)
                  batch.found))
      ]
