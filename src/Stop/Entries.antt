-- ===== src/Stop/Entries.antt =====
-- src/stop.rs: an entry of ids by stop price, when an id is pushed onto it or taken off it.
use rustbook.Prelude.{
  ◌≡◌, ◌≢◌, ◌⊎◌, inl, inr, ◌==◌, true, false, refl, sym, ap, ◌∙◌, subst, Bool-cases, Option,
  Option-cases, List, [], ◌∷◌, ◌++◌, none, some, arith, eqb_ℤ, eqb_ℤ_iff, if◌then◌else◌,
}
use mathlib.Core.Option
use mathlib.Core.Option.{some-injective}
use rustbook.Prelude.BTreeMap
use rustbook.Prelude.BTreeMap.{BTreeMap, IsSorted}
use rustbook.Prelude.BTreeMap.Laws
use rustbook.Types.{Price, OrderId}
use rustbook.Stop.{push_entry, drop_entry, drop_id}
use rustbook.Stop.Triggering.{Has}
use rustbook.Stop.Reporting.{Has-append_left, Has-append_last}
use rustbook.Stop.Indexed.{Stands}

-- What the calls change of the entries of a side.
pub Stands-push_here :
    (m : BTreeMap (List OrderId)) (p : Price) (id : OrderId) → Stands (push_entry m p id) p id
unfolding push_entry
Stands-push_here m p id =
    let old = Option.get_or (BTreeMap.get m p) [] in
    (old ++ id ∷ [], Laws.get-insert_self m p (old ++ id ∷ []), Has-append_last old id)

pub Stands-push :
    (m : BTreeMap (List OrderId)) (p q : Price) (id j : OrderId)
    → Stands m q j
    → Stands (push_entry m p id) q j
unfolding push_entry
Stands-push m p q id j (ks, e, i) =
    let old = Option.get_or (BTreeMap.get m p) [] in
    elim (Bool-cases (eqb_ℤ p q)) [
      | inl same ↦
          let at = (eqb_ℤ_iff p q).0 same in
          let here : BTreeMap.get m p ≡ some ks = ap (BTreeMap.get m) at ∙ e in
          (
            old ++ id ∷ [],
            Laws.get-insert m p q (old ++ id ∷ []) ∙ rw same refl,
            rw here (Has-append_left ks (id ∷ []) j i),
          )
      | inr other ↦ (ks, Laws.get-insert m p q (old ++ id ∷ []) ∙ rw other e, i)
    ]

pub push_entry-IsSorted :
    (m : BTreeMap (List OrderId)) (p : Price) (id : OrderId)
    → IsSorted m
    → IsSorted (push_entry m p id)
unfolding push_entry
push_entry-IsSorted m p id s = Laws.insert-IsSorted m p _ s

Has-append : (xs : List OrderId) (y j : OrderId) → Has (xs ++ y ∷ []) j → (y ≡ j) ⊎ Has xs j
Has-append [] y j (inl e) = inl e
Has-append [] y j (inr h) = absurd h
Has-append (x ∷ xs) y j (inl e) = inr (inl e)
Has-append (x ∷ xs) y j (inr h) = elim (Has-append xs y j h) [ inl e ↦ inl e | inr i ↦ inr (inr i) ]

Has-get_or :
    (m : BTreeMap (List OrderId)) (p : Price) (j : OrderId)
    → Has (Option.get_or (BTreeMap.get m p) []) j
    → Stands m p j
Has-get_or m p j h = elim (Option-cases (BTreeMap.get m p)) [
  | inl e ↦ absurd (subst (λ x. Has (Option.get_or x []) j) e h)
  | inr (ids, e) ↦ (ids, e, subst (λ x. Has (Option.get_or x []) j) e h)
]

pub pushed-Stands :
    (m : BTreeMap (List OrderId)) (p q : Price) (id j : OrderId)
    → Stands (push_entry m p id) q j
    → ((p ≡ q) × (id ≡ j)) ⊎ Stands m q j
unfolding push_entry
pushed-Stands m p q id j (js, e, i) =
    let old = Option.get_or (BTreeMap.get m p) [] in
    elim (Laws.get-insert_cases m p q (old ++ id ∷ []) js e) [
      | inl (same, is) ↦ elim (Has-append old id j (subst (λ xs. Has xs j) (sym is) i)) [
        | inl new ↦ inl (same, new)
        | inr there ↦ inr (subst (λ t. Stands m t j) same (Has-get_or m p j there))
      ]
      | inr (n, there) ↦ inr (js, there, i)
    ]

Has-drop_id : (ids : List OrderId) (id j : OrderId) → Has ids j → id ≢ j → Has (drop_id ids id) j
unfolding drop_id
Has-drop_id [] id j h n = h
Has-drop_id (k ∷ ids) id j h n = elim (Bool-cases (k == id)) [
  | inl e ↦
      rw (drop_id, e)
        (elim h [
          | inl same ↦ absurd (n (ground (arith, e, same)))
          | inr there ↦ Has-drop_id ids id j there n
        ])
  | inr e ↦
      rw (drop_id, e)
        (elim h [ inl same ↦ inl same | inr there ↦ inr (Has-drop_id ids id j there n) ])
]

drop_id-Has : (ids : List OrderId) (id j : OrderId) → Has (drop_id ids id) j → Has ids j × (id ≢ j)
unfolding drop_id
drop_id-Has [] id j h = absurd h
drop_id-Has (k ∷ ids) id j h = elim (Bool-cases (k == id)) [
  | inl e ↦
      let there : Has (drop_id ids id) j = rw (drop_id, e) at h in
      let (i, n) = drop_id-Has ids id j there in (inr i, n)
  | inr e ↦
      let there : Has (k ∷ drop_id ids id) j = rw (drop_id, e) at h in
      elim there [
        | inl same ↦ (inl same, λ i. ground (arith, e, same, i))
        | inr i ↦ let (l, n) = drop_id-Has ids id j i in (inr l, n)
      ]
]

-- An entry after an id is taken off it.
abbrev nonempty : List OrderId → Option (List OrderId)
nonempty [] = none
nonempty (j ∷ js) = some (j ∷ js)

abbrev rest : Option (List OrderId) → OrderId → Option (List OrderId)
rest none id = none
rest (some ids) id = nonempty (drop_id ids id)

nonempty-some : (ids : List OrderId) (j : OrderId) → Has ids j → nonempty ids ≡ some ids
nonempty-some [] j h = absurd h
nonempty-some (k ∷ ids) j h = refl

nonempty_eq : (ids js : List OrderId) → nonempty ids ≡ some js → ids ≡ js
nonempty_eq [] js e = absurd cc
nonempty_eq (k ∷ ids) js e = some-injective _ _ e

-- An entry without an id, whether it stays or goes.
module _ (m : BTreeMap (List OrderId)) (p : Price) (id : OrderId) (sorted : IsSorted m) where
  pub drop_entry-IsSorted : IsSorted (drop_entry m p id)
  unfolding drop_entry
  drop_entry-IsSorted = elim (Option-cases (BTreeMap.get m p)) [
    | inl e ↦ rw (drop_entry, e) sorted
    | inr (ids, e) ↦
        elim (drop_id ids id) as (λ l. drop_id ids id ≡ l → IsSorted (drop_entry m p id)) [
          | [] ↦ λ d. rw (drop_entry, e, d) (Laws.remove-IsSorted m p sorted)
          | j ∷ js ↦ λ d. rw (drop_entry, e, d) (Laws.insert-IsSorted m p (j ∷ js) sorted)
        ]
          refl
  ]

  get-drop_entry :
      (q : Price)
      → BTreeMap.get (drop_entry m p id) q
        ≡ (if eqb_ℤ p q then rest (BTreeMap.get m p) id else BTreeMap.get m q)
  unfolding drop_entry
  get-drop_entry q = elim (Option-cases (BTreeMap.get m p)) [
    | inl e ↦
        rw (drop_entry, e)
          (elim (Bool-cases (eqb_ℤ p q)) [
            | inl same ↦ rw same (sym (ap (BTreeMap.get m) ((eqb_ℤ_iff p q).0 same)) ∙ e)
            | inr other ↦ rw other refl
          ])
    | inr (ids, e) ↦
        elim (drop_id ids id)
            as (λ l.
              drop_id ids id ≡ l
              → BTreeMap.get (drop_entry m p id) q
                ≡ (if eqb_ℤ p q then rest (BTreeMap.get m p) id else BTreeMap.get m q)) [
                  | [] ↦ λ d. rw (drop_entry, e, d) (Laws.get-remove m p q sorted)
                  | j ∷ js ↦ λ d. rw (drop_entry, e, d) (Laws.get-insert m p q (j ∷ js))
                ]
          refl
  ]

  pub Stands-drop :
      (q : Price) (j : OrderId) → Stands m q j → id ≢ j → Stands (drop_entry m p id) q j
  Stands-drop q j (ids, e, i) n = elim (Bool-cases (eqb_ℤ p q)) [
    | inr other ↦ (ids, get-drop_entry q ∙ rw other e, i)
    | inl same ↦
        let here = ap (BTreeMap.get m) ((eqb_ℤ_iff p q).0 same) ∙ e in
        let there = Has-drop_id ids id j i n in
        (
          drop_id ids id,
          get-drop_entry q ∙ rw (same, here) (nonempty-some (drop_id ids id) j there),
          there,
        )
  ]

  pub drop-Stands :
      (q : Price) (j : OrderId) → Stands (drop_entry m p id) q j → Stands m q j × (p ≡ q → id ≢ j)
  drop-Stands q j (js, e, i) = elim (Bool-cases (eqb_ℤ p q)) [
    | inr other ↦ (
      (js, sym (get-drop_entry q ∙ rw other refl) ∙ e, i),
      λ same. absurd (clash (sym other ∙ (eqb_ℤ_iff p q).1 same)),
    )
    | inl same ↦
        let at = (eqb_ℤ_iff p q).0 same in
        elim (Option-cases (BTreeMap.get m p)) [
          | inl h ↦ absurd (gone (sym (get-drop_entry q ∙ rw (same, h) refl) ∙ e))
          | inr (ids, h) ↦
              let eq =
                nonempty_eq (drop_id ids id) js (sym (get-drop_entry q ∙ rw (same, h) refl) ∙ e) in
              let (there, n) = drop_id-Has ids id j (subst (λ x. Has x j) (sym eq) i) in
              ((ids, sym (ap (BTreeMap.get m) at) ∙ h, there), λ u. n)
        ]
  ]
    where
      clash : false ≡ true → ⊥
      clash e = cc

      gone : none ≡ some js → ⊥
      gone e = cc
