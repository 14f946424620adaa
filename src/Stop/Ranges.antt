-- ===== src/Stop/Ranges.antt =====
-- src/stop.rs: the keys of the entries that `collect_triggered` visits.
use rustbook.Prelude.{
  ◌≡◌, ◌⊎◌, inl, inr, Bool, true, false, sym, ap, ◌∙◌, refl, subst, Bool-cases, List, [], ◌∷◌, some,
  arith, ◌≤ℤ◌, leb_ℤ, eqb_ℤ, eqb_ℤ_iff, All, if◌then◌else◌,
}
use rustbook.Prelude.BTreeMap
use rustbook.Prelude.BTreeMap.{BTreeMap}
use rustbook.Types.{Price}
use rustbook.Stop.Trigger.{keys}
use rustbook.Stop.Triggering.{Has}

module _ {V : Type 0} where
  -- The keys of the two ranges.
  pub Has-range_to :
      (m : BTreeMap V) (hi p : Price) (v : V)
      → BTreeMap.get m p ≡ some v
      → p ≤ℤ hi
      → Has (keys (BTreeMap.range_to m hi)) p
  unfolding BTreeMap.get BTreeMap.range_to
  Has-range_to [] hi p v h le = absurd cc
  Has-range_to ((j, w) ∷ m) hi p v h le = elim (Bool-cases (eqb_ℤ j p)) [
    | inl e ↦
        let same = (eqb_ℤ_iff j p).0 e in
        let within : leb_ℤ j hi ≡ true = ap (λ q. leb_ℤ q hi) same ∙ ground (arith, le) in
        rw (BTreeMap.range_to, within) (inl same)
    | inr e ↦
        let later : BTreeMap.get m p ≡ some v = sym (rw e refl) ∙ h in
        elim (Bool-cases (leb_ℤ j hi)) [
          | inl w ↦ rw (BTreeMap.range_to, w) (inr (Has-range_to m hi p v later le))
          | inr w ↦ rw (BTreeMap.range_to, w) (Has-range_to m hi p v later le)
        ]
  ]

  -- A key of a list that a test extends or not.
  Has-if :
      (c : Bool) (j p : Price) (w : V) (m : BTreeMap V)
      → Has (keys (if c then (j, w) ∷ m else m)) p
      → ((c ≡ true) × (j ≡ p)) ⊎ Has (keys m) p
  Has-if true j p w m (inl e) = inl (refl, e)
  Has-if true j p w m (inr h) = inr h
  Has-if false j p w m h = inr h

  pub range_to_le :
      (m : BTreeMap V) (hi p : Price) → Has (keys (BTreeMap.range_to m hi)) p → p ≤ℤ hi
  unfolding BTreeMap.range_to
  range_to_le [] hi p h = absurd h
  range_to_le ((j, w) ∷ m) hi p h = elim (Has-if (leb_ℤ j hi) j p w (BTreeMap.range_to m hi) h) [
    | inl (e, same) ↦ subst (λ q. q ≤ℤ hi) same (ground (arith, e))
    | inr there ↦ range_to_le m hi p there
  ]

  pub Has-range_from :
      (m : BTreeMap V) (lo p : Price) (v : V)
      → BTreeMap.get m p ≡ some v
      → lo ≤ℤ p
      → Has (keys (BTreeMap.range_from m lo)) p
  unfolding BTreeMap.get BTreeMap.range_from
  Has-range_from [] lo p v h le = absurd cc
  Has-range_from ((j, w) ∷ m) lo p v h le = elim (Bool-cases (eqb_ℤ j p)) [
    | inl e ↦
        let same = (eqb_ℤ_iff j p).0 e in
        let within : leb_ℤ lo j ≡ true = ap (leb_ℤ lo) same ∙ ground (arith, le) in
        rw (BTreeMap.range_from, within) (inl same)
    | inr e ↦
        let later : BTreeMap.get m p ≡ some v = sym (rw e refl) ∙ h in
        elim (Bool-cases (leb_ℤ lo j)) [
          | inl w ↦ rw (BTreeMap.range_from, w) (inr (Has-range_from m lo p v later le))
          | inr w ↦ rw (BTreeMap.range_from, w) (Has-range_from m lo p v later le)
        ]
  ]

  pub range_from_le :
      (m : BTreeMap V) (lo p : Price) → Has (keys (BTreeMap.range_from m lo)) p → lo ≤ℤ p
  unfolding BTreeMap.range_from
  range_from_le [] lo p h = absurd h
  range_from_le ((j, w) ∷ m) lo p h =
      elim (Has-if (leb_ℤ lo j) j p w (BTreeMap.range_from m lo) h) [
        | inl (e, same) ↦ subst (λ q. lo ≤ℤ q) same (ground (arith, e))
        | inr there ↦ range_from_le m lo p there
      ]

pub All-Has : {A : Type 0} (P : A → Type 0) (xs : List A) (x : A) → All P xs → Has xs x → P x
All-Has P [] x a h = absurd h
All-Has P (y ∷ xs) x a (inl e) = subst P e a.0
All-Has P (y ∷ xs) x a (inr h) = All-Has P xs x a.1 h
