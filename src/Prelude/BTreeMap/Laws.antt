-- ===== src/Prelude/BTreeMap/Laws.antt =====
-- The laws of the ordered map.
use mathlib.Core.Path.{◌≡◌, refl, sym}
use mathlib.Core.Bool.{true, false}
use mathlib.Core.List.{[], ◌∷◌}
use mathlib.Core.Option.{Option, none, some}
use native.Mathlib.Omega.{arith}
use rustbook.Prelude.Int.{ℤ, ◌<ℤ◌, ◌≤ℤ◌, eqb_ℤ, max_ℤ, min_ℤ, eq_of_parts, eqb_ℤ_iff}
use rustbook.Prelude.Tests.{if◌then◌else◌, Option-cases, Bool-cases}
use mathlib.Core.Logic.{inl, inr, ◌⊎◌, ◌≢◌}
use rustbook.Prelude.BTreeMap.{BTreeMap, get, insert, remove, first_key, last_key, Above, IsSorted}

-- The smaller, or the larger, of a key and a key that there may be.
abbrev pub least : ℤ → Option ℤ → ℤ
least k none = k
least k (some j) = min_ℤ j k

abbrev pub greatest : ℤ → Option ℤ → ℤ
greatest k none = k
greatest k (some j) = max_ℤ j k

module _ {V : Type 0} where
  pub Above-trans : (i j : ℤ) (m : BTreeMap V) → i <ℤ j → Above j m → Above i m
  Above-trans i j [] h a = tt
  Above-trans i j ((k, w) ∷ m) h a = (omega arith, Above-trans i j m h a.1)

  pub get-insert :
      (m : BTreeMap V) (k j : ℤ) (v : V)
      → get (insert m k v) j ≡ (if eqb_ℤ k j then some v else get m j)
  unfolding get insert
  get-insert [] k j v = refl
  get-insert ((i, w) ∷ m) k j v = ground (arith, get-insert m k j v)

  pub get-Above : (m : BTreeMap V) (i k : ℤ) → Above i m → k ≤ℤ i → get m k ≡ none
  unfolding get
  get-Above [] i k a h = refl
  get-Above ((j, w) ∷ m) i k a h = ground (arith, get-Above m i k a.1)

  pub get-remove :
      (m : BTreeMap V) (k j : ℤ)
      → IsSorted m
      → get (remove m k) j ≡ (if eqb_ℤ k j then none else get m j)
  unfolding get remove
  get-remove [] k j s = ground arith
  get-remove ((i, w) ∷ m) k j s = ground (arith, get-remove m k j s.1, get-Above m i j s.0)

  Above-insert : (i k : ℤ) (m : BTreeMap V) (v : V) → i <ℤ k → Above i m → Above i (insert m k v)
  unfolding insert
  Above-insert i k [] v h a = (h, tt)
  Above-insert i k ((j, w) ∷ m) v h a = ground (arith, Above-insert i k m v h a.1)

  Above-remove : (i k : ℤ) (m : BTreeMap V) → Above i m → Above i (remove m k)
  unfolding remove
  Above-remove i k [] a = tt
  Above-remove i k ((j, w) ∷ m) a = ground (arith, Above-remove i k m a.1)

  pub insert-IsSorted : (m : BTreeMap V) (k : ℤ) (v : V) → IsSorted m → IsSorted (insert m k v)
  unfolding insert
  insert-IsSorted [] k v s = (tt, tt)
  insert-IsSorted ((j, w) ∷ m) k v s =
      ground (arith, insert-IsSorted m k v s.1, Above-insert j k m v, Above-trans k j m)

  pub remove-IsSorted : (m : BTreeMap V) (k : ℤ) → IsSorted m → IsSorted (remove m k)
  unfolding remove
  remove-IsSorted [] k s = tt
  remove-IsSorted ((j, w) ∷ m) k s = ground (arith, remove-IsSorted m k s.1, Above-remove j k m s.0)

  pub first_key-insert :
      (m : BTreeMap V) (k : ℤ) (v : V) → first_key (insert m k v) ≡ some (least k (first_key m))
  unfolding insert first_key min_ℤ
  first_key-insert [] k v = refl
  first_key-insert ((j, w) ∷ m) k v = ground (arith, eq_of_parts k j)

  last_key_above : (i : ℤ) (m : BTreeMap V) (b : ℤ) → Above i m → last_key m ≡ some b → i <ℤ b
  unfolding last_key
  last_key_above i [] b a h = cc
  last_key_above i ((j, w) ∷ m) b a h = ground (arith, last_key_above i m b a.1)

  pub last_key-insert :
      (m : BTreeMap V) (k : ℤ) (v : V)
      → IsSorted m
      → last_key (insert m k v) ≡ some (greatest k (last_key m))
  unfolding insert last_key max_ℤ
  last_key-insert [] k v s = refl
  last_key-insert ((j, w) ∷ m) k v s = elim (Option-cases (last_key m)) [
    | inl e ↦ ground (arith, last_key-insert m k v s.1, eq_of_parts k j)
    | inr (b, e) ↦
        ground (arith, last_key-insert m k v s.1, eq_of_parts k j, last_key_above j m b s.0)
  ]

  -- The first key is below every other, and the last one above.
  pub get-above : (m : BTreeMap V) (i k : ℤ) (v : V) → Above i m → get m k ≡ some v → i <ℤ k
  unfolding get
  get-above [] i k v a h = cc
  get-above ((j, w) ∷ m) i k v a h = ground (arith, get-above m i k v a.1)

  pub first_key_le :
      (m : BTreeMap V) (k b : ℤ) (v : V)
      → IsSorted m
      → get m k ≡ some v
      → first_key m ≡ some b
      → b ≤ℤ k
  unfolding get first_key
  first_key_le [] k b v s h e = cc
  first_key_le ((j, w) ∷ m) k b v s h e = ground (arith, get-above m j k v s.0)

  pub first_key-none : (m : BTreeMap V) (k : ℤ) → first_key m ≡ none → get m k ≡ none
  unfolding get first_key
  first_key-none [] k e = refl
  first_key-none ((j, w) ∷ m) k e = cc

  pub last_key-none : (m : BTreeMap V) (k : ℤ) → last_key m ≡ none → get m k ≡ none
  unfolding get last_key
  last_key-none [] k e = refl
  last_key-none ((j, w) ∷ m) k e = ground arith

  pub le_last_key :
      (m : BTreeMap V) (k b : ℤ) (v : V)
      → IsSorted m
      → get m k ≡ some v
      → last_key m ≡ some b
      → k ≤ℤ b
  unfolding get last_key
  le_last_key [] k b v s h e = cc
  le_last_key ((j, w) ∷ m) k b v s h e =
      ground (arith, le_last_key m k b v s.1, last_key_above j m b s.0, last_key-none m k)

  -- Removing another key leaves the first and the last one.
  pub first_key-remove_ne :
      (m : BTreeMap V) (k b : ℤ)
      → first_key m ≡ some b
      → eqb_ℤ b k ≡ false
      → first_key (remove m k) ≡ some b
  unfolding first_key remove
  first_key-remove_ne [] k b e n = cc
  first_key-remove_ne ((j, w) ∷ m) k b e n = ground arith

  last_key-remove-none : (m : BTreeMap V) (k : ℤ) → last_key m ≡ none → last_key (remove m k) ≡ none
  unfolding last_key remove
  last_key-remove-none [] k e = refl
  last_key-remove-none ((j, w) ∷ m) k e = cc

  pub last_key-remove_ne :
      (m : BTreeMap V) (k b : ℤ)
      → last_key m ≡ some b
      → eqb_ℤ b k ≡ false
      → last_key (remove m k) ≡ some b
  unfolding last_key remove
  last_key-remove_ne [] k b e n = cc
  last_key-remove_ne ((j, w) ∷ m) k b e n = elim (Option-cases (last_key m)) [
    | inl none_left ↦ ground (arith, last_key-remove-none m k)
    | inr (c, found) ↦ ground (arith, last_key-remove_ne m k c found)
  ]

  -- Writing the value of a key that is there moves neither.
  pub first_key-insert_old :
      (m : BTreeMap V) (k : ℤ) (v w : V)
      → IsSorted m
      → get m k ≡ some w
      → first_key (insert m k v) ≡ first_key m
  unfolding min_ℤ
  first_key-insert_old m k v w s h = elim (Option-cases (first_key m)) [
    | inl e ↦ ground (arith, first_key-none m k e)
    | inr (b, e) ↦
        ground (arith, first_key-insert m k v, first_key_le m k b w s h e, eq_of_parts k b)
  ]

  pub last_key-insert_old :
      (m : BTreeMap V) (k : ℤ) (v w : V)
      → IsSorted m
      → get m k ≡ some w
      → last_key (insert m k v) ≡ last_key m
  unfolding max_ℤ
  last_key-insert_old m k v w s h = elim (Option-cases (last_key m)) [
    | inl e ↦ ground (arith, last_key-none m k e)
    | inr (b, e) ↦
        ground (arith, last_key-insert m k v s, le_last_key m k b w s h e, eq_of_parts k b)
  ]

  -- The first and the last key are there.
  pub get-first_key : (m : BTreeMap V) (b : ℤ) → first_key m ≡ some b → (v : V) × (get m b ≡ some v)
  unfolding get first_key
  get-first_key [] b e = cc
  get-first_key ((j, w) ∷ m) b e = (w, ground arith)

  pub get-last_key :
      (m : BTreeMap V) (b : ℤ) → IsSorted m → last_key m ≡ some b → (v : V) × (get m b ≡ some v)
  unfolding get last_key
  get-last_key [] b s e = cc
  get-last_key ((j, w) ∷ m) b s e = elim (Option-cases (last_key m)) [
    | inl none_left ↦ (w, ground arith)
    | inr (c, found) ↦
        let (v, there) = get-last_key m c s.1 found in (v, ground (arith, last_key_above j m c s.0))
  ]

  -- What a changed map holds, it was given or held before under another key.
  pub get-insert_cases :
      (m : BTreeMap V) (k j : ℤ) (v w : V)
      → get (insert m k v) j ≡ some w
      → ((k ≡ j) × (v ≡ w)) ⊎ ((j ≢ k) × (get m j ≡ some w))
  get-insert_cases m k j v w h = elim (Bool-cases (eqb_ℤ k j)) [
    | inl e ↦ inl ((eqb_ℤ_iff k j).0 e, ground (arith, get-insert m k j v))
    | inr e ↦
        inr (λ same. different e ((eqb_ℤ_iff k j).1 (sym same)), ground (arith, get-insert m k j v))
  ]
    where
      different : eqb_ℤ k j ≡ false → eqb_ℤ k j ≡ true → ⊥
      different e f = cc

  pub get-remove_cases :
      (m : BTreeMap V) (k j : ℤ) (w : V)
      → IsSorted m
      → get (remove m k) j ≡ some w
      → (j ≢ k) × (get m j ≡ some w)
  get-remove_cases m k j w s h = elim (Bool-cases (eqb_ℤ k j)) [
    | inl e ↦ absurd (ground (arith, get-remove m k j s))
    | inr e ↦
        (λ same. different e ((eqb_ℤ_iff k j).1 (sym same)), ground (arith, get-remove m k j s))
  ]
    where
      different : eqb_ℤ k j ≡ false → eqb_ℤ k j ≡ true → ⊥
      different e f = cc

  pub get-insert_self : (m : BTreeMap V) (k : ℤ) (v : V) → get (insert m k v) k ≡ some v
  get-insert_self m k v = ground (arith, get-insert m k k v)

  pub get-remove_self : (m : BTreeMap V) (k : ℤ) → IsSorted m → get (remove m k) k ≡ none
  get-remove_self m k s = ground (arith, get-remove m k k s)

  pub get-insert_ne : (m : BTreeMap V) (k j : ℤ) (v : V) → j ≢ k → get (insert m k v) j ≡ get m j
  get-insert_ne m k j v n = elim (Bool-cases (eqb_ℤ k j)) [
    | inl e ↦ absurd (n (sym ((eqb_ℤ_iff k j).0 e)))
    | inr e ↦ ground (arith, get-insert m k j v)
  ]
