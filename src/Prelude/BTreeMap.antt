-- ===== src/Prelude/BTreeMap.antt =====
-- An ordered map from prices (integers) to values, as an association list in ascending order of
-- its keys: what the code uses of `BTreeMap<Price, _>`.
pub mod Laws
use Prim.Native.Nat.{Ordering}
use mathlib.Core.List.{List, [], ◌∷◌}
use mathlib.Core.Option.{Option, none, some, get_or}
use rustbook.Prelude.Int.{ℤ, ◌<ℤ◌, cmp_ℤ, eqb_ℤ, leb_ℤ}
use rustbook.Prelude.Tests.{if◌then◌else◌}

abbrev pub BTreeMap {ℓ} : Type ℓ → Type ℓ
BTreeMap V = List (ℤ × V)

module _ {ℓ} {V : Type ℓ} where
  unfoldable pub get : BTreeMap V → ℤ → Option V
  get [] k = none
  get ((j, v) ∷ m) k = if eqb_ℤ j k then some v else get m k

  -- A new entry goes before the first larger key; an old one is replaced in place.
  unfoldable pub insert : BTreeMap V → ℤ → V → BTreeMap V
  insert [] k v = (k, v) ∷ []
  insert ((j, w) ∷ m) k v = elim (cmp_ℤ k j) [
    | Ordering.lt ↦ (k, v) ∷ (j, w) ∷ m
    | Ordering.eq ↦ (j, v) ∷ m
    | Ordering.gt ↦ (j, w) ∷ insert m k v
  ]

  unfoldable pub remove : BTreeMap V → ℤ → BTreeMap V
  remove [] k = []
  remove ((j, w) ∷ m) k = if eqb_ℤ j k then m else (j, w) ∷ remove m k

  unfoldable pub first_key : BTreeMap V → Option ℤ
  first_key [] = none
  first_key ((j, w) ∷ m) = some j

  unfoldable pub last_key : BTreeMap V → Option ℤ
  last_key [] = none
  last_key ((j, w) ∷ m) = some (get_or (last_key m) j)

  -- `range(..=hi)` and `range(lo..)`.
  unfoldable pub range_to : BTreeMap V → ℤ → BTreeMap V
  range_to [] hi = []
  range_to ((j, w) ∷ m) hi = if leb_ℤ j hi then (j, w) ∷ range_to m hi else range_to m hi

  unfoldable pub range_from : BTreeMap V → ℤ → BTreeMap V
  range_from [] lo = []
  range_from ((j, w) ∷ m) lo = if leb_ℤ lo j then (j, w) ∷ range_from m lo else range_from m lo

  -- Every key of the map is above `k`, and the keys ascend.
  abbrev pub Above : ℤ → BTreeMap V → Type 0
  Above k [] = Unit
  Above k ((j, w) ∷ m) = (k <ℤ j) × Above k m

  abbrev pub IsSorted : BTreeMap V → Type 0
  IsSorted [] = Unit
  IsSorted ((j, w) ∷ m) = Above j m × IsSorted m
