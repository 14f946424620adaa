-- ===== src/Snapshot/Ranking.antt =====
-- src/price_levels.rs: the levels of a side from best to worst, of which a snapshot shows the first.
use rustbook.Prelude.{
  ℕ, zero, suc, ◌+◌, ◌≡◌, ◌⊎◌, inl, inr, subst, List, [], ◌∷◌, some, ◌<ℤ◌, arith, All, length, take,
}
use mathlib.Core.List.{reverse_aux}
use rustbook.Prelude.BTreeMap
use rustbook.Prelude.BTreeMap.{BTreeMap, IsSorted, Above}
use rustbook.Types.{Price, Side, buy, sell}
use rustbook.Level.{Level}
use rustbook.PriceLevels.{best_to_worst}

-- `a` is a strictly better price than `b` on the side.
abbrev pub Better : Side → Price → Price → Type 0
Better buy a b = b <ℤ a
Better sell a b = a <ℤ b

-- Each entry of a list has a strictly better price than all that follow.
abbrev pub Ranked : Side → List (Price × Level) → Type 0
Ranked side [] = Unit
Ranked side (e ∷ es) = All (λ (d : Price × Level). Better side e.0 d.0) es × Ranked side es

Above-All : (j : Price) (m : BTreeMap Level) → Above j m → All (λ (d : Price × Level). j <ℤ d.0) m
Above-All j [] a = tt
Above-All j ((k, w) ∷ m) a = (a.0, Above-All j m a.1)

Ranked-sell : (m : BTreeMap Level) → IsSorted m → Ranked sell m
Ranked-sell [] s = tt
Ranked-sell ((k, w) ∷ m) s = (Above-All k m s.0, Ranked-sell m s.1)

-- All entries of `acc` are below all of `m`.
abbrev Apart : List (Price × Level) → BTreeMap Level → Type 0
Apart acc m = All (λ (d : Price × Level). All (λ (e : Price × Level). e.0 <ℤ d.0) acc) m

Apart-push :
    (j : Price) (w : Level) (acc : List (Price × Level)) (m : BTreeMap Level)
    → Above j m
    → Apart acc m
    → Apart ((j, w) ∷ acc) m
Apart-push j w acc [] a h = tt
Apart-push j w acc ((k, v) ∷ m) a h = ((a.0, h.0), Apart-push j w acc m a.1 h.1)

Ranked-buy :
    (m : BTreeMap Level) (acc : List (Price × Level))
    → IsSorted m
    → Apart acc m
    → Ranked buy acc
    → Ranked buy (reverse_aux m acc)
Ranked-buy [] acc s a r = r
Ranked-buy ((j, w) ∷ m) acc s a r =
    Ranked-buy m ((j, w) ∷ acc) s.1 (Apart-push j w acc m s.0 a.1) (a.0, r)

Apart-nil : (m : BTreeMap Level) → Apart [] m
Apart-nil [] = tt
Apart-nil (e ∷ m) = (tt, Apart-nil m)

pub Ranked-best_to_worst :
    (side : Side) (m : BTreeMap Level) → IsSorted m → Ranked side (best_to_worst side m)
unfolding best_to_worst
Ranked-best_to_worst buy m s = Ranked-buy m [] s (Apart-nil m) tt
Ranked-best_to_worst sell m s = Ranked-sell m s

pub All-reverse_aux {ℓ κ} :
    {A : Type ℓ} (P : A → Type κ) (xs acc : List A)
    → All P xs
    → All P acc
    → All P (reverse_aux xs acc)
All-reverse_aux P [] acc h k = k
All-reverse_aux P (x ∷ xs) acc h k = All-reverse_aux P xs (x ∷ acc) h.1 (h.0, k)

pub length-reverse_aux {ℓ} :
    {A : Type ℓ} (xs acc : List A) → length (reverse_aux xs acc) ≡ length xs + length acc
length-reverse_aux [] acc = omega arith
length-reverse_aux (x ∷ xs) acc = omega (arith, length-reverse_aux xs (x ∷ acc))

pub All-take {ℓ κ} :
    {A : Type ℓ} (P : A → Type κ) (n : ℕ) (xs : List A) → All P xs → All P (take n xs)
All-take P zero xs h = tt
All-take P (suc n) [] h = tt
All-take P (suc n) (x ∷ xs) h = (h.0, All-take P n xs h.1)

pub Ranked-take :
    (side : Side) (n : ℕ) (es : List (Price × Level)) → Ranked side es → Ranked side (take n es)
Ranked-take side zero es h = tt
Ranked-take side (suc n) [] h = tt
Ranked-take side (suc n) (e ∷ es) h =
    (All-take (λ (d : Price × Level). Better side e.0 d.0) n es h.0, Ranked-take side n es h.1)

-- The price is the key of an entry.
abbrev pub HasKey : List (Price × Level) → Price → Type 0
HasKey [] p = ⊥
HasKey (e ∷ es) p = (e.0 ≡ p) ⊎ HasKey es p

All-HasKey :
    (side : Side) (k : Price) (es : List (Price × Level)) (p : Price)
    → All (λ (d : Price × Level). Better side k d.0) es
    → HasKey es p
    → Better side k p
All-HasKey side k [] p a h = absurd h
All-HasKey side k (e ∷ es) p a (inl same) = subst (Better side k) same a.0
All-HasKey side k (e ∷ es) p a (inr h) = All-HasKey side k es p a.1 h

-- A price of a ranked list is among the first ones, or all of these are better.
pub HasKey-take :
    (side : Side) (n : ℕ) (es : List (Price × Level)) (p : Price)
    → Ranked side es
    → HasKey es p
    → HasKey (take n es) p ⊎ All (λ (d : Price × Level). Better side d.0 p) (take n es)
HasKey-take side zero es p r h = inr tt
HasKey-take side (suc n) [] p r h = absurd h
HasKey-take side (suc n) (e ∷ es) p r (inl same) = inl (inl same)
HasKey-take side (suc n) (e ∷ es) p r (inr h) = elim (HasKey-take side n es p r.1 h) [
  | inl there ↦ inl (inr there)
  | inr worse ↦ inr (All-HasKey side e.0 es p r.0 h, worse)
]

HasKey-reverse_aux :
    (m acc : List (Price × Level)) (p : Price)
    → HasKey m p ⊎ HasKey acc p
    → HasKey (reverse_aux m acc) p
HasKey-reverse_aux [] acc p (inl h) = absurd h
HasKey-reverse_aux [] acc p (inr h) = h
HasKey-reverse_aux (e ∷ m) acc p (inl (inl same)) =
    HasKey-reverse_aux m (e ∷ acc) p (inr (inl same))
HasKey-reverse_aux (e ∷ m) acc p (inl (inr h)) = HasKey-reverse_aux m (e ∷ acc) p (inl h)
HasKey-reverse_aux (e ∷ m) acc p (inr h) = HasKey-reverse_aux m (e ∷ acc) p (inr (inr h))

get-HasKey : (m : BTreeMap Level) (p : Price) (l : Level) → BTreeMap.get m p ≡ some l → HasKey m p
unfolding BTreeMap.get
get-HasKey [] p l h = absurd cc
get-HasKey ((k, w) ∷ m) p l h = ground (arith, get-HasKey m p l)

-- Every price that a map holds is among its entries from best to worst.
pub HasKey-best_to_worst :
    (side : Side) (m : BTreeMap Level) (p : Price) (l : Level)
    → BTreeMap.get m p ≡ some l
    → HasKey (best_to_worst side m) p
unfolding best_to_worst
HasKey-best_to_worst buy m p l h = HasKey-reverse_aux m [] p (inl (get-HasKey m p l h))
HasKey-best_to_worst sell m p l h = get-HasKey m p l h
