-- ===== src/Prelude/Outcome.antt =====
-- What a call of the code may do: return, panic (an `assert!` or `expect` that fails), or, for a
-- loop that the model runs on fuel, still be running when the fuel is used up.
use mathlib.Core.Path.{◌≡◌, refl}

pub data Run {ℓ} (A : Type ℓ) : Type ℓ where
  done : A → Run A
  panicked : Run A
  out_of_fuel : Run A

infixl 5 ◌>>=◌
abbrev pub ◌>>=◌ {ℓ κ} : {A : Type ℓ} {B : Type κ} → Run A → (A → Run B) → Run B
done a >>= f = f a
panicked >>= f = panicked
out_of_fuel >>= f = out_of_fuel

-- Inversion of a bind that returns.
pub >>=-eq-done {ℓ κ} :
    {A : Type ℓ} {B : Type κ} (m : Run A) (f : A → Run B) {b : B}
    → (m >>= f) ≡ done b
    → (a : A) × (m ≡ done a) × (f a ≡ done b)
>>=-eq-done (done a) f h = (a, refl, h)
>>=-eq-done panicked f h = cc
>>=-eq-done out_of_fuel f h = cc

-- The call returns, and its result satisfies `P`.
abbrev pub Returns {ℓ} : {A : Type ℓ} → (A → Type 0) → Run A → Type 0
Returns P (done a) = P a
Returns P panicked = ⊥
Returns P out_of_fuel = ⊥

-- The call does not panic, and its result satisfies `P` if it returns.
abbrev pub Ensures {ℓ} : {A : Type ℓ} → (A → Type 0) → Run A → Type 0
Ensures P (done a) = P a
Ensures P panicked = ⊥
Ensures P out_of_fuel = Unit

-- A bind ensures what its second part ensures of every result of the first.
pub >>=-Ensures {ℓ κ} :
    {A : Type ℓ} {B : Type κ} (P : A → Type 0) (Q : B → Type 0) (m : Run A) (f : A → Run B)
    → Ensures P m
    → ((a : A) → P a → Ensures Q (f a))
    → Ensures Q (m >>= f)
>>=-Ensures P Q (done a) f h k = k a h
>>=-Ensures P Q panicked f h k = h
>>=-Ensures P Q out_of_fuel f h k = tt

pub >>=-Returns {ℓ κ} :
    {A : Type ℓ} {B : Type κ} (P : A → Type 0) (Q : B → Type 0) (m : Run A) (f : A → Run B)
    → Returns P m
    → ((a : A) → P a → Returns Q (f a))
    → Returns Q (m >>= f)
>>=-Returns P Q (done a) f h k = k a h
>>=-Returns P Q panicked f h k = h
>>=-Returns P Q out_of_fuel f h k = h

pub Returns-imp {ℓ} :
    {A : Type ℓ} (P Q : A → Type 0) (m : Run A) → ((a : A) → P a → Q a) → Returns P m → Returns Q m
Returns-imp P Q (done a) k h = k a h
Returns-imp P Q panicked k h = h
Returns-imp P Q out_of_fuel k h = h

pub Ensures-imp {ℓ} :
    {A : Type ℓ} (P Q : A → Type 0) (m : Run A) → ((a : A) → P a → Q a) → Ensures P m → Ensures Q m
Ensures-imp P Q (done a) k h = k a h
Ensures-imp P Q panicked k h = h
Ensures-imp P Q out_of_fuel k h = h

pub Returns->>=-Ensures {ℓ κ} :
    {A : Type ℓ} {B : Type κ} (P : A → Type 0) (Q : B → Type 0) (m : Run A) (f : A → Run B)
    → Returns P m
    → ((a : A) → P a → Ensures Q (f a))
    → Ensures Q (m >>= f)
Returns->>=-Ensures P Q (done a) f h k = k a h
Returns->>=-Ensures P Q panicked f h k = h
Returns->>=-Ensures P Q out_of_fuel f h k = tt

-- A call that returns, and ensures more, returns with both.
pub Returns-and-Ensures {ℓ} :
    {A : Type ℓ} (P Q : A → Type 0) (m : Run A)
    → Returns P m
    → Ensures Q m
    → Returns (λ a. P a × Q a) m
Returns-and-Ensures P Q (done a) h k = (h, k)
Returns-and-Ensures P Q panicked h k = h
Returns-and-Ensures P Q out_of_fuel h k = h

-- A call that returns with both.
pub Returns-and {ℓ} :
    {A : Type ℓ} (P Q : A → Type 0) (m : Run A)
    → Returns P m
    → Returns Q m
    → Returns (λ a. P a × Q a) m
Returns-and P Q (done a) h k = (h, k)
Returns-and P Q panicked h k = h
Returns-and P Q out_of_fuel h k = h

-- The result of the call, if it returns, satisfies `P`; nothing is said of a call that does not.
abbrev pub Keeps {ℓ} : {A : Type ℓ} → (A → Type 0) → Run A → Type 0
Keeps P (done a) = P a
Keeps P panicked = Unit
Keeps P out_of_fuel = Unit

pub >>=-Keeps {ℓ κ} :
    {A : Type ℓ} {B : Type κ} (P : A → Type 0) (Q : B → Type 0) (m : Run A) (f : A → Run B)
    → Keeps P m
    → ((a : A) → P a → Keeps Q (f a))
    → Keeps Q (m >>= f)
>>=-Keeps P Q (done a) f h k = k a h
>>=-Keeps P Q panicked f h k = tt
>>=-Keeps P Q out_of_fuel f h k = tt

pub Keeps-any {ℓ κ} :
    {A : Type ℓ} {B : Type κ} (Q : B → Type 0) (m : Run A) (f : A → Run B)
    → ((a : A) → Keeps Q (f a))
    → Keeps Q (m >>= f)
Keeps-any Q (done a) f k = k a
Keeps-any Q panicked f k = tt
Keeps-any Q out_of_fuel f k = tt
