-- ===== src/Symbol/Text.antt =====
-- src/types.rs: a symbol gives back the text that it is made of.
use rustbook.Prelude.{
  ℕ, ◌-◌, leb, ◌==◌, true, false, List, [], ◌∷◌, ◌++◌, Option, none, some, length, take, replicate,
  ◌≡◌, refl, sym, ap, ◌∙◌, ◌≤◌, ◌<◌, inl, inr, arith, Bool-cases, length-append, length-replicate,
}
use rustbook.Symbol.{Symbol, filled, try_new, as_str, eqb_bytes, eqb_symbol}

take-append : (xs ys : List ℕ) → take (length xs) (xs ++ ys) ≡ xs
take-append [] ys = refl
take-append (x ∷ xs) ys = ap (λ zs. x ∷ zs) (take-append xs ys)

as_str-filled : (s : List ℕ) → as_str (filled s) ≡ s
unfolding as_str filled
as_str-filled s = take-append s _

-- What `try_new` makes of a text.
pub data Made (s : List ℕ) : Option Symbol → Type 0 where
  kept : (sym : Symbol) → length s ≤ 8 → as_str sym ≡ s → length sym.buf ≡ 8 → Made s (some sym)
  refused : 8 < length s → Made s none

-- A symbol is made of a text exactly if this has at most eight bytes; its buffer then has eight
-- bytes, and its text is the one it was made of.
pub try_new-Made : (s : List ℕ) → Made s (try_new s)
unfolding try_new filled
try_new-Made s = elim (Bool-cases (leb (length s) 8)) [
  | inl e ↦
      rw (try_new, e)
        (kept (filled s) (ground (arith, e)) (as_str-filled s) (
          length-append s (replicate (8 - length s) 0)
          ∙ omega (arith, length-replicate {A = ℕ} (8 - length s) 0, fit e)))
  | inr e ↦ rw (try_new, e) (refused (ground (arith, e)))
]
  where
    fit : leb (length s) 8 ≡ true → length s ≤ 8
    fit e = ground arith

eqb_bytes-eq : (a b : List ℕ) → eqb_bytes a b ≡ true → a ≡ b
eqb_bytes-eq [] [] h = refl
eqb_bytes-eq [] (c ∷ cs) h = absurd cc
eqb_bytes-eq (b ∷ bs) [] h = absurd cc
eqb_bytes-eq (b ∷ bs) (c ∷ cs) h = elim (Bool-cases (b == c)) [
  | inl e ↦
      let same : b ≡ c = ground (arith, e) in
      let rest : bs ≡ cs = eqb_bytes-eq bs cs (sym (rw e refl) ∙ h) in λ i. same i ∷ rest i
  | inr e ↦ absurd (clash (sym (rw e refl) ∙ h))
]
  where
    clash : false ≡ true → ⊥
    clash e = cc

eqb_bytes_refl : (a : List ℕ) → eqb_bytes a a ≡ true
eqb_bytes_refl [] = refl
eqb_bytes_refl (b ∷ bs) = let same : (b == b) ≡ true = ground arith in rw same (eqb_bytes_refl bs)

pub eqb_symbol-eq : (a b : Symbol) → eqb_symbol a b ≡ true → a ≡ b
unfolding eqb_symbol
eqb_symbol-eq a b h = elim (Bool-cases (eqb_bytes a.buf b.buf)) [
  | inl e ↦
      let bufs = eqb_bytes-eq a.buf b.buf e in
      let lens : a.len ≡ b.len = ground (arith, e, h) in λ i. record { buf = bufs i; len = lens i }
  | inr e ↦ absurd (ground (arith, e, h))
]

pub eqb_symbol_refl : (a : Symbol) → eqb_symbol a a ≡ true
unfolding eqb_symbol
eqb_symbol_refl a = rw (eqb_bytes_refl a.buf) (ground arith)
