-- ===== src/Itch/Fields.antt =====
-- src/itch.rs: the fields of a payload that is long enough, read without a panic.
use rustbook.Prelude.{
  ℕ, zero, suc, ◌+◌, ◌*◌, ◌-◌, ◌==◌, leb, true, List, [], ◌∷◌, some, length, get_elem?, take, drop,
  ◌≡◌, All, ◌<◌, ◌≤◌, ◌^◌, refl, Returns, >>=-Returns, arith, length-take, length-drop, subst,
}
use rustbook.Itch.{slice, index, be_loop, be_at, read_u48_be, u48_at}

abbrev pub AreBytes : List ℕ → Type 0
AreBytes bs = All (λ b. b < 256) bs

All-take : (n : ℕ) (bs : List ℕ) → AreBytes bs → AreBytes (take n bs)
All-take zero bs a = tt
All-take (suc n) [] a = tt
All-take (suc n) (b ∷ bs) a = (a.0, All-take n bs a.1)

All-drop : (n : ℕ) (bs : List ℕ) → AreBytes bs → AreBytes (drop n bs)
All-drop zero bs a = a
All-drop (suc n) [] a = tt
All-drop (suc n) (b ∷ bs) a = All-drop n bs a.1

-- A slice in range is of its length, and of bytes.
pub slice-Returns :
    (buf : List ℕ) (a b : ℕ)
    → AreBytes buf
    → a ≤ b
    → b ≤ length buf
    → Returns (λ s. (length s ≡ b - a) × AreBytes s) (slice buf a b)
unfolding slice
slice-Returns buf a b all le fits =
    let first : leb a b ≡ true = ground (arith, le) in
    let second : leb b (length buf) ≡ true = ground (arith, fits) in
    let size : length (take (b - a) (drop a buf)) ≡ b - a =
      omega (arith, le, fits, length-take (b - a) (drop a buf), length-drop a buf) in
    rw (slice, first, second) (size, All-take (b - a) (drop a buf) (All-drop a buf all))

be_loop-lt :
    (acc k : ℕ) (bs : List ℕ) → AreBytes bs → acc < 256 ^ k → be_loop acc bs < 256 ^ (k + length bs)
be_loop-lt acc k [] all h = subst (λ n. acc < 256 ^ n) (omega arith) h
be_loop-lt acc k (b ∷ bs) all h =
    subst (λ n. be_loop (acc * 256 + b) bs < 256 ^ n) (omega arith)
      (be_loop-lt (acc * 256 + b) (suc k) bs all.1 (omega (arith, h, all.0)))

be_loop-bound :
    (width : ℕ) (bs : List ℕ) → AreBytes bs → length bs ≡ width → be_loop 0 bs < 256 ^ width
be_loop-bound width bs all size =
    subst (λ n. be_loop 0 bs < 256 ^ n) (omega (arith, size)) (be_loop-lt 0 0 bs all (omega arith))

get_elem?-within : (bs : List ℕ) (i : ℕ) → i < length bs → (b : ℕ) × (get_elem? bs i ≡ some b)
get_elem?-within [] i h = elim h [ ]
get_elem?-within (b ∷ bs) zero h = (b, refl)
get_elem?-within (b ∷ bs) (suc i) h = get_elem?-within bs i (omega arith)

-- The fields of a payload, read in range.
module _ (buf : List ℕ) (all : AreBytes buf) where
  pub be_at-Returns :
      (width a b : ℕ)
      → a + width ≡ b
      → b ≤ length buf
      → Returns (λ n. n < 256 ^ width) (be_at width buf a b)
  unfolding be_at
  be_at-Returns width a b fits le =
      >>=-Returns _ _ (slice buf a b) _ (slice-Returns buf a b all (omega arith) le)
        (λ s (size, ok).
          let full : length s ≡ width = omega (arith, fits, size) in
          let test : (length s == width) ≡ true = ground (arith, full) in
          rw test (be_loop-bound width s ok full))

  pub u48_at-Returns :
      (a b : ℕ) → a + 6 ≡ b → b ≤ length buf → Returns (λ n. n < 256 ^ 6) (u48_at buf a b)
  unfolding u48_at read_u48_be
  u48_at-Returns a b fits le =
      >>=-Returns _ _ (slice buf a b) _ (slice-Returns buf a b all (omega arith) le)
        (λ s (size, ok).
          let full : length s ≡ 6 = omega (arith, fits, size) in
          let test : (length s == 6) ≡ true = ground (arith, full) in
          rw (read_u48_be, test) (be_loop-bound 6 s ok full))

  pub index-Returns : (i : ℕ) → i < length buf → Returns (λ n. Unit {0}) (index buf i)
  unfolding index
  index-Returns i h = let (b, e) = get_elem?-within buf i h in rw (index, e) tt
