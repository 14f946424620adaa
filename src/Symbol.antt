-- ===== src/Symbol.antt =====
-- src/types.rs: symbols of at most eight bytes. A string is its bytes in UTF-8; `valid_up_to` stands
-- for `std::str::from_utf8` on a prefix: how many of its bytes are whole characters.
pub mod Text
use rustbook.Prelude.{
  ℕ, ◌-◌, leb, min, ◌==◌, Bool, true, false, if◌then◌else◌, List, [], ◌∷◌, ◌++◌, Option, none, some,
  length, take, replicate, Run, done, panicked,
}

pub record Symbol : Type 0 where
  pub buf : List ℕ
  pub len : ℕ

-- A buffer of eight zero bytes with the bytes copied to its front.
unfoldable pub filled : List ℕ → Symbol
filled s = record { buf = s ++ replicate (8 - length s) 0; len = length s }

unfoldable pub try_new : List ℕ → Option Symbol
unfolding filled
try_new s = if leb (length s) 8 then some (filled s) else none

-- `Symbol::new`.
unfoldable pub new_symbol : List ℕ → Run Symbol
unfolding try_new
new_symbol s = elim (try_new s) [ none ↦ panicked | some sym ↦ done sym ]

unfoldable pub from_str_truncated : (List ℕ → ℕ) → List ℕ → Symbol
unfolding filled
from_str_truncated valid_up_to s =
    let truncated = take (min (length s) 8) s in filled (take (valid_up_to truncated) s)

unfoldable pub as_str : Symbol → List ℕ
as_str sym = take sym.len sym.buf

-- The derived equality.
abbrev pub eqb_bytes : List ℕ → List ℕ → Bool
eqb_bytes [] [] = true
eqb_bytes [] (c ∷ cs) = false
eqb_bytes (b ∷ bs) [] = false
eqb_bytes (b ∷ bs) (c ∷ cs) = if b == c then eqb_bytes bs cs else false

unfoldable pub eqb_symbol : Symbol → Symbol → Bool
eqb_symbol a b = if eqb_bytes a.buf b.buf then a.len == b.len else false
