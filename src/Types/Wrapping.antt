-- ===== src/Types/Wrapping.antt =====
-- src/types.rs: integer arithmetic on numbers that are not negative, and where it does not wrap.
use rustbook.Prelude.{
  ℕ, suc, ◌+◌, ◌-◌, ◌*◌, ◌/◌, ◌≤◌, ◌<◌, ◌^◌, ◌≡◌, refl, pos, ◌+ℤ◌, ◌-ℤ◌, ◌*ℤ◌, arith, done, zero,
}
use rustbook.Types.{wrap_i64, as_i64, div_i64}

pub pos_mul : (m b : ℕ) → pos m *ℤ pos b ≡ pos (m * b)
unfolding ◌*ℤ◌
pos_mul m b = ground arith

pub wrap_i64_pos : (n : ℕ) → n < 2 ^ 63 → wrap_i64 (pos n) ≡ pos n
wrap_i64_pos n h = ground arith

pub pos_add : (m b : ℕ) → pos m +ℤ pos b ≡ pos (m + b)
unfolding ◌+ℤ◌
pos_add m b = ground arith

pub pos_sub : (m b : ℕ) → b ≤ m → pos m -ℤ pos b ≡ pos (m - b)
unfolding ◌-ℤ◌
pos_sub m b h = ground arith

pub as_i64_pos : (n : ℕ) → n < 2 ^ 63 → as_i64 n ≡ pos n
as_i64_pos n h = ground arith

pub div_i64_pos : (a b : ℕ) → 0 < b → div_i64 (pos a) (pos b) ≡ done (pos (a / b))
unfolding div_i64
div_i64_pos a zero h = absurd (omega (arith, h))
div_i64_pos a (suc b) h = refl
