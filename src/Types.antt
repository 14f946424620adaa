-- ===== src/Types.antt =====
-- src/types.rs, src/side.rs, src/tif.rs: prices, quantities, ids, sides and times in force.
-- A `u64` is a number below 2^64, and its arithmetic says where it wraps or saturates. A price is an
-- integer, on which the arithmetic of `i64` wraps; the division of `i64` may panic.
pub mod Wrapping
use rustbook.Prelude.{
  ℕ, ◌+◌, ◌-◌, ◌%◌, ◌^◌, ℤ, pos, negsuc, min, Bool, true, false, ltb, leb, if◌then◌else◌, zero, suc,
  ◌/◌, sub_ℕ, ◌-ℤ◌, eqb_ℤ, ◌&&◌, ◌==◌, Run, done, panicked,
}

abbrev pub Price : Type 0
Price = ℤ

abbrev pub Quantity : Type 0
Quantity = ℕ

abbrev pub Timestamp : Type 0
Timestamp = ℕ

abbrev pub OrderId : Type 0
OrderId = ℕ

abbrev pub TradeId : Type 0
TradeId = ℕ

-- `Price::MAX` and `Price::MIN`.
abbrev pub price_max : Price
price_max = pos (2 ^ 63 - 1)

abbrev pub price_min : Price
price_min = negsuc (2 ^ 63 - 1)

-- `+` on `u64` as a release build runs it.
abbrev pub wrapping_add : ℕ → ℕ → ℕ
wrapping_add a b = (a + b) % 2 ^ 64

-- `-` on `u64` and `usize`, as a release build runs it.
abbrev pub wrapping_sub : ℕ → ℕ → ℕ
wrapping_sub a b = if leb b a then a - b else 2 ^ 64 + a - b

abbrev pub saturating_add : ℕ → ℕ → ℕ
saturating_add a b = min (a + b) (2 ^ 64 - 1)

abbrev pub saturating_sub : ℕ → ℕ → ℕ
saturating_sub a b = a - b

pub data Side : Type 0 where
  buy sell : Side

unfoldable pub opposite : Side → Side
opposite buy = sell
opposite sell = buy

pub data TimeInForce : Type 0 where
  gtc ioc fok : TimeInForce

unfoldable pub can_rest : TimeInForce → Bool
can_rest gtc = true
can_rest ioc = false
can_rest fok = false

unfoldable pub allows_partial : TimeInForce → Bool
allows_partial gtc = true
allows_partial ioc = true
allows_partial fok = false

-- The bit pattern of an integer in 64 bits, and the signed number that a bit pattern stands for:
-- together, what is left of an `i64` result that overflows in a release build.
abbrev pub bits : ℤ → ℕ
bits (pos n) = n % 2 ^ 64
bits (negsuc n) = 2 ^ 64 - 1 - n % 2 ^ 64

abbrev pub as_i64 : ℕ → ℤ
as_i64 n = if ltb n (2 ^ 63) then pos n else negsuc (2 ^ 64 - 1 - n)

abbrev pub wrap_i64 : ℤ → ℤ
wrap_i64 z = as_i64 (bits z)

-- Division by a positive number, rounded towards zero.
abbrev pub div_trunc : ℤ → ℕ → ℤ
div_trunc (pos n) d = pos (n / d)
div_trunc (negsuc n) d = sub_ℕ 0 ((n + 1) / d)

-- `/` on `i64`, which panics on zero and where the quotient overflows.
unfoldable pub div_i64 : ℤ → ℤ → Run ℤ
div_i64 a (pos zero) = panicked
div_i64 a (pos (suc n)) = done (div_trunc a (suc n))
div_i64 a (negsuc n) =
    if eqb_ℤ a price_min && (n == 0) then panicked else done (pos 0 -ℤ div_trunc a (suc n))
