-- ===== src/Alu.antt =====
-- Division, remainder and the carry-less products of include/dromajo_template.h at XLEN = 64. A
-- register is a word below 2 ^ 64; a signed operand is its two's complement.
pub mod Carryless
pub mod Division
use dromajo.Prelude.{
  ℕ, zero, suc, ◌+◌, ◌-◌, ◌*◌, ◌/◌, ◌%◌, ◌^◌, ◌&&◌, Bool, true, false, xor, ◌==◌, ltb,
  if◌then◌else◌, bit_xor,
}
use dromajo.Prelude.Bits.{test_bit}

-- The loops of the carry-less products, from bit `i` with `n` bits left.
unfoldable pub clmul_from : ℕ → ℕ → ℕ → ℕ → ℕ → ℕ
clmul_from v1 v2 zero i val = val
clmul_from v1 v2 (suc n) i val =
    clmul_from v1 v2 n (suc i) (if test_bit v2 i then bit_xor val (v1 * 2 ^ i % 2 ^ 64) else val)

unfoldable pub clmul64 : ℕ → ℕ → ℕ
clmul64 v1 v2 = clmul_from v1 v2 64 0 0

unfoldable pub clmulh_from : ℕ → ℕ → ℕ → ℕ → ℕ → ℕ
clmulh_from v1 v2 zero i val = val
clmulh_from v1 v2 (suc n) i val =
    clmulh_from v1 v2 n (suc i) (if test_bit v2 i then bit_xor val (v1 / 2 ^ (64 - i)) else val)

unfoldable pub clmulh64 : ℕ → ℕ → ℕ
clmulh64 v1 v2 = clmulh_from v1 v2 63 1 0

unfoldable pub clmulr_from : ℕ → ℕ → ℕ → ℕ → ℕ → ℕ
clmulr_from v1 v2 zero i val = val
clmulr_from v1 v2 (suc n) i val =
    clmulr_from v1 v2 n (suc i) (if test_bit v2 i then bit_xor val (v1 / 2 ^ (64 - i - 1)) else val)

unfoldable pub clmulr64 : ℕ → ℕ → ℕ
clmulr64 v1 v2 = clmulr_from v1 v2 64 0 0

-- The sign of a signed word, its absolute value, and the word of a value with a sign.
abbrev pub negative : ℕ → Bool
negative a = test_bit a 63

unfoldable pub magnitude : ℕ → ℕ
magnitude a = if negative a then 2 ^ 64 - a else a

unfoldable pub signed : Bool → ℕ → ℕ
signed neg m = if neg then (2 ^ 64 - m) % 2 ^ 64 else m % 2 ^ 64

-- The `/` and `%` of C on signed words: truncated, the remainder with the sign of the dividend.
unfoldable pub quotient : ℕ → ℕ → ℕ
quotient a b = signed (xor (negative a) (negative b)) (magnitude a / magnitude b)

unfoldable pub remainder : ℕ → ℕ → ℕ
remainder a b = signed (negative a) (magnitude a % magnitude b)

unfoldable pub div64 : ℕ → ℕ → ℕ
div64 a b =
    if b == 0 then 2 ^ 64 - 1 else if a == 2 ^ 63 && b == 2 ^ 64 - 1 then a else quotient a b

unfoldable pub rem64 : ℕ → ℕ → ℕ
rem64 a b = if b == 0 then a else if a == 2 ^ 63 && b == 2 ^ 64 - 1 then 0 else remainder a b
