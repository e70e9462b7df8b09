-- ===== src/Interp/Word/Bounds.antt =====
-- The sizes of the results of the word operations.
use native.Mathlib.Nat.{div-le_self, mod-le, mod-lt, pow-le-pow_right, one-le-pow}
use dromajo.Prelude.{
  ℕ, zero, suc, ◌-◌, ◌*◌, ◌/◌, ◌%◌, ◌^◌, ◌≤◌, ◌<◌, Bool, xor, bit_xor, arith, if◌then◌else◌,
}
use dromajo.Prelude.Bits.{test_bit, sign_extend, bit_xor-lt}
use dromajo.Alu.{
  clmul_from, clmul64, clmulh_from, clmulh64, clmulr_from, clmulr64, signed, quotient, remainder,
  magnitude, div64, rem64,
}
use dromajo.Interp.Word.{
  shift_right_signed, builtin_popcount, builtin_ctz, sext_h64, sext_b64, cpop64, cpopw64, ctz_64,
  clz64, ctzw64, clzw64, divu64, remu64, mulh64, mulhsu64, mulhu64,
}

pow_pos : (n : ℕ) → 0 < 2 ^ n
pow_pos n = omega (arith, one-le-pow n 2)

pub sign_extend-lt : (n v : ℕ) → n ≤ 64 → sign_extend n v < 2 ^ 64
unfolding sign_extend
sign_extend-lt n v h =
    ground (arith, mod-lt v (pow_pos n), pow-le-pow_right {n = 2} (omega arith) h)

pub shift_right_signed-lt : (a n : ℕ) → a < 2 ^ 64 → shift_right_signed 64 a n < 2 ^ 64
unfolding shift_right_signed
shift_right_signed-lt a n h = ground (arith, div-le_self a (2 ^ n))

builtin_popcount-le : (n v : ℕ) → builtin_popcount n v ≤ n
unfolding builtin_popcount
builtin_popcount-le zero v = omega arith
builtin_popcount-le (suc n) v = omega (arith, builtin_popcount-le n (v / 2))

builtin_ctz-le : (n v : ℕ) → builtin_ctz n v ≤ n
unfolding builtin_ctz
builtin_ctz-le zero v = omega arith
builtin_ctz-le (suc n) v = ground (arith, builtin_ctz-le n (v / 2))

pub cpop64-lt : (v : ℕ) → cpop64 v < 2 ^ 64
unfolding cpop64
cpop64-lt v = omega (arith, builtin_popcount-le 64 v)

pub cpopw64-lt : (v : ℕ) → cpopw64 v < 2 ^ 64
unfolding cpopw64
cpopw64-lt v = omega (arith, builtin_popcount-le 32 (v % 2 ^ 32))

pub ctz_64-lt : (v : ℕ) → ctz_64 v < 2 ^ 64
unfolding ctz_64
ctz_64-lt v = ground (arith, builtin_ctz-le 64 v)

pub clz64-lt : (v : ℕ) → clz64 v < 2 ^ 64
unfolding clz64
clz64-lt v = ground (arith, builtin_ctz-le 64 v)

pub ctzw64-lt : (c v : ℕ) → ctzw64 c v < 2 ^ 64
unfolding ctzw64
ctzw64-lt c v = ground (arith, builtin_ctz-le 32 (v % 2 ^ 32), sign_extend-lt 32 c)

pub clzw64-lt : (c v : ℕ) → clzw64 c v < 2 ^ 64
unfolding clzw64
clzw64-lt c v = ground (arith, builtin_ctz-le 32 (v % 2 ^ 32), sign_extend-lt 32 c)

pub sext_h64-lt : (v : ℕ) → sext_h64 v < 2 ^ 64
unfolding sext_h64
sext_h64-lt v = shift_right_signed-lt (v * 2 ^ 48 % 2 ^ 64) 48 (omega arith)

pub sext_b64-lt : (v : ℕ) → sext_b64 v < 2 ^ 64
unfolding sext_b64
sext_b64-lt v = shift_right_signed-lt (v * 2 ^ 56 % 2 ^ 64) 56 (omega arith)

signed-lt : (neg : Bool) (m : ℕ) → signed neg m < 2 ^ 64
unfolding signed
signed-lt neg m = ground arith

pub div64-lt : (a b : ℕ) → a < 2 ^ 64 → div64 a b < 2 ^ 64
unfolding div64 quotient
div64-lt a b h =
    ground (arith, signed-lt (xor (test_bit a 63) (test_bit b 63)) (magnitude a / magnitude b))

pub rem64-lt : (a b : ℕ) → a < 2 ^ 64 → rem64 a b < 2 ^ 64
unfolding rem64 remainder
rem64-lt a b h = ground (arith, signed-lt (test_bit a 63) (magnitude a % magnitude b))

pub divu64-lt : (a b : ℕ) → a < 2 ^ 64 → divu64 a b < 2 ^ 64
unfolding divu64
divu64-lt a b h = ground (arith, div-le_self a b)

pub remu64-lt : (a b : ℕ) → a < 2 ^ 64 → remu64 a b < 2 ^ 64
unfolding remu64
remu64-lt a b h = ground (arith, mod-le a b)

clmul_from-lt : (a b n i v : ℕ) → v < 2 ^ 64 → clmul_from a b n i v < 2 ^ 64
unfolding clmul_from
clmul_from-lt a b zero i v h = h
clmul_from-lt a b (suc n) i v h =
    clmul_from-lt a b n (suc i) (if test_bit b i then bit_xor v (a * 2 ^ i % 2 ^ 64) else v)
      (ground (arith, bit_xor-lt 64 v (a * 2 ^ i % 2 ^ 64) h (omega arith)))

clmulh_from-lt : (a b n i v : ℕ) → a < 2 ^ 64 → v < 2 ^ 64 → clmulh_from a b n i v < 2 ^ 64
unfolding clmulh_from
clmulh_from-lt a b zero i v w h = h
clmulh_from-lt a b (suc n) i v w h =
    let small : a / 2 ^ (64 - i) < 2 ^ 64 = omega (arith, div-le_self a (2 ^ (64 - i))) in
    clmulh_from-lt a b n (suc i) (if test_bit b i then bit_xor v (a / 2 ^ (64 - i)) else v) w
      (ground (arith, bit_xor-lt 64 v (a / 2 ^ (64 - i)) h small))

clmulr_from-lt : (a b n i v : ℕ) → a < 2 ^ 64 → v < 2 ^ 64 → clmulr_from a b n i v < 2 ^ 64
unfolding clmulr_from
clmulr_from-lt a b zero i v w h = h
clmulr_from-lt a b (suc n) i v w h =
    let small : a / 2 ^ (64 - i - 1) < 2 ^ 64 = omega (arith, div-le_self a (2 ^ (64 - i - 1))) in
    clmulr_from-lt a b n (suc i) (if test_bit b i then bit_xor v (a / 2 ^ (64 - i - 1)) else v) w
      (ground (arith, bit_xor-lt 64 v (a / 2 ^ (64 - i - 1)) h small))

pub clmul64-lt :
    (a b : ℕ)
    → a < 2 ^ 64
    → (clmul64 a b < 2 ^ 64) × (clmulh64 a b < 2 ^ 64) × (clmulr64 a b < 2 ^ 64)
unfolding clmul64 clmulh64 clmulr64
clmul64-lt a b h = (
  clmul_from-lt a b 64 0 0 (omega arith),
  clmulh_from-lt a b 63 1 0 h (omega arith),
  clmulr_from-lt a b 64 0 0 h (omega arith),
)

pub mulh64-lt : (a b : ℕ) → (mulh64 a b < 2 ^ 64) × (mulhsu64 a b < 2 ^ 64) × (mulhu64 a b < 2 ^ 64)
unfolding mulh64 mulhsu64 mulhu64
mulh64-lt a b = (omega arith, omega arith, omega arith)
