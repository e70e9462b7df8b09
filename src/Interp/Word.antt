-- ===== src/Interp/Word.antt =====
-- The word operations of C that the integer instructions use, on 64-bit words: comparison and
-- right shift of signed words, products, the counts of bits, and division on 32 and 64 bits
-- (the functions of include/dromajo_template.h at XLEN = 64, and 32 for the W instructions).
pub mod Halves
pub mod Bounds
pub mod Counts
use dromajo.Prelude.{
  ℕ, zero, suc, ◌+◌, ◌-◌, ◌*◌, ◌/◌, ◌%◌, ◌^◌, ◌&&◌, Bool, true, false, not, xor, ◌==◌, ltb,
  if◌then◌else◌, bit_or,
}
use dromajo.Prelude.Bits.{test_bit, sign_extend}

-- `(target_long)a < (target_long)b`.
unfoldable pub less_signed : ℕ → ℕ → Bool
less_signed a b = if xor (test_bit a 63) (test_bit b 63) then test_bit a 63 else ltb a b

-- `(intx_t)a >> n`: copies of the sign come in from above.
unfoldable pub shift_right_signed : ℕ → ℕ → ℕ → ℕ
shift_right_signed w a n =
    if test_bit a (w - 1) then 2 ^ w - 1 - (2 ^ w - 1 - a) / 2 ^ n else a / 2 ^ n

-- The product of two words in 128 bits, of which the upper half is kept (HAVE_INT128).
unfoldable pub sext128 : ℕ → ℕ
sext128 a = if test_bit a 63 then a + (2 ^ 128 - 2 ^ 64) else a

unfoldable pub mulh64 : ℕ → ℕ → ℕ
mulh64 a b = sext128 a * sext128 b % 2 ^ 128 / 2 ^ 64

unfoldable pub mulhsu64 : ℕ → ℕ → ℕ
mulhsu64 a b = sext128 a * b % 2 ^ 128 / 2 ^ 64

unfoldable pub mulhu64 : ℕ → ℕ → ℕ
mulhu64 a b = a * b % 2 ^ 128 / 2 ^ 64

unfoldable pub divu64 : ℕ → ℕ → ℕ
divu64 a b = if b == 0 then 2 ^ 64 - 1 else a / b

unfoldable pub remu64 : ℕ → ℕ → ℕ
remu64 a b = if b == 0 then a else a % b

-- The 32-bit words: the sign, the absolute value, and the word of a value with a sign.
unfoldable pub magnitude32 : ℕ → ℕ
magnitude32 a = if test_bit a 31 then 2 ^ 32 - a else a

unfoldable pub signed32 : Bool → ℕ → ℕ
signed32 neg m = if neg then (2 ^ 32 - m) % 2 ^ 32 else m % 2 ^ 32

unfoldable pub div32 : ℕ → ℕ → ℕ
div32 a b =
    if b == 0
    then 2 ^ 32 - 1
    else if a == 2 ^ 31 && b == 2 ^ 32 - 1
    then a
    else signed32 (xor (test_bit a 31) (test_bit b 31)) (magnitude32 a / magnitude32 b)

unfoldable pub rem32 : ℕ → ℕ → ℕ
rem32 a b =
    if b == 0
    then a
    else if a == 2 ^ 31 && b == 2 ^ 32 - 1
    then 0
    else signed32 (test_bit a 31) (magnitude32 a % magnitude32 b)

unfoldable pub divu32 : ℕ → ℕ → ℕ
divu32 a b = if b == 0 then 2 ^ 32 - 1 else a / b

unfoldable pub remu32 : ℕ → ℕ → ℕ
remu32 a b = if b == 0 then a else a % b

-- `__builtin_popcount` of the low `n` bits, and `__builtin_ctz` of a word that has one of them.
unfoldable pub builtin_popcount : ℕ → ℕ → ℕ
builtin_popcount zero val = 0
builtin_popcount (suc n) val = val % 2 + builtin_popcount n (val / 2)

unfoldable pub builtin_ctz : ℕ → ℕ → ℕ
builtin_ctz zero val = 0
builtin_ctz (suc n) val =
    let above = builtin_ctz n (val / 2) in if val % 2 == 1 then 0 else suc above

unfoldable pub cpop64 : ℕ → ℕ
cpop64 val = builtin_popcount 64 val

unfoldable pub cpopw64 : ℕ → ℕ
cpopw64 val = builtin_popcount 32 (val % 2 ^ 32)

unfoldable pub ctz_64 : ℕ → ℕ
ctz_64 val = if val == 0 then 64 else builtin_ctz 64 val

unfoldable pub clz64 : ℕ → ℕ
clz64 val = if val == 0 then 64 else builtin_ctz 64 val

-- The 32-bit counts, with what the builtin gives for zero.
unfoldable pub ctzw64 : ℕ → ℕ → ℕ
ctzw64 ctz_of_zero val =
    if val % 2 ^ 32 == 0 then sign_extend 32 ctz_of_zero else builtin_ctz 32 (val % 2 ^ 32)

unfoldable pub clzw64 : ℕ → ℕ → ℕ
clzw64 ctz_of_zero val =
    if val == 0
    then 32
    else if val % 2 ^ 32 == 0
    then sign_extend 32 ctz_of_zero
    else builtin_ctz 32 (val % 2 ^ 32)

unfoldable pub sext_h64 : ℕ → ℕ
sext_h64 val = shift_right_signed 64 (val * 2 ^ 48 % 2 ^ 64) 48

unfoldable pub sext_b64 : ℕ → ℕ
sext_b64 val = shift_right_signed 64 (val * 2 ^ 56 % 2 ^ 64) 56

-- `mulhu`, `mulh` and `mulhsu` for compilers without 128-bit integers: by halves, then changed
-- for the signs.
unfoldable pub mulhu_halves : ℕ → ℕ → ℕ → ℕ → ℕ
mulhu_halves r00 r01 r10 r11 =
    let c1 = (r00 / 2 ^ 32 + r01 % 2 ^ 32 + r10 % 2 ^ 32) % 2 ^ 64 in
    let c = (c1 / 2 ^ 32 + r01 / 2 ^ 32 + r10 / 2 ^ 32 + r11 % 2 ^ 32) % 2 ^ 64 in
    let r2 = c % 2 ^ 32 in
    let r3 = (c / 2 ^ 32 + r11 / 2 ^ 32) % 2 ^ 32 in bit_or (r3 * 2 ^ 32 % 2 ^ 64) r2

unfoldable pub mulhu_portable : ℕ → ℕ → ℕ
mulhu_portable a b =
    let a0 = a % 2 ^ 32 in
    let a1 = a / 2 ^ 32 in
    let b0 = b % 2 ^ 32 in
    let b1 = b / 2 ^ 32 in
    mulhu_halves (a0 * b0 % 2 ^ 64) (a0 * b1 % 2 ^ 64) (a1 * b0 % 2 ^ 64) (a1 * b1 % 2 ^ 64)

unfoldable pub mulhsu_portable : ℕ → ℕ → ℕ
mulhsu_portable a b =
    let r1 = mulhu_portable a b in if test_bit a 63 then (r1 + (2 ^ 64 - a)) % 2 ^ 64 else r1

unfoldable pub mulh_portable : ℕ → ℕ → ℕ
mulh_portable a b =
    let r1 = mulhsu_portable a b in if test_bit b 63 then (r1 + (2 ^ 64 - b)) % 2 ^ 64 else r1
