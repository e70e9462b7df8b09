-- ===== src/Alu/Carryless.antt =====
-- The three carry-less products against the whole product of 127 bits.
use dromajo.Prelude.{
  ℕ, zero, suc, ◌+◌, ◌-◌, ◌*◌, ◌/◌, ◌%◌, ◌^◌, ◌<◌, ◌≡◌, refl, ◌∙◌, sym, ◌&&◌, Bool, false, xor, leb,
  if◌then◌else◌, bit_xor, arith,
}
use dromajo.Prelude.Bits.{
  test_bit, test_bit-xor, test_bit-shr, test_bit-shl, test_bit-mod, test_bit-zero, test_bit_above,
}
use dromajo.Alu.{clmul_from, clmul64, clmulh_from, clmulh64, clmulr_from, clmulr64}

-- Bit `k` of the product of two polynomials over bits `i` and up of the second, `n` of them.
unfoldable pub product_bit : ℕ → ℕ → ℕ → ℕ → ℕ → Bool
product_bit v1 v2 zero i k = false
product_bit v1 v2 (suc n) i k =
    xor (test_bit v2 i && (leb i k && test_bit v1 (k - i))) (product_bit v1 v2 n (suc i) k)

xor_assoc : (a b c : Bool) → xor (xor a b) c ≡ xor a (xor b c)
unfolding xor
xor_assoc a b c = ground arith

clmul_from_bit :
    (v1 v2 n i val k : ℕ)
    → k < 64
    → test_bit (clmul_from v1 v2 n i val) k ≡ xor (test_bit val k) (product_bit v1 v2 n i k)
unfolding clmul_from product_bit xor
clmul_from_bit v1 v2 zero i val k lt = ground arith
clmul_from_bit v1 v2 (suc n) i val k lt = ground (
  arith,
  clmul_from_bit v1 v2 n (suc i) (if test_bit v2 i then bit_xor val (v1 * 2 ^ i % 2 ^ 64) else val)
      k lt,
  test_bit-xor val (v1 * 2 ^ i % 2 ^ 64) k,
  test_bit-mod 64 (v1 * 2 ^ i) k,
  test_bit-shl i v1 k,
)

clmulh_from_bit :
    (v1 v2 n i val k : ℕ)
    → i + n ≡ 64
    → test_bit (clmulh_from v1 v2 n i val) k ≡ xor (test_bit val k) (product_bit v1 v2 n i (64 + k))
unfolding clmulh_from product_bit xor
clmulh_from_bit v1 v2 zero i val k e = ground arith
clmulh_from_bit v1 v2 (suc n) i val k e =
    let place : 64 - i + k ≡ 64 + k - i = omega arith in
    ground (
      arith,
      clmulh_from_bit v1 v2 n (suc i)
          (if test_bit v2 i then bit_xor val (v1 / 2 ^ (64 - i)) else val) k,
      test_bit-xor val (v1 / 2 ^ (64 - i)) k,
      test_bit-shr (64 - i) v1 k,
      place,
    )

clmulr_from_bit :
    (v1 v2 n i val k : ℕ)
    → i + n ≡ 64
    → test_bit (clmulr_from v1 v2 n i val) k ≡ xor (test_bit val k) (product_bit v1 v2 n i (63 + k))
unfolding clmulr_from product_bit xor
clmulr_from_bit v1 v2 zero i val k e = ground arith
clmulr_from_bit v1 v2 (suc n) i val k e =
    let place : 64 - i - 1 + k ≡ 63 + k - i = omega arith in
    ground (
      arith,
      clmulr_from_bit v1 v2 n (suc i)
          (if test_bit v2 i then bit_xor val (v1 / 2 ^ (64 - i - 1)) else val) k,
      test_bit-xor val (v1 / 2 ^ (64 - i - 1)) k,
      test_bit-shr (64 - i - 1) v1 k,
      place,
    )

product_step :
    (v1 v2 n i k : ℕ)
    → product_bit v1 v2 (suc n) i k
      ≡ xor (test_bit v2 i && (leb i k && test_bit v1 (k - i))) (product_bit v1 v2 n (suc i) k)
unfolding product_bit
product_step v1 v2 n i k = refl

xor-false : (a : Bool) (b : Bool) → a ≡ false → xor a b ≡ b
unfolding xor
xor-false a b h = ground arith

-- The product has no bit of the first factor's above its width.
first_term :
    (v1 v2 k : ℕ) → v1 < 2 ^ 64 → product_bit v1 v2 64 0 (64 + k) ≡ product_bit v1 v2 63 1 (64 + k)
first_term v1 v2 k w =
    let same : 64 + k - 0 ≡ 64 + k = omega arith in
    let off : test_bit v1 (64 + k - 0) ≡ false =
      rw same (test_bit_above 64 v1 (64 + k) w (omega arith)) in
    product_step v1 v2 63 0 (64 + k)
    ∙ xor-false (test_bit v2 0 && (leb 0 (64 + k) && test_bit v1 (64 + k - 0)))
        (product_bit v1 v2 63 1 (64 + k)) (ground (arith, off))

from_zero : (x k : ℕ) (b : Bool) → test_bit x k ≡ xor (test_bit 0 k) b → test_bit x k ≡ b
from_zero x k b h = h ∙ xor-false (test_bit 0 k) b (test_bit-zero k)

-- The coefficient of a power of the carry-less product of two words.
abbrev pub coefficient : ℕ → ℕ → ℕ → Bool
coefficient v1 v2 k = product_bit v1 v2 64 0 k

-- Bit `k` of the low, high and reversed product is the coefficient of power `k`, `64 + k` and `63 + k`
-- of the whole carry-less product; the first operand is a 64-bit word.
pub clmul64-coefficient :
    (v1 v2 k : ℕ)
    → v1 < 2 ^ 64
    → k < 64
    → (test_bit (clmul64 v1 v2) k ≡ coefficient v1 v2 k)
      × (test_bit (clmulh64 v1 v2) k ≡ coefficient v1 v2 (64 + k))
      × (test_bit (clmulr64 v1 v2) k ≡ coefficient v1 v2 (63 + k))
unfolding clmul64 clmulh64 clmulr64
clmul64-coefficient v1 v2 k w lt = (
  from_zero (clmul64 v1 v2) k (product_bit v1 v2 64 0 k) (clmul_from_bit v1 v2 64 0 0 k lt),
  from_zero (clmulh64 v1 v2) k (product_bit v1 v2 63 1 (64 + k))
        (clmulh_from_bit v1 v2 63 1 0 k refl)
      ∙ sym (first_term v1 v2 k w),
  from_zero (clmulr64 v1 v2) k (product_bit v1 v2 64 0 (63 + k))
      (clmulr_from_bit v1 v2 64 0 0 k refl),
)
