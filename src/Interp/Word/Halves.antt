-- ===== src/Interp/Word/Halves.antt =====
-- The product by halves against the product of 128 bits.
use native.Mathlib.Nat.{mul-add, add-mul, mul-le-mul, mul_left_comm, mul_assoc, div-add-mod}
use dromajo.Prelude.{
  ℕ, ◌+◌, ◌-◌, ◌*◌, ◌/◌, ◌%◌, ◌^◌, ◌≤◌, ◌<◌, ◌≡◌, refl, ap, ◌∙◌, sym, bit_or, arith, if◌then◌else◌,
}
use dromajo.Prelude.Bits.{test_bit, bit_or-disjoint}
use dromajo.Interp.Word.{sext128, mulhu64, mulhsu64, mulhu_halves, mulhu_portable, mulhsu_portable}

-- The four partial products add up to the product.
split_product :
    (a0 a1 b0 b1 : ℕ)
    → (2 ^ 32 * a1 + a0) * (2 ^ 32 * b1 + b0)
      ≡ 2 ^ 64 * (a1 * b1) + 2 ^ 32 * (a0 * b1) + 2 ^ 32 * (a1 * b0) + a0 * b0
split_product a0 a1 b0 b1 = ground (
  arith,
  add-mul (2 ^ 32 * a1) a0 (2 ^ 32 * b1 + b0),
  mul-add (2 ^ 32 * a1) (2 ^ 32 * b1) b0,
  mul-add a0 (2 ^ 32 * b1) b0,
  mul_left_comm a0 (2 ^ 32) b1,
  mul_assoc (2 ^ 32) a1 (2 ^ 32 * b1),
  mul_left_comm a1 (2 ^ 32) b1,
  mul_assoc (2 ^ 32) a1 b0,
)

small_product : (x y : ℕ) → x < 2 ^ 32 → y < 2 ^ 32 → x * y ≤ (2 ^ 32 - 1) * (2 ^ 32 - 1)
small_product x y p q = mul-le-mul {n₂ = 2 ^ 32 - 1} {m₂ = 2 ^ 32 - 1} (omega arith) (omega arith)

assemble : (h l : ℕ) → h < 2 ^ 32 → l < 2 ^ 32 → bit_or (h * 2 ^ 32 % 2 ^ 64) l ≡ h * 2 ^ 32 + l
assemble h l p q =
    let e : h * 2 ^ 32 % 2 ^ 64 ≡ h * 2 ^ 32 = omega arith in
    ap (λ (n : ℕ). bit_or n l) e ∙ bit_or-disjoint 32 h l q

-- The carries of the middle columns.
columns :
    (x y z w p q r : ℕ)
    → p < 2 ^ 32
    → q < 2 ^ 32
    → r < 2 ^ 32
    → (2 ^ 64 * w + 2 ^ 32 * (2 ^ 32 * y + p) + 2 ^ 32 * (2 ^ 32 * z + q) + (2 ^ 32 * x + r))
        / 2 ^ 64
      ≡ (x + p + q) / 2 ^ 32 + y + z + w
columns x y z w p q r hp hq hr = omega arith

-- No carry is lost, for partial products of 32-bit halves: `s` is the sum of the middle column.
no_carry :
    (s y z w : ℕ)
    → s ≤ 3 * (2 ^ 32 - 1)
    → y ≤ 2 ^ 32 - 2
    → z ≤ 2 ^ 32 - 2
    → w ≤ (2 ^ 32 - 1) * (2 ^ 32 - 1)
    → let c = (s / 2 ^ 32 + y + z + w % 2 ^ 32) % 2 ^ 64 in
      (c / 2 ^ 32 + w / 2 ^ 32) % 2 ^ 32 * 2 ^ 32 + c % 2 ^ 32 ≡ s / 2 ^ 32 + y + z + w
no_carry s y z w p q r t =
    let c = (s / 2 ^ 32 + y + z + w % 2 ^ 32) in
    let small : c % 2 ^ 64 ≡ c = omega arith in
    let high : (c / 2 ^ 32 + w / 2 ^ 32) % 2 ^ 32 ≡ c / 2 ^ 32 + w / 2 ^ 32 = omega arith in
    rw (small, high) (omega arith)

halves :
    (r00 r01 r10 r11 : ℕ)
    → r00 ≤ (2 ^ 32 - 1) * (2 ^ 32 - 1)
    → r01 ≤ (2 ^ 32 - 1) * (2 ^ 32 - 1)
    → r10 ≤ (2 ^ 32 - 1) * (2 ^ 32 - 1)
    → r11 ≤ (2 ^ 32 - 1) * (2 ^ 32 - 1)
    → mulhu_halves r00 r01 r10 r11 ≡ (2 ^ 64 * r11 + 2 ^ 32 * r01 + 2 ^ 32 * r10 + r00) / 2 ^ 64
unfolding mulhu_halves
halves r00 r01 r10 r11 p q r s =
    let sum = r00 / 2 ^ 32 + r01 % 2 ^ 32 + r10 % 2 ^ 32 in
    let small : sum % 2 ^ 64 ≡ sum = omega arith in
    let c = (sum / 2 ^ 32 + r01 / 2 ^ 32 + r10 / 2 ^ 32 + r11 % 2 ^ 32) % 2 ^ 64 in
    let whole =
      columns (r00 / 2 ^ 32) (r01 / 2 ^ 32) (r10 / 2 ^ 32) r11 (r01 % 2 ^ 32) (r10 % 2 ^ 32)
        (r00 % 2 ^ 32) (omega arith) (omega arith) (omega arith) in
    rw small (
      assemble ((c / 2 ^ 32 + r11 / 2 ^ 32) % 2 ^ 32) (c % 2 ^ 32) (omega arith) (omega arith)
      ∙ no_carry sum (r01 / 2 ^ 32) (r10 / 2 ^ 32) r11 (omega arith) (omega arith) (omega arith) s
      ∙ sym whole
      ∙ rw (div-add-mod r00 (2 ^ 32), div-add-mod r01 (2 ^ 32), div-add-mod r10 (2 ^ 32)) refl)

unwrapped : (x : ℕ) → x ≤ (2 ^ 32 - 1) * (2 ^ 32 - 1) → x % 2 ^ 64 ≡ x
unwrapped x p = omega arith

no_wrap : (a b : ℕ) → a < 2 ^ 64 → b < 2 ^ 64 → a * b % 2 ^ 128 ≡ a * b
no_wrap a b wa wb =
    let top =
      mul-le-mul {n₁ = a} {m₁ = b} {n₂ = 2 ^ 64 - 1} {m₂ = 2 ^ 64 - 1} (omega arith)
        (omega arith) in
    omega (arith, top)

-- The product by halves of two 64-bit words is the upper half of their product in 128 bits.
pub mulhu_portable-mulhu64 : (a b : ℕ) → a < 2 ^ 64 → b < 2 ^ 64 → mulhu_portable a b ≡ mulhu64 a b
unfolding mulhu_portable mulhu64
mulhu_portable-mulhu64 a b wa wb =
    let a0 = a % 2 ^ 32 in
    let a1 = a / 2 ^ 32 in
    let b0 = b % 2 ^ 32 in
    let b1 = b / 2 ^ 32 in
    let p00 = small_product a0 b0 (omega arith) (omega arith) in
    let p01 = small_product a0 b1 (omega arith) (omega arith) in
    let p10 = small_product a1 b0 (omega arith) (omega arith) in
    let p11 = small_product a1 b1 (omega arith) (omega arith) in
    let whole : a * b ≡ 2 ^ 64 * (a1 * b1) + 2 ^ 32 * (a0 * b1) + 2 ^ 32 * (a1 * b0) + a0 * b0 =
      ap (λ (n : ℕ). n * b) (sym (div-add-mod a (2 ^ 32)))
      ∙ ap (λ (n : ℕ). (2 ^ 32 * a1 + a0) * n) (sym (div-add-mod b (2 ^ 32)))
      ∙ split_product a0 a1 b0 b1 in
    rw
      (
        unwrapped (a0 * b0) p00,
        unwrapped (a0 * b1) p01,
        unwrapped (a1 * b0) p10,
        unwrapped (a1 * b1) p11,
        no_wrap a b wa wb,
      )
      (halves (a0 * b0) (a0 * b1) (a1 * b0) (a1 * b1) p00 p01 p10 p11
        ∙ ap (λ (n : ℕ). n / 2 ^ 64) (sym whole))

extended : (a b : ℕ) → (a + (2 ^ 128 - 2 ^ 64)) * b ≡ a * b + (2 ^ 128 - 2 ^ 64) * b
extended a b = add-mul a (2 ^ 128 - 2 ^ 64) b

-- What a sign extension of the first factor takes from the upper half.
upper_half :
    (p b : ℕ)
    → b < 2 ^ 64
    → p < 2 ^ 128
    → (p / 2 ^ 64 + (2 ^ 64 - b)) % 2 ^ 64 ≡ (p + (2 ^ 128 - 2 ^ 64) * b) % 2 ^ 128 / 2 ^ 64
upper_half p b wb small = omega arith

-- The portable signed-by-unsigned product takes the first factor itself from the upper half where
-- the 128-bit product takes the second: for a negative first factor they differ by the
-- factors' difference, and else they are equal. Both factors are 64-bit words.
pub mulhsu_portable-mulhsu64 :
    (a b : ℕ)
    → a < 2 ^ 64
    → b < 2 ^ 64
    → (mulhsu_portable a b + (if test_bit a 63 then a else 0)) % 2 ^ 64
      ≡ (mulhsu64 a b + (if test_bit a 63 then b else 0)) % 2 ^ 64
unfolding mulhsu_portable mulhsu64 sext128 mulhu64
mulhsu_portable-mulhsu64 a b wa wb = ground (
  arith,
  mulhu_portable-mulhu64 a b wa wb,
  extended a b,
  upper_half (a * b) b wb,
  no_wrap a b wa wb,
)
