-- ===== src/Prelude/Bits.antt =====
-- The bits of a word, and what masks do to them.
mod Base
pub use Base.{
  bit_not, test_bit-and, test_bit-or, test_bit_ext, test_bit-not, test_bit-xor, bit_or-lt,
  bit_xor-lt, bit_and-le, test_bit-zero, mul_pow_suc, mod_pow_suc, div_pow_suc, test_bit-shr,
  test_bit-shl, test_bit-mod, test_bit-one, has_bits_sound,
}
unfoldable pub use Base.{test_bit, has_bits}
use Prim.Native.Nat.{ℕ, zero, suc, ◌+◌, ◌-◌, ◌*◌, ◌/◌, ◌%◌, ◌^◌, ◌≤◌, ◌<◌, min, max}
use Prim.Native.Nat.{bit_and, bit_or, bit_xor, bit_and-bitwise}
use mathlib.Core.Path.{◌≡◌, refl, sym, ap, ◌∙◌}
use mathlib.Core.Bool.{Bool, true, false, not, ◌&&◌, ◌||◌, xor}
use native.Mathlib.Nat.{
  pow-suc, mod-eq_of_lt, one-le-pow, pow-le-pow_right, div-div-eq-div-mul, div-add-mod,
}
use native.Mathlib.Omega.{arith}
use dromajo.Prelude.Digits.{and_digit, or_digit, bit_and-zero}
use dromajo.Prelude.Tests.{◌==◌, ltb, leb, if◌then◌else◌}

-- `(old & ~mask) | (val & mask)`: the bits of the mask are written, the others kept.
unfoldable pub merge : ℕ → ℕ → ℕ → ℕ → ℕ
merge w old mask val = bit_or (bit_and old (bit_not w mask)) (bit_and val mask)

pub test_bit-merge :
    (w old mask val i : ℕ)
    → mask < 2 ^ w
    → i < w
    → test_bit (merge w old mask val) i
      ≡ (if test_bit mask i then test_bit val i else test_bit old i)
unfolding merge
test_bit-merge w old mask val i p lt = ground (
  arith,
  test_bit-or (bit_and old (bit_not w mask)) (bit_and val mask) i,
  test_bit-and old (bit_not w mask) i,
  test_bit-and val mask i,
  test_bit-not w mask i p lt,
)

-- A test of one bit of a word.
pub bit_and-pow : (k x : ℕ) → bit_and x (2 ^ k) ≡ (if test_bit x k then 2 ^ k else 0)
unfolding test_bit
bit_and-pow zero x = ground (arith, and_digit x 1, bit_and-zero (x / 2))
bit_and-pow (suc k) x =
    let e : 2 ^ suc k ≡ 2 * 2 ^ k = omega (arith, pow-suc 2 k) in
    let f : 2 * 2 ^ k / 2 ≡ 2 ^ k = omega arith in
    ground (arith, e, f, and_digit x (2 * 2 ^ k), bit_and-pow k (x / 2))

-- The bits of a small number stop at its width.
pub test_bit_above : (w x i : ℕ) → x < 2 ^ w → w ≤ i → test_bit x i ≡ false
unfolding test_bit
test_bit_above zero x i p h = let e : x ≡ 0 = omega arith in rw e (test_bit-zero i)
test_bit_above (suc w) x zero p h = absurd (omega arith)
test_bit_above (suc w) x (suc i) p h =
    test_bit_above w (x / 2) i (omega (arith, pow-suc 2 w)) (omega arith)

-- The low `n` bits of a word, sign-extended to 64 bits.
unfoldable pub sign_extend : ℕ → ℕ → ℕ
unfolding test_bit
sign_extend n v = if test_bit v (n - 1) then v % 2 ^ n + 2 ^ 64 - 2 ^ n else v % 2 ^ n

-- A mask of `k` ones keeps the remainder by `2 ^ k`.
pub bit_and-low : (k x : ℕ) → bit_and x (2 ^ k - 1) ≡ x % 2 ^ k
bit_and-low zero x = let e : 2 ^ 0 - 1 ≡ 0 = omega arith in rw e (omega (arith, bit_and-zero x))
bit_and-low (suc k) x =
    let half : (2 ^ suc k - 1) / 2 ≡ 2 ^ k - 1 = omega (arith, pow-suc 2 k) in
    let last : (2 ^ suc k - 1) % 2 ≡ 1 = omega (arith, pow-suc 2 k, one-le-pow k 2) in
    ground (arith, and_digit x (2 ^ suc k - 1), half, last, bit_and-low k (x / 2), mod_pow_suc x k)

-- The complement of such a mask clears them.
pub bit_and-high :
    (w k x : ℕ) → k ≤ w → x < 2 ^ w → bit_and x (bit_not w (2 ^ k - 1)) ≡ x - x % 2 ^ k
bit_and-high w zero x h p =
    let e : bit_not w (2 ^ 0 - 1) ≡ 2 ^ w - 1 = omega arith in
    rw e (omega (arith, bit_and-low w x, mod-eq_of_lt p))
bit_and-high zero (suc k) x h p = absurd (omega arith)
bit_and-high (suc w) (suc k) x h p =
    let half : bit_not (suc w) (2 ^ suc k - 1) / 2 ≡ bit_not w (2 ^ k - 1) =
      omega (arith, pow-suc 2 k, pow-suc 2 w, one-le-pow k 2) in
    let last : bit_not (suc w) (2 ^ suc k - 1) % 2 ≡ 0 =
      omega (
        arith,
        pow-suc 2 k,
        pow-suc 2 w,
        one-le-pow k 2,
        pow-le-pow_right {n = 2} (omega arith) h,
      ) in
    let ih = bit_and-high w k (x / 2) (omega arith) (omega (arith, pow-suc 2 w)) in
    ground (arith, and_digit x (bit_not (suc w) (2 ^ suc k - 1)), half, last, ih, mod_pow_suc x k)

bit_or_zero : (n x : ℕ) → x ≤ n → bit_or x 0 ≡ x
bit_or_zero n zero h = refl
bit_or_zero zero (suc x) h = absurd (omega arith)
bit_or_zero (suc n) (suc x) h =
    omega (arith, or_digit (suc x) 0, bit_or_zero n (suc x / 2) (omega arith))

-- The or of a high and a low part is their sum.
pub bit_or-disjoint : (k q r : ℕ) → r < 2 ^ k → bit_or (q * 2 ^ k) r ≡ q * 2 ^ k + r
bit_or-disjoint zero q r h =
    let e : r ≡ 0 = omega arith in
    let f : q * 2 ^ 0 ≡ q = omega arith in rw (e, f) (omega (arith, bit_or_zero q q (omega arith)))
bit_or-disjoint (suc k) q r h = ground (
  arith,
  or_digit (q * 2 ^ suc k) r,
  mul_pow_suc q k,
  bit_or-disjoint k q (r / 2) (omega (arith, pow-suc 2 k)),
)

bit_and-zero_left : (b : ℕ) → bit_and 0 b ≡ 0
bit_and-zero_left b = bit_and-bitwise 0 b

pub bit_and-le_left : (w a b : ℕ) → a < 2 ^ w → bit_and a b ≤ a
bit_and-le_left zero a b q =
    let e : a ≡ 0 = omega arith in rw e (omega (arith, and_digit 0 b, bit_and-zero_left b))
bit_and-le_left (suc w) a b q =
    omega (arith, and_digit a b, bit_and-le_left w (a / 2) (b / 2) (omega (arith, pow-suc 2 w)))

bit_or_comm_fuel : (n a b : ℕ) → a ≤ n → b ≤ n → bit_or a b ≡ bit_or b a
bit_or_comm_fuel zero a b p q =
    let e : a ≡ 0 = omega arith in let f : b ≡ 0 = omega arith in rw (e, f) refl
bit_or_comm_fuel (suc n) a b p q = omega (
  arith,
  or_digit a b,
  or_digit b a,
  bit_or_comm_fuel n (a / 2) (b / 2) (omega arith) (omega arith),
)

pub bit_or_comm : (a b : ℕ) → bit_or a b ≡ bit_or b a
bit_or_comm a b = bit_or_comm_fuel (a + b) a b (omega arith) (omega arith)

bit_or_assoc_fuel :
    (n a b c : ℕ) → a ≤ n → b ≤ n → c ≤ n → bit_or (bit_or a b) c ≡ bit_or a (bit_or b c)
bit_or_assoc_fuel zero a b c p q r =
    let e : a ≡ 0 = omega arith in
    let f : b ≡ 0 = omega arith in let g : c ≡ 0 = omega arith in rw (e, f, g) refl
bit_or_assoc_fuel (suc n) a b c p q r =
    let left : bit_or a b / 2 ≡ bit_or (a / 2) (b / 2) = omega (arith, or_digit a b) in
    let right : bit_or b c / 2 ≡ bit_or (b / 2) (c / 2) = omega (arith, or_digit b c) in
    ground (
      arith,
      left,
      right,
      or_digit (bit_or a b) c,
      or_digit a (bit_or b c),
      or_digit a b,
      or_digit b c,
      bit_or_assoc_fuel n (a / 2) (b / 2) (c / 2) (omega arith) (omega arith) (omega arith),
    )

pub bit_or_assoc : (a b c : ℕ) → bit_or (bit_or a b) c ≡ bit_or a (bit_or b c)
bit_or_assoc a b c = bit_or_assoc_fuel (a + b + c) a b c (omega arith) (omega arith) (omega arith)

pub bit_or-zero_left : (b : ℕ) → bit_or 0 b ≡ b
bit_or-zero_left b = bit_or_comm 0 b ∙ bit_or_zero b b (omega arith)

pow_lt : (w k : ℕ) → k < w → 2 ^ k < 2 ^ w
pow_lt w k p = omega (arith, pow-suc 2 k, one-le-pow k 2, pow-le-pow_right {n = 2} (omega arith) p)

-- Clearing one bit of a 32-bit mask.
pub reset_bit :
    (x k i : ℕ)
    → k < 32
    → i < 32
    → test_bit (bit_and x (bit_not 32 (2 ^ k))) i ≡ (if i == k then false else test_bit x i)
reset_bit x k i p lt = ground (
  arith,
  test_bit-and x (bit_not 32 (2 ^ k)) i,
  test_bit-not 32 (2 ^ k) i (pow_lt 32 k p) lt,
  test_bit-one k i,
)
