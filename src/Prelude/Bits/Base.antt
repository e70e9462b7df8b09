-- ===== src/Prelude/Bits/Base.antt =====
-- The bits of a word, and what the bit operations do to each of them.
use Prim.Native.Nat.{ℕ, zero, suc, ◌+◌, ◌-◌, ◌*◌, ◌/◌, ◌%◌, ◌^◌, ◌≤◌, ◌<◌, min, max}
use Prim.Native.Nat.{bit_and, bit_or, bit_xor}
use mathlib.Core.Path.{◌≡◌, refl, sym, ap, ◌∙◌}
use mathlib.Core.Bool.{Bool, true, false, not, ◌&&◌, ◌||◌, xor}
use native.Mathlib.Nat.{pow-suc, div-div-eq-div-mul, div-add-mod}
use native.Mathlib.Omega.{arith}
use dromajo.Prelude.Digits.{and_digit, or_digit, xor_digit, differ, bit_and-zero}
use dromajo.Prelude.Tests.{◌==◌, ltb, leb, if◌then◌else◌}

-- Bit `i` of `x`: `(x >> i) & 1`.
unfoldable pub test_bit : ℕ → ℕ → Bool
test_bit x zero = x % 2 == 1
test_bit x (suc i) = test_bit (x / 2) i

-- `~x` of a word of `w` bits.
abbrev pub bit_not : ℕ → ℕ → ℕ
bit_not w x = 2 ^ w - 1 - x

min_bits : (a b : ℕ) → a < 2 → b < 2 → (min a b == 1) ≡ ((a == 1) && (b == 1))
min_bits a b p q = ground arith

max_bits : (a b : ℕ) → a < 2 → b < 2 → (max a b == 1) ≡ ((a == 1) || (b == 1))
max_bits a b p q = ground arith

pub test_bit-and : (a b i : ℕ) → test_bit (bit_and a b) i ≡ (test_bit a i && test_bit b i)
unfolding test_bit
test_bit-and a b zero =
    let e : bit_and a b % 2 ≡ min (a % 2) (b % 2) = omega (arith, and_digit a b) in
    rw e (min_bits (a % 2) (b % 2) (omega arith) (omega arith))
test_bit-and a b (suc i) =
    let e : bit_and a b / 2 ≡ bit_and (a / 2) (b / 2) = omega (arith, and_digit a b) in
    rw e (test_bit-and (a / 2) (b / 2) i)

pub test_bit-or : (a b i : ℕ) → test_bit (bit_or a b) i ≡ (test_bit a i || test_bit b i)
unfolding test_bit
test_bit-or a b zero =
    let e : bit_or a b % 2 ≡ max (a % 2) (b % 2) = omega (arith, or_digit a b) in
    rw e (max_bits (a % 2) (b % 2) (omega arith) (omega arith))
test_bit-or a b (suc i) =
    let e : bit_or a b / 2 ≡ bit_or (a / 2) (b / 2) = omega (arith, or_digit a b) in
    rw e (test_bit-or (a / 2) (b / 2) i)

-- Words that agree on all their bits are equal.
pub test_bit_ext :
    (w a b : ℕ) → a < 2 ^ w → b < 2 ^ w → ((i : ℕ) → i < w → test_bit a i ≡ test_bit b i) → a ≡ b
unfolding test_bit
test_bit_ext zero a b p q h = omega arith
test_bit_ext (suc w) a b p q h =
    let low : a % 2 ≡ b % 2 = ground (arith, h 0 (omega arith)) in
    let high : a / 2 ≡ b / 2 =
      test_bit_ext w (a / 2) (b / 2) (omega (arith, pow-suc 2 w)) (omega (arith, pow-suc 2 w))
        (λ i lt. h (suc i) (omega arith)) in
    omega arith

pub test_bit-not : (w x i : ℕ) → x < 2 ^ w → i < w → test_bit (bit_not w x) i ≡ not (test_bit x i)
unfolding test_bit
test_bit-not zero x i p lt = absurd (omega arith)
test_bit-not (suc w) x zero p lt = ground (arith, pow-suc 2 w)
test_bit-not (suc w) x (suc i) p lt =
    let e : bit_not (suc w) x / 2 ≡ bit_not w (x / 2) = omega (arith, pow-suc 2 w) in
    rw e (test_bit-not w (x / 2) i (omega (arith, pow-suc 2 w)) (omega arith))

differ_bits : (a b : ℕ) → a < 2 → b < 2 → (differ a b == 1) ≡ xor (a == 1) (b == 1)
unfolding xor
differ_bits zero zero p q = refl
differ_bits zero (suc zero) p q = refl
differ_bits (suc zero) zero p q = refl
differ_bits (suc zero) (suc zero) p q = refl
differ_bits (suc (suc a)) b p q = absurd (omega arith)
differ_bits zero (suc (suc b)) p q = absurd (omega arith)
differ_bits (suc zero) (suc (suc b)) p q = absurd (omega arith)

differ-lt : (a b : ℕ) → a < 2 → b < 2 → differ a b < 2
differ-lt zero b p q = q
differ-lt (suc zero) zero p q = omega arith
differ-lt (suc zero) (suc zero) p q = omega arith
differ-lt (suc zero) (suc (suc b)) p q = absurd (omega arith)
differ-lt (suc (suc a)) b p q = absurd (omega arith)

pub test_bit-xor : (a b i : ℕ) → test_bit (bit_xor a b) i ≡ xor (test_bit a i) (test_bit b i)
unfolding test_bit
test_bit-xor a b zero =
    let small : differ (a % 2) (b % 2) < 2 =
      differ-lt (a % 2) (b % 2) (omega arith) (omega arith) in
    let e : bit_xor a b % 2 ≡ differ (a % 2) (b % 2) = omega (arith, xor_digit a b) in
    rw e (differ_bits (a % 2) (b % 2) (omega arith) (omega arith))
test_bit-xor a b (suc i) =
    let small : differ (a % 2) (b % 2) < 2 =
      differ-lt (a % 2) (b % 2) (omega arith) (omega arith) in
    let e : bit_xor a b / 2 ≡ bit_xor (a / 2) (b / 2) = omega (arith, xor_digit a b) in
    rw e (test_bit-xor (a / 2) (b / 2) i)

-- No operation of two words leaves the width.
pub bit_or-lt : (w a b : ℕ) → a < 2 ^ w → b < 2 ^ w → bit_or a b < 2 ^ w
bit_or-lt zero a b p q =
    let a0 : a ≡ 0 = omega arith in let b0 : b ≡ 0 = omega arith in rw (a0, b0) (omega arith)
bit_or-lt (suc w) a b p q = omega (
  arith,
  or_digit a b,
  pow-suc 2 w,
  bit_or-lt w (a / 2) (b / 2) (omega (arith, pow-suc 2 w)) (omega (arith, pow-suc 2 w)),
)

pub bit_xor-lt : (w x y : ℕ) → x < 2 ^ w → y < 2 ^ w → bit_xor x y < 2 ^ w
bit_xor-lt zero x y p q =
    let e : x ≡ 0 = omega arith in let f : y ≡ 0 = omega arith in rw (e, f) (omega arith)
bit_xor-lt (suc w) x y p q = omega (
  arith,
  xor_digit x y,
  pow-suc 2 w,
  differ-lt (x % 2) (y % 2) (omega arith) (omega arith),
  bit_xor-lt w (x / 2) (y / 2) (omega (arith, pow-suc 2 w)) (omega (arith, pow-suc 2 w)),
)

pub bit_and-le : (w a b : ℕ) → b < 2 ^ w → bit_and a b ≤ b
bit_and-le zero a b q = let e : b ≡ 0 = omega arith in rw e (omega (arith, bit_and-zero a))
bit_and-le (suc w) a b q =
    omega (arith, and_digit a b, bit_and-le w (a / 2) (b / 2) (omega (arith, pow-suc 2 w)))

pub test_bit-zero : (i : ℕ) → test_bit 0 i ≡ false
unfolding test_bit
test_bit-zero zero = refl
test_bit-zero (suc i) = test_bit-zero i

pub div_pow_suc : (x k : ℕ) → x / 2 ^ suc k ≡ x / 2 / 2 ^ k
div_pow_suc x k =
    ap (λ (m : ℕ). x / m) (omega (arith, pow-suc 2 k)) ∙ sym (div-div-eq-div-mul x 2 (2 ^ k))

pub mul_pow_suc : (x k : ℕ) → x * 2 ^ suc k ≡ 2 * (x * 2 ^ k)
mul_pow_suc x k = omega (arith, ap (λ (m : ℕ). x * m) (pow-suc 2 k))

pub mod_pow_suc : (x w : ℕ) → x % 2 ^ suc w ≡ 2 * (x / 2 % 2 ^ w) + x % 2
mod_pow_suc x w = omega (
  arith,
  div-add-mod x (2 ^ suc w),
  div-add-mod (x / 2) (2 ^ w),
  div_pow_suc x w,
  ap (λ (m : ℕ). m * (x / 2 ^ suc w)) (pow-suc 2 w),
  ap (λ (q : ℕ). 2 ^ w * q) (div_pow_suc x w),
)

-- A shift to the right, and one to the left, move the bits.
pub test_bit-shr : (k x i : ℕ) → test_bit (x / 2 ^ k) i ≡ test_bit x (k + i)
unfolding test_bit
test_bit-shr zero x i =
    let e : x / 2 ^ 0 ≡ x = omega arith in let f : 0 + i ≡ i = omega arith in rw (e, f)
test_bit-shr (suc k) x i =
    let halve : x / 2 ^ suc k ≡ x / 2 / 2 ^ k = div_pow_suc x k in
    let e : suc k + i ≡ suc (k + i) = omega arith in rw (halve, e) (test_bit-shr k (x / 2) i)

pub test_bit-shl :
    (k x i : ℕ) → test_bit (x * 2 ^ k) i ≡ (if leb k i then test_bit x (i - k) else false)
unfolding test_bit
test_bit-shl zero x i =
    let e : x * 2 ^ 0 ≡ x = omega arith in
    let f : i - 0 ≡ i = omega arith in rw (e, f) (ground arith)
test_bit-shl (suc k) x zero = ground (arith, mul_pow_suc x k)
test_bit-shl (suc k) x (suc i) =
    let e : x * 2 ^ suc k / 2 ≡ x * 2 ^ k = omega (arith, mul_pow_suc x k) in
    let f : suc i - suc k ≡ i - k = omega arith in rw (e, f) (ground (arith, test_bit-shl k x i))

-- `x % 2 ^ w` keeps the low bits.
pub test_bit-mod : (w x i : ℕ) → test_bit (x % 2 ^ w) i ≡ (ltb i w && test_bit x i)
unfolding test_bit
test_bit-mod zero x i =
    let e : x % 2 ^ 0 ≡ 0 = omega arith in rw (e, test_bit-zero i) (ground arith)
test_bit-mod (suc w) x zero =
    let e : x % 2 ^ suc w % 2 ≡ x % 2 = omega (arith, mod_pow_suc x w) in rw e (ground arith)
test_bit-mod (suc w) x (suc i) =
    let e : x % 2 ^ suc w / 2 ≡ x / 2 % 2 ^ w = omega (arith, mod_pow_suc x w) in
    rw e (ground (arith, test_bit-mod w (x / 2) i))

pub test_bit-one : (k i : ℕ) → test_bit (2 ^ k) i ≡ (i == k)
unfolding test_bit
test_bit-one zero zero = refl
test_bit-one zero (suc i) = ground (arith, test_bit-zero i)
test_bit-one (suc k) zero = ground (arith, pow-suc 2 k)
test_bit-one (suc k) (suc i) =
    let e : 2 ^ suc k / 2 ≡ 2 ^ k = omega (arith, pow-suc 2 k) in
    rw e (ground (arith, test_bit-one k i))

-- The bits of a constant, from a table.
agree : Bool → Bool → Bool
agree a b = not (xor a b)

agree_sound : (a b : Bool) → agree a b ≡ true → a ≡ b
unfolding agree xor
agree_sound a b h = ground arith

unfoldable pub has_bits : ℕ → ℕ → (ℕ → Bool) → Bool
unfolding agree test_bit xor
has_bits zero m f = true
has_bits (suc w) m f = agree (test_bit m w) (f w) && has_bits w m f

pub has_bits_sound :
    (w m : ℕ) (f : ℕ → Bool) (i : ℕ) → has_bits w m f ≡ true → i < w → test_bit m i ≡ f i
unfolding has_bits
has_bits_sound zero m f i h lt = absurd (omega arith)
has_bits_sound (suc w) m f i h lt =
    ground (arith, agree_sound (test_bit m w) (f w), has_bits_sound w m f i)
