-- ===== src/Virtio/PowerOfTwo.antt =====
-- The test of a queue's length, `(val & (val - 1)) == 0`.
use native.Mathlib.Nat.{pow-suc, mod_self}
use dromajo.Prelude.{
  ℕ, zero, suc, ◌-◌, ◌/◌, ◌%◌, ◌^◌, ◌<◌, ◌≡◌, refl, ap, sym, ◌∙◌, inl, inr, ◌⊎◌, bit_and, arith,
}
use dromajo.Prelude.Digits.{and_digit}
use dromajo.Prelude.Bits.{bit_and-low}

bit_and_self : (w a : ℕ) → a < 2 ^ w → bit_and a a ≡ a
bit_and_self zero a h = let e : a ≡ 0 = omega arith in rw e refl
bit_and_self (suc w) a h =
    ground (arith, and_digit a a, bit_and_self w (a / 2) (omega (arith, pow-suc 2 w)))

parity : (v : ℕ) → (v % 2 ≡ 0) ⊎ (v % 2 ≡ 1)
parity v = ground arith

-- A word that has no bit in common with its predecessor is a power of two.
pub power_of_two :
    (w v : ℕ) → v < 2 ^ w → 0 < v → bit_and v (v - 1) ≡ 0 → (k : ℕ) × (k < w) × (v ≡ 2 ^ k)
power_of_two zero v h pos e = absurd (omega arith)
power_of_two (suc w) v h pos e = elim (parity v) [
  | inl even ↦
      let half : (v - 1) / 2 ≡ v / 2 - 1 = omega arith in
      let rest : bit_and (v / 2) (v / 2 - 1) ≡ 0 =
        ap (λ (n : ℕ). bit_and (v / 2) n) (sym half) ∙ omega (arith, and_digit v (v - 1)) in
      let (k, lt, p) = power_of_two w (v / 2) (omega (arith, pow-suc 2 w)) (omega arith) rest in
      (suc k, omega arith, omega (arith, p, pow-suc 2 k))
  | inr odd ↦
      let half : (v - 1) / 2 ≡ v / 2 = omega arith in
      let none_left : v / 2 ≡ 0 =
        sym (bit_and_self w (v / 2) (omega (arith, pow-suc 2 w)))
        ∙ ap (λ (n : ℕ). bit_and (v / 2) n) (sym half)
        ∙ omega (arith, and_digit v (v - 1)) in
      (0, omega arith, (let e : v ≡ 1 = omega arith in e))
]

pub bit_and-pow_self : (k : ℕ) → bit_and (2 ^ k) (2 ^ k - 1) ≡ 0
bit_and-pow_self k = bit_and-low k (2 ^ k) ∙ mod_self (2 ^ k)
