-- ===== src/Cpu/Pmp/Napot.antt =====
-- The region of a NAPOT entry.
use native.Mathlib.Nat.{mul_comm, div-add-mod, mod-lt, one-le-pow, pow-suc, pow-le-pow_right}
use dromajo.Prelude.{
  ℕ, zero, suc, ◌+◌, ◌-◌, ◌*◌, ◌/◌, ◌%◌, ◌^◌, ◌≤◌, ◌<◌, ◌≡◌, ap, ◌&&◌, ◌==◌, ltb, leb, arith,
  bit_and,
}
use dromajo.Prelude.Bits.{test_bit, bit_not, bit_and-high}
use dromajo.Cpu.Pmp.{napot, trailing_ones}

trailing_ones-le : (n k a : ℕ) → a < 2 ^ k → trailing_ones n a ≤ k
unfolding trailing_ones test_bit
trailing_ones-le zero k a h = omega arith
trailing_ones-le (suc n) zero a h = ground arith
trailing_ones-le (suc n) (suc k) a h = ground (arith, trailing_ones-le n k (a / 2), pow-suc 2 k)

a_wide : (a : ℕ) → a < 2 ^ 38 → a * 4 % 2 ^ 64 ≡ a * 4
a_wide a h = omega arith

below : (m r q : ℕ) → r < q → m * r + m ≤ m * q
below m r q h = grind arith

-- A block of `m` numbers is told by the quotient.
block : (m q p : ℕ) → 0 < m → (leb (q * m) p && ltb p (q * m + m)) ≡ (p / m == q)
block m q p pos =
    ground
      (arith, div-add-mod p m, mod-lt p pos, mul_comm q m, below m (p / m) q, below m q (p / m))

-- The region of an address with `t` trailing ones is the aligned block of 2 ^ (t + 3) bytes that
-- the address, times four, lies in. Address registers have 38 bits.
pub napot_region :
    (cfg a p : ℕ)
    → a < 2 ^ 38
    → let e = napot cfg a in
      let bytes = 2 ^ (trailing_ones 64 a + 3) in
      (e.cfg ≡ cfg) × ((leb e.lo p && ltb p e.hi) ≡ (p / bytes == a * 4 / bytes))
unfolding napot
napot_region cfg a p h =
    let j = trailing_ones 64 a + 3 in
    let small : j ≤ 41 = omega (arith, trailing_ones-le 64 38 a h) in
    let power : 2 ^ j ≤ 2 ^ 41 = pow-le-pow_right {n = 2} (omega arith) small in
    let pos : 0 < 2 ^ j = one-le-pow j 2 (omega arith) in
    let low : bit_and (a * 4 % 2 ^ 64) (bit_not 64 (2 ^ j - 1)) ≡ a * 4 / 2 ^ j * 2 ^ j = omega (
      arith,
      bit_and-high 64 j (a * 4 % 2 ^ 64) (omega arith) (omega arith),
      ap (λ (x : ℕ). x % 2 ^ j) (a_wide a h),
      div-add-mod (a * 4) (2 ^ j),
      mul_comm (a * 4 / 2 ^ j) (2 ^ j),
    ) in
    let bound : a * 4 / 2 ^ j * 2 ^ j ≤ a * 4 =
      omega (arith, div-add-mod (a * 4) (2 ^ j), mul_comm (a * 4 / 2 ^ j) (2 ^ j)) in
    (
      ground (arith, small),
      ground (arith, small, power, pos, low, bound, block (2 ^ j) (a * 4 / 2 ^ j) p pos),
    )
