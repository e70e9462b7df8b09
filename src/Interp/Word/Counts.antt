-- ===== src/Interp/Word/Counts.antt =====
-- The counts of trailing zeros.
use dromajo.Prelude.{
  ℕ, zero, suc, ◌/◌, ◌%◌, ◌^◌, ◌<◌, ◌≡◌, ◌≢◌, true, false, arith, ◌==◌, refl, inl, inr, Bool-cases,
}
use native.Mathlib.Nat.{pow-suc}
use dromajo.Prelude.Bits.{test_bit}
use dromajo.Interp.Word.{builtin_ctz, ctz_64, clz64}

lower :
    (v m i : ℕ)
    → (v % 2 == 1) ≡ false
    → ((j : ℕ) → j < m → test_bit (v / 2) j ≡ false)
    → i < suc m
    → test_bit v i ≡ false
unfolding test_bit
lower v m zero e h lt = ground (arith, e)
lower v m (suc i) e h lt = h i (omega arith)

builtin_ctz-first :
    (n v : ℕ)
    → v ≢ 0
    → v < 2 ^ n
    → (test_bit v (builtin_ctz n v) ≡ true) × ((i : ℕ) → i < builtin_ctz n v → test_bit v i ≡ false)
unfolding builtin_ctz test_bit
builtin_ctz-first zero v ne lt = absurd (ne (omega arith))
builtin_ctz-first (suc n) v ne lt = elim (Bool-cases (v % 2 == 1)) [
  | inl e ↦ (ground (arith, e), λ i le. ground (arith, e))
  | inr e ↦
      (let half : v / 2 ≢ 0 = λ z. ne (ground (arith, e, z)) in
        let ih = builtin_ctz-first n (v / 2) half (omega (arith, pow-suc 2 n)) in
        (
          ground (arith, e, ih.0),
          λ i le. lower v (builtin_ctz n (v / 2)) i e ih.1 (ground (arith, e)),
        ))
]

-- The count of trailing zeros of a nonzero 64-bit word is the place of its lowest set bit. The count
-- of leading zeros, clz64, is the same number.
pub ctz_64-clz64 :
    (v : ℕ)
    → v ≢ 0
    → v < 2 ^ 64
    → (test_bit v (ctz_64 v) ≡ true)
      × ((i : ℕ) → i < ctz_64 v → test_bit v i ≡ false)
      × (clz64 v ≡ ctz_64 v)
unfolding ctz_64 clz64
ctz_64-clz64 v ne lt =
    let first = builtin_ctz-first 64 v ne lt in
    (ground (arith, ne, first.0), λ i le. first.1 i (ground (arith, ne)), refl)
