-- ===== src/Cpu/Trap/Status.antt =====
-- Trap entry and return on each bit of mstatus.
use dromajo.Prelude.{
  ℕ, ◌+◌, ◌-◌, ◌*◌, ◌/◌, ◌^◌, ◌<◌, ◌≡◌, ◌⊎◌, refl, ◌&&◌, ◌||◌, Bool, true, false, not, bit_and,
  bit_or, ◌==◌, if◌then◌else◌, of_bool, arith,
}
use dromajo.Prelude.Bits.{
  bit_not, test_bit, test_bit-and, test_bit-or, test_bit-not, test_bit-shl, test_bit-shr,
  test_bit-one, test_bit-zero, test_bit_above, bit_and-pow, bit_and-le, test_bit_ext, has_bits,
  has_bits_sound,
}
use dromajo.Cpu.Constants.{
  mstatus_sie, mstatus_mie, mstatus_spie, mstatus_mpie, mstatus_spp, mstatus_mpp,
}
use dromajo.Cpu.Mstatus.{any}
use native.Mathlib.Nat.{one-le-pow}
use dromajo.Cpu.Trap.{enter_s_mstatus, enter_m_mstatus, sret_mstatus, mret_mstatus}

-- Clearing a mask clears its bits.
pub clear_bit :
    (m mask i : ℕ)
    → mask < 2 ^ 64
    → i < 64
    → test_bit (bit_and m (bit_not 64 mask)) i ≡ (test_bit m i && not (test_bit mask i))
clear_bit m mask i p lt =
    ground (arith, test_bit-and m (bit_not 64 mask) i, test_bit-not 64 mask i p lt)

pub any-bit : (k m : ℕ) → any m (2 ^ k) ≡ test_bit m k
any-bit k m = ground (arith, bit_and-pow k m, one-le-pow k 2)

flag_bit : (k i : ℕ) (b : Bool) → test_bit (of_bool b * 2 ^ k) i ≡ (b && i == k)
flag_bit k i true = let e : 1 * 2 ^ k ≡ 2 ^ k = omega arith in rw e (test_bit-one k i)
flag_bit k i false = let e : 0 * 2 ^ k ≡ 0 = omega arith in rw e (test_bit-zero i)

-- The fields' positions.
pub mpp_bits : (i : ℕ) → i < 64 → test_bit mstatus_mpp i ≡ (i == 11 || i == 12)
unfolding has_bits
mpp_bits i lt = has_bits_sound 64 mstatus_mpp (λ i. i == 11 || i == 12) i refl lt

priv_bits :
    (priv i : ℕ)
    → priv < 4
    → test_bit (priv * 2 ^ 11) i ≡ (if i == 11 then test_bit priv 0 else i == 12 && test_bit priv 1)
priv_bits priv i lt = ground (arith, test_bit-shl 11 priv i, test_bit_above 2 priv (i - 11))

spp_bits : (priv i : ℕ) → priv < 2 → test_bit (priv * 2 ^ 8) i ≡ (i == 8 && test_bit priv 0)
spp_bits priv i lt = ground (arith, test_bit-shl 8 priv i, test_bit_above 1 priv (i - 8))

abbrev mpie_taken : ℕ → ℕ
mpie_taken m = bit_or (bit_and m (bit_not 64 mstatus_mpie)) (of_bool (any m mstatus_mie) * 2 ^ 7)

-- On entry to machine mode: MIE is clear, MPIE has MIE, MPP has the privilege, no other bit moves.
pub enter_m_bits :
    (m priv i : ℕ)
    → priv < 4
    → i < 64
    → test_bit (enter_m_mstatus m priv) i ≡ (
        if i == 3
        then false
        else if i == 7
        then test_bit m 3
        else if i == 11
        then test_bit priv 0
        else if i == 12
        then test_bit priv 1
        else test_bit m i)
unfolding enter_m_mstatus
enter_m_bits m priv i p lt = ground (
  arith,
  clear_bit m mstatus_mpie i (omega arith) lt,
  any-bit 3 m,
  flag_bit 7 i (any m mstatus_mie),
  test_bit-or (bit_and m (bit_not 64 mstatus_mpie)) (of_bool (any m mstatus_mie) * 2 ^ 7) i,
  clear_bit (mpie_taken m) mstatus_mpp i (omega arith) lt,
  test_bit-or (bit_and (mpie_taken m) (bit_not 64 mstatus_mpp)) (priv * 2 ^ 11) i,
  clear_bit (bit_or (bit_and (mpie_taken m) (bit_not 64 mstatus_mpp)) (priv * 2 ^ 11)) mstatus_mie i
      (omega arith) lt,
  test_bit-one 3 i,
  test_bit-one 7 i,
  mpp_bits i lt,
  priv_bits priv i p,
)

abbrev spie_taken : ℕ → ℕ
spie_taken m = bit_or (bit_and m (bit_not 64 mstatus_spie)) (of_bool (any m mstatus_sie) * 2 ^ 5)

-- On entry to supervisor mode: SIE is clear, SPIE has SIE, SPP has the privilege, no other bit moves.
pub enter_s_bits :
    (m priv i : ℕ)
    → priv < 2
    → i < 64
    → test_bit (enter_s_mstatus m priv) i ≡ (
        if i == 1
        then false
        else if i == 5
        then test_bit m 1
        else if i == 8
        then test_bit priv 0
        else test_bit m i)
unfolding enter_s_mstatus
enter_s_bits m priv i p lt = ground (
  arith,
  clear_bit m mstatus_spie i (omega arith) lt,
  any-bit 1 m,
  flag_bit 5 i (any m mstatus_sie),
  test_bit-or (bit_and m (bit_not 64 mstatus_spie)) (of_bool (any m mstatus_sie) * 2 ^ 5) i,
  clear_bit (spie_taken m) mstatus_spp i (omega arith) lt,
  test_bit-or (bit_and (spie_taken m) (bit_not 64 mstatus_spp)) (priv * 2 ^ 8) i,
  clear_bit (bit_or (bit_and (spie_taken m) (bit_not 64 mstatus_spp)) (priv * 2 ^ 8)) mstatus_sie i
      (omega arith) lt,
  test_bit-one 1 i,
  test_bit-one 5 i,
  test_bit-one 8 i,
  spp_bits priv i p,
)

-- On mret: MIE has MPIE, MPIE is set, and MPP is still to be cleared.
pub mret_bits :
    (m i : ℕ)
    → i < 64
    → test_bit (mret_mstatus m) i
      ≡ (if i == 3 then test_bit m 7 else if i == 7 then true else test_bit m i)
unfolding mret_mstatus
mret_bits m i lt = ground (
  arith,
  clear_bit m mstatus_mie i (omega arith) lt,
  test_bit-and (bit_and m (bit_not 64 mstatus_mie) / 2 ^ 4) mstatus_mie i,
  test_bit-shr 4 (bit_and m (bit_not 64 mstatus_mie)) i,
  clear_bit m mstatus_mie 7 (omega arith) (omega arith),
  test_bit-one 3 7,
  test_bit-or (bit_and m (bit_not 64 mstatus_mie))
      (bit_and (bit_and m (bit_not 64 mstatus_mie) / 2 ^ 4) mstatus_mie) i,
  test_bit-or
      (bit_or (bit_and m (bit_not 64 mstatus_mie))
        (bit_and (bit_and m (bit_not 64 mstatus_mie) / 2 ^ 4) mstatus_mie))
      mstatus_mpie i,
  test_bit-one 3 i,
  test_bit-one 7 i,
)

-- On sret: SIE has SPIE, SPIE is set, and SPP is still to be cleared.
pub sret_bits :
    (m i : ℕ)
    → i < 64
    → test_bit (sret_mstatus m) i
      ≡ (if i == 1 then test_bit m 5 else if i == 5 then true else test_bit m i)
unfolding sret_mstatus
sret_bits m i lt = ground (
  arith,
  clear_bit m mstatus_sie i (omega arith) lt,
  test_bit-and (bit_and m (bit_not 64 mstatus_sie) / 2 ^ 4) mstatus_sie i,
  test_bit-shr 4 (bit_and m (bit_not 64 mstatus_sie)) i,
  clear_bit m mstatus_sie 5 (omega arith) (omega arith),
  test_bit-one 1 5,
  test_bit-or (bit_and m (bit_not 64 mstatus_sie))
      (bit_and (bit_and m (bit_not 64 mstatus_sie) / 2 ^ 4) mstatus_sie) i,
  test_bit-or
      (bit_or (bit_and m (bit_not 64 mstatus_sie))
        (bit_and (bit_and m (bit_not 64 mstatus_sie) / 2 ^ 4) mstatus_sie))
      mstatus_spie i,
  test_bit-one 1 i,
  test_bit-one 5 i,
)

-- The privilege that a return reads back.
two_cases : (i : ℕ) → i < 2 → (i ≡ 0) ⊎ (i ≡ 1)
two_cases i lt = omega arith

pub mpp_field :
    (m priv : ℕ)
    → priv < 4
    → test_bit m 11 ≡ test_bit priv 0
    → test_bit m 12 ≡ test_bit priv 1
    → bit_and m mstatus_mpp / 2 ^ 11 ≡ priv
mpp_field m priv p e f =
    test_bit_ext 2 (bit_and m mstatus_mpp / 2 ^ 11) priv
      (omega (arith, bit_and-le 13 m mstatus_mpp (omega arith))) p
      (λ i lt. ground (
        arith,
        test_bit-shr 11 (bit_and m mstatus_mpp) i,
        test_bit-and m mstatus_mpp (11 + i),
        mpp_bits (11 + i),
        two_cases i lt,
      ))

pub spp_field :
    (m priv : ℕ) → priv < 2 → test_bit m 8 ≡ test_bit priv 0 → bit_and m mstatus_spp / 2 ^ 8 ≡ priv
unfolding test_bit
spp_field m priv p e = ground (arith, bit_and-pow 8 m)
