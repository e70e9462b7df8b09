-- ===== src/Cpu/Interrupt/Pending.antt =====
-- Which interrupts are ready, bit by bit.
use dromajo.Prelude.{
  ℕ, ◌-◌, ◌^◌, ◌<◌, ◌≡◌, refl, ◌&&◌, ◌||◌, Bool, true, not, ◌==◌, if◌then◌else◌, arith, bit_and,
}
use dromajo.Prelude.Bits.{
  test_bit, test_bit-and, test_bit-or, test_bit-not, test_bit-zero, bit_not, has_bits,
  has_bits_sound,
}
use dromajo.Cpu.Constants.{mstatus_sie, mstatus_mie, prv_s, prv_m}
use dromajo.Cpu.State.{Cpu}
use dromajo.Cpu.Mstatus.{any}
use dromajo.Cpu.Interrupt.{enabled_ints, get_pending_irq_mask}

-- The architecture's rule: an interrupt that is not delegated is for machine mode, and is masked by
-- MIE there; a delegated one is for supervisor mode, never taken in machine mode, and masked by SIE
-- in supervisor mode. User mode masks none.
abbrev pub enabled_at : Cpu → ℕ → Bool
enabled_at s i =
    if s.priv == prv_m
    then any s.mstatus mstatus_mie && not (test_bit s.mideleg i)
    else if s.priv == prv_s
    then not (test_bit s.mideleg i) || any s.mstatus mstatus_sie
    else true

-- Interrupt `i` is pending in mip, enabled in mie and let through by the privilege.
abbrev pub ready : Cpu → ℕ → Bool
ready s i = (test_bit s.mip i && test_bit s.mie i) && enabled_at s i

ones_bit : (i : ℕ) → i < 32 → test_bit (2 ^ 32 - 1) i ≡ true
unfolding has_bits
ones_bit i lt = has_bits_sound 32 (2 ^ 32 - 1) (λ _. true) i refl lt

enabled_bit :
    (s : Cpu) (i : ℕ) → s.mideleg < 2 ^ 32 → i < 32 → test_bit (enabled_ints s) i ≡ enabled_at s i
unfolding enabled_ints
enabled_bit s i w lt = ground (
  arith,
  test_bit-or (bit_not 32 s.mideleg) s.mideleg i,
  test_bit-not 32 s.mideleg i w lt,
  test_bit-zero i,
  ones_bit i lt,
)

-- The mask has exactly the ready interrupts.
pub pending_bit :
    (s : Cpu) (i : ℕ)
    → s.mideleg < 2 ^ 32
    → i < 32
    → test_bit (get_pending_irq_mask s) i ≡ ready s i
unfolding get_pending_irq_mask
pending_bit s i w lt = ground (
  arith,
  test_bit-and s.mip s.mie i,
  test_bit-and (bit_and s.mip s.mie) (enabled_ints s) i,
  enabled_bit s i w lt,
  test_bit-zero i,
)
