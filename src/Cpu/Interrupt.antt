-- ===== src/Cpu/Interrupt.antt =====
-- Interrupts: `get_pending_irq_mask`, `get_irq_platspecific`, `get_irq_num`, `raise_interrupt` and
-- the setters of mip, of src/riscv_cpu.cpp.
pub mod Pending
pub mod Priority
use dromajo.Prelude.{
  ℕ, zero, suc, ◌+◌, ◌-◌, ◌*◌, ◌/◌, ◌%◌, ◌^◌, ◌&&◌, ◌||◌, Bool, true, false, not, List, [], ◌∷◌,
  Option, none, some, ◌==◌, leb, if◌then◌else◌, bit_and, bit_or,
}
use dromajo.Prelude.Bits.{test_bit, bit_not}
use dromajo.Cpu.Constants.{mstatus_sie, mstatus_mie, prv_s, prv_m, cause_interrupt}
use dromajo.Cpu.State.{Cpu}
use dromajo.Cpu.Mstatus.{any}
use dromajo.Cpu.Trap.{raise_exception}

-- The interrupts that the privilege and mstatus let through.
unfoldable pub enabled_ints : Cpu → ℕ
enabled_ints s =
    if s.priv == prv_m
    then (if any s.mstatus mstatus_mie then bit_not 32 s.mideleg else 0)
    else if s.priv == prv_s
    then (if any s.mstatus mstatus_sie
        then bit_or (bit_not 32 s.mideleg) s.mideleg
        else bit_not 32 s.mideleg)
    else 2 ^ 32 - 1

unfoldable pub get_pending_irq_mask : Cpu → ℕ
get_pending_irq_mask s =
    let pending_ints = bit_and s.mip s.mie in
    if pending_ints == 0 then 0 else bit_and pending_ints (enabled_ints s)

-- The loop from bit `i` down to bit 1.
unfoldable pub highest_bit : ℕ → ℕ → Option ℕ
highest_bit local_ints zero = none
highest_bit local_ints (suc i) =
    let lower = highest_bit local_ints i in
    if test_bit local_ints (suc i) then some (suc i) else lower

unfoldable pub get_irq_platspecific : ℕ → Option ℕ
get_irq_platspecific mask = highest_bit (bit_and mask 0xfffff000) 31

abbrev pub priorities : List ℕ
priorities = 11 ∷ 3 ∷ 7 ∷ 10 ∷ 2 ∷ 6 ∷ 9 ∷ 1 ∷ 5 ∷ 8 ∷ 0 ∷ 4 ∷ []

-- The first of a list of interrupts whose bit is set.
unfoldable pub first_set : ℕ → List ℕ → Option ℕ
first_set mask [] = none
first_set mask (p ∷ ps) = let rest = first_set mask ps in if test_bit mask p then some p else rest

-- `none` is the -1 of an empty mask.
unfoldable pub get_irq_num : ℕ → Option ℕ
get_irq_num mask =
    if leb (2 ^ 12) mask then get_irq_platspecific mask else first_set mask priorities

-- The state after the trap, or none if no interrupt is taken.
unfoldable pub raise_interrupt : Cpu → Option Cpu
raise_interrupt s =
    let mask = get_pending_irq_mask s in
    if mask == 0
    then none
    else some (
        raise_exception s (elim (get_irq_num mask) [
          | some irq_num ↦ bit_or irq_num cause_interrupt
          | none ↦ 2 ^ 64 - 1
        ]))

-- The pending interrupt ends a wfi, but under cosimulation only when the model was told of it.
unfoldable pub riscv_cpu_set_mip : Bool → Bool → ℕ → Cpu → Cpu
riscv_cpu_set_mip interrupt_given cosim mask s =
    let mip = bit_or s.mip mask in
    if s.power_down_flag && (any mip s.mie && (interrupt_given || not cosim))
    then record s { mip = mip; power_down_flag = false }
    else record s { mip = mip }

unfoldable pub riscv_cpu_reset_mip : ℕ → Cpu → Cpu
riscv_cpu_reset_mip mask s = record s { mip = bit_and s.mip (bit_not 32 mask) }
