-- ===== src/Devices/Clint.antt =====
-- The core-local interruptor: `clint_read` and `clint_write` of src/riscv_machine.cpp. `none` is
-- a machine without hart 0, whose null pointer the source follows.
pub mod Timer
use dromajo.Prelude.{
  ℕ, ◌+◌, ◌-◌, ◌*◌, ◌/◌, ◌%◌, ◌^◌, ◌&&◌, ◌||◌, Bool, true, false, Option, none, some, ◌==◌, ltb,
  leb, if◌then◌else◌, of_bool, get_elem?, set, bit_and, bit_or,
}
use dromajo.Prelude.Bits.{test_bit}
use dromajo.Cpu.Constants.{mip_msip, mip_mtip}
use dromajo.Cpu.State.{Cpu}
use dromajo.Cpu.Mstatus.{any}
use dromajo.Cpu.Interrupt.{riscv_cpu_set_mip, riscv_cpu_reset_mip}
use dromajo.Devices.{RiscvMachine}

abbrev pub rtc_freq_div : ℕ
rtc_freq_div = 2000

-- The switch on the width of an access, at both ends of a transfer.
unfoldable pub sized : ℕ → ℕ → ℕ
sized size_log2 val = if size_log2 == 1 then bit_and val 0xffff else bit_and val 0xffff_ffff

-- A register of a hart; a hart that does not exist reads as zero.
unfoldable pub read_hart : RiscvMachine → ℕ → (Cpu → ℕ) → ℕ
read_hart m hartid f = elim (get_elem? m.cpus hartid) [ none ↦ 0 | some s ↦ f s ]

unfoldable pub mtime : RiscvMachine → Option ℕ
mtime m = elim (get_elem? m.cpus 0) [ none ↦ none | some s ↦ some (s.mcycle / rtc_freq_div) ]

-- The register at `offset`, before the width is applied.
unfoldable pub clint_value : RiscvMachine → ℕ → Option ℕ
clint_value m offset =
    if ltb offset 0x4000
    then some (read_hart m (offset / 4) (λ s. of_bool (any s.mip mip_msip)))
    else if offset == 0xbff8
    then (elim (mtime m) [ none ↦ none | some t ↦ some (t % 2 ^ 32) ])
    else if offset == 0xbffc
    then (elim (mtime m) [ none ↦ none | some t ↦ some (t / 2 ^ 32 % 2 ^ 32) ])
    else if ltb offset 0xbff8
    then some (
        read_hart m ((offset - 0x4000) / 8)
          (λ s. if test_bit offset 2 then s.timecmp / 2 ^ 32 % 2 ^ 32 else s.timecmp % 2 ^ 32))
    else some 0

unfoldable pub clint_read : RiscvMachine → ℕ → ℕ → Option ℕ
clint_read m offset size_log2 = elim (clint_value m offset) [
  | none ↦ none
  | some val ↦ some (sized size_log2 val)
]

-- A change to a hart; nothing happens for one that does not exist.
unfoldable pub update_hart : RiscvMachine → ℕ → (Cpu → Cpu) → RiscvMachine
update_hart m hartid f = elim (get_elem? m.cpus hartid) [
  | none ↦ m
  | some s ↦ record m { cpus = set m.cpus hartid (f s) }
]

unfoldable pub write_msip : Bool → Bool → ℕ → Cpu → Cpu
write_msip interrupt_given cosim val s =
    if test_bit val 0
    then riscv_cpu_set_mip interrupt_given cosim mip_msip s
    else riscv_cpu_reset_mip mip_msip s

unfoldable pub write_timecmp_high : ℕ → Cpu → Cpu
write_timecmp_high val s =
    riscv_cpu_reset_mip mip_mtip
      (record s { timecmp = bit_or (bit_and s.timecmp 0xffff_ffff) (val * 2 ^ 32) })

-- ~0xffffffff is an unsigned 32-bit zero, so that nothing of the old value is kept.
unfoldable pub write_timecmp_low : ℕ → Cpu → Cpu
write_timecmp_low val s =
    riscv_cpu_reset_mip mip_mtip (record s { timecmp = bit_or (bit_and s.timecmp 0) val })

unfoldable pub write_mtime : (ℕ → ℕ) → Cpu → Cpu
write_mtime f s = record s { mcycle = f (s.mcycle / rtc_freq_div) * rtc_freq_div % 2 ^ 64 }

unfoldable pub write_hart0 : RiscvMachine → (Cpu → Cpu) → Option RiscvMachine
write_hart0 m f = elim (get_elem? m.cpus 0) [ none ↦ none | some s ↦ some (update_hart m 0 f) ]

-- The write of a value that already has its width.
unfoldable pub clint_store : Bool → Bool → RiscvMachine → ℕ → ℕ → Option RiscvMachine
clint_store interrupt_given cosim m offset val =
    if ltb offset 0x4000
    then some (update_hart m (offset / 4) (write_msip interrupt_given cosim val))
    else if offset == 0xbff8
    then write_hart0 m (write_mtime (λ t. (bit_and t 0xffff_ffff_0000_0000 + val) % 2 ^ 64))
    else if offset == 0xbffc
    then write_hart0 m (write_mtime (λ t. (bit_and t 0xffff_ffff + val * 2 ^ 32) % 2 ^ 64))
    else if ltb offset 0xbff8
    then some (
        update_hart m ((offset - 0x4000) / 8)
          (if test_bit offset 2 then write_timecmp_high val else write_timecmp_low val))
    else some m

unfoldable pub clint_write : Bool → Bool → RiscvMachine → ℕ → ℕ → ℕ → Option RiscvMachine
clint_write interrupt_given cosim m offset val size_log2 =
    clint_store interrupt_given cosim m offset (sized size_log2 val)
