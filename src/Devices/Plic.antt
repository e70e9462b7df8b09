-- ===== src/Devices/Plic.antt =====
-- The platform-level interrupt controller: `plic_update_mip`, `plic_read`, `plic_write` and
-- `plic_set_irq` of src/riscv_machine.cpp. `none` is a failed assertion, or the null pointer of
-- a hart that does not exist.
pub mod Claim
pub mod Sync
use dromajo.Prelude.{
  ℕ, zero, suc, ◌+◌, ◌-◌, ◌*◌, ◌/◌, ◌%◌, ◌^◌, ◌&&◌, ◌||◌, Bool, true, false, Option, none, some,
  List, [], ◌∷◌, map, ◌==◌, ltb, leb, if◌then◌else◌, get_elem?, get_or, set, bit_and, bit_or,
}
use dromajo.Prelude.Bits.{test_bit, bit_not}
use dromajo.Cpu.Constants.{mip_seip, mip_meip}
use dromajo.Cpu.State.{Cpu}
use dromajo.Cpu.Mstatus.{any}
use dromajo.Cpu.Interrupt.{riscv_cpu_set_mip, riscv_cpu_reset_mip}
use dromajo.Devices.{RiscvMachine}

-- PLIC_PRIORITY_BASE and its end, and the other ranges of the register map.
abbrev pub plic_priority_base : ℕ
plic_priority_base = 4

abbrev pub plic_num_sources : ℕ
plic_num_sources = 127

abbrev pub plic_pending_base : ℕ
plic_pending_base = 0x1000

abbrev pub plic_enable_base : ℕ
plic_enable_base = 0x2000

abbrev pub plic_enable_stride : ℕ
plic_enable_stride = 0x80

abbrev pub plic_context_base : ℕ
plic_context_base = 0x200000

abbrev pub plic_context_stride : ℕ
plic_context_stride = 0x1000

abbrev pub max_cpus : ℕ
max_cpus = 8

-- The sources that wait: pending and not being served.
unfoldable pub plic_mask : RiscvMachine → ℕ
plic_mask s = bit_and s.plic_pending_irq (bit_not 32 s.plic_served_irq)

-- Context 0 drives SEIP and context 1 MEIP.
unfoldable pub update_context : Bool → Bool → ℕ → Cpu → ℕ → Cpu
update_context interrupt_given cosim mask cpu ctx =
    let mip_mask = if ctx == 0 then mip_seip else mip_meip in
    if any mask (get_or cpu.plic_enable_irq ctx 0)
    then riscv_cpu_set_mip interrupt_given cosim mip_mask cpu
    else riscv_cpu_reset_mip mip_mask cpu

-- What `plic_update_mip` does to its hart.
unfoldable pub update_cpu : Bool → Bool → ℕ → Cpu → Cpu
update_cpu interrupt_given cosim mask cpu =
    update_context interrupt_given cosim mask (update_context interrupt_given cosim mask cpu 0) 1

unfoldable pub plic_update_mip : Bool → Bool → RiscvMachine → ℕ → Option RiscvMachine
plic_update_mip interrupt_given cosim s hartid = elim (get_elem? s.cpus hartid) [
  | none ↦ none
  | some cpu ↦
      some
        record s { cpus = set s.cpus hartid (update_cpu interrupt_given cosim (plic_mask s) cpu) }
]

-- The number of trailing zeros, of `n` bits from bit `i`.
unfoldable pub ctz_from : ℕ → ℕ → ℕ → ℕ
ctz_from val zero i = i
ctz_from val (suc n) i = let rest = ctz_from val n (suc i) in if test_bit val i then i else rest

unfoldable pub ctz32 : ℕ → ℕ
ctz32 val = ctz_from val 32 0

-- Source `i` is being served and no longer pending.
unfoldable pub serve : RiscvMachine → ℕ → RiscvMachine
serve s i = record s {
  plic_served_irq = bit_or s.plic_served_irq (2 ^ i);
  plic_pending_irq = bit_and s.plic_pending_irq (bit_not 32 (2 ^ i));
}

-- The read of the claim register.
unfoldable pub claim : Bool → Bool → RiscvMachine → ℕ → Option (RiscvMachine × ℕ)
claim interrupt_given cosim s hartid =
    let mask = plic_mask s in
    if mask == 0
    then some (s, 0)
    else elim (plic_update_mip interrupt_given cosim (serve s (ctz32 mask)) hartid) [
      | none ↦ none
      | some t ↦ some (t, ctz32 mask)
    ]

abbrev pub within : ℕ → ℕ → ℕ → Bool
within base size offset = leb base offset && ltb offset (base + size)

abbrev pub context_of : ℕ → ℕ
context_of offset = (offset - plic_context_base) / plic_context_stride

abbrev pub word_of : ℕ → ℕ
word_of offset = bit_and offset (plic_context_stride - 1) / 4

unfoldable pub plic_read : Bool → Bool → RiscvMachine → ℕ → ℕ → Option (RiscvMachine × ℕ)
plic_read interrupt_given cosim s offset size_log2 =
    if size_log2 == 2
    then (if within plic_priority_base (plic_num_sources * 4) offset
        then some (s, get_or s.plic_priority ((offset - plic_priority_base) / 4) 0)
        else if within plic_pending_base (plic_num_sources / 8) offset
        then some (s, if offset == plic_pending_base then s.plic_pending_irq else 0)
        else if within plic_enable_base (plic_enable_stride * max_cpus) offset
        then (let addrid = (offset - plic_enable_base) / plic_enable_stride in
            elim (get_elem? s.cpus (addrid / 2)) [
              | none ↦ some (s, 0)
              | some cpu ↦ some (s, get_or cpu.plic_enable_irq (addrid % 2) 0)
            ])
        else if within plic_context_base (plic_context_stride * max_cpus) offset
        then (if word_of offset == 1
            then claim interrupt_given cosim s (context_of offset)
            else some (s, 0))
        else some (s, 0))
    else none

unfoldable pub plic_write : RiscvMachine → ℕ → ℕ → ℕ → Option RiscvMachine
plic_write s offset val size_log2 =
    if size_log2 == 2
    then (if within plic_priority_base (plic_num_sources * 4) offset
        then some record s {
          plic_priority = set s.plic_priority ((offset - plic_priority_base) / 4) (bit_and val 7);
        }
        else if within plic_pending_base (plic_num_sources / 8) offset
        then some s
        else if within plic_enable_base (plic_enable_stride * max_cpus) offset
        then (let addrid = (offset - plic_enable_base) / plic_enable_stride in
            elim (get_elem? s.cpus (addrid / 2)) [
              | none ↦ some s
              | some cpu ↦ some record s {
                cpus =
                    set s.cpus (addrid / 2)
                      (record cpu { plic_enable_irq = set cpu.plic_enable_irq (addrid % 2) val });
              }
            ])
        else if within plic_context_base (plic_context_stride * max_cpus) offset
        then (if word_of offset == 0
            then some record s { plic_priority = set s.plic_priority 0 val }
            else if word_of offset == 1
            then some record s {
              plic_served_irq = bit_and s.plic_served_irq (bit_not 32 (2 ^ bit_and val 31));
            }
            else some s)
        else some s)
    else none

unfoldable pub plic_set_irq : Bool → Bool → RiscvMachine → ℕ → Bool → RiscvMachine
plic_set_irq interrupt_given cosim m irq_num state =
    let pending =
      if state
      then bit_or m.plic_pending_irq (2 ^ irq_num)
      else bit_and m.plic_pending_irq (bit_not 32 (2 ^ irq_num)) in
    let m' = record m { plic_pending_irq = pending } in
    record m' { cpus = map (update_cpu interrupt_given cosim (plic_mask m')) m'.cpus }
