-- ===== src/Cpu/Mmu.antt =====
-- Address translation: `riscv_cpu_get_phys_addr` of src/riscv_cpu.cpp, with the read of a page table
-- entry, `riscv_phys_read_u64`. A and D are managed by software (CONFIG_SW_MANAGED_A_AND_D).
pub mod Leaf
pub mod Walk
use dromajo.Prelude.{
  ℕ, zero, suc, ◌+◌, ◌-◌, ◌*◌, ◌/◌, ◌%◌, ◌^◌, ◌&&◌, ◌||◌, Bool, true, false, not, List, Option,
  none, some, ◌==◌, if◌then◌else◌, get_elem?, bit_and, bit_or,
}
use dromajo.Prelude.Bits.{test_bit, bit_not, sign_extend}
use dromajo.Cpu.Constants.{mstatus_sum, mstatus_mxr, prv_s, prv_m}
use dromajo.Cpu.State.{Cpu}
use dromajo.Cpu.Mstatus.{any}
use dromajo.Cpu.Pmp.{data_priv, riscv_cpu_pmp_access_ok}
use dromajo.Iomem.{PhysMemoryRange, get_phys_mem_range}

pub data Access : Type 0 where
  read write code : Access

abbrev pub access_number : Access → ℕ
access_number read = 0
access_number write = 1
access_number code = 2

-- A physical read: a value, a failure, or a crash of the simulator (a device's `phys_mem` is null).
pub data PhysRead : Type 0 where
  loaded : ℕ → PhysRead
  failed crashed : PhysRead

-- 0 with the address, -1, -2, or a crash while an entry is read.
pub data Translation : Type 0 where
  phys : ℕ → Translation
  page_fault access_fault crash : Translation

-- The little-endian number in `n` bytes from an offset.
unfoldable pub load_le : (ℕ → ℕ) → ℕ → ℕ → ℕ
load_le bytes zero off = 0
load_le bytes (suc n) off = bytes off % 256 + 256 * load_le bytes n (off + 1)

unfoldable pub read_range : PhysMemoryRange → ℕ → ℕ → PhysRead
read_range pr bytes paddr =
    if pr.is_ram then loaded (load_le pr.phys_mem bytes (paddr - pr.addr)) else crashed

unfoldable pub riscv_phys_read_u64 : Cpu → List PhysMemoryRange → ℕ → PhysRead
riscv_phys_read_u64 s mem_map paddr =
    if riscv_cpu_pmp_access_ok s paddr 8 1
    then elim (get_phys_mem_range mem_map paddr) [
      | none ↦ failed
      | some i ↦ elim (get_elem? mem_map i) [ none ↦ failed | some pr ↦ read_range pr 8 paddr ]
    ]
    else failed

-- A user page is closed to S but for SUM, and any other page to U.
unfoldable pub privilege_ok : Cpu → ℕ → ℕ → Bool
privilege_ok s priv pte =
    if priv == prv_s then not (test_bit pte 4) || any s.mstatus mstatus_sum else test_bit pte 4

-- The permission bits X, W and R, of which MXR adds R to X.
unfoldable pub permissions : Cpu → ℕ → ℕ
permissions s pte =
    let xwr = bit_and (pte / 2) 7 in
    if any s.mstatus mstatus_mxr then bit_or xwr (xwr / 2 ^ 2) else xwr

-- The checks on a leaf entry at level `j`, in the order of the code; every refusal is a page fault.
unfoldable pub leaf : Cpu → ℕ → Access → ℕ → ℕ → ℕ → Translation
leaf s vaddr access priv j pte =
    let xwr = bit_and (pte / 2) 7 in
    let vaddr_mask = 2 ^ (12 + 9 * j) - 1 in
    if xwr == 2 || xwr == 6
    then page_fault
    else if not (privilege_ok s priv pte)
    then page_fault
    else if not (test_bit (permissions s pte) (access_number access))
    then page_fault
    else if any (pte / 2 ^ 10 % 2 ^ 32) (2 ^ j - 1)
    then page_fault
    else if not (test_bit pte 6)
    then page_fault
    else if (access_number access == 1) && not (test_bit pte 7)
    then page_fault
    else phys (
        bit_or (bit_and (pte / 2 ^ 10 * 2 ^ 12 % 2 ^ 64) (bit_not 64 vaddr_mask))
          (bit_and vaddr vaddr_mask))

-- The address of the entry that level `j` of the tree at `table` has for `vaddr`.
unfoldable pub entry_addr : ℕ → ℕ → ℕ → ℕ
entry_addr vaddr j table = (table + bit_and (vaddr / 2 ^ (12 + 9 * j)) 511 * 8) % 2 ^ 64

module _ (s : Cpu) (vaddr : ℕ) (access : Access) (priv : ℕ) (read_pte : ℕ → PhysRead) where
  -- The loop over the levels, with `j + 1` of them left.
  unfoldable pub walk : ℕ → ℕ → Translation
  walk zero table = page_fault
  walk (suc j) table = elim (read_pte (entry_addr vaddr j table)) [
    | failed ↦ access_fault
    | crashed ↦ crash
    | loaded pte ↦
        (let next = walk j (pte / 2 ^ 10 * 2 ^ 12 % 2 ^ 64) in
          if not (test_bit pte 0)
          then page_fault
          else if bit_and (pte / 2) 7 == 0
          then next
          else leaf s vaddr access priv j pte)
  ]

-- satp's mode: 0 is bare, 8 is Sv39 and 9 is Sv48; the number of levels is mode - 8 + 3.
unfoldable pub riscv_cpu_get_phys_addr : Cpu → List PhysMemoryRange → ℕ → Access → Translation
riscv_cpu_get_phys_addr s mem_map vaddr access =
    let priv = if access_number access == 2 then s.priv else data_priv s in
    let mode = bit_and (s.satp / 2 ^ 60) 15 in
    let levels = mode - 5 in
    if priv == prv_m
    then phys vaddr
    else if mode == 0
    then phys vaddr
    else if not (sign_extend (12 + levels * 9) vaddr == vaddr)
    then page_fault
    else walk s vaddr access priv (riscv_phys_read_u64 s mem_map) levels
        (bit_and s.satp (2 ^ 44 - 1) * 2 ^ 12)
