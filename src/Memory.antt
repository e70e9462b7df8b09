-- ===== src/Memory.antt =====
-- Loads and stores of a hart: `check_triggers`, `target_read_u*`, `target_write_u*`,
-- `riscv_cpu_read_memory` and `riscv_cpu_write_memory` of src/riscv_cpu.cpp. An access has the size
-- 2 ^ size_log2 bytes. A misaligned access is refused (CONFIG_ALLOW_MISALIGNED_ACCESS is 0).
pub mod Trigger
pub mod Kept
pub mod Ram
pub mod Hit
pub mod Fetch
use dromajo.Prelude.{
  ℕ, zero, suc, ◌+◌, ◌-◌, ◌*◌, ◌/◌, ◌%◌, ◌^◌, ◌&&◌, Bool, true, false, not, List, Option, none,
  some, ◌==◌, ltb, leb, if◌then◌else◌, get_elem?, set, bit_and, bit_or,
}
use dromajo.Prelude.Bits.{test_bit, bit_not}
use dromajo.Cpu.State.{Cpu}
use dromajo.Cpu.Mstatus.{any}
use dromajo.Cpu.Pmp.{riscv_cpu_pmp_access_ok}
use dromajo.Cpu.Mmu.{
  Access, read, write, PhysRead, loaded, failed, crashed, page_fault, access_fault, crash, phys,
  load_le, riscv_cpu_get_phys_addr,
}
use dromajo.Iomem.{PhysMemoryRange, get_phys_mem_range, phys_mem_set_dirty_bit}
use dromajo.Memory.Trigger.{check_triggers, mcontrol_load, mcontrol_store}

-- The host address of a TLB entry: the index of a RAM range and the addend that turns a virtual
-- address into an offset of its `phys_mem`.
pub record MemAddend : Type 0 where
  pub range : ℕ
  pub addend : ℕ

-- The devices behind the map, with their callbacks `read_func` and `write_func`: a range's index
-- stands for its function and `opaque`.
pub record DeviceIo (D : Type 0) : Type 0 where
  pub read_func : D → ℕ → ℕ → ℕ → ℕ × D
  pub write_func : D → ℕ → ℕ → ℕ → ℕ → D

-- A hart with the parts of the machine that its accesses reach. The tags of the TLBs are in `cpu`.
pub record Hart (D : Type 0) : Type 0 where
  pub cpu : Cpu
  pub mem_map : List PhysMemoryRange
  pub devices : D
  pub tlb_read_addend : ℕ → MemAddend
  pub tlb_write_addend : ℕ → MemAddend
  pub tlb_code_addend : ℕ → MemAddend
  pub memseqno : ℕ
  pub load_res : ℕ
  pub load_res_memseqno : ℕ
  -- Of the hart: `terminate_simulation` and `ignore_sbi_shutdown`. Of the machine's configuration:
  -- whether `pending_interrupt` is not -1, and `cosim`.
  pub terminate_simulation : Bool
  pub ignore_sbi_shutdown : Bool
  pub has_pending_interrupt : Bool
  pub cosim : Bool

abbrev pub cause_misaligned_load : ℕ
cause_misaligned_load = 4

abbrev pub cause_fault_load : ℕ
cause_fault_load = 5

abbrev pub cause_misaligned_store : ℕ
cause_misaligned_store = 6

abbrev pub cause_fault_store : ℕ
cause_fault_store = 7

abbrev pub cause_load_page_fault : ℕ
cause_load_page_fault = 13

abbrev pub cause_store_page_fault : ℕ
cause_store_page_fault = 15

unfoldable pub tlb_idx : ℕ → ℕ
tlb_idx addr = bit_and (addr / 2 ^ 12) 255

-- `addr & ~PG_MASK`, and the tag that an access of a size compares with.
unfoldable pub page_of : ℕ → ℕ
page_of addr = bit_and addr (bit_not 64 0xfff)

unfoldable pub tag_of : ℕ → ℕ → ℕ
tag_of size_log2 addr = bit_and addr (bit_not 64 (bit_and 0xfff (bit_not 64 (2 ^ size_log2 - 1))))

unfoldable pub misaligned : ℕ → ℕ → Bool
misaligned size_log2 addr = any addr (2 ^ size_log2 - 1)

-- The bytes of a value, little-endian, in place of `n` bytes from an offset.
unfoldable pub store_le : (ℕ → ℕ) → ℕ → ℕ → ℕ → ℕ → ℕ
store_le bytes zero off val = bytes
store_le bytes (suc n) off val =
    let rest = store_le bytes n (off + 1) (val / 256) in λ i. if i == off then val % 256 else rest i

-- What a range holds, if there is one.
unfoldable pub read_ram : List PhysMemoryRange → ℕ → ℕ → ℕ → ℕ
read_ram mem_map size_log2 range offset = elim (get_elem? mem_map range) [
  | none ↦ 0
  | some pr ↦ load_le pr.phys_mem (2 ^ size_log2) offset
]

unfoldable pub write_ram : List PhysMemoryRange → ℕ → ℕ → ℕ → ℕ → List PhysMemoryRange
write_ram mem_map size_log2 range offset val = elim (get_elem? mem_map range) [
  | none ↦ mem_map
  | some pr ↦
      set mem_map range (record pr { phys_mem = store_le pr.phys_mem (2 ^ size_log2) offset val })
]

-- A mapping with one entry replaced.
unfoldable pub update : {A : Type 0} → (ℕ → A) → ℕ → A → ℕ → A
update f i v j = if j == i then v else f j

module _ {D : Type 0} where
  unfoldable pub pend : Hart D → ℕ → ℕ → Hart D
  pend h cause tval = record h {
    cpu = record h.cpu { pending_exception = cause; pending_tval = tval };
  }

  -- The value of a hit: the bytes at `mem_addend + addr`.
  unfoldable pub tlb_load : Hart D → ℕ → ℕ → ℕ
  tlb_load h size_log2 addr =
      let m = h.tlb_read_addend (tlb_idx addr) in
      read_ram h.mem_map size_log2 m.range ((m.addend + addr) % 2 ^ 64)

  -- Every store to RAM counts in both sequence numbers, of the machine and of the hart.
  unfoldable pub count_store : Hart D → Hart D
  count_store h = record h {
    memseqno = (h.memseqno + 1) % 2 ^ 64;
    load_res_memseqno = (h.load_res_memseqno + 1) % 2 ^ 64;
  }

  unfoldable pub tlb_store : Hart D → ℕ → ℕ → ℕ → Hart D
  tlb_store h size_log2 addr val =
      let m = h.tlb_write_addend (tlb_idx addr) in
      count_store (record h {
        mem_map = write_ram h.mem_map size_log2 m.range ((m.addend + addr) % 2 ^ 64) val;
      })

  -- A RAM range that was found fills the entry of the page.
  unfoldable pub fill_read : Hart D → ℕ → ℕ → PhysMemoryRange → ℕ → Hart D
  fill_read h addr i pr paddr = record h {
    cpu = record h.cpu { tlb_read = update h.cpu.tlb_read (tlb_idx addr) (page_of addr) };
    tlb_read_addend =
        update h.tlb_read_addend (tlb_idx addr)
          (record { range = i; addend = (paddr - pr.addr + (2 ^ 64 - addr)) % 2 ^ 64 });
  }

  unfoldable pub fill_write : Hart D → ℕ → ℕ → PhysMemoryRange → ℕ → Hart D
  fill_write h addr i pr paddr = record h {
    cpu = record h.cpu { tlb_write = update h.cpu.tlb_write (tlb_idx addr) (page_of addr) };
    tlb_write_addend =
        update h.tlb_write_addend (tlb_idx addr)
          (record { range = i; addend = (paddr - pr.addr + (2 ^ 64 - addr)) % 2 ^ 64 });
  }

  -- A device of 32-bit registers serves a doubleword as two words.
  unfoldable pub device_read : DeviceIo D → Hart D → ℕ → PhysMemoryRange → ℕ → ℕ → ℕ × Hart D
  device_read io h i pr offset size_log2 =
      if test_bit pr.devio_flags size_log2
      then (let r = io.read_func h.devices i offset size_log2 in (r.0, record h { devices = r.1 }))
      else if test_bit pr.devio_flags 2 && size_log2 == 3
      then (let low = io.read_func h.devices i offset 2 in
          let high = io.read_func low.1 i (offset + 4) 2 in
          (bit_or low.0 (high.0 * 2 ^ 32 % 2 ^ 64), record h { devices = high.1 }))
      else (0, h)

  unfoldable pub device_write : DeviceIo D → Hart D → ℕ → PhysMemoryRange → ℕ → ℕ → ℕ → Hart D
  device_write io h i pr offset val size_log2 =
      if test_bit pr.devio_flags size_log2
      then record h { devices = io.write_func h.devices i offset val size_log2 }
      else if test_bit pr.devio_flags 2 && size_log2 == 3
      then (let low = io.write_func h.devices i offset (bit_and val 0xffffffff) 2 in
          record h {
            devices = io.write_func low i (offset + 4) (bit_and (val / 2 ^ 32) 0xffffffff) 2;
          })
      else h

  -- The access to a physical address; one that no range has reads as zero.
  unfoldable pub read_range_at : DeviceIo D → Hart D → ℕ → ℕ → ℕ → ℕ × Hart D
  read_range_at io h size_log2 addr paddr = elim (get_phys_mem_range h.mem_map paddr) [
    | none ↦ (0, h)
    | some i ↦ elim (get_elem? h.mem_map i) [
      | none ↦ (0, h)
      | some pr ↦
          if pr.is_ram
          then (read_ram h.mem_map size_log2 i (paddr - pr.addr), fill_read h addr i pr paddr)
          else device_read io h i pr (paddr - pr.addr) size_log2
    ]
  ]

  unfoldable pub write_range_at : DeviceIo D → Hart D → ℕ → ℕ → ℕ → ℕ → Hart D
  write_range_at io h size_log2 addr paddr val = elim (get_phys_mem_range h.mem_map paddr) [
    | none ↦ h
    | some i ↦ elim (get_elem? h.mem_map i) [
      | none ↦ h
      | some pr ↦
          if pr.is_ram
          then (let marked = set h.mem_map i (phys_mem_set_dirty_bit pr (paddr - pr.addr)) in
              count_store (record (fill_write h addr i pr paddr) {
                mem_map = write_ram marked size_log2 i (paddr - pr.addr) val;
              }))
          else device_write io h i pr (paddr - pr.addr) val size_log2
    ]
  ]

  unfoldable pub riscv_cpu_read_memory : DeviceIo D → Hart D → ℕ → ℕ → PhysRead × Hart D
  riscv_cpu_read_memory io h size_log2 addr =
      if misaligned size_log2 addr
      then (failed, pend h cause_misaligned_load addr)
      else elim (riscv_cpu_get_phys_addr h.cpu h.mem_map addr read) [
        | page_fault ↦ (failed, pend h cause_load_page_fault addr)
        | access_fault ↦ (failed, pend h cause_fault_load addr)
        | crash ↦ (crashed, h)
        | phys paddr ↦
            if riscv_cpu_pmp_access_ok h.cpu paddr (2 ^ size_log2) 1
            then (let r = read_range_at io h size_log2 addr paddr in (loaded r.0, r.1))
            else (failed, pend h cause_fault_load addr)
      ]

  -- A store gives `loaded 0` when it is done.
  unfoldable pub riscv_cpu_write_memory : DeviceIo D → Hart D → ℕ → ℕ → ℕ → PhysRead × Hart D
  riscv_cpu_write_memory io h size_log2 addr val =
      if misaligned size_log2 addr
      then (failed, pend h cause_misaligned_store addr)
      else elim (riscv_cpu_get_phys_addr h.cpu h.mem_map addr write) [
        | page_fault ↦ (failed, pend h cause_store_page_fault addr)
        | access_fault ↦ (failed, pend h cause_fault_store addr)
        | crash ↦ (crashed, h)
        | phys paddr ↦
            if riscv_cpu_pmp_access_ok h.cpu paddr (2 ^ size_log2) 2
            then (loaded 0, write_range_at io h size_log2 addr paddr val)
            else (failed, pend h cause_fault_store addr)
      ]

  -- `*pval = val` at the type of the access.
  unfoldable pub truncate : ℕ → PhysRead × Hart D → PhysRead × Hart D
  truncate size_log2 (loaded v, h) = (loaded (v % 2 ^ (8 * 2 ^ size_log2)), h)
  truncate size_log2 (failed, h) = (failed, h)
  truncate size_log2 (crashed, h) = (crashed, h)

  unfoldable pub target_read : DeviceIo D → Hart D → ℕ → ℕ → PhysRead × Hart D
  target_read io h size_log2 addr =
      let t = check_triggers h.cpu mcontrol_load addr in
      if t.0
      then (failed, record h { cpu = t.1 })
      else if misaligned size_log2 addr
      then (failed, pend h cause_misaligned_load addr)
      else if h.cpu.tlb_read (tlb_idx addr) == tag_of size_log2 addr
      then (loaded (tlb_load h size_log2 addr), h)
      else truncate size_log2 (riscv_cpu_read_memory io h size_log2 addr)

  unfoldable pub target_write : DeviceIo D → Hart D → ℕ → ℕ → ℕ → PhysRead × Hart D
  target_write io h size_log2 addr value =
      let val = value % 2 ^ (8 * 2 ^ size_log2) in
      let t = check_triggers h.cpu mcontrol_store addr in
      if t.0
      then (failed, record h { cpu = t.1 })
      else if misaligned size_log2 addr
      then (failed, pend h cause_misaligned_store addr)
      else if h.cpu.tlb_write (tlb_idx addr) == tag_of size_log2 addr
      then (loaded 0, tlb_store h size_log2 addr val)
      else riscv_cpu_write_memory io h size_log2 addr val
