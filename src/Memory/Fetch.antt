-- ===== src/Memory/Fetch.antt =====
-- Instruction fetch: target_read_insn_slow and target_read_insn_u16 of src/riscv_cpu.cpp, and the
-- start of a block of code in the loop of include/dromajo_template.h. A size is in bits, as there.
pub mod PageEnd
use dromajo.Prelude.{
  ℕ, ◌+◌, ◌-◌, ◌*◌, ◌/◌, ◌%◌, ◌^◌, ◌&&◌, Bool, not, Option, none, some, ◌==◌, leb, if◌then◌else◌,
  get_elem?, bit_and, bit_or,
}
use dromajo.Cpu.Mmu.{
  code, PhysRead, loaded, failed, crashed, page_fault, access_fault, crash, phys, load_le,
  riscv_cpu_get_phys_addr,
}
use dromajo.Cpu.Pmp.{riscv_cpu_pmp_access_ok, pmpcfg_x}
use dromajo.Iomem.{PhysMemoryRange, get_phys_mem_range}
use dromajo.Memory.{Hart, tlb_idx, page_of, pend, update, read_ram}

abbrev pub cause_fault_fetch : ℕ
cause_fault_fetch = 1

abbrev pub cause_fetch_page_fault : ℕ
cause_fetch_page_fault = 12

-- `tlb_idx != tlb_idx_cross`.
unfoldable pub crosses : ℕ → Bool
crosses addr = not (tlb_idx addr == tlb_idx ((addr + 2) % 2 ^ 64))

module _ {D : Type 0} where
  -- The RAM range with its index that `size` bytes may be executed from.
  unfoldable pub executable : Hart D → ℕ → ℕ → Option (ℕ × PhysMemoryRange)
  executable h paddr size =
      if not (riscv_cpu_pmp_access_ok h.cpu paddr size pmpcfg_x)
      then none
      else elim (get_phys_mem_range h.mem_map paddr) [
        | none ↦ none
        | some i ↦ elim (get_elem? h.mem_map i) [
          | none ↦ none
          | some pr ↦ if pr.is_ram then some (i, pr) else none
        ]
      ]

  -- The TLB takes the page if the whole of it may be executed.
  unfoldable pub fill_code : Hart D → ℕ → ℕ × PhysMemoryRange → ℕ → Hart D
  fill_code h addr (i, pr) paddr =
      if riscv_cpu_pmp_access_ok h.cpu (page_of paddr) 4096 pmpcfg_x
      then record h {
        cpu = record h.cpu { tlb_code = update h.cpu.tlb_code (tlb_idx addr) (page_of addr) };
        tlb_code_addend =
            update h.tlb_code_addend (tlb_idx addr)
              (record { range = i; addend = (paddr - pr.addr + (2 ^ 64 - addr)) % 2 ^ 64 });
      }
      else h

  -- The second half of an instruction that crosses into another page.
  unfoldable pub fetch_across : Hart D → ℕ → ℕ → PhysRead × Hart D
  fetch_across h addr data1 =
      elim (riscv_cpu_get_phys_addr h.cpu h.mem_map ((addr + 2) % 2 ^ 64) code) [
        | page_fault ↦ (failed, pend h cause_fetch_page_fault addr)
        | access_fault ↦ (failed, pend h cause_fault_fetch addr)
        | crash ↦ (crashed, h)
        | phys paddr ↦ elim (executable h paddr 2) [
          | none ↦ (failed, pend h cause_fault_fetch addr)
          | some r ↦ (loaded (bit_or data1 (load_le r.1.phys_mem 2 (paddr - r.1.addr) * 2 ^ 16)), h)
        ]
      ]

  -- The bytes at an executable place; another size than 16 and 32 fails the assertion.
  unfoldable pub fetch_from : Hart D → ℕ → ℕ → ℕ → PhysMemoryRange → PhysRead × Hart D
  fetch_from h size addr paddr pr =
      if crosses addr && size == 32
      then fetch_across h addr (load_le pr.phys_mem 2 (paddr - pr.addr))
      else if size == 32
      then (loaded (load_le pr.phys_mem 4 (paddr - pr.addr)), h)
      else if size == 16
      then (loaded (load_le pr.phys_mem 2 (paddr - pr.addr)), h)
      else (crashed, h)

  unfoldable pub target_read_insn_slow : Hart D → ℕ → ℕ → PhysRead × Hart D
  target_read_insn_slow h size addr = elim (riscv_cpu_get_phys_addr h.cpu h.mem_map addr code) [
    | page_fault ↦ (failed, pend h cause_fetch_page_fault addr)
    | access_fault ↦ (failed, pend h cause_fault_fetch addr)
    | crash ↦ (crashed, h)
    | phys paddr ↦ elim (executable h paddr (size / 8)) [
      | none ↦ (failed, pend h cause_fault_fetch addr)
      | some r ↦ fetch_from (fill_code h addr r paddr) size addr paddr r.1
    ]
  ]

  -- The bytes at `mem_addend + addr`.
  unfoldable pub tlb_fetch : Hart D → ℕ → ℕ → ℕ
  tlb_fetch h size_log2 addr =
      let m = h.tlb_code_addend (tlb_idx addr) in
      read_ram h.mem_map size_log2 m.range ((m.addend + addr) % 2 ^ 64)

  unfoldable pub target_read_insn_u16 : Hart D → ℕ → PhysRead × Hart D
  target_read_insn_u16 h addr =
      if h.cpu.tlb_code (tlb_idx addr) == page_of addr
      then (loaded (tlb_fetch h 1 addr), h)
      else target_read_insn_slow h 16 addr

  unfoldable pub join_high : ℕ → PhysRead × Hart D → PhysRead × Hart D
  join_high low (loaded high, h) = (loaded (bit_or low (high * 2 ^ 16)), h)
  join_high low (failed, h) = (failed, h)
  join_high low (crashed, h) = (crashed, h)

  -- The first instruction of a block. In the last two bytes of a page, a hit reads a second half only
  -- for an instruction of 32 bits.
  unfoldable pub fetch_block : Hart D → ℕ → PhysRead × Hart D
  fetch_block h addr =
      if not (h.cpu.tlb_code (tlb_idx addr) == page_of addr)
      then target_read_insn_slow h 32 addr
      else if leb 4094 (addr % 2 ^ 12)
      then (let low = tlb_fetch h 1 addr in
          if bit_and low 3 == 3
          then join_high low (target_read_insn_u16 h ((addr + 2) % 2 ^ 64))
          else (loaded low, h))
      else (loaded (tlb_fetch h 2 addr), h)
