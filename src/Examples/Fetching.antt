-- ===== src/Examples/Fetching.antt =====
-- A fetch at the end of a page, on a concrete hart.
use dromajo.Prelude.{
  ℕ, ◌+◌, ◌-◌, ◌*◌, ◌%◌, ◌^◌, ◌≡◌, ◌≢◌, refl, arith, true, some, [], ◌∷◌, ◌==◌, if◌then◌else◌,
  bit_and,
}
use dromajo.Prelude.Bits.{test_bit, sign_extend}
use dromajo.Iomem.{PhysMemoryRange, ram_entry, get_phys_mem_range, contains}
use dromajo.Cpu.Mmu.{
  code, phys, page_fault, loaded, failed, leaf, walk, entry_addr, permissions, privilege_ok,
  riscv_cpu_get_phys_addr, riscv_phys_read_u64, read_range, load_le,
}
use dromajo.Cpu.Pmp.{
  scan_pmp, riscv_cpu_pmp_access_ok, overlaps, entry_permits, data_priv, pmpcfg_x,
}
use dromajo.Memory.{Hart, page_of, tlb_idx, pend}
use dromajo.Memory.Fetch.{executable, fill_code, fetch_block, cause_fetch_page_fault}
use dromajo.Memory.Fetch.PageEnd.{fetch_block-page_end}
use dromajo.Examples.{hart}
use dromajo.Examples.Accesses.{board}

-- Supervisor mode under Sv39; the root page at 0x1000 maps the first gigabyte and nothing else.
abbrev gigabyte : Hart Unit
gigabyte = record board {
  cpu = record hart {
    priv = 1;
    satp = 8 * 2 ^ 60 + 1;
    pmp = record { lo = 0; hi = 2 ^ 40; cfg = 0x1f } ∷ [];
  };
  mem_map =
      record (ram_entry 0 0x4000_0000 0) { phys_mem = λ i. if i == 0x1000 then 0xcf else 0 } ∷ [];
}

abbrev first_range : PhysMemoryRange
first_range = record (ram_entry 0 0x4000_0000 0) { phys_mem = λ i. if i == 0x1000 then 0xcf else 0 }

abbrev last_halfword : ℕ
last_halfword = 0x3fff_fffe

no_entry : gigabyte.cpu.tlb_code (tlb_idx last_halfword) ≢ page_of last_halfword
unfolding page_of
no_entry h = ground arith

mapped :
    riscv_cpu_get_phys_addr gigabyte.cpu gigabyte.mem_map last_halfword code ≡ phys last_halfword
unfolding riscv_cpu_get_phys_addr data_priv sign_extend walk entry_addr riscv_phys_read_u64
    get_phys_mem_range contains read_range load_le ram_entry leaf permissions privilege_ok test_bit
    riscv_cpu_pmp_access_ok scan_pmp overlaps entry_permits
mapped = refl

may_execute : executable gigabyte last_halfword 4 ≡ some (0, first_range)
unfolding executable get_phys_mem_range contains ram_entry riscv_cpu_pmp_access_ok scan_pmp overlaps
    entry_permits test_bit
may_execute = refl

whole_page : riscv_cpu_pmp_access_ok gigabyte.cpu (page_of last_halfword) 4096 pmpcfg_x ≡ true
unfolding page_of riscv_cpu_pmp_access_ok scan_pmp overlaps entry_permits
whole_page = refl

compressed : bit_and (load_le first_range.phys_mem 2 (last_halfword - first_range.addr)) 3 ≢ 3
unfolding load_le ram_entry
compressed h = ground arith

unmapped :
    riscv_cpu_get_phys_addr
      (fill_code gigabyte last_halfword (0, first_range) last_halfword).cpu
      gigabyte.mem_map
      ((last_halfword + 2) % 2 ^ 64)
      code
    ≡ page_fault
unfolding riscv_cpu_get_phys_addr data_priv sign_extend walk entry_addr riscv_phys_read_u64
    fill_code get_phys_mem_range contains read_range load_le ram_entry leaf permissions privilege_ok
    test_bit riscv_cpu_pmp_access_ok scan_pmp overlaps entry_permits page_of
unmapped = refl

fetch_block-page_end_example :
    let t = fill_code gigabyte last_halfword (0, first_range) last_halfword in
    (fetch_block gigabyte last_halfword ≡ (failed, pend t cause_fetch_page_fault last_halfword))
    × (fetch_block t last_halfword
        ≡ (loaded (load_le first_range.phys_mem 2 (last_halfword - first_range.addr)), t))
fetch_block-page_end_example =
    fetch_block-page_end gigabyte last_halfword last_halfword 0 first_range (omega arith) refl
      no_entry (omega arith) mapped may_execute refl whole_page compressed unmapped
