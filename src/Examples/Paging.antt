-- ===== src/Examples/Paging.antt =====
-- Translation and protection on concrete harts.
use dromajo.Prelude.{
  ℕ, ◌+◌, ◌*◌, ◌/◌, ◌%◌, ◌^◌, ◌<◌, ◌≡◌, ◌≢◌, inl, refl, arith, true, [], ◌∷◌, ◌==◌, ltb, leb, ◌&&◌,
  if◌then◌else◌,
}
use dromajo.Prelude.Bits.{test_bit, sign_extend}
use dromajo.Cpu.Constants.{prv_m}
use dromajo.Cpu.State.{Cpu, PmpEntry}
use dromajo.Iomem.{PhysMemoryRange, ram_entry, get_phys_mem_range, contains}
use dromajo.Cpu.Mmu.{
  read, phys, leaf, walk, entry_addr, permissions, privilege_ok, riscv_cpu_get_phys_addr,
  riscv_phys_read_u64, read_range, load_le,
}
use dromajo.Cpu.Mmu.Walk.{MappedBy, get_phys_addr-MappedBy}
use dromajo.Cpu.Pmp.{
  napot, trailing_ones, scan_pmp, riscv_cpu_pmp_access_ok, overlaps, entry_permits, data_priv,
}
use dromajo.Cpu.Pmp.Access.{GrantedBy, pmp_access_ok-Granted}
use dromajo.Cpu.Pmp.Napot.{napot_region}
use dromajo.Examples.{hart}

-- Supervisor mode under Sv39, the root page at 0x1000 with one leaf of a gigabyte.
abbrev paged_hart : Cpu
paged_hart = record hart {
  priv = 1;
  satp = 8 * 2 ^ 60 + 1;
  pmp = record { lo = 0; hi = 2 ^ 40; cfg = 0x1f } ∷ [];
}

root_byte : ℕ → ℕ
root_byte off = if off == 0x1000 then 0xcf else 0

ram : PhysMemoryRange
ram = record (ram_entry 0 0x10000 0) { phys_mem = root_byte }

translates : riscv_cpu_get_phys_addr paged_hart (ram ∷ []) 0x1234 read ≡ phys 0x1234
unfolding riscv_cpu_get_phys_addr data_priv sign_extend walk entry_addr riscv_phys_read_u64
    get_phys_mem_range contains read_range load_le ram ram_entry root_byte leaf permissions
    privilege_ok test_bit riscv_cpu_pmp_access_ok scan_pmp overlaps entry_permits
translates = refl

supervisor : data_priv paged_hart ≢ prv_m
unfolding data_priv
supervisor h = ground arith

get_phys_addr-MappedBy_example :
    (sign_extend (12 + 3 * 9) 0x1234 ≡ 0x1234)
    × MappedBy paged_hart 0x1234 read
        (data_priv paged_hart)
        (riscv_phys_read_u64 paged_hart (ram ∷ []))
        3
        0x1234
    × (0x1234 % 2 ^ 12 ≡ 0x1234 % 2 ^ 12)
get_phys_addr-MappedBy_example =
    get_phys_addr-MappedBy paged_hart (ram ∷ []) 0x1234 read 0x1234 supervisor (inl refl) translates

-- A leaf at level 1 whose page number is 2.
low_page_number : 0x8cf / 2 ^ 10 % 2 ^ 9 ≢ 0
low_page_number h = ground arith

-- One unlocked entry, readable.
abbrev readable : PmpEntry
readable = record { lo = 0x1000; hi = 0x2000; cfg = 0x19 }

abbrev protected_hart : Cpu
protected_hart = record hart { priv = 0; pmp = readable ∷ [] }

lets_through : riscv_cpu_pmp_access_ok protected_hart 0x1800 8 1 ≡ true
unfolding riscv_cpu_pmp_access_ok scan_pmp overlaps entry_permits data_priv
lets_through = refl

user_access : data_priv protected_hart < 3
unfolding data_priv
user_access = omega arith

pmp_access_ok-Granted_example :
    (0x1800 < 2 ^ protected_hart.physical_addr_len) × GrantedBy (readable ∷ []) 0x1800 8 1
pmp_access_ok-Granted_example =
    pmp_access_ok-Granted protected_hart 0x1800 8 1 (omega arith) (omega arith) refl user_access
      lets_through

napot_region_example :
    let e = napot 0x19 0x401 in
    let bytes = 2 ^ (trailing_ones 64 0x401 + 3) in
    (e.cfg ≡ 0x19) × ((leb e.lo 0x1008 && ltb 0x1008 e.hi) ≡ (0x1008 / bytes == 0x401 * 4 / bytes))
napot_region_example = napot_region 0x19 0x401 0x1008 (omega arith)
