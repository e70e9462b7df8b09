-- ===== src/Memory/Fetch/PageEnd.antt =====
-- An instruction in the last two bytes of a page, fetched without and with a TLB entry.
use dromajo.Prelude.{
  ℕ, List, ◌+◌, ◌-◌, ◌/◌, ◌%◌, ◌^◌, ◌<◌, ◌≡◌, ◌≢◌, refl, ap, sym, ◌∙◌, true, some, arith, get_elem?,
  bit_and,
}
use dromajo.Prelude.Bits.{bit_and-low}
use dromajo.Cpu.Mmu.{code, loaded, failed, page_fault, phys, load_le, riscv_cpu_get_phys_addr}
use dromajo.Cpu.Pmp.{riscv_cpu_pmp_access_ok, pmpcfg_x}
use dromajo.Iomem.{PhysMemoryRange}
use dromajo.Memory.{Hart, tlb_idx, page_of, pend, update, read_ram, MemAddend}
use dromajo.Memory.Fetch.{
  executable, fill_code, crosses, fetch_across, fetch_from, target_read_insn_slow, tlb_fetch,
  fetch_block, cause_fetch_page_fault,
}

page_end-crosses : (addr : ℕ) → addr < 2 ^ 64 → addr % 2 ^ 12 ≡ 4094 → crosses addr ≡ true
unfolding crosses tlb_idx
page_end-crosses addr w last =
    ground (arith, bit_and-low 8 (addr / 2 ^ 12), bit_and-low 8 ((addr + 2) % 2 ^ 64 / 2 ^ 12))

through :
    (off addr : ℕ)
    → off < 2 ^ 64
    → addr < 2 ^ 64
    → ((off + (2 ^ 64 - addr)) % 2 ^ 64 + addr) % 2 ^ 64 ≡ off
through off addr a b = omega arith

update_self : {A : Type 0} (f : ℕ → A) (i : ℕ) (v : A) → update f i v i ≡ v
unfolding update
update_self f i v = ground arith

read_ram-here :
    (mem_map : List PhysMemoryRange) (pr : PhysMemoryRange) (k i off : ℕ)
    → get_elem? mem_map i ≡ some pr
    → read_ram mem_map k i off ≡ load_le pr.phys_mem (2 ^ k) off
unfolding read_ram
read_ram-here mem_map pr k i off elem = rw (read_ram, elem) refl

-- A hit in the last two bytes of a page, on a compressed instruction.
hit_page_end :
    {D : Type 0} (t : Hart D) (addr : ℕ)
    → addr % 2 ^ 12 ≡ 4094
    → t.cpu.tlb_code (tlb_idx addr) ≡ page_of addr
    → bit_and (tlb_fetch t 1 addr) 3 ≢ 3
    → fetch_block t addr ≡ (loaded (tlb_fetch t 1 addr), t)
unfolding fetch_block
hit_page_end t addr last hit short = ground (arith, last, hit, short)

module _ {D : Type 0} (h : Hart D) (addr paddr i : ℕ) (pr : PhysMemoryRange) where
  filled :
      riscv_cpu_pmp_access_ok h.cpu (page_of paddr) 4096 pmpcfg_x ≡ true
      → fill_code h addr (i, pr) paddr ≡ record h {
        cpu = record h.cpu { tlb_code = update h.cpu.tlb_code (tlb_idx addr) (page_of addr) };
        tlb_code_addend =
            update h.tlb_code_addend
              (tlb_idx addr)
              (record { range = i; addend = (paddr - pr.addr + (2 ^ 64 - addr)) % 2 ^ 64 });
      }
  unfolding fill_code
  filled ok = ground (arith, ok)

  filled_half :
      addr < 2 ^ 64
      → paddr < 2 ^ 64
      → get_elem? h.mem_map i ≡ some pr
      → tlb_fetch
          record h {
            cpu = record h.cpu { tlb_code = update h.cpu.tlb_code (tlb_idx addr) (page_of addr) };
            tlb_code_addend =
                update h.tlb_code_addend
                  (tlb_idx addr)
                  (record { range = i; addend = (paddr - pr.addr + (2 ^ 64 - addr)) % 2 ^ 64 });
          }
          1
          addr
        ≡ load_le pr.phys_mem 2 (paddr - pr.addr)
  unfolding tlb_fetch
  filled_half w pw elem =
      let m : MemAddend = record {
        range = i;
        addend = (paddr - pr.addr + (2 ^ 64 - addr)) % 2 ^ 64;
      } in
      let off = through (paddr - pr.addr) addr (omega arith) w in
      rw (update_self h.tlb_code_addend (tlb_idx addr) m, off)
        (read_ram-here h.mem_map pr 1 i (paddr - pr.addr) elem)

  -- A compressed instruction stands in the last two bytes of a page of RAM that may be executed as a
  -- whole, as may the four bytes from its physical address on, and its fetch misses the TLB. If the
  -- translation of the next page gives a page fault, then the fetch does too, at the instruction's own
  -- address; yet it has filled the TLB, and with that entry the fetch gives the instruction.
  pub fetch_block-page_end :
      addr < 2 ^ 64
      → addr % 2 ^ 12 ≡ 4094
      → h.cpu.tlb_code (tlb_idx addr) ≢ page_of addr
      → paddr < 2 ^ 64
      → riscv_cpu_get_phys_addr h.cpu h.mem_map addr code ≡ phys paddr
      → executable h paddr 4 ≡ some (i, pr)
      → get_elem? h.mem_map i ≡ some pr
      → riscv_cpu_pmp_access_ok h.cpu (page_of paddr) 4096 pmpcfg_x ≡ true
      → bit_and (load_le pr.phys_mem 2 (paddr - pr.addr)) 3 ≢ 3
      → riscv_cpu_get_phys_addr
          (fill_code h addr (i, pr) paddr).cpu
          h.mem_map
          ((addr + 2) % 2 ^ 64)
          code
        ≡ page_fault
      → let t = fill_code h addr (i, pr) paddr in
        (fetch_block h addr ≡ (failed, pend t cause_fetch_page_fault addr))
        × (fetch_block t addr ≡ (loaded (load_le pr.phys_mem 2 (paddr - pr.addr)), t))
  unfolding fetch_block target_read_insn_slow fetch_from fetch_across
  fetch_block-page_end w last miss pw here ok elem whole short next_page =
      let f = filled whole in
      let c = page_end-crosses addr w last in
      let t = fill_code h addr (i, pr) paddr in
      let tag : t.cpu.tlb_code (tlb_idx addr) ≡ page_of addr =
        ap (λ (r : Hart D). r.cpu.tlb_code (tlb_idx addr)) f
        ∙ update_self h.cpu.tlb_code (tlb_idx addr) (page_of addr) in
      let half : tlb_fetch t 1 addr ≡ load_le pr.phys_mem 2 (paddr - pr.addr) =
        ap (λ (r : Hart D). tlb_fetch r 1 addr) f ∙ filled_half w pw elem in
      (
        ground (arith, miss, here, ok, c, next_page, f),
        hit_page_end t addr last tag (λ e. short (sym (ap (λ (v : ℕ). bit_and v 3) half) ∙ e))
            ∙ ap (λ (v : ℕ). (loaded v, t)) half,
      )
