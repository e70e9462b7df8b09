-- ===== src/Cosim/Overrides.antt =====
-- What is taken over from the design under test.
use dromajo.Prelude.{
  ℕ, ◌+◌, ◌/◌, ◌%◌, ◌^◌, ◌≡◌, refl, ap, sym, ◌∙◌, ◌⊎◌, inl, inr, Bool, true, false, not, Option,
  none, some, arith, ◌==◌, ltb, leb, ◌&&◌, Bool-cases, Option-cases, bit_and, get_or,
}
use dromajo.Cpu.Mmu.{
  Translation, read, phys, page_fault, access_fault, crash, riscv_cpu_get_phys_addr,
}
use dromajo.Iomem.{get_phys_mem_range}
use dromajo.Memory.{Hart}
use dromajo.Interp.Fields.{opcode_of, rd_of}
use dromajo.Cosim.{is_counter, load_of, mmio_at, is_mmio_load, handle_dut_overrides}

-- A system instruction on a counter (0xb00 to 0xb1f, 0xc00 to 0xc1f), mip or sip.
abbrev pub OnCounter : ℕ → Type 0
OnCounter insn =
    (opcode_of insn ≡ 0x73)
    × (((insn / 2 ^ 20 / 32 ≡ 0x58) ⊎ (insn / 2 ^ 20 / 32 ≡ 0x60))
        ⊎ ((insn / 2 ^ 20 ≡ 0x344) ⊎ (insn / 2 ^ 20 ≡ 0x144)))

-- A load or AMO whose physical address no range has; `uninit_pa` stands for an address that was not
-- translated.
pub record OffMap {D : Type 0} (uninit_pa : ℕ) (h : Hart D) (insn : ℕ) : Type 0 where
  pub rd : ℕ
  pub base : ℕ
  pub offset : ℕ
  pub paddr : ℕ
  pub decoded : load_of insn ≡ some (rd, base, offset)
  pub translated :
      (riscv_cpu_get_phys_addr h.cpu h.mem_map
          ((get_or h.cpu.reg_prior base 0 + offset) % 2 ^ 64)
          read
        ≡ phys paddr)
      ⊎ (paddr ≡ uninit_pa)
  pub unmapped : get_phys_mem_range h.mem_map paddr ≡ none

counter_number :
    (c : ℕ)
    → is_counter c ≡ true
    → ((c / 32 ≡ 0x58) ⊎ (c / 32 ≡ 0x60)) ⊎ ((c ≡ 0x344) ⊎ (c ≡ 0x144))
unfolding is_counter
counter_number c h = elim (Bool-cases (leb 0xb00 c && ltb c 0xb20)) [
  | inl a ↦ inl (inl (ground arith))
  | inr a ↦ elim (Bool-cases (leb 0xc00 c && ltb c 0xc20)) [
    | inl b ↦ inl (inr (ground arith))
    | inr b ↦ inr (ground arith)
  ]
]

some-true : {b : Bool} → some b ≡ some true → b ≡ true
some-true {b} e = ap (λ (o : Option Bool). elim o [ none ↦ b | some c ↦ c ]) e

module _ {D : Type 0} (uninit_pa : ℕ) where
  mmio_at_unmapped :
      (h : Hart D) (paddr size : ℕ)
      → mmio_at uninit_pa h paddr size ≡ true
      → get_phys_mem_range h.mem_map paddr ≡ none
  unfolding mmio_at
  mmio_at_unmapped h paddr size e = elim (Option-cases (get_phys_mem_range h.mem_map paddr)) [
    | inl off ↦ off
    | inr (i, at) ↦ absurd (ground (arith, at, e))
  ]

  -- The address that was looked up.
  looked_up :
      (h : Hart D) (r : Translation) (size : ℕ)
      → elim r [
        | phys paddr ↦ some (mmio_at uninit_pa h paddr size)
        | page_fault ↦ some (mmio_at uninit_pa h uninit_pa size)
        | access_fault ↦ some (mmio_at uninit_pa h uninit_pa size)
        | crash ↦ none
      ]
        ≡ some true
      → (paddr : ℕ) × ((r ≡ phys paddr) ⊎ (paddr ≡ uninit_pa))
        × (get_phys_mem_range h.mem_map paddr ≡ none)
  looked_up h (phys paddr) size e = (paddr, inl refl, mmio_at_unmapped h paddr size (some-true e))
  looked_up h page_fault size e =
      (uninit_pa, inr refl, mmio_at_unmapped h uninit_pa size (some-true e))
  looked_up h access_fault size e =
      (uninit_pa, inr refl, mmio_at_unmapped h uninit_pa size (some-true e))
  looked_up h crash size e = absurd (cc e)

  is_mmio_load-OffMap :
      (h : Hart D) (insn rd base offset size : ℕ)
      → load_of insn ≡ some (rd, base, offset)
      → is_mmio_load uninit_pa h base offset size ≡ some true
      → OffMap uninit_pa h insn
  unfolding is_mmio_load
  is_mmio_load-OffMap h insn rd base offset size decoded e =
      let va = (get_or h.cpu.reg_prior base 0 + offset) % 2 ^ 64 in
      let (paddr, translated, unmapped) =
        looked_up h (riscv_cpu_get_phys_addr h.cpu h.mem_map va read) size e in
      record {
        rd = rd;
        base = base;
        offset = offset;
        paddr = paddr;
        decoded = decoded;
        translated = translated;
        unmapped = unmapped;
      }

  -- The overrides leave the hart alone, but for a counter or a load from outside the memory map.
  pub handle_dut_overrides_lem :
      (h t : Hart D) (insn wdata : ℕ)
      → handle_dut_overrides uninit_pa h insn wdata ≡ some t
      → (t ≡ h) ⊎ (OnCounter insn ⊎ OffMap uninit_pa h insn)
  unfolding handle_dut_overrides
  handle_dut_overrides_lem h t insn wdata e =
      let counter = opcode_of insn == 0x73 && not (rd_of insn == 0) && is_counter (insn / 2 ^ 20) in
      let size = bit_and (insn / 2 ^ 12) 3 in
      elim (Bool-cases counter) [
        | inl c ↦ inr (inl (ground (arith, c), counter_number (insn / 2 ^ 20) (ground (arith, c))))
        | inr c ↦ elim (Option-cases (load_of insn)) [
          | inl no_load ↦
              let through : handle_dut_overrides uninit_pa h insn wdata ≡ some h =
                rw (handle_dut_overrides, c, no_load) refl in
              inl (cc (sym through ∙ e))
          | inr ((rd, base, offset), decoded) ↦
              elim (Option-cases (is_mmio_load uninit_pa h base offset size)) [
                | inl stuck ↦
                    let stops : handle_dut_overrides uninit_pa h insn wdata ≡ none =
                      rw (handle_dut_overrides, c, decoded, stuck) refl in
                    absurd (cc (sym stops ∙ e))
                | inr (true, mmio) ↦
                    inr (inr (is_mmio_load-OffMap h insn rd base offset size decoded mmio))
                | inr (false, mmio) ↦
                    let through : handle_dut_overrides uninit_pa h insn wdata ≡ some h =
                      rw (handle_dut_overrides, c, decoded, mmio) refl in
                    inl (cc (sym through ∙ e))
              ]
        ]
      ]
