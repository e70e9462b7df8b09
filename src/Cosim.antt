-- ===== src/Cosim.antt =====
-- The comparison of a hart with a design under test, instruction by instruction:
-- src/dromajo_cosim.cpp. An `int` is a 32-bit word, and -1 is `minus_one`. `none` is a failed
-- assertion, a crash or an instruction that is not modelled.
pub mod Agreement
pub mod Overrides
pub mod Origin
use dromajo.Prelude.{
  ℕ, zero, suc, ◌+◌, ◌-◌, ◌*◌, ◌/◌, ◌%◌, ◌^◌, ◌&&◌, ◌||◌, Bool, true, false, not, Option, none,
  some, List, [], ◌∷◌, ◌==◌, ltb, leb, if◌then◌else◌, bit_and, bit_or, get_or, set, ◌>>=◌,
  get_elem?,
}
use dromajo.Prelude.Bits.{sign_extend}
use dromajo.Cpu.Constants.{prv_s}
use dromajo.Cpu.State.{Cpu}
use dromajo.Cpu.Csr.Write.{pc_mask}
use dromajo.Cpu.Interrupt.{riscv_cpu_set_mip}
use dromajo.Cpu.Mmu.{
  read, PhysRead, loaded, failed, crashed, phys, page_fault, access_fault, crash,
  riscv_cpu_get_phys_addr,
}
use dromajo.Cpu.Pmp.{riscv_cpu_pmp_access_ok}
use dromajo.Iomem.{get_phys_mem_range}
use dromajo.Memory.{Hart, DeviceIo}
use dromajo.Memory.Fetch.{target_read_insn_slow}
use dromajo.Interp.{ExtFlags, read_reg}
use dromajo.Interp.Fields.{opcode_of, rd_of, rs1_of, funct3_of, get_field1, c_lw_imm, c_ld_imm}
use dromajo.Interp.Loop.{minus_one, riscv_cpu_interp64, with_cpu}

abbrev pub pmpcfg_r : ℕ
pmpcfg_r = 1

-- The parts of `VirtMachine` that the comparison uses, and the hart that is compared. The hart's
-- `has_pending_interrupt` says whether `pending_interrupt` is not -1.
pub record Machine (D : Type 0) : Type 0 where
  pub maxinsns : ℕ
  pub pending_interrupt : ℕ
  pub pending_exception : ℕ
  pub hart : Hart D

-- What the design under test has done.
pub record Dut : Type 0 where
  pub pc : ℕ
  pub insn : ℕ
  pub wdata : ℕ

unfoldable pub is_store_conditional : ℕ → Bool
is_store_conditional insn =
    opcode_of insn == 0x2f && insn / 2 ^ 27 == 3 && (funct3_of insn == 2 || funct3_of insn == 3)

unfoldable pub is_amo : ℕ → Bool
is_amo insn =
    let f = insn / 2 ^ 27 in
    opcode_of insn == 0x2f
    && (f == 1
        || f == 2
        || f == 0
        || f == 4
        || f == 0xc
        || f == 8
        || f == 0x10
        || f == 0x14
        || f == 0x18
        || f == 0x1c)

-- All registers but x0.
unfoldable pub sync_from : List ℕ → List ℕ → List ℕ
sync_from (p ∷ ps) (r ∷ rs) = p ∷ rs
sync_from prior reg = prior

-- The counters and the pending interrupts, which cannot be simulated.
unfoldable pub is_counter : ℕ → Bool
is_counter csrno =
    leb 0xb00 csrno && ltb csrno 0xb20
    || leb 0xc00 csrno && ltb csrno 0xc20
    || (csrno == 0x344 || csrno == 0x144)

-- The destination, base register and offset of a load or AMO.
unfoldable pub load_of : ℕ → Option (ℕ × ℕ × ℕ)
load_of insn =
    let rdc = bit_and (insn / 2 ^ 2) 7 + 8 in
    let rs1c = bit_and (insn / 2 ^ 7) 7 + 8 in
    if (opcode_of insn == 3 || is_amo insn) && not (rd_of insn == 0)
    then some
        (rd_of insn, rs1_of insn, if opcode_of insn == 3 then sign_extend 12 (insn / 2 ^ 20) else 0)
    else if bit_and insn 0xe003 == 0x6000
    then some (rdc, rs1c, c_ld_imm insn)
    else if bit_and insn 0xe003 == 0x4000
    then some (rdc, rs1c, c_lw_imm insn)
    else none

module _ {D : Type 0} where
  -- The assertion is `0 < rn && rn < 32`.
  unfoldable pub riscv_set_reg : Hart D → ℕ → ℕ → Option (Hart D)
  riscv_set_reg h rn val =
      if ltb 0 rn && ltb rn 32
      then some (with_cpu h (record h.cpu { reg = set h.cpu.reg rn val }))
      else none

  unfoldable pub riscv_set_pc : Hart D → ℕ → Hart D
  riscv_set_pc h val = with_cpu h (record h.cpu { pc = bit_and val (pc_mask h.cpu) })

  unfoldable pub riscv_cpu_sync_regs : Hart D → Hart D
  riscv_cpu_sync_regs h =
      with_cpu h (record h.cpu { reg_prior = sync_from h.cpu.reg_prior h.cpu.reg })

  unfoldable pub set_pending_interrupt : Machine D → ℕ → Machine D
  set_pending_interrupt m cause = record m {
    pending_interrupt = cause;
    hart = record m.hart { has_pending_interrupt = not (cause == minus_one) };
  }

  abbrev pub with_hart : Machine D → Hart D → Machine D
  with_hart m h = record m { hart = h }

  -- A negative cause is an interrupt; two at a time fail the assertion.
  unfoldable pub dromajo_cosim_raise_trap : Machine D → ℕ → Option (Machine D)
  dromajo_cosim_raise_trap m cause =
      if leb (2 ^ 63) cause
      then if m.pending_interrupt == minus_one
        then some (set_pending_interrupt m (bit_and cause 63))
        else none
      else some (record m { pending_exception = cause % 2 ^ 32 })

-- `uninit_insn` and `uninit_pa` are what the local variables of the source hold when the read of the
-- instruction or the translation has failed: the callers do not look at its return value.
module _ {D : Type 0} (uninit_pa : ℕ) where
  unfoldable pub mmio_at : Hart D → ℕ → ℕ → Bool
  mmio_at h pa size =
      riscv_cpu_pmp_access_ok h.cpu pa size pmpcfg_r
      && elim (get_phys_mem_range h.mem_map pa) [ none ↦ true | some i ↦ false ]

  unfoldable pub is_mmio_load : Hart D → ℕ → ℕ → ℕ → Option Bool
  is_mmio_load h reg offset size =
      let va = (get_or h.cpu.reg_prior reg 0 + offset) % 2 ^ 64 in
      elim (riscv_cpu_get_phys_addr h.cpu h.mem_map va read) [
        | phys paddr ↦ some (mmio_at h paddr size)
        | page_fault ↦ some (mmio_at h uninit_pa size)
        | access_fault ↦ some (mmio_at h uninit_pa size)
        | crash ↦ none
      ]

  unfoldable pub handle_dut_overrides : Hart D → ℕ → ℕ → Option (Hart D)
  handle_dut_overrides h insn dut_wdata =
      let counted =
        if opcode_of insn == 0x73 && not (rd_of insn == 0) && is_counter (insn / 2 ^ 20)
        then riscv_set_reg h (rd_of insn) dut_wdata
        else some h in
      counted >>= (λ t. elim (load_of insn) [
        | none ↦ some t
        | some (rd, reg, offset) ↦
            is_mmio_load t reg offset (bit_and (insn / 2 ^ 12) 3)
            >>= (λ mmio. if mmio then riscv_set_reg t rd dut_wdata else some t)
      ])

-- What one try to run an instruction comes to: an instruction at `emu_pc` was run and wrote register
-- `iregno`; the DUT's exception differs, which ends the step; or an exception came first.
pub data Attempt (D : Type 0) : Type 0 where
  ran : Machine D → ℕ → ℕ → ℕ → Attempt D
  differs : Machine D → Attempt D
  again : Machine D → Attempt D

-- The destination and its value, if an instruction wrote one; `iregno > 0` of an `int`.
unfoldable pub wrote_data : ℕ → Bool
wrote_data iregno = ltb 0 iregno && ltb iregno (2 ^ 31)

abbrev pub error_code : ℕ
error_code = 0x1fff

module _ {D : Type 0} where
  -- The exit code of the comparison. The DUT expands compressed instructions, so that only others are
  -- compared.
  unfoldable pub compare_with : Hart D → Dut → ℕ → ℕ → ℕ → ℕ
  compare_with h dut emu_pc emu_insn iregno =
      if not (emu_pc == dut.pc)
        || not (emu_insn == dut.insn) && bit_and emu_insn 3 == 3
        || wrote_data iregno && not (read_reg h.cpu iregno == dut.wdata)
      then error_code
      else 0

module _ {D : Type 0} (uninit_pa : ℕ) where
  -- After the loop.
  unfoldable pub check_attempt : Bool → Dut → Attempt D → Option (ℕ × Machine D)
  check_attempt check dut (ran m emu_pc emu_insn iregno) =
      if check
      then handle_dut_overrides uninit_pa m.hart emu_insn dut.wdata >>= (λ h.
        some (compare_with h dut emu_pc emu_insn iregno, with_hart m (riscv_cpu_sync_regs h)))
      else some (0, m)
  check_attempt check dut (differs m) = some (error_code, m)
  check_attempt check dut (again m) = none

module _ {D : Type 0} (io : DeviceIo D) (e : ExtFlags) (read_hook : Cpu → ℕ → Option ℕ)
    (write_hook : Cpu → ℕ → ℕ → Option Cpu) (uninit_insn uninit_pa : ℕ) where
  -- The instruction at an address; the pending exception is protected from the fetch.
  unfoldable pub read_word : PhysRead × Hart D → Option (ℕ × Hart D)
  read_word (loaded insn, h) = some (insn, h)
  read_word (failed, h) = some (uninit_insn, h)
  read_word (crashed, h) = none

  unfoldable pub riscv_read_insn : Hart D → ℕ → Option (ℕ × Hart D)
  riscv_read_insn h addr = read_word (target_read_insn_slow h 32 addr) >>= (λ r. some (
    r.0,
    with_cpu r.1 (record r.1.cpu {
      pending_exception = h.cpu.pending_exception;
      pending_tval = h.cpu.pending_tval;
    }),
  ))

  abbrev pub interp : Hart D → ℕ → Option (ℕ × Hart D)
  interp h n = riscv_cpu_interp64 io e read_hook write_hook h n

  -- The interrupt that the DUT has taken becomes pending, and one instruction is run. `1 << n` of 32
  -- or more, which C leaves open, is 0.
  unfoldable pub run_one : Machine D → ℕ → ℕ → Option (Attempt D)
  run_one m emu_pc emu_insn =
      let bit = 2 ^ m.pending_interrupt % 2 ^ 32 in
      let h = m.hart in
      let told =
        if m.pending_interrupt == minus_one
        then h
        else with_cpu h
            (riscv_cpu_set_mip h.has_pending_interrupt h.cosim (bit_or h.cpu.mip bit) h.cpu) in
      interp told 1 >>= (λ r.
        if r.0 == 0
        then some (
            again (record (set_pending_interrupt (with_hart m r.1) minus_one) {
              pending_exception = minus_one;
            }))
        else some (ran (with_hart m r.1) emu_pc emu_insn r.1.cpu.most_recently_written_reg))

  -- An interrupt that races an exception: the exception is taken first and its cause compared.
  unfoldable pub race : Machine D → ℕ → ℕ → Option (Attempt D)
  race m emu_pc emu_insn = interp m.hart 1 >>= (λ r.
      let s = r.1.cpu in
      let cause = if s.priv == prv_s then s.scause else s.mcause in
      if m.pending_exception == cause % 2 ^ 32
      then run_one (with_hart m r.1) emu_pc emu_insn
      else some (differs (with_hart m r.1)))

  -- A store-conditional that failed on the DUT fails here.
  unfoldable pub fail_store : Machine D → Dut → ℕ → ℕ → Option (Attempt D)
  fail_store m dut emu_pc emu_insn =
      let rd = rd_of emu_insn in
      (if rd == 0 then some m.hart else riscv_set_reg m.hart rd dut.wdata) >>= (λ h.
        some (ran (with_hart m (riscv_set_pc h ((emu_pc + 4) % 2 ^ 64))) emu_pc emu_insn rd))

  unfoldable pub try_insn : Machine D → Dut → Option (Attempt D)
  try_insn m0 dut =
      let emu_pc = m0.hart.cpu.pc in
      riscv_read_insn m0.hart emu_pc >>= (λ r.
        let m = with_hart m0 r.1 in
        let emu_insn = if bit_and r.0 3 == 3 then r.0 else bit_and r.0 0xffff in
        if emu_pc == dut.pc
          && emu_insn == dut.insn
          && is_store_conditional emu_insn
          && not (dut.wdata == 0)
        then fail_store m dut emu_pc emu_insn
        else if not (m.pending_interrupt == minus_one) && not (m.pending_exception == minus_one)
        then race m emu_pc emu_insn
        else run_one m emu_pc emu_insn)

  -- The loop until an instruction is run, on fuel: a handler whose first instruction faults again is
  -- never left.
  unfoldable pub try_until : ℕ → Machine D → Dut → Option (Attempt D)
  try_until zero m dut = none
  try_until (suc fuel) m dut = try_insn m dut >>= (λ a. elim a [
    | again t ↦ try_until fuel t dut
    | ran t emu_pc emu_insn iregno ↦ some (ran t emu_pc emu_insn iregno)
    | differs t ↦ some (differs t)
  ])

  unfoldable pub dromajo_cosim_step : ℕ → Machine D → Dut → Bool → Option (ℕ × Machine D)
  dromajo_cosim_step fuel m0 dut check =
      let m = record m0 { maxinsns = m0.maxinsns - 1 } in
      if m0.maxinsns == 0
      then some (1, m0)
      else if m.hart.terminate_simulation
      then some (1, m)
      else try_until fuel m dut >>= (λ a. check_attempt uninit_pa check dut a)
