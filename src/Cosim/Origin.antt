-- ===== src/Cosim/Origin.antt =====
-- Where the attempts of a step come from.
use mathlib.Core.Path.{subst}
use dromajo.Memory.{pend}
use dromajo.Cpu.Mmu.{PhysRead, loaded, failed, crashed}
use dromajo.Memory.Fetch.{target_read_insn_slow, fetch_from, fetch_across, fill_code}
use dromajo.Cosim.{read_word}
use dromajo.Prelude.{
  ℕ, zero, suc, ◌/◌, ◌%◌, ◌^◌, ◌≡◌, ◌≢◌, refl, sym, ◌⊎◌, inl, inr, true, false, not, Option, none,
  some, arith, ◌==◌, ◌&&◌, if◌then◌else◌, Bool-cases, bit_and, bit_or,
}
use dromajo.Prelude.Bits.{bit_and-low}
use dromajo.Prelude.Returns.{Holds, >>=-Holds, either_Holds, Anything, Holds-Anything}
use dromajo.Cpu.State.{Cpu}
use dromajo.Cpu.Constants.{prv_s}
use dromajo.Cpu.Interrupt.{riscv_cpu_set_mip}
use dromajo.Memory.{Hart, DeviceIo}
use dromajo.Interp.{ExtFlags}
use dromajo.Interp.Fields.{opcode_of, rd_of}
use dromajo.Interp.Loop.{minus_one, riscv_cpu_interp64, with_cpu}
use dromajo.Cosim.{
  Machine, Dut, Attempt, ran, differs, again, with_hart, is_store_conditional, riscv_set_reg,
  run_one, race, fail_store, try_insn, try_until, riscv_read_insn,
}

module _ {D : Type 0} (io : DeviceIo D) (e : ExtFlags) (read_hook : Cpu → ℕ → Option ℕ)
    (write_hook : Cpu → ℕ → ℕ → Option Cpu) (uninit_insn uninit_pa : ℕ) where
  -- A hart at `emu_pc`, or what the interpreter left of a hart there: it took the exception that an
  -- interrupt raced.
  abbrev pub StartsAt : ℕ → ℕ → Type 0
  StartsAt emu_pc pc =
      (emu_pc ≡ pc)
      ⊎ ((h : Hart D) × (t : Hart D) × (count : ℕ) × (riscv_cpu_interp64 io e read_hook write_hook h
              1
            ≡ some (count, t))
          × (emu_pc ≡ h.cpu.pc)
          × (t.cpu.pc ≡ pc))

  -- The interpreter has run an instruction, and left the hart of `m` and the number of the register
  -- that was written last.
  pub record Executed (m : Machine D) (emu_pc iregno : ℕ) : Type 0 where
    pub before : Hart D
    pub starts : StartsAt emu_pc before.cpu.pc
    pub count : ℕ
    pub runs : riscv_cpu_interp64 io e read_hook write_hook before 1 ≡ some (count, m.hart)
    pub counted : count ≢ 0
    pub last_written : iregno ≡ m.hart.cpu.most_recently_written_reg

  -- The DUT's store-conditional at the hart's pc has failed: it gave a value other than 0.
  pub record FailedStore (dut : Dut) (emu_pc emu_insn : ℕ) : Type 0 where
    pub opcode : emu_insn % 2 ^ 7 ≡ 0x2f
    pub funct5 : emu_insn / 2 ^ 27 ≡ 3
    pub failed : dut.wdata ≢ 0
    pub same_pc : emu_pc ≡ dut.pc
    pub same_insn : emu_insn ≡ dut.insn

  -- The exception that the hart has taken is not the DUT's.
  abbrev pub OtherCause : Machine D → Type 0
  OtherCause m =
      let s = m.hart.cpu in
      m.pending_exception ≢ (if s.priv == 1 then s.scause else s.mcause) % 2 ^ 32

  abbrev pub Origin : Dut → Attempt D → Type 0
  Origin dut (ran m emu_pc emu_insn iregno) =
      Executed m emu_pc iregno ⊎ FailedStore dut emu_pc emu_insn
  Origin dut (differs m) = OtherCause m
  Origin dut (again m) = Unit

  Holds-self : {A : Type 0} (o : Option A) → Holds (λ a. o ≡ some a) o
  Holds-self none = tt
  Holds-self (some a) = refl

  run_one-Origin :
      (m : Machine D) (dut : Dut) (emu_pc emu_insn : ℕ)
      → StartsAt emu_pc m.hart.cpu.pc
      → Holds
          (Origin dut)
          (run_one io e read_hook write_hook uninit_insn uninit_pa m emu_pc emu_insn)
  unfolding run_one riscv_cpu_set_mip
  run_one-Origin m dut emu_pc emu_insn start =
      let bit = 2 ^ m.pending_interrupt % 2 ^ 32 in
      let h = m.hart in
      let told =
        if m.pending_interrupt == minus_one
        then h
        else with_cpu h
            (riscv_cpu_set_mip h.has_pending_interrupt h.cosim (bit_or h.cpu.mip bit) h.cpu) in
      let kept : m.hart.cpu.pc ≡ told.cpu.pc = ground arith in
      let run = riscv_cpu_interp64 io e read_hook write_hook told 1 in
      >>=-Holds (λ (r : ℕ × Hart D). run ≡ some r) (Origin dut) run _ (Holds-self run)
        (λ r found. elim (Bool-cases (r.0 == 0)) [
          | inl none_run ↦ rw none_run tt
          | inr some_run ↦ rw some_run (
              inl record {
                before = told;
                starts = subst (StartsAt emu_pc) kept start;
                count = r.0;
                runs = found;
                counted = ground (arith, some_run);
                last_written = refl;
              })
        ])

  other_cause : (a b : ℕ) → (a == b) ≡ false → a ≢ b
  other_cause a b ne same = ground arith

  race-Origin :
      (m : Machine D) (dut : Dut) (emu_pc emu_insn : ℕ)
      → emu_pc ≡ m.hart.cpu.pc
      → Holds (Origin dut) (race io e read_hook write_hook uninit_insn uninit_pa m emu_pc emu_insn)
  unfolding race
  race-Origin m dut emu_pc emu_insn start =
      let run = riscv_cpu_interp64 io e read_hook write_hook m.hart 1 in
      >>=-Holds (λ (r : ℕ × Hart D). run ≡ some r) (Origin dut) run _ (Holds-self run)
        (λ r found.
          let s = r.1.cpu in
          let cause = if s.priv == prv_s then s.scause else s.mcause in
          elim (Bool-cases (m.pending_exception == cause % 2 ^ 32)) [
            | inl taken ↦ rw taken (
                run_one-Origin (with_hart m r.1) dut emu_pc emu_insn
                  (inr (m.hart, r.1, r.0, found, start, refl)))
            | inr other ↦
                rw other (λ same. other_cause m.pending_exception (cause % 2 ^ 32) other same)
          ])

  fail_store-Origin :
      (m : Machine D) (dut : Dut) (emu_pc emu_insn : ℕ)
      → FailedStore dut emu_pc emu_insn
      → Holds
          (Origin dut)
          (fail_store io e read_hook write_hook uninit_insn uninit_pa m dut emu_pc emu_insn)
  unfolding fail_store
  fail_store-Origin m dut emu_pc emu_insn f =
      let rd = rd_of emu_insn in
      let written = if rd == 0 then some m.hart else riscv_set_reg m.hart rd dut.wdata in
      >>=-Holds Anything (Origin dut) written _ (Holds-Anything written) (λ h _. inr f)

  is_failed :
      (dut : Dut) (emu_pc emu_insn : ℕ)
      → (emu_pc == dut.pc
          && emu_insn == dut.insn
          && is_store_conditional emu_insn
          && not (dut.wdata == 0))
        ≡ true
      → FailedStore dut emu_pc emu_insn
  unfolding is_store_conditional opcode_of
  is_failed dut emu_pc emu_insn h = record {
    opcode = ground (arith, bit_and-low 7 emu_insn);
    funct5 = ground arith;
    failed = ground arith;
    same_pc = ground arith;
    same_insn = ground arith;
  }

  fetch-pc : (h : Hart D) (addr : ℕ) → (target_read_insn_slow h 32 addr).1.cpu.pc ≡ h.cpu.pc
  unfolding target_read_insn_slow fetch_from fetch_across fill_code pend
  fetch-pc h addr = ground arith

  read_word-pc :
      (r : PhysRead × Hart D) (pc : ℕ)
      → r.1.cpu.pc ≡ pc
      → Holds
          (λ (w : ℕ × Hart D). w.1.cpu.pc ≡ pc)
          (read_word io e read_hook write_hook uninit_insn uninit_pa r)
  unfolding read_word
  read_word-pc (loaded insn, h) pc same = same
  read_word-pc (failed, h) pc same = same
  read_word-pc (crashed, h) pc same = tt

  read_insn-pc :
      (h : Hart D) (addr : ℕ)
      → Holds
          (λ (w : ℕ × Hart D). w.1.cpu.pc ≡ h.cpu.pc)
          (riscv_read_insn io e read_hook write_hook uninit_insn uninit_pa h addr)
  unfolding riscv_read_insn
  read_insn-pc h addr =
      let Same = λ (w : ℕ × Hart D). w.1.cpu.pc ≡ h.cpu.pc in
      let fetched = target_read_insn_slow h 32 addr in
      >>=-Holds Same Same (read_word io e read_hook write_hook uninit_insn uninit_pa fetched) _
        (read_word-pc fetched h.cpu.pc (fetch-pc h addr)) (λ r same. same)

  try_insn-Origin :
      (m : Machine D) (dut : Dut)
      → Holds (Origin dut) (try_insn io e read_hook write_hook uninit_insn uninit_pa m dut)
  unfolding try_insn
  try_insn-Origin m0 dut =
      let emu_pc = m0.hart.cpu.pc in
      let fetched =
        riscv_read_insn io e read_hook write_hook uninit_insn uninit_pa m0.hart emu_pc in
      >>=-Holds (λ (w : ℕ × Hart D). w.1.cpu.pc ≡ emu_pc) (Origin dut) fetched _
        (read_insn-pc m0.hart emu_pc)
        (λ r same.
          let m = with_hart m0 r.1 in
          let emu_insn = if bit_and r.0 3 == 3 then r.0 else bit_and r.0 0xffff in
          let failing =
            emu_pc == dut.pc
            && emu_insn == dut.insn
            && is_store_conditional emu_insn
            && not (dut.wdata == 0) in
          let racing =
            not (m.pending_interrupt == minus_one) && not (m.pending_exception == minus_one) in
          let ordinary =
            either_Holds (Origin dut) racing
              (race io e read_hook write_hook uninit_insn uninit_pa m emu_pc emu_insn)
              (run_one io e read_hook write_hook uninit_insn uninit_pa m emu_pc emu_insn)
              (race-Origin m dut emu_pc emu_insn (sym same))
              (run_one-Origin m dut emu_pc emu_insn (inl (sym same))) in
          elim (Bool-cases failing) [
            | inl fails ↦
                rw fails
                  (fail_store-Origin m dut emu_pc emu_insn (is_failed dut emu_pc emu_insn fails))
            | inr works ↦ rw works ordinary
          ])

  pub try_until-Origin :
      (fuel : ℕ) (m : Machine D) (dut : Dut)
      → Holds (Origin dut) (try_until io e read_hook write_hook uninit_insn uninit_pa fuel m dut)
  unfolding try_until
  try_until-Origin zero m dut = tt
  try_until-Origin (suc fuel) m dut =
      let tried = try_insn io e read_hook write_hook uninit_insn uninit_pa m dut in
      >>=-Holds (Origin dut) (Origin dut) tried _ (try_insn-Origin m dut) (λ a o.
        elim a
            as (λ (b : Attempt D).
              Origin dut b
              → Holds (Origin dut) (elim b [
                | again t ↦ try_until io e read_hook write_hook uninit_insn uninit_pa fuel t dut
                | ran t emu_pc emu_insn iregno ↦ some (ran t emu_pc emu_insn iregno)
                | differs t ↦ some (differs t)
              ])) [
                | again t ↦ λ _. try_until-Origin fuel t dut
                | ran t emu_pc emu_insn iregno ↦ λ k. k
                | differs t ↦ λ k. k
              ]
          o)
