-- ===== src/Interp/System.antt =====
-- The system instructions: opcodes 0x73 and 0x0f of the switch in include/dromajo_template.h. The
-- hooks of the machine for its own registers are arguments, as those of `csr_read` and `csr_write`.
use dromajo.Prelude.{
  ℕ, ◌+◌, ◌/◌, ◌%◌, ◌^◌, ◌&&◌, ◌||◌, true, not, Option, none, some, ◌==◌, ltb, if◌then◌else◌,
  bit_and, bit_or,
}
use dromajo.Prelude.Bits.{test_bit, bit_not}
use dromajo.Cpu.Constants.{prv_u, prv_s, prv_m, mstatus_tvm}
use dromajo.Cpu.State.{Cpu}
use dromajo.Cpu.Mstatus.{any, tlb_flush_all}
use dromajo.Cpu.Trap.{handle_sret, handle_mret, handle_dret}
use dromajo.Cpu.Csr.Read.{csr_read}
use dromajo.Cpu.Csr.Write.{Written, invalid, done, flushed, csr_write}
use dromajo.Memory.{Hart}
use dromajo.Interp.{
  Flow, next, jump, exception, illegal_insn, done_interp, ctf_nop, cause_breakpoint, read_reg,
  write_rd, set_pending,
}
use dromajo.Interp.Fields.{rd_of, rs1_of, funct3_of}
use dromajo.Interp.Transfer.{on_cpu}

abbrev pub mstatus_tw : ℕ
mstatus_tw = 2 ^ 21

abbrev pub mstatus_tsr : ℕ
mstatus_tsr = 2 ^ 22

abbrev pub cause_user_ecall : ℕ
cause_user_ecall = 8

abbrev pub sbi_shutdown : ℕ
sbi_shutdown = 8

-- The counters take in the instructions since the start of the call, unless they are stopped.
unfoldable pub count_insns : Cpu → ℕ → Cpu
count_insns s delta =
    if s.stop_the_counter
    then s
    else record s { mcycle = (s.mcycle + delta) % 2 ^ 64; minstret = (s.minstret + delta) % 2 ^ 64 }

-- The operand: rs1's number under funct3 & 4, else the register.
unfoldable pub csr_operand : Cpu → ℕ → ℕ
csr_operand s insn = if test_bit insn 14 then rs1_of insn else read_reg s (rs1_of insn)

-- After the write: `rd` takes the old value; a flush ends the run of straight code.
unfoldable pub csr_written : Cpu → ℕ → ℕ → Written → Cpu × Flow
csr_written s insn old invalid = (s, illegal_insn)
csr_written s insn old (done t) = (write_rd t (rd_of insn) old, next 4)
csr_written s insn old (flushed t) =
    (record (write_rd t (rd_of insn) old) { pc = (s.pc + 4) % 2 ^ 64 }, jump ctf_nop)

module _ (read_hook : Cpu → ℕ → Option ℕ) (write_hook : Cpu → ℕ → ℕ → Option Cpu) where
  -- csrrw, csrrs and csrrc with their immediate forms; `delta` instructions came before.
  unfoldable pub exec_csr : Cpu → ℕ → ℕ → Cpu × Flow
  exec_csr s0 delta insn =
      let s = count_insns s0 delta in
      let csr = insn / 2 ^ 20 in
      let val = csr_operand s insn in
      let f = bit_and (funct3_of insn) 3 in
      let will_write = f == 1 || not (rs1_of insn == 0) in
      elim (csr_read read_hook s csr will_write) [
        | none ↦ (s, illegal_insn)
        | some old ↦
            if not will_write
            then (write_rd s (rd_of insn) old, next 4)
            else (let new =
                  if f == 1
                  then val
                  else if f == 2
                  then bit_or old val
                  else bit_and old (bit_not 64 val) in
                csr_written s insn old (csr_write write_hook s csr new))
      ]

-- `insn & 0x000fff80` and `insn & 0x00007f80`: the fields that have to be zero.
unfoldable pub exec_ecall : {D : Type 0} → Hart D → ℕ → Hart D × Flow
exec_ecall h insn =
    let s = h.cpu in
    if any insn 0xfff80 then (h, illegal_insn) else (
      record h {
        cpu = set_pending s (cause_user_ecall + s.priv);
        terminate_simulation =
            h.terminate_simulation
            || (not h.ignore_sbi_shutdown && (s.priv == prv_m && read_reg s 0x17 == sbi_shutdown));
      },
      exception,
    )

unfoldable pub exec_ebreak : Cpu → ℕ → Cpu × Flow
exec_ebreak s insn =
    if any insn 0xfff80 then (s, illegal_insn) else (set_pending s cause_breakpoint, exception)

unfoldable pub exec_sret : Cpu → ℕ → Cpu × Flow
exec_sret s insn =
    if any insn 0xfff80 || ltb s.priv prv_s || (s.priv == prv_s && any s.mstatus mstatus_tsr)
    then (s, illegal_insn)
    else (handle_sret s, done_interp)

unfoldable pub exec_mret : Cpu → ℕ → Cpu × Flow
exec_mret s insn =
    if any insn 0xfff80 || ltb s.priv prv_m then (s, illegal_insn) else (handle_mret s, done_interp)

unfoldable pub exec_dret : Cpu → ℕ → Cpu × Flow
exec_dret s insn =
    if not s.debug_mode || any insn 0xfff80 || ltb s.priv prv_m
    then (s, illegal_insn)
    else (handle_dret s, done_interp)

unfoldable pub exec_wfi : {D : Type 0} → Hart D → ℕ → Hart D × Flow
exec_wfi h insn =
    let s = h.cpu in
    if any insn 0x7f80 || s.priv == prv_u || (s.priv == prv_s && any s.mstatus mstatus_tw)
    then (h, illegal_insn)
    else if (not (any s.mip s.mie) && not h.has_pending_interrupt) || not h.cosim
    then on_cpu h (record s { power_down_flag = true; pc = (s.pc + 4) % 2 ^ 64 }, done_interp)
    else (h, next 4)

-- A flush of one address is a flush of all.
unfoldable pub tlb_flush_vaddr : Cpu → ℕ → Cpu
tlb_flush_vaddr s vaddr = tlb_flush_all s

unfoldable pub exec_sfence_vma : Cpu → ℕ → Cpu × Flow
exec_sfence_vma s insn =
    if any insn 0x7f80 || s.priv == prv_u || (s.priv == prv_s && any s.mstatus mstatus_tvm)
    then (s, illegal_insn)
    else (let t =
          if rs1_of insn == 0
          then tlb_flush_all s
          else tlb_flush_vaddr s (read_reg s (rs1_of insn)) in
        (record t { pc = (s.pc + 4) % 2 ^ 64 }, jump ctf_nop))

-- funct3 0, by the upper twelve bits.
unfoldable pub exec_privileged : {D : Type 0} → Hart D → ℕ → Hart D × Flow
exec_privileged h insn =
    let imm = insn / 2 ^ 20 in
    let s = h.cpu in
    if imm == 0
    then exec_ecall h insn
    else if imm == 1
    then on_cpu h (exec_ebreak s insn)
    else if imm == 0x102
    then on_cpu h (exec_sret s insn)
    else if imm == 0x302
    then on_cpu h (exec_mret s insn)
    else if imm == 0x7b2
    then on_cpu h (exec_dret s insn)
    else if imm == 0x105
    then exec_wfi h insn
    else if imm / 2 ^ 5 == 9
    then on_cpu h (exec_sfence_vma s insn)
    else (h, illegal_insn)

-- fence and fence.i do nothing.
unfoldable pub exec_misc_mem : Cpu → ℕ → Cpu × Flow
exec_misc_mem s insn = if ltb (funct3_of insn) 2 then (s, next 4) else (s, illegal_insn)
