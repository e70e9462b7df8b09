-- ===== src/Interp/Jump.antt =====
-- lui, auipc, jal, jalr and the branches: opcodes 0x37, 0x17, 0x6f, 0x67 and 0x63 of the switch in
-- include/dromajo_template.h.
pub mod Aligned
use dromajo.Prelude.{
  ℕ, ◌+◌, ◌/◌, ◌%◌, ◌^◌, ◌&&◌, Bool, true, false, not, xor, Option, none, some, ◌==◌, ltb,
  if◌then◌else◌, bit_and, bit_or,
}
use dromajo.Prelude.Bits.{test_bit, bit_not}
use dromajo.Cpu.State.{Cpu}
use dromajo.Cpu.Mstatus.{any}
use dromajo.Interp.{
  Flow, next, jump, exception, illegal_insn, ctf_taken_jump, ctf_taken_branch, ctf_compute_hint,
  cause_misaligned_fetch, read_reg, write_rd, set_pending,
}
use dromajo.Interp.Fields.{rd_of, rs1_of, rs2_of, funct3_of, imm_i, imm_b, imm_u, imm_j}
use dromajo.Interp.Word.{less_signed}

unfoldable pub exec_lui : Cpu → ℕ → Cpu × Flow
exec_lui s insn = (write_rd s (rd_of insn) (imm_u insn), next 4)

unfoldable pub exec_auipc : Cpu → ℕ → Cpu × Flow
exec_auipc s insn = (write_rd s (rd_of insn) ((s.pc + imm_u insn) % 2 ^ 64), next 4)

-- Without the C extension an instruction stands at a multiple of four.
unfoldable pub fetch_misaligned : Cpu → ℕ → Bool
fetch_misaligned s new_pc = not (test_bit s.misa 2) && any new_pc 3

unfoldable pub exec_jal : Cpu → ℕ → Cpu × Flow
exec_jal s insn =
    let new_pc = (s.pc + imm_j insn) % 2 ^ 64 in
    if fetch_misaligned s new_pc then (set_pending s cause_misaligned_fetch, exception) else (
      record (write_rd s (rd_of insn) ((s.pc + 4) % 2 ^ 64)) { pc = new_pc },
      jump ctf_taken_jump,
    )

unfoldable pub exec_jalr : Cpu → ℕ → Cpu × Flow
exec_jalr s insn =
    let new_pc = bit_and ((read_reg s (rs1_of insn) + imm_i insn) % 2 ^ 64) (bit_not 64 1) in
    if not (funct3_of insn == 0)
    then (s, illegal_insn)
    else if fetch_misaligned s new_pc
    then (set_pending s cause_misaligned_fetch, exception)
    else (
      write_rd (record s { pc = new_pc }) (rd_of insn) ((s.pc + 4) % 2 ^ 64),
      jump (ctf_compute_hint (rd_of insn) (rs1_of insn)),
    )

-- `cond`: none for the two encodings that are no branch.
unfoldable pub branch_cond : ℕ → ℕ → ℕ → Option Bool
branch_cond funct3 a b =
    let odd = bit_and funct3 1 == 1 in
    if funct3 / 2 == 0
    then some (xor (a == b) odd)
    else if funct3 / 2 == 2
    then some (xor (less_signed a b) odd)
    else if funct3 / 2 == 3
    then some (xor (ltb a b) odd)
    else none

unfoldable pub exec_branch : Cpu → ℕ → Cpu × Flow
exec_branch s insn =
    let new_pc = (s.pc + imm_b insn) % 2 ^ 64 in
    elim (branch_cond (funct3_of insn) (read_reg s (rs1_of insn)) (read_reg s (rs2_of insn))) [
      | none ↦ (s, illegal_insn)
      | some cond ↦
          if not cond
          then (s, next 4)
          else if fetch_misaligned s new_pc
          then (set_pending s cause_misaligned_fetch, exception)
          else (record s { pc = new_pc }, jump ctf_taken_branch)
    ]
