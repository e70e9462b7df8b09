-- ===== src/Interp/Compressed.antt =====
-- The compressed instructions: the three quadrants of the switch in include/dromajo_template.h at
-- XLEN = 64. c.fld, c.fsd, c.fldsp and c.fsdsp use the floating-point registers: they are `none`.
use dromajo.Prelude.{
  ℕ, ◌+◌, ◌-◌, ◌*◌, ◌/◌, ◌%◌, ◌^◌, Bool, not, Option, none, some, ◌==◌, if◌then◌else◌, bit_and,
  bit_or, bit_xor,
}
use dromajo.Prelude.Bits.{test_bit, bit_not}
use dromajo.Cpu.State.{Cpu}
use dromajo.Memory.{Hart, DeviceIo, target_read, target_write}
use dromajo.Interp.{
  Flow, next, jump, exception, illegal_insn, ctf_taken_jump, ctf_taken_branch, ctf_compute_hint,
  cause_breakpoint, read_reg, write_reg, set_pending,
}
use dromajo.Interp.Fields.{
  rd_of, get_field1, c_imm6, c_addi4spn_imm, c_addi16sp_imm, c_lui_imm, c_j_imm, c_b_imm, c_lw_imm,
  c_ld_imm, c_lwsp_imm, c_ldsp_imm, c_swsp_imm, c_sdsp_imm, sext,
}
use dromajo.Interp.Word.{shift_right_signed}
use dromajo.Interp.Arith.{int32}
use dromajo.Interp.Transfer.{and_then, write_loaded, on_cpu}

-- The registers x8 to x15 of the short fields, and the full field at bit 2.
unfoldable pub short_reg_2 : ℕ → ℕ
short_reg_2 insn = bit_or (bit_and (insn / 2 ^ 2) 7) 8

unfoldable pub short_reg_7 : ℕ → ℕ
short_reg_7 insn = bit_or (bit_and (insn / 2 ^ 7) 7) 8

unfoldable pub c_rs2 : ℕ → ℕ
c_rs2 insn = bit_and (insn / 2 ^ 2) 0x1f

unfoldable pub c_funct3 : ℕ → ℕ
c_funct3 insn = bit_and (insn / 2 ^ 13) 7

-- The address `read_reg(rs1) + imm`.
unfoldable pub address : Cpu → ℕ → ℕ → ℕ
address s rs1 imm = (read_reg s rs1 + imm) % 2 ^ 64

unfoldable pub exec_c_addi4spn : Cpu → ℕ → Cpu × Flow
exec_c_addi4spn s insn =
    let imm = c_addi4spn_imm insn in
    if imm == 0
    then (s, illegal_insn)
    else (write_reg s (short_reg_2 insn) ((read_reg s 2 + imm) % 2 ^ 64), next 2)

-- Quadrant 1 up to c.lui.
unfoldable pub exec_c_addi : Cpu → ℕ → Cpu × Flow
exec_c_addi s insn =
    let rd = rd_of insn in
    if rd == 0
    then (s, next 2)
    else (write_reg s rd ((read_reg s rd + sext (c_imm6 insn) 6) % 2 ^ 64), next 2)

unfoldable pub exec_c_addiw : Cpu → ℕ → Cpu × Flow
exec_c_addiw s insn =
    let rd = rd_of insn in
    if rd == 0
    then (s, illegal_insn)
    else (write_reg s rd (int32 (read_reg s rd + sext (c_imm6 insn) 6)), next 2)

unfoldable pub exec_c_li : Cpu → ℕ → Cpu × Flow
exec_c_li s insn =
    let rd = rd_of insn in
    if rd == 0 then (s, next 2) else (write_reg s rd (sext (c_imm6 insn) 6), next 2)

unfoldable pub exec_c_lui : Cpu → ℕ → Cpu × Flow
exec_c_lui s insn =
    let rd = rd_of insn in
    if rd == 2
    then if c_addi16sp_imm insn == 0
      then (s, illegal_insn)
      else (write_reg s 2 ((read_reg s 2 + c_addi16sp_imm insn) % 2 ^ 64), next 2)
    else if c_lui_imm insn == 0
    then (s, illegal_insn)
    else if rd == 0
    then (s, next 2)
    else (write_reg s rd (c_lui_imm insn), next 2)

-- Quadrant 1, funct3 4: shifts, c.andi and the operations on two short registers.
unfoldable pub c_arith : ℕ → ℕ → ℕ → Option ℕ
c_arith funct3 a b =
    if funct3 == 0
    then some ((a + (2 ^ 64 - b)) % 2 ^ 64)
    else if funct3 == 1
    then some (bit_xor a b)
    else if funct3 == 2
    then some (bit_or a b)
    else if funct3 == 3
    then some (bit_and a b)
    else if funct3 == 4
    then some (int32 (a + (2 ^ 64 - b)))
    else if funct3 == 5
    then some (int32 (a + b))
    else none

unfoldable pub exec_c_arith : Cpu → ℕ → Cpu × Flow
exec_c_arith s insn =
    let kind = bit_and (insn / 2 ^ 10) 3 in
    let rd = short_reg_7 insn in
    let a = read_reg s rd in
    if kind == 0
    then (write_reg s rd (a / 2 ^ c_imm6 insn), next 2)
    else if kind == 1
    then (write_reg s rd (shift_right_signed 64 a (c_imm6 insn)), next 2)
    else if kind == 2
    then (write_reg s rd (bit_and a (sext (c_imm6 insn) 6)), next 2)
    else elim (c_arith (bit_or (bit_and (insn / 2 ^ 5) 3) (bit_and (insn / 2 ^ 10) 4)) a
        (read_reg s (short_reg_2 insn))) [
          | none ↦ (s, illegal_insn)
          | some v ↦ (write_reg s rd v, next 2)
        ]

unfoldable pub exec_c_j : Cpu → ℕ → Cpu × Flow
exec_c_j s insn = (record s { pc = (s.pc + c_j_imm insn) % 2 ^ 64 }, jump ctf_taken_jump)

-- c.beqz and c.bnez, taken on `cond`.
unfoldable pub exec_c_branch : Cpu → ℕ → Bool → Cpu × Flow
exec_c_branch s insn cond =
    if cond
    then (record s { pc = (s.pc + c_b_imm insn) % 2 ^ 64 }, jump ctf_taken_branch)
    else (s, next 2)

unfoldable pub exec_quadrant_1 : Cpu → ℕ → Cpu × Flow
exec_quadrant_1 s insn =
    let funct3 = c_funct3 insn in
    let zero_reg = read_reg s (short_reg_7 insn) == 0 in
    if funct3 == 0
    then exec_c_addi s insn
    else if funct3 == 1
    then exec_c_addiw s insn
    else if funct3 == 2
    then exec_c_li s insn
    else if funct3 == 3
    then exec_c_lui s insn
    else if funct3 == 4
    then exec_c_arith s insn
    else if funct3 == 5
    then exec_c_j s insn
    else if funct3 == 6
    then exec_c_branch s insn zero_reg
    else exec_c_branch s insn (not zero_reg)

-- Quadrant 2, funct3 0 and 4.
unfoldable pub exec_c_slli : Cpu → ℕ → Cpu × Flow
exec_c_slli s insn =
    let rd = rd_of insn in
    let imm = bit_or (get_field1 insn 12 5 5) (c_rs2 insn) in
    if rd == 0 then (s, next 2) else (write_reg s rd (read_reg s rd * 2 ^ imm % 2 ^ 64), next 2)

unfoldable pub exec_c_jr_mv : Cpu → ℕ → Cpu × Flow
exec_c_jr_mv s insn =
    let rd = rd_of insn in
    if c_rs2 insn == 0
    then if rd == 0
      then (s, illegal_insn)
      else (record s { pc = bit_and (read_reg s rd) (bit_not 64 1) }, jump (ctf_compute_hint 0 rd))
    else if rd == 0
    then (s, next 2)
    else (write_reg s rd (read_reg s (c_rs2 insn)), next 2)

unfoldable pub exec_c_jalr_add : Cpu → ℕ → Cpu × Flow
exec_c_jalr_add s insn =
    let rd = rd_of insn in
    if c_rs2 insn == 0
    then if rd == 0 then (set_pending s cause_breakpoint, exception) else (
      write_reg (record s { pc = bit_and (read_reg s rd) (bit_not 64 1) }) 1 ((s.pc + 2) % 2 ^ 64),
      jump (ctf_compute_hint 1 rd),
    )
    else if rd == 0
    then (s, next 2)
    else (write_reg s rd ((read_reg s rd + read_reg s (c_rs2 insn)) % 2 ^ 64), next 2)

unfoldable pub exec_c_cr : Cpu → ℕ → Cpu × Flow
exec_c_cr s insn = if test_bit insn 12 then exec_c_jalr_add s insn else exec_c_jr_mv s insn

module _ {D : Type 0} (io : DeviceIo D) where
  -- A load of a word (size_log2 2) or doubleword and a store, both from a compressed encoding.
  unfoldable pub c_load : Hart D → ℕ → ℕ → ℕ → Hart D × Flow
  c_load h size_log2 addr rd =
      and_then (target_read io h size_log2 addr)
        (λ rval t. write_loaded t rd (if size_log2 == 2 then int32 rval else rval) 2)

  unfoldable pub c_store : Hart D → ℕ → ℕ → ℕ → Hart D × Flow
  c_store h size_log2 addr val =
      and_then (target_write io h size_log2 addr val) (λ _ t. (t, next 2))

  unfoldable pub exec_quadrant_0 : Hart D → ℕ → Option (Hart D × Flow)
  exec_quadrant_0 h insn =
      let funct3 = c_funct3 insn in
      let s = h.cpu in
      let rd = short_reg_2 insn in
      let word = address s (short_reg_7 insn) (c_lw_imm insn) in
      let doubleword = address s (short_reg_7 insn) (c_ld_imm insn) in
      if funct3 == 0
      then some (on_cpu h (exec_c_addi4spn s insn))
      else if funct3 == 1
      then none
      else if funct3 == 2
      then some (c_load h 2 word rd)
      else if funct3 == 3
      then some (c_load h 3 doubleword rd)
      else if funct3 == 5
      then none
      else if funct3 == 6
      then some (c_store h 2 word (read_reg s rd))
      else if funct3 == 7
      then some (c_store h 3 doubleword (read_reg s rd))
      else some (h, illegal_insn)

  -- c.lwsp and c.ldsp have no form for x0.
  unfoldable pub c_load_sp : Hart D → ℕ → ℕ → ℕ → Hart D × Flow
  c_load_sp h size_log2 imm rd =
      if rd == 0 then (h, illegal_insn) else c_load h size_log2 (address h.cpu 2 imm) rd

  unfoldable pub exec_quadrant_2 : Hart D → ℕ → Option (Hart D × Flow)
  exec_quadrant_2 h insn =
      let funct3 = c_funct3 insn in
      let s = h.cpu in
      let val = read_reg s (c_rs2 insn) in
      if funct3 == 0
      then some (on_cpu h (exec_c_slli s insn))
      else if funct3 == 1
      then none
      else if funct3 == 2
      then some (c_load_sp h 2 (c_lwsp_imm insn) (rd_of insn))
      else if funct3 == 3
      then some (c_load_sp h 3 (c_ldsp_imm insn) (rd_of insn))
      else if funct3 == 4
      then some (on_cpu h (exec_c_cr s insn))
      else if funct3 == 5
      then none
      else if funct3 == 6
      then some (c_store h 2 (address s 2 (c_swsp_imm insn)) val)
      else some (c_store h 3 (address s 2 (c_sdsp_imm insn)) val)
