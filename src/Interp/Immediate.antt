-- ===== src/Interp/Immediate.antt =====
-- The computational instructions with an immediate: opcodes 0x13 and 0x1b of the switch in
-- include/dromajo_template.h. Each gives the value for rd, or `none` for ILLEGAL_INSTR.
use dromajo.Prelude.{
  ℕ, ◌+◌, ◌*◌, ◌/◌, ◌%◌, ◌^◌, ◌&&◌, Option, none, some, ◌==◌, ltb, if◌then◌else◌, of_bool, bit_and,
  bit_or, bit_xor,
}
use dromajo.Prelude.Bits.{bit_not}
use dromajo.Cpu.Mstatus.{any}
use dromajo.Interp.{ExtFlags}
use dromajo.Interp.Fields.{imm_i, funct3_of}
use dromajo.Interp.Word.{
  less_signed, shift_right_signed, cpop64, cpopw64, ctz_64, clz64, ctzw64, clzw64, sext_h64,
  sext_b64,
}
use dromajo.Interp.Arith.{funct6_of, funct12_of, shamt_of, int32, bit_at}

-- Opcode 0x13, funct3 1.
unfoldable pub op_imm_1 : ExtFlags → ℕ → ℕ → Option ℕ
op_imm_1 e insn val =
    let imm = imm_i insn in
    if e.zbb && funct12_of insn == 0x601
    then some (ctz_64 val)
    else if e.zbb && funct12_of insn == 0x600
    then some (clz64 val)
    else if e.zbb && funct12_of insn == 0x602
    then some (cpop64 val)
    else if e.zbb && funct12_of insn == 0x605
    then some (sext_h64 val)
    else if e.zbb && funct12_of insn == 0x604
    then some (sext_b64 val)
    else if e.zbs && funct6_of insn == 0x0a
    then some (bit_or val (bit_at (shamt_of insn)))
    else if e.zbs && funct6_of insn == 0x12
    then some (bit_and val (bit_not 64 (bit_at (shamt_of insn))))
    else if e.zbs && funct6_of insn == 0x1a
    then some (bit_xor val (bit_at (shamt_of insn)))
    else if any imm (bit_not 64 63)
    then none
    else some (val * 2 ^ bit_and imm 63 % 2 ^ 64)

-- Opcode 0x13, funct3 5.
unfoldable pub op_imm_5 : ExtFlags → ℕ → ℕ → Option ℕ
op_imm_5 e insn val =
    let imm = imm_i insn in
    if e.zbs && funct6_of insn == 0x12
    then some (bit_and (val / bit_at (shamt_of insn)) 1)
    else if any imm (bit_not 64 (bit_or 63 0x400))
    then none
    else if any imm 0x400
    then some (shift_right_signed 64 val (bit_and imm 63))
    else some (val / 2 ^ bit_and imm 63)

-- Opcode 0x13.
unfoldable pub op_imm : ExtFlags → ℕ → ℕ → Option ℕ
op_imm e insn val =
    let imm = imm_i insn in
    let funct3 = funct3_of insn in
    if funct3 == 0
    then some ((val + imm) % 2 ^ 64)
    else if funct3 == 1
    then op_imm_1 e insn val
    else if funct3 == 2
    then some (of_bool (less_signed val imm))
    else if funct3 == 3
    then some (of_bool (ltb val imm))
    else if funct3 == 4
    then some (bit_xor val imm)
    else if funct3 == 5
    then op_imm_5 e insn val
    else if funct3 == 6
    then some (bit_or val imm)
    else some (bit_and val imm)

-- Opcode 0x1b, funct3 1.
unfoldable pub op_imm_32_1 : ExtFlags → ℕ → ℕ → Option ℕ
op_imm_32_1 e insn val =
    let imm = imm_i insn in
    if e.zba && funct6_of insn == 0x2
    then some (val % 2 ^ 32 * 2 ^ shamt_of insn % 2 ^ 64)
    else if e.zbb && funct12_of insn == 0x601
    then some (ctzw64 e.ctz_of_zero val)
    else if e.zbb && funct12_of insn == 0x602
    then some (cpopw64 val)
    else if e.zbb && funct12_of insn == 0x600
    then some (clzw64 e.ctz_of_zero val)
    else if any imm (bit_not 64 31)
    then none
    else some (int32 (val * 2 ^ bit_and imm 31))

-- Opcode 0x1b.
unfoldable pub op_imm_32 : ExtFlags → ℕ → ℕ → Option ℕ
op_imm_32 e insn val =
    let imm = imm_i insn in
    let funct3 = funct3_of insn in
    if funct3 == 0
    then some (int32 (val + imm))
    else if funct3 == 1
    then op_imm_32_1 e insn val
    else if funct3 == 5
    then if any imm (bit_not 64 (bit_or 31 0x400))
      then none
      else if any imm 0x400
      then some (int32 (shift_right_signed 32 (val % 2 ^ 32) (bit_and imm 31)))
      else some (int32 (val % 2 ^ 32 / 2 ^ bit_and imm 31))
    else none
