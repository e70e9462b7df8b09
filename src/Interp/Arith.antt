-- ===== src/Interp/Arith.antt =====
-- The computational instructions: opcodes 0x33 and 0x3b of the switch in
-- include/dromajo_template.h. Each gives the value for rd, or `none` for ILLEGAL_INSTR.

pub mod Bounds
pub mod Zbb
use dromajo.Prelude.{
  ℕ, ◌+◌, ◌-◌, ◌*◌, ◌/◌, ◌%◌, ◌^◌, ◌&&◌, Bool, true, false, not, Option, none, some, ◌==◌, ltb,
  if◌then◌else◌, of_bool, bit_and, bit_or, bit_xor,
}
use dromajo.Prelude.Bits.{test_bit, bit_not, sign_extend}
use dromajo.Cpu.Mstatus.{any}
use dromajo.Alu.{clmul64, clmulh64, clmulr64, div64, rem64}
use dromajo.Interp.{ExtFlags}
use dromajo.Interp.Fields.{imm_i, funct3_of}
use dromajo.Interp.Word.{
  less_signed, shift_right_signed, mulh64, mulhsu64, mulhu64, divu64, remu64, div32, rem32, divu32,
  remu32, cpop64, cpopw64, ctz_64, clz64, ctzw64, clzw64, sext_h64, sext_b64,
}

unfoldable pub funct6_of : ℕ → ℕ
funct6_of insn = bit_and (insn / 2 ^ 26) 0x3f

unfoldable pub funct7_of : ℕ → ℕ
funct7_of insn = bit_and (insn / 2 ^ 25) 0x7f

unfoldable pub funct12_of : ℕ → ℕ
funct12_of insn = bit_and (insn / 2 ^ 20) 0xfff

unfoldable pub shamt_of : ℕ → ℕ
shamt_of insn = bit_and (insn / 2 ^ 20) 0x3f

-- A 32-bit result is sign-extended.
unfoldable pub int32 : ℕ → ℕ
int32 v = sign_extend 32 (v % 2 ^ 32)

-- `(1 << (n & 63))`.
unfoldable pub bit_at : ℕ → ℕ
bit_at n = 2 ^ bit_and n 63

-- The products and quotients of opcode 0x33.
unfoldable pub op_m : ℕ → ℕ → ℕ → ℕ
op_m funct3 val val2 =
    if funct3 == 0
    then val * val2 % 2 ^ 64
    else if funct3 == 1
    then mulh64 val val2
    else if funct3 == 2
    then mulhsu64 val val2
    else if funct3 == 3
    then mulhu64 val val2
    else if funct3 == 4
    then div64 val val2
    else if funct3 == 5
    then divu64 val val2
    else if funct3 == 6
    then rem64 val val2
    else remu64 val val2

-- `((insn >> 12) & 7) | ((insn >> (30 - 3)) & (1 << 3))`.
unfoldable pub funct3_and_bit30 : ℕ → ℕ
funct3_and_bit30 insn = bit_or (funct3_of insn) (bit_and (insn / 2 ^ 27) (2 ^ 3))

-- The base instructions of opcode 0x33, after the extensions.
unfoldable pub op_base : ℕ → ℕ → ℕ → Option ℕ
op_base insn val val2 =
    let funct3 = funct3_and_bit30 insn in
    if any (insn / 2 ^ 25) (bit_not 32 0x20)
    then none
    else if funct3 == 0
    then some ((val + val2) % 2 ^ 64)
    else if funct3 == 8
    then some ((val + (2 ^ 64 - val2)) % 2 ^ 64)
    else if funct3 == 1
    then some (val * 2 ^ bit_and val2 63 % 2 ^ 64)
    else if funct3 == 2
    then some (of_bool (less_signed val val2))
    else if funct3 == 3
    then some (of_bool (ltb val val2))
    else if funct3 == 4
    then some (bit_xor val val2)
    else if funct3 == 5
    then some (val / 2 ^ bit_and val2 63)
    else if funct3 == 13
    then some (shift_right_signed 64 val (bit_and val2 63))
    else if funct3 == 6
    then some (bit_or val val2)
    else if funct3 == 7
    then some (bit_and val val2)
    else none

-- The Zba part of opcode 0x33: funct7 is 0x10.
unfoldable pub op_zba : ℕ → ℕ → ℕ → Option ℕ
op_zba funct3 val val2 =
    if funct3 == 2
    then some ((val * 2 + val2) % 2 ^ 64)
    else if funct3 == 4
    then some ((val * 4 + val2) % 2 ^ 64)
    else if funct3 == 6
    then some ((val * 8 + val2) % 2 ^ 64)
    else none

-- The Zbb part of opcode 0x33 with funct7 0x20: sub, xnor, orn and andn.
unfoldable pub op_zbb_20 : ℕ → ℕ → ℕ → Option ℕ
op_zbb_20 funct3 val val2 =
    if funct3 == 0
    then some ((val + (2 ^ 64 - val2)) % 2 ^ 64)
    else if funct3 == 4
    then some (bit_not 64 (bit_xor val val2))
    else if funct3 == 6
    then some (bit_or val (bit_not 64 val2))
    else if funct3 == 7
    then some (bit_and val (bit_not 64 val2))
    else none

-- Opcode 0x33 from the Zbs tests on.
unfoldable pub op_zbs : ExtFlags → ℕ → ℕ → ℕ → Option ℕ
op_zbs e insn val val2 =
    let funct3 = funct3_of insn in
    let funct7 = funct7_of insn in
    if e.zbs && (funct7 == 0x14 && funct3 == 1)
    then some (bit_or val (bit_at val2))
    else if e.zbs && (funct7 == 0x24 && funct3 == 1)
    then some (bit_and val (bit_not 64 (bit_at val2)))
    else if e.zbs && (funct7 == 0x24 && funct3 == 5)
    then some (bit_and (val / bit_at val2) 1)
    else if e.zbs && (funct7 == 0x34 && funct3 == 1)
    then some (bit_xor val (bit_at val2))
    else if insn / 2 ^ 25 == 1
    then some (op_m funct3 val val2)
    else op_base insn val val2

-- Opcode 0x33. EN_ZBC tests the flag of Zbb.
unfoldable pub op : ExtFlags → ℕ → ℕ → ℕ → Option ℕ
op e insn val val2 =
    let funct3 = funct3_of insn in
    let funct7 = funct7_of insn in
    if e.zba && funct7 == 0x10
    then op_zba funct3 val val2
    else if e.zbb && (funct7 == 5 && funct3 == 4)
    then some (if less_signed val val2 then val else val2)
    else if e.zbb && (funct7 == 5 && funct3 == 5)
    then some (if ltb val val2 then val else val2)
    else if e.zbb && (funct7 == 5 && funct3 == 6)
    then some (if less_signed val val2 then val2 else val)
    else if e.zbb && (funct7 == 5 && funct3 == 7)
    then some (if ltb val val2 then val2 else val)
    else if e.zbb && funct7 == 0x20
    then op_zbb_20 funct3 val val2
    else if e.zbb && (funct7 == 5 && funct3 == 1)
    then some (clmul64 val val2)
    else if e.zbb && (funct7 == 5 && funct3 == 2)
    then some (clmulr64 val val2)
    else if e.zbb && (funct7 == 5 && funct3 == 3)
    then some (clmulh64 val val2)
    else op_zbs e insn val val2

-- The products and quotients of opcode 0x3b.
unfoldable pub op_32_m : ℕ → ℕ → ℕ → Option ℕ
op_32_m funct3 val val2 =
    let a = val % 2 ^ 32 in
    let b = val2 % 2 ^ 32 in
    if funct3 == 0
    then some (int32 (a * b))
    else if funct3 == 4
    then some (int32 (div32 a b))
    else if funct3 == 5
    then some (int32 (divu32 a b))
    else if funct3 == 6
    then some (int32 (rem32 a b))
    else if funct3 == 7
    then some (int32 (remu32 a b))
    else none

-- The base instructions of opcode 0x3b.
unfoldable pub op_32_base : ℕ → ℕ → ℕ → Option ℕ
op_32_base insn val val2 =
    let funct3 = funct3_and_bit30 insn in
    if any (insn / 2 ^ 25) (bit_not 32 0x20)
    then none
    else if funct3 == 0
    then some (int32 (val + val2))
    else if funct3 == 8
    then some (int32 (val + (2 ^ 64 - val2)))
    else if funct3 == 1
    then some (int32 (val % 2 ^ 32 * 2 ^ bit_and val2 31))
    else if funct3 == 5
    then some (int32 (val % 2 ^ 32 / 2 ^ bit_and val2 31))
    else if funct3 == 13
    then some (int32 (shift_right_signed 32 (val % 2 ^ 32) (bit_and val2 31)))
    else none

-- Opcode 0x3b.
unfoldable pub op_32 : ExtFlags → ℕ → ℕ → ℕ → Option ℕ
op_32 e insn val val2 =
    let funct3 = funct3_of insn in
    let funct7 = funct7_of insn in
    if e.zba && (funct7 == 0x10 && funct3 == 2)
    then some ((val % 2 ^ 32 * 2 + val2) % 2 ^ 64)
    else if e.zba && (funct7 == 0x10 && funct3 == 4)
    then some ((val % 2 ^ 32 * 4 + val2) % 2 ^ 64)
    else if e.zba && (funct7 == 0x10 && funct3 == 6)
    then some ((val % 2 ^ 32 * 8 + val2) % 2 ^ 64)
    else if e.zba && (funct7 == 4 && funct3 == 0)
    then some ((val % 2 ^ 32 + val2) % 2 ^ 64)
    else if e.zbb && (funct12_of insn == 0x80 && funct3 == 4)
    then some (bit_and val 0xffff)
    else if insn / 2 ^ 25 == 1
    then op_32_m funct3 val val2
    else op_32_base insn val val2
