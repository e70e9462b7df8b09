-- ===== src/Interp/Fields.antt =====
-- The fields of an instruction: `get_field1` and `sext` of src/riscv_cpu.cpp and the extractions of
-- include/dromajo_template.h. A signed 32-bit field is given as the 64-bit word that it converts to.
pub mod Pack
use dromajo.Prelude.{ℕ, ◌+◌, ◌-◌, ◌*◌, ◌/◌, ◌%◌, ◌^◌, leb, if◌then◌else◌, bit_and, bit_or}
use dromajo.Prelude.Bits.{sign_extend}

unfoldable pub sext : ℕ → ℕ → ℕ
sext val n = sign_extend n val

unfoldable pub get_field1 : ℕ → ℕ → ℕ → ℕ → ℕ
get_field1 val src_pos dst_pos dst_pos_max =
    let mask = (2 ^ (dst_pos_max - dst_pos + 1) - 1) * 2 ^ dst_pos in
    if leb src_pos dst_pos
    then bit_and (val * 2 ^ (dst_pos - src_pos) % 2 ^ 32) mask
    else bit_and (val / 2 ^ (src_pos - dst_pos)) mask

-- The fields at fixed places: opcode, rd, funct3, rs1, rs2 and funct7.
unfoldable pub opcode_of : ℕ → ℕ
opcode_of insn = bit_and insn 0x7f

unfoldable pub rd_of : ℕ → ℕ
rd_of insn = bit_and (insn / 2 ^ 7) 0x1f

unfoldable pub funct3_of : ℕ → ℕ
funct3_of insn = bit_and (insn / 2 ^ 12) 7

unfoldable pub rs1_of : ℕ → ℕ
rs1_of insn = bit_and (insn / 2 ^ 15) 0x1f

unfoldable pub rs2_of : ℕ → ℕ
rs2_of insn = bit_and (insn / 2 ^ 20) 0x1f

-- The immediates of the formats I, S, B, U and J.
unfoldable pub imm_i : ℕ → ℕ
imm_i insn = sign_extend 12 (insn / 2 ^ 20)

unfoldable pub imm_s : ℕ → ℕ
imm_s insn = sign_extend 12 (bit_or (rd_of insn) (bit_and (insn / 2 ^ 20) 0xfe0))

unfoldable pub imm_b : ℕ → ℕ
imm_b insn = sign_extend 13 (
    bit_or
      (bit_or (bit_or (bit_and (insn / 2 ^ 19) (2 ^ 12)) (bit_and (insn / 2 ^ 20) 0x7e0))
        (bit_and (insn / 2 ^ 7) 0x1e))
      (bit_and (insn * 2 ^ 4 % 2 ^ 32) (2 ^ 11)))

unfoldable pub imm_u : ℕ → ℕ
imm_u insn = sign_extend 32 (bit_and insn 0xfffff000)

unfoldable pub imm_j : ℕ → ℕ
imm_j insn = sign_extend 21 (
    bit_or
      (bit_or (bit_or (bit_and (insn / 2 ^ 11) (2 ^ 20)) (bit_and (insn / 2 ^ 20) 0x7fe))
        (bit_and (insn / 2 ^ 9) (2 ^ 11)))
      (bit_and insn 0xff000))

-- The immediates of the compressed instructions.
unfoldable pub c_imm6 : ℕ → ℕ
c_imm6 insn = bit_or (get_field1 insn 12 5 5) (get_field1 insn 2 0 4)

unfoldable pub c_addi4spn_imm : ℕ → ℕ
c_addi4spn_imm insn =
    bit_or
      (bit_or (bit_or (get_field1 insn 11 4 5) (get_field1 insn 7 6 9)) (get_field1 insn 6 2 2))
      (get_field1 insn 5 3 3)

unfoldable pub c_addi16sp_imm : ℕ → ℕ
c_addi16sp_imm insn =
    sext
      (bit_or
        (bit_or
          (bit_or (bit_or (get_field1 insn 12 9 9) (get_field1 insn 6 4 4)) (get_field1 insn 5 6 6))
          (get_field1 insn 3 7 8))
        (get_field1 insn 2 5 5))
      10

unfoldable pub c_lui_imm : ℕ → ℕ
c_lui_imm insn = sext (bit_or (get_field1 insn 12 17 17) (get_field1 insn 2 12 16)) 18

unfoldable pub c_j_imm : ℕ → ℕ
c_j_imm insn =
    let high =
      bit_or
        (bit_or (bit_or (get_field1 insn 12 11 11) (get_field1 insn 11 4 4))
          (get_field1 insn 9 8 9))
        (get_field1 insn 8 10 10) in
    sext
      (bit_or
        (bit_or (bit_or (bit_or high (get_field1 insn 7 6 6)) (get_field1 insn 6 7 7))
          (get_field1 insn 3 1 3))
        (get_field1 insn 2 5 5))
      12

unfoldable pub c_b_imm : ℕ → ℕ
c_b_imm insn =
    sext
      (bit_or
        (bit_or
          (bit_or (bit_or (get_field1 insn 12 8 8) (get_field1 insn 10 3 4))
            (get_field1 insn 5 6 7))
          (get_field1 insn 3 1 2))
        (get_field1 insn 2 5 5))
      9

-- The offsets of the word and doubleword loads and stores, by register and by stack pointer.
unfoldable pub c_lw_imm : ℕ → ℕ
c_lw_imm insn =
    bit_or (bit_or (get_field1 insn 10 3 5) (get_field1 insn 6 2 2)) (get_field1 insn 5 6 6)

unfoldable pub c_ld_imm : ℕ → ℕ
c_ld_imm insn = bit_or (get_field1 insn 10 3 5) (get_field1 insn 5 6 7)

unfoldable pub c_lwsp_imm : ℕ → ℕ
c_lwsp_imm insn =
    bit_or (bit_or (get_field1 insn 12 5 5) (bit_and (bit_and (insn / 2 ^ 2) 0x1f) (7 * 2 ^ 2)))
      (get_field1 insn 2 6 7)

unfoldable pub c_ldsp_imm : ℕ → ℕ
c_ldsp_imm insn =
    bit_or (bit_or (get_field1 insn 12 5 5) (bit_and (bit_and (insn / 2 ^ 2) 0x1f) (3 * 2 ^ 3)))
      (get_field1 insn 2 6 8)

unfoldable pub c_swsp_imm : ℕ → ℕ
c_swsp_imm insn = bit_or (get_field1 insn 9 2 5) (get_field1 insn 7 6 7)

unfoldable pub c_sdsp_imm : ℕ → ℕ
c_sdsp_imm insn = bit_or (get_field1 insn 10 3 5) (get_field1 insn 7 6 8)
