-- ===== src/Interp/Fields/Pack.antt =====
-- An instruction put together from its fields, and the fields taken from it again.
use dromajo.Prelude.{ℕ, ◌+◌, ◌-◌, ◌*◌, ◌/◌, ◌%◌, ◌^◌, ◌<◌, ◌≡◌, ◌∙◌, ap, arith, bit_and, bit_or}
use dromajo.Prelude.Bits.{bit_and-low, sign_extend, bit_or-disjoint, bit_or_comm}
use dromajo.Interp.Fields.{opcode_of, rd_of, funct3_of, rs1_of, rs2_of, imm_i}

-- A 32-bit instruction of format I, with the upper twelve bits as one field.
unfoldable pub pack : ℕ → ℕ → ℕ → ℕ → ℕ → ℕ
pack opcode rd funct3 rs1 high =
    opcode + rd * 2 ^ 7 + funct3 * 2 ^ 12 + rs1 * 2 ^ 15 + high * 2 ^ 20

-- A field above the ones before it.
pub append_field : (k low x : ℕ) → low < 2 ^ k → bit_or low (x * 2 ^ k) ≡ low + x * 2 ^ k
append_field k low x h = bit_or_comm low (x * 2 ^ k) ∙ omega (arith, bit_or-disjoint k x low h)

pub bit_and_mod : (k x : ℕ) → bit_and x (2 ^ k - 1) ≡ x % 2 ^ k
bit_and_mod k x = bit_and-low k x

module _ (op rd f3 rs1 high : ℕ) (a : op < 2 ^ 7) (b : rd < 2 ^ 5) (c : f3 < 2 ^ 3) where
  pub opcode_of-pack : opcode_of (pack op rd f3 rs1 high) ≡ op
  unfolding opcode_of pack
  opcode_of-pack = omega (arith, bit_and-low 7 (pack op rd f3 rs1 high))

  pub low_of-pack : bit_and (pack op rd f3 rs1 high) 3 ≡ op % 4
  unfolding pack
  low_of-pack = omega (arith, bit_and-low 2 (pack op rd f3 rs1 high))

  pub rd_of-pack : rd_of (pack op rd f3 rs1 high) ≡ rd
  unfolding rd_of pack
  rd_of-pack = omega (arith, bit_and-low 5 (pack op rd f3 rs1 high / 2 ^ 7))

  pub funct3_of-pack : funct3_of (pack op rd f3 rs1 high) ≡ f3
  unfolding funct3_of pack
  funct3_of-pack = omega (arith, bit_and-low 3 (pack op rd f3 rs1 high / 2 ^ 12))

  module _ (d : rs1 < 2 ^ 5) where
    pub rs1_of-pack : rs1_of (pack op rd f3 rs1 high) ≡ rs1
    unfolding rs1_of pack
    rs1_of-pack = omega (arith, bit_and-low 5 (pack op rd f3 rs1 high / 2 ^ 15))

    pub high_of-pack : pack op rd f3 rs1 high / 2 ^ 20 ≡ high
    unfolding pack
    high_of-pack = omega arith

    pub rs2_of-pack : rs2_of (pack op rd f3 rs1 high) ≡ high % 2 ^ 5
    unfolding rs2_of pack
    rs2_of-pack = omega (arith, bit_and-low 5 (pack op rd f3 rs1 high / 2 ^ 20))

    pub imm_i-pack : imm_i (pack op rd f3 rs1 high) ≡ sign_extend 12 high
    unfolding imm_i
    imm_i-pack = ap (λ (n : ℕ). sign_extend 12 n) high_of-pack
