-- ===== src/Interp/Arith/Zbb.antt =====
-- The arithmetic shift right under Zbb.
use dromajo.Prelude.{ℕ, ◌/◌, ◌^◌, ◌<◌, ◌≡◌, false, none, some, arith, bit_and, if◌then◌else◌, refl}
use dromajo.Prelude.Bits.{bit_and-low, bit_and-pow, test_bit, test_bit-shr, bit_not}
use dromajo.Cpu.Mstatus.{any}
use dromajo.Interp.{ExtFlags}
use dromajo.Interp.Fields.{funct3_of}
use dromajo.Interp.Word.{shift_right_signed}
use dromajo.Interp.Arith.{op, op_zbb_20, op_zbs, op_base, funct7_of, funct3_and_bit30}

funct7-value : (insn : ℕ) → insn < 2 ^ 32 → funct7_of insn ≡ insn / 2 ^ 25
unfolding funct7_of
funct7-value insn w = omega (arith, bit_and-low 7 (insn / 2 ^ 25))

sra_digit : (insn : ℕ) → insn / 2 ^ 25 ≡ 0x20 → funct3_of insn ≡ 5 → funct3_and_bit30 insn ≡ 13
unfolding funct3_and_bit30 test_bit
sra_digit insn h f =
    let bit : bit_and (insn / 2 ^ 27) (2 ^ 3) ≡ 8 =
      ground (arith, bit_and-pow 3 (insn / 2 ^ 27), test_bit-shr 3 (insn / 2 ^ 27) 0) in
    rw (bit, f) refl

-- sra (funct7 0x20, funct3 5) is an illegal instruction where Zbb is on, and shifts its first operand
-- right with its sign by the low six bits of the second where Zbb is off, for every setting of the
-- other extensions. `insn` is a 32-bit word.
pub op-shift_right_signed :
    (e : ExtFlags) (insn a b : ℕ)
    → insn < 2 ^ 32
    → insn / 2 ^ 25 ≡ 0x20
    → funct3_of insn ≡ 5
    → op e insn a b ≡ (if e.zbb then none else some (shift_right_signed 64 a (bit_and b 63)))
unfolding op op_zbb_20 op_zbs op_base
op-shift_right_signed e insn a b w h f =
    let seven = funct7-value insn w in
    let base : any 0x20 (bit_not 32 0x20) ≡ false = refl in
    ground (arith, h, f, seven, sra_digit insn h f, base)
