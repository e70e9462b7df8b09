-- ===== src/Interp/Arith/Bounds.antt =====
-- The results of the computational instructions fit in a register.
use native.Mathlib.Nat.{div-le_self, pow-le-pow_right}
use dromajo.Prelude.{
  ℕ, ◌+◌, ◌-◌, ◌*◌, ◌/◌, ◌%◌, ◌^◌, ◌≤◌, ◌<◌, Bool, ltb, Option, none, some, bit_and, bit_xor, arith,
  of_bool,
}
use dromajo.Prelude.Bits.{bit_not, bit_or-lt, bit_xor-lt, bit_and-le, bit_and-le_left}
use dromajo.Interp.{ExtFlags}
use dromajo.Interp.Fields.{imm_i, funct3_of}
use dromajo.Interp.Word.{less_signed, shift_right_signed, div32, rem32, divu32, remu32}
use dromajo.Interp.Word.Bounds.{
  sign_extend-lt, shift_right_signed-lt, cpop64-lt, cpopw64-lt, ctz_64-lt, clz64-lt, ctzw64-lt,
  clzw64-lt, sext_h64-lt, sext_b64-lt, div64-lt, rem64-lt, divu64-lt, remu64-lt, clmul64-lt,
  mulh64-lt,
}
use dromajo.Interp.Immediate.{op_imm_1, op_imm_5, op_imm, op_imm_32_1, op_imm_32}
use dromajo.Interp.Arith.{
  int32, bit_at, shamt_of, op_m, op_base, op_zba, op_zbb_20, op_zbs, op, op_32_m, op_32_base, op_32,
}

-- A value for a register, where there is one.
abbrev pub Fits : Option ℕ → Type 0
Fits none = Unit
Fits (some v) = v < 2 ^ 64

pub imm_i-lt : (insn : ℕ) → imm_i insn < 2 ^ 64
unfolding imm_i
imm_i-lt insn = sign_extend-lt 12 (insn / 2 ^ 20) (omega arith)

pub int32-lt : (v : ℕ) → int32 v < 2 ^ 64
unfolding int32
int32-lt v = sign_extend-lt 32 (v % 2 ^ 32) (omega arith)

of_bool-lt : (b : Bool) → of_bool b < 2 ^ 64
of_bool-lt b = ground arith

bit_not-lt : (x : ℕ) → bit_not 64 x < 2 ^ 64
bit_not-lt x = omega arith

bit_at-lt : (n : ℕ) → bit_at n < 2 ^ 64
unfolding bit_at
bit_at-lt n =
    let small : bit_and n 63 ≤ 63 = bit_and-le 6 n 63 (omega arith) in
    let top : 2 ^ bit_and n 63 ≤ 2 ^ 63 = pow-le-pow_right {n = 2} (omega arith) small in
    omega (arith, top)

quotient-lt : (a b : ℕ) → a < 2 ^ 64 → a / b < 2 ^ 64
quotient-lt a b h = omega (arith, div-le_self a b)

op_imm_1-Fits : (e : ExtFlags) (insn val : ℕ) → val < 2 ^ 64 → Fits (op_imm_1 e insn val)
unfolding op_imm_1
op_imm_1-Fits e insn val h =
    let b = bit_at (shamt_of insn) in
    ground (
      arith,
      ctz_64-lt val,
      clz64-lt val,
      cpop64-lt val,
      sext_h64-lt val,
      sext_b64-lt val,
      bit_or-lt 64 val b h (bit_at-lt (shamt_of insn)),
      bit_and-le 64 val (bit_not 64 b),
      bit_xor-lt 64 val b h (bit_at-lt (shamt_of insn)),
    )

op_imm_5-Fits : (e : ExtFlags) (insn val : ℕ) → val < 2 ^ 64 → Fits (op_imm_5 e insn val)
unfolding op_imm_5
op_imm_5-Fits e insn val h =
    let imm = imm_i insn in
    ground (
      arith,
      bit_and-le 1 (val / bit_at (shamt_of insn)) 1,
      shift_right_signed-lt val (bit_and imm 63) h,
      quotient-lt val (2 ^ bit_and imm 63) h,
    )

pub op_imm-Fits : (e : ExtFlags) (insn val : ℕ) → val < 2 ^ 64 → Fits (op_imm e insn val)
unfolding op_imm
op_imm-Fits e insn val h =
    let imm = imm_i insn in
    ground (
      arith,
      op_imm_1-Fits e insn val h,
      op_imm_5-Fits e insn val h,
      of_bool-lt (less_signed val imm),
      of_bool-lt (ltb val imm),
      bit_xor-lt 64 val imm h (imm_i-lt insn),
      bit_or-lt 64 val imm h (imm_i-lt insn),
      bit_and-le_left 64 val imm h,
    )

pub op_imm_32-Fits : (e : ExtFlags) (insn val : ℕ) → val < 2 ^ 64 → Fits (op_imm_32 e insn val)
unfolding op_imm_32 op_imm_32_1
op_imm_32-Fits e insn val h =
    let imm = imm_i insn in
    ground (
      arith,
      int32-lt (val + imm),
      ctzw64-lt e.ctz_of_zero val,
      cpopw64-lt val,
      clzw64-lt e.ctz_of_zero val,
      int32-lt (val * 2 ^ bit_and imm 31),
      int32-lt (shift_right_signed 32 (val % 2 ^ 32) (bit_and imm 31)),
      int32-lt (val % 2 ^ 32 / 2 ^ bit_and imm 31),
    )

op_m-lt : (f a b : ℕ) → a < 2 ^ 64 → op_m f a b < 2 ^ 64
unfolding op_m
op_m-lt f a b h =
    ground (arith, mulh64-lt a b, div64-lt a b h, divu64-lt a b h, rem64-lt a b h, remu64-lt a b h)

module _ (insn a b : ℕ) (wa : a < 2 ^ 64) (wb : b < 2 ^ 64) where
  op_base-Fits : Fits (op_base insn a b)
  unfolding op_base
  op_base-Fits = ground (
    arith,
    of_bool-lt (less_signed a b),
    of_bool-lt (ltb a b),
    bit_xor-lt 64 a b wa wb,
    bit_or-lt 64 a b wa wb,
    bit_and-le_left 64 a b wa,
    shift_right_signed-lt a (bit_and b 63) wa,
    quotient-lt a (2 ^ bit_and b 63) wa,
  )

  op_zba-Fits : (f : ℕ) → Fits (op_zba f a b)
  unfolding op_zba
  op_zba-Fits f = ground arith

  op_zbb_20-Fits : (f : ℕ) → Fits (op_zbb_20 f a b)
  unfolding op_zbb_20
  op_zbb_20-Fits f = ground (
    arith,
    bit_not-lt (bit_xor a b),
    bit_or-lt 64 a (bit_not 64 b) wa (bit_not-lt b),
    bit_and-le_left 64 a (bit_not 64 b) wa,
  )

  op_zbs-Fits : (e : ExtFlags) → Fits (op_zbs e insn a b)
  unfolding op_zbs
  op_zbs-Fits e = ground (
    arith,
    bit_or-lt 64 a (bit_at b) wa (bit_at-lt b),
    bit_and-le_left 64 a (bit_not 64 (bit_at b)) wa,
    bit_and-le 1 (a / bit_at b) 1,
    bit_xor-lt 64 a (bit_at b) wa (bit_at-lt b),
    op_m-lt (funct3_of insn) a b wa,
    op_base-Fits,
  )

  pub op-Fits : (e : ExtFlags) → Fits (op e insn a b)
  unfolding op
  op-Fits e = ground (
    arith,
    op_zba-Fits (funct3_of insn),
    op_zbb_20-Fits (funct3_of insn),
    op_zbs-Fits e,
    clmul64-lt a b wa,
  )

  pub op_32-Fits : (e : ExtFlags) → Fits (op_32 e insn a b)
  unfolding op_32 op_32_m op_32_base
  op_32-Fits e =
      let x = a % 2 ^ 32 in
      let y = b % 2 ^ 32 in
      ground (
        arith,
        bit_and-le 16 a 0xffff,
        int32-lt (x * y),
        int32-lt (div32 x y),
        int32-lt (divu32 x y),
        int32-lt (rem32 x y),
        int32-lt (remu32 x y),
        int32-lt (a + b),
        int32-lt (a + (2 ^ 64 - b)),
        int32-lt (x * 2 ^ bit_and b 31),
        int32-lt (x / 2 ^ bit_and b 31),
        int32-lt (shift_right_signed 32 x (bit_and b 31)),
      )
