-- ===== src/Examples/Instructions.antt =====
-- Concrete instructions and products.
use dromajo.Prelude.{◌+◌, ◌-◌, ◌%◌, ◌^◌, ◌≡◌, inl, refl, arith, true, false, if◌then◌else◌}
use dromajo.Prelude.Bits.{test_bit, sign_extend}
use dromajo.Examples.{hart}
use dromajo.Interp.{ExtFlags, jump, ctf_taken_jump}
use dromajo.Interp.Fields.{funct3_of, imm_j}
use dromajo.Interp.Word.{mulhu_portable, mulhu64, mulhsu_portable, mulhsu64}
use dromajo.Interp.Word.Halves.{mulhu_portable-mulhu64, mulhsu_portable-mulhsu64}
use dromajo.Interp.Jump.{exec_jal, fetch_misaligned}
use dromajo.Interp.Jump.Aligned.{exec_jal_aligned}

mulhu_portable-mulhu64_example :
    mulhu_portable (2 ^ 64 - 1) (2 ^ 64 - 3) ≡ mulhu64 (2 ^ 64 - 1) (2 ^ 64 - 3)
mulhu_portable-mulhu64_example =
    mulhu_portable-mulhu64 (2 ^ 64 - 1) (2 ^ 64 - 3) (omega arith) (omega arith)

mulhsu_portable-mulhsu64_example :
    (mulhsu_portable (2 ^ 64 - 1) 1 + (if test_bit (2 ^ 64 - 1) 63 then 2 ^ 64 - 1 else 0)) % 2 ^ 64
    ≡ (mulhsu64 (2 ^ 64 - 1) 1 + (if test_bit (2 ^ 64 - 1) 63 then 1 else 0)) % 2 ^ 64
mulhsu_portable-mulhsu64_example =
    mulhsu_portable-mulhsu64 (2 ^ 64 - 1) 1 (omega arith) (omega arith)

-- All the extensions.
abbrev pub flags : ExtFlags
flags = record { zba = true; zbb = true; zbs = true; ctz_of_zero = 0 }

-- sra x1, x2, x3
shift_kind : funct3_of 0x4031_50b3 ≡ 5
unfolding funct3_of
shift_kind = refl

-- jal x1, 8
jumped : exec_jal hart 0x0080_00ef ≡ ((exec_jal hart 0x0080_00ef).0, jump ctf_taken_jump)
unfolding exec_jal fetch_misaligned imm_j sign_extend test_bit
jumped = refl

no_c : test_bit hart.misa 2 ≡ false
unfolding test_bit
no_c = refl

exec_jal_aligned_example : (exec_jal hart 0x0080_00ef).0.pc % 4 ≡ 0
exec_jal_aligned_example =
    exec_jal_aligned hart (exec_jal hart 0x0080_00ef).0 0x0080_00ef ctf_taken_jump no_c
      (inl (inl jumped))
