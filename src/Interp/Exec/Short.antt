-- ===== src/Interp/Exec/Short.antt =====
-- The compressed instructions and the registers.
use native.Mathlib.Nat.{div-le_self}
use mathlib.Core.Path.{subst}
use dromajo.Prelude.{
  ℕ, ◌+◌, ◌-◌, ◌/◌, ◌%◌, ◌^◌, ◌<◌, ◌≤◌, ◌≡◌, ◌≢◌, refl, ap, true, ◌==◌, Option, bit_and, bit_or,
  arith, if◌then◌else◌, inl, inr, Bool-cases, Option-cases,
}
use dromajo.Prelude.Bits.{
  test_bit, test_bit-or, test_bit-zero, bit_not, bit_and-le_left, bit_or-lt, bit_xor-lt,
}
use dromajo.Cpu.State.{Cpu}
use dromajo.Interp.{Flow, next, read_reg, write_reg, set_pending}
use dromajo.Interp.Word.Bounds.{sign_extend-lt, shift_right_signed-lt}
use dromajo.Interp.Arith.Bounds.{Fits, int32-lt}
use dromajo.Interp.Fields.{rd_of, sext, c_imm6, c_lui_imm, c_addi16sp_imm}
use dromajo.Interp.Compressed.{
  short_reg_2, short_reg_7, c_rs2, exec_c_addi, exec_c_addiw, exec_c_li, exec_c_lui, exec_c_arith,
  c_arith, exec_c_j, exec_c_branch, exec_quadrant_1, exec_c_slli, exec_c_jr_mv, exec_c_jalr_add,
  exec_c_cr, exec_c_addi4spn,
}
use dromajo.Interp.Exec.Registers.{
  RegsOk, Good, either_Good, good, write_reg-RegsOk, read_reg-lt, wrapped,
}

bit_of_eight : test_bit 8 3 ≡ true
unfolding test_bit
bit_of_eight = refl

short_reg_2-ne : (insn : ℕ) → short_reg_2 insn ≢ 0
unfolding short_reg_2
short_reg_2-ne insn e =
    let x = bit_and (insn / 2 ^ 2) 7 in
    ground (arith, test_bit-or x 8 3, test_bit-zero 3, bit_of_eight, ap (λ (n : ℕ). test_bit n 3) e)

short_reg_7-ne : (insn : ℕ) → short_reg_7 insn ≢ 0
unfolding short_reg_7
short_reg_7-ne insn e =
    let x = bit_and (insn / 2 ^ 7) 7 in
    ground (arith, test_bit-or x 8 3, test_bit-zero 3, bit_of_eight, ap (λ (n : ℕ). test_bit n 3) e)

sext-lt : (v n : ℕ) → n ≤ 64 → sext v n < 2 ^ 64
unfolding sext
sext-lt v n h = sign_extend-lt n v h

-- A write to a register that was tested not to be x0.
guarded :
    (c : Cpu × Flow) (s : Cpu) (rd v : ℕ) (f : Flow)
    → Good c
    → RegsOk s.reg
    → v < 2 ^ 64
    → Good (if rd == 0 then c else (write_reg s rd v, f))
guarded c s rd v f gc ok small = elim (Bool-cases (rd == 0)) [
  | inl e ↦ rw e gc
  | inr e ↦
      (let ne : rd ≢ 0 = λ z. ground (arith, e) in
        rw e (good _ _ (write_reg-RegsOk s rd v ok ne small)))
]

c_addi-Good : (s : Cpu) (insn : ℕ) → RegsOk s.reg → Good (exec_c_addi s insn)
unfolding exec_c_addi
c_addi-Good s insn ok = guarded _ s _ _ _ (good _ _ ok) ok (wrapped _)

c_addiw-Good : (s : Cpu) (insn : ℕ) → RegsOk s.reg → Good (exec_c_addiw s insn)
unfolding exec_c_addiw
c_addiw-Good s insn ok = guarded _ s _ _ _ (good _ _ ok) ok (int32-lt _)

c_li-Good : (s : Cpu) (insn : ℕ) → RegsOk s.reg → Good (exec_c_li s insn)
unfolding exec_c_li
c_li-Good s insn ok = guarded _ s _ _ _ (good _ _ ok) ok (sext-lt (c_imm6 insn) 6 (omega arith))

c_lui_imm-lt : (insn : ℕ) → c_lui_imm insn < 2 ^ 64
unfolding c_lui_imm
c_lui_imm-lt insn = sext-lt _ 18 (omega arith)

c_lui-Good : (s : Cpu) (insn : ℕ) → RegsOk s.reg → Good (exec_c_lui s insn)
unfolding exec_c_lui
c_lui-Good s insn ok =
    let sp : Good (write_reg s 2 ((read_reg s 2 + c_addi16sp_imm insn) % 2 ^ 64), next 2) =
      good _ _ (write_reg-RegsOk s 2 _ ok (omega arith) (wrapped _)) in
    let lui =
      guarded (s, next 2) s (rd_of insn) (c_lui_imm insn) (next 2) (good _ _ ok) ok
        (c_lui_imm-lt insn) in
    search (either_Good, good)

bit_and_reg : (s : Cpu) (x y : ℕ) → RegsOk s.reg → bit_and (read_reg s x) y < 2 ^ 64
bit_and_reg s x y ok =
    let a = read_reg-lt s x ok in omega (arith, a, bit_and-le_left 64 (read_reg s x) y a)

c_arith-Fits : (f a b : ℕ) → a < 2 ^ 64 → b < 2 ^ 64 → Fits (c_arith f a b)
unfolding c_arith
c_arith-Fits f a b p q = ground (
  arith,
  bit_xor-lt 64 a b p q,
  bit_or-lt 64 a b p q,
  bit_and-le_left 64 a b p,
  int32-lt (a + (2 ^ 64 - b)),
  int32-lt (a + b),
)

c_arith-Good : (s : Cpu) (insn : ℕ) → RegsOk s.reg → Good (exec_c_arith s insn)
unfolding exec_c_arith
c_arith-Good s insn ok =
    let rd = short_reg_7 insn in
    let a = read_reg s rd in
    let small = read_reg-lt s rd ok in
    let ne = short_reg_7-ne insn in
    let shifted : a / 2 ^ c_imm6 insn < 2 ^ 64 =
      omega (arith, small, div-le_self a (2 ^ c_imm6 insn)) in
    let signed = shift_right_signed-lt a (c_imm6 insn) small in
    let masked = bit_and_reg s rd (sext (c_imm6 insn) 6) ok in
    let f = bit_or (bit_and (insn / 2 ^ 5) 3) (bit_and (insn / 2 ^ 10) 4) in
    let b = read_reg s (short_reg_2 insn) in
    elim (Option-cases (c_arith f a b)) [
      | inl e ↦ rw (exec_c_arith, e) (search (either_Good, good, write_reg-RegsOk))
      | inr (v, e) ↦
          (let fits : v < 2 ^ 64 =
              subst (λ (r : Option ℕ). Fits r) e
                (c_arith-Fits f a b small (read_reg-lt s (short_reg_2 insn) ok)) in
            rw (exec_c_arith, e) (search (either_Good, good, write_reg-RegsOk)))
    ]

pub quadrant_1-Good : (s : Cpu) (insn : ℕ) → RegsOk s.reg → Good (exec_quadrant_1 s insn)
unfolding exec_quadrant_1 exec_c_j exec_c_branch
quadrant_1-Good s insn ok =
    search (either_Good, good, c_addi-Good, c_addiw-Good, c_li-Good, c_lui-Good, c_arith-Good) depth
      9

pub c_addi4spn-Good : (s : Cpu) (insn : ℕ) → RegsOk s.reg → Good (exec_c_addi4spn s insn)
unfolding exec_c_addi4spn
c_addi4spn-Good s insn ok =
    let ne = short_reg_2-ne insn in search (either_Good, good, write_reg-RegsOk, wrapped)

pub c_slli-Good : (s : Cpu) (insn : ℕ) → RegsOk s.reg → Good (exec_c_slli s insn)
unfolding exec_c_slli
c_slli-Good s insn ok = guarded _ s _ _ _ (good _ _ ok) ok (wrapped _)

link_ne : (x : ℕ) → 0 < x → x ≢ 0
link_ne x pos z = omega arith

pub c_cr-Good : (s : Cpu) (insn : ℕ) → RegsOk s.reg → Good (exec_c_cr s insn)
unfolding exec_c_cr exec_c_jr_mv exec_c_jalr_add set_pending
c_cr-Good s insn ok =
    let rd = rd_of insn in
    let mv =
      guarded (s, next 2) s rd (read_reg s (c_rs2 insn)) (next 2) (good _ _ ok) ok
        (read_reg-lt s (c_rs2 insn) ok) in
    let add =
      guarded (s, next 2) s rd ((read_reg s rd + read_reg s (c_rs2 insn)) % 2 ^ 64) (next 2)
        (good _ _ ok) ok (wrapped _) in
    let one = link_ne 1 (omega arith) in
    let linked =
      write_reg-RegsOk (record s { pc = bit_and (read_reg s rd) (bit_not 64 1) }) 1
        ((s.pc + 2) % 2 ^ 64) ok one (wrapped (s.pc + 2)) in
    search (either_Good, good) depth 8
