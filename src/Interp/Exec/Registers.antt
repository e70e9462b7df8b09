-- ===== src/Interp/Exec/Registers.antt =====
-- The integer registers: thirty-two 64-bit words of which x0 is zero, and the instructions that
-- compute or jump.
use dromajo.Prelude.{
  ℕ, zero, suc, ◌+◌, ◌%◌, ◌^◌, ◌<◌, ◌≡◌, ◌≢◌, Bool, true, false, ◌==◌, List, [], ◌∷◌, Option, none,
  some, bit_and, arith, if◌then◌else◌, length, get_or, set, length-set, get_or-set_ne, inl, inr,
  Bool-cases, Option-cases,
}
use dromajo.Cpu.State.{Cpu}
use dromajo.Interp.{ExtFlags, Flow, read_reg, write_reg, write_rd, set_pending}
use dromajo.Interp.Word.Bounds.{sign_extend-lt}
use dromajo.Interp.Arith.Bounds.{Fits, op_imm-Fits, op_imm_32-Fits, op-Fits, op_32-Fits}
use dromajo.Interp.Jump.{exec_lui, exec_auipc, exec_jal, exec_jalr, exec_branch, branch_cond}
use dromajo.Interp.Fields.{rd_of, rs1_of, rs2_of, opcode_of, imm_u, funct3_of}
use dromajo.Interp.Exec.{compute, exec_compute}

-- Thirty-two words, of which the first is zero.
abbrev pub RegsOk : List ℕ → Type 0
RegsOk regs = (length regs ≡ 32) × (get_or regs 0 0 ≡ 0) × ((i : ℕ) → get_or regs i 0 < 2 ^ 64)

set-word :
    (regs : List ℕ) (x v : ℕ)
    → v < 2 ^ 64
    → ((i : ℕ) → get_or regs i 0 < 2 ^ 64)
    → (i : ℕ) → get_or (set regs x v) i 0 < 2 ^ 64
set-word [] x v p h i = h i
set-word (r ∷ rs) zero v p h zero = p
set-word (r ∷ rs) zero v p h (suc i) = h (suc i)
set-word (r ∷ rs) (suc x) v p h zero = h zero
set-word (r ∷ rs) (suc x) v p h (suc i) = set-word rs x v p (λ j. h (suc j)) i

pub read_reg-lt : (s : Cpu) (x : ℕ) → RegsOk s.reg → read_reg s x < 2 ^ 64
unfolding read_reg
read_reg-lt s x (len, nought, words) = words x

pub write_reg-RegsOk :
    (s : Cpu) (x v : ℕ) → RegsOk s.reg → x ≢ 0 → v < 2 ^ 64 → RegsOk (write_reg s x v).reg
unfolding write_reg
write_reg-RegsOk s x v (len, nought, words) ne small = (
  omega (arith, len, length-set s.reg x v),
  omega (arith, nought, get_or-set_ne s.reg x 0 v 0 ne),
  set-word s.reg x v small words,
)

pub write_rd-RegsOk : (s : Cpu) (x v : ℕ) → RegsOk s.reg → v < 2 ^ 64 → RegsOk (write_rd s x v).reg
unfolding write_rd
write_rd-RegsOk s x v ok small = elim (Bool-cases (x == 0)) [
  | inl e ↦ rw e ok
  | inr e ↦ (let ne : x ≢ 0 = λ z. ground (arith, e) in rw e (write_reg-RegsOk s x v ok ne small))
]

either_Fits : (c : Bool) (x y : Option ℕ) → Fits x → Fits y → Fits (if c then x else y)
either_Fits true x y p q = p
either_Fits false x y p q = q

pub wrapped : (x : ℕ) → x % 2 ^ 64 < 2 ^ 64
wrapped x = omega arith

-- The state after an instruction, with its way out.
unfoldable pub Good : Cpu × Flow → Type 0
Good r = RegsOk r.0.reg

pub good : (s : Cpu) (f : Flow) → RegsOk s.reg → Good (s, f)
unfolding Good
good s f ok = ok

pub either_Good : (c : Bool) (x y : Cpu × Flow) → Good x → Good y → Good (if c then x else y)
either_Good true x y p q = p
either_Good false x y p q = q

compute-Good : (s : Cpu) (insn : ℕ) (r : Option ℕ) → RegsOk s.reg → Fits r → Good (compute s insn r)
unfolding compute
compute-Good s insn none ok fits = good _ _ ok
compute-Good s insn (some v) ok fits = good _ _ (write_rd-RegsOk s (rd_of insn) v ok fits)

pub exec_compute-Good :
    (e : ExtFlags) (s : Cpu) (insn : ℕ) → RegsOk s.reg → Good (exec_compute e s insn)
unfolding exec_compute
exec_compute-Good e s insn ok =
    let a = read_reg-lt s (rs1_of insn) ok in
    let b = read_reg-lt s (rs2_of insn) ok in
    let val = read_reg s (rs1_of insn) in
    let val2 = read_reg s (rs2_of insn) in
    let opcode = opcode_of insn in
    compute-Good s insn _ ok (
      either_Fits (opcode == 0x13) _ _ (op_imm-Fits e insn val a) (
        either_Fits (opcode == 0x1b) _ _ (op_imm_32-Fits e insn val a) (
          either_Fits (opcode == 0x33) _ _ (op-Fits insn val val2 a b e)
            (op_32-Fits insn val val2 a b e))))

pub exec_lui-Good : (s : Cpu) (insn : ℕ) → RegsOk s.reg → Good (exec_lui s insn)
unfolding exec_lui imm_u
exec_lui-Good s insn ok = good _ _ (
    write_rd-RegsOk s (rd_of insn) _ ok (sign_extend-lt 32 (bit_and insn 0xfffff000) (omega arith)))

pub exec_auipc-Good : (s : Cpu) (insn : ℕ) → RegsOk s.reg → Good (exec_auipc s insn)
unfolding exec_auipc
exec_auipc-Good s insn ok =
    good _ _ (write_rd-RegsOk s (rd_of insn) _ ok (wrapped (s.pc + imm_u insn)))

pub exec_jal-Good : (s : Cpu) (insn : ℕ) → RegsOk s.reg → Good (exec_jal s insn)
unfolding exec_jal set_pending
exec_jal-Good s insn ok = search (either_Good, good, write_rd-RegsOk, wrapped)

pub exec_jalr-Good : (s : Cpu) (insn : ℕ) → RegsOk s.reg → Good (exec_jalr s insn)
unfolding exec_jalr set_pending
exec_jalr-Good s insn ok = search (either_Good, good, write_rd-RegsOk, wrapped)

pub exec_branch-Good : (s : Cpu) (insn : ℕ) → RegsOk s.reg → Good (exec_branch s insn)
unfolding exec_branch set_pending
exec_branch-Good s insn ok =
    elim (Option-cases
      (branch_cond (funct3_of insn) (read_reg s (rs1_of insn)) (read_reg s (rs2_of insn)))) [
        | inl e ↦ rw (exec_branch, e) (good s _ ok)
        | inr (cond, e) ↦ rw (exec_branch, e) (search (either_Good, good))
      ]
