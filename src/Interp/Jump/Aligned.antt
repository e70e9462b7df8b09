-- ===== src/Interp/Jump/Aligned.antt =====
-- Where the jumps go.
use dromajo.Prelude.{
  ℕ, ◌+◌, ◌%◌, ◌^◌, ◌≡◌, ap, sym, ◌∙◌, false, arith, inl, inr, ◌⊎◌, Bool-cases, Option-cases,
  bit_and,
}
use dromajo.Prelude.Bits.{test_bit, bit_not, bit_and-low}
use dromajo.Cpu.State.{Cpu}
use dromajo.Interp.{RiscvCtfInfo, Flow, jump, read_reg, write_rd, write_reg}
use dromajo.Interp.Fields.{rd_of, rs1_of, rs2_of, funct3_of, imm_i, imm_b, imm_j}
use dromajo.Interp.Jump.{exec_jal, exec_jalr, exec_branch, branch_cond, fetch_misaligned}

write_rd-pc : (s : Cpu) (rd v : ℕ) → (write_rd s rd v).pc ≡ s.pc
unfolding write_rd write_reg
write_rd-pc s rd v = ground arith

-- What a step that jumped shows of its result.
abbrev Landed : Cpu → Cpu × Flow → Type 0
Landed s r = (kind : RiscvCtfInfo) → r.1 ≡ jump kind → fetch_misaligned s r.0.pc ≡ false

jal-Landed : (s : Cpu) (insn : ℕ) → Landed s (exec_jal s insn)
unfolding exec_jal
jal-Landed s insn kind e =
    let new_pc = (s.pc + imm_j insn) % 2 ^ 64 in
    elim (Bool-cases (fetch_misaligned s new_pc)) [
      | inl m ↦ absurd (ground (arith, m, e))
      | inr m ↦ ground (arith, m)
    ]

jalr-Landed : (s : Cpu) (insn : ℕ) → Landed s (exec_jalr s insn)
unfolding exec_jalr
jalr-Landed s insn kind e =
    let new_pc = bit_and ((read_reg s (rs1_of insn) + imm_i insn) % 2 ^ 64) (bit_not 64 1) in
    let kept = write_rd-pc (record s { pc = new_pc }) (rd_of insn) ((s.pc + 4) % 2 ^ 64) in
    elim (Bool-cases (fetch_misaligned s new_pc)) [
      | inl m ↦ absurd (ground (arith, m, e))
      | inr m ↦ ground (arith, m, e, kept)
    ]

branch-Landed : (s : Cpu) (insn : ℕ) → Landed s (exec_branch s insn)
unfolding exec_branch
branch-Landed s insn kind e =
    let new_pc = (s.pc + imm_b insn) % 2 ^ 64 in
    elim (Option-cases
      (branch_cond (funct3_of insn) (read_reg s (rs1_of insn)) (read_reg s (rs2_of insn)))) [
        | inl c ↦ absurd (ground (arith, c, e))
        | inr (cond, c) ↦ elim (Bool-cases (fetch_misaligned s new_pc)) [
          | inl m ↦ absurd (ground (arith, c, m, e))
          | inr m ↦ ground (arith, c, m, e)
        ]
      ]

even_word :
    (s : Cpu) (pc : ℕ) → test_bit s.misa 2 ≡ false → fetch_misaligned s pc ≡ false → pc % 4 ≡ 0
unfolding fetch_misaligned
even_word s pc off h = ground (arith, bit_and-low 2 pc)

-- Without the C extension a jal, jalr or branch that jumps, whatever the kind of the jump, leaves pc at
-- a multiple of four.
pub exec_jal_aligned :
    (s t : Cpu) (insn : ℕ) (kind : RiscvCtfInfo)
    → test_bit s.misa 2 ≡ false
    → ((exec_jal s insn ≡ (t, jump kind)) ⊎ (exec_jalr s insn ≡ (t, jump kind)))
      ⊎ (exec_branch s insn ≡ (t, jump kind))
    → t.pc % 4 ≡ 0
exec_jal_aligned s t insn kind off e = even_word s t.pc off (landed e)
  where
    landed :
        ((exec_jal s insn ≡ (t, jump kind)) ⊎ (exec_jalr s insn ≡ (t, jump kind)))
          ⊎ (exec_branch s insn ≡ (t, jump kind))
        → fetch_misaligned s t.pc ≡ false
    landed (inl (inl e)) =
        ap (λ (r : Cpu × Flow). fetch_misaligned s r.0.pc) (sym e)
        ∙ jal-Landed s insn kind (ap (λ (r : Cpu × Flow). r.1) e)
    landed (inl (inr e)) =
        ap (λ (r : Cpu × Flow). fetch_misaligned s r.0.pc) (sym e)
        ∙ jalr-Landed s insn kind (ap (λ (r : Cpu × Flow). r.1) e)
    landed (inr e) =
        ap (λ (r : Cpu × Flow). fetch_misaligned s r.0.pc) (sym e)
        ∙ branch-Landed s insn kind (ap (λ (r : Cpu × Flow). r.1) e)
