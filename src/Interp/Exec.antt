-- ===== src/Interp/Exec.antt =====
-- One turn of the loop of `riscv_cpu_interp64` in include/dromajo_template.h: the switch over the
-- opcode, and what follows it. The floating-point and vector opcodes are `none`.

pub mod Registers
pub mod Short
pub mod Accesses
pub mod Words
use dromajo.Prelude.{
  ℕ, ◌+◌, ◌-◌, ◌*◌, ◌/◌, ◌%◌, ◌^◌, ◌&&◌, ◌||◌, Bool, true, false, not, Option, none, some, ◌==◌,
  leb, if◌then◌else◌, bit_and, List, [], ◌∷◌,
}
use dromajo.Cpu.State.{Cpu}
use dromajo.Cpu.Trap.{raise_exception2}
use dromajo.Memory.{Hart, DeviceIo}
use dromajo.Interp.{
  ExtFlags, Flow, next, jump, exception, illegal_insn, done_interp, aborted, read_reg, write_rd,
  set_pending,
}
use dromajo.Interp.Fields.{opcode_of, rd_of, rs1_of, rs2_of, funct3_of}
use dromajo.Interp.Arith.{op, op_32}
use dromajo.Interp.Immediate.{op_imm, op_imm_32}
use dromajo.Interp.Jump.{exec_lui, exec_auipc, exec_jal, exec_jalr, exec_branch}
use dromajo.Interp.Transfer.{on_cpu, exec_load, exec_store}
use dromajo.Interp.Atomic.{exec_atomic}
use dromajo.Interp.System.{exec_csr, exec_privileged, exec_misc_mem}
use dromajo.Interp.Compressed.{exec_quadrant_0, exec_quadrant_1, exec_quadrant_2}

abbrev pub cause_illegal_instruction : ℕ
cause_illegal_instruction = 2

-- flw, fsw, the fused multiplications, the operations, and the vector instructions.
unfoldable pub is_float_or_vector : ℕ → Bool
is_float_or_vector opcode =
    opcode == 0x07
    || opcode == 0x27
    || opcode == 0x43
    || opcode == 0x47
    || opcode == 0x4b
    || opcode == 0x4f
    || opcode == 0x53
    || opcode == 0x57

-- The end of a computational instruction.
unfoldable pub compute : Cpu → ℕ → Option ℕ → Cpu × Flow
compute s insn none = (s, illegal_insn)
compute s insn (some val) = (write_rd s (rd_of insn) val, next 4)

unfoldable pub exec_compute : ExtFlags → Cpu → ℕ → Cpu × Flow
exec_compute e s insn =
    let val = read_reg s (rs1_of insn) in
    let val2 = read_reg s (rs2_of insn) in
    let opcode = opcode_of insn in
    compute s insn (
      if opcode == 0x13
      then op_imm e insn val
      else if opcode == 0x1b
      then op_imm_32 e insn val
      else if opcode == 0x33
      then op e insn val val2
      else op_32 e insn val val2)

module _ {D : Type 0} (io : DeviceIo D) (e : ExtFlags) where
  module _ (read_hook : Cpu → ℕ → Option ℕ) (write_hook : Cpu → ℕ → ℕ → Option Cpu) where
    unfoldable pub exec_system : Hart D → ℕ → ℕ → Hart D × Flow
    exec_system h delta insn =
        if bit_and (funct3_of insn) 3 == 0
        then exec_privileged h insn
        else on_cpu h (exec_csr read_hook write_hook h.cpu delta insn)

    -- The opcodes of 32-bit instructions.
    unfoldable pub exec_32 : Hart D → ℕ → ℕ → Option (Hart D × Flow)
    exec_32 h delta insn =
        let opcode = opcode_of insn in
        if opcode == 0x37
        then some (on_cpu h (exec_lui h.cpu insn))
        else if opcode == 0x17
        then some (on_cpu h (exec_auipc h.cpu insn))
        else if opcode == 0x6f
        then some (on_cpu h (exec_jal h.cpu insn))
        else if opcode == 0x67
        then some (on_cpu h (exec_jalr h.cpu insn))
        else if opcode == 0x63
        then some (on_cpu h (exec_branch h.cpu insn))
        else if opcode == 0x03
        then some (exec_load io h insn)
        else if opcode == 0x23
        then some (exec_store io h insn)
        else if opcode == 0x13 || opcode == 0x1b || opcode == 0x33 || opcode == 0x3b
        then some (on_cpu h (exec_compute e h.cpu insn))
        else if opcode == 0x73
        then some (exec_system h delta insn)
        else if opcode == 0x0f
        then some (on_cpu h (exec_misc_mem h.cpu insn))
        else if opcode == 0x2f
        then some (exec_atomic io h insn)
        else if is_float_or_vector opcode
        then none
        else some (h, illegal_insn)

    -- The switch: `delta` instructions of this call came before.
    unfoldable pub exec : Hart D → ℕ → ℕ → Option (Hart D × Flow)
    exec h delta insn =
        let quadrant = bit_and insn 3 in
        if quadrant == 0
        then exec_quadrant_0 io h insn
        else if quadrant == 1
        then some (on_cpu h (exec_quadrant_1 h.cpu insn))
        else if quadrant == 2
        then exec_quadrant_2 io h insn
        else exec_32 h delta insn

-- What follows the switch, for an instruction at `pc`: the state and whether the loop goes on.
-- Without a pending exception (-1, kept as 2 ^ 32 - 1) the label `exception` only restores pc.
unfoldable pub take_exception : Cpu → ℕ → Cpu
take_exception s pc =
    let t = record s { pc = pc } in
    if s.pending_exception == 2 ^ 32 - 1
    then t
    else raise_exception2 t s.pending_exception s.pending_tval

unfoldable pub finish : {D : Type 0} → ℕ → Hart D × Flow → Option (Hart D × Bool)
finish pc (h, next length) =
    some (record h { cpu = record h.cpu { pc = (pc + length) % 2 ^ 64 } }, true)
finish pc (h, jump kind) = some (h, true)
finish pc (h, exception) = some (record h { cpu = take_exception h.cpu pc }, false)
finish pc (h, illegal_insn) =
    some (record h { cpu = take_exception (set_pending h.cpu cause_illegal_instruction) pc }, false)
finish pc (h, done_interp) = some (h, false)
finish pc (h, aborted) = none

-- The loop over instructions in a row, given as words: each stands at the pc that the one before it
-- left, and one that ends the loop ends the run with `none`.
unfoldable pub and_run :
    {D : Type 0} → Option (Hart D × Bool) → (Hart D → Option (Hart D)) → Option (Hart D)
and_run none k = none
and_run (some (h, true)) k = k h
and_run (some (h, false)) k = none

unfoldable pub turn : {D : Type 0} → ℕ → Option (Hart D × Flow) → Option (Hart D × Bool)
turn pc none = none
turn pc (some r) = finish pc r

module _ {D : Type 0} (io : DeviceIo D) (e : ExtFlags) (rh : Cpu → ℕ → Option ℕ) where
  unfoldable pub run_words : (Cpu → ℕ → ℕ → Option Cpu) → Hart D → ℕ → List ℕ → Option (Hart D)
  run_words wh h delta [] = some h
  run_words wh h delta (w ∷ ws) =
      and_run (turn h.cpu.pc (exec io e rh wh h delta w)) (λ t. run_words wh t (delta + 1) ws)
