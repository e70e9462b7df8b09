-- ===== src/Interp/Transfer.antt =====
-- The loads and stores: opcodes 0x03 and 0x23 of the switch in include/dromajo_template.h.
use dromajo.Prelude.{ℕ, ◌+◌, ◌%◌, ◌^◌, Option, none, some, ◌==◌, ltb, if◌then◌else◌}
use dromajo.Prelude.Bits.{sign_extend}
use dromajo.Cpu.State.{Cpu}
use dromajo.Cpu.Mmu.{PhysRead, loaded, failed, crashed}
use dromajo.Memory.{Hart, DeviceIo, target_read, target_write}
use dromajo.Interp.{Flow, next, exception, illegal_insn, aborted, read_reg, write_rd}
use dromajo.Interp.Fields.{rd_of, rs1_of, rs2_of, funct3_of, imm_i, imm_s}

module _ {D : Type 0} where
  -- A step on the registers alone, as a step on the hart.
  unfoldable pub on_cpu : Hart D → Cpu × Flow → Hart D × Flow
  on_cpu h r = (record h { cpu = r.0 }, r.1)

  -- `goto mmu_exception` when the access failed.
  unfoldable pub and_then : PhysRead × Hart D → (ℕ → Hart D → Hart D × Flow) → Hart D × Flow
  and_then (loaded v, h) k = k v h
  and_then (failed, h) k = (h, exception)
  and_then (crashed, h) k = (h, aborted)

  unfoldable pub write_loaded : Hart D → ℕ → ℕ → ℕ → Hart D × Flow
  write_loaded h rd val length = (record h { cpu = write_rd h.cpu rd val }, next length)

-- The size and the extension of a load, by funct3.
unfoldable pub load_size : ℕ → Option ℕ
load_size funct3 = if funct3 == 7 then none else some (funct3 % 4)

unfoldable pub load_extend : ℕ → ℕ → ℕ
load_extend funct3 rval =
    if funct3 == 0
    then sign_extend 8 rval
    else if funct3 == 1
    then sign_extend 16 rval
    else if funct3 == 2
    then sign_extend 32 rval
    else rval

unfoldable pub exec_load : {D : Type 0} → DeviceIo D → Hart D → ℕ → Hart D × Flow
exec_load io h insn =
    let addr = (read_reg h.cpu (rs1_of insn) + imm_i insn) % 2 ^ 64 in
    elim (load_size (funct3_of insn)) [
      | none ↦ (h, illegal_insn)
      | some size_log2 ↦
          and_then (target_read io h size_log2 addr)
            (λ rval t. write_loaded t (rd_of insn) (load_extend (funct3_of insn) rval) 4)
    ]

unfoldable pub exec_store : {D : Type 0} → DeviceIo D → Hart D → ℕ → Hart D × Flow
exec_store io h insn =
    let addr = (read_reg h.cpu (rs1_of insn) + imm_s insn) % 2 ^ 64 in
    let val = read_reg h.cpu (rs2_of insn) in
    if ltb (funct3_of insn) 4
    then and_then (target_write io h (funct3_of insn) addr val) (λ _ t. (t, next 4))
    else (h, illegal_insn)
