-- ===== src/Interp/Atomic.antt =====
-- The atomic instructions: opcode 0x2f of the switch in include/dromajo_template.h, OP_A at 32 and
-- 64 bits. `size_log2` is 2 or 3, funct3 of the instruction.
pub mod Reservation
use dromajo.Prelude.{
  ℕ, ◌+◌, ◌-◌, ◌*◌, ◌/◌, ◌%◌, ◌^◌, ◌&&◌, ◌||◌, Bool, not, Option, none, some, ◌==◌, ltb,
  if◌then◌else◌, bit_and, bit_or, bit_xor,
}
use dromajo.Prelude.Bits.{sign_extend}
use dromajo.Cpu.Mmu.{PhysRead, loaded, failed, crashed}
use dromajo.Memory.{
  Hart, DeviceIo, target_read, target_write, pend, misaligned, cause_misaligned_store,
}
use dromajo.Interp.{
  Flow, next, exception, illegal_insn, aborted, read_reg, write_rd, cause_breakpoint,
}
use dromajo.Interp.Fields.{rd_of, rs1_of, rs2_of, funct3_of}
use dromajo.Interp.Transfer.{and_then, write_loaded}
use dromajo.Interp.Word.{less_signed}

-- `(int##size##_t)` and `(uint##size##_t)` of a word.
unfoldable pub to_int : ℕ → ℕ → ℕ
to_int size_log2 v = sign_extend (8 * 2 ^ size_log2) v

unfoldable pub to_uint : ℕ → ℕ → ℕ
to_uint size_log2 v = v % 2 ^ (8 * 2 ^ size_log2)

unfoldable pub is_amo : ℕ → Bool
is_amo f =
    f == 1
    || f == 0
    || f == 4
    || f == 0xc
    || f == 8
    || f == 0x10
    || f == 0x14
    || f == 0x18
    || f == 0x1c

-- The value that an AMO stores, from the loaded one and rs2.
unfoldable pub amo_value : ℕ → ℕ → ℕ → ℕ → ℕ
amo_value size_log2 f val val2 =
    let a = to_int size_log2 val in
    if f == 0
    then to_int size_log2 (val + val2)
    else if f == 4
    then to_int size_log2 (bit_xor val val2)
    else if f == 0xc
    then to_int size_log2 (bit_and val val2)
    else if f == 8
    then to_int size_log2 (bit_or val val2)
    else if f == 0x10
    then if less_signed a (to_int size_log2 val2) then a else val2
    else if f == 0x14
    then if less_signed (to_int size_log2 val2) a then a else val2
    else if f == 0x18
    then if ltb (to_uint size_log2 val) (to_uint size_log2 val2) then a else val2
    else if f == 0x1c
    then if ltb (to_uint size_log2 val2) (to_uint size_log2 val) then a else val2
    else val2

module _ {D : Type 0} (io : DeviceIo D) where
  unfoldable pub exec_lr : Hart D → ℕ → ℕ → Hart D × Flow
  exec_lr h size_log2 insn =
      let addr = read_reg h.cpu (rs1_of insn) in
      if not (rs2_of insn == 0)
      then (h, illegal_insn)
      else and_then (target_read io h size_log2 addr) (λ rval t.
        write_loaded (record t { load_res = addr; load_res_memseqno = t.memseqno }) (rd_of insn)
          (to_int size_log2 rval) 4)

  unfoldable pub reserved : Hart D → ℕ → Bool
  reserved h addr = h.load_res == addr && h.load_res_memseqno == h.memseqno

  unfoldable pub exec_sc : Hart D → ℕ → ℕ → Hart D × Flow
  exec_sc h size_log2 insn =
      let addr = read_reg h.cpu (rs1_of insn) in
      if misaligned size_log2 addr
      then (pend h cause_misaligned_store addr, exception)
      else if reserved h addr
      then and_then (target_write io h size_log2 addr (read_reg h.cpu (rs2_of insn))) (λ _ t.
        write_loaded (record t { load_res = 2 ^ 64 - 1; load_res_memseqno = 0 }) (rd_of insn) 0 4)
      else write_loaded h (rd_of insn) 1 4

  -- A load that fails on behalf of an AMO is reported as a store, but for a breakpoint.
  unfoldable pub as_store : Hart D → Hart D
  as_store h = if h.cpu.pending_exception == cause_breakpoint then h else record h {
    cpu = record h.cpu { pending_exception = (h.cpu.pending_exception + 2) % 2 ^ 32 };
  }

  unfoldable pub amo_store : Hart D → ℕ → ℕ → ℕ → ℕ → Hart D × Flow
  amo_store h size_log2 f insn rval =
      let val = to_int size_log2 rval in
      let val2 = read_reg h.cpu (rs2_of insn) in
      and_then
        (target_write io h size_log2 (read_reg h.cpu (rs1_of insn))
          (amo_value size_log2 f val val2))
        (λ _ t. write_loaded t (rd_of insn) val 4)

  unfoldable pub exec_amo : Hart D → ℕ → ℕ → Hart D × Flow
  exec_amo h size_log2 insn =
      let r = target_read io h size_log2 (read_reg h.cpu (rs1_of insn)) in
      elim r.0 [
        | loaded rval ↦ amo_store r.1 size_log2 (insn / 2 ^ 27) insn rval
        | failed ↦ (as_store r.1, exception)
        | crashed ↦ (r.1, aborted)
      ]

  unfoldable pub exec_atomic : Hart D → ℕ → Hart D × Flow
  exec_atomic h insn =
      let size_log2 = funct3_of insn in
      let f = insn / 2 ^ 27 in
      if not (size_log2 == 2 || size_log2 == 3)
      then (h, illegal_insn)
      else if f == 2
      then exec_lr h size_log2 insn
      else if f == 3
      then exec_sc h size_log2 insn
      else if is_amo f
      then exec_amo h size_log2 insn
      else (h, illegal_insn)
