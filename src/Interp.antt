-- ===== src/Interp.antt =====
-- The body of the interpreter's loop, `riscv_cpu_interp64` of include/dromajo_template.h: decoding
-- and execution of the integer instructions. `s.pc` is GET_PC() while an instruction is executed.
-- An instruction is a 32-bit word; `imm` is kept sign-extended to 64 bits.
pub mod Fields
pub mod Word
pub mod Arith
pub mod Immediate
pub mod Jump
pub mod Transfer
pub mod Atomic
pub mod System
pub mod Compressed
pub mod Exec
pub mod Loop
use dromajo.Prelude.{
  ℕ, ◌+◌, ◌*◌, ◌/◌, ◌%◌, ◌^◌, ◌&&◌, ◌||◌, Bool, ◌==◌, if◌then◌else◌, of_bool, get_or, set,
}
use dromajo.Cpu.State.{Cpu}

-- `RISCVCTFInfo`: the kinds of control transfer.
pub data RiscvCtfInfo : Type 0 where
  ctf_nop ctf_taken_jump ctf_taken_branch : RiscvCtfInfo
  ctf_taken_jalr ctf_taken_jalr_pop ctf_taken_jalr_push ctf_taken_jalr_pop_push : RiscvCtfInfo

-- How an instruction leaves the switch: C_NEXT_INSN or NEXT_INSN with its length, JUMP_INSN with
-- `pc` at the target, and the labels `exception`, `illegal_insn` and `done_interp`. `aborted`
-- is a crash of the simulator, in a page table walk that reads a device.
pub data Flow : Type 0 where
  next : ℕ → Flow
  jump : RiscvCtfInfo → Flow
  exception illegal_insn done_interp aborted : Flow

-- `ext_flags` of the machine's configuration that the integer instructions test, and what
-- __builtin_ctz gives for zero, which its documentation leaves undefined.
pub record ExtFlags : Type 0 where
  pub zba : Bool
  pub zbb : Bool
  pub zbs : Bool
  pub ctz_of_zero : ℕ

abbrev pub cause_misaligned_fetch : ℕ
cause_misaligned_fetch = 0

abbrev pub cause_breakpoint : ℕ
cause_breakpoint = 3

unfoldable pub read_reg : Cpu → ℕ → ℕ
read_reg s x = get_or s.reg x 0

unfoldable pub write_reg : Cpu → ℕ → ℕ → Cpu
write_reg s x val = record s {
  most_recently_written_reg = x;
  reg_prior = set s.reg_prior x (get_or s.reg x 0);
  reg = set s.reg x val;
}

-- `if (rd != 0) write_reg(rd, val)`.
unfoldable pub write_rd : Cpu → ℕ → ℕ → Cpu
write_rd s rd val = if rd == 0 then s else write_reg s rd val

-- `s->pending_exception = cause; s->pending_tval = 0;` before a jump to `exception`.
unfoldable pub set_pending : Cpu → ℕ → Cpu
set_pending s cause = record s { pending_exception = cause; pending_tval = 0 }

-- The links are x1 and x5.
unfoldable pub ctf_compute_hint : ℕ → ℕ → RiscvCtfInfo
ctf_compute_hint rd rs1 =
    if rd == 1 || rd == 5
    then if rs1 == 1 || rs1 == 5
      then if rs1 == rd then ctf_taken_jalr_push else ctf_taken_jalr_pop_push
      else ctf_taken_jalr_push
    else if rs1 == 1 || rs1 == 5
    then ctf_taken_jalr_pop
    else ctf_taken_jalr
