-- ===== src/Recovery/Run.antt =====
-- The encoded instructions, executed by the interpreter.
use dromajo.Prelude.{
  ℕ, ◌+◌, ◌-◌, ◌*◌, ◌/◌, ◌%◌, ◌^◌, ◌<◌, ◌≡◌, ◌∙◌, refl, sym, ap, arith, Option, some, true, length,
  get_or-set_self, length-set, [], ◌∷◌,
}
use dromajo.Prelude.Bits.{sign_extend, test_bit}
use dromajo.Cpu.State.{Cpu}
use dromajo.Cpu.Mmu.{PhysRead, loaded}
use dromajo.Memory.{Hart, DeviceIo, target_read}
use dromajo.Memory.Kept.{target_read-reg}
use dromajo.Interp.{ExtFlags, next, read_reg, write_reg, write_rd}
use dromajo.Interp.Fields.Pack.{
  opcode_of-pack, low_of-pack, rd_of-pack, funct3_of-pack, rs1_of-pack, imm_i-pack,
}
use dromajo.Interp.Immediate.{op_imm}
use dromajo.Interp.Jump.{exec_auipc}
use dromajo.Interp.Transfer.{on_cpu, and_then, write_loaded, exec_load, load_size, load_extend}
use dromajo.Interp.Exec.{exec, exec_32, exec_compute, compute, turn, finish, run_words, and_run}
use dromajo.Recovery.{create_auipc, create_addi, create_ld}
use dromajo.Recovery.Encoders.{
  create_addi-pack, create_ld-pack, rounded, create_auipc-fields, split_offset,
}

module _ {D : Type 0} (io : DeviceIo D) (e : ExtFlags) (rh : Cpu → ℕ → Option ℕ) where
  module _ (wh : Cpu → ℕ → ℕ → Option Cpu) (h : Hart D) (delta rd : ℕ) (reg : rd < 32) where
    exec-create_auipc :
        (off : ℕ)
        → off < 2 ^ 32
        → exec io e rh wh h delta (create_auipc rd off)
          ≡ some (
              on_cpu h (
                write_rd h.cpu rd
                    ((h.cpu.pc + sign_extend 32 (rounded off / 2 ^ 12 * 2 ^ 12)) % 2 ^ 64),
                next 4,
              ))
    unfolding exec exec_32 exec_auipc
    exec-create_auipc off small = ground (arith, create_auipc-fields rd off reg small)

    exec-create_addi :
        (off : ℕ)
        → exec io e rh wh h delta (create_addi rd off)
          ≡ some (
              on_cpu h (
                write_rd h.cpu rd ((read_reg h.cpu rd + sign_extend 12 (off % 2 ^ 12)) % 2 ^ 64),
                next 4,
              ))
    unfolding exec exec_32 exec_compute op_imm compute
    exec-create_addi off =
        let high = off % 2 ^ 12 in
        rw (create_addi-pack rd off reg) (
          ground (
            arith,
            low_of-pack 0x13 rd 0 rd high (omega arith) reg (omega arith),
            opcode_of-pack 0x13 rd 0 rd high (omega arith) reg (omega arith),
            rd_of-pack 0x13 rd 0 rd high (omega arith) reg (omega arith),
            funct3_of-pack 0x13 rd 0 rd high (omega arith) reg (omega arith),
            rs1_of-pack 0x13 rd 0 rd high (omega arith) reg (omega arith) reg,
            imm_i-pack 0x13 rd 0 rd high (omega arith) reg (omega arith) reg,
          ))

    exec-create_ld :
        (rs1 : ℕ)
        → rs1 < 32
        → exec io e rh wh h delta (create_ld rd rs1)
          ≡ some (
              and_then
                (target_read io h 3 ((read_reg h.cpu rs1 + sign_extend 12 0) % 2 ^ 64))
                (λ v t. write_loaded t rd v 4))
    unfolding exec exec_32 exec_load load_size load_extend
    exec-create_ld rs1 small =
        let packed = create_ld-pack rd rs1 reg small in
        let low = low_of-pack 3 rd 3 rs1 0 (omega arith) reg (omega arith) in
        let opcode = opcode_of-pack 3 rd 3 rs1 0 (omega arith) reg (omega arith) in
        let to = rd_of-pack 3 rd 3 rs1 0 (omega arith) reg (omega arith) in
        let size = funct3_of-pack 3 rd 3 rs1 0 (omega arith) reg (omega arith) in
        let from = rs1_of-pack 3 rd 3 rs1 0 (omega arith) reg (omega arith) small in
        let imm = imm_i-pack 3 rd 3 rs1 0 (omega arith) reg (omega arith) small in
        rw (packed, exec, low, exec_32, opcode, exec_load, size, packed, from, imm, to, size) refl

-- The hart after a straight instruction of four bytes that left the registers `s`.
unfoldable pub stepped : {D : Type 0} → Hart D → Cpu → Hart D
stepped h s = record h { cpu = record s { pc = (h.cpu.pc + 4) % 2 ^ 64 } }

-- After create_auipc, and after create_addi behind it.
unfoldable pub after_auipc : {D : Type 0} → Hart D → ℕ → ℕ → Hart D
after_auipc h rd off =
    stepped h
      (write_rd h.cpu rd ((h.cpu.pc + sign_extend 32 (rounded off / 2 ^ 12 * 2 ^ 12)) % 2 ^ 64))

unfoldable pub after_addi : {D : Type 0} → Hart D → ℕ → ℕ → Hart D
after_addi h rd off =
    stepped h (write_rd h.cpu rd ((read_reg h.cpu rd + sign_extend 12 (off % 2 ^ 12)) % 2 ^ 64))

read_reg-write_rd :
    (s : Cpu) (rd v : ℕ) → 0 < rd → rd < length s.reg → read_reg (write_rd s rd v) rd ≡ v
unfolding read_reg write_rd write_reg
read_reg-write_rd s rd v pos small = ground (arith, get_or-set_self s.reg rd v 0 small)

read_of :
    (s : Cpu) (rd v pc : ℕ)
    → 0 < rd
    → rd < length s.reg
    → read_reg (record (write_rd s rd v) { pc = (pc + 4) % 2 ^ 64 }) rd ≡ v
unfolding read_reg
read_of s rd v pc pos small = read_reg-write_rd s rd v pos small

write_rd-length : (s : Cpu) (rd v : ℕ) → length (write_rd s rd v).reg ≡ length s.reg
unfolding write_rd write_reg
write_rd-length s rd v = ground (arith, length-set s.reg rd v)

module _ {D : Type 0} (h : Hart D) (rd off : ℕ) (pos : 0 < rd) (reg : rd < length h.cpu.reg) where
  read_auipc :
      read_reg (after_auipc h rd off).cpu rd
      ≡ (h.cpu.pc + sign_extend 32 (rounded off / 2 ^ 12 * 2 ^ 12)) % 2 ^ 64
  unfolding after_auipc stepped read_reg
  read_auipc =
      read_reg-write_rd h.cpu rd
        ((h.cpu.pc + sign_extend 32 (rounded off / 2 ^ 12 * 2 ^ 12)) % 2 ^ 64) pos reg

  read_addi :
      read_reg (after_addi h rd off).cpu rd
      ≡ (read_reg h.cpu rd + sign_extend 12 (off % 2 ^ 12)) % 2 ^ 64
  unfolding after_addi stepped read_reg
  read_addi =
      read_reg-write_rd h.cpu rd ((read_reg h.cpu rd + sign_extend 12 (off % 2 ^ 12)) % 2 ^ 64) pos
        reg

  length-after_auipc : length (after_auipc h rd off).cpu.reg ≡ length h.cpu.reg
  unfolding after_auipc stepped
  length-after_auipc =
      write_rd-length h.cpu rd
        ((h.cpu.pc + sign_extend 32 (rounded off / 2 ^ 12 * 2 ^ 12)) % 2 ^ 64)

no_offset : sign_extend 12 0 ≡ 0
unfolding sign_extend test_bit
no_offset = refl

length-after_addi :
    {D : Type 0} (h : Hart D) (rd off : ℕ) → length (after_addi h rd off).cpu.reg ≡ length h.cpu.reg
unfolding after_addi stepped
length-after_addi h rd off =
    write_rd-length h.cpu rd ((read_reg h.cpu rd + sign_extend 12 (off % 2 ^ 12)) % 2 ^ 64)

-- The register holds the address that the offset is counted to, from `pc`.
pointed :
    {D : Type 0} (h : Hart D) (rd off : ℕ)
    → 0 < rd
    → rd < length h.cpu.reg
    → off < 2 ^ 31 - 2 ^ 11
    → read_reg (after_addi (after_auipc h rd off) rd off).cpu rd ≡ (h.cpu.pc + off) % 2 ^ 64
pointed h rd off pos reg small = omega (
  arith,
  read_addi (after_auipc h rd off) rd off pos (omega (arith, length-after_auipc h rd off pos reg)),
  read_auipc h rd off pos reg,
  split_offset off small,
)

module _ {D : Type 0} (io : DeviceIo D) (e : ExtFlags) (rh : Cpu → ℕ → Option ℕ) where
  module _ (wh : Cpu → ℕ → ℕ → Option Cpu) (rd off : ℕ) (reg : rd < 32)
      (small : off < 2 ^ 31 - 2 ^ 11) where
    turn_auipc :
        (h : Hart D) (delta : ℕ)
        → turn h.cpu.pc (exec io e rh wh h delta (create_auipc rd off))
          ≡ some (after_auipc h rd off, true)
    unfolding turn finish after_auipc stepped on_cpu
    turn_auipc h delta = rw (exec-create_auipc io e rh wh h delta rd reg off (omega arith)) refl

    turn_addi :
        (h : Hart D) (delta : ℕ)
        → turn h.cpu.pc (exec io e rh wh h delta (create_addi rd off))
          ≡ some (after_addi h rd off, true)
    unfolding turn finish after_addi stepped on_cpu
    turn_addi h delta = rw (exec-create_addi io e rh wh h delta rd reg off) refl

    -- The three instructions of a recovery (create_auipc, create_addi and create_ld) run to the end
    -- and leave in register `rd` the doubleword that a load at `off` bytes behind the first instruction
    -- reads. `rd` is not x0, the offset is below 2 ^ 31 - 2 ^ 11, and that load succeeds.
    pub run_words-recovers :
        (h t : Hart D) (delta v : ℕ)
        → 0 < rd
        → length h.cpu.reg ≡ 32
        → target_read io (after_addi (after_auipc h rd off) rd off) 3 ((h.cpu.pc + off) % 2 ^ 64)
          ≡ (loaded v, t)
        → (u : Hart D) × (run_words io e rh wh h delta
              (create_auipc rd off ∷ create_addi rd off ∷ create_ld rd rd ∷ [])
            ≡ some u)
          × (read_reg u.cpu rd ≡ v)
    unfolding run_words and_run turn finish and_then write_loaded
    run_words-recovers h t delta v pos len read_ok =
        let g = after_addi (after_auipc h rd off) rd off in
        let at : (read_reg g.cpu rd + sign_extend 12 0) % 2 ^ 64 ≡ (h.cpu.pc + off) % 2 ^ 64 =
          omega (arith, pointed h rd off pos (omega (arith, len)) small, no_offset) in
        let third = exec-create_ld io e rh wh g (delta + 1 + 1) rd reg rd reg in
        let w = write_rd t.cpu rd v in
        let same : t.cpu.reg ≡ g.cpu.reg =
          sym (ap (λ (r : PhysRead × Hart D). r.1.cpu.reg) read_ok)
          ∙ target_read-reg io g 3 ((h.cpu.pc + off) % 2 ^ 64) in
        let kept : length t.cpu.reg ≡ 32 =
          ap length same
          ∙ length-after_addi (after_auipc h rd off) rd off
          ∙ length-after_auipc h rd off pos (omega (arith, len))
          ∙ len in
        (
          record t { cpu = record w { pc = (g.cpu.pc + 4) % 2 ^ 64 } },
          rw (turn_auipc h delta, turn_addi (after_auipc h rd off) (delta + 1), third, at, read_ok)
              refl,
          read_of t.cpu rd v (g.cpu.pc) pos (omega (arith, kept)),
        )
