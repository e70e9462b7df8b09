-- ===== src/Examples/Accesses.antt =====
-- A hart in machine mode with RAM, running instructions and accessing memory.
use dromajo.Prelude.{
  ℕ, zero, suc, ◌+◌, ◌-◌, ◌*◌, ◌%◌, ◌^◌, ◌<◌, ◌≡◌, ◌≢◌, refl, ap, arith, true, false, Option, none,
  some, get_or, replicate, List, [], ◌∷◌,
}
use dromajo.Prelude.Bits.{test_bit, sign_extend}
use dromajo.Cpu.State.{Cpu}
use dromajo.Cpu.Pmp.{riscv_cpu_pmp_access_ok, scan_pmp, data_priv}
use dromajo.Cpu.Mmu.{PhysRead, loaded, riscv_cpu_get_phys_addr, load_le}
use dromajo.Iomem.{PhysMemoryRange, get_phys_mem_range, contains}
use dromajo.Examples.{hart}
use dromajo.Examples.Instructions.{flags}
use dromajo.Memory.{
  Hart, DeviceIo, read_ram, read_range_at, write_range_at, target_read, riscv_cpu_read_memory,
  misaligned, tlb_idx, tag_of, page_of, truncate, fill_read, tlb_store,
}
use dromajo.Memory.Trigger.{check_triggers, check_from, trigger_matches}
use dromajo.Memory.Ram.{read_range_at-write_range_at}
use dromajo.Memory.Hit.{target_read-read_range_at}
use dromajo.Interp.{next, read_reg, write_reg, write_rd}
use dromajo.Interp.Fields.{opcode_of, rd_of, rs1_of, rs2_of, funct3_of, imm_i}
use dromajo.Interp.Immediate.{op_imm}
use dromajo.Interp.Transfer.{and_then, write_loaded, on_cpu}
use dromajo.Interp.Atomic.{exec_lr, exec_sc, reserved}
use dromajo.Interp.Atomic.Reservation.{exec_lr-reserved, exec_sc-exec_sc}
use dromajo.Interp.Exec.{exec, exec_32, exec_compute, compute, run_words}
use dromajo.Interp.Exec.Registers.{RegsOk}
use dromajo.Interp.Exec.Words.{exec-RegsOk}
use dromajo.Recovery.{BootRom, create_auipc, create_addi, create_ld}
use dromajo.Recovery.Run.{after_auipc, after_addi, stepped, run_words-recovers}

-- No devices.
abbrev pub quiet_io : DeviceIo Unit
quiet_io = record { read_func = λ d _ _ _. (0, d); write_func = λ d _ _ _ _. d }

abbrev ram : PhysMemoryRange
ram = record {
  addr = 0x8000_0000;
  org_size = 0x10_0000;
  size = 0x10_0000;
  is_ram = true;
  devram_flags = 0;
  phys_mem = λ i. i % 256;
  has_dirty_bits = false;
  dirty_bits = [];
  dirty_bits_other = [];
  devio_flags = 0;
}

-- x6 points into RAM.
abbrev pub board_cpu : Cpu
board_cpu = record hart { reg = 0 ∷ 0 ∷ 0 ∷ 0 ∷ 0 ∷ 0 ∷ 0x8000_0100 ∷ replicate 25 0 }

abbrev pub board : Hart Unit
board = record {
  cpu = board_cpu;
  mem_map = ram ∷ [];
  devices = tt;
  tlb_read_addend = λ _. record { range = 0; addend = 0 };
  tlb_write_addend = λ _. record { range = 0; addend = 0 };
  tlb_code_addend = λ _. record { range = 0; addend = 0 };
  memseqno = 0;
  load_res = 0;
  load_res_memseqno = 0;
  terminate_simulation = false;
  ignore_sbi_shutdown = false;
  has_pending_interrupt = false;
  cosim = false;
}

abbrev pub no_read : Cpu → ℕ → Option ℕ
no_read s csr = none

abbrev pub no_write : Cpu → ℕ → ℕ → Option Cpu
no_write s csr v = none

-- addi x1, x6, 5
abbrev insn : ℕ
insn = 0x0053_0093

abbrev added : Hart Unit
added = record board { cpu = write_reg board_cpu 1 0x8000_0105 }

runs : exec quiet_io flags no_read no_write board 0 insn ≡ some (added, next 4)
unfolding exec exec_32 exec_compute compute op_imm opcode_of on_cpu read_reg write_rd write_reg
    rd_of rs1_of rs2_of funct3_of imm_i sign_extend test_bit
runs = refl

word_or_zero : (regs : List ℕ) (i n : ℕ) → get_or (replicate n 0) i 0 < 2 ^ 64
word_or_zero regs i zero = omega arith
word_or_zero regs zero (suc n) = omega arith
word_or_zero regs (suc i) (suc n) = word_or_zero regs i n

words : (i : ℕ) → get_or board_cpu.reg i 0 < 2 ^ 64
words zero = omega arith
words (suc zero) = omega arith
words (suc (suc zero)) = omega arith
words (suc (suc (suc zero))) = omega arith
words (suc (suc (suc (suc zero)))) = omega arith
words (suc (suc (suc (suc (suc zero))))) = omega arith
words (suc (suc (suc (suc (suc (suc zero)))))) = omega arith
words (suc (suc (suc (suc (suc (suc (suc i))))))) = word_or_zero [] i 25

computes : opcode_of insn ≢ 0x73
unfolding opcode_of
computes z = omega arith

exec-RegsOk_example : RegsOk added.cpu.reg
exec-RegsOk_example =
    exec-RegsOk quiet_io flags no_read no_write board added 0 insn (next 4) (refl, refl, words)
      computes runs

abbrev data_addr : ℕ
data_addr = 0x8000_0040

located : get_phys_mem_range board.mem_map data_addr ≡ some 0
unfolding get_phys_mem_range contains
located = refl

read_range_at-write_range_at_example :
    (read_range_at quiet_io
      (write_range_at quiet_io board 3 data_addr data_addr 0x1234)
      3
      data_addr
      data_addr).0
    ≡ 0x1234 % 2 ^ (8 * 2 ^ 3)
read_range_at-write_range_at_example =
    read_range_at-write_range_at quiet_io board 0 data_addr ram 3 data_addr data_addr 0x1234 located
      refl refl

page_kept : page_of 0x8000_0080 ≡ page_of data_addr
unfolding page_of
page_kept = refl

straight : misaligned 2 0x8000_0080 ≡ false
unfolding misaligned
straight = refl

no_trigger :
    (check_triggers (fill_read board data_addr 0 ram data_addr).cpu 1 0x8000_0080).0 ≡ false
unfolding check_triggers check_from trigger_matches fill_read
no_trigger = refl

target_read-read_range_at_example :
    let t = (read_range_at quiet_io board 3 data_addr data_addr).1 in
    target_read quiet_io t 2 0x8000_0080
    ≡ (loaded (read_ram board.mem_map 2 0 (data_addr - 0x8000_0000 + 0x8000_0080 - data_addr)), t)
target_read-read_range_at_example =
    target_read-read_range_at quiet_io board 0 data_addr data_addr ram 3 2 0x8000_0080 located refl
      refl (omega arith) (omega arith) page_kept (omega arith) straight (omega arith) (omega arith)
      no_trigger

-- lr.w x5, (x6) and sc.w x5, x7, (x6)
abbrev lr_insn : ℕ
lr_insn = 0x1003_22af

abbrev sc_insn : ℕ
sc_insn = 0x1873_22af

abbrev lr_done : Hart Unit
lr_done = (exec_lr quiet_io board 2 lr_insn).0

lr_ok : exec_lr quiet_io board 2 lr_insn ≡ (lr_done, next 4)
unfolding exec_lr rs1_of rs2_of read_reg target_read check_triggers check_from trigger_matches
    misaligned tlb_idx tag_of riscv_cpu_read_memory riscv_cpu_get_phys_addr data_priv
    riscv_cpu_pmp_access_ok scan_pmp read_range_at get_phys_mem_range contains truncate and_then
    write_loaded
lr_ok = refl

lr_seq : lr_done.memseqno ≡ 0
unfolding exec_lr rs1_of rs2_of read_reg target_read check_triggers check_from trigger_matches
    misaligned tlb_idx tag_of riscv_cpu_read_memory riscv_cpu_get_phys_addr data_priv
    riscv_cpu_pmp_access_ok scan_pmp read_range_at fill_read get_phys_mem_range contains truncate
    and_then write_loaded
lr_seq = refl

lr_map : lr_done.mem_map ≡ ram ∷ []
unfolding exec_lr rs1_of rs2_of read_reg target_read check_triggers check_from trigger_matches
    misaligned tlb_idx tag_of riscv_cpu_read_memory riscv_cpu_get_phys_addr data_priv
    riscv_cpu_pmp_access_ok scan_pmp read_range_at fill_read get_phys_mem_range contains truncate
    and_then write_loaded
lr_map = refl

in_ram : get_phys_mem_range (ram ∷ []) 0x8000_0400 ≡ some 0
unfolding get_phys_mem_range contains
in_ram = refl

-- Another hart of the same machine.
abbrev other : Hart Unit
other = record board { memseqno = lr_done.memseqno; mem_map = lr_done.mem_map }

exec_lr-reserved_example :
    let addr = read_reg board_cpu (rs1_of lr_insn) in
    let miss = write_range_at quiet_io other 3 0x8000_0400 0x8000_0400 7 in
    let hit = tlb_store other 3 0x8000_0400 7 in
    (reserved quiet_io lr_done addr ≡ true)
    × (reserved quiet_io (record lr_done { memseqno = miss.memseqno }) addr ≡ false)
    × (reserved quiet_io (record lr_done { memseqno = hit.memseqno }) addr ≡ false)
    × (reserved quiet_io (write_range_at quiet_io lr_done 3 0x8000_0400 0x8000_0400 7) addr ≡ true)
    × (reserved quiet_io (tlb_store lr_done 3 0x8000_0400 7) addr ≡ true)
exec_lr-reserved_example =
    exec_lr-reserved quiet_io board lr_done other 2 lr_insn 3 0x8000_0400 0x8000_0400 7 0 ram lr_ok
      (omega (arith, lr_seq)) refl refl (rw lr_map in_ram) (rw lr_map refl) refl

abbrev once : Hart Unit
once = (exec_sc quiet_io board 2 sc_insn).0

abbrev twice : Hart Unit
twice = (exec_sc quiet_io once 2 sc_insn).0

first : exec_sc quiet_io board 2 sc_insn ≡ (once, next 4)
unfolding exec_sc rs1_of read_reg misaligned reserved write_loaded
first = refl

second : exec_sc quiet_io once 2 sc_insn ≡ (twice, next 4)
unfolding exec_sc rs1_of rd_of read_reg misaligned reserved write_loaded write_rd write_reg
second = refl

address_kept : read_reg once.cpu (rs1_of sc_insn) ≡ read_reg board_cpu (rs1_of sc_insn)
unfolding exec_sc rs1_of rd_of read_reg misaligned reserved write_loaded write_rd write_reg
address_kept = refl

exec_sc-exec_sc_example : (twice, next 4) ≡ write_loaded once (rd_of sc_insn) 1 4
exec_sc-exec_sc_example =
    exec_sc-exec_sc quiet_io board once twice 2 sc_insn 2 sc_insn (omega arith) (omega arith) first
      address_kept second

-- A ROM of sixteen words, with the data from word eight on.
abbrev boot_rom : BootRom
boot_rom = record { rom = replicate 16 0; code_pos = 0; data_pos = 8 }

abbrev pointed_hart : Hart Unit
pointed_hart = after_addi (after_auipc board 5 0x1840) 5 0x1840

abbrev result : PhysRead × Hart Unit
result = target_read quiet_io pointed_hart 3 ((board_cpu.pc + 0x1840) % 2 ^ 64)

same_hart : (r : PhysRead × Hart Unit) (v : ℕ) → r.0 ≡ loaded v → r ≡ (loaded v, r.1)
same_hart r v e = ap (λ (a : PhysRead). (a, r.1)) e

value_read : result.0 ≡ loaded 0x4746_4544_4342_4140
unfolding after_addi after_auipc stepped write_rd write_reg read_reg target_read check_triggers
    check_from trigger_matches misaligned tlb_idx tag_of riscv_cpu_read_memory
    riscv_cpu_get_phys_addr data_priv riscv_cpu_pmp_access_ok scan_pmp read_range_at
    get_phys_mem_range contains truncate read_ram load_le
value_read = refl

run_words-recovers_example :
    (u : Hart Unit) × (run_words quiet_io flags no_read no_write board 0
        (create_auipc 5 0x1840 ∷ create_addi 5 0x1840 ∷ create_ld 5 5 ∷ [])
      ≡ some u)
    × (read_reg u.cpu 5 ≡ 0x4746_4544_4342_4140)
run_words-recovers_example =
    run_words-recovers quiet_io flags no_read no_write 5 0x1840 (omega arith) (omega arith) board
      result.1 0 0x4746_4544_4342_4140 (omega arith) refl
      (same_hart result 0x4746_4544_4342_4140 value_read)
