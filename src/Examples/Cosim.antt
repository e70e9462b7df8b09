-- ===== src/Examples/Cosim.antt =====
-- A step beside a design under test that runs `addi x1, x6, 5`.
use dromajo.Prelude.{ℕ, ◌-◌, ◌^◌, ◌≤◌, true, Option, none, some, [], ◌∷◌, ◌==◌, if◌then◌else◌}
use dromajo.Prelude.Returns.{Holds}
use dromajo.Iomem.{ram_entry}
use dromajo.Memory.{Hart}
use dromajo.Interp.Loop.{riscv_cpu_interp64}
use dromajo.Interp.Loop.Counts.{riscv_cpu_interp64-le}
use dromajo.Cosim.{Machine, Dut, dromajo_cosim_step}
use dromajo.Examples.Accesses.{board, board_cpu, quiet_io, no_read, no_write}
use dromajo.Examples.Instructions.{flags}

abbrev program : ℕ → ℕ
program i = if i == 0 then 0x93 else if i == 2 then 0x53 else 0

abbrev board_hart : Hart Unit
board_hart = record board {
  mem_map = record (ram_entry 0x8000_0000 0x1000 0) { phys_mem = program } ∷ [];
  cpu = record board_cpu { pc = 0x8000_0000 };
  cosim = true;
}

abbrev machine : Machine Unit
machine = record {
  maxinsns = 2;
  pending_interrupt = 2 ^ 32 - 1;
  pending_exception = 2 ^ 32 - 1;
  hart = board_hart;
}

abbrev dut : Dut
dut = record { pc = 0x8000_0000; insn = 0x0053_0093; wdata = 0x8000_0105 }

riscv_cpu_interp64-le_example :
    Holds
      (λ (r : ℕ × Hart Unit). r.0 ≤ 1)
      (riscv_cpu_interp64 quiet_io flags no_read no_write board_hart 1)
riscv_cpu_interp64-le_example = riscv_cpu_interp64-le quiet_io flags no_read no_write board_hart 1

abbrev after : Option (ℕ × Machine Unit) → Machine Unit
after none = machine
after (some r) = r.1

abbrev code_of : Option (ℕ × Machine Unit) → ℕ
code_of none = 1
code_of (some r) = r.0

abbrev stepped : Option (ℕ × Machine Unit)
stepped = dromajo_cosim_step quiet_io flags no_read no_write 0 0 1 machine dut true
