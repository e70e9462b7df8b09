-- ===== src/Devices.antt =====
-- The devices, and the state of `RISCVMachine`
-- (include/riscv_machine.h) that they share.
pub mod Clint
pub mod Plic
pub mod Uart
pub mod SifiveUart
use dromajo.Prelude.{ℕ, List}
use dromajo.Cpu.State.{Cpu}

-- `cpus` is cpu_state[0 .. ncpus-1]; `plic_priority` is the static array of the PLIC.
pub record RiscvMachine : Type 0 where
  pub cpus : List Cpu
  pub plic_pending_irq : ℕ
  pub plic_served_irq : ℕ
  pub plic_priority : List ℕ
