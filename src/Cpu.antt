-- ===== src/Cpu.antt =====
-- The hart: the state that src/riscv_cpu.cpp keeps (include/riscv_cpu.h) and the operations on it.
pub mod Constants
pub mod State
pub mod Mstatus
pub mod Trap
pub mod Pmp
pub mod Csr
pub mod Interrupt
pub mod Mmu
