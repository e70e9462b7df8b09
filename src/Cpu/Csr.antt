-- ===== src/Cpu/Csr.antt =====
-- Control and status registers: `counter_access_ok`, `csr_read` and `csr_write` of
-- src/riscv_cpu.cpp, with FLEN = 64 and VLEN = 128. The switch over the register's number is cut
-- into ranges, a child module each way. The hooks of the machine are arguments: `some` is a register
-- that the hook handled. `funct3`, which only the hooks see, is left out.
pub mod Read
pub mod Write
pub mod Access
pub mod Confined
pub mod Locked
pub mod Debug
