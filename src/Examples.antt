-- ===== src/Examples.antt =====
-- Concrete machines on which the theorems are applied.
pub mod Registers
pub mod Paging
pub mod Traps
pub mod Controllers
pub mod Serial
pub mod Products
pub mod Instructions
pub mod Accesses
pub mod Fetching
pub mod Virtio
pub mod Cosim
use dromajo.Prelude.{ℕ, ◌+◌, ◌*◌, ◌^◌, Bool, true, false, List, [], ◌∷◌, replicate}
use dromajo.Cpu.Constants.{no_page}
use dromajo.Cpu.State.{Cpu, PmpEntry}
use dromajo.Devices.{RiscvMachine}

-- A hart in machine mode, with nothing delegated and nothing pending.
abbrev pub hart : Cpu
hart = record {
  pc = 0x8000_0000;
  reg = replicate 32 0;
  reg_prior = replicate 32 0;
  most_recently_written_reg = 0;
  fflags = 0;
  frm = 0;
  vstart = 0;
  vxsat = 0;
  vxrm = 0;
  vtype = 0;
  vl = 0;
  priv = 3;
  fs = 0;
  vs = 0;
  minstret = 0;
  mcycle = 0;
  debug_mode = false;
  stop_the_counter = false;
  power_down_flag = false;
  pending_exception = 0;
  pending_tval = 0;
  mstatus = 0xa_0000_0000;
  mtvec = 0x100;
  mscratch = 0x55;
  mepc = 0;
  mcause = 0;
  mtval = 0;
  mvendorid = 0;
  marchid = 0;
  mimpid = 0;
  mhartid = 0;
  misa = 0;
  mie = 0;
  mip = 0;
  medeleg = 0;
  mideleg = 0;
  mcounteren = 0;
  mcountinhibit = 0;
  tselect = 0;
  tdata1 = 0 ∷ [];
  tdata2 = 0 ∷ [];
  mhpmevent = replicate 32 0;
  csr_pmpcfg = replicate 4 0;
  csr_pmpaddr = replicate 16 0;
  pmp = [];
  stvec = 0x200;
  sscratch = 0;
  sepc = 0;
  scause = 0;
  stval = 0;
  satp = 0;
  scounteren = 0;
  dcsr = 0;
  dpc = 0;
  dscratch = 0;
  plic_enable_irq = 0 ∷ 0 ∷ [];
  physical_addr_len = 56;
  tlb_read = λ _. no_page;
  tlb_write = λ _. no_page;
  tlb_code = λ _. no_page;
  timecmp = 0;
}

-- A hart in user mode whose exceptions and supervisor interrupts go to supervisor mode.
abbrev pub user_hart : Cpu
user_hart = record hart { priv = 0; medeleg = 0xb109; mideleg = 0x222 }

-- A machine of one hart, with source 5 pending and enabled for its supervisor context.
abbrev pub machine : RiscvMachine
machine = record {
  cpus = record hart { plic_enable_irq = 0x20 ∷ 0 ∷ [] } ∷ [];
  plic_pending_irq = 0x60;
  plic_served_irq = 0;
  plic_priority = replicate 128 0;
}
