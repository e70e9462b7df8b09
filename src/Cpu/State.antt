-- ===== src/Cpu/State.antt =====
-- The part of `RISCVCPUState` (include/riscv_cpu.h) that the modelled operations read or write.
-- Floating-point and vector registers, the trace vectors and the host pointers are left out. The
-- TLBs keep their tags; the valid entries of `pmp` and `pmpcfg` are one list.
use dromajo.Prelude.{ℕ, List, Bool}

-- One unpacked PMP region [lo; hi) with its configuration byte.
pub record PmpEntry : Type 0 where
  pub lo : ℕ
  pub hi : ℕ
  pub cfg : ℕ

pub record Cpu : Type 0 where
  pub pc : ℕ
  pub reg : List ℕ
  pub reg_prior : List ℕ
  pub most_recently_written_reg : ℕ
  pub fflags : ℕ
  pub frm : ℕ
  pub vstart : ℕ
  pub vxsat : ℕ
  pub vxrm : ℕ
  pub vtype : ℕ
  pub vl : ℕ
  pub priv : ℕ
  pub fs : ℕ
  pub vs : ℕ
  pub minstret : ℕ
  pub mcycle : ℕ
  pub debug_mode : Bool
  pub stop_the_counter : Bool
  pub power_down_flag : Bool
  pub pending_exception : ℕ
  pub pending_tval : ℕ
  pub mstatus : ℕ
  pub mtvec : ℕ
  pub mscratch : ℕ
  pub mepc : ℕ
  pub mcause : ℕ
  pub mtval : ℕ
  pub mvendorid : ℕ
  pub marchid : ℕ
  pub mimpid : ℕ
  pub mhartid : ℕ
  pub misa : ℕ
  pub mie : ℕ
  pub mip : ℕ
  pub medeleg : ℕ
  pub mideleg : ℕ
  pub mcounteren : ℕ
  pub mcountinhibit : ℕ
  pub tselect : ℕ
  pub tdata1 : List ℕ
  pub tdata2 : List ℕ
  pub mhpmevent : List ℕ
  pub csr_pmpcfg : List ℕ
  pub csr_pmpaddr : List ℕ
  pub pmp : List PmpEntry
  pub stvec : ℕ
  pub sscratch : ℕ
  pub sepc : ℕ
  pub scause : ℕ
  pub stval : ℕ
  pub satp : ℕ
  pub scounteren : ℕ
  pub dcsr : ℕ
  pub dpc : ℕ
  pub dscratch : ℕ
  pub plic_enable_irq : List ℕ
  pub physical_addr_len : ℕ
  pub tlb_read : ℕ → ℕ
  pub tlb_write : ℕ → ℕ
  pub tlb_code : ℕ → ℕ
  pub timecmp : ℕ
