-- ===== src/Cpu/Csr/Read.antt =====
-- `counter_access_ok` and `csr_read`; `none` is the -1 of a register that is not readable.
use dromajo.Prelude.{
  ℕ, ◌-◌, ◌*◌, ◌/◌, ◌^◌, ◌&&◌, ◌||◌, Bool, Option, none, some, ◌==◌, ltb, leb, if◌then◌else◌,
  get_or, bit_and, bit_or,
}
use dromajo.Prelude.Bits.{test_bit}
use dromajo.Cpu.Constants.{sstatus_mask, mstatus_tvm, prv_u, prv_s, prv_m, word_mask}
use dromajo.Cpu.State.{Cpu}
use dromajo.Cpu.Mstatus.{any, get_mstatus}

unfoldable pub counter_access_ok : Cpu → ℕ → Bool
counter_access_ok s csr =
    let counteren =
      if s.priv == prv_u
      then s.scounteren
      else if s.priv == prv_s
      then s.mcounteren
      else if s.priv == prv_m
      then 2 ^ 32 - 1
      else 0 in
    test_bit counteren (bit_and csr 31)

-- 0x001 to 0x00f: floating point and vector state, off while FS or VS is.
unfoldable pub read_user : Cpu → ℕ → Option ℕ
read_user s csr =
    let fp : ℕ → Option ℕ = λ v. if s.fs == 0 then none else some v in
    let vec : ℕ → Option ℕ = λ v. if s.vs == 0 then none else some v in
    if csr == 0x001
    then fp s.fflags
    else if csr == 0x002
    then fp s.frm
    else if csr == 0x003
    then fp (bit_or s.fflags (s.frm * 2 ^ 5))
    else if csr == 0x008
    then vec s.vstart
    else if csr == 0x009
    then vec s.vxsat
    else if csr == 0x00a
    then vec s.vxrm
    else if csr == 0x00f
    then vec (bit_or s.vxsat (s.vxrm * 2))
    else none

-- 0x100 to 0x180: supervisor registers.
unfoldable pub read_supervisor : Cpu → ℕ → Option ℕ
read_supervisor s csr =
    if csr == 0x100
    then some (get_mstatus s sstatus_mask)
    else if csr == 0x104
    then some (bit_and s.mie s.mideleg)
    else if csr == 0x105
    then some s.stvec
    else if csr == 0x106
    then some s.scounteren
    else if csr == 0x140
    then some s.sscratch
    else if csr == 0x141
    then some s.sepc
    else if csr == 0x142
    then some s.scause
    else if csr == 0x143
    then some s.stval
    else if csr == 0x144
    then some (bit_and s.mip s.mideleg)
    else if csr == 0x180
    then (if s.priv == prv_s && any s.mstatus mstatus_tvm then none else some s.satp)
    else none

-- 0x300 to 0x344: machine registers; 0x323 to 0x33f select events.
unfoldable pub read_machine : Cpu → ℕ → Option ℕ
read_machine s csr =
    if csr == 0x300
    then some (get_mstatus s word_mask)
    else if csr == 0x301
    then some (bit_or s.misa (2 * 2 ^ 62))
    else if csr == 0x302
    then some s.medeleg
    else if csr == 0x303
    then some s.mideleg
    else if csr == 0x304
    then some s.mie
    else if csr == 0x305
    then some s.mtvec
    else if csr == 0x306
    then some s.mcounteren
    else if csr == 0x320
    then some s.mcountinhibit
    else if leb 0x323 csr && leb csr 0x33f
    then some (get_or s.mhpmevent (bit_and csr 0x1f) 0)
    else if csr == 0x340
    then some s.mscratch
    else if csr == 0x341
    then some s.mepc
    else if csr == 0x342
    then some s.mcause
    else if csr == 0x343
    then some s.mtval
    else if csr == 0x344
    then some s.mip
    else none

-- 0x3a0 to 0x3bf: pmpcfg0 and pmpcfg2, pmpaddr0 to pmpaddr15.
unfoldable pub read_pmp : Cpu → ℕ → Option ℕ
read_pmp s csr =
    if csr == 0x3a0 || csr == 0x3a2
    then some (get_or s.csr_pmpcfg (csr - 0x3a0) 0)
    else if leb 0x3b0 csr && leb csr 0x3bf
    then some (get_or s.csr_pmpaddr (csr - 0x3b0) 0)
    else none

-- 0x7a0 to 0x7b2: triggers, and the debug registers, which debug mode alone can read.
unfoldable pub read_debug : Cpu → ℕ → Option ℕ
read_debug s csr =
    let debug : ℕ → Option ℕ = λ v. if s.debug_mode then some v else none in
    if csr == 0x7a0
    then some s.tselect
    else if csr == 0x7a1
    then some (get_or s.tdata1 s.tselect 0)
    else if csr == 0x7a2
    then some (get_or s.tdata2 s.tselect 0)
    else if csr == 0x7b0
    then debug s.dcsr
    else if csr == 0x7b1
    then debug s.dpc
    else if csr == 0x7b2
    then debug s.dscratch
    else none

-- 0xb00 to 0xc1f: the counters; all but mcycle and minstret read as zero.
unfoldable pub read_counter : Cpu → ℕ → Option ℕ
read_counter s csr =
    let counter : ℕ → Option ℕ = λ v. if counter_access_ok s csr then some v else none in
    if csr == 0xb00 || csr == 0xc00
    then counter s.mcycle
    else if csr == 0xb02 || csr == 0xc02
    then counter s.minstret
    else if (leb 0xb03 csr && leb csr 0xb1f) || (leb 0xc03 csr && leb csr 0xc1f)
    then counter 0
    else none

-- 0xc20 to 0xf14: the vector configuration, and the identity of the hart.
unfoldable pub read_info : Cpu → ℕ → Option ℕ
read_info s csr =
    let vec : ℕ → Option ℕ = λ v. if s.vs == 0 then none else some v in
    if csr == 0xc20
    then vec s.vl
    else if csr == 0xc21
    then vec s.vtype
    else if csr == 0xc22
    then vec 16
    else if csr == 0xf14
    then some s.mhartid
    else if csr == 0xf13
    then some s.mimpid
    else if csr == 0xf12
    then some s.marchid
    else if csr == 0xf11
    then some s.mvendorid
    else none

-- The switch.
unfoldable pub read_switch : Cpu → ℕ → Option ℕ
read_switch s csr =
    if ltb csr 0x100
    then read_user s csr
    else if ltb csr 0x300
    then read_supervisor s csr
    else if ltb csr 0x3a0
    then read_machine s csr
    else if ltb csr 0x7a0
    then read_pmp s csr
    else if ltb csr 0xb00
    then read_debug s csr
    else if ltb csr 0xc20
    then read_counter s csr
    else read_info s csr

unfoldable pub csr_read : (Cpu → ℕ → Option ℕ) → Cpu → ℕ → Bool → Option ℕ
csr_read hook s csr will_write =
    if bit_and csr 0xc00 == 0xc00 && will_write
    then none
    else if ltb s.priv (bit_and (csr / 2 ^ 8) 3)
    then none
    else elim (hook s csr) [ some v ↦ some v | none ↦ read_switch s csr ]
