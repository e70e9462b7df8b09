-- ===== src/Cpu/Trap.antt =====
-- Trap entry and return: `raise_exception2`, `handle_sret`, `handle_mret` and `handle_dret` of
-- src/riscv_cpu.cpp.
pub mod Status
pub mod Return
pub mod Tlb
pub mod Privilege
use dromajo.Prelude.{
  ℕ, ◌+◌, ◌-◌, ◌*◌, ◌/◌, ◌%◌, ◌^◌, ◌&&◌, Bool, true, false, bit_and, bit_or, ◌==◌, leb,
  if◌then◌else◌, of_bool,
}
use dromajo.Prelude.Bits.{bit_not, test_bit, sign_extend}
use dromajo.Cpu.Constants.{
  mstatus_sie, mstatus_mie, mstatus_spie, mstatus_mpie, mstatus_spp, mstatus_mpp, prv_s, prv_m,
  cause_interrupt,
}
use dromajo.Cpu.State.{Cpu}
use dromajo.Cpu.Mstatus.{any, set_priv}

-- `CANONICAL_S49`: the word is sign-extended from bit 48.
unfoldable pub canonical_s49 : ℕ → ℕ
canonical_s49 v = sign_extend 49 v

-- Whether the trap goes to supervisor mode.
unfoldable pub is_delegated : Cpu → ℕ → Bool
is_delegated s cause =
    leb s.priv prv_s
    && (if any cause cause_interrupt
        then test_bit s.mideleg (bit_and cause 63)
        else test_bit s.medeleg cause)

-- mstatus on entry to S: SPIE takes SIE, SPP the privilege, and SIE is cleared.
unfoldable pub enter_s_mstatus : ℕ → ℕ → ℕ
enter_s_mstatus m priv =
    let a = bit_or (bit_and m (bit_not 64 mstatus_spie)) (of_bool (any m mstatus_sie) * 2 ^ 5) in
    let b = bit_or (bit_and a (bit_not 64 mstatus_spp)) (priv * 2 ^ 8) in
    bit_and b (bit_not 64 mstatus_sie)

-- mstatus on entry to M: MPIE takes MIE, MPP the privilege, and MIE is cleared.
unfoldable pub enter_m_mstatus : ℕ → ℕ → ℕ
enter_m_mstatus m priv =
    let a = bit_or (bit_and m (bit_not 64 mstatus_mpie)) (of_bool (any m mstatus_mie) * 2 ^ 7) in
    let b = bit_or (bit_and a (bit_not 64 mstatus_mpp)) (priv * 2 ^ 11) in
    bit_and b (bit_not 64 mstatus_mie)

-- The handler's address: a vectored table is indexed by an interrupt's number.
unfoldable pub vector : ℕ → ℕ → ℕ
vector tvec cause =
    let base = bit_and tvec (bit_not 64 3) in
    if bit_and tvec 3 == 1 && any cause cause_interrupt
    then (base + 4 * bit_and cause (bit_not 64 cause_interrupt)) % 2 ^ 64
    else base

unfoldable pub enter_s : Cpu → ℕ → ℕ → Cpu
enter_s s cause tval =
    set_priv
      (record s {
        scause = cause;
        sepc = canonical_s49 s.pc;
        stval = canonical_s49 tval;
        mstatus = enter_s_mstatus s.mstatus s.priv;
      })
      prv_s

unfoldable pub enter_m : Cpu → ℕ → ℕ → Cpu
enter_m s cause tval =
    set_priv
      (record s {
        mcause = cause;
        mepc = canonical_s49 s.pc;
        mtval = canonical_s49 tval;
        mstatus = enter_m_mstatus s.mstatus s.priv;
      })
      prv_m

unfoldable pub raise_exception2 : Cpu → ℕ → ℕ → Cpu
raise_exception2 s cause tval =
    if is_delegated s cause
    then (let t = enter_s s cause tval in record t { pc = vector t.stvec cause })
    else (let t = enter_m s cause tval in record t { pc = vector t.mtvec cause })

unfoldable pub raise_exception : Cpu → ℕ → Cpu
raise_exception s cause = raise_exception2 s cause 0

-- mstatus on sret, before SPP is cleared: SIE takes SPIE, and SPIE is set.
unfoldable pub sret_mstatus : ℕ → ℕ
sret_mstatus m =
    let a = bit_and m (bit_not 64 mstatus_sie) in
    let b = bit_or a (bit_and (a / 2 ^ 4) mstatus_sie) in bit_or b mstatus_spie

unfoldable pub handle_sret : Cpu → Cpu
handle_sret s =
    let m = sret_mstatus s.mstatus in
    let t =
      set_priv (record s { mstatus = bit_and m (bit_not 64 mstatus_spp) })
        (bit_and m mstatus_spp / 2 ^ 8) in
    record t { pc = t.sepc }

-- mstatus on mret, before MPP is cleared: MIE takes MPIE, and MPIE is set.
unfoldable pub mret_mstatus : ℕ → ℕ
mret_mstatus m =
    let a = bit_and m (bit_not 64 mstatus_mie) in
    let b = bit_or a (bit_and (a / 2 ^ 4) mstatus_mie) in bit_or b mstatus_mpie

unfoldable pub handle_mret : Cpu → Cpu
handle_mret s =
    let m = mret_mstatus s.mstatus in
    let t =
      set_priv (record s { mstatus = bit_and m (bit_not 64 mstatus_mpp) })
        (bit_and m mstatus_mpp / 2 ^ 11) in
    record t { pc = t.mepc }

unfoldable pub handle_dret : Cpu → Cpu
handle_dret s =
    let t =
      set_priv (record s { stop_the_counter = false; debug_mode = false }) (bit_and s.dcsr 3) in
    record t { pc = t.dpc }
