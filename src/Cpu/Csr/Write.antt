-- ===== src/Cpu/Csr/Write.antt =====
-- `csr_write`.
use dromajo.Prelude.{
  ℕ, zero, suc, ◌+◌, ◌-◌, ◌*◌, ◌/◌, ◌%◌, ◌^◌, ◌&&◌, ◌||◌, Bool, not, Option, none, some, ◌==◌, ltb,
  leb, if◌then◌else◌, get_or, set, bit_and, bit_or,
}
use dromajo.Prelude.Bits.{bit_not, merge}
use dromajo.Cpu.Constants.{
  sstatus_mask, mstatus_tvm, prv_s, mcpuid_c, mip_ssip, mip_stip, mip_seip, mip_msip, mip_mtip,
  mip_meip, mip_mcip,
}
use dromajo.Cpu.State.{Cpu}
use dromajo.Cpu.Mstatus.{any, set_mstatus, tlb_flush_all}
use dromajo.Cpu.Trap.{canonical_s49}
use dromajo.Cpu.Pmp.{unpack_pmpaddrs, pmpcfg_l, pmpcfg_a_mask}

-- -1, 0 and 2: refused, done, and done with the TLBs flushed.
pub data Written : Type 0 where
  invalid : Written
  done : Cpu → Written
  flushed : Cpu → Written

unfoldable pub write_user : Cpu → ℕ → ℕ → Written
write_user s csr val =
    if csr == 0x001
    then done (record s { fflags = bit_and val 0x1f; fs = 3 })
    else if csr == 0x002
    then done (record s { frm = bit_and val 7; fs = 3 })
    else if csr == 0x003
    then done (record s { frm = bit_and (val / 2 ^ 5) 7; fflags = bit_and val 0x1f; fs = 3 })
    else if csr == 0x008
    then (if s.vs == 0 then invalid else done (record s { vstart = bit_and val 127; vs = 3 }))
    else if csr == 0x009
    then (if s.vs == 0 then invalid else done (record s { vxsat = bit_and val 1; vs = 3 }))
    else if csr == 0x00a
    then (if s.vs == 0 then invalid else done (record s { vxrm = bit_and val 3; vs = 3 }))
    else if csr == 0x00f
    then (if s.vs == 0
        then invalid
        else done (record s {
          vxsat = bit_and (bit_and val 7) 1;
          vxrm = bit_and (bit_and val 7) 6 / 2;
          vs = 3;
        }))
    else invalid

-- The low bits that a program counter register drops.
abbrev pub pc_mask : Cpu → ℕ
pc_mask s = if any s.misa mcpuid_c then bit_not 64 1 else bit_not 64 3

-- The base of a vectored table keeps its mode bit and loses the rest of its low byte.
abbrev pub tvec_align : ℕ → ℕ
tvec_align val = if any val 1 then bit_and val (bit_not 64 255 + 1) else val

-- A translation mode that satp accepts: bare, Sv39 or Sv48.
abbrev pub satp_mode_ok : ℕ → Bool
satp_mode_ok mode = mode == 0 || (mode == 8 || mode == 9)

abbrev pub satp_mask : ℕ
satp_mask = 15 * 2 ^ 60 + (2 ^ 44 - 1)

unfoldable pub write_satp : Cpu → ℕ → Written
write_satp s val =
    if s.priv == prv_s && any s.mstatus mstatus_tvm
    then invalid
    else flushed (
        tlb_flush_all (
          if satp_mode_ok (bit_and (val / 2 ^ 60) 15)
          then record s { satp = bit_and val satp_mask }
          else s))

unfoldable pub write_supervisor : Cpu → ℕ → ℕ → Written
write_supervisor s csr val =
    if csr == 0x100
    then done (set_mstatus s (merge 64 s.mstatus sstatus_mask val))
    else if csr == 0x104
    then done (record s { mie = merge 64 s.mie s.mideleg val })
    else if csr == 0x105
    then done (record s { stvec = bit_and (tvec_align val) (bit_not 64 2) })
    else if csr == 0x106
    then done (record s { scounteren = val % 2 ^ 32 })
    else if csr == 0x140
    then done (record s { sscratch = val })
    else if csr == 0x141
    then done (record s { sepc = canonical_s49 (bit_and val (pc_mask s)) })
    else if csr == 0x142
    then done (record s { scause = bit_and val 0x8000_0000_0000_001f })
    else if csr == 0x143
    then done (record s { stval = canonical_s49 val })
    else if csr == 0x144
    then done (record s { mip = merge 64 s.mip s.mideleg val })
    else if csr == 0x180
    then write_satp s val
    else invalid

-- The exceptions that can be delegated, the interrupts that can be, and the writable bits of mie
-- and mip.
abbrev pub medeleg_mask : ℕ
medeleg_mask = 0xb109

abbrev pub mideleg_mask : ℕ
mideleg_mask = mip_ssip + mip_stip + mip_seip

abbrev pub mie_mask : ℕ
mie_mask = mip_mcip + mip_meip + mip_seip + mip_mtip + mip_stip + mip_msip + mip_ssip

unfoldable pub write_machine : Cpu → ℕ → ℕ → Written
write_machine s csr val =
    if csr == 0x300
    then done (set_mstatus s val)
    else if csr == 0x301
    then done s
    else if csr == 0x302
    then done (record s { medeleg = merge 64 s.medeleg medeleg_mask val })
    else if csr == 0x303
    then done (record s { mideleg = merge 64 s.mideleg mideleg_mask val })
    else if csr == 0x304
    then done (record s { mie = merge 64 s.mie mie_mask val })
    else if csr == 0x305
    then done (record s { mtvec = bit_and (tvec_align val) (2 ^ s.physical_addr_len - 3) })
    else if csr == 0x306
    then done (record s { mcounteren = val % 2 ^ 32 })
    else if csr == 0x320
    then done (record s { mcountinhibit = bit_and val (bit_not 64 2) % 2 ^ 32 })
    else if leb 0x323 csr && leb csr 0x33f
    then done (record s { mhpmevent = set s.mhpmevent (bit_and csr 0x1f) (bit_and val 0xffffff07) })
    else if csr == 0x340
    then done (record s { mscratch = val })
    else if csr == 0x341
    then done (record s { mepc = canonical_s49 (bit_and val (pc_mask s)) })
    else if csr == 0x342
    then done (record s { mcause = bit_and val 0x8000_0000_0000_00ff })
    else if csr == 0x343
    then done (record s { mtval = canonical_s49 val })
    else if csr == 0x344
    then done (record s { mip = merge 64 s.mip mideleg_mask val })
    else invalid

-- PMP_N: entries 8 to 15 are not implemented.
abbrev pub pmp_n : ℕ
pmp_n = 8

-- Byte `i` of a configuration register.
abbrev pub byte_of : ℕ → ℕ → ℕ
byte_of w i = bit_and (w / 2 ^ (i * 8)) 255

-- A locked entry keeps its byte, any other takes the new one; the reserved bits are cleared.
unfoldable pub legal_byte : ℕ → ℕ → ℕ → ℕ
legal_byte orig val i =
    let cfg = if any (byte_of orig i) pmpcfg_l then byte_of orig i else byte_of val i in
    bit_and cfg (bit_not 64 0x60)

-- The loop over the bytes from `i`, with `n` left.
unfoldable pub legal_bytes : ℕ → ℕ → ℕ → ℕ → ℕ → ℕ
legal_bytes orig val zero i new_val = new_val
legal_bytes orig val (suc n) i new_val =
    legal_bytes orig val n (suc i) (bit_or new_val (legal_byte orig val i * 2 ^ (i * 8)))

unfoldable pub write_pmpcfg : Cpu → ℕ → ℕ → Written
write_pmpcfg s c val =
    if leb pmp_n (c / 2 * 8)
    then done s
    else (let new_val = legal_bytes (get_or s.csr_pmpcfg c 0) val 8 0 0 in
        done (unpack_pmpaddrs (record s { csr_pmpcfg = set s.csr_pmpcfg c new_val })))

-- Entry `n` cannot be written if it is locked, or if the next one is a locked TOR entry.
unfoldable pub pmpaddr_locked : Cpu → ℕ → Bool
pmpaddr_locked s n =
    let cfg = get_or s.csr_pmpcfg (n / 8) 0 / 2 ^ (n * 8) in
    any cfg pmpcfg_l || (bit_and (cfg / 2 ^ 8) pmpcfg_a_mask == 8 && any (cfg / 2 ^ 8) pmpcfg_l)

unfoldable pub write_pmpaddr : Cpu → ℕ → ℕ → Written
write_pmpaddr s n val =
    if leb pmp_n n
    then done s
    else if pmpaddr_locked s n
    then done s
    else done (
        unpack_pmpaddrs (record s { csr_pmpaddr = set s.csr_pmpaddr n (bit_and val 0x3fffffffff) }))

unfoldable pub write_pmp : Cpu → ℕ → ℕ → Written
write_pmp s csr val =
    if csr == 0x3a0 || csr == 0x3a2
    then write_pmpcfg s (csr - 0x3a0) val
    else if leb 0x3b0 csr && leb csr 0x3bf
    then write_pmpaddr s (csr - 0x3b0) val
    else invalid

-- MCONTROL_DMODE: the trigger belongs to the debugger.
abbrev pub mcontrol_dmode : ℕ
mcontrol_dmode = 2 ^ 59

unfoldable pub trigger_writable : Cpu → Bool
trigger_writable s = not (any (get_or s.tdata1 s.tselect 0) mcontrol_dmode) || s.debug_mode

unfoldable pub write_tdata1 : Cpu → ℕ → Written
write_tdata1 s val =
    if trigger_writable s
    then (let mask = 0x20800000000011df + (if s.debug_mode then mcontrol_dmode else 0) in
        done (record s {
          tdata1 =
              set s.tdata1 s.tselect
                (merge 64 (get_or s.tdata1 s.tselect 0) mask (bit_or val 0x2080000000000000));
        }))
    else done s

-- `0x600 != 0` binds before `&`: the counters stop when bit 0 of dcsr is set.
unfoldable pub write_dcsr : Cpu → ℕ → Written
write_dcsr s val =
    if s.debug_mode
    then (let dcsr = merge 64 s.dcsr 0x603 val in
        done (record s { dcsr = dcsr; stop_the_counter = any dcsr 1 }))
    else invalid

unfoldable pub write_debug : Cpu → ℕ → ℕ → Written
write_debug s csr val =
    if csr == 0x7a0
    then done (record s { tselect = val % 1 })
    else if csr == 0x7a1
    then write_tdata1 s val
    else if csr == 0x7a2
    then (if trigger_writable s
        then done (record s { tdata2 = set s.tdata2 s.tselect val })
        else done s)
    else if csr == 0x7b0
    then write_dcsr s val
    else if csr == 0x7b1
    then (if s.debug_mode then done (record s { dpc = bit_and val (pc_mask s) }) else invalid)
    else if csr == 0x7b2
    then (if s.debug_mode then done (record s { dscratch = val }) else invalid)
    else invalid

unfoldable pub write_counter : Cpu → ℕ → ℕ → Written
write_counter s csr val =
    if csr == 0xb00
    then done (record s { mcycle = val })
    else if csr == 0xb02
    then done (record s { minstret = val })
    else if leb 0xb03 csr && leb csr 0xb1f
    then done s
    else invalid

-- The switch.
unfoldable pub write_switch : Cpu → ℕ → ℕ → Written
write_switch s csr val =
    if ltb csr 0x100
    then write_user s csr val
    else if ltb csr 0x300
    then write_supervisor s csr val
    else if ltb csr 0x3a0
    then write_machine s csr val
    else if ltb csr 0x7a0
    then write_pmp s csr val
    else if ltb csr 0xb00
    then write_debug s csr val
    else write_counter s csr val

unfoldable pub csr_write : (Cpu → ℕ → ℕ → Option Cpu) → Cpu → ℕ → ℕ → Written
csr_write hook s csr val = elim (hook s csr val) [ some t ↦ done t | none ↦ write_switch s csr val ]
