-- ===== src/Cpu/Constants.antt =====
-- Constants of include/riscv.h and include/riscv_cpu.h that the hart's operations use.
use dromajo.Prelude.{ℕ, ◌+◌, ◌-◌, ◌*◌, ◌^◌}

-- Privilege levels.
abbrev pub prv_u : ℕ
prv_u = 0

abbrev pub prv_s : ℕ
prv_s = 1

abbrev pub prv_m : ℕ
prv_m = 3

-- Fields of mstatus.
abbrev pub mstatus_sie : ℕ
mstatus_sie = 2 ^ 1

abbrev pub mstatus_mie : ℕ
mstatus_mie = 2 ^ 3

abbrev pub mstatus_spie : ℕ
mstatus_spie = 2 ^ 5

abbrev pub mstatus_mpie : ℕ
mstatus_mpie = 2 ^ 7

abbrev pub mstatus_spp : ℕ
mstatus_spp = 2 ^ 8

abbrev pub mstatus_vs : ℕ
mstatus_vs = 3 * 2 ^ 9

abbrev pub mstatus_mpp : ℕ
mstatus_mpp = 3 * 2 ^ 11

abbrev pub mstatus_fs : ℕ
mstatus_fs = 3 * 2 ^ 13

abbrev pub mstatus_xs : ℕ
mstatus_xs = 3 * 2 ^ 15

abbrev pub mstatus_mprv : ℕ
mstatus_mprv = 2 ^ 17

abbrev pub mstatus_sum : ℕ
mstatus_sum = 2 ^ 18

abbrev pub mstatus_mxr : ℕ
mstatus_mxr = 2 ^ 19

abbrev pub mstatus_tvm : ℕ
mstatus_tvm = 2 ^ 20

abbrev pub mstatus_uxl_mask : ℕ
mstatus_uxl_mask = 3 * 2 ^ 32

abbrev pub mstatus_sxl_mask : ℕ
mstatus_sxl_mask = 3 * 2 ^ 34

-- The or of disjoint fields, written as their sum: SIE, SPIE, SPP, VS, FS, SUM, MXR and UXL.
abbrev pub sstatus_mask : ℕ
sstatus_mask =
    mstatus_sie + mstatus_spie + mstatus_spp + mstatus_vs + mstatus_fs + mstatus_sum + mstatus_mxr
    + mstatus_uxl_mask

-- The same with MIE, MPIE, MPP, MPRV, TVM, TW, TSR and SXL.
abbrev pub mstatus_mask : ℕ
mstatus_mask =
    sstatus_mask
    + mstatus_mie
    + mstatus_mpie
    + mstatus_mpp
    + mstatus_mprv
    + mstatus_tvm
    + 2 ^ 21
    + 2 ^ 22
    + mstatus_sxl_mask

-- Bits of mip and mie.
abbrev pub mip_ssip : ℕ
mip_ssip = 2 ^ 1

abbrev pub mip_msip : ℕ
mip_msip = 2 ^ 3

abbrev pub mip_stip : ℕ
mip_stip = 2 ^ 5

abbrev pub mip_mtip : ℕ
mip_mtip = 2 ^ 7

abbrev pub mip_seip : ℕ
mip_seip = 2 ^ 9

abbrev pub mip_meip : ℕ
mip_meip = 2 ^ 11

abbrev pub mip_mcip : ℕ
mip_mcip = 2 ^ 18

-- The top bit of a trap's cause.
abbrev pub cause_interrupt : ℕ
cause_interrupt = 2 ^ 63

abbrev pub mcpuid_c : ℕ
mcpuid_c = 2 ^ 2

-- The tag of a TLB entry that is not in use: (target_ulong)-1.
abbrev pub no_page : ℕ
no_page = 2 ^ 64 - 1

abbrev pub word_mask : ℕ
word_mask = 2 ^ 64 - 1
