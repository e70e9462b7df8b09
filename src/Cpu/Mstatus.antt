-- ===== src/Cpu/Mstatus.antt =====
-- mstatus: `get_mstatus` and `set_mstatus`, the TLB flush and `set_priv` of src/riscv_cpu.cpp.
use dromajo.Prelude.{
  ℕ, ◌+◌, ◌-◌, ◌*◌, ◌/◌, ◌^◌, ◌||◌, ◌&&◌, Bool, not, bit_and, bit_or, bit_xor, ◌==◌, if◌then◌else◌,
}
use dromajo.Prelude.Bits.{merge}
use dromajo.Cpu.Constants.{
  mstatus_vs, mstatus_fs, mstatus_xs, mstatus_mprv, mstatus_sum, mstatus_mxr, mstatus_mpp,
  mstatus_mask, mstatus_uxl_mask, mstatus_sxl_mask, no_page,
}
use dromajo.Cpu.State.{Cpu}

unfoldable pub tlb_flush_all : Cpu → Cpu
tlb_flush_all s = record s {
  tlb_read = λ _. no_page;
  tlb_write = λ _. no_page;
  tlb_code = λ _. no_page;
}

-- A C condition on a word: some bit of the mask is set.
abbrev pub any : ℕ → ℕ → Bool
any x mask = not (bit_and x mask == 0)

unfoldable pub get_mstatus : Cpu → ℕ → ℕ
get_mstatus s mask =
    let val = bit_and (bit_or (bit_or s.mstatus (s.fs * 2 ^ 13)) (s.vs * 2 ^ 9)) mask in
    if bit_and val mstatus_vs == mstatus_vs
      || bit_and val mstatus_fs == mstatus_fs
      || bit_and val mstatus_xs == mstatus_xs
    then bit_or val (2 ^ 63)
    else val

-- The fields of mstatus that a write to it may change in `s->mstatus` itself.
abbrev pub mstatus_write_mask : ℕ
mstatus_write_mask = mstatus_mask - mstatus_fs - mstatus_vs - mstatus_uxl_mask - mstatus_sxl_mask

unfoldable pub changes_translation : Cpu → ℕ → Bool
changes_translation s changed =
    any changed (mstatus_mprv + mstatus_sum + mstatus_mxr)
    || (any s.mstatus mstatus_mprv && any changed mstatus_mpp)

unfoldable pub set_mstatus : Cpu → ℕ → Cpu
set_mstatus s val =
    let flushed = if changes_translation s (bit_xor s.mstatus val) then tlb_flush_all s else s in
    record flushed {
      fs = bit_and (val / 2 ^ 13) 3;
      vs = bit_and (val / 2 ^ 9) 3;
      mstatus = merge 64 s.mstatus mstatus_write_mask val;
    }

unfoldable pub set_priv : Cpu → ℕ → Cpu
set_priv s priv =
    if s.priv == priv then s else (let f = tlb_flush_all s in record f { priv = priv })
