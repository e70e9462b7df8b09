-- ===== src/Cpu/Pmp.antt =====
-- Physical memory protection: `riscv_cpu_pmp_access_ok` and `unpack_pmpaddrs` of
-- src/riscv_cpu.cpp. The entries 0 .. pmp_n-1 of `pmp` and `pmpcfg` are one list, in that order.
pub mod Access
pub mod Napot
use dromajo.Prelude.{
  ℕ, zero, suc, ◌+◌, ◌-◌, ◌*◌, ◌/◌, ◌%◌, ◌^◌, ◌&&◌, ◌||◌, Bool, true, false, not, List, [], ◌∷◌,
  ◌==◌, ltb, leb, if◌then◌else◌, get_or, bit_and, bit_or,
}
use dromajo.Prelude.Bits.{test_bit, bit_not}
use dromajo.Cpu.Constants.{mstatus_mprv, prv_m}
use dromajo.Cpu.State.{Cpu, PmpEntry}
use dromajo.Cpu.Mstatus.{any, tlb_flush_all}

abbrev pub pmpcfg_x : ℕ
pmpcfg_x = 4

abbrev pub pmpcfg_l : ℕ
pmpcfg_l = 0x80

abbrev pub pmpcfg_a_mask : ℕ
pmpcfg_a_mask = 0x18

-- The privilege of a load or store: MPP under MPRV.
unfoldable pub data_priv : Cpu → ℕ
data_priv s = if any s.mstatus mstatus_mprv then bit_and (s.mstatus / 2 ^ 11) 3 else s.priv

-- [lo; hi) meets [paddr; paddr + size).
unfoldable pub overlaps : PmpEntry → ℕ → ℕ → Bool
overlaps e paddr size = leb e.lo ((paddr + size + 2 ^ 64 - 1) % 2 ^ 64) && ltb paddr e.hi

-- What one entry says of an access at a privilege.
unfoldable pub entry_permits : PmpEntry → ℕ → ℕ → Bool
entry_permits e priv perm =
    if ltb priv prv_m || any e.cfg pmpcfg_l then bit_and perm e.cfg == perm else true

-- The loop over the entries: the first that overlaps decides.
unfoldable pub scan_pmp : List PmpEntry → ℕ → ℕ → ℕ → ℕ → Bool
scan_pmp [] priv paddr size perm = priv == prv_m
scan_pmp (e ∷ es) priv paddr size perm =
    if overlaps e paddr size then entry_permits e priv perm else scan_pmp es priv paddr size perm

unfoldable pub riscv_cpu_pmp_access_ok : Cpu → ℕ → ℕ → ℕ → Bool
riscv_cpu_pmp_access_ok s paddr size perm =
    if paddr / 2 ^ s.physical_addr_len == 0
    then scan_pmp s.pmp (if any perm pmpcfg_x then s.priv else data_priv s) paddr size perm
    else false

-- The loop that counts trailing ones, with `n` bits left to look at.
unfoldable pub trailing_ones : ℕ → ℕ → ℕ
trailing_ones zero a = 0
trailing_ones (suc n) a = elim (test_bit a 0) [ true ↦ suc (trailing_ones n (a / 2)) | false ↦ 0 ]

-- A naturally aligned power of two: 8 bytes for no trailing one, twice that for each.
unfoldable pub napot : ℕ → ℕ → PmpEntry
napot cfg a =
    let j = trailing_ones 64 a + 3 in
    if leb 64 j
    then record { lo = 0; hi = 2 ^ 64 - 1; cfg = cfg }
    else (let lo = bit_and (a * 4 % 2 ^ 64) (bit_not 64 (2 ^ j - 1)) in
        let hi = (lo + 2 ^ j) % 2 ^ 64 in
        record { lo = lo; hi = if leb hi lo then 2 ^ 64 - 1 else hi; cfg = cfg })

-- The configuration byte of entry `i`: eight in each of pmpcfg0 and pmpcfg2.
unfoldable pub cfg_byte : Cpu → ℕ → ℕ
cfg_byte s i =
    if ltb i 8
    then get_or s.csr_pmpcfg 0 0 / 2 ^ (i * 8) % 256
    else get_or s.csr_pmpcfg 2 0 / 2 ^ ((i - 8) * 8) % 256

-- The region that entry `i` adds, if its address mode is on: off, TOR, NA4 and NAPOT.
unfoldable pub unpack_entry : Cpu → ℕ → ℕ → List PmpEntry → List PmpEntry
unpack_entry s i cfg rest =
    let a = get_or s.csr_pmpaddr i 0 in
    let mode = bit_and cfg pmpcfg_a_mask in
    if mode == 8
    then record {
      lo = if i == 0 then 0 else get_or s.csr_pmpaddr (i - 1) 0 * 4 % 2 ^ 64;
      hi = a * 4 % 2 ^ 64;
      cfg = cfg;
    }
      ∷ rest
    else if mode == 0x10
    then record { lo = a * 4 % 2 ^ 64; hi = (a * 4 % 2 ^ 64 + 4) % 2 ^ 64; cfg = cfg } ∷ rest
    else if mode == 0x18
    then napot cfg a ∷ rest
    else rest

-- The loop from entry `i`, with `n` entries left.
unfoldable pub unpack_from : Cpu → ℕ → ℕ → List PmpEntry
unpack_from s zero i = []
unpack_from s (suc n) i = unpack_entry s i (cfg_byte s i) (unpack_from s n (suc i))

unfoldable pub unpack_pmpaddrs : Cpu → Cpu
unpack_pmpaddrs s = tlb_flush_all (record s { pmp = unpack_from s 16 0 })
