-- ===== src/Cpu/Csr/Locked.antt =====
-- Locked PMP entries under `csr_write`.
use native.Mathlib.Nat.{div-div-eq-div-mul, pow-suc}
use dromajo.Prelude.{
  ℕ, suc, ◌+◌, ◌-◌, ◌*◌, ◌/◌, ◌%◌, ◌^◌, ◌<◌, ◌⊎◌, ap, sym, ◌∙◌, ◌≡◌, true, false, bit_and, get_or,
  set, arith, get_or-set_ne, Bool-cases, inl, inr,
}
use dromajo.Cpu.State.{Cpu}
use dromajo.Cpu.Mstatus.{set_mstatus, tlb_flush_all}
use dromajo.Prelude.Digits.{and_digit}
use dromajo.Prelude.Bits.{test_bit, test_bit-mod, bit_and-low}
use dromajo.Cpu.Mstatus.{any}
use dromajo.Cpu.Trap.Status.{any-bit}
use dromajo.Cpu.Pmp.{unpack_pmpaddrs, cfg_byte, pmpcfg_l, pmpcfg_a_mask}
use dromajo.Cpu.Csr.Write.{
  write_switch, write_user, write_supervisor, write_satp, write_machine, write_pmp, write_pmpcfg,
  write_pmpaddr, pmpaddr_locked, write_debug, write_tdata1, write_dcsr, write_counter,
}
use dromajo.Cpu.Csr.Confined.{Ensures}

-- Address register `n` is as it was.
abbrev pub KeepsAddr : Cpu → ℕ → Cpu → Type 0
KeepsAddr s n t = get_or t.csr_pmpaddr n 0 ≡ get_or s.csr_pmpaddr n 0

user-KeepsAddr : (s : Cpu) (csr val n : ℕ) → Ensures (KeepsAddr s n) (write_user s csr val)
unfolding write_user
user-KeepsAddr s csr val n = ground arith

supervisor-KeepsAddr :
    (s : Cpu) (csr val n : ℕ) → Ensures (KeepsAddr s n) (write_supervisor s csr val)
unfolding write_supervisor write_satp set_mstatus tlb_flush_all
supervisor-KeepsAddr s csr val n = ground arith

machine-KeepsAddr : (s : Cpu) (csr val n : ℕ) → Ensures (KeepsAddr s n) (write_machine s csr val)
unfolding write_machine set_mstatus tlb_flush_all
machine-KeepsAddr s csr val n = ground arith

debug-KeepsAddr : (s : Cpu) (csr val n : ℕ) → Ensures (KeepsAddr s n) (write_debug s csr val)
unfolding write_debug write_tdata1 write_dcsr
debug-KeepsAddr s csr val n = ground arith

counter-KeepsAddr : (s : Cpu) (csr val n : ℕ) → Ensures (KeepsAddr s n) (write_counter s csr val)
unfolding write_counter
counter-KeepsAddr s csr val n = ground arith

set_unlocked :
    (s : Cpu) (m n v : ℕ)
    → pmpaddr_locked s n ≡ true
    → pmpaddr_locked s m ≡ false
    → get_or (set s.csr_pmpaddr m v) n 0 ≡ get_or s.csr_pmpaddr n 0
set_unlocked s m n v locked free = get_or-set_ne s.csr_pmpaddr m n v 0 (λ e. cc)

pmpaddr-KeepsAddr :
    (s : Cpu) (m val n : ℕ)
    → pmpaddr_locked s n ≡ true
    → Ensures (KeepsAddr s n) (write_pmpaddr s m val)
unfolding write_pmpaddr unpack_pmpaddrs tlb_flush_all
pmpaddr-KeepsAddr s m val n locked = elim (Bool-cases (pmpaddr_locked s m)) [
  | inl e ↦ ground arith
  | inr e ↦ ground (arith, set_unlocked s m n (bit_and val 0x3fffffffff) locked e)
]

pmp-KeepsAddr :
    (s : Cpu) (csr val n : ℕ)
    → pmpaddr_locked s n ≡ true
    → Ensures (KeepsAddr s n) (write_pmp s csr val)
unfolding write_pmp write_pmpcfg unpack_pmpaddrs tlb_flush_all
pmp-KeepsAddr s csr val n locked = ground (arith, pmpaddr-KeepsAddr s (csr - 0x3b0) val n locked)

-- Bit 7 of an entry's configuration byte is the lock; bits 3 and 4 are the mode, 1 for TOR.
abbrev pub IsLocked : Cpu → ℕ → Type 0
IsLocked s i = test_bit (cfg_byte s i) 7 ≡ true

abbrev pub IsTor : Cpu → ℕ → Type 0
IsTor s i = cfg_byte s i / 8 % 4 ≡ 1

-- Entry `n` is one of the first eight and locked, or the next one is, and is a TOR entry.
abbrev pub Guarded : Cpu → ℕ → Type 0
Guarded s n = ((n < 8) × IsLocked s n) ⊎ ((n < 7) × IsLocked s (n + 1) × IsTor s (n + 1))

-- The code looks for the lock and the mode in the rest of the register from the entry on.
own_lock : (s : Cpu) (n : ℕ) → n < 8 → IsLocked s n → pmpaddr_locked s n ≡ true
unfolding pmpaddr_locked cfg_byte
own_lock s n lt locked =
    let w = get_or s.csr_pmpcfg 0 0 / 2 ^ (n * 8) in
    let first : n / 8 ≡ 0 = omega arith in
    let bit : any w pmpcfg_l ≡ true = ground (arith, any-bit 7 w, test_bit-mod 8 w 7, locked, lt) in
    ground (arith, first, bit)

eight_more : (k : ℕ) → 2 ^ suc (suc (suc (suc (suc (suc (suc (suc k))))))) ≡ 2 ^ k * 2 ^ 8
eight_more k = omega (
  arith,
  pow-suc 2 k,
  pow-suc 2 (suc k),
  pow-suc 2 (suc (suc k)),
  pow-suc 2 (suc (suc (suc k))),
  pow-suc 2 (suc (suc (suc (suc k)))),
  pow-suc 2 (suc (suc (suc (suc (suc k))))),
  pow-suc 2 (suc (suc (suc (suc (suc (suc k)))))),
  pow-suc 2 (suc (suc (suc (suc (suc (suc (suc k))))))),
)

next_byte : (n : ℕ) → 2 ^ ((n + 1) * 8) ≡ 2 ^ (n * 8) * 2 ^ 8
next_byte n =
    let e : (n + 1) * 8 ≡ suc (suc (suc (suc (suc (suc (suc (suc (n * 8)))))))) = omega arith in
    ap (λ (k : ℕ). 2 ^ k) e ∙ eight_more (n * 8)

tor_mode : (y : ℕ) → y % 256 / 8 % 4 ≡ 1 → bit_and y pmpcfg_a_mask ≡ 8
tor_mode y h = omega (
  arith,
  h,
  and_digit y 24,
  and_digit (y / 2) 12,
  and_digit (y / 2 / 2) 6,
  bit_and-low 2 (y / 2 / 2 / 2),
)

next_lock :
    (s : Cpu) (n : ℕ) → n < 7 → IsLocked s (n + 1) → IsTor s (n + 1) → pmpaddr_locked s n ≡ true
unfolding pmpaddr_locked cfg_byte
next_lock s n lt locked tor =
    let w = get_or s.csr_pmpcfg 0 0 in
    let y = w / 2 ^ (n * 8) / 2 ^ 8 in
    let first : n / 8 ≡ 0 = omega arith in
    let same : w / 2 ^ ((n + 1) * 8) ≡ y =
      ap (λ (d : ℕ). w / d) (next_byte n) ∙ sym (div-div-eq-div-mul w (2 ^ (n * 8)) (2 ^ 8)) in
    let byte : cfg_byte s (n + 1) ≡ y % 256 = ground (arith, same) in
    let bit : any y pmpcfg_l ≡ true =
      ground (arith, any-bit 7 y, test_bit-mod 8 y 7, locked, byte) in
    let mode : bit_and y pmpcfg_a_mask ≡ 8 = tor_mode y (rw (sym byte) tor) in
    ground (arith, first, bit, mode)

Guarded-pmpaddr_locked : (s : Cpu) (n : ℕ) → Guarded s n → pmpaddr_locked s n ≡ true
Guarded-pmpaddr_locked s n (inl (lt, locked)) = own_lock s n lt locked
Guarded-pmpaddr_locked s n (inr (lt, locked, tor)) = next_lock s n lt locked tor

-- No write to any control and status register changes one of the first eight address registers if its
-- entry is locked, or one of the first seven if the next entry is a locked TOR entry.
pub write_switch-KeepsAddr :
    (s : Cpu) (csr val n : ℕ) → Guarded s n → Ensures (KeepsAddr s n) (write_switch s csr val)
unfolding write_switch
write_switch-KeepsAddr s csr val n held =
    let locked = Guarded-pmpaddr_locked s n held in
    ground (
      arith,
      user-KeepsAddr s csr val n,
      supervisor-KeepsAddr s csr val n,
      machine-KeepsAddr s csr val n,
      pmp-KeepsAddr s csr val n locked,
      debug-KeepsAddr s csr val n,
      counter-KeepsAddr s csr val n,
    )
