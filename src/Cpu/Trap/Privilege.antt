-- ===== src/Cpu/Trap/Privilege.antt =====
-- Where a trap goes and what it records; the TLB flush.
use mathlib.Core.Path.{subst}
use dromajo.Prelude.{
  ℕ, ◌+◌, ◌-◌, ◌*◌, ◌/◌, ◌%◌, ◌^◌, ◌≤◌, ◌<◌, ◌≡◌, ◌≢◌, refl, ap, sym, ◌∙◌, ◌⊎◌, inl, inr, true,
  false, ◌&&◌, leb, ◌==◌, if◌then◌else◌, arith, bit_and, Bool-cases,
}
use dromajo.Prelude.Bits.{
  test_bit, bit_not, bit_and-low, bit_and-high, test_bit_above, test_bit-shr,
}
use dromajo.Cpu.Trap.Status.{any-bit}
use dromajo.Cpu.Constants.{no_page, cause_interrupt}
use dromajo.Cpu.State.{Cpu}
use dromajo.Cpu.Mstatus.{any, set_priv, tlb_flush_all}
use dromajo.Cpu.Trap.{raise_exception2, is_delegated, canonical_s49, enter_m, enter_s, vector}

abbrev pub IsFlushed : Cpu → Type 0
IsFlushed t =
    (p : ℕ) → (t.tlb_read p ≡ no_page) × (t.tlb_write p ≡ no_page) × (t.tlb_code p ≡ no_page)

-- A trap that supervisor mode takes, with its handler at `handler`: its own registers record the trap
-- and machine mode's are kept.
pub record InSupervisor (s : Cpu) (cause tval handler : ℕ) (t : Cpu) : Type 0 where
  pub priv_is : t.priv ≡ 1
  pub from_below : s.priv ≤ 1
  pub pc_is : t.pc ≡ handler
  pub scause_is : t.scause ≡ cause
  pub sepc_is : t.sepc ≡ canonical_s49 s.pc
  pub stval_is : t.stval ≡ canonical_s49 tval
  pub mcause_is : t.mcause ≡ s.mcause
  pub mepc_is : t.mepc ≡ s.mepc
  pub mtval_is : t.mtval ≡ s.mtval

pub record InMachine (s : Cpu) (cause tval handler : ℕ) (t : Cpu) : Type 0 where
  pub priv_is : t.priv ≡ 3
  pub pc_is : t.pc ≡ handler
  pub mcause_is : t.mcause ≡ cause
  pub mepc_is : t.mepc ≡ canonical_s49 s.pc
  pub mtval_is : t.mtval ≡ canonical_s49 tval
  pub scause_is : t.scause ≡ s.scause
  pub sepc_is : t.sepc ≡ s.sepc
  pub stval_is : t.stval ≡ s.stval

-- Supervisor mode takes a trap from below machine mode whose bit is set in the delegation register,
-- and machine mode takes any other.
abbrev pub TakenBy : Cpu → (deleg num cause tval s_handler m_handler : ℕ) → Cpu → Type 0
TakenBy s deleg num cause tval s_handler m_handler t =
    ((s.priv < 2) × (test_bit deleg num ≡ true) × InSupervisor s cause tval s_handler t)
    ⊎ (((2 ≤ s.priv) ⊎ (test_bit deleg num ≡ false)) × InMachine s cause tval m_handler t)

-- The start of the table at a vector register, and the entry of an interrupt: in vectored mode, which
-- is 1, four bytes for each number.
abbrev pub table : ℕ → ℕ
table tvec = tvec / 4 * 4

abbrev pub entry : ℕ → ℕ → ℕ
entry tvec num = if tvec % 4 == 1 then (table tvec + 4 * num) % 2 ^ 64 else table tvec

base_of : (tvec : ℕ) → tvec < 2 ^ 64 → bit_and tvec (bit_not 64 3) ≡ table tvec
base_of tvec w = omega (arith, bit_and-high 64 2 tvec (omega arith) w)

-- What the code tells of an exception and of an interrupt.
plain : (num : ℕ) → num < 64 → any num cause_interrupt ≡ false
plain num lt = any-bit 63 num ∙ test_bit_above 6 num 63 (omega arith) (omega arith)

subst2 : (P : ℕ → ℕ → Type 0) {a b c d : ℕ} → a ≡ c → b ≡ d → P a b → P c d
subst2 P {a} {b} {c} {d} p q x = subst (λ (y : ℕ). P c y) q (subst (λ (y : ℕ). P y b) p x)

one_set : test_bit 1 0 ≡ true
unfolding test_bit
one_set = refl

test_bit_top : (num : ℕ) → num < 64 → test_bit (2 ^ 63 + num) 63 ≡ true
test_bit_top num lt =
    let e = test_bit-shr 63 (2 ^ 63 + num) 0 in
    let one : (2 ^ 63 + num) / 2 ^ 63 ≡ 1 = omega arith in
    sym e ∙ ap (λ (x : ℕ). test_bit x 0) one ∙ one_set

flagged : (num : ℕ) → num < 64 → any (2 ^ 63 + num) cause_interrupt ≡ true
flagged num lt = any-bit 63 (2 ^ 63 + num) ∙ test_bit_top num lt

vector_exception : (tvec num : ℕ) → tvec < 2 ^ 64 → num < 64 → vector tvec num ≡ table tvec
unfolding vector
vector_exception tvec num w lt = ground (arith, plain num lt, base_of tvec w)

vector_interrupt :
    (tvec num : ℕ) → tvec < 2 ^ 64 → num < 64 → vector tvec (2 ^ 63 + num) ≡ entry tvec num
unfolding vector
vector_interrupt tvec num w lt =
    let low : bit_and tvec 3 ≡ tvec % 4 = bit_and-low 2 tvec in
    let number : bit_and (2 ^ 63 + num) (2 ^ 63 - 1) ≡ num =
      bit_and-low 63 (2 ^ 63 + num) ∙ omega arith in
    ground (arith, flagged num lt, base_of tvec w, low, number)

taken :
    (s : Cpu) (deleg num cause tval : ℕ)
    → is_delegated s cause ≡ (leb s.priv 1 && test_bit deleg num)
    → TakenBy s deleg num cause tval
        (vector s.stvec cause)
        (vector s.mtvec cause)
        (raise_exception2 s cause tval)
unfolding raise_exception2 enter_m enter_s set_priv tlb_flush_all
taken s deleg num cause tval same = elim (Bool-cases (leb s.priv 1 && test_bit deleg num)) [
  | inl e ↦
      let d : is_delegated s cause ≡ true = same ∙ e in
      inl (
        ground arith,
        ground arith,
        record {
          priv_is = ground (arith, d);
          from_below = ground arith;
          pc_is = ground (arith, d);
          scause_is = ground (arith, d);
          sepc_is = ground (arith, d);
          stval_is = ground (arith, d);
          mcause_is = ground (arith, d);
          mepc_is = ground (arith, d);
          mtval_is = ground (arith, d);
        },
      )
  | inr e ↦
      let d : is_delegated s cause ≡ false = same ∙ e in
      inr (
        ground arith,
        record {
          priv_is = ground (arith, d);
          pc_is = ground (arith, d);
          mcause_is = ground (arith, d);
          mepc_is = ground (arith, d);
          mtval_is = ground (arith, d);
          scause_is = ground (arith, d);
          sepc_is = ground (arith, d);
          stval_is = ground (arith, d);
        },
      )
]

exception_delegated :
    (s : Cpu) (num : ℕ) → num < 64 → is_delegated s num ≡ (leb s.priv 1 && test_bit s.medeleg num)
unfolding is_delegated
exception_delegated s num lt = ground (arith, plain num lt)

interrupt_delegated :
    (s : Cpu) (num : ℕ)
    → num < 64
    → is_delegated s (2 ^ 63 + num) ≡ (leb s.priv 1 && test_bit s.mideleg num)
unfolding is_delegated
interrupt_delegated s num lt =
    let low : bit_and (2 ^ 63 + num) 63 ≡ num = bit_and-low 6 (2 ^ 63 + num) ∙ omega arith in
    ground (arith, flagged num lt, low)

-- Supervisor mode takes a trap from below machine mode if its number is set in medeleg, for an
-- exception, or in mideleg, for an interrupt; machine mode takes any other. That mode's registers record
-- the cause, the pc and the value, the other mode's are kept, and the pc is the start of that mode's
-- table, or for an interrupt in vectored mode the entry of its number. Numbers are below 64, and the
-- vector registers are 64-bit words.
pub raise_exception2-TakenBy :
    (s : Cpu) (num tval : ℕ)
    → num < 64
    → s.stvec < 2 ^ 64
    → s.mtvec < 2 ^ 64
    → TakenBy s s.medeleg num num tval (table s.stvec) (table s.mtvec) (raise_exception2 s num tval)
      × TakenBy s s.mideleg num
          (2 ^ 63 + num)
          tval
          (entry s.stvec num)
          (entry s.mtvec num)
          (raise_exception2 s (2 ^ 63 + num) tval)
raise_exception2-TakenBy s num tval lt sw mw = (
  subst2 (λ (a b : ℕ). TakenBy s s.medeleg num num tval a b (raise_exception2 s num tval))
      (vector_exception s.stvec num sw lt) (vector_exception s.mtvec num mw lt)
      (taken s s.medeleg num num tval (exception_delegated s num lt)),
  subst2
      (λ (a b : ℕ).
        TakenBy s s.mideleg num (2 ^ 63 + num) tval a b (raise_exception2 s (2 ^ 63 + num) tval))
      (vector_interrupt s.stvec num sw lt) (vector_interrupt s.mtvec num mw lt)
      (taken s s.mideleg num (2 ^ 63 + num) tval (interrupt_delegated s num lt)),
)

flush-IsFlushed : (s : Cpu) → IsFlushed (tlb_flush_all s)
unfolding tlb_flush_all
flush-IsFlushed s p = (refl, refl, refl)

set_priv_flushes : (s : Cpu) (priv : ℕ) → s.priv ≢ priv → IsFlushed (set_priv s priv)
unfolding set_priv tlb_flush_all
set_priv_flushes s priv ne p = ground arith
