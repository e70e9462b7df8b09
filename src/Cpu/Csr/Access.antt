-- ===== src/Cpu/Csr/Access.antt =====
-- Who can read a register.
use dromajo.Prelude.{
  ℕ, ◌/◌, ◌^◌, ◌≤◌, ◌<◌, ◌≡◌, ◌≢◌, ◌⊎◌, inl, inr, Bool, true, false, Option, none, some, arith,
  bit_and,
}
use dromajo.Cpu.Constants.{mstatus_tvm, prv_s}
use dromajo.Cpu.State.{Cpu}
use dromajo.Cpu.Mstatus.{any}
use dromajo.Cpu.Csr.Read.{
  csr_read, read_switch, read_user, read_supervisor, read_debug, read_counter, read_info,
  counter_access_ok,
}

-- The conditions under which a register may be read: its number's privilege field is at most the
-- hart's privilege; a read-only register is not about to be written; satp is open to S only without
-- TVM; the debug registers want debug mode, floating-point and vector state FS and VS, and the
-- counters their enable bit.
pub record Readable (s : Cpu) (csr : ℕ) (will_write : Bool) : Type 0 where
  pub privileged : bit_and (csr / 2 ^ 8) 3 ≤ s.priv
  pub writable : bit_and csr 0xc00 ≡ 0xc00 → will_write ≡ false
  pub satp_open : csr ≡ 0x180 → s.priv ≡ prv_s → any s.mstatus mstatus_tvm ≡ false
  pub debug : 0x7b0 ≤ csr → csr ≤ 0x7b2 → s.debug_mode ≡ true
  pub floating : csr ≤ 3 → s.fs ≢ 0
  pub vector : (csr ≡ 0x008) ⊎ (csr ≡ 0xc20) → s.vs ≢ 0
  pub counter : 0xb00 ≤ csr → csr < 0xc20 → counter_access_ok s csr ≡ true

past_guards :
    (hook : Cpu → ℕ → Option ℕ) (s : Cpu) (csr v : ℕ) (will_write : Bool)
    → hook s csr ≡ none
    → csr_read hook s csr will_write ≡ some v
    → (bit_and (csr / 2 ^ 8) 3 ≤ s.priv)
      × (bit_and csr 0xc00 ≡ 0xc00 → will_write ≡ false)
      × (read_switch s csr ≡ some v)
unfolding csr_read
past_guards hook s csr v will_write none_there h = ground arith

counter_read :
    (s : Cpu) (csr v : ℕ)
    → read_switch s csr ≡ some v
    → 0xb00 ≤ csr
    → csr < 0xc20
    → counter_access_ok s csr ≡ true
unfolding read_switch read_counter
counter_read s csr v h lo hi = ground arith

debug_read :
    (s : Cpu) (csr v : ℕ)
    → read_switch s csr ≡ some v
    → 0x7b0 ≤ csr
    → csr ≤ 0x7b2
    → s.debug_mode ≡ true
unfolding read_switch read_debug
debug_read s csr v h lo hi = ground arith

satp_read :
    (s : Cpu) (csr v : ℕ)
    → read_switch s csr ≡ some v
    → csr ≡ 0x180
    → s.priv ≡ prv_s
    → any s.mstatus mstatus_tvm ≡ false
unfolding read_switch read_supervisor
satp_read s csr v h e p = ground arith

user_read : (s : Cpu) (csr v : ℕ) → read_switch s csr ≡ some v → csr ≤ 3 → s.fs ≢ 0
unfolding read_switch read_user
user_read s csr v h lt = ground arith

vector_read :
    (s : Cpu) (csr v : ℕ) → read_switch s csr ≡ some v → (csr ≡ 0x008) ⊎ (csr ≡ 0xc20) → s.vs ≢ 0
unfolding read_switch read_user read_info
vector_read s csr v h (inl e) = ground arith
vector_read s csr v h (inr e) = ground arith

-- A read that the machine's hook leaves to the switch and that succeeds was `Readable`.
pub csr_read-Readable :
    (hook : Cpu → ℕ → Option ℕ) (s : Cpu) (csr v : ℕ) (will_write : Bool)
    → hook s csr ≡ none
    → csr_read hook s csr will_write ≡ some v
    → Readable s csr will_write
csr_read-Readable hook s csr v will_write none_there h =
    let g = past_guards hook s csr v will_write none_there h in
    record {
      privileged = g.0;
      writable = g.1;
      satp_open = satp_read s csr v g.2;
      debug = debug_read s csr v g.2;
      floating = user_read s csr v g.2;
      vector = vector_read s csr v g.2;
      counter = counter_read s csr v g.2;
    }
