-- ===== src/Devices/Clint/Timer.antt =====
-- The CLINT's timer compare registers and software interrupts.
use dromajo.Prelude.{
  ℕ, ◌+◌, ◌-◌, ◌*◌, ◌/◌, ◌^◌, ◌<◌, ◌≡◌, ap, ◌∙◌, List, Bool, true, false, Option, some, ◌==◌,
  if◌then◌else◌, of_bool, get_elem?, set, bit_and, arith, get_elem?-set_self, set-set, ◌>>=◌,
}
use dromajo.Prelude.Bits.{
  test_bit, bit_not, test_bit-or, test_bit-one, reset_bit, bit_and-low, bit_or-disjoint,
  bit_or_comm, bit_or-zero_left,
}
use dromajo.Prelude.Digits.{bit_and-zero}
use dromajo.Cpu.Constants.{mip_msip, mip_mtip}
use dromajo.Cpu.State.{Cpu}
use dromajo.Cpu.Trap.Status.{any-bit}
use dromajo.Cpu.Interrupt.{riscv_cpu_set_mip, riscv_cpu_reset_mip}
use dromajo.Devices.{RiscvMachine}
use dromajo.Devices.Clint.{
  sized, read_hart, clint_value, clint_read, update_hart, write_msip, write_timecmp_high,
  write_timecmp_low, clint_store, clint_write,
}

-- The offsets of a hart's registers.
abbrev pub timecmp_low : ℕ → ℕ
timecmp_low h = 0x4000 + 8 * h

abbrev pub timecmp_high : ℕ → ℕ
timecmp_high h = 0x4004 + 8 * h

sized_word : (v : ℕ) → v < 2 ^ 32 → sized 2 v ≡ v
unfolding sized
sized_word v lt = omega (arith, bit_and-low 32 v)

low_bit : (h : ℕ) → test_bit (timecmp_low h) 2 ≡ false
unfolding test_bit
low_bit h = ground arith

high_bit : (h : ℕ) → test_bit (timecmp_high h) 2 ≡ true
unfolding test_bit
high_bit h = ground arith

store_low :
    (g c : Bool) (m : RiscvMachine) (h v : ℕ)
    → timecmp_low h < 0xbff8
    → v < 2 ^ 32
    → clint_write g c m (timecmp_low h) v 2 ≡ some (update_hart m h (write_timecmp_low v))
unfolding clint_write clint_store
store_low g c m h v lt w =
    let e : (timecmp_low h - 0x4000) / 8 ≡ h = omega arith in
    ground (arith, low_bit h, sized_word v w, e)

store_high :
    (g c : Bool) (m : RiscvMachine) (h v : ℕ)
    → timecmp_low h < 0xbff8
    → v < 2 ^ 32
    → clint_write g c m (timecmp_high h) v 2 ≡ some (update_hart m h (write_timecmp_high v))
unfolding clint_write clint_store
store_high g c m h v lt w =
    let e : (timecmp_high h - 0x4000) / 8 ≡ h = omega arith in
    ground (arith, high_bit h, sized_word v w, e)

update_hart-some :
    (m : RiscvMachine) (h : ℕ) (s : Cpu) (f : Cpu → Cpu)
    → get_elem? m.cpus h ≡ some s
    → update_hart m h f ≡ record m { cpus = set m.cpus h (f s) }
unfolding update_hart
update_hart-some m h s f e = ground arith

-- Two changes to a hart are one.
update_hart_twice :
    (m : RiscvMachine) (h : ℕ) (s : Cpu) (f f' : Cpu → Cpu)
    → get_elem? m.cpus h ≡ some s
    → update_hart (update_hart m h f) h f' ≡ record m { cpus = set m.cpus h (f' (f s)) }
update_hart_twice m h s f f' e =
    ap (λ (n : RiscvMachine). update_hart n h f') (update_hart-some m h s f e)
    ∙ update_hart-some (record m { cpus = set m.cpus h (f s) }) h (f s) f'
        (get_elem?-set_self m.cpus h (f s) s e)
    ∙ ap (λ (xs : List Cpu). record m { cpus = xs }) (set-set m.cpus h (f s) (f' (f s)))

-- A hart whose timer compares with `time`, with no timer interrupt and nothing else changed in mip.
pub record TimerSet (s : Cpu) (time : ℕ) (t : Cpu) : Type 0 where
  pub compares : t.timecmp ≡ time
  pub mip_bits : (i : ℕ) → i < 32 → test_bit t.mip i ≡ (if i == 7 then false else test_bit s.mip i)

timer_low : (s : Cpu) (v : ℕ) → TimerSet s v (write_timecmp_low v s)
unfolding write_timecmp_low riscv_cpu_reset_mip
timer_low s v = record {
  compares = ground (arith, bit_and-zero s.timecmp, bit_or-zero_left v);
  mip_bits = λ i lt. reset_bit s.mip 7 i (omega arith) lt;
}

timer_pair :
    (s : Cpu) (lo hi : ℕ)
    → lo < 2 ^ 32
    → TimerSet s (hi * 2 ^ 32 + lo) (write_timecmp_high hi (write_timecmp_low lo s))
unfolding write_timecmp_low write_timecmp_high riscv_cpu_reset_mip
timer_pair s lo hi w = record {
  compares = ground (
    arith,
    bit_and-zero s.timecmp,
    bit_or-zero_left lo,
    bit_and-low 32 lo,
    bit_or_comm lo (hi * 2 ^ 32),
    bit_or-disjoint 32 hi lo w,
  );
  mip_bits = λ i lt. ground (
    arith,
    reset_bit (bit_and s.mip (bit_not 32 mip_mtip)) 7 i (omega arith) lt,
    reset_bit s.mip 7 i (omega arith) lt,
  );
}

-- Writing the low and then the high word of a hart's mtimecmp makes its timer compare with the whole
-- value, clears its timer interrupt, and changes no other bit of mip, no other hart and nothing
-- else of the machine. The hart exists, and its register lies below mtime.
pub clint_write-TimerSet :
    (g c : Bool) (m : RiscvMachine) (h lo hi : ℕ) (s : Cpu)
    → get_elem? m.cpus h ≡ some s
    → timecmp_low h < 0xbff8
    → lo < 2 ^ 32
    → hi < 2 ^ 32
    → (t : Cpu) × (((do
      n ← clint_write g c m (timecmp_low h) lo 2
      clint_write g c n (timecmp_high h) hi 2)
          ≡ some record m { cpus = set m.cpus h t })
        × TimerSet s (hi * 2 ^ 32 + lo) t)
clint_write-TimerSet g c m h lo hi s e lt p q = (
  write_timecmp_high hi (write_timecmp_low lo s),
  (
    ap (λ (o : Option RiscvMachine). o >>= (λ n. clint_write g c n (timecmp_high h) hi 2))
          (store_low g c m h lo lt p)
        ∙ store_high g c (update_hart m h (write_timecmp_low lo)) h hi lt q
        ∙ ap some (update_hart_twice m h s (write_timecmp_low lo) (write_timecmp_high hi) e),
    timer_pair s lo hi p,
  ),
)

-- Writing the low word alone forgets the high word: whatever the timer compared with, it then
-- compares with the value written. A pair of writes in the other order keeps only the low word.
pub clint_write_low :
    (g c : Bool) (m : RiscvMachine) (h lo : ℕ) (s : Cpu)
    → get_elem? m.cpus h ≡ some s
    → timecmp_low h < 0xbff8
    → lo < 2 ^ 32
    → (t : Cpu) × ((clint_write g c m (timecmp_low h) lo 2
          ≡ some record m { cpus = set m.cpus h t })
        × TimerSet s lo t)
clint_write_low g c m h lo s e lt p = (
  write_timecmp_low lo s,
  (
    store_low g c m h lo lt p ∙ ap some (update_hart-some m h s (write_timecmp_low lo) e),
    timer_low s lo,
  ),
)

msip_bit : (g c : Bool) (s : Cpu) (v : ℕ) → test_bit (write_msip g c v s).mip 3 ≡ test_bit v 0
unfolding write_msip riscv_cpu_set_mip riscv_cpu_reset_mip
msip_bit g c s v = ground (
  arith,
  test_bit-or s.mip mip_msip 3,
  test_bit-one 3 3,
  reset_bit s.mip 3 3 (omega arith) (omega arith),
)

-- A hart's software interrupt register reads back the low bit of the word last written to it; the
-- hart exists.
pub clint_read-clint_write :
    (g c : Bool) (m : RiscvMachine) (h v : ℕ) (s : Cpu)
    → get_elem? m.cpus h ≡ some s
    → h < 0x1000
    → v < 2 ^ 32
    → (clint_write g c m (4 * h) v 2 >>= (λ n. clint_read n (4 * h) 2))
      ≡ some (of_bool (test_bit v 0))
unfolding clint_write clint_store clint_read clint_value read_hart sized
clint_read-clint_write g c m h v s e lt p =
    let place : 4 * h / 4 ≡ h = omega arith in
    ground (
      arith,
      place,
      sized_word v p,
      update_hart-some m h s (write_msip g c v) e,
      get_elem?-set_self m.cpus h (write_msip g c v s) s e,
      msip_bit g c s v,
      any-bit 3 (write_msip g c v s).mip,
    )
