-- ===== src/Cpu/Csr/Debug.antt =====
-- The debug control register.
use dromajo.Prelude.{ℕ, ◌≡◌, refl, true, arith}
use dromajo.Prelude.Bits.{test_bit, merge, test_bit-merge}
use dromajo.Cpu.State.{Cpu}
use dromajo.Cpu.Mstatus.{any}
use dromajo.Cpu.Trap.Status.{any-bit}
use dromajo.Cpu.Csr.Write.{done, write_dcsr}

low_bit : test_bit 0x603 0 ≡ true
unfolding test_bit
low_bit = refl

-- In debug mode the counters are stopped exactly when bit 0 of the value written, the low bit of
-- the privilege to return to, is set; the bits stopcount and stoptime (9 and 10) have no say.
pub write_dcsr_stop :
    (s : Cpu) (val : ℕ)
    → s.debug_mode ≡ true
    → (t : Cpu) × (write_dcsr s val ≡ done t) × (t.stop_the_counter ≡ test_bit val 0)
unfolding write_dcsr
write_dcsr_stop s val debug = (
  record s {
    dcsr = merge 64 s.dcsr 0x603 val;
    stop_the_counter = any (merge 64 s.dcsr 0x603 val) 1;
  },
  ground arith,
  ground (
    arith,
    any-bit 0 (merge 64 s.dcsr 0x603 val),
    test_bit-merge 64 s.dcsr 0x603 val 0 (omega arith) (omega arith),
    low_bit,
  ),
)
