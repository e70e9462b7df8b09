-- ===== src/Examples/Registers.antt =====
-- The control and status registers on concrete harts.
use dromajo.Prelude.{refl, arith, inr, [], ◌∷◌, replicate}
use dromajo.Cpu.State.{Cpu}
use dromajo.Cpu.Csr.Write.{write_switch}
use dromajo.Cpu.Pmp.{cfg_byte}
use dromajo.Prelude.Bits.{test_bit}
use dromajo.Cpu.Csr.Confined.{Ensures, Confined, write_switch-Confined}
use dromajo.Cpu.Csr.Locked.{KeepsAddr, Guarded, write_switch-KeepsAddr}
use dromajo.Examples.{hart, user_hart}

write_switch-Confined_example : Ensures (Confined user_hart) (write_switch user_hart 0x100 0xa_0002)
write_switch-Confined_example =
    write_switch-Confined user_hart 0x100 0xa_0002 (omega arith) (omega arith)

-- Entry 1 is a locked TOR entry.
abbrev locked_hart : Cpu
locked_hart = record hart {
  csr_pmpcfg = 0x8f00 ∷ 0 ∷ 0 ∷ 0 ∷ [];
  csr_pmpaddr = 0x400 ∷ replicate 15 0;
}

locked_hart-Guarded : Guarded locked_hart 0
unfolding cfg_byte test_bit
locked_hart-Guarded = inr (omega arith, refl, refl)

write_switch-KeepsAddr_example :
    Ensures (KeepsAddr locked_hart 0) (write_switch locked_hart 0x3b0 0x999)
write_switch-KeepsAddr_example =
    write_switch-KeepsAddr locked_hart 0x3b0 0x999 0 locked_hart-Guarded
