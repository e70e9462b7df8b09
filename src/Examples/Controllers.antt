-- ===== src/Examples/Controllers.antt =====
-- The interrupt controllers on a machine of one hart.
use dromajo.Prelude.{
  ℕ, ◌+◌, ◌*◌, ◌^◌, ◌≡◌, ◌≢◌, refl, arith, true, false, some, [], ◌∷◌, set, get_elem?, ◌>>=◌,
}
use dromajo.Cpu.State.{Cpu}
use dromajo.Devices.{RiscvMachine}
use dromajo.Devices.Clint.{clint_write}
use dromajo.Devices.Clint.Timer.{timecmp_low, timecmp_high, TimerSet, clint_write-TimerSet}
use dromajo.Devices.Plic.{plic_mask, plic_read, plic_set_irq}
use dromajo.Devices.Plic.Sync.{Driven, plic_set_irq-Driven}
use dromajo.Devices.Plic.Claim.{claim_offset, Claimed, plic_read-Claimed}
use dromajo.Examples.{hart, machine}

abbrev enabled_hart : Cpu
enabled_hart = record hart { plic_enable_irq = 0x20 ∷ 0 ∷ [] }

clint_write-TimerSet_example :
    (t : Cpu) × (((do
      n ← clint_write false false machine (timecmp_low 0) 7 2
      clint_write false false n (timecmp_high 0) 1 2)
        ≡ some record machine { cpus = set machine.cpus 0 t })
      × TimerSet enabled_hart (1 * 2 ^ 32 + 7) t)
clint_write-TimerSet_example =
    clint_write-TimerSet false false machine 0 7 1 enabled_hart refl (omega arith) (omega arith)
      (omega arith)

plic_set_irq-Driven_example :
    let n = plic_set_irq false false machine 5 true in
    (t : Cpu) × ((get_elem? n.cpus 0 ≡ some t) × Driven (plic_mask n) enabled_hart t)
plic_set_irq-Driven_example = plic_set_irq-Driven false false machine 5 true 0 enabled_hart refl

waiting : plic_mask machine ≡ 0x60
unfolding plic_mask
waiting = refl

some_waiting : plic_mask machine ≢ 0
some_waiting h = ground (arith, waiting)

plic_read-Claimed_example :
    (t : RiscvMachine) × (i : ℕ) × ((plic_read false false machine (claim_offset 0) 2 ≡ some (t, i))
      × Claimed machine 0 enabled_hart i t)
plic_read-Claimed_example =
    plic_read-Claimed false false machine 0 enabled_hart (omega arith) refl some_waiting
