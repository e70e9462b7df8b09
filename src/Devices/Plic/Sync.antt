-- ===== src/Devices/Plic/Sync.antt =====
-- The external interrupt bits of mip against the state of the PLIC.
use dromajo.Prelude.{
  ℕ, zero, suc, ◌<◌, ◌≡◌, ◌≢◌, ◌∙◌, Bool, some, List, [], ◌∷◌, map, ◌==◌, if◌then◌else◌, get_elem?,
  get_or, arith,
}
use dromajo.Prelude.Bits.{test_bit, reset_bit, test_bit-or, test_bit-one}
use dromajo.Cpu.Constants.{mip_seip, mip_meip}
use dromajo.Cpu.State.{Cpu}
use dromajo.Cpu.Mstatus.{any}
use dromajo.Cpu.Interrupt.{riscv_cpu_set_mip, riscv_cpu_reset_mip}
use dromajo.Devices.{RiscvMachine}
use dromajo.Devices.Plic.{plic_mask, update_context, update_cpu, plic_set_irq}

-- Hart `t` is hart `s` after the PLIC has driven its external interrupts from the waiting sources
-- `mask`: SEIP is set when one of them is enabled for context 0, MEIP when one is for context 1, and
-- the other bits of mip are as they were.
pub record Driven (mask : ℕ) (s t : Cpu) : Type 0 where
  pub enables_same : t.plic_enable_irq ≡ s.plic_enable_irq
  pub seip : test_bit t.mip 9 ≡ any mask (get_or s.plic_enable_irq 0 0)
  pub meip : test_bit t.mip 11 ≡ any mask (get_or s.plic_enable_irq 1 0)
  pub others : (i : ℕ) → i < 32 → i ≢ 9 → i ≢ 11 → test_bit t.mip i ≡ test_bit s.mip i

seip_bit :
    (g c : Bool) (mask : ℕ) (s : Cpu) (i : ℕ)
    → i < 32
    → test_bit (update_context g c mask s 0).mip i
      ≡ (if i == 9 then any mask (get_or s.plic_enable_irq 0 0) else test_bit s.mip i)
unfolding update_context riscv_cpu_set_mip riscv_cpu_reset_mip
seip_bit g c mask s i lt =
    ground
      (arith, test_bit-or s.mip mip_seip i, test_bit-one 9 i, reset_bit s.mip 9 i (omega arith) lt)

meip_bit :
    (g c : Bool) (mask : ℕ) (s : Cpu) (i : ℕ)
    → i < 32
    → test_bit (update_context g c mask s 1).mip i
      ≡ (if i == 11 then any mask (get_or s.plic_enable_irq 1 0) else test_bit s.mip i)
unfolding update_context riscv_cpu_set_mip riscv_cpu_reset_mip
meip_bit g c mask s i lt =
    ground (
      arith,
      test_bit-or s.mip mip_meip i,
      test_bit-one 11 i,
      reset_bit s.mip 11 i (omega arith) lt,
    )

enables_kept :
    (g c : Bool) (mask : ℕ) (s : Cpu) (ctx : ℕ)
    → (update_context g c mask s ctx).plic_enable_irq ≡ s.plic_enable_irq
unfolding update_context riscv_cpu_set_mip riscv_cpu_reset_mip
enables_kept g c mask s ctx = ground arith

pub update_cpu-Driven : (g c : Bool) (mask : ℕ) (s : Cpu) → Driven mask s (update_cpu g c mask s)
unfolding update_cpu
update_cpu-Driven g c mask s =
    let t = update_context g c mask s 0 in
    let e = enables_kept g c mask s 0 in
    record {
      enables_same = enables_kept g c mask t 1 ∙ e;
      seip =
          ground (arith, meip_bit g c mask t 9 (omega arith), seip_bit g c mask s 9 (omega arith));
      meip = ground (arith, meip_bit g c mask t 11 (omega arith), e);
      others = λ i lt n9 n11. ground (arith, meip_bit g c mask t i lt, seip_bit g c mask s i lt);
    }

get_elem?-map :
    (f : Cpu → Cpu) (xs : List Cpu) (i : ℕ) (s : Cpu)
    → get_elem? xs i ≡ some s
    → get_elem? (map f xs) i ≡ some (f s)
get_elem?-map f [] i s h = absurd (cc h)
get_elem?-map f (x ∷ xs) zero s h = ground arith
get_elem?-map f (x ∷ xs) (suc i) s h = get_elem?-map f xs i s h

-- After a device raises or lowers its line, every hart's external interrupt bits are those that
-- the waiting sources and the hart's enables call for, and the rest of its mip is unchanged.
pub plic_set_irq-Driven :
    (g c : Bool) (m : RiscvMachine) (irq : ℕ) (state : Bool) (h : ℕ) (s : Cpu)
    → get_elem? m.cpus h ≡ some s
    → let n = plic_set_irq g c m irq state in
      (t : Cpu) × ((get_elem? n.cpus h ≡ some t) × Driven (plic_mask n) s t)
unfolding plic_set_irq plic_mask
plic_set_irq-Driven g c m irq state h s e =
    let n = plic_set_irq g c m irq state in
    (
      update_cpu g c (plic_mask n) s,
      (
        get_elem?-map (update_cpu g c (plic_mask n)) m.cpus h s e,
        update_cpu-Driven g c (plic_mask n) s,
      ),
    )
