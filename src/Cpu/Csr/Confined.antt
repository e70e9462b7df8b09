-- ===== src/Cpu/Csr/Confined.antt =====
-- What a write to a register below machine level cannot change.
use dromajo.Prelude.{ℕ, ◌^◌, ◌<◌, ◌≡◌, refl, false, arith}
use dromajo.Prelude.Bits.{test_bit, merge, test_bit-merge}
use dromajo.Cpu.Constants.{sstatus_mask}
use dromajo.Cpu.State.{Cpu}
use dromajo.Cpu.Mstatus.{set_mstatus, tlb_flush_all, mstatus_write_mask}
use dromajo.Cpu.Csr.Write.{
  Written, invalid, done, flushed, write_switch, write_user, write_supervisor, write_satp,
}

-- `P` holds of the state that a write leaves.
abbrev pub Ensures {ℓ} : (Cpu → Type ℓ) → Written → Type ℓ
Ensures P invalid = Unit
Ensures P (done t) = P t
Ensures P (flushed t) = P t

-- The machine's own registers are as they were; of mstatus the bits of sstatus may change, of mie
-- and mip those of the delegated interrupts.
pub record Confined (s t : Cpu) : Type 0 where
  pub priv_same : t.priv ≡ s.priv
  pub mtvec_same : t.mtvec ≡ s.mtvec
  pub mepc_same : t.mepc ≡ s.mepc
  pub mcause_same : t.mcause ≡ s.mcause
  pub mtval_same : t.mtval ≡ s.mtval
  pub mscratch_same : t.mscratch ≡ s.mscratch
  pub medeleg_same : t.medeleg ≡ s.medeleg
  pub mideleg_same : t.mideleg ≡ s.mideleg
  pub mcounteren_same : t.mcounteren ≡ s.mcounteren
  pub pmpcfg_same : t.csr_pmpcfg ≡ s.csr_pmpcfg
  pub pmpaddr_same : t.csr_pmpaddr ≡ s.csr_pmpaddr
  pub pmp_same : t.pmp ≡ s.pmp
  pub mstatus_outside :
      (i : ℕ)
      → i < 64
      → test_bit sstatus_mask i ≡ false
      → test_bit t.mstatus i ≡ test_bit s.mstatus i
  pub mie_outside :
      (i : ℕ) → i < 64 → test_bit s.mideleg i ≡ false → test_bit t.mie i ≡ test_bit s.mie i
  pub mip_outside :
      (i : ℕ) → i < 64 → test_bit s.mideleg i ≡ false → test_bit t.mip i ≡ test_bit s.mip i

sstatus_bit :
    (m val i : ℕ)
    → i < 64
    → test_bit sstatus_mask i ≡ false
    → test_bit (merge 64 m mstatus_write_mask (merge 64 m sstatus_mask val)) i ≡ test_bit m i
sstatus_bit m val i lt out = ground (
  arith,
  test_bit-merge 64 m mstatus_write_mask (merge 64 m sstatus_mask val) i (omega arith) lt,
  test_bit-merge 64 m sstatus_mask val i (omega arith) lt,
)

delegated_bit :
    (x mideleg val i : ℕ)
    → mideleg < 2 ^ 64
    → i < 64
    → test_bit mideleg i ≡ false
    → test_bit (merge 64 x mideleg val) i ≡ test_bit x i
delegated_bit x mideleg val i w lt out = ground (arith, test_bit-merge 64 x mideleg val i w lt)

write_user-Confined : (s : Cpu) (csr val : ℕ) → Ensures (Confined s) (write_user s csr val)
unfolding write_user
write_user-Confined s csr val = ground arith

sstatus-Confined :
    (s : Cpu) (val : ℕ) → Confined s (set_mstatus s (merge 64 s.mstatus sstatus_mask val))
unfolding set_mstatus tlb_flush_all
sstatus-Confined s val = record {
  priv_same = ground arith;
  mtvec_same = ground arith;
  mepc_same = ground arith;
  mcause_same = ground arith;
  mtval_same = ground arith;
  mscratch_same = ground arith;
  medeleg_same = ground arith;
  mideleg_same = ground arith;
  mcounteren_same = ground arith;
  pmpcfg_same = ground arith;
  pmpaddr_same = ground arith;
  pmp_same = ground arith;
  mstatus_outside = λ i lt out. ground (arith, sstatus_bit s.mstatus val i lt out);
  mie_outside = λ i lt out. ground arith;
  mip_outside = λ i lt out. ground arith;
}

sie-Confined :
    (s : Cpu) (val : ℕ)
    → s.mideleg < 2 ^ 64
    → Confined s record s { mie = merge 64 s.mie s.mideleg val }
sie-Confined s val w = record {
  priv_same = refl;
  mtvec_same = refl;
  mepc_same = refl;
  mcause_same = refl;
  mtval_same = refl;
  mscratch_same = refl;
  medeleg_same = refl;
  mideleg_same = refl;
  mcounteren_same = refl;
  pmpcfg_same = refl;
  pmpaddr_same = refl;
  pmp_same = refl;
  mstatus_outside = λ i lt out. refl;
  mie_outside = λ i lt out. delegated_bit s.mie s.mideleg val i w lt out;
  mip_outside = λ i lt out. refl;
}

sip-Confined :
    (s : Cpu) (val : ℕ)
    → s.mideleg < 2 ^ 64
    → Confined s record s { mip = merge 64 s.mip s.mideleg val }
sip-Confined s val w = record {
  priv_same = refl;
  mtvec_same = refl;
  mepc_same = refl;
  mcause_same = refl;
  mtval_same = refl;
  mscratch_same = refl;
  medeleg_same = refl;
  mideleg_same = refl;
  mcounteren_same = refl;
  pmpcfg_same = refl;
  pmpaddr_same = refl;
  pmp_same = refl;
  mstatus_outside = λ i lt out. refl;
  mie_outside = λ i lt out. refl;
  mip_outside = λ i lt out. delegated_bit s.mip s.mideleg val i w lt out;
}

satp-Confined : (s : Cpu) (val : ℕ) → Ensures (Confined s) (write_satp s val)
unfolding write_satp tlb_flush_all
satp-Confined s val = ground arith

supervisor-Confined :
    (s : Cpu) (csr val : ℕ) → s.mideleg < 2 ^ 64 → Ensures (Confined s) (write_supervisor s csr val)
unfolding write_supervisor
supervisor-Confined s csr val w =
    ground (
      arith,
      sstatus-Confined s val,
      sie-Confined s val w,
      sip-Confined s val w,
      satp-Confined s val,
    )

-- A write to a user or supervisor register (a number below 0x300), whoever makes it, is either
-- refused or leaves a state in which the privilege, the machine's trap, delegation, counter-enable
-- and PMP registers are unchanged, mstatus can differ only in the bits of sstatus, and mie and mip
-- only at delegated interrupts; mideleg is a 64-bit word.
pub write_switch-Confined :
    (s : Cpu) (csr val : ℕ)
    → csr < 0x300
    → s.mideleg < 2 ^ 64
    → Ensures (Confined s) (write_switch s csr val)
unfolding write_switch
write_switch-Confined s csr val lt w =
    ground (arith, write_user-Confined s csr val, supervisor-Confined s csr val w)
