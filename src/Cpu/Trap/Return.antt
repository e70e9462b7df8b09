-- ===== src/Cpu/Trap/Return.antt =====
-- Traps followed by their returns.
use dromajo.Prelude.{ℕ, ◌/◌, ◌^◌, ◌<◌, ◌≡◌, ◌||◌, true, false, ◌==◌, if◌then◌else◌, arith, bit_and}
use dromajo.Prelude.Bits.{test_bit, bit_not, test_bit-one}
use dromajo.Cpu.Constants.{mstatus_mpp, mstatus_spp}
use dromajo.Cpu.State.{Cpu}
use dromajo.Cpu.Mstatus.{set_priv, tlb_flush_all}
use dromajo.Cpu.Trap.{
  raise_exception2, handle_mret, handle_sret, is_delegated, canonical_s49, enter_m, enter_s,
  enter_m_mstatus, enter_s_mstatus, mret_mstatus, sret_mstatus,
}
use dromajo.Cpu.Trap.Status.{
  enter_m_bits, enter_s_bits, mret_bits, sret_bits, mpp_bits, mpp_field, spp_field, clear_bit,
}

enter_m-SetsPriv :
    (s : Cpu) (cause tval : ℕ)
    → let t = enter_m s cause tval in
      (t.mstatus ≡ enter_m_mstatus s.mstatus s.priv)
      × (t.mepc ≡ canonical_s49 s.pc)
      × (t.priv ≡ 3)
      × (t.mcause ≡ cause)
      × (t.mtval ≡ canonical_s49 tval)
unfolding enter_m set_priv tlb_flush_all
enter_m-SetsPriv s cause tval = ground arith

enter_s-SetsPriv :
    (s : Cpu) (cause tval : ℕ)
    → let t = enter_s s cause tval in
      (t.mstatus ≡ enter_s_mstatus s.mstatus s.priv)
      × (t.sepc ≡ canonical_s49 s.pc)
      × (t.priv ≡ 1)
      × (t.scause ≡ cause)
      × (t.stval ≡ canonical_s49 tval)
unfolding enter_s set_priv tlb_flush_all
enter_s-SetsPriv s cause tval = ground arith

module _ (s : Cpu) (cause tval : ℕ) where
  to_m :
      is_delegated s cause ≡ false
      → ((raise_exception2 s cause tval).mstatus ≡ enter_m_mstatus s.mstatus s.priv)
        × ((raise_exception2 s cause tval).mepc ≡ canonical_s49 s.pc)
        × ((raise_exception2 s cause tval).priv ≡ 3)
  unfolding raise_exception2
  to_m h = ground (arith, enter_m-SetsPriv s cause tval)

  to_s :
      is_delegated s cause ≡ true
      → ((raise_exception2 s cause tval).mstatus ≡ enter_s_mstatus s.mstatus s.priv)
        × ((raise_exception2 s cause tval).sepc ≡ canonical_s49 s.pc)
        × ((raise_exception2 s cause tval).priv ≡ 1)
  unfolding raise_exception2
  to_s h = ground (arith, enter_s-SetsPriv s cause tval)

mret_fields :
    (s : Cpu)
    → let t = handle_mret s in
      let m = mret_mstatus s.mstatus in
      (t.priv ≡ bit_and m mstatus_mpp / 2 ^ 11)
      × (t.pc ≡ s.mepc)
      × (t.mstatus ≡ bit_and m (bit_not 64 mstatus_mpp))
unfolding handle_mret set_priv tlb_flush_all
mret_fields s = ground arith

sret_fields :
    (s : Cpu)
    → let t = handle_sret s in
      let m = sret_mstatus s.mstatus in
      (t.priv ≡ bit_and m mstatus_spp / 2 ^ 8)
      × (t.pc ≡ s.sepc)
      × (t.mstatus ≡ bit_and m (bit_not 64 mstatus_spp))
unfolding handle_sret set_priv tlb_flush_all
sret_fields s = ground arith

-- The state after a trap into machine mode and the mret that ends it.
abbrev pub RestoredM : Cpu → Cpu → Type 0
RestoredM s t =
    (t.priv ≡ s.priv)
    × (t.pc ≡ canonical_s49 s.pc)
    × ((i : ℕ)
        → i < 64
        → test_bit t.mstatus i
          ≡ (if i == 7 then true else if i == 11 || i == 12 then false else test_bit s.mstatus i))

-- A trap that is not delegated, and the mret that ends it, give back the privilege, the
-- (canonical) pc and every bit of mstatus but MPIE, which is left set, and MPP, which is left clear.
pub handle_mret-raise_exception2 :
    (s : Cpu) (cause tval : ℕ)
    → s.priv < 4
    → is_delegated s cause ≡ false
    → RestoredM s (handle_mret (raise_exception2 s cause tval))
handle_mret-raise_exception2 s cause tval p h =
    let t = raise_exception2 s cause tval in
    let e = to_m s cause tval h in
    let r = mret_fields t in
    let bits : (i : ℕ)
        → i < 64
        → test_bit (mret_mstatus t.mstatus) i ≡ (
            if i == 7
            then true
            else if i == 11
            then test_bit s.priv 0
            else if i == 12
            then test_bit s.priv 1
            else test_bit s.mstatus i) =
      λ i lt. ground (
        arith,
        e,
        mret_bits t.mstatus i lt,
        enter_m_bits s.mstatus s.priv i p lt,
        enter_m_bits s.mstatus s.priv 7 p (omega arith),
      ) in
    (
      ground (
        arith,
        e,
        r,
        mpp_field (mret_mstatus t.mstatus) s.priv p (bits 11 (omega arith)) (bits 12 (omega arith)),
      ),
      ground (arith, e, r),
      λ i lt. ground (
        arith,
        r,
        clear_bit (mret_mstatus t.mstatus) mstatus_mpp i (omega arith) lt,
        mpp_bits i lt,
        bits i lt,
      ),
    )

-- The state after a trap into supervisor mode and the sret that ends it.
abbrev pub RestoredS : Cpu → Cpu → Type 0
RestoredS s t =
    (t.priv ≡ s.priv)
    × (t.pc ≡ canonical_s49 s.pc)
    × ((i : ℕ)
        → i < 64
        → test_bit t.mstatus i
          ≡ (if i == 5 then true else if i == 8 then false else test_bit s.mstatus i))

delegated_priv : (s : Cpu) (cause : ℕ) → is_delegated s cause ≡ true → s.priv < 2
unfolding is_delegated
delegated_priv s cause h = ground arith

-- A trap that is delegated, and the sret that ends it, give back the privilege, the (canonical) pc
-- and every bit of mstatus but SPIE, which is left set, and SPP, which is left clear.
pub handle_sret-raise_exception2 :
    (s : Cpu) (cause tval : ℕ)
    → is_delegated s cause ≡ true
    → RestoredS s (handle_sret (raise_exception2 s cause tval))
handle_sret-raise_exception2 s cause tval h =
    let p = delegated_priv s cause h in
    let t = raise_exception2 s cause tval in
    let e = to_s s cause tval h in
    let r = sret_fields t in
    let bits : (i : ℕ)
        → i < 64
        → test_bit (sret_mstatus t.mstatus) i
          ≡ (if i == 5 then true else if i == 8 then test_bit s.priv 0 else test_bit s.mstatus i) =
      λ i lt. ground (
        arith,
        e,
        sret_bits t.mstatus i lt,
        enter_s_bits s.mstatus s.priv i p lt,
        enter_s_bits s.mstatus s.priv 5 p (omega arith),
      ) in
    (
      ground (arith, e, r, spp_field (sret_mstatus t.mstatus) s.priv p (bits 8 (omega arith))),
      ground (arith, e, r),
      λ i lt. ground (
        arith,
        r,
        clear_bit (sret_mstatus t.mstatus) mstatus_spp i (omega arith) lt,
        test_bit-one 8 i,
        bits i lt,
      ),
    )
